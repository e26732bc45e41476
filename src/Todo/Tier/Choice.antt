-- ===== src/Todo/Tier/Choice.antt =====
-- Which tier `compute_spec_diff` of loom/crates/loom-workflow/src/todo/tier.rs chooses.
use wrapix.Prelude.{
  ◌≡◌, refl, ◌⊎◌, inl, inr, true, false, ◌&&◌, Option, none, some, Bool-cases, Option-cases, arith,
}
use wrapix.Prelude.Text.{Str}
use wrapix.Prelude.Exec.{Result, ok, err}
use wrapix.Todo.Tier.{
  GitDiffSource, MoleculeState, TierInputs, TierDecision, diff, tasks, new, TodoError,
  invalid_since_commit, base_of, without_base, build_fanout, compute_spec_diff,
}

-- The commit exists and HEAD descends from it.
abbrev pub Reachable : GitDiffSource → Str → Type 0
Reachable git rev = (git.rev_exists rev ≡ true) × (git.is_ancestor_of_head rev ≡ true)

-- The base that the anchor would be diffed from cannot be used.
abbrev pub Unusable : GitDiffSource → Option Str → Type 0
Unusable git none = Unit
Unusable git (some base) = ¬ Reachable git base

-- What each answer means.
abbrev pub Means :
    GitDiffSource → (Str → Option Str) → TierInputs → Result TodoError TierDecision → Type 0
Means git stem inputs (ok (diff base candidates)) =
    Reachable git base
    × ((inputs.since ≡ some base) ⊎ ((inputs.since ≡ none) × (base_of inputs.molecule ≡ some base)))
    × (candidates ≡ build_fanout git stem inputs base)
Means git stem inputs (ok (tasks id)) =
    (inputs.since ≡ none)
    × Unusable git (base_of inputs.molecule)
    × ((m : MoleculeState) × (inputs.molecule ≡ some m) × (m.id ≡ id))
Means git stem inputs (ok new) = (inputs.since ≡ none) × (inputs.molecule ≡ none)
Means git stem inputs (err (invalid_since_commit commit)) =
    (inputs.since ≡ some commit) × (¬ Reachable git commit)

module _ (git : GitDiffSource) (stem : Str → Option Str) (inputs : TierInputs) where
  abbrev Answer : Type 0
  Answer = Means git stem inputs (compute_spec_diff git stem inputs)

  -- The five ways through the function.
  no_base :
      inputs.since ≡ none
      → base_of inputs.molecule ≡ none
      → compute_spec_diff git stem inputs ≡ ok (without_base git stem inputs inputs.molecule)
  unfolding compute_spec_diff
  no_base e b = ground arith

  bad_base :
      (base : Str)
      → inputs.since ≡ none
      → base_of inputs.molecule ≡ some base
      → (git.rev_exists base && git.is_ancestor_of_head base) ≡ false
      → compute_spec_diff git stem inputs ≡ ok (without_base git stem inputs inputs.molecule)
  unfolding compute_spec_diff
  bad_base base e b h = ground arith

  good_base :
      (base : Str)
      → inputs.since ≡ none
      → base_of inputs.molecule ≡ some base
      → (git.rev_exists base && git.is_ancestor_of_head base) ≡ true
      → compute_spec_diff git stem inputs ≡ ok (diff base (build_fanout git stem inputs base))
  unfolding compute_spec_diff
  good_base base e b h = ground arith

  good_since :
      (base : Str)
      → inputs.since ≡ some base
      → (git.rev_exists base && git.is_ancestor_of_head base) ≡ true
      → compute_spec_diff git stem inputs ≡ ok (diff base (build_fanout git stem inputs base))
  unfolding compute_spec_diff
  good_since base e h = ground arith

  bad_since :
      (base : Str)
      → inputs.since ≡ some base
      → (git.rev_exists base && git.is_ancestor_of_head base) ≡ false
      → compute_spec_diff git stem inputs ≡ err (invalid_since_commit base)
  unfolding compute_spec_diff
  bad_since base e h = ground arith

  without-Means :
      (m : Option MoleculeState)
      → inputs.molecule ≡ m
      → inputs.since ≡ none
      → Unusable git (base_of inputs.molecule)
      → Means git stem inputs (ok (without_base git stem inputs m))
  unfolding without_base
  without-Means none h e u = (e, h)
  without-Means (some state) h e u = (e, u, (state, h, refl))

  both :
      (base : Str)
      → (git.rev_exists base && git.is_ancestor_of_head base) ≡ true
      → Reachable git base
  both base h = ground arith

  not_both :
      (base : Str)
      → (git.rev_exists base && git.is_ancestor_of_head base) ≡ false
      → ¬ Reachable git base
  not_both base h (r, a) = ground arith

  -- What `loom todo` decides, for every git, inputs and molecule: a diff from a base that exists
  -- and that HEAD descends from, which is the `--since` commit or else the molecule's base; tier 2
  -- only without `--since`, where the molecule has no base that can be used; a fresh decomposition
  -- only where there is no molecule either; and an error only for a `--since` commit that cannot
  -- be used.
  pub compute_spec_diff-Means : Means git stem inputs (compute_spec_diff git stem inputs)
  compute_spec_diff-Means = elim (Option-cases inputs.since) [
    | inl e ↦ elim (Option-cases (base_of inputs.molecule)) [
      | inl b ↦ rw (no_base e b) (without-Means inputs.molecule refl e (rw b tt))
      | inr (base, b) ↦ elim (Bool-cases (git.rev_exists base && git.is_ancestor_of_head base)) [
        | inl h ↦ rw (good_base base e b h) (both base h, inr (e, b), refl)
        | inr h ↦
            rw (bad_base base e b h) (without-Means inputs.molecule refl e (rw b (not_both base h)))
      ]
    ]
    | inr (base, e) ↦ elim (Bool-cases (git.rev_exists base && git.is_ancestor_of_head base)) [
      | inl h ↦ rw (good_since base e h) (both base h, inl e, refl)
      | inr h ↦ rw (bad_since base e h) (e, not_both base h)
    ]
  ]
