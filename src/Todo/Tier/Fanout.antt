-- ===== src/Todo/Tier/Fanout.antt =====
-- The fan-out of loom/crates/loom-workflow/src/todo/tier.rs: `build_fanout` and
-- `effective_base_for`.
use mathlib.Core.List.{Sublistᴰ}
use mathlib.Core.Option.{some-injective}
use wrapix.Prelude.{
  ◌≡◌, ◌≢◌, refl, sym, subst, ◌∙◌, ◌⊎◌, inl, inr, Option, none, some, List, [], ◌∷◌, map, is_empty,
  All, Bool-cases, Option-cases, if◌then◌else◌, arith,
}
use wrapix.Prelude.Text.{Str, str_eq}
use wrapix.Prelude.Exec.{Result, ok, err}
use wrapix.Todo.Tier.{
  GitDiffSource, TierInputs, DiffCandidate, usable_or, recorded_base, base_since,
  effective_base_for, candidate, candidates_of, build_fanout, base_of, TierDecision, diff, tasks,
  new, TodoError, compute_spec_diff,
}
use wrapix.Todo.Tier.Choice.{Reachable, Means, compute_spec_diff-Means}

abbrev pub path_of : DiffCandidate → Str
path_of c = c.spec_path

module _ (git : GitDiffSource) (stem : Str → Option Str) (inputs : TierInputs) (anchor : Str) where
  -- What holds of each candidate: its label is the stem of its path, its diff is not empty and is the
  -- one from its base, and its base can be used.
  abbrev pub Sound : DiffCandidate → Type 0
  Sound c =
      (stem c.spec_path ≡ some c.label)
      × (c.diff ≢ [])
      × (c.diff ≡ git.diff_spec c.effective_base c.spec_path)
      × (c.effective_base ≡ effective_base_for git stem inputs anchor c.label c.spec_path)
      × Reachable git c.effective_base

  module _ (usable : Reachable git anchor)
      (since_usable : (c : Str) → inputs.since ≡ some c → Reachable git c) where
    usable_or-Reachable : (o : Option Str) → Reachable git (usable_or git stem inputs anchor o)
    unfolding usable_or
    usable_or-Reachable none = usable
    usable_or-Reachable (some b) = ground arith

    base_since-Reachable :
        (o : Option Str) (label path : Str)
        → inputs.since ≡ o
        → Reachable git (base_since git stem inputs o anchor label path)
    unfolding base_since recorded_base
    base_since-Reachable none label path e = usable_or-Reachable _
    base_since-Reachable (some c) label path e = elim (Bool-cases (str_eq path inputs.spec_path)) [
      | inl h ↦ rw h (since_usable c e)
      | inr h ↦ rw h (usable_or-Reachable _)
    ]

    effective-Reachable :
        (label path : Str) → Reachable git (effective_base_for git stem inputs anchor label path)
    unfolding effective_base_for
    effective-Reachable label path = base_since-Reachable inputs.since label path refl

    -- One candidate, from its base and its diff.
    text-Sound :
        (path label base text : Str) (c : DiffCandidate)
        → stem path ≡ some label
        → base ≡ effective_base_for git stem inputs anchor label path
        → git.diff_spec base path ≡ text
        → Reachable git base
        → (if is_empty text
            then none
            else some
                (record { label = label; spec_path = path; effective_base = base; diff = text }))
          ≡ some c
        → Sound c × (c.spec_path ≡ path)
    text-Sound path label base [] c e b t r h = cc h
    text-Sound path label base (d ∷ ds) c e b t r h =
        subst (λ k. Sound k × (k.spec_path ≡ path)) (some-injective _ _ h)
          ((e, λ z. cc z, sym t, b, r), refl)

    candidate-Sound :
        (path : Str) (o : Option Str) (c : DiffCandidate)
        → stem path ≡ o
        → candidate git stem inputs anchor path o ≡ some c
        → Sound c × (c.spec_path ≡ path)
    candidate-Sound path none c e h = unfold candidate in cc h
    candidate-Sound path (some label) c e h =
        text-Sound path label (effective_base_for git stem inputs anchor label path)
          (git.diff_spec (effective_base_for git stem inputs anchor label path) path) c e refl refl
          (effective-Reachable label path) (unfold candidate in h)

    abbrev Fanned : List Str → Type 0
    Fanned paths =
        All Sound (candidates_of git stem inputs anchor paths)
        × Sublistᴰ (map path_of (candidates_of git stem inputs anchor paths)) paths

    candidates_of-Fanned : (paths : List Str) → Fanned paths
    unfolding candidates_of
    candidates_of-Fanned [] = (tt, Sublistᴰ.slnil)
    candidates_of-Fanned (path ∷ paths) =
        let (sound, ordered) = candidates_of-Fanned paths in
        elim (Option-cases (candidate git stem inputs anchor path (stem path))) [
          | inl h ↦ rw h (sound, Sublistᴰ.cons ordered)
          | inr (c, h) ↦
              let (sound', here) = candidate-Sound path (stem path) c refl h in
              rw h ((sound', sound), Sublistᴰ.cons-cons here ordered)
        ]

    build_fanout-Fanned :
        All Sound (build_fanout git stem inputs anchor)
        × Sublistᴰ
            (map path_of (build_fanout git stem inputs anchor))
            (git.changed_spec_files anchor)
    unfolding build_fanout
    build_fanout-Fanned = candidates_of-Fanned (git.changed_spec_files anchor)

module _ (git : GitDiffSource) (stem : Str → Option Str) (inputs : TierInputs) where
  abbrev pub Fans : Result TodoError TierDecision → Type 0
  Fans (ok (diff base candidates)) =
      All (Sound git stem inputs base) candidates
      × Sublistᴰ (map path_of candidates) (git.changed_spec_files base)
  Fans _ = Unit

  since_Reachable :
      (base : Str)
      → Reachable git base
      → (inputs.since ≡ some base) ⊎ ((inputs.since ≡ none) × (base_of inputs.molecule ≡ some base))
      → (c : Str) → inputs.since ≡ some c
      → Reachable git c
  since_Reachable base r (inl e) c h = subst (Reachable git) (some-injective _ _ (sym e ∙ h)) r
  since_Reachable base r (inr (e, _)) c h = cc (e, h)

  Means-Fans : (r : Result TodoError TierDecision) → Means git stem inputs r → Fans r
  Means-Fans (ok (diff base candidates)) (usable, origin, e) =
      subst
        (λ cs.
          All (Sound git stem inputs base) cs
          × Sublistᴰ (map path_of cs) (git.changed_spec_files base))
        (sym e)
        (build_fanout-Fanned git stem inputs base usable (since_Reachable base usable origin))
  Means-Fans (ok (tasks id)) m = tt
  Means-Fans (ok new) m = tt
  Means-Fans (err x) m = tt

  -- Where `compute_spec_diff` chooses tier 1: each candidate is labelled with the stem of its path;
  -- its diff is not empty and is git's diff of that path from the candidate's effective base; and
  -- that base exists and HEAD descends from it. The candidates' paths are among the changed spec
  -- files, in their order.
  pub compute_spec_diff-Fans : Fans (compute_spec_diff git stem inputs)
  compute_spec_diff-Fans = Means-Fans _ (compute_spec_diff-Means git stem inputs)
