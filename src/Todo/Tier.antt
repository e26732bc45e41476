-- ===== src/Todo/Tier.antt =====
-- loom/crates/loom-workflow/src/todo/tier.rs: the tier of a `loom todo` run. Git and the lookup of
-- sibling specs are parameters; paths are texts, and the stem of a path is `Path::file_stem`.
pub mod Choice
pub mod Fanout
use wrapix.Prelude.{
  Bool, true, false, not, ◌&&◌, Option, none, some, List, [], ◌∷◌, is_empty, is_some, or_option,
  if◌then◌else◌,
}
use wrapix.Prelude.Text.{Str, str_eq}
use wrapix.Prelude.Exec.{Result, ok, err}
use wrapix.Core.Label.{SpecLabel, MoleculeId}

pub record GitDiffSource : Type 0 where
  pub rev_exists : Str → Bool
  pub is_ancestor_of_head : Str → Bool
  pub changed_spec_files : Str → List Str
  pub diff_spec : Str → Str → Str

pub record MoleculeState : Type 0 where
  pub id : MoleculeId
  pub base_commit : Option Str

pub record TierInputs : Type 0 where
  pub label : SpecLabel
  pub spec_path : Str
  pub molecule : Option MoleculeState
  pub since : Option Str
  pub sibling_base : SpecLabel → Option Str

pub record DiffCandidate : Type 0 where
  pub label : SpecLabel
  pub spec_path : Str
  pub effective_base : Str
  pub diff : Str

pub data TierDecision : Type 0 where
  diff : Str → List DiffCandidate → TierDecision
  tasks : MoleculeId → TierDecision
  new : TierDecision

-- The error that this function raises, of `TodoError`.
pub data TodoError : Type 0 where
  invalid_since_commit : Str → TodoError

abbrev pub base_of : Option MoleculeState → Option Str
base_of none = none
base_of (some m) = m.base_commit

module _ (git : GitDiffSource) (file_stem : Str → Option Str) (inputs : TierInputs) where
  -- The recorded base, if it can be diffed against HEAD.
  unfoldable pub usable_or : Str → Option Str → Str
  usable_or anchor_base none = anchor_base
  usable_or anchor_base (some b) =
      if not (git.rev_exists b)
      then anchor_base
      else if not (git.is_ancestor_of_head b)
      then anchor_base
      else b

  unfoldable pub recorded_base : Str → SpecLabel → Str
  unfolding usable_or str_eq
  recorded_base anchor_base cand_label = usable_or anchor_base (
      if str_eq cand_label inputs.label
      then base_of inputs.molecule
      else inputs.sibling_base cand_label)

  unfoldable pub base_since : Option Str → Str → SpecLabel → Str → Str
  unfolding recorded_base str_eq
  base_since none anchor_base cand_label cand_path = recorded_base anchor_base cand_label
  base_since (some since) anchor_base cand_label cand_path =
      if str_eq cand_path inputs.spec_path then since else recorded_base anchor_base cand_label

  unfoldable pub effective_base_for : Str → SpecLabel → Str → Str
  unfolding base_since
  effective_base_for = base_since inputs.since

  -- One file of the fan-out, if its name has a stem and it has a diff.
  unfoldable pub candidate : Str → Str → Option Str → Option DiffCandidate
  unfolding effective_base_for
  candidate anchor_base cand_path none = none
  candidate anchor_base cand_path (some cand_label) =
      let base = effective_base_for anchor_base cand_label cand_path in
      let text = git.diff_spec base cand_path in
      if is_empty text
      then none
      else some
          (record { label = cand_label; spec_path = cand_path; effective_base = base; diff = text })

  abbrev push : Option DiffCandidate → List DiffCandidate → List DiffCandidate
  push none out = out
  push (some c) out = c ∷ out

  unfoldable pub candidates_of : Str → List Str → List DiffCandidate
  unfolding candidate
  candidates_of anchor_base [] = []
  candidates_of anchor_base (path ∷ paths) =
      push (candidate anchor_base path (file_stem path)) (candidates_of anchor_base paths)

  unfoldable pub build_fanout : Str → List DiffCandidate
  unfolding candidates_of
  build_fanout anchor_base = candidates_of anchor_base (git.changed_spec_files anchor_base)

  -- No usable base commit: tier 2 if there is a molecule, else tier 4.
  unfoldable pub without_base : Option MoleculeState → TierDecision
  without_base (some state) = tasks state.id
  without_base none = new

  unfoldable pub unless_since : Option Str → Result TodoError TierDecision
  unfolding without_base
  unless_since (some commit) = err (invalid_since_commit commit)
  unless_since none = ok (without_base inputs.molecule)

  unfoldable pub decide_tier : Option Str → Result TodoError TierDecision
  unfolding build_fanout unless_since
  decide_tier none = unless_since inputs.since
  decide_tier (some base) =
      if git.rev_exists base && git.is_ancestor_of_head base
      then ok (diff base (build_fanout base))
      else unless_since inputs.since

  unfoldable pub since_missing : Option Str → Bool
  since_missing none = false
  since_missing (some commit) = not (git.rev_exists commit)

  unfoldable pub compute_spec_diff : Result TodoError TierDecision
  unfolding decide_tier since_missing
  compute_spec_diff =
      if since_missing inputs.since
      then unless_since inputs.since
      else decide_tier (or_option inputs.since (base_of inputs.molecule))
