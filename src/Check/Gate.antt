-- ===== src/Check/Gate.antt =====
-- loom/crates/loom-workflow/src/check/verdict.rs, iteration.rs and runner.rs.
pub mod Snapshot
pub mod Branches
use wrapix.Prelude.{
  ℕ, suc, ◌+◌, Bool, not, Option, none, some, List, [], ◌∷◌, ◌++◌, map, leb, any, filter, last?,
  is_empty, if◌then◌else◌,
}
use wrapix.Prelude.Text.{Str, codes, str_eq}
use wrapix.Prelude.Decimal.{to_string}
use wrapix.Prelude.Exec.{Result, ok, err, Exec, pure, raise, lift, ◌>>=◌, ◌>>◌}
use wrapix.Core.Bead.{Bead}
use wrapix.Core.BeadId.{BeadId}
use wrapix.Core.Label.{is_clarify}
use wrapix.Run.Retry.{u32}

-- iteration.rs
pub record IterationCap : Type 0 where
  pub max : ℕ  -- u32

abbrev pub default_cap : IterationCap
default_cap = record { max = 3 }

unfoldable pub is_exhausted : IterationCap → ℕ → Bool
is_exhausted cap current = leb cap.max current

-- verdict.rs
pub data CheckVerdict : Type 0 where
  clean : CheckVerdict
  clarify : List BeadId → CheckVerdict
  auto_iterate : List BeadId → ℕ → CheckVerdict
  iteration_cap : List BeadId → BeadId → ℕ → CheckVerdict

-- `known.contains(id)`
unfoldable pub contains_id : List BeadId → BeadId → Bool
unfolding str_eq
contains_id known id = any (str_eq id) known

unfoldable pub diff_new_bead_ids : List BeadId → List BeadId → List BeadId
unfolding contains_id
diff_new_bead_ids before after = filter (λ id. not (contains_id before id)) after

-- runner.rs
pub data ReviewOutcome : Type 0 where
  complete : ReviewOutcome
  incomplete : Str → ReviewOutcome

pub data CheckResult : Type 0 where
  pushed : CheckResult
  clarified : List BeadId → CheckResult
  auto_iterated : ℕ → CheckResult
  escalated : BeadId → ℕ → CheckResult

-- The trait `CheckController`, and the error that the gate itself raises.
pub record Controller (S E : Type 0) : Type 0 where
  pub run_review : S → Result E ReviewOutcome × S
  pub list_spec_beads : S → Result E (List Bead) × S
  pub iteration_count : S → Result E ℕ × S
  pub set_iteration_count : ℕ → S → Result E (Unit {0}) × S
  pub reset_iteration_count : S → Result E (Unit {0}) × S
  pub apply_clarify : BeadId → Str → S → Result E (Unit {0}) × S
  pub git_push : S → Result E (Unit {0}) × S
  pub beads_push : S → Result E (Unit {0}) × S
  pub exec_run : S → Result E (Unit {0}) × S
  pub review_incomplete : Str → E

abbrev pub bead_id : Bead → BeadId
bead_id bead = bead.id

unfoldable pub clarify_ids_of : List Bead → List BeadId
unfolding is_clarify
clarify_ids_of post = map bead_id (filter (λ b. any is_clarify b.labels) post)

-- The note of an escalation.
unfoldable pub cap_reason : ℕ → Str
unfolding to_string
cap_reason cap =
    codes "Iteration cap ("
    ++ to_string cap
    ++ codes ") reached: review kept finding fix-up work. Human input needed before resuming."

module _ {S E : Type 0} (c : Controller S E) where
  unfoldable pub decide_fixup : List BeadId → IterationCap → Option BeadId → Exec S E CheckVerdict
  unfolding is_exhausted
  decide_fixup new_ids cap none = pure clean
  decide_fixup new_ids cap (some newest) = do
    current ← lift c.iteration_count
    if is_exhausted cap current
        then pure (iteration_cap new_ids newest cap.max)
        else pure (auto_iterate new_ids (u32 (current + 1)))

  unfoldable pub decide_verdict : List BeadId → List BeadId → IterationCap → Exec S E CheckVerdict
  unfolding decide_fixup
  decide_verdict new_ids (id ∷ ids) cap = pure (clarify (id ∷ ids))
  decide_verdict new_ids [] cap = decide_fixup new_ids cap (last? new_ids)

  unfoldable pub apply_verdict : CheckVerdict → Exec S E CheckResult
  apply_verdict clean = do
    lift c.reset_iteration_count
    lift c.git_push
    lift c.beads_push
    pure pushed
  apply_verdict (clarify ids) = pure (clarified ids)
  apply_verdict (auto_iterate _ next) = do
    lift (c.set_iteration_count next)
    lift c.exec_run
    pure (auto_iterated next)
  apply_verdict (iteration_cap _ id cap) = do
    lift (c.apply_clarify id (cap_reason cap))
    pure (escalated id cap)

  unfoldable pub after_review : List BeadId → IterationCap → Exec S E CheckResult
  unfolding diff_new_bead_ids clarify_ids_of decide_verdict apply_verdict
  after_review pre_ids cap = do
    post ← lift c.list_spec_beads
    verdict ←
        decide_verdict (diff_new_bead_ids pre_ids (map bead_id post)) (clarify_ids_of post) cap
    apply_verdict verdict

  unfoldable pub check_loop : IterationCap → Exec S E CheckResult
  unfolding after_review
  check_loop cap = do
    pre ← lift c.list_spec_beads
    review ← lift c.run_review
    elim review [
      | complete ↦ after_review (map bead_id pre) cap
      | incomplete detail ↦ raise (c.review_incomplete detail)
    ]
