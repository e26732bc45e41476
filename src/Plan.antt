-- ===== src/Plan.antt =====
-- loom/crates/loom-workflow/src/plan: error.rs, and what is done after the interview.
pub mod Companions
mod Tests
use wrapix.Prelude.Text.{Str}
use wrapix.State.Db.{StateError}
use wrapix.Lock.{LockError}

-- `I` is an error of the operating system, `R` one of the templates; `Q` and `J` are those of the
-- state database.
pub data PlanError (Q J I R : Type 0) : Type 0 where
  mode_required conflicting_modes : PlanError Q J I R
  spec_missing interview_produced_no_spec : Str → PlanError Q J I R
  read_pinned_context read_spec : Str → I → PlanError Q J I R
  render : R → PlanError Q J I R
  lock : LockError I → PlanError Q J I R
  state : StateError Q J I → PlanError Q J I R
  spawn : I → PlanError Q J I R
  wrapix_exit : Str → PlanError Q J I R
