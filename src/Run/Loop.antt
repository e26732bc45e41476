-- ===== src/Run/Loop.antt =====
-- loom/crates/loom-workflow/src/run/runner.rs: `RunMode`, `RunSummary` and `run_loop`.
mod Step
pub mod Accounts
pub mod Ending
pub mod Endless
use wrapix.Prelude.{ℕ, zero, suc, ◌+◌, Bool, true, false, Option, none, some}
use wrapix.Prelude.Exec.{Exec, pure, lift, ◌>>=◌, ◌>>◌}
use wrapix.Core.Bead.{Bead}
use wrapix.Run.Retry.{BeadResult, done, clarified, RetryPolicy, Controller, u32, process_one_bead}

pub data RunMode : Type 0 where
  once continuous : RunMode

pub record RunSummary : Type 0 where
  pub beads_processed : ℕ  -- u32
  pub beads_clarified : ℕ  -- u32
  pub molecule_complete : Bool
  pub execed_check : Bool

abbrev pub default_summary : RunSummary
default_summary = record {
  beads_processed = 0;
  beads_clarified = 0;
  molecule_complete = false;
  execed_check = false;
}

module _ {S E : Type 0} (c : Controller S E) (policy : RetryPolicy) where
  -- `next_ready_bead` returned `None`.
  unfoldable pub complete : RunMode → RunSummary → Exec S E RunSummary
  complete once summary = pure (record summary { molecule_complete = true })
  complete continuous summary = do
    lift c.exec_check
    pure (record summary { molecule_complete = true; execed_check = true })

  -- The bd side of one bead's result, after `beads_processed` was counted up.
  unfoldable pub settle : Bead → BeadResult → RunSummary → Exec S E RunSummary
  settle bead done summary = do lift (c.close_bead bead.id); pure summary
  settle bead (clarified _) summary = do
    lift (c.apply_clarify bead.id)
    pure (record summary { beads_clarified = u32 (summary.beads_clarified + 1) })

  unfoldable pub process_and_settle : Bead → RunSummary → Exec S E RunSummary
  unfolding settle
  process_and_settle bead summary = do
    result ← process_one_bead c bead policy
    settle bead result (record summary { beads_processed = u32 (summary.beads_processed + 1) })

  -- The loop, `fuel` rounds of it.
  unfoldable pub run_loop_from : RunMode → ℕ → RunSummary → Exec S E RunSummary
  unfolding complete process_and_settle
  run_loop_from mode zero summary s = none
  run_loop_from mode (suc fuel) summary s =
      (do
        next ← lift c.next_ready_bead
        elim next [
          | none ↦ complete mode summary
          | some bead ↦ do
            summary' ← process_and_settle bead summary
            elim mode [ once ↦ pure summary' | continuous ↦ run_loop_from mode fuel summary' ]
        ])
        s

  unfoldable pub run_loop : RunMode → ℕ → Exec S E RunSummary
  unfolding run_loop_from
  run_loop mode fuel = run_loop_from mode fuel default_summary
