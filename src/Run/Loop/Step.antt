-- ===== src/Run/Loop/Step.antt =====
-- One round of `run_loop`, case by case on what the controller answers.
use wrapix.Prelude.{ℕ, suc, ◌≡◌, none, some}
use wrapix.Prelude.Exec.{ok, err, continue, pure}
use wrapix.Core.Bead.{Bead}
use wrapix.Run.Retry.{RetryPolicy, Controller}
use wrapix.Run.Loop.{
  RunMode, once, continuous, RunSummary, complete, process_and_settle, run_loop_from,
}

module _ {S E : Type 0} (c : Controller S E) (policy : RetryPolicy) where
  pub step_error :
      (mode : RunMode) (fuel : ℕ) (m : RunSummary) (s : S) (x : E) {t : S}
      → c.next_ready_bead s ≡ (err x, t)
      → run_loop_from c policy mode (suc fuel) m s ≡ some (err x, t)
  unfolding run_loop_from
  step_error mode fuel m s x h = rw h

  pub step_complete :
      (mode : RunMode) (fuel : ℕ) (m : RunSummary) (s : S) {t : S}
      → c.next_ready_bead s ≡ (ok none, t)
      → run_loop_from c policy mode (suc fuel) m s ≡ complete c policy mode m t
  unfolding run_loop_from
  step_complete mode fuel m s h = rw h

  pub step_once :
      (fuel : ℕ) (m : RunSummary) (s : S) (bead : Bead) {t : S}
      → c.next_ready_bead s ≡ (ok (some bead), t)
      → run_loop_from c policy once (suc fuel) m s
        ≡ continue (process_and_settle c policy bead m t) pure
  unfolding run_loop_from
  step_once fuel m s bead h = rw h

  pub step_continuous :
      (fuel : ℕ) (m : RunSummary) (s : S) (bead : Bead) {t : S}
      → c.next_ready_bead s ≡ (ok (some bead), t)
      → run_loop_from c policy continuous (suc fuel) m s
        ≡ continue (process_and_settle c policy bead m t) (run_loop_from c policy continuous fuel)
  unfolding run_loop_from
  step_continuous fuel m s bead h = rw h
