-- ===== src/Run/Retry/Step.antt =====
-- One round of `process_one_bead`, case by case on what the attempt returned.
use wrapix.Prelude.{ℕ, suc, ◌+◌, ◌≡◌, Option, some, true, false, leb}
use wrapix.Prelude.Text.{Str}
use wrapix.Prelude.Exec.{ok, err}
use wrapix.Core.Bead.{Bead}
use wrapix.Run.Retry.{
  success, failure, done, clarified, RetryPolicy, u32, Controller, unwrap_or_default, process_from,
}

module _ {S E : Type 0} (c : Controller S E) (bead : Bead) (policy : RetryPolicy) where
  pub step_last :
      (fuel k : ℕ) (p : Option Str) (s : S) (e : Str) {t : S}
      → c.run_bead bead p s ≡ (ok (failure e), t)
      → leb policy.max_retries k ≡ true
      → process_from c bead policy (suc fuel) k p s ≡ some (ok (clarified (unwrap_or_default p)), t)
  unfolding process_from
  step_last fuel k p s e h l = rw (h, l)

  pub step_again :
      (fuel k : ℕ) (p : Option Str) (s : S) (e : Str) {t : S}
      → c.run_bead bead p s ≡ (ok (failure e), t)
      → leb policy.max_retries k ≡ false
      → process_from c bead policy (suc fuel) k p s
        ≡ process_from c bead policy fuel (u32 (k + 1)) (some e) t
  unfolding process_from
  step_again fuel k p s e h l = rw (h, l)

  pub step_success :
      (fuel k : ℕ) (p : Option Str) (s : S) {t : S}
      → c.run_bead bead p s ≡ (ok success, t)
      → process_from c bead policy (suc fuel) k p s ≡ some (ok done, t)
  unfolding process_from
  step_success fuel k p s h = rw h

  pub step_error :
      (fuel k : ℕ) (p : Option Str) (s : S) (x : E) {t : S}
      → c.run_bead bead p s ≡ (err x, t)
      → process_from c bead policy (suc fuel) k p s ≡ some (err x, t)
  unfolding process_from
  step_error fuel k p s x h = rw h
