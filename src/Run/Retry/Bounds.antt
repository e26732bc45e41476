-- ===== src/Run/Retry/Bounds.antt =====
-- The retry budget of loom/crates/loom-workflow/src/run/runner.rs, `process_one_bead`: what a
-- result says of the attempts before it.
use wrapix.Prelude.{
  ℕ, zero, suc, ◌+◌, ◌^◌, ◌≤◌, ◌<◌, ◌≡◌, refl, ◌∙◌, Option, none, some, inl, inr, false, leb,
  Bool-cases, arith,
}
use wrapix.Prelude.Text.{Str}
use wrapix.Prelude.Exec.{Result, ok, err}
use wrapix.Core.Bead.{Bead}
use wrapix.Run.Retry.Step.{step_last, step_again, step_success, step_error}
use wrapix.Run.Retry.{
  AgentOutcome, success, failure, BeadResult, done, clarified, RetryPolicy, u32, Controller,
  unwrap_or_default, process_from, process_one_bead,
}

module _ {S E : Type 0} (c : Controller S E) (bead : Bead) where
  -- `n` attempts in a row failed: the first ran with the previous failure `p` in state `s`, each
  -- later one with the error of the attempt before it; `q` and `t` are left for the next attempt.
  pub data Fails (q : Option Str) (t : S) : ℕ → Option Str → S → Type 0 where
    here : Fails q t zero q t
    next :
        {n : ℕ} {p : Option Str} {s s' : S} (e : Str)
        → c.run_bead bead p s ≡ (ok (failure e), s')
        → Fails q t n (some e) s'
        → Fails q t (suc n) p s

  -- What happened, if `k` of `max` retries were used before and the result is `r` in state `t`.
  abbrev pub Explained : ℕ → ℕ → Option Str → S → Result E BeadResult → S → Type 0
  Explained max k p s (ok done) t =
      (n : ℕ) × (q : Option Str) × (s' : S) × (n + k ≤ max)
      × Fails q s' n p s
      × (c.run_bead bead q s' ≡ (ok success, t))
  Explained max k p s (ok (clarified last)) t =
      (n : ℕ) × (q : Option Str) × (s' : S) × (n + k ≡ max)
      × Fails q s' n p s
      × ((e : Str) × (c.run_bead bead q s' ≡ (ok (failure e), t)))
      × (last ≡ unwrap_or_default q)
  Explained max k p s (err x) t =
      (n : ℕ) × (q : Option Str) × (s' : S) × (n + k ≤ max)
      × Fails q s' n p s
      × (c.run_bead bead q s' ≡ (err x, t))

  module _ (policy : RetryPolicy) where
    abbrev Returns : ℕ → ℕ → Option Str → S → Type 0
    Returns fuel k p s =
        (r : Result E BeadResult) × (t : S) × (process_from c bead policy fuel k p s ≡ some (r, t))
        × Explained policy.max_retries k p s r t

    -- An attempt that failed, in front of the story of the later ones.
    explain_later :
        (k : ℕ) (p : Option Str) (s : S) (e : Str) {t : S}
        → c.run_bead bead p s ≡ (ok (failure e), t)
        → (r : Result E BeadResult) (u : S) → Explained policy.max_retries (k + 1) (some e) t r u
        → Explained policy.max_retries k p s r u
    explain_later k p s e h (ok done) u (n, q, s', le, fs, last) =
        (suc n, q, s', omega arith, next e h fs, last)
    explain_later k p s e h (ok (clarified _)) u (n, q, s', eq, fs, last, body) =
        (suc n, q, s', omega arith, next e h fs, last, body)
    explain_later k p s e h (err x) u (n, q, s', le, fs, last) =
        (suc n, q, s', omega arith, next e h fs, last)

    later :
        (fuel k : ℕ) (p : Option Str) (s : S) (e : Str) {t : S}
        → c.run_bead bead p s ≡ (ok (failure e), t)
        → leb policy.max_retries k ≡ false
        → u32 (k + 1) ≡ k + 1
        → Returns fuel (u32 (k + 1)) (some e) t
        → Returns (suc fuel) k p s
    later fuel k p s e h l small (r, u, ran, why) = (
      r,
      u,
      step_again c bead policy fuel k p s e h l ∙ ran,
      explain_later k p s e h r u (rw small at why),
    )

    -- One round, on each outcome of the attempt.
    round :
        (fuel k : ℕ) (p : Option Str) (s : S)
        → policy.max_retries < 2 ^ 32
        → k ≤ policy.max_retries
        → ((e : Str) (t : S)
            → u32 (k + 1) ≤ policy.max_retries
            → policy.max_retries < fuel + u32 (k + 1)
            → Returns fuel (u32 (k + 1)) (some e) t)
        → policy.max_retries < suc fuel + k
        → (x : Result E AgentOutcome × S) → c.run_bead bead p s ≡ x
        → Returns (suc fuel) k p s
    round fuel k p s small le rest enough (ok success, t) h =
        (ok done, t, step_success c bead policy fuel k p s h, (0, p, s, omega arith, here, h))
    round fuel k p s small le rest enough (err x, t) h =
        (err x, t, step_error c bead policy fuel k p s x h, (0, p, s, omega arith, here, h))
    round fuel k p s small le rest enough (ok (failure e), t) h =
        elim (Bool-cases (leb policy.max_retries k)) [
          | inl l ↦ (
            ok (clarified (unwrap_or_default p)),
            t,
            step_last c bead policy fuel k p s e h l,
            (0, p, s, ground arith, here, (e, h), refl),
          )
          | inr l ↦ later fuel k p s e h l (ground arith) (rest e t (ground arith) (ground arith))
        ]

    process_from-Returns :
        (fuel k : ℕ) (p : Option Str) (s : S)
        → policy.max_retries < 2 ^ 32
        → k ≤ policy.max_retries
        → policy.max_retries < fuel + k
        → Returns fuel k p s
    process_from-Returns zero k p s small le enough = absurd (omega arith)
    process_from-Returns (suc fuel) k p s small le enough =
        round fuel k p s small le (λ e t. process_from-Returns fuel (u32 (k + 1)) (some e) t small)
          enough (c.run_bead bead p s) refl

    -- With a budget that a u32 holds, the retry loop always returns: done after a success, and
    -- then at most `max_retries` attempts had failed before, each retried with the error of the
    -- attempt before it; clarified after exactly `max_retries + 1` failed attempts, with the text
    -- that was handed to the last attempt; or with the error of the attempt that broke off.
    pub process_one_bead-Explained :
        (s : S)
        → policy.max_retries < 2 ^ 32
        → (r : Result E BeadResult) × (t : S) × (process_one_bead c bead policy s ≡ some (r, t))
          × Explained policy.max_retries 0 none s r t
    unfolding process_one_bead
    process_one_bead-Explained s small =
        process_from-Returns (suc policy.max_retries) 0 none s small (omega arith) (omega arith)
