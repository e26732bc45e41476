-- ===== src/Run/Loop/Ending.antt =====
-- When loom/crates/loom-workflow/src/run/runner.rs, `run_loop`, returns: after one bead in once mode, and
-- in continuous mode with the first round in which there is no bead or a call fails.
use wrapix.Prelude.{
  ℕ, zero, suc, ◌+◌, ◌^◌, ◌<◌, ◌≡◌, ◌↔◌, ◌⊎◌, refl, sym, ap, ◌∙◌, true, Option, none, some, inl,
  inr,
}
use wrapix.Prelude.Text.{Str}
use wrapix.Prelude.Exec.{Result, ok, err, continue, pure}
use wrapix.Core.Bead.{Bead}
use wrapix.Run.Retry.Bounds.{process_one_bead-Explained}
use wrapix.Run.Retry.{BeadResult, done, clarified, RetryPolicy, u32, Controller, process_one_bead}
use wrapix.Run.Loop.{
  RunMode, once, continuous, RunSummary, default_summary, complete, settle, process_and_settle,
  run_loop_from, run_loop,
}
use wrapix.Run.Loop.Step.{step_error, step_complete, step_once, step_continuous}

abbrev pub Defined : {A : Type 0} → Option A → Type 0
Defined {A} o = (a : A) × (o ≡ some a)

module _ {S E : Type 0} (c : Controller S E) (policy : RetryPolicy) where
  -- The bead is closed, or flagged for clarification where it was given up.
  abbrev Settled : Bead → BeadResult → S → S → Type 0
  Settled bead done s t = c.close_bead bead.id s ≡ (ok tt, t)
  Settled bead (clarified _) s t = c.apply_clarify bead.id s ≡ (ok tt, t)

  -- The next ready bead is worked on and settled, and no call fails; so many times, one after another.
  abbrev pub Rounds : ℕ → S → Type 0
  Rounds zero s = Unit
  Rounds (suc n) s =
      (bead : Bead) × (t : S) × (result : BeadResult) × (u : S) × (v : S) × (c.next_ready_bead s
        ≡ (ok (some bead), t))
      × (process_one_bead c bead policy t ≡ some (ok result, u))
      × Settled bead result u v
      × Rounds n v

  abbrev counted : BeadResult → RunSummary → RunSummary
  counted done m = record m { beads_processed = u32 (m.beads_processed + 1) }
  counted (clarified _) m = record m {
    beads_processed = u32 (m.beads_processed + 1);
    beads_clarified = u32 (m.beads_clarified + 1);
  }

  Settled-continues :
      (bead : Bead) (m : RunSummary) (t : S) (result : BeadResult) (u v : S)
      → process_one_bead c bead policy t ≡ some (ok result, u)
      → Settled bead result u v
      → process_and_settle c policy bead m t ≡ some (ok (counted result m), v)
  unfolding process_and_settle settle
  Settled-continues bead m t done u v e s = rw (e, s) refl
  Settled-continues bead m t (clarified x) u v e s = rw (e, s) refl

  -- What becomes of a bead: a call fails, or the bead is settled.
  abbrev Round : Bead → RunSummary → S → Type 0
  Round bead m t =
      ((x : E) × (w : S) × (process_and_settle c policy bead m t ≡ some (err x, w)))
      ⊎ ((m' : RunSummary) × (v : S) × (result : BeadResult) × (u : S) × (process_and_settle c
              policy bead m t
            ≡ some (ok m', v))
          × (process_one_bead c bead policy t ≡ some (ok result, u))
          × Settled bead result u v)

  Settled-Round :
      (bead : Bead) (m : RunSummary) (t : S) (result : BeadResult) (u v : S)
      → process_one_bead c bead policy t ≡ some (ok result, u)
      → Settled bead result u v
      → Round bead m t
  Settled-Round bead m t result u v e s =
      inr (counted result m, v, result, u, Settled-continues bead m t result u v e s, e, s)

  closing-Round :
      (bead : Bead) (m : RunSummary) (t u : S)
      → process_one_bead c bead policy t ≡ some (ok done, u)
      → (x : Result E (Unit {0}) × S) → c.close_bead bead.id u ≡ x
      → Round bead m t
  unfolding process_and_settle settle
  closing-Round bead m t u e (ok _, v) h = Settled-Round bead m t done u v e h
  closing-Round bead m t u e (err x, v) h = inl (x, v, rw (e, h) refl)

  flagging-Round :
      (bead : Bead) (m : RunSummary) (t u : S) (text : Str)
      → process_one_bead c bead policy t ≡ some (ok (clarified text), u)
      → (x : Result E (Unit {0}) × S) → c.apply_clarify bead.id u ≡ x
      → Round bead m t
  unfolding process_and_settle settle
  flagging-Round bead m t u text e (ok _, v) h = Settled-Round bead m t (clarified text) u v e h
  flagging-Round bead m t u text e (err x, v) h = inl (x, v, rw (e, h) refl)

  bead-Round : (bead : Bead) (m : RunSummary) (t : S) → policy.max_retries < 2 ^ 32 → Round bead m t
  unfolding process_and_settle
  bead-Round bead m t small =
      let (r, u, e, _) = process_one_bead-Explained c bead policy t small in ended r u e
    where
      ended :
          (r : Result E BeadResult) (u : S)
          → process_one_bead c bead policy t ≡ some (r, u)
          → Round bead m t
      ended (err x) u e = inl (x, u, rw e refl)
      ended (ok done) u e = closing-Round bead m t u e (c.close_bead bead.id u) refl
      ended (ok (clarified text)) u e =
          flagging-Round bead m t u text e (c.apply_clarify bead.id u) refl

  complete-Defined :
      (mode : RunMode) (m : RunSummary) (s : S) → Defined (complete c policy mode m s)
  unfolding complete
  complete-Defined once m s = (_, refl)
  complete-Defined continuous m s = checked (c.exec_check s)
    where
      checked :
          (x : Result E (Unit {0}) × S)
          → Defined (
              continue
                (some x)
                λ _. pure (record m { molecule_complete = true; execed_check = true }))
      checked (ok _, t) = (_, refl)
      checked (err x, t) = (_, refl)

  once-Defined :
      (fuel : ℕ) (m : RunSummary) (s : S)
      → policy.max_retries < 2 ^ 32
      → (x : Result E (Option Bead) × S) → c.next_ready_bead s ≡ x
      → Defined (run_loop_from c policy once (suc fuel) m s)
  once-Defined fuel m s small (err x, t) h = (_, step_error c policy once fuel m s x h)
  once-Defined fuel m s small (ok none, t) h =
      let (a, e) = complete-Defined once m t in (a, step_complete c policy once fuel m s h ∙ e)
  once-Defined fuel m s small (ok (some bead), t) h = elim (bead-Round bead m t small) [
    | inl (x, w, e) ↦ (_, step_once c policy fuel m s bead h ∙ ap (λ o. continue o pure) e)
    | inr (m', v, result, u, e, p, settled) ↦
        (_, step_once c policy fuel m s bead h ∙ ap (λ o. continue o pure) e)
  ]

  -- In continuous mode.
  abbrev Going : ℕ → Type 0
  Going n = (m : RunSummary) (s : S) → run_loop_from c policy continuous n m s ≡ none → Rounds n s

  next-Rounds :
      (n : ℕ) (m : RunSummary) (s : S)
      → policy.max_retries < 2 ^ 32
      → Going n
      → run_loop_from c policy continuous (suc n) m s ≡ none
      → (x : Result E (Option Bead) × S) → c.next_ready_bead s ≡ x
      → Rounds (suc n) s
  next-Rounds n m s small rest e (err x, t) h =
      absurd (cc (e, step_error c policy continuous n m s x h))
  next-Rounds n m s small rest e (ok none, t) h =
      let (a, q) = complete-Defined continuous m t in
      absurd (cc (e, step_complete c policy continuous n m s h, q))
  next-Rounds n m s small rest e (ok (some bead), t) h =
      let step = step_continuous c policy n m s bead h in
      elim (bead-Round bead m t small) [
        | inl (x, w, q) ↦
            absurd
              (cc (sym e ∙ step ∙ ap (λ o. continue o (run_loop_from c policy continuous n)) q))
        | inr (m', v, result, u, q, p, settled) ↦ (
          bead,
          t,
          result,
          u,
          v,
          h,
          p,
          settled,
          rest m' v
              (sym (ap (λ o. continue o (run_loop_from c policy continuous n)) q) ∙ sym step ∙ e),
        )
      ]

  loop-Rounds : (n : ℕ) → policy.max_retries < 2 ^ 32 → Going n
  loop-Rounds zero small m s e = tt
  loop-Rounds (suc n) small m s e =
      next-Rounds n m s small (loop-Rounds n small) e (c.next_ready_bead s) refl

  Rounds-loop :
      (n : ℕ) (m : RunSummary) (s : S) → Rounds n s → run_loop_from c policy continuous n m s ≡ none
  Rounds-loop zero m s h = (unfold run_loop_from in refl)
  Rounds-loop (suc n) m s (bead, t, result, u, v, e, p, settled, later) =
      step_continuous c policy n m s bead e
      ∙ ap (λ o. continue o (run_loop_from c policy continuous n))
          (Settled-continues bead m t result u v p settled)
      ∙ Rounds-loop n (counted result m) v later

  -- With any controller, and a retry budget that a u32 holds: in once mode `run_loop` returns in its
  -- first round. In continuous mode no round hangs: `n` rounds are not enough exactly if `n` ready
  -- beads, one after another, are worked on and closed, or flagged for clarification, and no call
  -- fails; so it returns with the first round that has no ready bead or whose call fails.
  pub run_loop-Defined :
      (s : S)
      → policy.max_retries < 2 ^ 32
      → Defined (run_loop c policy once 1 s)
        × ((n : ℕ) → (run_loop c policy continuous n s ≡ none) ↔ Rounds n s)
  unfolding run_loop
  run_loop-Defined s small = (
    once-Defined 0 default_summary s small (c.next_ready_bead s) refl,
    λ n. (λ e. loop-Rounds n small default_summary s e, λ h. Rounds-loop n default_summary s h),
  )
