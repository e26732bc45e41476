-- ===== src/Run/Loop/Endless.antt =====
-- When loom/crates/loom-workflow/src/run/runner.rs, `run_loop`, does not return: in continuous mode,
-- with a controller that always has another bead.
use wrapix.Prelude.{
  ℕ, zero, suc, ◌+◌, ◌≡◌, refl, ◌∙◌, Option, none, some, inl, inr, leb, Bool-cases,
}
use wrapix.Prelude.Text.{Str}
use wrapix.Prelude.Exec.{Result, ok, err, continue}
use wrapix.Core.Bead.{Bead}
use wrapix.Core.BeadId.{BeadId}
use wrapix.Run.Retry.Step.{step_last, step_again, step_success}
use wrapix.Run.Retry.{
  AgentOutcome, success, failure, BeadResult, done, clarified, RetryPolicy, u32, Controller,
  process_from, process_one_bead,
}
use wrapix.Run.Loop.{continuous, RunSummary, settle, process_and_settle, run_loop_from, run_loop}
use wrapix.Run.Loop.Step.{step_continuous}

-- States in which there is always another bead, and no call that the loop makes fails.
pub record Endless {S E : Type 0} (c : Controller S E) (I : S → Type 0) : Type 0 where
  pub pull :
      (s : S) → I s → (bead : Bead) × (t : S) × (c.next_ready_bead s ≡ (ok (some bead), t)) × I t
  pub ran :
      (bead : Bead) (p : Option Str) (s : S)
      → I s
      → (o : AgentOutcome) × (t : S) × (c.run_bead bead p s ≡ (ok o, t)) × I t
  pub closed :
      (bead : Bead) (p : Option Str) (s t : S)
      → I s
      → c.run_bead bead p s ≡ (ok success, t)
      → (u : S) × (c.close_bead bead.id t ≡ (ok tt, u)) × I u
  pub flagged : (id : BeadId) (s : S) → I s → (t : S) × (c.apply_clarify id s ≡ (ok tt, t)) × I t

module _ {S E : Type 0} (c : Controller S E) (policy : RetryPolicy) (I : S → Type 0)
    (d : Endless c I) where
  -- Where the bead's loop returns, it did not fail, and settling the bead will not.
  abbrev Settles : Bead → Option (Result E BeadResult × S) → Type 0
  Settles bead none = Unit
  Settles bead (some (ok done, t)) = (u : S) × (c.close_bead bead.id t ≡ (ok tt, u)) × I u
  Settles bead (some (ok (clarified _), t)) =
      (u : S) × (c.apply_clarify bead.id t ≡ (ok tt, u)) × I u
  Settles bead (some (err x, t)) = ⊥

  -- The action does not fail, and keeps `I` where it returns.
  abbrev Stays : {A : Type 0} → Option (Result E A × S) → Type 0
  Stays none = Unit
  Stays (some (ok a, t)) = I t
  Stays (some (err x, t)) = ⊥

  attempt-Settles :
      (bead : Bead) (fuel k : ℕ) (p : Option Str) (s : S)
      → I s
      → ((k' : ℕ) (p' : Option Str) (s' : S)
          → I s'
          → Settles bead (process_from c bead policy fuel k' p' s'))
      → (o : AgentOutcome) (t : S) → c.run_bead bead p s ≡ (ok o, t)
      → I t
      → Settles bead (process_from c bead policy (suc fuel) k p s)
  attempt-Settles bead fuel k p s i rest success t h j =
      rw (step_success c bead policy fuel k p s {t = t} h) (d.closed bead p s t i h)
  attempt-Settles bead fuel k p s i rest (failure e) t h j =
      elim (Bool-cases (leb policy.max_retries k)) [
        | inl l ↦ rw (step_last c bead policy fuel k p s e {t = t} h l) (d.flagged bead.id t j)
        | inr l ↦
            rw (step_again c bead policy fuel k p s e {t = t} h l) (rest (u32 (k + 1)) (some e) t j)
      ]

  process_from-Settles :
      (bead : Bead) (fuel k : ℕ) (p : Option Str) (s : S)
      → I s
      → Settles bead (process_from c bead policy fuel k p s)
  process_from-Settles bead zero k p s i = unfold process_from in tt
  process_from-Settles bead (suc fuel) k p s i =
      let (o, t, h, j) = d.ran bead p s i in
      attempt-Settles bead fuel k p s i (λ k' p' s' i'. process_from-Settles bead fuel k' p' s' i')
        o t h j

  settle-Stays :
      (bead : Bead) (m : RunSummary) (o : Option (Result E BeadResult × S))
      → Settles bead o
      → Stays (continue o λ result. settle c policy bead result m)
  unfolding settle
  settle-Stays bead m none h = tt
  settle-Stays bead m (some (ok done, t)) (u, h, j) = rw h j
  settle-Stays bead m (some (ok (clarified _), t)) (u, h, j) = rw h j
  settle-Stays bead m (some (err x, t)) h = h

  round-never :
      (fuel : ℕ) (o : Option (Result E RunSummary × S))
      → ((m : RunSummary) (s : S) → I s → run_loop_from c policy continuous fuel m s ≡ none)
      → Stays o
      → continue o (run_loop_from c policy continuous fuel) ≡ none
  round-never fuel none rest i = refl
  round-never fuel (some (ok m, t)) rest i = rest m t i
  round-never fuel (some (err x, t)) rest i = absurd i

  loop-never :
      (fuel : ℕ) (m : RunSummary) (s : S) → I s → run_loop_from c policy continuous fuel m s ≡ none
  loop-never zero m s i = unfold run_loop_from in refl
  loop-never (suc fuel) m s i =
      let (bead, t, h, j) = d.pull s i in
      step_continuous c policy fuel m s bead h
      ∙ round-never fuel _ (loop-never fuel) (
          unfold process_and_settle process_one_bead in
          settle-Stays bead _ (process_one_bead c bead policy t)
            (process_from-Settles bead (suc policy.max_retries) 0 none t j))

  -- From states in which the controller always has another bead and no call that the loop makes
  -- fails, whatever the attempts return, continuous mode never returns: no fuel is enough.
  pub run_loop-never_returns : (fuel : ℕ) (s : S) → I s → run_loop c policy continuous fuel s ≡ none
  unfolding run_loop
  run_loop-never_returns fuel s i = loop-never fuel _ s i
