-- ===== src/Run/Loop/Accounts.antt =====
-- The summary of `run_loop` against a record of the calls that it made.
use wrapix.Prelude.{
  ℕ, zero, suc, ◌+◌, ◌≡◌, refl, sym, ◌∙◌, subst, true, false, Option, none, some, List, [], ◌∷◌,
  inl, inr, leb, Bool-cases, if◌then◌else◌, arith,
}
use wrapix.Prelude.Text.{Str}
use wrapix.Prelude.Exec.{Result, ok, err, continue-eq_ok}
use wrapix.Core.Bead.{Bead}
use wrapix.Core.BeadId.{BeadId}
use wrapix.Run.Retry.Step.{step_last, step_again, step_success, step_error}
use wrapix.Run.Retry.{
  AgentOutcome, success, failure, BeadResult, done, clarified, RetryPolicy, u32, Controller,
  process_from, process_one_bead,
}
use wrapix.Run.Loop.{
  RunMode, once, continuous, RunSummary, complete, settle, process_and_settle, run_loop_from,
  run_loop,
}
use wrapix.Run.Loop.Step.{step_error as loop_error, step_complete, step_once, step_continuous}

pub data Call : Type 0 where
  asked_ready : Call
  ran : BeadId → Option Str → Call
  closed : BeadId → Call
  asked_clarify : BeadId → Call
  execed : Call

-- A controller that notes each call, the newest first, and passes it on.
module _ {S E : Type 0} where
  abbrev noted :
      {A : Type 0} → Call → (S → Result E A × S) → S × List Call → Result E A × (S × List Call)
  noted call m (s, log) = ((m s).0, ((m s).1, call ∷ log))

  abbrev pub recording : Controller S E → Controller (S × List Call) E
  recording c = record {
    next_ready_bead = noted asked_ready c.next_ready_bead;
    run_bead = λ bead p. noted (ran bead.id p) (c.run_bead bead p);
    close_bead = λ id. noted (closed id) (c.close_bead id);
    apply_clarify = λ id. noted (asked_clarify id) (c.apply_clarify id);
    exec_check = noted execed c.exec_check;
  }

abbrev pub closes : List Call → ℕ
closes [] = 0
closes (closed _ ∷ log) = suc (closes log)
closes (_ ∷ log) = closes log

abbrev pub clarifies : List Call → ℕ
clarifies [] = 0
clarifies (asked_clarify _ ∷ log) = suc (clarifies log)
clarifies (_ ∷ log) = clarifies log

abbrev pub checks : List Call → ℕ
checks [] = 0
checks (execed ∷ log) = suc (checks log)
checks (_ ∷ log) = checks log

-- How the loop ended, if `before` beads were settled before it and `after` are now: once mode found
-- no bead or settled one; continuous mode found no bead left and ran `loom check`.
abbrev pub Ended : RunMode → ℕ → RunSummary → ℕ → Type 0
Ended once before m after =
    (m.execed_check ≡ false) × (after ≡ (if m.molecule_complete then before else before + 1))
Ended continuous before m after = (m.execed_check ≡ true) × (m.molecule_complete ≡ true)

-- The same beads were settled, and `loom check` was run as often.
abbrev SameTally : List Call → List Call → Type 0
SameTally log log' =
    (closes log' ≡ closes log) × (clarifies log' ≡ clarifies log) × (checks log' ≡ checks log)

-- ... where the action returns.
abbrev Tallied : {A S : Type 0} → List Call → Option (A × (S × List Call)) → Type 0
Tallied log none = Unit
Tallied log (some (r, (t, log'))) = SameTally log log'

module _ {S E : Type 0} (c : Controller S E) (policy : RetryPolicy) where
  Tallied-again :
      (id : BeadId) (p : Option Str) (log : List Call)
      (o : Option (Result E BeadResult × (S × List Call)))
      → Tallied (ran id p ∷ log) o
      → Tallied log o
  Tallied-again id p log none h = tt
  Tallied-again id p log (some (r, (t, log'))) h = h

  attempt-Tallied :
      (bead : Bead) (fuel k : ℕ) (p : Option Str) (s : S) (log : List Call)
      → ((k' : ℕ) (p' : Option Str) (s' : S) (log' : List Call)
          → Tallied log' (process_from (recording c) bead policy fuel k' p' (s', log')))
      → (x : Result E AgentOutcome × S) → c.run_bead bead p s ≡ x
      → Tallied log (process_from (recording c) bead policy (suc fuel) k p (s, log))
  attempt-Tallied bead fuel k p s log rest (ok success, t) h =
      rw
        (step_success (recording c) bead policy fuel k p (s, log) {t = (t, ran bead.id p ∷ log)}
          (rw h))
        (refl, refl, refl)
  attempt-Tallied bead fuel k p s log rest (err x, t) h =
      rw
        (step_error (recording c) bead policy fuel k p (s, log) x {t = (t, ran bead.id p ∷ log)}
          (rw h))
        (refl, refl, refl)
  attempt-Tallied bead fuel k p s log rest (ok (failure e), t) h =
      elim (Bool-cases (leb policy.max_retries k)) [
        | inl l ↦
            rw
              (step_last (recording c) bead policy fuel k p (s, log) e
                {t = (t, ran bead.id p ∷ log)} (rw h) l)
              (refl, refl, refl)
        | inr l ↦
            rw
              (step_again (recording c) bead policy fuel k p (s, log) e
                {t = (t, ran bead.id p ∷ log)} (rw h) l)
              (Tallied-again bead.id p log _ (rest (u32 (k + 1)) (some e) t (ran bead.id p ∷ log)))
      ]

  process_from-Tallied :
      (bead : Bead) (fuel k : ℕ) (p : Option Str) (s : S) (log : List Call)
      → Tallied log (process_from (recording c) bead policy fuel k p (s, log))
  process_from-Tallied bead zero k p s log = unfold process_from in tt
  process_from-Tallied bead (suc fuel) k p s log =
      attempt-Tallied bead fuel k p s log (process_from-Tallied bead fuel) (c.run_bead bead p s)
        refl

  process_one_bead-Tallied :
      (bead : Bead) (s : S) (log : List Call)
      → Tallied log (process_one_bead (recording c) bead policy (s, log))
  unfolding process_one_bead
  process_one_bead-Tallied bead s log =
      process_from-Tallied bead (suc policy.max_retries) 0 none s log

  -- The counters while the loop runs.
  abbrev Open : RunSummary → List Call → Type 0
  Open m log =
      (m.beads_processed ≡ u32 (closes log + clarifies log))
      × (m.beads_clarified ≡ u32 (clarifies log))
      × (checks log ≡ 0)
      × (m.molecule_complete ≡ false)
      × (m.execed_check ≡ false)

  -- One more bead was settled.
  abbrev OneMore : List Call → RunSummary → List Call → Type 0
  OneMore log m' log' =
      Open m' log' × (closes log' + clarifies log' ≡ closes log + clarifies log + 1)

  settle-OneMore :
      (bead : Bead) (result : BeadResult) (m : RunSummary) (s : S) (log log0 : List Call)
      (m' : RunSummary) (t : S) (log' : List Call)
      → Open m log0
      → SameTally log0 log
      → settle
          (recording c)
          policy
          bead
          result
          (record m { beads_processed = u32 (m.beads_processed + 1) })
          (s, log)
        ≡ some (ok m', (t, log'))
      → OneMore log0 m' log'
  unfolding settle
  settle-OneMore bead done m s log log0 m' t log' o same eq = ground arith
  settle-OneMore bead (clarified e) m s log log0 m' t log' o same eq = ground arith

  bead-OneMore :
      (bead : Bead) (m : RunSummary) (s : S) (log : List Call) (m' : RunSummary) (t : S)
      (log' : List Call)
      → Open m log
      → process_and_settle (recording c) policy bead m (s, log) ≡ some (ok m', (t, log'))
      → OneMore log m' log'
  unfolding process_and_settle
  bead-OneMore bead m s log m' t log' o eq =
      let (result, (s1, log1), processed, settled) =
        continue-eq_ok (process_one_bead (recording c) bead policy (s, log)) _ eq in
      settle-OneMore bead result m s1 log1 log m' t log' o
        (subst (Tallied log) processed (process_one_bead-Tallied bead s log)) settled

  -- The summary tells what the log shows.
  abbrev pub Balanced : RunMode → ℕ → RunSummary → List Call → Type 0
  Balanced mode before m log =
      (m.beads_processed ≡ u32 (closes log + clarifies log))
      × (m.beads_clarified ≡ u32 (clarifies log))
      × (checks log ≡ (if m.execed_check then 1 else 0))
      × Ended mode before m (closes log + clarifies log)

  complete-Balanced :
      (mode : RunMode) (m : RunSummary) (s : S) (log : List Call) (m' : RunSummary) (t : S)
      (log' : List Call)
      → Open m log
      → complete (recording c) policy mode m (s, asked_ready ∷ log) ≡ some (ok m', (t, log'))
      → Balanced mode (closes log + clarifies log) m' log'
  unfolding complete
  complete-Balanced once m s log m' t log' o eq = ground arith
  complete-Balanced continuous m s log m' t log' o eq = ground arith

  once-Balanced :
      (m : RunSummary) (log : List Call) (m' : RunSummary) (log' : List Call)
      → OneMore log m' log'
      → Balanced once (closes log + clarifies log) m' log'
  once-Balanced m log m' log' o = ground arith

  abbrev LoopBalances : RunMode → ℕ → Type 0
  LoopBalances mode fuel =
      (m : RunSummary) (s : S) (log : List Call) (m' : RunSummary) (t : S) (log' : List Call)
      → Open m log
      → run_loop_from (recording c) policy mode fuel m (s, log) ≡ some (ok m', (t, log'))
      → Balanced mode (closes log + clarifies log) m' log'

  -- One round, on each answer to the request for a bead.
  round-Balanced :
      (mode : RunMode) (fuel : ℕ)
      → LoopBalances mode fuel
      → (x : Result E (Option Bead) × S) (m : RunSummary) (s : S) (log : List Call)
      → c.next_ready_bead s ≡ x
      → (m' : RunSummary) (t : S) (log' : List Call) → Open m log
      → run_loop_from (recording c) policy mode (suc fuel) m (s, log) ≡ some (ok m', (t, log'))
      → Balanced mode (closes log + clarifies log) m' log'
  round-Balanced mode fuel rest (err x, s1) m s log h m' t log' o eq = cc (
      sym (
        loop_error (recording c) policy mode fuel m (s, log) x {t = (s1, asked_ready ∷ log)} (rw h))
      ∙ eq)
  round-Balanced mode fuel rest (ok none, s1) m s log h m' t log' o eq =
      complete-Balanced mode m s1 log m' t log' o (
        sym (
          step_complete (recording c) policy mode fuel m (s, log) {t = (s1, asked_ready ∷ log)}
            (rw h))
        ∙ eq)
  round-Balanced once fuel rest (ok (some bead), s1) m s log h m' t log' o eq =
      let (m1, (t1, log1), settled, finish) =
        continue-eq_ok (process_and_settle (recording c) policy bead m (s1, asked_ready ∷ log)) _ (
          sym (
            step_once (recording c) policy fuel m (s, log) bead {t = (s1, asked_ready ∷ log)}
              (rw h))
          ∙ eq) in
      once-Balanced m log m' log'
        (bead-OneMore bead m s1 (asked_ready ∷ log) m' t log' o (settled ∙ finish))
  round-Balanced continuous fuel rest (ok (some bead), s1) m s log h m' t log' o eq =
      let (m1, (t1, log1), settled, finish) =
        continue-eq_ok (process_and_settle (recording c) policy bead m (s1, asked_ready ∷ log)) _ (
          sym (
            step_continuous (recording c) policy fuel m (s, log) bead {t = (s1, asked_ready ∷ log)}
              (rw h))
          ∙ eq) in
      rest m1 t1 log1 m' t log' (bead-OneMore bead m s1 (asked_ready ∷ log) m1 t1 log1 o settled).0
        finish

  loop-Balanced : (mode : RunMode) (fuel : ℕ) → LoopBalances mode fuel
  loop-Balanced mode zero m s log m' t log' o eq = unfold run_loop_from in cc eq
  loop-Balanced mode (suc fuel) m s log m' t log' o eq =
      round-Balanced mode fuel (loop-Balanced mode fuel) (c.next_ready_bead s) m s log refl m' t
        log' o eq

  -- When `run_loop` returns a summary, the summary tells what was called: as many beads were
  -- processed as were closed or flagged for clarification (modulo 2 ^ 32, the counters' width), as
  -- many clarified as were flagged; `loom check` ran once if the summary says so, and not at all
  -- otherwise. In once mode it did not run, and one bead was settled, or none and the molecule was
  -- complete; in continuous mode it ran and the molecule was complete.
  pub run_loop-Balanced :
      (mode : RunMode) (fuel : ℕ) (s : S) {m : RunSummary} {t : S} {log : List Call}
      → run_loop (recording c) policy mode fuel (s, []) ≡ some (ok m, (t, log))
      → Balanced mode 0 m log
  unfolding run_loop
  run_loop-Balanced mode fuel s eq =
      loop-Balanced mode fuel _ s [] _ _ _ (refl, refl, refl, refl, refl) eq
