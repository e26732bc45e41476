-- ===== src/Check/Gate/Branches.antt =====
-- The branches of `check_loop` in loom/crates/loom-workflow/src/check/runner.rs, against a record of
-- the calls that the gate made and of what they answered.
use wrapix.Prelude.{
  ℕ, ◌+◌, ◌≤◌, ◌<◌, ◌≡◌, ◌≢◌, refl, sym, subst, Bool, true, false, Option, none, some, List, [],
  ◌∷◌, ◌++◌, map, last?, if◌then◌else◌, arith,
}
use wrapix.Prelude.Text.{Str}
use wrapix.Prelude.Exec.{Result, ok, err, continue, pure, raise}
use wrapix.Core.Bead.{Bead}
use wrapix.Core.BeadId.{BeadId}
use wrapix.Run.Retry.{u32}
use wrapix.Check.Gate.{
  IterationCap, is_exhausted, CheckVerdict, diff_new_bead_ids, ReviewOutcome, complete, incomplete,
  CheckResult, pushed, clarified, auto_iterated, escalated, Controller, bead_id, clarify_ids_of,
  cap_reason, decide_fixup, decide_verdict, apply_verdict, after_review, check_loop,
}

-- A call with its answer.
pub data Call (E : Type 0) : Type 0 where
  reviewed : Result E ReviewOutcome → Call E
  listed : Result E (List Bead) → Call E
  counted : Result E ℕ → Call E
  set_count : ℕ → Result E (Unit {0}) → Call E
  reset_count : Result E (Unit {0}) → Call E
  flagged : BeadId → Str → Result E (Unit {0}) → Call E
  git_pushed : Result E (Unit {0}) → Call E
  beads_pushed : Result E (Unit {0}) → Call E
  ran : Result E (Unit {0}) → Call E

module _ {S E : Type 0} where
  abbrev noted :
      {A : Type 0}
      → (Result E A → Call E)
      → (S → Result E A × S)
      → S × List (Call E)
      → Result E A × (S × List (Call E))
  noted call m (s, log) = ((m s).0, ((m s).1, log ++ call (m s).0 ∷ []))

  abbrev pub recording : Controller S E → Controller (S × List (Call E)) E
  recording c = record {
    run_review = noted reviewed c.run_review;
    list_spec_beads = noted listed c.list_spec_beads;
    iteration_count = noted counted c.iteration_count;
    set_iteration_count = λ n. noted (set_count n) (c.set_iteration_count n);
    reset_iteration_count = noted reset_count c.reset_iteration_count;
    apply_clarify = λ id reason. noted (flagged id reason) (c.apply_clarify id reason);
    git_push = noted git_pushed c.git_push;
    beads_push = noted beads_pushed c.beads_push;
    exec_run = noted ran c.exec_run;
    review_incomplete = c.review_incomplete;
  }

module _ {E : Type 0} where
  -- Why a result is right, from the snapshots and the calls behind the second one.
  abbrev pub Justified : ℕ → List Bead → List Bead → List (Call E) → CheckResult → Type 0
  Justified cap pre post calls pushed =
      (clarify_ids_of post ≡ [])
      × (diff_new_bead_ids (map bead_id pre) (map bead_id post) ≡ [])
      × (calls ≡ reset_count (ok tt) ∷ git_pushed (ok tt) ∷ beads_pushed (ok tt) ∷ [])
  Justified cap pre post calls (clarified ids) =
      (clarify_ids_of post ≡ ids) × (ids ≢ []) × (calls ≡ [])
  Justified cap pre post calls (auto_iterated n) =
      (clarify_ids_of post ≡ [])
      × (diff_new_bead_ids (map bead_id pre) (map bead_id post) ≢ [])
      × ((k : ℕ) × (k < cap)
          × (n ≡ u32 (k + 1))
          × (calls ≡ counted (ok k) ∷ set_count n (ok tt) ∷ ran (ok tt) ∷ []))
  Justified cap pre post calls (escalated id max) =
      (clarify_ids_of post ≡ [])
      × (last? (diff_new_bead_ids (map bead_id pre) (map bead_id post)) ≡ some id)
      × (max ≡ cap)
      × ((k : ℕ) × (cap ≤ k) × (calls ≡ counted (ok k) ∷ flagged id (cap_reason cap) (ok tt) ∷ []))

last-none : (ids : List BeadId) → last? ids ≡ none → ids ≡ []
last-none [] h = refl
last-none (x ∷ []) h = cc h
last-none (x ∷ y ∷ ys) h = cc (last-none (y ∷ ys) h)

last-some : (ids : List BeadId) {id : BeadId} → last? ids ≡ some id → ids ≢ []
last-some [] h = λ _. cc h
last-some (x ∷ ids) h = λ e. cc e

module _ {S E : Type 0} (c : Controller S E) (cap : IterationCap) (pre post : List Bead) where
  -- The calls up to the second snapshot.
  abbrev start : List (Call E)
  start = listed (ok pre) ∷ reviewed (ok complete) ∷ listed (ok post) ∷ []

  abbrev new_ids : List BeadId
  new_ids = diff_new_bead_ids (map bead_id pre) (map bead_id post)

  abbrev Told : CheckResult → List (Call E) → Type 0
  Told r log = (calls : List (Call E)) × (log ≡ start ++ calls) × Justified cap.max pre post calls r

  clean_push :
      (s : S) (r : CheckResult) (t : S) (log : List (Call E))
      → apply_verdict (recording c) CheckVerdict.clean (s, start) ≡ some (ok r, (t, log))
      → (r ≡ pushed)
        × (log ≡ start ++ reset_count (ok tt) ∷ git_pushed (ok tt) ∷ beads_pushed (ok tt) ∷ [])
  unfolding apply_verdict
  clean_push s r t log h = ground arith

  clean-Told :
      (s : S) (r : CheckResult) (t : S) (log : List (Call E))
      → clarify_ids_of post ≡ []
      → new_ids ≡ []
      → apply_verdict (recording c) CheckVerdict.clean (s, start) ≡ some (ok r, (t, log))
      → Told r log
  clean-Told s r t log no_ids no_new h =
      let (e, l) = clean_push s r t log h in
      (_, l, subst (Justified cap.max pre post _) (sym e) (no_ids, no_new, refl))

  -- The branch under the cap, and the one at it.
  iterate_run :
      (s : S) (k : ℕ) (ids : List BeadId) (r : CheckResult) (t : S) (log : List (Call E))
      → apply_verdict
          (recording c)
          (CheckVerdict.auto_iterate ids (u32 (k + 1)))
          (s, start ++ counted (ok k) ∷ [])
        ≡ some (ok r, (t, log))
      → (auto_iterated (u32 (k + 1)) ≡ r)
        × (log ≡ start ++ counted (ok k) ∷ set_count (u32 (k + 1)) (ok tt) ∷ ran (ok tt) ∷ [])
  unfolding apply_verdict
  iterate_run s k ids r t log h = ground arith

  cap_flag :
      (s : S) (k : ℕ) (ids : List BeadId) (id : BeadId) (r : CheckResult) (t : S)
      (log : List (Call E))
      → apply_verdict
          (recording c)
          (CheckVerdict.iteration_cap ids id cap.max)
          (s, start ++ counted (ok k) ∷ [])
        ≡ some (ok r, (t, log))
      → (escalated id cap.max ≡ r)
        × (log ≡ start ++ counted (ok k) ∷ flagged id (cap_reason cap.max) (ok tt) ∷ [])
  unfolding apply_verdict
  cap_flag s k ids id r t log h = ground arith

  -- The counter was read: the cap decides.
  counted-Told :
      (s : S) (k : ℕ) (id : BeadId) (r : CheckResult) (t : S) (log : List (Call E))
      → clarify_ids_of post ≡ []
      → last? new_ids ≡ some id
      → (b : Bool) → is_exhausted cap k ≡ b
      → continue
          ((if b
              then pure (CheckVerdict.iteration_cap new_ids id cap.max)
              else pure (CheckVerdict.auto_iterate new_ids (u32 (k + 1))))
            (s, start ++ counted (ok k) ∷ []))
          (apply_verdict (recording c))
        ≡ some (ok r, (t, log))
      → Told r log
  unfolding is_exhausted
  counted-Told s k id r t log no_ids newest true full h =
      let (e, l) = cap_flag s k new_ids id r t log h in
      (_, l, subst (Justified cap.max pre post _) e (no_ids, newest, refl, (k, ground arith, refl)))
  counted-Told s k id r t log no_ids newest false room h =
      let (e, l) = iterate_run s k new_ids r t log h in
      (
        _,
        l,
        subst (Justified cap.max pre post _) e
            (no_ids, last-some new_ids newest, (k, ground arith, refl, refl)),
      )

  fixup-Told :
      (s : S) (id : BeadId) (r : CheckResult) (t : S) (log : List (Call E))
      → clarify_ids_of post ≡ []
      → last? new_ids ≡ some id
      → (x : Result E ℕ × S) → c.iteration_count s ≡ x
      → continue
          (decide_fixup (recording c) new_ids cap (some id) (s, start))
          (apply_verdict (recording c))
        ≡ some (ok r, (t, log))
      → Told r log
  unfolding decide_fixup
  fixup-Told s id r t log no_ids newest (err x, s1) e h = cc (rw e at h)
  fixup-Told s id r t log no_ids newest (ok k, s1) e h =
      counted-Told s1 k id r t log no_ids newest (is_exhausted cap k) refl (rw e at h)

  new-Told :
      (s : S) (r : CheckResult) (t : S) (log : List (Call E))
      → clarify_ids_of post ≡ []
      → (o : Option BeadId) → last? new_ids ≡ o
      → continue (decide_fixup (recording c) new_ids cap o (s, start)) (apply_verdict (recording c))
        ≡ some (ok r, (t, log))
      → Told r log
  new-Told s r t log no_ids none e h =
      clean-Told s r t log no_ids (last-none new_ids e) (unfold decide_fixup in h)
  new-Told s r t log no_ids (some id) e h =
      fixup-Told s id r t log no_ids e (c.iteration_count s) refl h

  clarify_stop :
      (s : S) (ids : List BeadId) (r : CheckResult) (t : S) (log : List (Call E))
      → apply_verdict (recording c) (CheckVerdict.clarify ids) (s, start) ≡ some (ok r, (t, log))
      → (clarified ids ≡ r) × (log ≡ start ++ [])
  unfolding apply_verdict
  clarify_stop s ids r t log h = ground arith

  verdict-Told :
      (s : S) (r : CheckResult) (t : S) (log : List (Call E)) (ids : List BeadId)
      → clarify_ids_of post ≡ ids
      → continue
          (decide_verdict (recording c) new_ids ids cap (s, start))
          (apply_verdict (recording c))
        ≡ some (ok r, (t, log))
      → Told r log
  unfolding decide_verdict
  verdict-Told s r t log [] e h = new-Told s r t log e (last? new_ids) refl h
  verdict-Told s r t log (id ∷ ids) e h =
      let (f, l) = clarify_stop s (id ∷ ids) r t log h in
      ([], l, subst (Justified cap.max pre post []) f (e, λ z. cc z, refl))

-- The whole gate, snapshot by snapshot.
module _ {S E : Type 0} (c : Controller S E) (cap : IterationCap) where
  abbrev pub Story : CheckResult → List (Call E) → Type 0
  Story r log =
      (pre post : List Bead) × (calls : List (Call E)) × (log
        ≡ listed (ok pre) ∷ reviewed (ok complete) ∷ listed (ok post) ∷ calls)
      × Justified cap.max pre post calls r

  second_told :
      (pre : List Bead) (s : S) (r : CheckResult) (t : S) (log : List (Call E))
      (x : Result E (List Bead) × S)
      → c.list_spec_beads s ≡ x
      → after_review
          (recording c)
          (map bead_id pre)
          cap
          (s, listed (ok pre) ∷ reviewed (ok complete) ∷ [])
        ≡ some (ok r, (t, log))
      → Story r log
  unfolding after_review
  second_told pre s r t log (err x, s1) e h = cc (rw e at h)
  second_told pre s r t log (ok post, s1) e h =
      let (calls, l, j) =
        verdict-Told c cap pre post s1 r t log (clarify_ids_of post) refl (rw e at h) in
      (pre, post, calls, l, j)

  review_told :
      (pre : List Bead) (s : S) (r : CheckResult) (t : S) (log : List (Call E))
      (x : Result E ReviewOutcome × S)
      → c.run_review s ≡ x
      → continue (some ((recording c).run_review (s, listed (ok pre) ∷ []))) (λ review.
        elim review [
          | complete ↦ after_review (recording c) (map bead_id pre) cap
          | incomplete detail ↦ raise (c.review_incomplete detail)
        ])
        ≡ some (ok r, (t, log))
      → Story r log
  review_told pre s r t log (err x, s1) e h = cc (rw e at h)
  review_told pre s r t log (ok (incomplete d), s1) e h = cc (rw e at h)
  review_told pre s r t log (ok complete, s1) e h =
      second_told pre s1 r t log (c.list_spec_beads s1) refl (rw e at h)

  first_told :
      (s : S) (r : CheckResult) (t : S) (log : List (Call E)) (x : Result E (List Bead) × S)
      → c.list_spec_beads s ≡ x
      → check_loop (recording c) cap (s, []) ≡ some (ok r, (t, log))
      → Story r log
  unfolding check_loop
  first_told s r t log (err x, s1) e h = cc (rw e at h)
  first_told s r t log (ok pre, s1) e h =
      review_told pre s1 r t log (c.run_review s1) refl (rw e at h)

  -- When the gate returns a result, it took a snapshot, saw the review complete, and took another;
  -- the result and the calls after that follow from the two snapshots and the counter. It pushed,
  -- after resetting the counter, git before beads, only if no bead waits for clarification and none
  -- is new; it stopped for clarification with the ids that wait, and did nothing more; it started
  -- another run only below the cap, with the counter set to one more (a u32); it escalated the
  -- newest bead only at the cap, and did not push then.
  pub check_loop-Story :
      (s : S) {r : CheckResult} {t : S} {log : List (Call E)}
      → check_loop (recording c) cap (s, []) ≡ some (ok r, (t, log))
      → Story r log
  check_loop-Story s h = first_told s _ _ _ (c.list_spec_beads s) refl h
