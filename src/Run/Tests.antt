-- ===== src/Run/Tests.antt =====
-- Concrete runs of `loom run`: a controller over queues, as in the tests of
-- loom/crates/loom-workflow/src/run/runner.rs, and the theorems at it.
use mathlib.Core.List.Perm
use mathlib.Core.List.{Perm}
use wrapix.Prelude.{
  ◌↔◌, ℕ, ◌==◌, if◌then◌else◌, ◌≡◌, refl, Option, true, none, some, List, [], ◌∷◌, map, arith,
}
use wrapix.Prelude.Text.{Str, codes}
use wrapix.Prelude.Exec.{Result, ok, err}
use wrapix.Core.Bead.{Bead}
use wrapix.Run.Retry.{
  AgentOutcome, success, failure, default_policy, Controller, BeadResult, clarified,
  process_one_bead,
}
use wrapix.Run.Retry.Bounds.{Explained, process_one_bead-Explained}
use wrapix.Run.Loop.{once, continuous, RunSummary, run_loop}
use wrapix.Run.Loop.Accounts.{recording, Balanced, Call, run_loop-Balanced}
use wrapix.Run.Loop.Ending.{Defined, Rounds, run_loop-Defined}
use wrapix.Run.Production.{Bd, production, StaysReady, production-never_returns}
use wrapix.Core.Git.{MergeResult, ok_merge, conflict_merge}
use wrapix.Run.Batch.{
  Git, WorktreeBead, BatchSlot, BatchResult, merged, conflict, agent_failed, merge_back,
  run_parallel_batch,
}
use wrapix.Run.Batch.Ids.{id_of, bead_id, run_parallel_batch-Perm}
use wrapix.Run.Batch.Cleanup.{
  GitCall, merging, removed, deleted, recording as noting, Called, merge_back-calls,
}

abbrev bead : Str → Bead
bead id = record {
  id = id;
  title = codes "title";
  description = [];
  status = codes "open";
  priority = 2;
  issue_type = codes "task";
  labels = [];
}

-- The queues of the fake controller.
record Fake : Type 0 where
  ready : List Bead
  outcomes : List AgentOutcome

abbrev pull : List Bead → Fake → Result (Unit {0}) (Option Bead) × Fake
pull [] s = (ok none, s)
pull (b ∷ bs) s = (ok (some b), record s { ready = bs })

-- Without a queued outcome an attempt succeeds.
abbrev attempt : List AgentOutcome → Fake → Result (Unit {0}) AgentOutcome × Fake
attempt [] s = (ok success, s)
attempt (o ∷ os) s = (ok o, record s { outcomes = os })

abbrev fake : Controller Fake (Unit {0})
fake = record {
  next_ready_bead = λ s. pull s.ready s;
  run_bead = λ b p s. attempt s.outcomes s;
  close_bead = λ id s. (ok tt, s);
  apply_clarify = λ id s. (ok tt, s);
  exec_check = λ s. (ok tt, s);
}

abbrev two_beads : Fake
two_beads = record {
  ready = bead (codes "wx-1") ∷ bead (codes "wx-2") ∷ [];
  outcomes = failure (codes "e0") ∷ failure (codes "e1") ∷ failure (codes "e2") ∷ [];
}

-- Three failures give up on the first bead, with the error of the second attempt.
third_failure_gives_up :
    process_one_bead fake (bead (codes "wx-1")) default_policy two_beads
    ≡ some (ok (clarified (codes "e1")), record two_beads { outcomes = [] })
unfolding process_one_bead
third_failure_gives_up = refl

process_one_bead-Explained_example :
    (r : Result (Unit {0}) BeadResult) × (t : Fake) × (process_one_bead fake
        (bead (codes "wx-1"))
        default_policy
        two_beads
      ≡ some (r, t))
    × Explained fake (bead (codes "wx-1")) 2 0 none two_beads r t
process_one_bead-Explained_example =
    process_one_bead-Explained fake (bead (codes "wx-1")) default_policy two_beads (omega arith)

abbrev first_run : RunSummary
first_run = record {
  beads_processed = 2;
  beads_clarified = 1;
  molecule_complete = true;
  execed_check = true;
}

abbrev first_log : List Call
first_log =
    Call.execed
    ∷ Call.asked_ready
    ∷ Call.closed (codes "wx-2")
    ∷ Call.ran (codes "wx-2") none
    ∷ Call.asked_ready
    ∷ Call.asked_clarify (codes "wx-1")
    ∷ Call.ran (codes "wx-1") (some (codes "e1"))
    ∷ Call.ran (codes "wx-1") (some (codes "e0"))
    ∷ Call.ran (codes "wx-1") none
    ∷ Call.asked_ready
    ∷ []

run_two :
    run_loop (recording fake) default_policy continuous 3 (two_beads, [])
    ≡ some (ok first_run, (record { ready = []; outcomes = [] }, first_log))
unfolding run_loop process_one_bead
run_two = refl

run_loop-Balanced_example : Balanced fake default_policy continuous 0 first_run first_log
run_loop-Balanced_example = run_loop-Balanced fake default_policy continuous 3 two_beads run_two

-- A `bd` with one bead that stays ready.
abbrev stuck_bd : Bd (Unit {0}) (Unit {0})
stuck_bd = record {
  ready = λ limit label s. (ok (bead (codes "wx-1") ∷ []), s);
  close = λ id reason s. (ok tt, s);
  add_labels = λ id labels s. (ok tt, s);
  loom_check = λ label s. (ok true, s);
  check_handoff = tt;
}

run_loop-Defined_example :
    Defined (run_loop (production stuck_bd (codes "core")) default_policy once 1 tt)
    × ((n : ℕ)
        → (run_loop (production stuck_bd (codes "core")) default_policy continuous n tt ≡ none)
          ↔ Rounds (production stuck_bd (codes "core")) default_policy n tt)
run_loop-Defined_example =
    run_loop-Defined (production stuck_bd (codes "core")) default_policy tt (omega arith)

abbrev Always : Unit {0} → Type 0
Always _ = Unit

stuck_StaysReady : StaysReady stuck_bd (codes "core") Always
stuck_StaysReady = record {
  ready = λ s i. (bead (codes "wx-1"), [], s, refl, tt);
  labelled = λ id s i. (s, refl, tt);
}

production-never_returns_example :
    run_loop (production stuck_bd (codes "core")) default_policy continuous 100 tt ≡ none
production-never_returns_example =
    production-never_returns stuck_bd (codes "core") Always default_policy 100 tt stuck_StaysReady
      tt

-- A git in which the branch of "wx-2" conflicts.
abbrev merge : Str → MergeResult
merge (c ∷ d ∷ e ∷ f ∷ s) = if f == b'2' then conflict_merge else ok_merge
merge s = ok_merge

abbrev git : Git (Unit {0}) (Unit {0})
git = record {
  create_worktree = λ label id s. (ok (record { path = id; branch = id }), s);
  merge_branch = λ branch s. (ok (merge branch), s);
  remove_worktree = λ path s. (ok tt, s);
  delete_branch = λ branch s. (ok tt, s);
}

abbrev slot : Str → AgentOutcome → BatchSlot
slot id o = record { bead = bead id; worktree = record { path = id; branch = id }; outcome = o }

abbrev slots : List BatchSlot
slots =
    slot (codes "wx-1") success
    ∷ slot (codes "wx-2") success
    ∷ slot (codes "wx-3") (failure (codes "boom"))
    ∷ []

abbrev results : List BatchResult
results =
    merged (codes "wx-1")
    ∷ conflict (codes "wx-2") (codes "wx-2") (codes "wx-2")
    ∷ agent_failed (codes "wx-3") (codes "boom")
    ∷ []

abbrev calls : List (GitCall (Unit {0}))
calls =
    merging (codes "wx-1") (ok ok_merge)
    ∷ removed (codes "wx-1") (ok tt)
    ∷ deleted (codes "wx-1") (ok tt)
    ∷ merging (codes "wx-2") (ok conflict_merge)
    ∷ removed (codes "wx-3") (ok tt)
    ∷ deleted (codes "wx-3") (ok tt)
    ∷ []

merge_three : merge_back (noting git) slots (tt, []) ≡ some (ok results, (tt, calls))
unfolding merge_back
merge_three = refl

merge_back-calls_example :
    (result : Result (Unit {0}) (List BatchResult)) × (t : Unit {0}) × (log : List
      (GitCall (Unit {0})))
    × (merge_back (noting git) slots (tt, []) ≡ some (result, (t, log)))
    × Called slots result log
merge_back-calls_example = merge_back-calls git slots tt

-- A git whose branches cannot be deleted stops at the first slot.
abbrev stuck_git : Git (Unit {0}) (Unit {0})
stuck_git = record git { delete_branch = λ branch s. (err tt, s) }

merge_stops :
    merge_back (noting stuck_git) slots (tt, [])
    ≡ some (
      err tt,
      (
        tt,
        merging (codes "wx-1") (ok ok_merge)
            ∷ removed (codes "wx-1") (ok tt)
            ∷ deleted (codes "wx-1") (err tt)
            ∷ [],
      ),
    )
unfolding merge_back
merge_stops = refl

abbrev spawn : WorktreeBead → Option AgentOutcome
spawn w = some success

abbrev swap : List WorktreeBead → List WorktreeBead
swap (a ∷ b ∷ ws) = b ∷ a ∷ ws
swap ws = ws

swap_fair : (ws : List WorktreeBead) → Perm (swap ws) ws
swap_fair (a ∷ b ∷ ws) = Perm.swap a b ws
swap_fair (a ∷ []) = Perm.refl _
swap_fair [] = Perm.refl _

abbrev swapped : List BatchResult
swapped = conflict (codes "wx-2") (codes "wx-2") (codes "wx-2") ∷ merged (codes "wx-1") ∷ []

batch_two :
    run_parallel_batch git swap (codes "core") two_beads.ready spawn (λ ws s. s) tt
    ≡ some (ok swapped, tt)
unfolding run_parallel_batch
batch_two = refl

run_parallel_batch-Perm_example : Perm (map id_of swapped) (map bead_id two_beads.ready)
run_parallel_batch-Perm_example =
    run_parallel_batch-Perm git swap (codes "core") two_beads.ready spawn (λ ws s. s) tt swap_fair
      (λ w. (success, refl)) batch_two
