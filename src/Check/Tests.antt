-- ===== src/Check/Tests.antt =====
-- Concrete runs of the review gate of loom/crates/loom-workflow/src/check/runner.rs.
use wrapix.Prelude.{ℕ, ◌≡◌, refl, some, List, [], ◌∷◌}
use wrapix.Prelude.Text.{Str, codes}
use wrapix.Prelude.Exec.{ok}
use wrapix.Core.Bead.{Bead}
use wrapix.Core.BeadId.{BeadId}
use wrapix.Check.Gate.{
  Controller, diff_new_bead_ids, complete, pushed, auto_iterated, escalated, default_cap,
  check_loop, cap_reason,
}
use wrapix.Check.Gate.Branches.{Call, recording, Story, check_loop-Story}

abbrev bead : Str → Bead
bead id = record {
  id = id;
  title = codes "title";
  description = [];
  status = codes "open";
  priority = 2;
  issue_type = codes "task";
  labels = [];
}

-- The controller's state: the beads, those that the review will add, and the iteration counter.
record Fake : Type 0 where
  beads : List Bead
  found : List Bead
  count : ℕ

abbrev fake : Controller Fake (Unit {0})
fake = record {
  run_review = λ s. (ok complete, record s { beads = s.found });
  list_spec_beads = λ s. (ok s.beads, s);
  iteration_count = λ s. (ok s.count, s);
  set_iteration_count = λ n s. (ok tt, record s { count = n });
  reset_iteration_count = λ s. (ok tt, record s { count = 0 });
  apply_clarify = λ id reason s. (ok tt, s);
  git_push = λ s. (ok tt, s);
  beads_push = λ s. (ok tt, s);
  exec_run = λ s. (ok tt, s);
  review_incomplete = λ d. tt;
}

abbrev one : List Bead
one = bead (codes "wx-1") ∷ []

abbrev two : List Bead
two = bead (codes "wx-1") ∷ bead (codes "wx-2") ∷ []

abbrev at_cap : Fake
at_cap = record { beads = one; found = two; count = 3 }

abbrev cap_log : List (Call (Unit {0}))
cap_log =
    Call.listed (ok one)
    ∷ Call.reviewed (ok complete)
    ∷ Call.listed (ok two)
    ∷ Call.counted (ok 3)
    ∷ Call.flagged (codes "wx-2") (cap_reason 3) (ok tt)
    ∷ []

escalates :
    check_loop (recording fake) default_cap (at_cap, [])
    ≡ some (ok (escalated (codes "wx-2") 3), (record at_cap { beads = two }, cap_log))
unfolding check_loop
escalates = refl

check_loop-Story_example : Story fake default_cap (escalated (codes "wx-2") 3) cap_log
check_loop-Story_example = check_loop-Story fake default_cap at_cap escalates

iterates :
    check_loop fake default_cap (record at_cap { count = 2 })
    ≡ some (ok (auto_iterated 3), record { beads = two; found = two; count = 3 })
unfolding check_loop
iterates = refl

pushes :
    check_loop fake default_cap (record at_cap { found = one })
    ≡ some (ok pushed, record { beads = one; found = one; count = 0 })
unfolding check_loop
pushes = refl

abbrev before : List BeadId
before = codes "wx-1" ∷ []

abbrev after : List BeadId
after = codes "wx-2" ∷ codes "wx-1" ∷ codes "wx-3" ∷ []

two_new : diff_new_bead_ids before after ≡ codes "wx-2" ∷ codes "wx-3" ∷ []
unfolding diff_new_bead_ids
two_new = refl
