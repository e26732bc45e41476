-- ===== src/Plan/Tests.antt =====
-- A concrete spec for loom/crates/loom-workflow/src/plan/companions.rs.
use wrapix.Prelude.{◌≡◌, refl, true, some, List, [], ◌∷◌}
use wrapix.Prelude.Text.{Str, codes}
use wrapix.Prelude.Exec.{Result, ok}
use wrapix.State.Sql.{Tables}
use wrapix.State.Sql.Sqlite.{paths_of}
use wrapix.State.Sql.Toy.{toy, toy_sqlite}
use wrapix.State.Db.{companions}
use wrapix.Plan.Companions.{CompanionReconciliation, reconcile_companions}
use wrapix.Plan.Companions.Listed.{Landed, OrderedSet, reconcile_companions-listed}

abbrev path : Str
path = codes "specs/run.md"

abbrev read : Str → Tables → Result Str Str
read p t = ok (codes "# Run\n## Companions\n- `lib/run`\n- `/lib/run`\n- `lib/loop`\n")

abbrev start : Tables
start = record {
  specs =
      record {
        label = codes "run";
        spec_path = codes "run.md";
        implementation_notes = some (codes "[]");
      }
      ∷ [];
  molecules = [];
  companions = (codes "run", codes "old") ∷ (codes "init", codes "lib/run") ∷ [];
  meta = [];
}

abbrev after : Tables
after = record {
  specs =
      record { label = codes "run"; spec_path = path; implementation_notes = some (codes "[]") }
      ∷ [];
  molecules = [];
  companions =
      (codes "init", codes "lib/run")
      ∷ (codes "run", codes "lib/run")
      ∷ (codes "run", codes "lib/loop")
      ∷ [];
  meta = [];
}

abbrev outcome : CompanionReconciliation
outcome = record {
  paths = codes "lib/run" ∷ codes "lib/run" ∷ codes "lib/loop" ∷ [];
  section_present = true;
}

abbrev out : List Str
out = codes "lib/loop" ∷ codes "lib/run" ∷ []

runs : reconcile_companions {R = Str} toy read (codes "run") path start ≡ (ok outcome, after)
unfolding reconcile_companions toy
runs = refl

lists : companions toy (codes "run") after ≡ (ok out, after)
unfolding toy paths_of
lists = refl

reconcile_companions-listed_example :
    Landed toy toy_sqlite (codes "run") path outcome (read path start) start after
    × OrderedSet out outcome.paths
reconcile_companions-listed_example =
    reconcile_companions-listed toy toy_sqlite {R = Str} read (codes "run") path outcome out start
      after after runs lists
