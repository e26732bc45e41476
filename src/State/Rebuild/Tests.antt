-- ===== src/State/Rebuild/Tests.antt =====
-- A concrete rebuild by loom/crates/loom-core/src/state/rebuild.rs, and a counter that is raised.
use wrapix.Prelude.{◌≡◌, refl, true, none, some, List, [], ◌∷◌}
use wrapix.Prelude.Text.{Str, codes}
use wrapix.Prelude.Int.{pos}
use wrapix.Prelude.Exec.{Result, ok, err}
use wrapix.State.Sql.{Tables}
use wrapix.State.Sql.Toy.{toy, toy_sqlite}
use wrapix.State.Db.{increment_iteration, set_current_spec, recreate, spec_not_found}
use wrapix.State.Rebuild.{
  ActiveMolecule, RebuildReport, SpecFile, Entry, SpecsDir, entries, collect_spec_files, rebuild,
}
use wrapix.State.Rebuild.Files.{Collected}
use wrapix.State.Rebuild.Rebuilt.{Rebuilt, rebuild-Rebuilt}

abbrev file : Str → Str → Result Str (Entry Str)
file name content = ok (record { name = some name; is_file = true; content = ok content })

abbrev specs : SpecsDir Str
specs = entries (
    file (codes "run.md") (codes "## Companions\n- `lib/run`\n- `/lib/run`\n- `lib/loop`\n")
    ∷ file (codes "notes.txt") (codes "no spec")
    ∷ file (codes "init.md") (codes "# Init\n")
    ∷ [])

abbrev molecule : Str → Str → ActiveMolecule
molecule id label = record { id = id; spec_label = label; base_commit = none }

abbrev given : List ActiveMolecule
given = molecule (codes "wx-1") (codes "run") ∷ molecule (codes "wx-2") (codes "gone") ∷ []

abbrev start : Tables
start = record {
  specs = [];
  molecules = [];
  companions = (codes "gone", codes "lib") ∷ [];
  meta = (codes "current_spec", codes "run") ∷ [];
}

abbrev after : Tables
after = record {
  specs =
      record {
        label = codes "init";
        spec_path = codes "specs/init.md";
        implementation_notes = none;
      }
      ∷ record {
        label = codes "run";
        spec_path = codes "specs/run.md";
        implementation_notes = none;
      }
      ∷ [];
  molecules =
      record {
        id = codes "wx-1";
        spec_label = codes "run";
        base_commit = none;
        iteration_count = pos 0;
      }
      ∷ [];
  companions = (codes "run", codes "lib/run") ∷ (codes "run", codes "lib/loop") ∷ [];
  meta = (codes "schema_version", codes "1") ∷ [];
}

-- One of the three companions that the report counts is not written, since it is there already.
abbrev report : RebuildReport
report = record { specs = 2; molecules = 1; companions = 3 }

runs : rebuild toy specs given start ≡ (ok report, after)
unfolding rebuild toy
runs = refl

rebuild-Rebuilt_example :
    (files : List SpecFile) × (collect_spec_files specs ≡ ok files)
    × Collected specs files
    × Rebuilt files given report after
unfolding toy_sqlite
rebuild-Rebuilt_example = rebuild-Rebuilt toy toy_sqlite specs given report start after runs

raised : (increment_iteration toy (codes "wx-1") after).0 ≡ ok 1
unfolding increment_iteration toy
raised = refl

no_molecule :
    increment_iteration toy (codes "wx-2") after ≡ (err (spec_not_found (codes "wx-2")), after)
unfolding increment_iteration toy
no_molecule = refl

reopened :
    (set_current_spec toy (codes "run") ((recreate toy (codes "state.db") after).1)).0 ≡ ok tt
unfolding set_current_spec recreate toy
reopened = refl
