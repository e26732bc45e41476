-- ===== src/Init/Tests.antt =====
-- Concrete runs of loom/crates/loom-workflow/src/init.
use wrapix.Prelude.{◌<◌, ◌≡◌, refl, true, false, none, some, List, [], ◌∷◌}
use wrapix.Prelude.Text.{Str, codes}
use wrapix.Prelude.Exec.{ok, err}
use wrapix.Lock.{lock_name, workspace_busy}
use wrapix.Lock.Toy.{File, toy}
use wrapix.State.Sql.Toy.{toy as toy_db}
use wrapix.State.Rebuild.{ActiveMolecule, entries}
use wrapix.Init.{lock, Files, run}
use wrapix.Init.Toy.{World, kernel, database, flock, sqlite}
use wrapix.Init.Story.{Story, run-Story}

-- There is one spec, and no config yet.
abbrev files : Files World Str
files = record {
  create_dir_all = λ path w. (ok tt, w);
  exists = λ path w. false;
  write_default = λ path w. (ok tt, w);
  specs_dir = λ workspace w. entries (
      ok (record {
        name = some (codes "run.md");
        is_file = true;
        content = ok (codes "## Companions\n- `lib/run`\n");
      })
      ∷ []);
}

none_old : (q : Str) (f : File) → none ≡ some f → f.0 < 1
none_old q f h = cc h

abbrev start : World
start = (
  record {
    held = λ q. none;
    next = 1;
    time = 0;
    names = lock_name (codes "run") ∷ [];
    old = none_old;
  },
  record { specs = []; molecules = []; companions = []; meta = [] },
)

abbrev given : List ActiveMolecule
given = record { id = codes "wx-1"; spec_label = codes "run"; base_commit = none } ∷ []

run-Story_example :
    Story kernel flock database sqlite files
      (codes "/ws")
      true
      given
      start
      (run kernel database files (codes "/ws") true given start)
run-Story_example = run-Story kernel flock database sqlite files (codes "/ws") true given start

rebuilds :
    (run kernel database files (codes "/ws") true given start).0
    ≡ ok (record {
      config_path = codes "/ws/.wrapix/loom/config.toml";
      state_db_path = codes "/ws/.wrapix/loom/state.db";
      config_created = true;
      rebuild = some (record { specs = 1; molecules = 1; companions = 1 });
    })
unfolding run toy_db
rebuilds = refl

-- A spec command holds its lock.
abbrev busy : World
busy = ((toy.try_write (1, lock_name (codes "run")) start.0).1, start.1)

refuses :
    (run kernel database files (codes "/ws") true given busy).0
    ≡ err (lock (workspace_busy (codes "run")))
unfolding run toy_db
refuses = refl
