-- ===== src/Init.antt =====
-- loom/crates/loom-workflow/src/init: mod.rs and error.rs. The lock, the database and the files are
-- parameters over one world, and reading the directory of the specs is one of the files' answers.

pub mod Story
pub mod Toy
mod Tests
use wrapix.Prelude.{
  ℕ, Bool, true, false, not, Option, none, some, List, [], ◌∷◌, ◌++◌, find_map, if◌then◌else◌,
}
use wrapix.Prelude.Text.{Str, codes}
use wrapix.Prelude.Exec.{Result, ok, err}
use wrapix.Prelude.Act.{Act, pure, ◌>>=◌, ◌>>◌}
use wrapix.Core.Label.{SpecLabel, spec_label}
use wrapix.Core.Bead.{Bead}
use wrapix.Core.Bd.{BdError, RunOutput, Json}
use wrapix.Core.Bd.Client.{list}
use wrapix.Lock.{Kernel, LockError, acquire_workspace}
use wrapix.Lock
use wrapix.State.Sql.{Database}
use wrapix.State.Db.{StateError, open_at, recreate}
use wrapix.State.Rebuild.{ActiveMolecule, RebuildReport, SpecsDir, rebuild}

-- `I` is an error of the operating system; `Q` and `J` are those of SQLite and JSON.
pub data InitError (Q J I : Type 0) : Type 0 where
  create_dir write_config : Str → I → InitError Q J I
  lock : LockError I → InitError Q J I
  state : StateError Q J I → InitError Q J I
  bd : BdError I J → InitError Q J I
  missing_spec_label : Str → InitError Q J I

pub record InitReport : Type 0 where
  pub config_path : Str
  pub state_db_path : Str
  pub config_created : Bool
  pub rebuild : Option RebuildReport

pub record Files (D I : Type 0) : Type 0 where
  pub create_dir_all : Str → D → Result I (Unit {0}) × D
  pub exists : Str → D → Bool
  -- `fs::write` of `DEFAULT_CONFIG_TOML`
  pub write_default : Str → D → Result I (Unit {0}) × D
  pub specs_dir : Str → D → SpecsDir I

-- `Path::join` behind a directory
abbrev pub join_path : Str → Str → Str
join_path dir name = dir ++ b'/' ∷ name

abbrev pub loom_dir : Str → Str
loom_dir workspace = join_path workspace (codes ".wrapix/loom")

abbrev pub config_at : Str → Str
config_at workspace = join_path (loom_dir workspace) (codes "config.toml")

abbrev pub state_db_at : Str → Str
state_db_at workspace = join_path (loom_dir workspace) (codes "state.db")

module _ {D F Q J I : Type 0} (kernel : Kernel D F I) (database : Database D Q J I)
    (files : Files D I) where
  abbrev pub Call : Type 0 → Type 0
  Call A = Act D (InitError Q J I) A

  abbrev pub locking : {A : Type 0} → Result (LockError I) A × D → Result (InitError Q J I) A × D
  locking (ok a, d) = (ok a, d)
  locking (err e, d) = (err (lock e), d)

  abbrev pub stored :
      {A : Type 0} → Result (StateError Q J I) A × D → Result (InitError Q J I) A × D
  stored (ok a, d) = (ok a, d)
  stored (err e, d) = (err (state e), d)

  abbrev made : Str → Result I (Unit {0}) × D → Result (InitError Q J I) (Unit {0}) × D
  made path (ok _, d) = (ok tt, d)
  made path (err e, d) = (err (create_dir path e), d)

  abbrev written : Str → Result I (Unit {0}) × D → Result (InitError Q J I) (Unit {0}) × D
  written path (ok _, d) = (ok tt, d)
  written path (err e, d) = (err (write_config path e), d)

  -- The config is written only if it is not there; was it?
  abbrev pub config_if : Str → Bool → Call Bool
  config_if path true = pure false
  config_if path false = (λ d. written path (files.write_default path d)) >> pure true

  abbrev pub ensure_config : Str → Call Bool
  ensure_config path d = config_if path (files.exists path d) d

  abbrev pub reported : Str → Bool → Option RebuildReport → InitReport
  reported workspace created report = record {
    config_path = config_at workspace;
    state_db_path = state_db_at workspace;
    config_created = created;
    rebuild = report;
  }

  abbrev pub recreating : Str → Call (Unit {0})
  recreating workspace d = stored (recreate database (state_db_at workspace) d)

  abbrev pub refilling : Str → List ActiveMolecule → Call RebuildReport
  refilling workspace molecules d =
      stored (rebuild database (files.specs_dir workspace d) molecules d)

  abbrev pub done : Str → Bool → RebuildReport → Call InitReport
  done workspace created report = pure (reported workspace created (some report))

  abbrev pub rebuilt : Str → Bool → List ActiveMolecule → Call InitReport
  rebuilt workspace created molecules =
      recreating workspace >> refilling workspace molecules >>= done workspace created

  abbrev pub opening : Str → Call (Unit {0})
  opening workspace d = stored (open_at database (state_db_at workspace) d)

  abbrev pub opened : Str → Bool → Call InitReport
  opened workspace created = opening workspace >> pure (reported workspace created none)

  abbrev pub with_database : Str → Bool → List ActiveMolecule → Bool → Call InitReport
  with_database workspace true molecules created = rebuilt workspace created molecules
  with_database workspace false molecules created = opened workspace created

  abbrev pub configured : Str → Call Bool
  configured workspace =
      (λ d. made (loom_dir workspace) (files.create_dir_all (loom_dir workspace) d))
      >> ensure_config (config_at workspace)

  -- What is done under the lock.
  unfoldable pub initialise : Str → Bool → List ActiveMolecule → Call InitReport
  unfolding recreate rebuild open_at
  initialise workspace rebuilding molecules =
      configured workspace >>= with_database workspace rebuilding molecules

  -- The guard is dropped at the end, also behind an error.
  abbrev pub released : {A E : Type 0} → F → Result E A × D → Result E A × D
  released f (r, d) = (r, kernel.close f d)

  unfoldable pub run : Str → Bool → List ActiveMolecule → Call InitReport
  unfolding initialise acquire_workspace wrapix.Lock.new
  run workspace rebuilding molecules =
      (λ d. locking (wrapix.Lock.new kernel d))
      >> (λ d. locking (acquire_workspace kernel d))
      >>= (λ guard d. released guard (initialise workspace rebuilding molecules d))

abbrev active_label : Str
active_label = codes "loom:active"

module _ {S Q J I G : Type 0} (json : Json G J)
    (runner : List Str → ℕ → Act S (BdError I J) RunOutput) (limit : ℕ) where
  abbrev with_label :
      Bead
      → Option SpecLabel
      → Result (InitError Q J I) (List ActiveMolecule)
      → Result (InitError Q J I) (List ActiveMolecule)
  with_label bead none rest = err (missing_spec_label bead.id)
  with_label bead (some label) (err e) = err e
  with_label bead (some label) (ok out) =
      ok (record { id = bead.id; spec_label = label; base_commit = none } ∷ out)

  unfoldable pub molecules_of : List Bead → Result (InitError Q J I) (List ActiveMolecule)
  unfolding spec_label
  molecules_of [] = ok []
  molecules_of (bead ∷ beads) =
      with_label bead (find_map spec_label bead.labels) (molecules_of beads)

  abbrev fetched :
      Result (BdError I J) (List Bead) × S → Result (InitError Q J I) (List ActiveMolecule) × S
  fetched (ok beads, s) = (molecules_of beads, s)
  fetched (err e, s) = (err (bd e), s)

  unfoldable pub fetch_active_molecules : Act S (InitError Q J I) (List ActiveMolecule)
  unfolding list molecules_of
  fetch_active_molecules s = fetched (
      list json runner limit (record { status = some (codes "open"); label = some active_label }) s)
