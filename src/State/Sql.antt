-- ===== src/State/Sql.antt =====
-- The tables of the state database and the SQL statements of loom/crates/loom-core/src/state: db.rs
-- and rebuild.rs. The database that runs them is a parameter.
pub mod Sqlite
pub mod Toy
pub mod Steps
pub mod Companions
pub mod Replacing
use wrapix.Prelude.{ℕ, Bool, Option, List}
use wrapix.Prelude.Text.{Str}
use wrapix.Prelude.Int.{ℤ}
use wrapix.Prelude.Exec.{Result}

-- A row of the table `specs`, whose notes are JSON.
pub record SpecRecord : Type 0 where
  pub label : Str
  pub spec_path : Str
  pub implementation_notes : Option Str

pub record MoleculeRecord : Type 0 where
  pub id : Str
  pub spec_label : Str
  pub base_commit : Option Str
  pub iteration_count : ℤ  -- i64

-- The rows in the order in which they were inserted; `companions` and `meta` have two columns.
pub record Tables : Type 0 where
  pub specs : List SpecRecord
  pub molecules : List MoleculeRecord
  pub companions : List (Str × Str)
  pub meta : List (Str × Str)

pub data Statement : Type 0 where
  -- `MIGRATION_V1` and `DROP_AND_RECREATE`
  create_tables drop_tables : Statement
  -- `INSERT OR IGNORE INTO meta`
  ignore_meta : Str → Str → Statement
  -- `INSERT INTO meta … ON CONFLICT(key) DO UPDATE`
  upsert_meta : Str → Str → Statement
  -- `INSERT INTO specs … ON CONFLICT(label) DO UPDATE SET spec_path`
  upsert_spec : Str → Str → Statement
  insert_spec : Str → Str → Statement
  delete_companions : Str → Statement
  -- `INSERT OR IGNORE INTO companions`
  ignore_companion : Str → Str → Statement
  -- with an `iteration_count` of 0
  insert_molecule : Str → Str → Option Str → Statement
  -- `UPDATE molecules SET iteration_count = iteration_count + 1`
  bump_iteration : Str → Statement

-- A world with one database: `Q` is an error of SQLite, `J` one of the JSON library, `I` one of the
-- operating system.
pub record Database (D Q J I : Type 0) : Type 0 where
  -- a thread that held the connection has panicked
  pub is_poisoned : D → Bool
  -- `create_dir_all` of a path's parent, which every path of a file has
  pub create_parent : Str → D → Result I (Unit {0}) × D
  -- none for a file that is not there
  pub remove_file : Str → D → Option (Result I (Unit {0})) × D
  pub connect : Str → D → Result Q (Unit {0}) × D
  -- how many rows a statement changes
  pub execute : Statement → D → Result Q ℕ × D
  pub select_spec : Str → D → Result Q (Option SpecRecord)
  -- `ORDER BY id ASC LIMIT 1`
  pub select_molecule : Str → D → Result Q (Option MoleculeRecord)
  pub select_meta : Str → D → Result Q (Option Str)
  -- `ORDER BY companion_path`
  pub select_companions : Str → D → Result Q (List Str)
  pub select_iteration : Str → D → Result Q ℤ
  -- `serde_json::from_str` on the notes of a row
  pub decode_notes : Str → Result J (List Str)
