-- ===== src/State/Db.antt =====
-- loom/crates/loom-core/src/state: db.rs and error.rs.
pub mod Replace
use wrapix.Prelude.{ℕ, ◌%◌, ◌^◌, ◌==◌, Option, none, some, List, [], ◌∷◌, if◌then◌else◌}
use wrapix.Prelude.Text.{Str, codes}
use wrapix.Prelude.Int.{ℤ, pos, negsuc}
use wrapix.Prelude.Exec.{Result, ok, err}
use wrapix.Prelude.Act.{Act, pure, raise, ◌>>=◌, ◌>>◌}
use wrapix.Core.Label.{SpecLabel, MoleculeId}
use wrapix.State.Sql.{
  SpecRecord, MoleculeRecord, Statement, create_tables, drop_tables, ignore_meta, upsert_meta,
  upsert_spec, delete_companions, ignore_companion, bump_iteration, Database,
}

-- `J` is an error of the JSON library.
pub data StateError (Q J I : Type 0) : Type 0 where
  open_db : Str → Q → StateError Q J I
  sqlite : Q → StateError Q J I
  json : Str → J → StateError Q J I
  poisoned : StateError Q J I
  spec_not_found : Str → StateError Q J I
  io : I → StateError Q J I

pub record SpecRow : Type 0 where
  pub label : SpecLabel
  pub spec_path : Str
  pub implementation_notes : Option (List Str)

pub record MoleculeRow : Type 0 where
  pub id : MoleculeId
  pub spec_label : SpecLabel
  pub base_commit : Option Str
  pub iteration_count : ℕ  -- u32

-- `count.max(0) as u32`
abbrev pub count_of : ℤ → ℕ
count_of (pos n) = n % 2 ^ 32
count_of (negsuc n) = 0

abbrev row_to_molecule : MoleculeRecord → MoleculeRow
row_to_molecule r = record {
  id = r.id;
  spec_label = r.spec_label;
  base_commit = r.base_commit;
  iteration_count = count_of r.iteration_count;
}

abbrev molecule_row : Option MoleculeRecord → Option MoleculeRow
molecule_row none = none
molecule_row (some r) = some (row_to_molecule r)

abbrev pub schema_version : Statement
schema_version = ignore_meta (codes "schema_version") (codes "1")

module _ {D Q J I : Type 0} (database : Database D Q J I) where
  abbrev pub Call : Type 0 → Type 0
  Call A = Act D (StateError Q J I) A

  -- `?` on an answer of SQLite.
  abbrev pub asked : {A : Type 0} → Result Q A → Result (StateError Q J I) A
  asked (ok a) = ok a
  asked (err e) = err (sqlite e)

  abbrev answered : {A : Type 0} → Result Q A × D → Result (StateError Q J I) A × D
  answered (r, d) = (asked r, d)

  unfoldable pub execute : Statement → Call ℕ
  execute q d = answered (database.execute q d)

  -- `lock_conn`, and what is done under the lock.
  abbrev pub locked : {A : Type 0} → Call A → Call A
  locked f d = if database.is_poisoned d then (err poisoned, d) else f d

  abbrev query : {A : Type 0} → (D → Result Q A) → Call A
  query select d = (asked (select d), d)

  abbrev made_dir : Result I (Unit {0}) × D → Result (StateError Q J I) (Unit {0}) × D
  made_dir (ok _, d) = (ok tt, d)
  made_dir (err e, d) = (err (io e), d)

  abbrev connected : Str → Result Q (Unit {0}) × D → Result (StateError Q J I) (Unit {0}) × D
  connected path (ok _, d) = (ok tt, d)
  connected path (err e, d) = (err (open_db path e), d)

  abbrev removed : Option (Result I (Unit {0})) × D → Result (StateError Q J I) (Unit {0}) × D
  removed (none, d) = (ok tt, d)
  removed (some r, d) = made_dir (r, d)

  abbrev pub done : ℕ → Call (Unit {0})
  done n = pure tt

  unfoldable pub open_at : Str → Call (Unit {0})
  unfolding execute
  open_at path =
      (λ d. made_dir (database.create_parent path d))
      >> (λ d. connected path (database.connect path d))
      >> execute create_tables
      >> execute schema_version
      >>= done

  unfoldable pub recreate : Str → Call (Unit {0})
  unfolding open_at
  recreate path = (λ d. removed (database.remove_file path d)) >> open_at path

  unfoldable pub drop_and_recreate : Call (Unit {0})
  unfolding execute
  drop_and_recreate =
      execute drop_tables >> execute create_tables >> execute schema_version >>= done

  abbrev row_with : SpecRecord → Result J (List Str) → Result (StateError Q J I) SpecRow
  row_with r (ok notes) =
      ok (record { label = r.label; spec_path = r.spec_path; implementation_notes = some notes })
  row_with r (err e) = err (json (codes "implementation_notes") e)

  abbrev notes_or_none : SpecRecord → Option Str → Result (StateError Q J I) SpecRow
  notes_or_none r none =
      ok (record { label = r.label; spec_path = r.spec_path; implementation_notes = none })
  notes_or_none r (some text) = row_with r (database.decode_notes text)

  abbrev row_to_spec : Str → Option SpecRecord → Call SpecRow
  row_to_spec label none d = (err (spec_not_found label), d)
  row_to_spec label (some r) d = (notes_or_none r r.implementation_notes, d)

  unfoldable pub spec : SpecLabel → Call SpecRow
  spec label = locked (query (database.select_spec label) >>= row_to_spec label)

  unfoldable pub active_molecule : SpecLabel → Call (Option MoleculeRow)
  active_molecule label =
      locked (query (database.select_molecule label) >>= (λ r. pure (molecule_row r)))

  abbrev pub current_spec : Call (Option SpecLabel)
  current_spec = locked (query (database.select_meta (codes "current_spec")))

  unfoldable pub set_current_spec : SpecLabel → Call (Unit {0})
  unfolding execute
  set_current_spec label = locked (execute (upsert_meta (codes "current_spec") label) >>= done)

  unfoldable pub insert_companions : SpecLabel → List Str → Call (Unit {0})
  unfolding execute
  insert_companions label [] = pure tt
  insert_companions label (path ∷ paths) =
      execute (ignore_companion label path) >> insert_companions label paths

  unfoldable pub replace_companions : SpecLabel → Str → List Str → Call (Unit {0})
  unfolding execute insert_companions
  replace_companions label spec_path paths = locked (
      execute (upsert_spec label spec_path)
      >> execute (delete_companions label)
      >> insert_companions label paths)

  abbrev pub companions : SpecLabel → Call (List Str)
  companions label = locked (query (database.select_companions label))

  abbrev bumped : MoleculeId → ℕ → Call ℕ
  bumped id updated =
      if updated == 0
      then raise (spec_not_found id)
      else query (database.select_iteration id) >>= (λ count. pure (count_of count))

  unfoldable pub increment_iteration : MoleculeId → Call ℕ
  unfolding execute
  increment_iteration id = locked (execute (bump_iteration id) >>= bumped id)
