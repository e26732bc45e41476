-- ===== src/State/Sql/Sqlite.antt =====
-- What SQLite is taken to do with the statements of loom/crates/loom-core/src/state: the hypotheses
-- on what db.rs and rebuild.rs call.
use mathlib.Core.List.{Perm}
use wrapix.Prelude.{
  zero, ℕ, suc, ◌^◌, ◌≡◌, ◌≢◌, ◌-◌, All, Bool, not, ◌&&◌, Option, none, List, [], ◌∷◌, ◌++◌, map,
  any, filter, if◌then◌else◌,
}
use wrapix.Prelude.Text.{Str, str_eq}
use wrapix.Prelude.Sorting.{Ordered}
use wrapix.Prelude.Int.{ℤ, pos, negsuc}
use wrapix.Prelude.Exec.{ok}
use wrapix.State.Sql.{
  SpecRecord, MoleculeRecord, Tables, Statement, create_tables, drop_tables, ignore_meta,
  upsert_meta, upsert_spec, insert_spec, delete_companions, ignore_companion, insert_molecule,
  bump_iteration, Database,
}

abbrev pub no_rows : Tables
no_rows = record { specs = []; molecules = []; companions = []; meta = [] }

abbrev pub same_row : Str → Str → Str × Str → Bool
same_row a b (x, y) = str_eq x a && str_eq y b

unfoldable pub has_row : Str → Str → List (Str × Str) → Bool
unfolding str_eq
has_row a b rows = any (same_row a b) rows

-- The primary key of `companions` is both columns, that of `meta` the first.
unfoldable pub add_companion : Str → Str → List (Str × Str) → List (Str × Str)
unfolding has_row
add_companion label path rows = if has_row label path rows then rows else rows ++ (label, path) ∷ []

abbrev add_meta : Str → Str → List (Str × Str) → List (Str × Str)
add_meta key value rows =
    if any (λ (r : Str × Str). str_eq r.0 key) rows then rows else rows ++ (key, value) ∷ []

abbrev put_meta : Str → Str → List (Str × Str) → List (Str × Str)
put_meta key value [] = (key, value) ∷ []
put_meta key value ((k, v) ∷ rows) =
    let rest = put_meta key value rows in if str_eq k key then (k, value) ∷ rows else (k, v) ∷ rest

abbrev pub spec_record : Str → Str → SpecRecord
spec_record label path = record { label = label; spec_path = path; implementation_notes = none }

unfoldable pub put_spec : Str → Str → List SpecRecord → List SpecRecord
unfolding str_eq
put_spec label path [] = spec_record label path ∷ []
put_spec label path (r ∷ rows) =
    let rest = put_spec label path rows in
    if str_eq r.label label then record r { spec_path = path } ∷ rows else r ∷ rest

abbrev pub not_of : Str → Str × Str → Bool
not_of label (l, path) = not (str_eq l label)

unfoldable pub drop_companions : Str → List (Str × Str) → List (Str × Str)
unfolding str_eq
drop_companions label rows = filter (not_of label) rows

abbrev pub molecule_record : Str → Str → Option Str → MoleculeRecord
molecule_record id label base = record {
  id = id;
  spec_label = label;
  base_commit = base;
  iteration_count = pos 0;
}

abbrev one_more : ℤ → ℤ
one_more (pos n) = pos (suc n)
one_more (negsuc zero) = pos 0
one_more (negsuc (suc n)) = negsuc n

abbrev bump : Str → MoleculeRecord → MoleculeRecord
bump id r = if str_eq r.id id then record r { iteration_count = one_more r.iteration_count } else r

unfoldable pub applied : Statement → Tables → Tables
unfolding str_eq add_companion put_spec drop_companions
applied create_tables t = t
applied drop_tables t = no_rows
applied (ignore_meta key value) t = record t { meta = add_meta key value t.meta }
applied (upsert_meta key value) t = record t { meta = put_meta key value t.meta }
applied (upsert_spec label path) t = record t { specs = put_spec label path t.specs }
applied (insert_spec label path) t = record t { specs = t.specs ++ spec_record label path ∷ [] }
applied (delete_companions label) t = record t { companions = drop_companions label t.companions }
applied (ignore_companion label path) t = record t {
  companions = add_companion label path t.companions;
}
applied (insert_molecule id label base) t = record t {
  molecules = t.molecules ++ molecule_record id label base ∷ [];
}
applied (bump_iteration id) t = record t { molecules = map (bump id) t.molecules }

-- A sum that leaves the range of i64 becomes a float, which is left out.
abbrev pub IsExact : Statement → Tables → Type 0
IsExact (bump_iteration id) t =
    All (λ (r : MoleculeRecord). r.iteration_count ≢ pos (2 ^ 63 - 1)) t.molecules
IsExact q t = Unit

unfoldable pub paths_of : Str → List (Str × Str) → List Str
unfolding str_eq
paths_of label [] = []
paths_of label ((l, path) ∷ rows) =
    let rest = paths_of label rows in if str_eq l label then path ∷ rest else rest

module _ {D Q J I : Type 0} (database : Database D Q J I) where
  -- The rows that a statement leaves where it succeeds, a missing table having none; and the rows of
  -- a query with `ORDER BY`, by the bytes of the texts.
  pub record Sqlite : Type 0 where
    pub rows : D → Tables
    pub executed :
        (q : Statement) (d d' : D) (n : ℕ)
        → database.execute q d ≡ (ok n, d')
        → IsExact q (rows d)
        → rows d' ≡ applied q (rows d)
    pub listed :
        (label : Str) (d : D) (out : List Str)
        → database.select_companions label d ≡ ok out
        → Ordered (λ s. s) out × Perm out (paths_of label (rows d).companions)
