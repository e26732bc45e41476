-- ===== src/State/Sql/Toy.antt =====
-- A database in memory for the runs of loom/crates/loom-core/src/state.
use mathlib.Core.List.{Perm}
use wrapix.Prelude.{
  ℕ, ◌≡◌, subst, sym, ap, Bool, true, false, Option, none, some, List, [], ◌∷◌, any, find, filter,
  length, if◌then◌else◌,
}
use wrapix.Prelude.Text.{Str, codes, str_eq, is_before}
use wrapix.Prelude.Sorting.{Ordered, sort_by, sort_by-Perm, sort_by-Ordered}
use wrapix.Prelude.Int.{ℤ}
use wrapix.Prelude.Exec.{Result, ok, err}
use wrapix.State.Sql.{
  SpecRecord, MoleculeRecord, Tables, Statement, insert_spec, insert_molecule, bump_iteration,
  Database,
}
use wrapix.State.Sql.Sqlite.{applied, paths_of, Sqlite}

-- A second row with the same primary key is refused.
abbrev refuses : Statement → Tables → Bool
refuses (insert_spec label path) t = any (λ (r : SpecRecord). str_eq r.label label) t.specs
refuses (insert_molecule id label base) t = any (λ (r : MoleculeRecord). str_eq r.id id) t.molecules
refuses q t = false

abbrev changes : Statement → Tables → ℕ
changes (bump_iteration id) t = length (filter (λ (r : MoleculeRecord). str_eq r.id id) t.molecules)
changes q t = 1

abbrev run : Bool → Statement → Tables → Result Str ℕ × Tables
run true q t = (err (codes "UNIQUE constraint failed"), t)
run false q t = (ok (changes q t), applied q t)

abbrev value_at : Option (Str × Str) → Option Str
value_at none = none
value_at (some (k, v)) = some v

abbrev least : List MoleculeRecord → Option MoleculeRecord
least [] = none
least (r ∷ rows) = elim (least rows) [
  | none ↦ some r
  | some m ↦ if is_before m.id r.id then some m else some r
]

abbrev count_at : Option MoleculeRecord → Result Str ℤ
count_at none = err (codes "no rows")
count_at (some r) = ok r.iteration_count

unfoldable pub toy : Database Tables Str Str Str
unfolding applied sort_by str_eq
toy = record {
  is_poisoned = λ t. false;
  create_parent = λ path t. (ok tt, t);
  remove_file =
      λ path t. (some (ok tt), record { specs = []; molecules = []; companions = []; meta = [] });
  connect = λ path t. (ok tt, t);
  execute = λ q t. run (refuses q t) q t;
  select_spec = λ label t. ok (find (λ (r : SpecRecord). str_eq r.label label) t.specs);
  select_molecule = λ label t.
      ok (least (filter (λ (r : MoleculeRecord). str_eq r.spec_label label) t.molecules));
  select_meta = λ key t. ok (value_at (find (λ (r : Str × Str). str_eq r.0 key) t.meta));
  select_companions = λ label t. ok (sort_by (λ s. s) (paths_of label t.companions));
  select_iteration = λ id t. count_at (find (λ (r : MoleculeRecord). str_eq r.id id) t.molecules);
  decode_notes = λ text. err (codes "no JSON");
}

pub ran :
    (b : Bool) (q : Statement) (t t' : Tables) (n : ℕ) → run b q t ≡ (ok n, t') → t' ≡ applied q t
ran true q t t' n h = cc h
ran false q t t' n h = ap (λ (p : Result Str ℕ × Tables). p.1) (sym h)

abbrev out_of : Result Str (List Str) → List Str
out_of (ok l) = l
out_of (err e) = []

unfoldable pub toy_sqlite : Sqlite toy
unfolding toy
toy_sqlite = record {
  rows = λ t. t;
  executed = λ q t t' n h exact. ran (refuses q t) q t t' n h;
  listed = λ label t out h.
      subst (λ (l : List Str). Ordered (λ s. s) l × Perm l (paths_of label t.companions))
        (ap out_of h)
        (
          sort_by-Ordered (λ s. s) (paths_of label t.companions),
          sort_by-Perm (λ s. s) (paths_of label t.companions),
        );
}
