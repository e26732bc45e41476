-- ===== src/State/Rebuild/Rows.antt =====
-- The rows that loom/crates/loom-core/src/state/rebuild.rs leaves in the tables.
use wrapix.Prelude.{
  ℕ, suc, ◌+◌, ◌≤◌, ◌≡◌, ◌⊎◌, ◌↔◌, refl, sym, ap, ◌∙◌, subst, List, [], ◌∷◌, ◌++◌, In, Distinct,
  length, inl, inr, map, filter, arith,
}
use wrapix.Prelude.Text.{Str, str_eq_iff}
use wrapix.Core.Label.{SpecLabel}
use wrapix.State.Companions.{parse_companions}
use wrapix.State.Sql.{SpecRecord, MoleculeRecord, Tables}
use wrapix.State.Sql.Sqlite.{paths_of, spec_record, molecule_record}
use wrapix.State.Sql.Companions.{stored, stored-Distinct, stored-In, stored-length}
use wrapix.State.Rebuild.{ActiveMolecule, SpecFile, has_file}

abbrev pub spec_of : SpecFile → SpecRecord
spec_of f = spec_record f.label f.path

abbrev pub molecule_of : ActiveMolecule → MoleculeRecord
molecule_of m = molecule_record m.id m.spec_label m.base_commit

-- The molecules whose spec has a file.
abbrev pub kept : List SpecFile → List ActiveMolecule → List ActiveMolecule
kept files molecules = filter (λ (m : ActiveMolecule). has_file files m.spec_label) molecules

-- The companions that the files with a label declare.
abbrev pub Declared : SpecLabel → Str → List SpecFile → Type 0
Declared label path files =
    (f : SpecFile) × In f files × (f.label ≡ label) × In path (parse_companions f.content)

abbrev pub stored_all : List SpecFile → List (Str × Str) → List (Str × Str)
stored_all [] rows = rows
stored_all (f ∷ files) rows = stored_all files (stored f.label (parse_companions f.content) rows)

abbrev pub declared_count : List SpecFile → ℕ
declared_count [] = 0
declared_count (f ∷ files) = length (parse_companions f.content) + declared_count files

-- The tables and the report after each loop.
abbrev pub companions_stored : SpecLabel → List Str → Tables → Tables
companions_stored label ps t = record t { companions = stored label ps t.companions }

abbrev pub specs_stored : List SpecFile → Tables → Tables
specs_stored files t = record t {
  specs = t.specs ++ map spec_of files;
  companions = stored_all files t.companions;
}

abbrev pub molecules_stored : List ActiveMolecule → Tables → Tables
molecules_stored ms t = record t { molecules = t.molecules ++ map molecule_of ms }

pub stored_all-Distinct :
    (label : Str) (files : List SpecFile) (rows : List (Str × Str))
    → Distinct (paths_of label rows)
    → Distinct (paths_of label (stored_all files rows))
stored_all-Distinct label [] rows d = d
stored_all-Distinct label (f ∷ files) rows d =
    stored_all-Distinct label files (stored f.label (parse_companions f.content) rows)
      (stored-Distinct label f.label (parse_companions f.content) rows d)

pub stored_all-In :
    (label q : Str) (files : List SpecFile) (rows : List (Str × Str))
    → In q (paths_of label (stored_all files rows))
      ↔ (In q (paths_of label rows) ⊎ Declared label q files)
stored_all-In label q [] rows =
    (λ i. inl i, λ s. elim s [ inl i ↦ i | inr (f, at, e, i) ↦ absurd at ])
stored_all-In label q (f ∷ files) rows = (
  λ i. elim ((stored_all-In label q files rows').0 i) [
    | inl j ↦ elim ((stored-In label f.label q ps rows).0 j) [
      | inl k ↦ inl k
      | inr (e, k) ↦ inr (f, inl refl, (str_eq_iff f.label label).0 e, k)
    ]
    | inr (g, at, e, j) ↦ inr (g, inr at, e, j)
  ],
  λ s. (stored_all-In label q files rows').1 (elim s [
    | inl k ↦ inl ((stored-In label f.label q ps rows).1 (inl k))
    | inr (g, at, e, j) ↦ elim at [
      | inl same ↦ inl (
          (stored-In label f.label q ps rows).1 (
            inr (
              (str_eq_iff f.label label).1 (ap (λ (h : SpecFile). h.label) (sym same) ∙ e),
              subst (λ (h : SpecFile). In q (parse_companions h.content)) same j,
            )))
      | inr later ↦ inr (g, later, e, j)
    ]
  ]),
)
  where
    ps : List Str
    ps = parse_companions f.content

    rows' : List (Str × Str)
    rows' = stored f.label ps rows

pub stored_all-length :
    (files : List SpecFile) (rows : List (Str × Str))
    → length (stored_all files rows) ≤ length rows + declared_count files
stored_all-length [] rows = omega arith
stored_all-length (f ∷ files) rows = omega (
  arith,
  stored_all-length files (stored f.label (parse_companions f.content) rows),
  stored-length f.label (parse_companions f.content) rows,
)

pub map-length : {A B : Type 0} (f : A → B) (xs : List A) → length (map f xs) ≡ length xs
map-length f [] = refl
map-length f (x ∷ xs) = ap suc (map-length f xs)
