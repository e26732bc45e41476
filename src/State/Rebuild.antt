-- ===== src/State/Rebuild.antt =====
-- loom/crates/loom-core/src/state/rebuild.rs. The directory of the specs is what the file system
-- answers about it; the log messages are left out.
pub mod Rows
pub mod Files
pub mod Loops
pub mod Rebuilt
mod Tests
use wrapix.Prelude.{
  ℕ, ◌+◌, Bool, false, Option, none, some, List, [], ◌∷◌, ◌++◌, any, if◌then◌else◌,
}
use wrapix.Prelude.Text.{Str, codes, str_eq}
use wrapix.Prelude.Paths.{file_stem, extension}
use wrapix.Prelude.Sorting.{sort_by}
use wrapix.Prelude.Exec.{Result, ok, err}
use wrapix.Prelude.Act.{pure, raise, ◌>>=◌, ◌>>◌}
use wrapix.Core.Label.{SpecLabel, MoleculeId}
use wrapix.State.Companions.{parse_companions}
use wrapix.State.Sql.{ignore_companion, insert_spec, insert_molecule, Database}
use wrapix.State.Db.{io, Call, execute, locked, drop_and_recreate}

pub record ActiveMolecule : Type 0 where
  pub id : MoleculeId
  pub spec_label : SpecLabel
  pub base_commit : Option Str

pub record RebuildReport : Type 0 where
  pub specs : ℕ
  pub molecules : ℕ
  pub companions : ℕ

abbrev pub empty_report : RebuildReport
empty_report = record { specs = 0; molecules = 0; companions = 0 }

abbrev pub one_spec : RebuildReport → RebuildReport
one_spec r = record r { specs = r.specs + 1 }

abbrev pub one_molecule : RebuildReport → RebuildReport
one_molecule r = record r { molecules = r.molecules + 1 }

abbrev pub one_companion : RebuildReport → RebuildReport
one_companion r = record r { companions = r.companions + 1 }

-- The label, the path and the content of a spec.
pub record SpecFile : Type 0 where
  pub label : SpecLabel
  pub path : Str
  pub content : Str

-- An entry of the directory: its name, none if it is no UTF-8, and what reading it gives.
pub record Entry (I : Type 0) : Type 0 where
  pub name : Option Str
  pub is_file : Bool
  pub content : Result I Str

-- A directory that is not there, or what `read_dir` answers.
pub data SpecsDir (I : Type 0) : Type 0 where
  missing : SpecsDir I
  unreadable : I → SpecsDir I
  entries : List (Result I (Entry I)) → SpecsDir I

abbrev pub label_of : SpecFile → Str
label_of f = f.label

abbrev pub is_md : Option Str → Bool
is_md none = false
is_md (some ext) = str_eq ext (codes "md")

abbrev pub spec_file : Str → Str → SpecFile
spec_file stem content = record {
  label = stem;
  path = codes "specs/" ++ (stem ++ codes ".md");
  content = content;
}

abbrev pub read_file :
    {I : Type 0} → Str → Result I Str → Result I (List SpecFile) → Result I (List SpecFile)
read_file stem (err e) rest = err e
read_file stem (ok content) (err e) = err e
read_file stem (ok content) (ok files) = ok (spec_file stem content ∷ files)

abbrev pub read_entry :
    {I : Type 0} → Entry I → Option Str → Result I (List SpecFile) → Result I (List SpecFile)
read_entry e none rest = rest
read_entry e (some name) rest =
    if e.is_file
    then (if is_md (extension name) then read_file (file_stem name) e.content rest else rest)
    else rest

unfoldable pub read_entries : {I : Type 0} → List (Result I (Entry I)) → Result I (List SpecFile)
unfolding file_stem extension str_eq
read_entries [] = ok []
read_entries (err e ∷ es) = err e
read_entries (ok e ∷ es) = read_entry e e.name (read_entries es)

abbrev pub sorted : {I : Type 0} → Result I (List SpecFile) → Result I (List SpecFile)
sorted (ok files) = ok (sort_by label_of files)
sorted (err e) = err e

unfoldable pub collect_spec_files : {I : Type 0} → SpecsDir I → Result I (List SpecFile)
unfolding read_entries sort_by
collect_spec_files missing = ok []
collect_spec_files (unreadable e) = err e
collect_spec_files (entries es) = sorted (read_entries es)

unfoldable pub has_file : List SpecFile → SpecLabel → Bool
unfolding str_eq
has_file files label = any (λ (f : SpecFile). str_eq f.label label) files

module _ {D Q J I : Type 0} (database : Database D Q J I) where
  -- The loops of `rebuild`: over the companions of a spec, the specs, and the molecules.
  unfoldable pub store_companions :
      SpecLabel → List Str → RebuildReport → Call database RebuildReport
  unfolding execute
  store_companions label [] report = pure report
  store_companions label (path ∷ paths) report =
      execute database (ignore_companion label path)
      >> store_companions label paths (one_companion report)

  unfoldable pub store_specs : List SpecFile → RebuildReport → Call database RebuildReport
  unfolding execute store_companions parse_companions
  store_specs [] report = pure report
  store_specs (f ∷ files) report =
      execute database (insert_spec f.label f.path)
      >> store_companions f.label (parse_companions f.content) (one_spec report)
      >>= store_specs files

  unfoldable pub store_molecules :
      List SpecFile → List ActiveMolecule → RebuildReport → Call database RebuildReport
  unfolding execute has_file
  store_molecules files [] report = pure report
  store_molecules files (m ∷ molecules) report =
      let rest = store_molecules files molecules in
      if has_file files m.spec_label
      then execute database (insert_molecule m.id m.spec_label m.base_commit)
        >> rest (one_molecule report)
      else rest report

  abbrev pub rebuild_from :
      Result I (List SpecFile) → List ActiveMolecule → Call database RebuildReport
  rebuild_from (err e) molecules = raise (io e)
  rebuild_from (ok files) molecules = locked database (
      drop_and_recreate database
      >> store_specs files empty_report
      >>= store_molecules files molecules)

  unfoldable pub rebuild : SpecsDir I → List ActiveMolecule → Call database RebuildReport
  unfolding collect_spec_files store_specs store_molecules drop_and_recreate
  rebuild dir molecules = rebuild_from (collect_spec_files dir) molecules
