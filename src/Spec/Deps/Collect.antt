-- ===== src/Spec/Deps/Collect.antt =====
-- `collect_deps` of loom/crates/loom-workflow/src/spec/deps.rs. Reading a file is a parameter, which
-- gives its bytes.
pub mod Files
pub mod Found
use wrapix.Prelude.{Option, none, some, List, [], ◌∷◌, if◌then◌else◌}
use wrapix.Prelude.Text.{Str}
use wrapix.Prelude.Exec.{Result, ok, err}
use wrapix.Prelude.Components.{PathBuf, join, path_eq, path_before}
use wrapix.Spec.Criteria.{AnnotationKind, verify, judge, unannotated}
use wrapix.Spec.Annotations.{Annotation, SpecError, io}
use wrapix.Spec.Deps.{insert, scan_file_body}

-- The file of a row that is verified or judged.
abbrev pub file_if : AnnotationKind → Option PathBuf → Option PathBuf
file_if verify file = file
file_if judge file = file
file_if unannotated file = none

-- `BTreeSet<PathBuf>::insert`
unfoldable pub insert_file : PathBuf → List PathBuf → List PathBuf
unfolding path_eq path_before
insert_file f [] = f ∷ []
insert_file f (g ∷ files) =
    let rest = g ∷ insert_file f files in
    if path_eq f g then g ∷ files else if path_before f g then f ∷ g ∷ files else rest

abbrev pub insert_if : Option PathBuf → List PathBuf → List PathBuf
insert_if none files = files
insert_if (some f) files = insert_file f files

unfoldable pub files_of : List Annotation → List PathBuf → List PathBuf
unfolding insert_file
files_of [] files = files
files_of (ann ∷ annotations) files =
    files_of annotations (insert_if (file_if ann.kind ann.file) files)

unfoldable pub insert_all : List Str → List Str → List Str
unfolding insert
insert_all [] packages = packages
insert_all (pkg ∷ rest) packages = insert_all rest (insert pkg packages)

module _ {I : Type 0} (read : PathBuf → Option (Result I Str)) where
  abbrev pub scanned :
      PathBuf
      → Option (Result I Str)
      → (List Str → Result (SpecError I) (List Str))
      → List Str
      → Result (SpecError I) (List Str)
  scanned abs none later packages = later packages
  scanned abs (some (err e)) later packages = err (io abs e)
  scanned abs (some (ok body)) later packages = later (insert_all (scan_file_body body) packages)

  unfoldable pub collect_from : PathBuf → List PathBuf → List Str → Result (SpecError I) (List Str)
  unfolding scan_file_body insert_all
  collect_from workspace [] packages = ok packages
  collect_from workspace (rel ∷ files) packages =
      scanned (join workspace rel) (read (join workspace rel)) (collect_from workspace files)
        packages

  unfoldable pub collect_deps : PathBuf → List Annotation → Result (SpecError I) (List Str)
  unfolding collect_from files_of
  collect_deps workspace annotations = collect_from workspace (files_of annotations []) []
