-- ===== src/Spec/Annotations/Reference.antt =====
-- What loom/crates/loom-workflow/src/spec/annotations.rs is to read from a spec: the lines outside of
-- code blocks, of these the section, and of this each criterion with its link.
use wrapix.Prelude.{Bool, not, ◌||◌, Option, none, some, List, [], ◌∷◌, or_option, if◌then◌else◌}
use wrapix.Prelude.Text.{Str, starts_with, trim_start}
use wrapix.Prelude.Components.{PathBuf}
use wrapix.Spec.Criteria.{
  AnnotationKind, is_success_criteria_heading, is_other_h2, parse_checkbox, parse_annotation_line,
}
use wrapix.Spec.Annotations.{Annotation, is_fence, orphan, annotated}

abbrev fenced_behind : Str → Bool → Bool
fenced_behind line fenced = if is_fence line then not fenced else fenced

-- The lines that no code block contains.
unfoldable pub visible : Bool → List Str → List Str
unfolding starts_with trim_start
visible fenced [] = []
visible fenced (line ∷ ls) =
    let rest = visible (fenced_behind line fenced) ls in
    if is_fence line || fenced then rest else line ∷ rest

-- The lines up to the next other heading of the second level.
unfoldable pub section_lines : List Str → List Str
unfolding is_success_criteria_heading is_other_h2
section_lines [] = []
section_lines (line ∷ ls) =
    let rest = section_lines ls in
    if is_success_criteria_heading line then rest else if is_other_h2 line then [] else line ∷ rest

unfoldable pub criteria_section : List Str → List Str
unfolding section_lines is_success_criteria_heading
criteria_section [] = []
criteria_section (line ∷ ls) =
    let rest = criteria_section ls in
    if is_success_criteria_heading line then section_lines ls else rest

abbrev pub first_link :
    Option (Bool × Str)
    → Option (AnnotationKind × Str)
    → Option (AnnotationKind × Str)
    → Option (AnnotationKind × Str)
first_link (some p) here later = none
first_link none here later = or_option here later

-- The first link before the next criterion.
unfoldable pub link_of : List Str → Option (AnnotationKind × Str)
unfolding parse_checkbox parse_annotation_line
link_of [] = none
link_of (line ∷ ls) = first_link (parse_checkbox line) (parse_annotation_line line) (link_of ls)

abbrev pub row : PathBuf → Bool × Str → Option (AnnotationKind × Str) → Annotation
row spec_dir p none = orphan p
row spec_dir p (some link) = annotated spec_dir p link

abbrev pub with_row :
    PathBuf
    → Option (Bool × Str)
    → Option (AnnotationKind × Str)
    → List Annotation
    → List Annotation
with_row spec_dir none link rows = rows
with_row spec_dir (some p) link rows = row spec_dir p link ∷ rows

unfoldable pub rows_of : PathBuf → List Str → List Annotation
unfolding parse_checkbox link_of
rows_of spec_dir [] = []
rows_of spec_dir (line ∷ ls) =
    with_row spec_dir (parse_checkbox line) (link_of ls) (rows_of spec_dir ls)

-- None without a criterion.
abbrev pub unless_none : List Annotation → Option (List Annotation)
unless_none [] = none
unless_none (r ∷ rows) = some (r ∷ rows)
