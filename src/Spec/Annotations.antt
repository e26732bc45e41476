-- ===== src/Spec/Annotations.antt =====
-- loom/crates/loom-workflow/src/spec: annotations.rs and error.rs. Reading the spec's file is a
-- parameter.
pub mod Reference
pub mod Rows
use wrapix.Prelude.{
  ℕ, zero, suc, Bool, true, false, not, ◌-◌, or_option, ◌==◌, ◌||◌, ◌&&◌, Option, none, some, List,
  [], ◌∷◌, ◌++◌, is_empty, if◌then◌else◌,
}
use wrapix.Prelude.Text.{
  Str, codes, starts_with, strip_prefix, trim_start, trim_start_by, split_once, find_str, lines,
}
use wrapix.Prelude.Exec.{Result, ok, err}
use wrapix.Spec.Criteria.{
  AnnotationKind, verify, judge, unannotated, is_success_criteria_heading, is_other_h2,
  parse_checkbox, parse_annotation_line,
}
use wrapix.Prelude.Components.{
  Component, root, cur_dir, parent_dir, normal, PathBuf, components, join, pop, parent,
}

pub record Annotation : Type 0 where
  pub criterion : Str
  pub kind : AnnotationKind
  pub file : Option PathBuf
  pub function : Option Str
  pub checked : Bool

-- `I` is an error of the operating system.
pub data SpecError (I : Type 0) : Type 0 where
  io : PathBuf → I → SpecError I
  no_success_criteria : PathBuf → SpecError I

-- `Path::components` are pushed, popped or left out.
abbrev pushed : PathBuf → Component → PathBuf
pushed out parent_dir = pop out
pushed out cur_dir = out
pushed out c = out ++ c ∷ []

unfoldable pub normalize_onto : PathBuf → PathBuf → PathBuf
unfolding pop
normalize_onto out [] = out
normalize_onto out (c ∷ path) = normalize_onto (pushed out c) path

abbrev halves : Str → Option (Str × Str) → Option (Str × Str) → Str × Option Str
halves target (some (f, name)) legacy = (f, some name)
halves target none (some (f, name)) = (f, some name)
halves target none none = (target, none)

abbrev unless_empty : Option Str → Option Str
unless_empty none = none
unless_empty (some []) = none
unless_empty (some (c ∷ s)) = some (c ∷ s)

abbrev against : PathBuf → Str → PathBuf
against spec_dir file =
    if starts_with (codes "../") file
    then normalize_onto [] (join spec_dir (components file))
    else components file

unfoldable pub resolve_annotation_link : Str → PathBuf → PathBuf × Option Str
unfolding split_once find_str starts_with normalize_onto components
resolve_annotation_link target spec_dir =
    let (file, name) = halves target (split_once b'#' target) (find_str (codes "::") target) in
    (against spec_dir file, unless_empty name)

-- The variables of the loop of `parse_body`.
pub record Scan : Type 0 where
  pub out : List Annotation
  pub in_criteria : Bool
  pub in_fence : Bool
  pub pending : Option (Bool × Str)
  pub saw_criteria : Bool

abbrev pub start : Scan
start = record {
  out = [];
  in_criteria = false;
  in_fence = false;
  pending = none;
  saw_criteria = false;
}

abbrev pub orphan : Bool × Str → Annotation
orphan (checked, text) = record {
  criterion = text;
  kind = unannotated;
  file = none;
  function = none;
  checked = checked;
}

abbrev pub annotated : PathBuf → Bool × Str → AnnotationKind × Str → Annotation
annotated spec_dir (checked, text) (kind, target) =
    let (file, name) = resolve_annotation_link target spec_dir in
    record { criterion = text; kind = kind; file = some file; function = name; checked = checked }

-- `if let Some(…) = pending.take() { out.push(…) }`
abbrev pub flushed : Option (Bool × Str) → Scan → Scan
flushed none st = st
flushed (some p) st = record st { out = st.out ++ orphan p ∷ []; pending = none }

abbrev pub on_link : PathBuf → Option (Bool × Str) → Option (AnnotationKind × Str) → Scan → Scan
on_link spec_dir (some p) (some link) st = record st {
  out = st.out ++ annotated spec_dir p link ∷ [];
  pending = none;
}
on_link spec_dir (some p) none st = st
on_link spec_dir none link st = st

abbrev pub on_criterion : PathBuf → Str → Option (Bool × Str) → Scan → Scan
on_criterion spec_dir line (some p) st = record (flushed st.pending st) {
  pending = some p;
  saw_criteria = true;
}
on_criterion spec_dir line none st = on_link spec_dir st.pending (parse_annotation_line line) st

abbrev pub is_fence : Str → Bool
is_fence line = starts_with (codes "```") (trim_start line)

-- A round of the loop, and does the loop go on?
unfoldable pub round : PathBuf → Str → Scan → Scan × Bool
unfolding starts_with trim_start is_success_criteria_heading is_other_h2 parse_checkbox
    parse_annotation_line resolve_annotation_link
round spec_dir line st =
    if is_fence line
    then (record st { in_fence = not st.in_fence }, true)
    else if st.in_fence
    then (st, true)
    else if is_success_criteria_heading line
    then (record st { in_criteria = true }, true)
    else if st.in_criteria && is_other_h2 line
    then (flushed st.pending st, false)
    else if not st.in_criteria
    then (st, true)
    else (on_criterion spec_dir line (parse_checkbox line) st, true)

unfoldable pub scan : PathBuf → List Str → Scan → Scan
unfolding round
scan spec_dir [] st = st
scan spec_dir (line ∷ ls) st =
    let (st', goes_on) = round spec_dir line st in
    let rest = scan spec_dir ls st' in if goes_on then rest else st'

abbrev pub finished : Scan → Option (List Annotation)
finished st = if st.saw_criteria then some ((flushed st.pending st).out) else none

unfoldable pub parse_body : Str → PathBuf → Option (List Annotation)
unfolding scan lines
parse_body body spec_dir = finished (scan spec_dir (lines body) start)

abbrev or_root : Option PathBuf → PathBuf
or_root none = []
or_root (some path) = path

module _ {I : Type 0} (read_to_string : PathBuf → Result I Str) where
  abbrev criteria : PathBuf → Option (List Annotation) → Result (SpecError I) (List Annotation)
  criteria spec_path none = err (no_success_criteria spec_path)
  criteria spec_path (some rows) = ok rows

  abbrev read_as : PathBuf → Result I Str → Result (SpecError I) (List Annotation)
  read_as spec_path (err e) = err (io spec_path e)
  read_as spec_path (ok body) = criteria spec_path (parse_body body (or_root (parent spec_path)))

  unfoldable pub parse_spec_annotations : PathBuf → Result (SpecError I) (List Annotation)
  unfolding parse_body pop
  parse_spec_annotations spec_path = read_as spec_path (read_to_string spec_path)
