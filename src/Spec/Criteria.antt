-- ===== src/Spec/Criteria.antt =====
-- The lines of a spec that loom/crates/loom-workflow/src/spec/annotations.rs knows.
use wrapix.Prelude.{
  ℕ, suc, Bool, true, false, not, ◌-◌, or_option, ◌==◌, ◌||◌, ◌&&◌, Option, none, some, [], ◌∷◌,
  if◌then◌else◌,
}
use wrapix.Prelude.Text.{Str, codes, starts_with, strip_prefix, trim_start, trim_start_by}

pub data AnnotationKind : Type 0 where
  verify judge unannotated : AnnotationKind

abbrev is_criteria_behind : Option Str → Bool
is_criteria_behind none = false
is_criteria_behind (some s) =
    let rest = trim_start_by (λ c. c == b' ') s in
    starts_with (codes "Success Criteria") (trim_start rest)
    || starts_with (codes "Success Criteria") rest

unfoldable pub is_success_criteria_heading : Str → Bool
unfolding strip_prefix trim_start trim_start_by starts_with
is_success_criteria_heading line = is_criteria_behind (strip_prefix (codes "##") (trim_start line))

abbrev is_other_behind : Option Str → Bool
is_other_behind none = false
is_other_behind (some rest) =
    if starts_with (codes "#") rest
    then false
    else not (starts_with (codes "Success Criteria") (trim_start_by (λ c. c == b' ') rest))

unfoldable pub is_other_h2 : Str → Bool
unfolding strip_prefix trim_start trim_start_by starts_with
is_other_h2 line = is_other_behind (strip_prefix (codes "##") (trim_start line))

abbrev or_all : Str → Option Str → Str
or_all s none = s
or_all s (some t) = t

abbrev mark_of : ℕ → Str → Option (Bool × Str)
mark_of mark text =
    if mark == b' '
    then some (false, text)
    else if mark == b'x' || mark == b'X'
    then some (true, text)
    else none

abbrev closed : ℕ → Option Str → Option (Bool × Str)
closed mark none = none
closed mark (some s) = mark_of mark (or_all s (strip_prefix (codes " ") s))

abbrev marked : Option Str → Option (Bool × Str)
marked none = none
marked (some []) = none
marked (some (mark ∷ s)) = closed mark (strip_prefix (codes "]") s)

-- `- [` and its mark
unfoldable pub parse_checkbox : Str → Option (Bool × Str)
unfolding strip_prefix trim_start
parse_checkbox line = marked (strip_prefix (codes "- [") (trim_start line))

abbrev put : ℕ → Option Str → Option Str
put c none = none
put c (some s) = some (c ∷ s)

-- The text up to the parenthesis that closes the link; `depth` is one less than the source's.
abbrev depth_behind : ℕ → ℕ → ℕ
depth_behind c depth = if c == b'(' then suc depth else if c == b')' then depth - 1 else depth

unfoldable pub capture_balanced : ℕ → Str → Option Str
capture_balanced depth [] = none
capture_balanced depth (c ∷ s) =
    let rest = put c (capture_balanced (depth_behind c depth) s) in
    if c == b')' && depth == 0 then some [] else rest

abbrev captured : AnnotationKind → Option Str → Option (AnnotationKind × Str)
captured kind none = none
captured kind (some target) = some (kind, target)

abbrev linked : AnnotationKind → Option Str → Option (AnnotationKind × Str)
linked kind none = none
linked kind (some rest) = captured kind (capture_balanced 0 rest)

unfoldable pub parse_annotation_line : Str → Option (AnnotationKind × Str)
unfolding strip_prefix trim_start capture_balanced
parse_annotation_line line =
    or_option (linked verify (strip_prefix (codes "[verify](") (trim_start line)))
      (linked judge (strip_prefix (codes "[judge](") (trim_start line)))
