-- ===== src/Spec/Annotations/Rows.antt =====
-- The loop of loom/crates/loom-workflow/src/spec/annotations.rs reads what the description says.
use wrapix.Prelude.{
  ◌≡◌, refl, sym, ap, ◌∙◌, Bool, true, false, not, ◌||◌, Option, none, some, List, [], ◌∷◌, ◌++◌,
  is_empty, inl, inr, Bool-cases, if◌then◌else◌, append_assoc, append-nil,
}
use wrapix.Prelude.Text.{Str, lines}
use wrapix.Prelude.Components.{PathBuf}
use wrapix.Spec.Criteria.{
  AnnotationKind, is_success_criteria_heading, is_other_h2, parse_checkbox, parse_annotation_line,
}
use wrapix.Spec.Annotations.{
  Annotation, Scan, is_fence, orphan, annotated, flushed, on_link, on_criterion, round, scan,
  finished, parse_body,
}
use wrapix.Spec.Annotations.Reference.{
  visible, section_lines, criteria_section, first_link, link_of, row, with_row, rows_of,
  unless_none,
}

abbrev state : List Annotation → Bool → Bool → Option (Bool × Str) → Bool → Scan
state out inc fence pending saw = record {
  out = out;
  in_criteria = inc;
  in_fence = fence;
  pending = pending;
  saw_criteria = saw;
}

abbrev part : Bool → List Str → List Str
part false ls = criteria_section ls
part true ls = section_lines ls

-- The rows that are still to come.
abbrev coming : PathBuf → Option (Bool × Str) → List Str → List Annotation
coming dir none ls = rows_of dir ls
coming dir (some p) ls = row dir p (link_of ls) ∷ rows_of dir ls

abbrev expected :
    PathBuf → List Annotation → Option (Bool × Str) → Bool → List Str → Option (List Annotation)
expected dir out pending saw ls =
    if saw || not (is_empty (rows_of dir ls)) then some (out ++ coming dir pending ls) else none

-- The last line is behind.
ended :
    (dir : PathBuf) (out : List Annotation) (inc fence : Bool) (pending : Option (Bool × Str))
    (saw : Bool)
    → finished (flushed pending (state out inc fence pending saw)) ≡ expected dir out pending saw []
unfolding rows_of link_of
ended dir out inc fence none true = ap some (sym (append-nil out))
ended dir out inc fence none false = refl
ended dir out inc fence (some p) true = refl
ended dir out inc fence (some p) false = refl

last :
    (dir : PathBuf) (out : List Annotation) (inc fence : Bool) (pending : Option (Bool × Str))
    (saw : Bool)
    → finished (state out inc fence pending saw) ≡ expected dir out pending saw []
unfolding rows_of link_of
last dir out inc fence none true = ap some (sym (append-nil out))
last dir out inc fence none false = refl
last dir out inc fence (some p) true = refl
last dir out inc fence (some p) false = refl

part-nil : (inc : Bool) → part inc [] ≡ []
unfolding criteria_section section_lines
part-nil true = refl
part-nil false = refl

-- What is expected behind a line, whatever is pending.
abbrev Behind : PathBuf → List Str → List Str → Type 0
Behind dir ls s =
    (out : List Annotation) (pending : Option (Bool × Str)) (saw : Bool)
    → finished (scan dir ls (state out true false pending saw)) ≡ expected dir out pending saw s

checkbox-rows :
    (dir : PathBuf) (line : Str) (s : List Str) (p : Bool × Str)
    → parse_checkbox line ≡ some p
    → rows_of dir (line ∷ s) ≡ row dir p (link_of s) ∷ rows_of dir s
unfolding rows_of
checkbox-rows dir line s p e =
    ap (λ (c : Option (Bool × Str)). with_row dir c (link_of s) (rows_of dir s)) e

checkbox-link :
    (line : Str) (s : List Str) (p : Bool × Str)
    → parse_checkbox line ≡ some p
    → link_of (line ∷ s) ≡ none
unfolding link_of
checkbox-link line s p e =
    ap (λ (c : Option (Bool × Str)). first_link c (parse_annotation_line line) (link_of s)) e

other-rows :
    (dir : PathBuf) (line : Str) (s : List Str)
    → parse_checkbox line ≡ none
    → rows_of dir (line ∷ s) ≡ rows_of dir s
unfolding rows_of
other-rows dir line s e =
    ap (λ (c : Option (Bool × Str)). with_row dir c (link_of s) (rows_of dir s)) e

other-link :
    (line : Str) (s : List Str) (l : AnnotationKind × Str)
    → parse_checkbox line ≡ none
    → parse_annotation_line line ≡ some l
    → link_of (line ∷ s) ≡ some l
unfolding link_of
other-link line s l e f = (λ i. first_link (e i) (f i) (link_of s))

no-link :
    (line : Str) (s : List Str)
    → parse_checkbox line ≡ none
    → parse_annotation_line line ≡ none
    → link_of (line ∷ s) ≡ link_of s
unfolding link_of
no-link line s e f = (λ i. first_link (e i) (f i) (link_of s))

linked-expected :
    (dir : PathBuf) (line : Str) (ls s : List Str) (out : List Annotation)
    (pending : Option (Bool × Str)) (saw : Bool) (l : Option (AnnotationKind × Str))
    → parse_checkbox line ≡ none
    → parse_annotation_line line ≡ l
    → Behind dir ls s
    → finished (scan dir ls (on_link dir pending l (state out true false pending saw)))
      ≡ expected dir out pending saw (line ∷ s)
linked-expected dir line ls s out none saw none e f h =
    rw (other-rows dir line s e) (h out none saw)
linked-expected dir line ls s out none saw (some l) e f h =
    rw (other-rows dir line s e) (h out none saw)
linked-expected dir line ls s out (some p) saw none e f h =
    rw (other-rows dir line s e, no-link line s e f) (h out (some p) saw)
linked-expected dir line ls s out (some p) saw (some l) e f h =
    rw (other-rows dir line s e, other-link line s l e f)
      (h (out ++ annotated dir p l ∷ []) none saw
        ∙ ap
            (λ (rows : List Annotation).
              if saw || not (is_empty (rows_of dir s)) then some rows else none)
            (append_assoc out (annotated dir p l ∷ []) (rows_of dir s)))

criterion-expected :
    (dir : PathBuf) (line : Str) (ls s : List Str) (out : List Annotation)
    (pending : Option (Bool × Str)) (saw : Bool) (c : Option (Bool × Str))
    → parse_checkbox line ≡ c
    → Behind dir ls s
    → finished (scan dir ls (on_criterion dir line c (state out true false pending saw)))
      ≡ expected dir out pending saw (line ∷ s)
criterion-expected dir line ls s out pending saw none e h =
    linked-expected dir line ls s out pending saw (parse_annotation_line line) e refl h
criterion-expected dir line ls s out none true (some p) e h =
    rw (checkbox-rows dir line s p e) (h out (some p) true)
criterion-expected dir line ls s out none false (some p) e h =
    rw (checkbox-rows dir line s p e) (h out (some p) true)
criterion-expected dir line ls s out (some q) true (some p) e h =
    rw (checkbox-rows dir line s p e, checkbox-link line s p e)
      (h (out ++ orphan q ∷ []) (some p) true
        ∙ ap some (append_assoc out (orphan q ∷ []) (row dir p (link_of s) ∷ rows_of dir s)))
criterion-expected dir line ls s out (some q) false (some p) e h =
    rw (checkbox-rows dir line s p e, checkbox-link line s p e)
      (h (out ++ orphan q ∷ []) (some p) true
        ∙ ap some (append_assoc out (orphan q ∷ []) (row dir p (link_of s) ∷ rows_of dir s)))

scan-expected :
    (dir : PathBuf) (ls : List Str) (out : List Annotation) (inc fence : Bool)
    (pending : Option (Bool × Str)) (saw : Bool)
    → finished (scan dir ls (state out inc fence pending saw))
      ≡ expected dir out pending saw (part inc (visible fence ls))
unfolding scan round visible criteria_section section_lines
scan-expected dir [] out inc fence pending saw =
    rw (part-nil inc) (last dir out inc fence pending saw)
scan-expected dir (line ∷ ls) out inc true pending saw = elim (Bool-cases (is_fence line)) [
  | inl e ↦ rw e (scan-expected dir ls out inc false pending saw)
  | inr e ↦ rw e (scan-expected dir ls out inc true pending saw)
]
scan-expected dir (line ∷ ls) out false false pending saw = elim (Bool-cases (is_fence line)) [
  | inl e ↦ rw e (scan-expected dir ls out false true pending saw)
  | inr e ↦ elim (Bool-cases (is_success_criteria_heading line)) [
    | inl f ↦ rw (e, f) (scan-expected dir ls out true false pending saw)
    | inr f ↦ rw (e, f) (scan-expected dir ls out false false pending saw)
  ]
]
scan-expected dir (line ∷ ls) out true false pending saw = elim (Bool-cases (is_fence line)) [
  | inl e ↦ rw e (scan-expected dir ls out true true pending saw)
  | inr e ↦ elim (Bool-cases (is_success_criteria_heading line)) [
    | inl f ↦ rw (e, f) (scan-expected dir ls out true false pending saw)
    | inr f ↦ elim (Bool-cases (is_other_h2 line)) [
      | inl g ↦ rw (e, f, g) (ended dir out true false pending saw)
      | inr g ↦
          rw (e, f, g)
            (criterion-expected dir line ls (section_lines (visible false ls)) out pending saw
              (parse_checkbox line) refl (λ o p s. scan-expected dir ls o true false p s))
    ]
  ]
]

none_or_rows :
    (rows : List Annotation) → (if not (is_empty rows) then some rows else none) ≡ unless_none rows
none_or_rows [] = refl
none_or_rows (r ∷ rows) = refl

-- The rows of a spec are those of the section of its success criteria, outside of code blocks: one
-- for each criterion, in order, with its text and its mark and the first link before the next
-- criterion, if there is one. Without a criterion there are none.
pub parse_body-rows :
    (body : Str) (spec_dir : PathBuf)
    → parse_body body spec_dir
      ≡ unless_none (rows_of spec_dir (criteria_section (visible false (lines body))))
unfolding parse_body
parse_body-rows body spec_dir =
    scan-expected spec_dir (lines body) [] false false none false
    ∙ none_or_rows (rows_of spec_dir (criteria_section (visible false (lines body))))
