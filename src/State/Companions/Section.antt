-- ===== src/State/Companions/Section.antt =====
-- A section of companions as loom/crates/loom-core/src/state/companions.rs reads it.
use wrapix.Prelude.{
  ℕ, zero, suc, ◌==◌, Option, none, ◌≡◌, ◌≢◌, refl, ap, ap₂, ◌∙◌, Bool, true, false, some, List, [],
  ◌∷◌, ◌++◌, is_empty, length, filter, filter-append, map, All, Bool-cases, inl, inr, arith,
}
use wrapix.Prelude.Text.{
  Str, codes, str_eq, str_eq_iff, strip_prefix, trim_start, trim_start_by, lines,
}
use wrapix.Prelude.Split.{Lacks, split_once-append}
use wrapix.Prelude.Exec.{ok}
use wrapix.State.Companions.{
  heading, is_heading, is_backtick, normalize, quoted_as, extract_counted, extract_backtick_path,
  add_path, add_bullet, unless_heading, collect, section, collect_from, parse_companions,
}

-- A bullet of the section: a path between backticks, with so many slashes in front, and a remark.
pub record Bullet : Type 0 where
  pub slashes : ℕ
  pub path : Str
  pub remark : Str

abbrev pub with_slashes : ℕ → Str → Str
with_slashes zero path = path
with_slashes (suc n) path = b'/' ∷ with_slashes n path

abbrev pub raw_of : Bullet → Str
raw_of b = with_slashes b.slashes b.path

abbrev pub line_of : Bullet → Str
line_of b = codes "- `" ++ (raw_of b ++ (b'`' ∷ b.remark))

-- A path does not begin with a slash.
abbrev pub Relative : Str → Type 0
Relative [] = Unit
Relative (c ∷ path) = (c == b'/') ≡ false

pub record Plain (b : Bullet) : Type 0 where
  pub path_Relative : Relative b.path
  pub path_Lacks : Lacks b'`' b.path
  pub some_path : is_empty (raw_of b) ≡ false
  pub remark_Lacks : Lacks b'`' b.remark

-- A line of the section: a bullet, or one that is neither a bullet nor a heading, as an empty line.
pub data Line : Type 0 where
  bullet : Bullet → Line
  other : Str → Line

abbrev pub text_of : Line → Str
text_of (bullet b) = line_of b
text_of (other line) = line

abbrev pub Written : Line → Type 0
Written (bullet b) = Plain b
Written (other line) =
    (strip_prefix (codes "- ") (trim_start line) ≡ none) × (is_heading line ≡ false)

unfoldable pub paths_of : List Line → List Str
paths_of [] = []
paths_of (bullet b ∷ ls) = b.path ∷ paths_of ls
paths_of (other line ∷ ls) = paths_of ls

normalize-slashes : (n : ℕ) (path : Str) → Relative path → normalize (with_slashes n path) ≡ path
unfolding normalize trim_start_by
normalize-slashes zero [] h = refl
normalize-slashes zero (c ∷ path) h = rw h
normalize-slashes (suc n) path h = normalize-slashes n path h

slashes-Lacks : (n : ℕ) (path : Str) → Lacks b'`' path → Lacks b'`' (with_slashes n path)
slashes-Lacks zero path h = h
slashes-Lacks (suc n) path h = (omega arith, slashes-Lacks n path h)

-- What ends a section: a heading, or the end.
abbrev pub Ends : List Str → Type 0
Ends [] = Unit
Ends (line ∷ rest) = is_heading line ≡ true

filter-Lacks : (s : Str) → Lacks b'`' s → filter is_backtick s ≡ []
filter-Lacks [] h = refl
filter-Lacks (c ∷ s) (ne, h) = ground (arith, filter-Lacks s h)

count :
    (b : Bullet)
    → Plain b
    → filter is_backtick (b'`' ∷ (raw_of b ++ (b'`' ∷ b.remark))) ≡ b'`' ∷ b'`' ∷ []
count b p =
    ap (λ (s : Str). b'`' ∷ s)
      (filter-append is_backtick (raw_of b) (b'`' ∷ b.remark)
        ∙ ap₂ (λ (s t : Str). s ++ (b'`' ∷ t))
            (filter-Lacks (raw_of b) (slashes-Lacks b.slashes b.path p.path_Lacks))
            (filter-Lacks b.remark p.remark_Lacks))

extract-line_of :
    (b : Bullet)
    → Plain b
    → extract_backtick_path (b'`' ∷ (raw_of b ++ (b'`' ∷ b.remark))) ≡ ok b.path
unfolding extract_backtick_path
extract-line_of b p =
    ap (λ (n : ℕ). extract_counted n (b'`' ∷ (raw_of b ++ (b'`' ∷ b.remark))))
      (ap length (count b p))
    ∙ ap quoted_as
        (split_once-append b'`' (raw_of b) b.remark (slashes-Lacks b.slashes b.path p.path_Lacks))
    ∙ rw p.some_path (ap ok (normalize-slashes b.slashes b.path p.path_Relative))

collect_heading :
    (line : Str) (rest : List Str) → is_heading line ≡ true → collect (line ∷ rest) ≡ []
unfolding collect
collect_heading line rest e =
    ap
      (λ (t : Bool).
        unless_heading t (add_bullet (strip_prefix (codes "- ") (trim_start line)) (collect rest)))
      e

collect_bullet :
    (b : Bullet) (rest : List Str) → Plain b → collect (line_of b ∷ rest) ≡ b.path ∷ collect rest
unfolding collect
collect_bullet b rest p = ap (λ o. add_path o (collect rest)) (extract-line_of b p)

collect_other :
    (line : Str) (rest : List Str) → Written (other line) → collect (line ∷ rest) ≡ collect rest
unfolding collect
collect_other line rest (plain, body) =
    ap (λ (o : Option Str). unless_heading (is_heading line) (add_bullet o (collect rest))) plain
    ∙ ap (λ (t : Bool). unless_heading t (collect rest)) body

collect-lines :
    (ls : List Line) (rest : List Str)
    → All Written ls
    → Ends rest
    → collect (map text_of ls ++ rest) ≡ paths_of ls
unfolding paths_of
collect-lines [] [] h e = (unfold collect in refl)
collect-lines [] (line ∷ rest) h e = collect_heading line rest e
collect-lines (bullet b ∷ ls) rest (p, h) e =
    collect_bullet b (map text_of ls ++ rest) p
    ∙ ap (λ (ps : List Str). b.path ∷ ps) (collect-lines ls rest h e)
collect-lines (other line ∷ ls) rest (p, h) e =
    collect_other line (map text_of ls ++ rest) p ∙ collect-lines ls rest h e

section-append :
    (before rest : List Str)
    → All (λ line. line ≢ heading) before
    → section (before ++ heading ∷ rest) ≡ some rest
unfolding section
section-append [] rest h = refl
section-append (l ∷ before) rest (ne, h) = elim (Bool-cases (str_eq l heading)) [
  | inl e ↦ absurd (ne ((str_eq_iff l heading).0 e))
  | inr e ↦ rw e (section-append before rest h)
]

-- The companions of a spec are the paths of the bullets, with a remark or without, that follow its
-- first heading for companions up to the next heading or to the end: each without its leading
-- slashes, in their order. Neither a path nor a remark has a backtick, and what stands between the
-- backticks is not empty. Lines between them that are neither bullets nor headings are passed over.
pub parse_companions-bullets :
    (content : Str) (before : List Str) (ls : List Line) (rest : List Str)
    → lines content ≡ before ++ heading ∷ (map text_of ls ++ rest)
    → All (λ line. line ≢ heading) before
    → All Written ls
    → Ends rest
    → parse_companions content ≡ paths_of ls
unfolding parse_companions
parse_companions-bullets content before ls rest e first written ends =
    ap (λ (ks : List Str). collect_from (section ks)) e
    ∙ ap collect_from (section-append before (map text_of ls ++ rest) first)
    ∙ collect-lines ls rest written ends
