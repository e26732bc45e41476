-- ===== src/Msg/Options/Written.antt =====
-- An options block as the contract of loom/crates/loom-workflow/src/msg/options.rs has it written,
-- and its lines.
use wrapix.Prelude.{
  ℕ, ◌^◌, ◌<◌, ◌≡◌, refl, ap, ◌∙◌, false, none, List, [], ◌∷◌, ◌++◌, All, All-append, arith,
}
use wrapix.Prelude.Text.{Str, codes, trim, trim_start_by, trim_end_by, join, lines}
use wrapix.Prelude.Split.{OneLine, OneLine-append, unlines, lines-unlines, digits-Lacks}
use wrapix.Prelude.Decimal.{to_string, to_string-AllDigits}
use wrapix.Msg.Options.{OptionEntry, match_option_heading, is_next_h2, is_newline}
use wrapix.Msg.Options.Headings.{options_heading, option_heading}

-- An option as it is written.
pub record Shown : Type 0 where
  pub n : ℕ
  pub title : Str
  pub body_lines : List Str

abbrev pub entry_of : Shown → OptionEntry
entry_of x = record { n = x.n; title = x.title; body = join (0x0a ∷ []) x.body_lines }

-- A line of a body: neither an option's heading nor one of level two.
pub record BodyLine (line : Str) : Type 0 where
  pub one_line : OneLine line
  pub no_option : match_option_heading line ≡ none
  pub no_h2 : is_next_h2 line ≡ false

pub record WellWritten (x : Shown) : Type 0 where
  pub small : x.n < 2 ^ 32
  pub trimmed : trim x.title ≡ x.title
  pub one_line : OneLine x.title
  pub body : All BodyLine x.body_lines
  -- the body neither begins nor ends with an empty line
  pub body_end : trim_end_by is_newline (entry_of x).body ≡ (entry_of x).body
  pub body_start : trim_start_by is_newline (entry_of x).body ≡ (entry_of x).body

-- The heading, the body and an empty line.
abbrev pub option_lines : Shown → List Str
option_lines x = option_heading x.n x.title ∷ (x.body_lines ++ [] ∷ [])

unfoldable pub all_lines : List Shown → List Str
all_lines [] = []
all_lines (x ∷ xs) = option_lines x ++ all_lines xs

unfoldable pub print_options : Str → List Shown → Str
unfolding unlines all_lines
print_options summary xs = unlines (options_heading summary ∷ ([] ∷ all_lines xs))

option_heading-OneLine : (n : ℕ) (title : Str) → OneLine title → OneLine (option_heading n title)
option_heading-OneLine n title h =
    OneLine-append (codes "### Option " ++ to_string n) (0x2014 ∷ 0x20 ∷ title)
      (All-append _ (codes "### Option ") (to_string n) (omega arith)
        (digits-Lacks 0x0a (to_string n) (omega arith) (to_string-AllDigits n)))
      (OneLine-append (0x2014 ∷ []) title (omega arith, tt) h)

body-OneLine : (ls : List Str) → All BodyLine ls → All OneLine ls
body-OneLine [] h = tt
body-OneLine (l ∷ ls) (b, h) = (b.one_line, body-OneLine ls h)

all_lines-OneLine : (xs : List Shown) → All WellWritten xs → All OneLine (all_lines xs)
unfolding all_lines
all_lines-OneLine [] h = tt
all_lines-OneLine (x ∷ xs) (w, h) = (
  option_heading-OneLine x.n x.title w.one_line,
  All-append OneLine (x.body_lines ++ [] ∷ []) (all_lines xs)
      (All-append OneLine x.body_lines ([] ∷ []) (body-OneLine x.body_lines w.body)
        ((tt, refl), tt))
      (all_lines-OneLine xs h),
)

written :
    (summary : Str) (xs : List Shown)
    → print_options summary xs ≡ unlines (options_heading summary ∷ ([] ∷ all_lines xs))
unfolding print_options
written summary xs = refl

pub print_lines :
    (summary : Str) (xs : List Shown)
    → OneLine summary
    → All WellWritten xs
    → lines (print_options summary xs) ≡ options_heading summary ∷ ([] ∷ all_lines xs)
print_lines summary xs one h =
    ap lines (written summary xs)
    ∙ lines-unlines (options_heading summary ∷ ([] ∷ all_lines xs)) (
      OneLine-append (codes "## Options " ++ (0x2014 ∷ [])) summary (omega arith) one,
      ((tt, refl), all_lines-OneLine xs h),
    )
