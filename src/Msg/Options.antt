-- ===== src/Msg/Options.antt =====
-- loom/crates/loom-workflow/src/msg/options.rs: the options that a bead's description enumerates.
pub mod Headings
pub mod Print
pub mod Written
use wrapix.Prelude.{
  ℕ, Bool, true, false, not, ◌&&◌, ◌==◌, Option, none, some, List, [], ◌∷◌, ◌++◌, is_empty,
  if◌then◌else◌,
}
use wrapix.Prelude.Text.{
  Str, codes, is_whitespace, is_ascii_digit, strip_prefix, starts_with, trim_start, trim_start_by,
  trim_end_by, trim, lines, join, parse_u32,
}

pub record OptionEntry : Type 0 where
  pub n : ℕ  -- u32
  pub title : Str
  pub body : Str

pub record OptionsParse : Type 0 where
  pub summary : Str
  pub options : List OptionEntry

abbrev pub default_parse : OptionsParse
default_parse = record { summary = []; options = [] }

-- `s.is_empty() || s.starts_with(char::is_whitespace)`
abbrev pub ends_word : Str → Bool
ends_word [] = true
ends_word (c ∷ s) = is_whitespace c

abbrev pub after_word : Option Str → Option Str
after_word none = none
after_word (some rest) = if ends_word rest then some (trim_start rest) else none

abbrev pub and_then : {A B : Type 0} → Option A → (A → Option B) → Option B
and_then none f = none
and_then (some a) f = f a

unfoldable pub match_options_heading : Str → Option Str
unfolding strip_prefix trim_start is_whitespace
match_options_heading line =
    after_word (and_then (strip_prefix (codes "## ") line) (strip_prefix (codes "Options")))

abbrev pub before_rest : ℕ → Str × Str → Str × Str
before_rest c (digits, after) = (c ∷ digits, after)

unfoldable pub take_digits : Str → Str × Str
unfolding is_ascii_digit
take_digits [] = ([], [])
take_digits (c ∷ s) =
    let longer = before_rest c (take_digits s) in if is_ascii_digit c then longer else ([], c ∷ s)

abbrev pub numbered : Str → Option ℕ → Option (ℕ × Str)
numbered after none = none
numbered after (some n) = if ends_word after then some (n, trim_start after) else none

abbrev pub after_digits : Str × Str → Option (ℕ × Str)
after_digits (digits, after) = if is_empty digits then none else numbered after (parse_u32 digits)

unfoldable pub match_option_heading : Str → Option (ℕ × Str)
unfolding strip_prefix trim_start is_whitespace take_digits parse_u32
match_option_heading line =
    and_then
      (and_then (and_then (strip_prefix (codes "### ") line) (strip_prefix (codes "Option")))
        (strip_prefix (codes " ")))
      (λ rest. after_digits (take_digits (trim_start rest)))

abbrev or_else : Option Str → Option Str → Option Str
or_else (some s) o = some s
or_else none o = o

abbrev or_text : Option Str → Str → Str
or_text (some s) t = s
or_text none t = t

-- An em-dash, an en-dash, two hyphens or one, and then the text.
unfoldable pub strip_separator : Str → Str
unfolding strip_prefix trim
strip_separator rest =
    let trimmed = trim_start rest in
    trim (
      or_text
        (or_else (strip_prefix (0x2014 ∷ []) trimmed) (
          or_else (strip_prefix (0x2013 ∷ []) trimmed)
            (or_else (strip_prefix (codes "--") trimmed) (strip_prefix (codes "-") trimmed))))
        trimmed)

unfoldable pub is_next_h2 : Str → Bool
unfolding starts_with
is_next_h2 line = starts_with (codes "## ") line && not (starts_with (codes "### ") line)

abbrev pub is_newline : ℕ → Bool
is_newline c = c == 0x0a

unfoldable pub join_body : List Str → Str
unfolding join trim_start_by trim_end_by
join_body body = trim_start_by is_newline (trim_end_by is_newline (join (0x0a ∷ []) body))

-- The variables of the loop.
pub record Scan : Type 0 where
  pub parse : OptionsParse
  pub in_options : Bool
  pub current : Option OptionEntry
  pub current_body_lines : List Str

abbrev pub scan_start : Scan
scan_start = record {
  parse = default_parse;
  in_options = false;
  current = none;
  current_body_lines = [];
}

-- The current option, if there is one, is done.
abbrev pub finish_as : Option OptionEntry → Scan → Scan
finish_as none s = s
finish_as (some entry) s = record s {
  parse = record {
    summary = s.parse.summary;
    options = s.parse.options ++ record entry { body = join_body s.current_body_lines } ∷ [];
  };
  current = none;
  current_body_lines = [];
}

abbrev pub finish : Scan → Scan
finish s = finish_as s.current s

abbrev pub outside : Option Str → Scan → Scan
outside none s = s
outside (some rest) s = record s {
  parse = record s.parse { summary = strip_separator rest };
  in_options = true;
}

abbrev pub add_line : Str → Option OptionEntry → Scan → Scan
add_line line none s = s
add_line line (some entry) s = record s { current_body_lines = s.current_body_lines ++ line ∷ [] }

abbrev pub inside : Str → Option (ℕ × Str) → Scan → Scan
inside line (some (n, rest)) s = record (finish s) {
  current = some (record { n = n; title = strip_separator rest; body = [] });
}
inside line none s =
    if is_next_h2 line then record (finish s) { in_options = false } else add_line line s.current s

unfoldable pub scan_line : Str → Scan → Scan
unfolding match_options_heading match_option_heading strip_separator is_next_h2 join_body
scan_line line s =
    if s.in_options
    then inside line (match_option_heading line) s
    else outside (match_options_heading line) s

unfoldable pub scan_lines : List Str → Scan → Scan
unfolding scan_line
scan_lines [] s = s
scan_lines (line ∷ rest) s = scan_lines rest (scan_line line s)

unfoldable pub parse_options : Str → OptionsParse
unfolding scan_lines lines
parse_options description = (finish (scan_lines (lines description) scan_start)).parse
