-- ===== src/Msg/Options/Headings.antt =====
-- The headings of an options block as they are written, read by
-- loom/crates/loom-workflow/src/msg/options.rs.
use wrapix.Prelude.{
  ℕ, ◌^◌, ◌<◌, ◌≤◌, ◌≡◌, refl, ap, ◌∙◌, true, false, some, [], ◌∷◌, ◌++◌, All, arith,
}
use wrapix.Prelude.Text.{Str, codes, is_whitespace, is_ascii_digit, trim_start, trim, parse_u32}
use wrapix.Prelude.Decimal.{
  to_string, IsDigit, StartsDigit, to_string-AllDigits, to_string-StartsDigit, parse_u32-to_string,
}
use wrapix.Msg.Options.{
  match_options_heading, take_digits, before_rest, after_digits, match_option_heading,
  strip_separator,
}

-- The separator and what stands behind it.
abbrev pub dash : Str → Str
dash s = 0x2014 ∷ 0x20 ∷ s

abbrev pub options_heading : Str → Str
options_heading summary = codes "## Options " ++ dash summary

abbrev pub option_heading : ℕ → Str → Str
option_heading n title = codes "### Option " ++ (to_string n ++ (0x20 ∷ dash title))

pub strip_separator-dash : (s : Str) → trim s ≡ s → strip_separator (dash s) ≡ s
unfolding strip_separator trim_start
strip_separator-dash s h = h

pub match_options_heading_lem :
    (s : Str) → match_options_heading (options_heading s) ≡ some (dash s)
unfolding match_options_heading
match_options_heading_lem s = refl

take_digits-append : (ds s : Str) → All IsDigit ds → take_digits (ds ++ (0x20 ∷ s)) ≡ (ds, 0x20 ∷ s)
unfolding take_digits
take_digits-append [] s h = refl
take_digits-append (d ∷ ds) s ((lo, hi), h) =
    rw (digit d lo hi) (ap (before_rest d) (take_digits-append ds s h))
  where
    digit : (c : ℕ) → b'0' ≤ c → c ≤ b'9' → is_ascii_digit c ≡ true
    digit c lo' hi' = ground arith

digit_plain : (c : ℕ) → IsDigit c → is_whitespace c ≡ false
unfolding is_whitespace
digit_plain c (lo, hi) = ground arith

trim_start-digits : (ds s : Str) → StartsDigit ds → trim_start (ds ++ s) ≡ ds ++ s
trim_start-digits [] s h = absurd h
trim_start-digits (d ∷ ds) s h = unfold trim_start in rw (digit_plain d h)

after_digits_lem :
    (ds title : Str) (n : ℕ)
    → StartsDigit ds
    → parse_u32 ds ≡ some n
    → after_digits (ds, 0x20 ∷ dash title) ≡ some (n, dash title)
unfolding trim_start
after_digits_lem [] title n h e = absurd h
after_digits_lem (d ∷ ds) title n h e = rw e

read_heading :
    (t : Str)
    → match_option_heading (codes "### Option " ++ t) ≡ after_digits (take_digits (trim_start t))
unfolding match_option_heading
read_heading t = refl

pub match_option_heading_lem :
    (n : ℕ) (title : Str)
    → n < 2 ^ 32
    → match_option_heading (option_heading n title) ≡ some (n, dash title)
match_option_heading_lem n title small =
    read_heading (to_string n ++ (0x20 ∷ dash title))
    ∙ ap (λ (t : Str). after_digits (take_digits t))
        (trim_start-digits (to_string n) _ (to_string-StartsDigit n))
    ∙ ap after_digits (take_digits-append (to_string n) (dash title) (to_string-AllDigits n))
    ∙ after_digits_lem (to_string n) title n (to_string-StartsDigit n) (parse_u32-to_string n small)
