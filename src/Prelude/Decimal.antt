-- ===== src/Prelude/Decimal.antt =====
-- `{n}` of a `format!` string: the decimal print of a number, and its laws.
use Prim.Native.Nat.{ℕ, zero, suc, ◌+◌, ◌-◌, ◌*◌, ◌/◌, ◌%◌, ◌^◌, ◌≤◌, ◌<◌}
use mathlib.Core.Path.{◌≡◌, refl, sym, ◌∙◌, ap}
use mathlib.Core.Logic.{inl, inr}
use mathlib.Core.Bool.{true, false, ◌&&◌}
use mathlib.Core.Option.{Option, none, some}
use mathlib.Core.List.{[], ◌∷◌, ◌++◌}
use native.Mathlib.Omega.{arith}
use wrapix.Prelude.Tests.{ltb, leb, Bool-cases, if◌then◌else◌}
use wrapix.Prelude.Lists.{All, All-append}
use wrapix.Prelude.Text.{Str, is_ascii_digit, digits_u32, parse_u32}

-- The digits of `n`, at most `fuel` of them.
unfoldable pub digits : ℕ → ℕ → Str
digits zero n = []
digits (suc fuel) n = elim (ltb n 10) [
  | true ↦ (b'0' + n) ∷ []
  | false ↦ digits fuel (n / 10) ++ (b'0' + n % 10) ∷ []
]

-- A number has no more digits than `n + 1`.
unfoldable pub to_string : ℕ → Str
unfolding digits
to_string n = digits (suc n) n

-- The number that digits spell behind `m`.
unfoldable pub value : ℕ → Str → ℕ
value m [] = m
value m (c ∷ s) = value (m * 10 + (c - b'0')) s

value-append : (m : ℕ) (s : Str) (c : ℕ) → value m (s ++ c ∷ []) ≡ value m s * 10 + (c - b'0')
unfolding value
value-append m [] c = refl
value-append m (d ∷ s) c = value-append (m * 10 + (d - b'0')) s c

digits_short : (fuel n : ℕ) → ltb n 10 ≡ true → digits (suc fuel) n ≡ (b'0' + n) ∷ []
unfolding digits
digits_short fuel n h = ground arith

digits_long :
    (fuel n : ℕ)
    → ltb n 10 ≡ false
    → digits (suc fuel) n ≡ digits fuel (n / 10) ++ (b'0' + n % 10) ∷ []
unfolding digits
digits_long fuel n h = ground arith

value-digits : (fuel n : ℕ) → n < fuel → value 0 (digits fuel n) ≡ n
value-digits zero n h = absurd (omega arith)
value-digits (suc fuel) n h = elim (Bool-cases (ltb n 10)) [
  | inl short ↦ rw (digits_short fuel n short) (unfold value in omega arith)
  | inr long ↦
      rw (digits_long fuel n long, value-append 0 (digits fuel (n / 10)) (b'0' + n % 10))
        (ground (arith, value-digits fuel (n / 10)))
]

pub value-to_string : (n : ℕ) → value 0 (to_string n) ≡ n
unfolding to_string
value-to_string n = value-digits (suc n) n (omega arith)

-- Different numbers are printed differently.
pub to_string-injective : (m n : ℕ) → to_string m ≡ to_string n → m ≡ n
to_string-injective m n h = sym (value-to_string m) ∙ ap (value 0) h ∙ value-to_string n

abbrev pub IsDigit : ℕ → Type 0
IsDigit c = (b'0' ≤ c) × (c ≤ b'9')

digits-AllDigits : (fuel n : ℕ) → All IsDigit (digits fuel n)
digits-AllDigits zero n = unfold digits in tt
digits-AllDigits (suc fuel) n = elim (Bool-cases (ltb n 10)) [
  | inl short ↦ rw (digits_short fuel n short) (ground arith)
  | inr long ↦
      rw (digits_long fuel n long)
        (All-append IsDigit (digits fuel (n / 10)) _ (digits-AllDigits fuel (n / 10)) (omega arith))
]

pub to_string-AllDigits : (n : ℕ) → All IsDigit (to_string n)
unfolding to_string
to_string-AllDigits n = digits-AllDigits (suc n) n

-- The u32 parser reads a digit behind digits that it has read.
abbrev next_digit : Option ℕ → ℕ → Option ℕ
next_digit none c = none
next_digit (some m) c =
    if is_ascii_digit c && leb (m * 10 + (c - b'0')) (2 ^ 32 - 1)
    then some (m * 10 + (c - b'0'))
    else none

digits_u32-append :
    (m : ℕ) (s : Str) (c : ℕ) → digits_u32 m (s ++ c ∷ []) ≡ next_digit (digits_u32 m s) c
unfolding digits_u32
digits_u32-append m [] c = ground arith
digits_u32-append m (d ∷ s) c = ground (arith, digits_u32-append (m * 10 + (d - b'0')) s c)

digits_u32-digits : (fuel n : ℕ) → n < fuel → n < 2 ^ 32 → digits_u32 0 (digits fuel n) ≡ some n
digits_u32-digits zero n h fits = absurd (omega arith)
digits_u32-digits (suc fuel) n h fits = elim (Bool-cases (ltb n 10)) [
  | inl short ↦ rw (digits_short fuel n short) (unfold digits_u32 in ground arith)
  | inr long ↦
      rw
        (
          digits_long fuel n long,
          digits_u32-append 0 (digits fuel (n / 10)) (b'0' + n % 10),
          digits_u32-digits fuel (n / 10) (ground arith) (omega arith),
        )
        (unfold is_ascii_digit in ground arith)
]

-- A text that starts with a digit.
abbrev pub StartsDigit : Str → Type 0
StartsDigit [] = ⊥
StartsDigit (c ∷ s) = IsDigit c

starts-append : (s t : Str) → StartsDigit s → StartsDigit (s ++ t)
starts-append [] t h = absurd h
starts-append (c ∷ s) t h = h

digits-StartsDigit : (fuel n : ℕ) → n < fuel → StartsDigit (digits fuel n)
digits-StartsDigit zero n h = absurd (omega arith)
digits-StartsDigit (suc fuel) n h = elim (Bool-cases (ltb n 10)) [
  | inl short ↦ rw (digits_short fuel n short) (ground arith)
  | inr long ↦
      rw (digits_long fuel n long)
        (starts-append _ _ (digits-StartsDigit fuel (n / 10) (ground arith)))
]

pub to_string-StartsDigit : (n : ℕ) → StartsDigit (to_string n)
unfolding to_string
to_string-StartsDigit n = digits-StartsDigit (suc n) n (omega arith)

parse_u32-digits : (s : Str) → StartsDigit s → parse_u32 s ≡ digits_u32 0 s
unfolding parse_u32
parse_u32-digits [] h = absurd h
parse_u32-digits (c ∷ s) h = ground arith

-- A u32 is read back from its print.
pub parse_u32-to_string : (n : ℕ) → n < 2 ^ 32 → parse_u32 (to_string n) ≡ some n
parse_u32-to_string n fits =
    parse_u32-digits (to_string n) (to_string-StartsDigit n)
    ∙ unfold to_string in digits_u32-digits (suc n) n (omega arith) fits
