-- ===== src/Prelude/Text.antt =====
-- Rust's `str` and `String`, as lists of code points, and the functions of the standard library
-- that the program calls on them. Byte offsets of the source are positions of characters here.
use Prim.Native.Nat.{ℕ, ◌+◌, ◌-◌, ◌*◌, ◌^◌}
use Prim.Native.Char.{code}
use Prim.Native.String.{String}
use mathlib.Core.Path.{◌≡◌, refl}
use mathlib.Core.Logic.{◌↔◌, inl, inr}
use mathlib.Core.Bool.{Bool, true, false, ◌&&◌, ◌||◌}
use mathlib.Core.Option.{Option, none, some}
use mathlib.Core.List.{List, [], ◌∷◌, ◌++◌}
use native.Mathlib.Omega.{arith}
use wrapix.Prelude.Tests.{ltb, leb, ◌==◌, if◌then◌else◌, Bool-cases}
use wrapix.Prelude.Lists.{any, In}

abbrev pub Str : Type 0
Str = List ℕ

-- The text of a literal.
abbrev pub codes : String → Str
codes String.[] = []
codes (String.◌∷◌ c s) = code c ∷ codes s

-- `==` on texts
unfoldable pub str_eq : Str → Str → Bool
str_eq [] [] = true
str_eq [] (d ∷ t) = false
str_eq (c ∷ s) [] = false
str_eq (c ∷ s) (d ∷ t) = c == d && str_eq s t

pub str_eq_iff : (s t : Str) → (str_eq s t ≡ true) ↔ (s ≡ t)
unfolding str_eq
str_eq_iff [] [] = (λ _. refl, λ _. refl)
str_eq_iff [] (d ∷ t) = (λ h. cc, λ h. cc)
str_eq_iff (c ∷ s) [] = (λ h. cc, λ h. cc)
str_eq_iff (c ∷ s) (d ∷ t) =
    (λ h. ground (arith, str_eq_iff s t), λ h. ground (arith, str_eq_iff s t))

pub str_eq_refl : (s : Str) → str_eq s s ≡ true
str_eq_refl s = (str_eq_iff s s).1 refl

-- A text is found in a list by `==`.
pub any-In : (tool : Str) (denied : List Str) → (any (str_eq tool) denied ≡ true) ↔ In tool denied
any-In tool [] = (λ h. cc h, λ h. absurd h)
any-In tool (d ∷ denied) = (
  λ h. elim (Bool-cases (str_eq tool d)) [
    | inl e ↦ inl ((str_eq_iff tool d).0 e)
    | inr e ↦ inr ((any-In tool denied).0 (rw e at h))
  ],
  λ h. elim h [
    | inl e ↦ rw ((str_eq_iff tool d).1 e)
    | inr m ↦ ground (arith, (any-In tool denied).1 m)
  ],
)

-- `char::is_whitespace`: the characters of Unicode's White_Space
unfoldable pub is_whitespace : ℕ → Bool
is_whitespace c =
    (leb 0x09 c && leb c 0x0d)
    || c == 0x20
    || c == 0x85
    || c == 0xa0
    || c == 0x1680
    || (leb 0x2000 c && leb c 0x200a)
    || c == 0x2028
    || c == 0x2029
    || c == 0x202f
    || c == 0x205f
    || c == 0x3000

-- `is_ascii_lowercase`, `is_ascii_digit`
unfoldable pub is_ascii_lowercase : ℕ → Bool
is_ascii_lowercase c = leb b'a' c && leb c b'z'

unfoldable pub is_ascii_digit : ℕ → Bool
is_ascii_digit c = leb b'0' c && leb c b'9'

-- `strip_prefix(p)` of `s`
unfoldable pub strip_prefix : Str → Str → Option Str
strip_prefix [] s = some s
strip_prefix (p ∷ ps) [] = none
strip_prefix (p ∷ ps) (c ∷ s) = let rest = strip_prefix ps s in if p == c then rest else none

-- `s.starts_with(p)`
unfoldable pub starts_with : Str → Str → Bool
starts_with [] s = true
starts_with (p ∷ ps) [] = false
starts_with (p ∷ ps) (c ∷ s) = p == c && starts_with ps s

-- `trim_start_matches`, `trim_start`
unfoldable pub trim_start_by : (ℕ → Bool) → Str → Str
trim_start_by p [] = []
trim_start_by p (c ∷ s) = let rest = trim_start_by p s in if p c then rest else c ∷ s

unfoldable pub trim_start : Str → Str
unfolding trim_start_by is_whitespace
trim_start = trim_start_by is_whitespace

-- `trim_end_matches`: what is left of the rest decides whether the character is a trailing one.
abbrev pub keep_unless : (ℕ → Bool) → ℕ → Str → Str
keep_unless p c [] = if p c then [] else c ∷ []
keep_unless p c (d ∷ s) = c ∷ d ∷ s

unfoldable pub trim_end_by : (ℕ → Bool) → Str → Str
trim_end_by p [] = []
trim_end_by p (c ∷ s) = keep_unless p c (trim_end_by p s)

unfoldable pub trim : Str → Str
unfolding trim_start trim_end_by is_whitespace
trim s = trim_end_by is_whitespace (trim_start s)

-- `split_once` at a character: the text before the first `d`, and the text behind it
abbrev pub before : ℕ → Option (Str × Str) → Option (Str × Str)
before c none = none
before c (some (s, t)) = some (c ∷ s, t)

unfoldable pub split_once : ℕ → Str → Option (Str × Str)
split_once d [] = none
split_once d (c ∷ s) = let rest = before c (split_once d s) in if c == d then some ([], s) else rest

-- `find(needle)`, taken apart at the match: the text before it, and the text behind it
unfoldable pub find_str : Str → Str → Option (Str × Str)
unfolding strip_prefix
find_str needle [] = elim (strip_prefix needle []) [ none ↦ none | some t ↦ some ([], t) ]
find_str needle (c ∷ s) =
    let rest = before c (find_str needle s) in
    elim (strip_prefix needle (c ∷ s)) [ none ↦ rest | some t ↦ some ([], t) ]

unfoldable pub contains : Str → Str → Bool
unfolding find_str
contains needle s = elim (find_str needle s) [ none ↦ false | some _ ↦ true ]

-- `lines`: cut at each "\n", less one "\r" before it; what follows the last "\n" is a line if it
-- is not empty, and keeps a "\r".
abbrev pub strip_cr : Str → Str
strip_cr [] = []
strip_cr (c ∷ []) = if c == 0x0d then [] else c ∷ []
strip_cr (c ∷ d ∷ s) = c ∷ strip_cr (d ∷ s)

abbrev last_line : Str → List Str
last_line [] = []
last_line (c ∷ s) = (c ∷ s) ∷ []

unfoldable pub lines_from : Str → Str → List Str
lines_from cur [] = last_line cur
lines_from cur (c ∷ s) =
    let ended = strip_cr cur ∷ lines_from [] s in
    let longer = lines_from (cur ++ c ∷ []) s in if c == 0x0a then ended else longer

unfoldable pub lines : Str → List Str
unfolding lines_from
lines s = lines_from [] s

-- `slice::join`
unfoldable pub join : Str → List Str → Str
join sep [] = []
join sep (x ∷ []) = x
join sep (x ∷ y ∷ ys) = x ++ (sep ++ join sep (y ∷ ys))

-- `parse::<u32>`: an optional "+", then digits; the empty text and overflow are refused.
unfoldable pub digits_u32 : ℕ → Str → Option ℕ
unfolding is_ascii_digit
digits_u32 n [] = some n
digits_u32 n (c ∷ s) =
    let m = n * 10 + (c - b'0') in
    let rest = digits_u32 m s in if is_ascii_digit c && leb m (2 ^ 32 - 1) then rest else none

abbrev pub nonempty_u32 : Str → Option ℕ
nonempty_u32 [] = none
nonempty_u32 (c ∷ s) = digits_u32 0 (c ∷ s)

unfoldable pub parse_u32 : Str → Option ℕ
unfolding digits_u32
parse_u32 [] = none
parse_u32 (c ∷ s) = if c == b'+' then nonempty_u32 s else nonempty_u32 (c ∷ s)

-- `split` at a character: one part more than there are separators
abbrev onto_first : ℕ → List Str → List Str
onto_first c [] = (c ∷ []) ∷ []
onto_first c (part ∷ parts) = (c ∷ part) ∷ parts

unfoldable pub split : ℕ → Str → List Str
split d [] = [] ∷ []
split d (c ∷ s) = let rest = split d s in if c == d then [] ∷ rest else onto_first c rest

-- The order of two texts is that of their code points, as of their bytes.
abbrev pub is_before : Str → Str → Bool
is_before s [] = false
is_before [] (d ∷ t) = true
is_before (c ∷ s) (d ∷ t) = let rest = is_before s t in if c == d then rest else ltb c d

-- `len`: the number of bytes in UTF-8
abbrev utf8_width : ℕ → ℕ
utf8_width c = if leb c 0x7f then 1 else if leb c 0x7ff then 2 else if leb c 0xffff then 3 else 4

unfoldable pub utf8_len : Str → ℕ
utf8_len [] = 0
utf8_len (c ∷ s) = utf8_width c + utf8_len s
