-- ===== src/Prelude/Utf8.antt =====
-- `str::from_utf8`: bytes as code points, none if they are no UTF-8.
use Prim.Native.Nat.{ℕ, ◌+◌, ◌-◌, ◌*◌}
use mathlib.Core.Bool.{◌&&◌}
use mathlib.Core.Option.{Option, none, some}
use mathlib.Core.List.{List, [], ◌∷◌}
use wrapix.Prelude.Tests.{ltb, leb, ◌==◌, if◌then◌else◌}
use wrapix.Prelude.Text.{Str}

-- Between two characters, or before `left` more bytes, of which the next is in a range.
pub data Pending : Type 0 where
  between : Pending
  within : (left code lo hi : ℕ) → Pending

-- A byte: a character that it ends, if it ends one, and what is pending then.
abbrev lead : ℕ → Option (Option ℕ × Pending)
lead b =
    if ltb b 0x80
    then some (some b, between)
    else if ltb b 0xc2
    then none
    else if ltb b 0xe0
    then some (none, within 1 (b - 0xc0) 0x80 0xbf)
    else if ltb b 0xf0
    then some (
      none,
      within 2 (b - 0xe0) (if b == 0xe0 then 0xa0 else 0x80) (if b == 0xed then 0x9f else 0xbf),
    )
    else if ltb b 0xf5
    then some (
      none,
      within 3 (b - 0xf0) (if b == 0xf0 then 0x90 else 0x80) (if b == 0xf4 then 0x8f else 0xbf),
    )
    else none

abbrev follow : ℕ → ℕ → ℕ → ℕ → ℕ → Option (Option ℕ × Pending)
follow left code lo hi b =
    if leb lo b && leb b hi
    then (if left == 1
        then some (some (code * 64 + (b - 0x80)), between)
        else some (none, within (left - 1) (code * 64 + (b - 0x80)) 0x80 0xbf))
    else none

abbrev take_byte : Pending → ℕ → Option (Option ℕ × Pending)
take_byte between b = lead b
take_byte (within left code lo hi) b = follow left code lo hi b

abbrev emit : Option ℕ → Option Str → Option Str
emit none s = s
emit (some c) none = none
emit (some c) (some s) = some (c ∷ s)

unfoldable decode : Pending → List ℕ → Option Str
decode between [] = some []
decode (within left code lo hi) [] = none
decode p (b ∷ bytes) = elim (take_byte p b) [ none ↦ none | some (c, q) ↦ emit c (decode q bytes) ]

unfoldable pub from_utf8 : List ℕ → Option Str
unfolding decode
from_utf8 bytes = decode between bytes
