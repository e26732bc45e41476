-- ===== src/Prelude/Paths.antt =====
-- `str::rsplit_once`, and `Path::file_stem` and `Path::extension` of a file's name.
use Prim.Native.Nat.{ℕ}
use mathlib.Core.Path.{◌≡◌, refl}
use mathlib.Core.Option.{Option, none, some}
use mathlib.Core.List.{[], ◌∷◌, ◌++◌}
use native.Mathlib.Omega.{arith}
use wrapix.Prelude.Tests.{◌==◌, if◌then◌else◌}
use wrapix.Prelude.Lists.{is_empty}
use wrapix.Prelude.Text.{Str, before, codes, str_eq}
use wrapix.Prelude.Split.{Lacks}

-- The text before the last `d`, and the text behind it.
abbrev or_here : Option (Str × Str) → Option (Str × Str) → Option (Str × Str)
or_here none o = o
or_here (some p) o = some p

unfoldable pub rsplit_once : ℕ → Str → Option (Str × Str)
rsplit_once d [] = none
rsplit_once d (c ∷ s) = or_here (before c (rsplit_once d s)) (if c == d then some ([], s) else none)

pub rsplit_once-Lacks : (d : ℕ) (s : Str) → Lacks d s → rsplit_once d s ≡ none
unfolding rsplit_once
rsplit_once-Lacks d [] h = refl
rsplit_once-Lacks d (c ∷ s) (ne, h) = ground (arith, rsplit_once-Lacks d s h)

pub rsplit_once-append : (d : ℕ) (a b : Str) → Lacks d b → rsplit_once d (a ++ d ∷ b) ≡ some (a, b)
unfolding rsplit_once
rsplit_once-append d [] b h = ground (arith, rsplit_once-Lacks d b h)
rsplit_once-append d (c ∷ a) b h = rw (rsplit_once-append d a b h)

-- A name with a dot elsewhere than at its start has an extension.
abbrev stem_of : Str → Option (Str × Str) → Str
stem_of name none = name
stem_of name (some (stem, ext)) = if is_empty stem then name else stem

abbrev extension_of : Option (Str × Str) → Option Str
extension_of none = none
extension_of (some (stem, ext)) = if is_empty stem then none else some ext

unfoldable pub file_stem : Str → Str
unfolding rsplit_once str_eq
file_stem name = if str_eq name (codes "..") then name else stem_of name (rsplit_once b'.' name)

unfoldable pub extension : Str → Option Str
unfolding rsplit_once str_eq
extension name = if str_eq name (codes "..") then none else extension_of (rsplit_once b'.' name)
