-- ===== src/Prelude/Split.antt =====
-- Laws of `split_once`, `strip_prefix` and of tests on all characters.
use Prim.Native.Nat.{ℕ}
use mathlib.Core.Path.{◌≡◌, refl, ap, ap₂, ◌∙◌, subst}
use mathlib.Core.Logic.{◌≢◌, inl, inr}
use mathlib.Core.Bool.{Bool, true, false}
use mathlib.Core.Option.{Option, none, some}
use mathlib.Core.List.{List, [], ◌∷◌, ◌++◌, append-nil, append_assoc}
use native.Mathlib.Omega.{arith}
use wrapix.Prelude.Tests.{◌==◌, Bool-cases}
use wrapix.Prelude.Lists.{all, All, All-append}
use wrapix.Prelude.Text.{Str, split_once, strip_prefix, before, lines_from, lines, strip_cr}
use wrapix.Prelude.Decimal.{IsDigit}

-- No character of the text is `d`.
abbrev pub Lacks : ℕ → Str → Type 0
Lacks d = All (λ c. c ≢ d)

abbrev pub Cut : ℕ → Str → Option (Str × Str) → Type 0
Cut d s none = Lacks d s
Cut d s (some (a, b)) = (s ≡ a ++ d ∷ b) × Lacks d a

Cut-cons :
    (d c : ℕ) (s : Str) (o : Option (Str × Str)) → c ≢ d → Cut d s o → Cut d (c ∷ s) (before c o)
Cut-cons d c s none ne h = (ne, h)
Cut-cons d c s (some (a, b)) ne (e, l) = (cc e, (ne, l))

-- `split_once` cuts at the first `d`, if there is one.
pub split_once-Cut : (d : ℕ) (s : Str) → Cut d s (split_once d s)
unfolding split_once
split_once-Cut d [] = tt
split_once-Cut d (c ∷ s) = elim (Bool-cases (c == d)) [
  | inl e ↦ rw e (ground arith, tt)
  | inr e ↦ rw e (Cut-cons d c s (split_once d s) (ground arith) (split_once-Cut d s))
]

pub split_once-append : (d : ℕ) (a b : Str) → Lacks d a → split_once d (a ++ d ∷ b) ≡ some (a, b)
unfolding split_once
split_once-append d [] b h = ground arith
split_once-append d (c ∷ a) b (ne, h) = ground (arith, split_once-append d a b h)

pub split_once-Lacks : (d : ℕ) (s : Str) → Lacks d s → split_once d s ≡ none
unfolding split_once
split_once-Lacks d [] h = refl
split_once-Lacks d (c ∷ s) (ne, h) = ground (arith, split_once-Lacks d s h)

-- A test that refuses `d` holds of no text with a `d`.
pub All-Lacks : (p : ℕ → Bool) (d : ℕ) (s : Str) → p d ≡ false → All (λ c. p c ≡ true) s → Lacks d s
All-Lacks p d [] h _ = tt
All-Lacks p d (c ∷ s) h (e, l) = (λ z. cc (z, e, h), All-Lacks p d s h l)

pub strip_prefix-append : (p s : Str) → strip_prefix p (p ++ s) ≡ some s
unfolding strip_prefix
strip_prefix-append [] s = refl
strip_prefix-append (c ∷ p) s = ground (arith, strip_prefix-append p s)

pub strip_prefix-some : (p s : Str) {t : Str} → strip_prefix p s ≡ some t → s ≡ p ++ t
unfolding strip_prefix
strip_prefix-some [] s h = ground arith
strip_prefix-some (c ∷ p) [] h = cc h
strip_prefix-some (c ∷ p) (d ∷ s) {t} h = ground (arith, strip_prefix-some p s {t = t})

module _ {ℓ} {A : Type ℓ} (p : A → Bool) where
  pub all-All : (xs : List A) → all p xs ≡ true → All (λ x. p x ≡ true) xs
  all-All [] h = tt
  all-All (x ∷ xs) h = elim (Bool-cases (p x)) [
    | inl e ↦ (e, all-All xs (rw e at h))
    | inr e ↦ cc (rw e at h)
  ]

  pub All-all : (xs : List A) → All (λ x. p x ≡ true) xs → all p xs ≡ true
  All-all [] h = refl
  All-all (x ∷ xs) (e, h) = rw e (All-all xs h)

pub lines_from-append :
    (cur a s : Str)
    → Lacks 0x0a a
    → lines_from cur (a ++ (0x0a ∷ s)) ≡ strip_cr (cur ++ a) ∷ lines_from [] s
unfolding lines_from
lines_from-append cur [] s h = rw (append-nil cur) refl
lines_from-append cur (c ∷ a) s (ne, h) =
    ground (arith, lines_from-append (cur ++ c ∷ []) a s h, append_assoc cur (c ∷ []) a)

pub strip_cr-append : (a : Str) (d : ℕ) (s : Str) → strip_cr (a ++ (d ∷ s)) ≡ a ++ strip_cr (d ∷ s)
strip_cr-append [] d s = refl
strip_cr-append (c ∷ []) d s = refl
strip_cr-append (c ∷ e ∷ a) d s = ap (λ t. c ∷ t) (strip_cr-append (e ∷ a) d s)

-- The digits of a number lack what is no digit.
pub digits-Lacks : (d : ℕ) (s : Str) → ¬ IsDigit d → All IsDigit s → Lacks d s
digits-Lacks d [] refuse h = tt
digits-Lacks d (c ∷ s) refuse (i, h) = (λ e. refuse (subst IsDigit e i), digits-Lacks d s refuse h)

-- A line as `lines` gives it back.
abbrev pub OneLine : Str → Type 0
OneLine s = Lacks 0x0a s × (strip_cr s ≡ s)

unfoldable pub unlines : List Str → Str
unlines [] = []
unlines (s ∷ ss) = s ++ (0x0a ∷ unlines ss)

pub lines-unlines : (ss : List Str) → All OneLine ss → lines (unlines ss) ≡ ss
unfolding unlines lines
lines-unlines [] h = unfold lines_from in refl
lines-unlines (s ∷ ss) ((one, plain), h) =
    lines_from-append [] s (unlines ss) one ∙ ap₂ ◌∷◌ plain (lines-unlines ss h)

-- A line behind a text that ends in a space.
pub OneLine-append : (a s : Str) → Lacks 0x0a a → OneLine s → OneLine (a ++ (0x20 ∷ s))
OneLine-append a s la (ls, plain) = (
  All-append _ a (0x20 ∷ s) la (omega arith, ls),
  strip_cr-append a 0x20 s ∙ ap (λ (t : Str). a ++ t) (strip_space s plain),
)
  where
    strip_space : (t : Str) → strip_cr t ≡ t → strip_cr (0x20 ∷ t) ≡ 0x20 ∷ t
    strip_space [] h = refl
    strip_space (c ∷ t) h = ap (λ (u : Str). 0x20 ∷ u) h
