-- ===== src/Spec/Deps/Uses.antt =====
-- The uses of a tool that loom/crates/loom-workflow/src/spec/deps.rs finds.
use wrapix.Prelude.{
  ℕ, zero, suc, ◌≤◌, ◌≡◌, ◌↔◌, refl, sym, ap, ap₂, ◌==◌, ==_iff, ==_refl, ◌∙◌, Bool, true, false,
  ◌&&◌, ◌||◌, Option, none, some, [], ◌∷◌, ◌++◌, ◌<◌, length, inl, inr, ◌⊎◌, Bool-cases, arith,
}
use wrapix.Prelude.Text.{Str, starts_with, strip_prefix}
use wrapix.Prelude.Split.{strip_prefix-append}
use wrapix.Spec.Deps.{
  is_command_boundary_before, is_command_boundary_after, find_from, first_byte, next_byte, is_use,
  search_uses, has_command_use,
}

both : (x y : Bool) → (x && y) ≡ true → (x ≡ true) × (y ≡ true)
both true y h = (refl, h)
both false y h = absurd (cc h)

either : (x y : Bool) → (x || y) ≡ true → (x ≡ true) ⊎ (y ≡ true)
either true y h = inl h
either false y h = inr h

or_true : (x : Bool) → (x || true) ≡ true
or_true true = refl
or_true false = refl

-- The byte before what follows `a`.
abbrev pub byte_before : ℕ → Str → ℕ
byte_before prev [] = prev
byte_before prev (c ∷ a) = byte_before c a

-- The tool stands between two boundaries.
abbrev pub UsedBehind : Str → ℕ → Str → Type 0
UsedBehind tool prev s =
    (a : Str) × (b : Str) × (s ≡ a ++ (tool ++ b))
    × (is_command_boundary_before (byte_before prev a) ≡ true)
    × (is_command_boundary_after (first_byte b) ≡ true)

-- One pass over all places.
unfoldable pass : Str → ℕ → Str → Bool
pass tool prev [] = false
pass tool prev (c ∷ s) = (starts_with tool (c ∷ s) && is_use tool prev (c ∷ s)) || pass tool c s

abbrev from_found : Str → Option (ℕ × Str) → Bool
from_found tool none = false
from_found tool (some (p, [])) = false
from_found tool (some (p, c ∷ t)) = is_use tool p (c ∷ t) || pass tool c t

pass-find_from :
    (tool : Str) (prev : ℕ) (s : Str) → pass tool prev s ≡ from_found tool (find_from tool prev s)
unfolding pass find_from
pass-find_from tool prev [] = refl
pass-find_from tool prev (c ∷ s) = elim (Bool-cases (starts_with tool (c ∷ s))) [
  | inl e ↦ rw e
  | inr e ↦ rw e (pass-find_from tool c s)
]

-- The place that is found lies in the text.
abbrev Within : ℕ → Option (ℕ × Str) → Type 0
Within n none = Unit
Within n (some (p, t)) = length t ≤ n

find_from-Within :
    (tool : Str) (prev : ℕ) (s : Str) (n : ℕ) → length s ≤ n → Within n (find_from tool prev s)
unfolding find_from
find_from-Within tool prev [] n h = tt
find_from-Within tool prev (c ∷ s) n h = elim (Bool-cases (starts_with tool (c ∷ s))) [
  | inl e ↦ rw e h
  | inr e ↦ rw e (find_from-Within tool c s n (omega arith))
]

-- What the loop does with what it found.
abbrev looked : ℕ → Str → Option (ℕ × Str) → Bool
looked fuel tool none = false
looked fuel tool (some (p, [])) = false
looked fuel tool (some (p, c ∷ t)) = is_use tool p (c ∷ t) || search_uses fuel tool c t

looked-pass :
    (fuel : ℕ) (tool : Str) (o : Option (ℕ × Str))
    → ((c : ℕ) (u : Str) → length u ≤ fuel → search_uses fuel tool c u ≡ pass tool c u)
    → Within (suc fuel) o
    → looked fuel tool o ≡ from_found tool o
looked-pass fuel tool none h w = refl
looked-pass fuel tool (some (p, [])) h w = refl
looked-pass fuel tool (some (p, c ∷ u)) h w =
    ap (λ (b : Bool). is_use tool p (c ∷ u) || b) (h c u (omega arith))

search_uses-pass :
    (fuel t : ℕ) (tool : Str) (prev : ℕ) (s : Str)
    → length s ≤ fuel
    → search_uses fuel (t ∷ tool) prev s ≡ pass (t ∷ tool) prev s
unfolding search_uses pass
search_uses-pass zero t tool prev [] h = refl
search_uses-pass zero t tool prev (c ∷ s) h = absurd (omega (arith, h))
search_uses-pass (suc fuel) t tool prev s h =
    looked-pass fuel (t ∷ tool) (find_from (t ∷ tool) prev s) (search_uses-pass fuel t tool)
      (find_from-Within (t ∷ tool) prev s (suc fuel) h)
    ∙ sym (pass-find_from (t ∷ tool) prev s)

starts_with-strip_prefix :
    (p s : Str) → starts_with p s ≡ true → (b : Str) × (strip_prefix p s ≡ some b) × (s ≡ p ++ b)
unfolding starts_with strip_prefix
starts_with-strip_prefix [] s h = (s, refl, refl)
starts_with-strip_prefix (q ∷ p) [] h = absurd (cc h)
starts_with-strip_prefix (q ∷ p) (c ∷ s) h =
    let (same, more) = both (q == c) (starts_with p s) h in
    let (b, stripped, e) = starts_with-strip_prefix p s more in
    (b, rw (same, stripped) refl, ap₂ ◌∷◌ (sym ((==_iff q c).0 same)) e)

starts_with-append : (p b : Str) → starts_with p (p ++ b) ≡ true
unfolding starts_with
starts_with-append [] b = refl
starts_with-append (q ∷ p) b = rw (==_refl q) (starts_with-append p b)

pass-UsedBehind :
    (tool : Str) (prev : ℕ) (s : Str) → pass tool prev s ≡ true → UsedBehind tool prev s
unfolding pass
pass-UsedBehind tool prev [] h = absurd (cc h)
pass-UsedBehind tool prev (c ∷ s) h = elim (either _ (pass tool c s) h) [
  | inl here ↦
      let (starts, uses) = both _ _ here in
      let (b, stripped, e) = starts_with-strip_prefix tool (c ∷ s) starts in
      let (front, behind) = both _ _ uses in
      (
        [],
        b,
        e,
        front,
        sym (ap (λ (o : Option Str). is_command_boundary_after (next_byte o)) stripped) ∙ behind,
      )
  | inr there ↦
      let (a, b, e, front, behind) = pass-UsedBehind tool c s there in
      (c ∷ a, b, ap (λ (u : Str). c ∷ u) e, front, behind)
]

pass-at :
    (t : ℕ) (tool : Str) (prev : ℕ) (a b : Str)
    → is_command_boundary_before (byte_before prev a) ≡ true
    → is_command_boundary_after (first_byte b) ≡ true
    → pass (t ∷ tool) prev (a ++ ((t ∷ tool) ++ b)) ≡ true
unfolding pass
pass-at t tool prev [] b front behind =
    rw (starts_with-append (t ∷ tool) b, strip_prefix-append (t ∷ tool) b, front, behind) refl
pass-at t tool prev (c ∷ a) b front behind = rw (pass-at t tool c a b front behind) (or_true _)

-- The loop finds a tool, whose name is not empty, exactly in the files that use it.
pub has_command_use_iff :
    (body tool : Str)
    → 0 < length tool
    → (has_command_use body tool ≡ true) ↔ UsedBehind tool b'\n' body
unfolding has_command_use
has_command_use_iff body [] h = absurd (omega (arith, h))
has_command_use_iff body (t ∷ tool) _ = (
  λ h.
      pass-UsedBehind (t ∷ tool) b'\n' body
        (sym (search_uses-pass (length body) t tool b'\n' body (omega arith)) ∙ h),
  λ u.
      let (a, b, e, front, behind) = u in
      search_uses-pass (length body) t tool b'\n' body (omega arith)
      ∙ ap (pass (t ∷ tool) b'\n') e
      ∙ pass-at t tool b'\n' a b front behind,
)
