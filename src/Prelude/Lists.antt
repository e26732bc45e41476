-- ===== src/Prelude/Lists.antt =====
-- Lists measured by native numbers, Boolean searches, and predicates by recursion.
use Prim.Native.Nat.{ℕ, zero, suc, ◌+◌}
use mathlib.Core.Path.{◌≡◌, refl, sym, subst}
use mathlib.Core.Logic.{◌≢◌, ◌↔◌, ◌⊎◌, inl, inr}
use mathlib.Core.Bool.{Bool, true, false, ◌&&◌, ◌||◌}
use mathlib.Core.Option.{Option, none, some}
use mathlib.Core.List.{List, [], ◌∷◌, ◌++◌}
use native.Mathlib.Omega.{arith}
use wrapix.Prelude.Tests.{if◌then◌else◌}

module _ {ℓ} {A : Type ℓ} where
  abbrev pub length : List A → ℕ
  length [] = 0
  length (x ∷ xs) = suc (length xs)

  -- `Vec::is_empty`
  abbrev pub is_empty : List A → Bool
  is_empty [] = true
  is_empty (x ∷ xs) = false

  -- `slice::last`
  abbrev pub last? : List A → Option A
  last? [] = none
  last? (x ∷ []) = some x
  last? (x ∷ y ∷ ys) = last? (y ∷ ys)

  -- `Iterator::any`, `Iterator::all`, `Iterator::filter` and `Iterator::find`
  abbrev pub any : (A → Bool) → List A → Bool
  any p [] = false
  any p (x ∷ xs) = p x || any p xs

  abbrev pub all : (A → Bool) → List A → Bool
  all p [] = true
  all p (x ∷ xs) = p x && all p xs

  abbrev pub filter : (A → Bool) → List A → List A
  filter p [] = []
  filter p (x ∷ xs) = let rest = filter p xs in if p x then x ∷ rest else rest

  abbrev pub find : (A → Bool) → List A → Option A
  find p [] = none
  find p (x ∷ xs) = let rest = find p xs in if p x then some x else rest

  abbrev pub get_elem? : List A → ℕ → Option A
  get_elem? [] i = none
  get_elem? (x ∷ xs) zero = some x
  get_elem? (x ∷ xs) (suc i) = get_elem? xs i

  pub length-append : (xs ys : List A) → length (xs ++ ys) ≡ length xs + length ys
  length-append [] ys = omega arith
  length-append (x ∷ xs) ys = omega (arith, length-append xs ys)

  pub filter-append :
      (p : A → Bool) (xs ys : List A) → filter p (xs ++ ys) ≡ filter p xs ++ filter p ys
  filter-append p [] ys = refl
  filter-append p (x ∷ xs) ys = ground (arith, filter-append p xs ys)

module _ {ℓ κ} {A : Type ℓ} {B : Type κ} where
  -- `Iterator::find_map` and `Iterator::filter_map`
  abbrev pub find_map : (A → Option B) → List A → Option B
  find_map f [] = none
  find_map f (x ∷ xs) = let rest = find_map f xs in elim (f x) [ none ↦ rest | some b ↦ some b ]

  abbrev pub filter_map : (A → Option B) → List A → List B
  filter_map f [] = []
  filter_map f (x ∷ xs) =
      let rest = filter_map f xs in elim (f x) [ none ↦ rest | some b ↦ b ∷ rest ]

module _ {A : Type 0} where
  -- Membership, with the place.
  abbrev pub In : A → List A → Type 0
  In x [] = ⊥
  In x (y ∷ ys) = (x ≡ y) ⊎ In x ys

  pub In-append : (x : A) (xs ys : List A) → In x (xs ++ ys) → In x xs ⊎ In x ys
  In-append x [] ys h = inr h
  In-append x (y ∷ xs) ys (inl e) = inl (inl e)
  In-append x (y ∷ xs) ys (inr h) = elim (In-append x xs ys h) [
    | inl a ↦ inl (inr a)
    | inr b ↦ inr b
  ]

module _ {ℓ κ} {A : Type ℓ} (P : A → Type κ) where
  abbrev pub All : List A → Type κ
  All [] = Unit
  All (x ∷ xs) = P x × All xs

  pub All-append : (xs ys : List A) → All xs → All ys → All (xs ++ ys)
  All-append [] ys _ hy = hy
  All-append (x ∷ xs) ys (px, hx) hy = (px, All-append xs ys hx hy)

module _ {A : Type 0} (P : A → Type 0) where
  pub All-In : (xs : List A) → All P xs → (x : A) → In x xs → P x
  All-In [] h x i = absurd i
  All-In (y ∷ xs) (p, ps) x (inl e) = subst P (sym e) p
  All-In (y ∷ xs) (p, ps) x (inr i) = All-In xs ps x i

  pub In-All : (xs : List A) → ((x : A) → In x xs → P x) → All P xs
  In-All [] h = tt
  In-All (x ∷ xs) h = (h x (inl refl), In-All xs (λ y i. h y (inr i)))

module _ {A B : Type 0} (P : A → Type 0) (Q : B → Type 0) where
  kept :
      (o : Option B) (rest : List B)
      → ((b : B) → o ≡ some b → Q b)
      → All Q rest
      → All Q (elim o [ none ↦ rest | some b ↦ b ∷ rest ])
  kept none rest q qs = qs
  kept (some b) rest q qs = (q b refl, qs)

  pub All-filter_map :
      (f : A → Option B)
      → ((a : A) (b : B) → P a → f a ≡ some b → Q b)
      → (xs : List A) → All P xs
      → All Q (filter_map f xs)
  All-filter_map f h [] ps = tt
  All-filter_map f h (x ∷ xs) (p, ps) =
      kept (f x) (filter_map f xs) (λ b. h x b p) (All-filter_map f h xs ps)

module _ {A : Type 0} where
  abbrev pub Distinct : List A → Type 0
  Distinct [] = Unit
  Distinct (x ∷ xs) = All (λ y. x ≢ y) xs × Distinct xs

  -- An element that is new comes last.
  pub Distinct-last : (xs : List A) (y : A) → Distinct xs → (In y xs → ⊥) → Distinct (xs ++ y ∷ [])
  Distinct-last [] y d h = (tt, tt)
  Distinct-last (x ∷ xs) y (others, d) h = (
    All-append (λ z. x ≢ z) xs (y ∷ []) others ((λ e. h (inl (sym e))), tt),
    Distinct-last xs y d (λ i. h (inr i)),
  )

  pub In-last_iff : (x y : A) (xs : List A) → In x (xs ++ y ∷ []) ↔ (In x xs ⊎ (x ≡ y))
  In-last_iff x y [] = (
    λ i. inr (elim i [ inl e ↦ e | inr i' ↦ absurd i' ]),
    λ s. inl (elim s [ inl i ↦ absurd i | inr e ↦ e ]),
  )
  In-last_iff x y (z ∷ xs) = (
    λ i. elim i [
      | inl e ↦ inl (inl e)
      | inr i' ↦ elim ((In-last_iff x y xs).0 i') [ inl j ↦ inl (inr j) | inr e ↦ inr e ]
    ],
    λ s. elim s [
      | inl i ↦ elim i [ inl e ↦ inl e | inr j ↦ inr ((In-last_iff x y xs).1 (inl j)) ]
      | inr e ↦ inr ((In-last_iff x y xs).1 (inr e))
    ],
  )
