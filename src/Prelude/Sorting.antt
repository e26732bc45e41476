-- ===== src/Prelude/Sorting.antt =====
-- Sorting by a text: `slice::sort_by_key`, and `ORDER BY` of SQL. The order of two texts is that of
-- their code points, as of their bytes.
use mathlib.Core.Path.{◌≡◌, refl}
use mathlib.Core.Logic.{◌↔◌, ◌⊎◌, inl, inr}
use mathlib.Core.Bool.{Bool, true, false}
use mathlib.Core.List.{List, [], ◌∷◌, Perm}
use mathlib.Core.List.Perm
use native.Mathlib.Omega.{arith}
use wrapix.Prelude.Tests.{if◌then◌else◌, Bool-cases}
use wrapix.Prelude.Lists.{In}
use wrapix.Prelude.Text.{Str, is_before}

asymmetric : (s t : Str) → is_before s t ≡ true → is_before t s ≡ false
asymmetric s [] h = cc h
asymmetric [] (d ∷ t) h = refl
asymmetric (c ∷ s) (d ∷ t) h = ground (arith, asymmetric s t)

module _ {A : Type 0} (key : A → Str) where
  abbrev pub Ordered : List A → Type 0
  Ordered [] = Unit
  Ordered (x ∷ []) = Unit
  Ordered (x ∷ y ∷ rest) = (is_before (key y) (key x) ≡ false) × Ordered (y ∷ rest)

  insert : A → List A → List A
  insert x [] = x ∷ []
  insert x (y ∷ rest) =
      let later = insert x rest in if is_before (key y) (key x) then y ∷ later else x ∷ y ∷ rest

  -- Elements with the same key keep their order.
  unfoldable pub sort_by : List A → List A
  unfolding insert
  sort_by [] = []
  sort_by (x ∷ rest) = insert x (sort_by rest)

  insert-Perm : (x : A) (rest : List A) → Perm (insert x rest) (x ∷ rest)
  unfolding insert
  insert-Perm x [] = Perm.refl _
  insert-Perm x (y ∷ rest) = elim (Bool-cases (is_before (key y) (key x))) [
    | inl e ↦ rw e (Perm.trans (Perm.cons y (insert-Perm x rest)) (Perm.swap x y rest))
    | inr e ↦ rw e (Perm.refl _)
  ]

  pub sort_by-Perm : (l : List A) → Perm (sort_by l) l
  unfolding sort_by
  sort_by-Perm [] = Perm.refl _
  sort_by-Perm (x ∷ rest) =
      Perm.trans (insert-Perm x (sort_by rest)) (Perm.cons x (sort_by-Perm rest))

  -- What is put behind `y`, with `x` or `z` in front.
  behind :
      (x y z : A) (longer rest : List A) (b : Bool)
      → is_before (key y) (key x) ≡ true
      → is_before (key z) (key y) ≡ false
      → Ordered (if b then z ∷ longer else x ∷ z ∷ rest)
      → Ordered (y ∷ (if b then z ∷ longer else x ∷ z ∷ rest))
  behind x y z longer rest true e o later = (o, later)
  behind x y z longer rest false e o later = (asymmetric (key y) (key x) e, later)

  insert-Ordered : (x : A) (rest : List A) → Ordered rest → Ordered (insert x rest)
  unfolding insert
  insert-Ordered x [] o = tt
  insert-Ordered x (y ∷ []) o = elim (Bool-cases (is_before (key y) (key x))) [
    | inl e ↦ rw e (asymmetric (key y) (key x) e, tt)
    | inr e ↦ rw e (e, tt)
  ]
  insert-Ordered x (y ∷ z ∷ rest) (o, os) = elim (Bool-cases (is_before (key y) (key x))) [
    | inl e ↦ rw e (
        behind x y z (insert x rest) rest (is_before (key z) (key x)) e o
          (insert-Ordered x (z ∷ rest) os))
    | inr e ↦ rw e (e, (o, os))
  ]

  pub sort_by-Ordered : (l : List A) → Ordered (sort_by l)
  unfolding sort_by
  sort_by-Ordered [] = tt
  sort_by-Ordered (x ∷ rest) = insert-Ordered x (sort_by rest) (sort_by-Ordered rest)

  insert-In : (x y : A) (rest : List A) → In x (insert y rest) ↔ ((x ≡ y) ⊎ In x rest)
  unfolding insert
  insert-In x y [] = (λ i. i, λ i. i)
  insert-In x y (z ∷ rest) = elim (Bool-cases (is_before (key z) (key y))) [
    | inl e ↦ rw e (
      λ i. elim i [
        | inl q ↦ inr (inl q)
        | inr j ↦ elim ((insert-In x y rest).0 j) [ inl q ↦ inl q | inr k ↦ inr (inr k) ]
      ],
      λ s. elim s [
        | inl q ↦ inr ((insert-In x y rest).1 (inl q))
        | inr i ↦ elim i [ inl q ↦ inl q | inr k ↦ inr ((insert-In x y rest).1 (inr k)) ]
      ],
    )
    | inr e ↦ rw e (λ i. i, λ i. i)
  ]

  pub sort_by-In : (x : A) (l : List A) → In x (sort_by l) ↔ In x l
  unfolding sort_by
  sort_by-In x [] = (λ i. i, λ i. i)
  sort_by-In x (y ∷ rest) = (
    λ i. elim ((insert-In x y (sort_by rest)).0 i) [
      | inl q ↦ inl q
      | inr j ↦ inr ((sort_by-In x rest).0 j)
    ],
    λ i.
        (insert-In x y (sort_by rest)).1
          (elim i [ inl q ↦ inl q | inr j ↦ inr ((sort_by-In x rest).1 j) ]),
  )
