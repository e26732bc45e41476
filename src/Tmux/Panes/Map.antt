-- ===== src/Tmux/Panes/Map.antt =====
-- A hash map with texts as keys, as an association list.
use wrapix.Prelude.{
  ◌≡◌, refl, inl, inr, Option, none, some, List, [], ◌∷◌, if◌then◌else◌, Bool-cases, arith,
}
use wrapix.Prelude.Text.{Str, str_eq, str_eq_iff}

module _ {V : Type 0} where
  unfoldable pub get : Str → List (Str × V) → Option V
  get k [] = none
  get k ((j, v) ∷ m) = let rest = get k m in if str_eq j k then some v else rest

  unfoldable pub remove : Str → List (Str × V) → List (Str × V)
  remove k [] = []
  remove k ((j, v) ∷ m) = let rest = remove k m in if str_eq j k then rest else (j, v) ∷ rest

  unfoldable pub insert : Str → V → List (Str × V) → List (Str × V)
  insert k v [] = (k, v) ∷ []
  insert k v ((j, w) ∷ m) =
      let rest = insert k v m in if str_eq j k then (k, v) ∷ m else (j, w) ∷ rest

  pub get-insert :
      (k j : Str) (v : V) (m : List (Str × V))
      → get j (insert k v m) ≡ (if str_eq k j then some v else get j m)
  unfolding get insert
  get-insert k j v [] = ground arith
  get-insert k j v ((i, w) ∷ m) =
      ground (arith, str_eq_iff k j, str_eq_iff i k, str_eq_iff i j, get-insert k j v m)

  pub get-remove :
      (k j : Str) (m : List (Str × V)) → get j (remove k m) ≡ (if str_eq k j then none else get j m)
  unfolding get remove
  get-remove k j [] = ground arith
  get-remove k j ((i, w) ∷ m) =
      ground (arith, str_eq_iff k j, str_eq_iff i k, str_eq_iff i j, get-remove k j m)

  -- A key has one entry at most.
  abbrev pub Distinct : List (Str × V) → Type 0
  Distinct [] = Unit
  Distinct ((k, v) ∷ m) = (get k m ≡ none) × Distinct m

  pub Distinct-insert :
      (k : Str) (v : V) (m : List (Str × V)) → Distinct m → Distinct (insert k v m)
  unfolding insert get
  Distinct-insert k v [] h = (refl, tt)
  Distinct-insert k v ((j, w) ∷ m) (new, h) = elim (Bool-cases (str_eq j k)) [
    | inl e ↦ rw e (ground (arith, str_eq_iff j k), h)
    | inr e ↦ rw e (
      rw (get-insert k j v m) (ground (arith, str_eq_iff j k, str_eq_iff k j)),
      Distinct-insert k v m h,
    )
  ]

  pub Distinct-remove : (k : Str) (m : List (Str × V)) → Distinct m → Distinct (remove k m)
  unfolding remove
  Distinct-remove k [] h = tt
  Distinct-remove k ((j, w) ∷ m) (new, h) = elim (Bool-cases (str_eq j k)) [
    | inl e ↦ rw e (Distinct-remove k m h)
    | inr e ↦ rw e (
      rw (get-remove k j m) (ground (arith, str_eq_iff j k, str_eq_iff k j)),
      Distinct-remove k m h,
    )
  ]
