-- ===== src/Check/Gate/Snapshot.antt =====
-- `diff_new_bead_ids` of loom/crates/loom-workflow/src/check/verdict.rs: the beads that appeared
-- between two snapshots.
use mathlib.Core.List.{Sublistᴰ}
use wrapix.Prelude.{◌≡◌, refl, ◌↔◌, ◌⊎◌, inl, inr, true, false, List, [], ◌∷◌, Bool-cases, arith}
use wrapix.Prelude.Text.{str_eq, str_eq_iff}
use wrapix.Core.BeadId.{BeadId}
use wrapix.Check.Gate.{contains_id, diff_new_bead_ids}

-- `id` stands in the list; the value says where.
abbrev pub In : BeadId → List BeadId → Type 0
In id [] = ⊥
In id (x ∷ xs) = (id ≡ x) ⊎ In id xs

contains_id-In : (id : BeadId) (known : List BeadId) → contains_id known id ≡ true → In id known
unfolding contains_id
contains_id-In id [] h = cc h
contains_id-In id (x ∷ xs) h = elim (Bool-cases (str_eq id x)) [
  | inl e ↦ inl ((str_eq_iff id x).0 e)
  | inr e ↦ inr (contains_id-In id xs (ground arith))
]

In-contains_id : (id : BeadId) (known : List BeadId) → In id known → contains_id known id ≡ true
unfolding contains_id
In-contains_id id [] h = absurd h
In-contains_id id (x ∷ xs) (inl e) = rw ((str_eq_iff id x).1 e)
In-contains_id id (x ∷ xs) (inr m) = ground (arith, In-contains_id id xs m)

module _ (before : List BeadId) where
  fresh_first :
      (id x : BeadId) (xs : List BeadId)
      → contains_id before x ≡ false
      → (In id (diff_new_bead_ids before xs) → In id xs × ¬ In id before)
      → (id ≡ x) ⊎ In id (diff_new_bead_ids before xs)
      → In id (x ∷ xs) × ¬ In id before
  fresh_first id x xs new rest (inl e) = (inl e, λ m. cc (new, e, In-contains_id id before m))
  fresh_first id x xs new rest (inr m) = let (later, fresh) = rest m in (inr later, fresh)

  diff_sound :
      (id : BeadId) (after : List BeadId)
      → In id (diff_new_bead_ids before after)
      → In id after × ¬ In id before
  unfolding diff_new_bead_ids
  diff_sound id [] h = absurd h
  diff_sound id (x ∷ xs) h = elim (Bool-cases (contains_id before x)) [
    | inl old ↦ let (m, new) = diff_sound id xs (rw old at h) in (inr m, new)
    | inr new ↦ fresh_first id x xs new (diff_sound id xs) (rw new at h)
  ]

  diff_complete :
      (id : BeadId) (after : List BeadId)
      → In id after
      → ¬ In id before
      → In id (diff_new_bead_ids before after)
  unfolding diff_new_bead_ids
  diff_complete id [] m new = m
  diff_complete id (x ∷ xs) (inl e) new = elim (Bool-cases (contains_id before x)) [
    | inl old ↦ absurd (new (contains_id-In id before (rw e old)))
    | inr fresh ↦ rw fresh (inl e)
  ]
  diff_complete id (x ∷ xs) (inr m) new = elim (Bool-cases (contains_id before x)) [
    | inl old ↦ rw old (diff_complete id xs m new)
    | inr fresh ↦ rw fresh (inr (diff_complete id xs m new))
  ]

  diff_ordered : (after : List BeadId) → Sublistᴰ (diff_new_bead_ids before after) after
  unfolding diff_new_bead_ids
  diff_ordered [] = Sublistᴰ.slnil
  diff_ordered (x ∷ xs) = elim (Bool-cases (contains_id before x)) [
    | inl old ↦ rw old (Sublistᴰ.cons (diff_ordered xs))
    | inr fresh ↦ rw fresh (Sublistᴰ.cons-cons refl (diff_ordered xs))
  ]

-- The new ids are exactly those of the second snapshot that the first one lacks, in the order of
-- the second snapshot.
pub diff_new_bead_ids-exact :
    (before after : List BeadId)
    → ((id : BeadId) → In id (diff_new_bead_ids before after) ↔ (In id after × ¬ In id before))
      × Sublistᴰ (diff_new_bead_ids before after) after
diff_new_bead_ids-exact before after = (
  λ id. (diff_sound before id after, λ h. diff_complete before id after h.0 h.1),
  diff_ordered before after,
)
