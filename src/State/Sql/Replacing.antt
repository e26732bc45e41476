-- ===== src/State/Sql/Replacing.antt =====
-- The companions of one label are replaced in the table that loom/crates/loom-core/src/state keeps.
use wrapix.Prelude.{◌≡◌, refl, ap, ◌∙◌, false, List, [], ◌∷◌, inl, inr, Bool-cases}
use wrapix.Prelude.Text.{Str, str_eq, str_eq_iff}
use wrapix.State.Sql.Sqlite.{drop_companions, add_companion, paths_of}
use wrapix.State.Sql.Companions.{stored, added}

drop_other :
    (label l : Str) (rows : List (Str × Str))
    → str_eq l label ≡ false
    → paths_of label (drop_companions l rows) ≡ paths_of label rows
unfolding paths_of drop_companions
drop_other label l [] ne = refl
drop_other label l ((m, p) ∷ rows) ne = elim (Bool-cases (str_eq m l)) [
  | inl e ↦ elim (Bool-cases (str_eq m label)) [
    | inl f ↦ cc (ne, (str_eq_iff m l).0 e, f)
    | inr f ↦ rw (e, f) (drop_other label l rows ne)
  ]
  | inr e ↦ elim (Bool-cases (str_eq m label)) [
    | inl f ↦ rw (e, f) (ap (λ (t : List Str). p ∷ t) (drop_other label l rows ne))
    | inr f ↦ rw (e, f) (drop_other label l rows ne)
  ]
]

-- No companions of the label are left.
pub drop_same : (l : Str) (rows : List (Str × Str)) → paths_of l (drop_companions l rows) ≡ []
unfolding paths_of drop_companions
drop_same l [] = refl
drop_same l ((m, p) ∷ rows) = elim (Bool-cases (str_eq m l)) [
  | inl e ↦ rw e (drop_same l rows)
  | inr e ↦ rw (e, e) (drop_same l rows)
]

stored_other :
    (label l : Str) (ps : List Str) (rows : List (Str × Str))
    → str_eq l label ≡ false
    → paths_of label (stored l ps rows) ≡ paths_of label rows
stored_other label l [] rows ne = refl
stored_other label l (p ∷ ps) rows ne =
    stored_other label l ps (add_companion l p rows) ne
    ∙ elim (added label l p rows) [ inl (f, new, e) ↦ cc (ne, f) | inr (e, why) ↦ e ]

-- The companions of the other labels stay.
pub replaced_other :
    (label l : Str) (ps : List Str) (rows : List (Str × Str))
    → str_eq l label ≡ false
    → paths_of label (stored l ps (drop_companions l rows)) ≡ paths_of label rows
replaced_other label l ps rows ne =
    stored_other label l ps (drop_companions l rows) ne ∙ drop_other label l rows ne
