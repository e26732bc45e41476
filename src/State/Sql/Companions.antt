-- ===== src/State/Sql/Companions.antt =====
-- The table of the companions, which loom/crates/loom-core/src/state writes row by row.
use wrapix.Prelude.{
  ◌+◌, ◌≤◌, ◌≡◌, ◌⊎◌, ◌↔◌, refl, sym, ap, ◌∙◌, subst, true, false, List, [], ◌∷◌, ◌++◌, In,
  Distinct, Distinct-last, In-last_iff, length, length-append, inl, inr, Bool-cases, arith,
  append-nil,
}
use wrapix.Prelude.Text.{Str, str_eq, str_eq_iff, str_eq_refl}
use wrapix.State.Sql.Sqlite.{has_row, add_companion, paths_of}

abbrev pub stored : Str → List Str → List (Str × Str) → List (Str × Str)
stored label [] rows = rows
stored label (path ∷ paths) rows = stored label paths (add_companion label path rows)

paths_of-append :
    (label : Str) (a b : List (Str × Str))
    → paths_of label (a ++ b) ≡ paths_of label a ++ paths_of label b
unfolding paths_of
paths_of-append label [] b = refl
paths_of-append label ((l, p) ∷ a) b = elim (Bool-cases (str_eq l label)) [
  | inl e ↦ rw (e, paths_of-append label a b) refl
  | inr e ↦ rw (e, paths_of-append label a b) refl
]

-- A row is there exactly if the path is among those of the label.
has_row_iff :
    (label path : Str) (rows : List (Str × Str))
    → (has_row label path rows ≡ true) ↔ In path (paths_of label rows)
unfolding has_row paths_of
has_row_iff label path [] = (λ e. cc e, λ i. absurd i)
has_row_iff label path ((l, p) ∷ rows) = elim (Bool-cases (str_eq l label)) [
  | inl e ↦ elim (Bool-cases (str_eq p path)) [
    | inl f ↦ rw (e, f) (λ h. inl (sym ((str_eq_iff p path).0 f)), λ i. refl)
    | inr f ↦
        rw (e, f)
          (
            λ h. inr ((has_row_iff label path rows).0 h),
            λ i. elim i [
              | inl g ↦ cc (f, g, str_eq_refl p)
              | inr j ↦ (has_row_iff label path rows).1 j
            ],
          )
  ]
  | inr e ↦ rw e (has_row_iff label path rows)
]

same_label : (label : Str) (l p : Str) → l ≡ label → paths_of label ((l, p) ∷ []) ≡ p ∷ []
unfolding paths_of
same_label label l p e = rw ((str_eq_iff l label).1 e) refl

other_label : (label : Str) (l p : Str) → str_eq l label ≡ false → paths_of label ((l, p) ∷ []) ≡ []
unfolding paths_of
other_label label l p e = rw e refl

-- The paths of a label after a row is added.
pub added :
    (label l p : Str) (rows : List (Str × Str))
    → ((str_eq l label ≡ true)
        × (In p (paths_of label rows) → ⊥)
        × (paths_of label (add_companion l p rows) ≡ paths_of label rows ++ p ∷ []))
      ⊎ ((paths_of label (add_companion l p rows) ≡ paths_of label rows)
          × ((str_eq l label ≡ false) ⊎ In p (paths_of label rows)))
unfolding add_companion
added label l p rows = elim (Bool-cases (has_row l p rows)) [
  | inl e ↦ elim (Bool-cases (str_eq l label)) [
    | inl f ↦ rw e (
        inr (
          refl,
          inr (
              subst (λ (m : Str). In p (paths_of m rows)) ((str_eq_iff l label).0 f)
                ((has_row_iff l p rows).0 e)),
        ))
    | inr f ↦ rw e (inr (refl, inl f))
  ]
  | inr e ↦ elim (Bool-cases (str_eq l label)) [
    | inl f ↦ rw e (
        inl (
          f,
          (λ i. cc (
            e,
            (has_row_iff l p rows).1
                (subst (λ (m : Str). In p (paths_of m rows)) (sym ((str_eq_iff l label).0 f)) i),
          )),
          paths_of-append label rows ((l, p) ∷ [])
              ∙ ap (λ (t : List Str). paths_of label rows ++ t)
                  (same_label label l p ((str_eq_iff l label).0 f)),
        ))
    | inr f ↦ rw e (
        inr (
          paths_of-append label rows ((l, p) ∷ [])
              ∙ ap (λ (t : List Str). paths_of label rows ++ t) (other_label label l p f)
              ∙ append-nil (paths_of label rows),
          inl f,
        ))
  ]
]

add-Distinct :
    (label l p : Str) (rows : List (Str × Str))
    → Distinct (paths_of label rows)
    → Distinct (paths_of label (add_companion l p rows))
add-Distinct label l p rows d = elim (added label l p rows) [
  | inl (f, new, e) ↦ subst Distinct (sym e) (Distinct-last (paths_of label rows) p d new)
  | inr (e, why) ↦ subst Distinct (sym e) d
]

add-In :
    (label l p q : Str) (rows : List (Str × Str))
    → In q (paths_of label (add_companion l p rows))
      ↔ (In q (paths_of label rows) ⊎ ((str_eq l label ≡ true) × (q ≡ p)))
add-In label l p q rows = elim (added label l p rows) [
  | inl (f, new, e) ↦ rw e (
    λ i. elim ((In-last_iff q p (paths_of label rows)).0 i) [ inl j ↦ inl j | inr g ↦ inr (f, g) ],
    λ s. (In-last_iff q p (paths_of label rows)).1 (elim s [ inl j ↦ inl j | inr g ↦ inr g.1 ]),
  )
  | inr (e, why) ↦ rw e (
    λ i. inl i,
    λ s. elim s [
      | inl j ↦ j
      | inr g ↦ elim why [
        | inl f ↦ cc (f, g.0)
        | inr there ↦ subst (λ (x : Str). In x (paths_of label rows)) (sym g.1) there
      ]
    ],
  )
]

pub stored-Distinct :
    (label l : Str) (ps : List Str) (rows : List (Str × Str))
    → Distinct (paths_of label rows)
    → Distinct (paths_of label (stored l ps rows))
stored-Distinct label l [] rows d = d
stored-Distinct label l (p ∷ ps) rows d =
    stored-Distinct label l ps (add_companion l p rows) (add-Distinct label l p rows d)

pub stored-In :
    (label l q : Str) (ps : List Str) (rows : List (Str × Str))
    → In q (paths_of label (stored l ps rows))
      ↔ (In q (paths_of label rows) ⊎ ((str_eq l label ≡ true) × In q ps))
stored-In label l q [] rows = (λ i. inl i, λ s. elim s [ inl i ↦ i | inr (e, i) ↦ absurd i ])
stored-In label l q (p ∷ ps) rows = (
  λ i. elim ((stored-In label l q ps (add_companion l p rows)).0 i) [
    | inl j ↦ elim ((add-In label l p q rows).0 j) [ inl k ↦ inl k | inr (f, e) ↦ inr (f, inl e) ]
    | inr (f, j) ↦ inr (f, inr j)
  ],
  λ s. (stored-In label l q ps (add_companion l p rows)).1 (elim s [
    | inl k ↦ inl ((add-In label l p q rows).1 (inl k))
    | inr (f, i) ↦ elim i [
      | inl e ↦ inl ((add-In label l p q rows).1 (inr (f, e)))
      | inr j ↦ inr (f, j)
    ]
  ]),
)

add-length :
    (l p : Str) (rows : List (Str × Str)) → length (add_companion l p rows) ≤ length rows + 1
unfolding add_companion
add-length l p rows = elim (Bool-cases (has_row l p rows)) [
  | inl e ↦ rw e (omega arith)
  | inr e ↦ rw e (omega (arith, length-append rows ((l, p) ∷ [])))
]

pub stored-length :
    (l : Str) (ps : List Str) (rows : List (Str × Str))
    → length (stored l ps rows) ≤ length rows + length ps
stored-length l [] rows = omega arith
stored-length l (p ∷ ps) rows =
    omega (arith, stored-length l ps (add_companion l p rows), add-length l p rows)
