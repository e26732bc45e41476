-- ===== src/Spec/Deps/Packages.antt =====
-- The packages that loom/crates/loom-workflow/src/spec/deps.rs collects from a file.
use wrapix.Prelude.{
  ◌≡◌, ◌↔◌, ◌⊎◌, inl, inr, sym, ap, subst, ◌∙◌, true, List, [], ◌∷◌, length, ◌<◌, In, All,
  Bool-cases, arith,
}
use wrapix.Prelude.Text.{is_before, Str, str_eq, str_eq_iff}
use wrapix.Spec.Deps.{tools, insert, has_command_use, scan_tools, scan_file_body}
use wrapix.Spec.Deps.Uses.{UsedBehind, has_command_use_iff}

pub In-insert : (p x : Str) (s : List Str) → In p (insert x s) ↔ ((p ≡ x) ⊎ In p s)
unfolding insert
In-insert p x [] = (λ h. h, λ h. h)
In-insert p x (y ∷ ys) = elim (Bool-cases (str_eq x y)) [
  | inl e ↦ rw e (λ h. inr h, λ h. elim h [ inl q ↦ inl (q ∙ (str_eq_iff x y).0 e) | inr m ↦ m ])
  | inr n ↦ elim (Bool-cases (is_before x y)) [
    | inl l ↦ rw (n, l) (λ h. h, λ h. h)
    | inr l ↦
        rw (n, l)
          (
            λ h. elim h [
              | inl q ↦ inr (inl q)
              | inr m ↦ elim ((In-insert p x ys).0 m) [ inl q ↦ inl q | inr k ↦ inr (inr k) ]
            ],
            λ h. elim h [
              | inl q ↦ inr ((In-insert p x ys).1 (inl q))
              | inr m ↦ elim m [ inl q ↦ inl q | inr k ↦ inr ((In-insert p x ys).1 (inr k)) ]
            ],
          )
  ]
]

-- A tool of the list that the file uses, with this package.
abbrev Supplies : Str → List (Str × Str) → Str → Type 0
Supplies body ts p = (tool : Str) × (In (tool, p) ts) × (has_command_use body tool ≡ true)

scan_tools-In :
    (body p : Str) (ts : List (Str × Str)) (out : List Str)
    → In p (scan_tools body ts out) ↔ (In p out ⊎ Supplies body ts p)
unfolding scan_tools
scan_tools-In body p [] out = (λ h. inl h, λ h. elim h [ inl m ↦ m | inr (t, m, u) ↦ absurd m ])
scan_tools-In body p ((tool, pkg) ∷ ts) out = elim (Bool-cases (has_command_use body tool)) [
  | inl e ↦ rw e (
    λ h. elim ((scan_tools-In body p ts (insert pkg out)).0 h) [
      | inl m ↦ elim ((In-insert p pkg out).0 m) [
        | inl q ↦ inr (tool, inl (ap (λ (x : Str). (tool, x)) q), e)
        | inr k ↦ inl k
      ]
      | inr (t, m, u) ↦ inr (t, inr m, u)
    ],
    λ h. (scan_tools-In body p ts (insert pkg out)).1 (elim h [
      | inl k ↦ inl ((In-insert p pkg out).1 (inr k))
      | inr (t, inl q, u) ↦ inl ((In-insert p pkg out).1 (inl (ap (λ (x : Str × Str). x.1) q)))
      | inr (t, inr m, u) ↦ inr (t, m, u)
    ]),
  )
  | inr e ↦ rw e (
    λ h. elim ((scan_tools-In body p ts out).0 h) [
      | inl k ↦ inl k
      | inr (t, m, u) ↦ inr (t, inr m, u)
    ],
    λ h. (scan_tools-In body p ts out).1 (elim h [
      | inl k ↦ inl k
      | inr (t, inl q, u) ↦ absurd (cc (e, u, ap (λ (x : Str × Str). x.0) q))
      | inr (t, inr m, u) ↦ inr (t, m, u)
    ]),
  )
]

named :
    (ts : List (Str × Str)) (tool p : Str)
    → All (λ (e : Str × Str). 0 < length e.0) ts
    → In (tool, p) ts
    → 0 < length tool
named [] tool p h m = absurd m
named (e ∷ ts) tool p (ne, h) (inl q) = subst (λ (x : Str × Str). 0 < length x.0) (sym q) ne
named (e ∷ ts) tool p (ne, h) (inr m) = named ts tool p h m

tools_named : All (λ (e : Str × Str). 0 < length e.0) tools
tools_named = omega arith

-- The packages of a file are exactly those that the table gives to the tools that the file uses: a
-- tool is used where its name stands behind one of the boundaries before a command, or at the start,
-- and before one of those after a command, or at the end.
pub scan_file_body-In :
    (body p : Str)
    → In p (scan_file_body body)
      ↔ ((tool : Str) × (In (tool, p) tools) × UsedBehind tool b'\n' body)
unfolding scan_file_body
scan_file_body-In body p = (
  λ h. elim ((scan_tools-In body p tools []).0 h) [
    | inl m ↦ absurd m
    | inr (tool, m, u) ↦
        (tool, m, (has_command_use_iff body tool (named tools tool p tools_named m)).0 u)
  ],
  λ h.
      let (tool, m, u) = h in
      (scan_tools-In body p tools []).1
        (inr (tool, m, (has_command_use_iff body tool (named tools tool p tools_named m)).1 u)),
)
