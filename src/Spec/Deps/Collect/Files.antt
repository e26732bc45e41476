-- ===== src/Spec/Deps/Collect/Files.antt =====
-- The files and packages that loom/crates/loom-workflow/src/spec/deps.rs puts into sets.
use wrapix.Prelude.{
  ◌≡◌, ◌⊎◌, ◌↔◌, refl, sym, ap, ◌∙◌, subst, Option, none, some, List, [], ◌∷◌, In, inl, inr,
  Bool-cases,
}
use wrapix.Prelude.Text.{Str}
use wrapix.Prelude.Exec.{Result, ok, err}
use wrapix.Prelude.Components.{PathBuf, path_eq, path_eq_iff, path_before}
use wrapix.Spec.Annotations.{Annotation}
use wrapix.Spec.Deps.{insert, scan_file_body}
use wrapix.Spec.Deps.Packages.{In-insert}
use wrapix.Spec.Deps.Collect.{file_if, insert_file, insert_if, files_of, insert_all}

insert_file-In :
    (f g : PathBuf) (files : List PathBuf) → In f (insert_file g files) ↔ ((f ≡ g) ⊎ In f files)
unfolding insert_file
insert_file-In f g [] = (λ h. h, λ h. h)
insert_file-In f g (h ∷ files) = elim (Bool-cases (path_eq g h)) [
  | inl e ↦ rw e (λ i. inr i, λ s. elim s [ inl q ↦ inl (q ∙ (path_eq_iff g h).0 e) | inr i ↦ i ])
  | inr e ↦ elim (Bool-cases (path_before g h)) [
    | inl b ↦ rw (e, b) (λ i. i, λ i. i)
    | inr b ↦
        rw (e, b)
          (
            λ i. elim i [
              | inl q ↦ inr (inl q)
              | inr j ↦ elim ((insert_file-In f g files).0 j) [
                | inl q ↦ inl q
                | inr k ↦ inr (inr k)
              ]
            ],
            λ s. elim s [
              | inl q ↦ inr ((insert_file-In f g files).1 (inl q))
              | inr i ↦ elim i [
                | inl q ↦ inl q
                | inr k ↦ inr ((insert_file-In f g files).1 (inr k))
              ]
            ],
          )
  ]
]

-- A row that is verified or judged by the file.
abbrev pub Linked : PathBuf → List Annotation → Type 0
Linked f annotations =
    (ann : Annotation) × In ann annotations × (file_if ann.kind ann.file ≡ some f)

insert_if-In :
    (f : PathBuf) (o : Option PathBuf) (files : List PathBuf)
    → In f (insert_if o files) ↔ ((o ≡ some f) ⊎ In f files)
insert_if-In f none files = (λ i. inr i, λ s. elim s [ inl e ↦ cc e | inr i ↦ i ])
insert_if-In f (some g) files = (
  λ i. elim ((insert_file-In f g files).0 i) [ inl q ↦ inl (ap some (sym q)) | inr j ↦ inr j ],
  λ s. (insert_file-In f g files).1 (elim s [ inl e ↦ inl (cc e) | inr j ↦ inr j ]),
)

pub files_of-In :
    (f : PathBuf) (annotations : List Annotation) (files : List PathBuf)
    → In f (files_of annotations files) ↔ (Linked f annotations ⊎ In f files)
unfolding files_of
files_of-In f [] files = (λ i. inr i, λ s. elim s [ inl (a, i, e) ↦ absurd i | inr i ↦ i ])
files_of-In f (ann ∷ annotations) files = (
  λ i. elim ((files_of-In f annotations _).0 i) [
    | inl (a, at, e) ↦ inl (a, inr at, e)
    | inr j ↦ elim ((insert_if-In f (file_if ann.kind ann.file) files).0 j) [
      | inl e ↦ inl (ann, inl refl, e)
      | inr k ↦ inr k
    ]
  ],
  λ s. (files_of-In f annotations _).1 (elim s [
    | inl (a, at, e) ↦ elim at [
      | inl q ↦ inr (
          (insert_if-In f (file_if ann.kind ann.file) files).1
            (inl (subst (λ (x : Annotation). file_if x.kind x.file ≡ some f) q e)))
      | inr later ↦ inl (a, later, e)
    ]
    | inr k ↦ inr ((insert_if-In f (file_if ann.kind ann.file) files).1 (inr k))
  ]),
)

insert_all-In :
    (p : Str) (ps packages : List Str) → In p (insert_all ps packages) ↔ (In p ps ⊎ In p packages)
unfolding insert_all
insert_all-In p [] packages = (λ i. inr i, λ s. elim s [ inl i ↦ absurd i | inr i ↦ i ])
insert_all-In p (q ∷ ps) packages = (
  λ i. elim ((insert_all-In p ps (insert q packages)).0 i) [
    | inl j ↦ inl (inr j)
    | inr j ↦ elim ((In-insert p q packages).0 j) [ inl e ↦ inl (inl e) | inr k ↦ inr k ]
  ],
  λ s. (insert_all-In p ps (insert q packages)).1 (elim s [
    | inl j ↦ elim j [ inl e ↦ inr ((In-insert p q packages).1 (inl e)) | inr k ↦ inl k ]
    | inr k ↦ inr ((In-insert p q packages).1 (inr k))
  ]),
)

abbrev pub with_packages : {I : Type 0} → Option (Result I Str) → List Str → List Str
with_packages none packages = packages
with_packages (some (err e)) packages = packages
with_packages (some (ok body)) packages = insert_all (scan_file_body body) packages

abbrev pub Supplied : {I : Type 0} → Option (Result I Str) → Str → Type 0
Supplied none p = ⊥
Supplied (some (err e)) p = ⊥
Supplied (some (ok body)) p = In p (scan_file_body body)

pub with_packages-In :
    {I : Type 0} (o : Option (Result I Str)) (p : Str) (packages : List Str)
    → In p (with_packages o packages) ↔ (Supplied o p ⊎ In p packages)
with_packages-In none p packages = (λ i. inr i, λ s. elim s [ inl x ↦ absurd x | inr i ↦ i ])
with_packages-In (some (err e)) p packages =
    (λ i. inr i, λ s. elim s [ inl x ↦ absurd x | inr i ↦ i ])
with_packages-In (some (ok body)) p packages = insert_all-In p (scan_file_body body) packages
