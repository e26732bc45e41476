-- ===== src/Spec/Deps/Collect/Found.antt =====
-- What `collect_deps` of loom/crates/loom-workflow/src/spec/deps.rs finds.
use wrapix.Prelude.{
  ◌≡◌, ◌≢◌, ◌⊎◌, ◌↔◌, refl, sym, ap, ◌∙◌, subst, Option, none, some, List, [], ◌∷◌, In, inl, inr,
}
use wrapix.Spec.Deps.Collect.Files.{Linked, files_of-In, with_packages, Supplied, with_packages-In}
use wrapix.Prelude.Text.{Str}
use wrapix.Prelude.Exec.{Result, ok, err}
use wrapix.Prelude.Components.{PathBuf, join}
use wrapix.Spec.Annotations.{Annotation, SpecError, io, no_success_criteria}
use wrapix.Spec.Deps.{tools, scan_file_body}
use wrapix.Spec.Deps.Uses.{UsedBehind}
use wrapix.Spec.Deps.Packages.{scan_file_body-In}
use wrapix.Spec.Deps.Collect.{files_of, insert_all, scanned, collect_from, collect_deps}

module _ {I : Type 0} (read : PathBuf → Option (Result I Str)) (workspace : PathBuf) where
  -- A file among these that is there and has the package.
  abbrev Has : List PathBuf → Str → Type 0
  Has files p = (f : PathBuf) × In f files × Supplied (read (join workspace f)) p

  abbrev Readable : List PathBuf → Type 0
  Readable files = (f : PathBuf) (e : I) → In f files → read (join workspace f) ≢ some (err e)

  abbrev From : List PathBuf → List Str → Result (SpecError I) (List Str) → Type 0
  From files packages (ok out) =
      Readable files × ((p : Str) → In p out ↔ (Has files p ⊎ In p packages))
  From files packages (err (io path e)) =
      (f : PathBuf) × In f files
      × (path ≡ join workspace f)
      × (read (join workspace f) ≡ some (err e))
  From files packages (err (no_success_criteria path)) = ⊥

  more :
      (f : PathBuf) (files : List PathBuf) (packages : List Str) (o : Option (Result I Str))
      (r : Result (SpecError I) (List Str))
      → read (join workspace f) ≡ o
      → From files (with_packages o packages) r
      → ((e : I) → o ≢ some (err e))
      → From (f ∷ files) packages r
  more f files packages o (ok out) at (readable, iff) fine = (
    λ g e i h. elim i [
      | inl q ↦ fine e (sym at ∙ ap (λ (x : PathBuf). read (join workspace x)) (sym q) ∙ h)
      | inr j ↦ readable g e j h
    ],
    λ p. (
      λ i. elim ((iff p).0 i) [
        | inl (g, j, has) ↦ inl (g, inr j, has)
        | inr j ↦ elim ((with_packages-In o p packages).0 j) [
          | inl here ↦
              inl (f, inl refl, subst (λ (x : Option (Result I Str)). Supplied x p) (sym at) here)
          | inr k ↦ inr k
        ]
      ],
      λ s. (iff p).1 (elim s [
        | inl (g, i, has) ↦ elim i [
          | inl q ↦ inr (
              (with_packages-In o p packages).1 (
                inl (
                  subst (λ (x : Option (Result I Str)). Supplied x p)
                    (ap (λ (x : PathBuf). read (join workspace x)) q ∙ at) has)))
          | inr j ↦ inl (g, j, has)
        ]
        | inr k ↦ inr ((with_packages-In o p packages).1 (inr k))
      ]),
    ),
  )
  more f files packages o (err (io path e)) at (g, i, same, failed) fine = (g, inr i, same, failed)
  more f files packages o (err (no_success_criteria path)) at h fine = h

  collect-From :
      (files : List PathBuf) (packages : List Str)
      → From files packages (collect_from read workspace files packages)
  unfolding collect_from
  collect-From [] packages = (
    λ f e i h. absurd i,
    λ p. (λ i. inr i, λ s. elim s [ inl (f, at, h) ↦ absurd at | inr i ↦ i ]),
  )
  collect-From (f ∷ files) packages = by_file (read (join workspace f)) refl (collect-From files)
    where
      by_file :
          (o : Option (Result I Str))
          → read (join workspace f) ≡ o
          → ((packages : List Str)
              → From files packages (collect_from read workspace files packages))
          → From
              (f ∷ files)
              packages
              (scanned read (join workspace f) o (collect_from read workspace files) packages)
      by_file none at h = more f files packages none _ at (h packages) (λ e q. cc q)
      by_file (some (ok body)) at h =
          more f files packages (some (ok body)) _ at
            (h (insert_all (scan_file_body body) packages)) (λ e q. cc q)
      by_file (some (err e)) at h = (f, inl refl, refl, at)

  -- The use of a tool with the package, in a file that is there.
  abbrev pub Uses : Option (Result I Str) → Str → Type 0
  Uses none p = ⊥
  Uses (some (err e)) p = ⊥
  Uses (some (ok body)) p = (tool : Str) × In (tool, p) tools × UsedBehind tool b'\n' body

  Supplied-Uses : (o : Option (Result I Str)) (p : Str) → Supplied o p ↔ Uses o p
  Supplied-Uses none p = (λ x. x, λ x. x)
  Supplied-Uses (some (err e)) p = (λ x. x, λ x. x)
  Supplied-Uses (some (ok body)) p = scan_file_body-In body p

  -- What is collected for the rows.
  abbrev pub Collected : List Annotation → Result (SpecError I) (List Str) → Type 0
  Collected annotations (ok out) =
      ((f : PathBuf) (e : I) → Linked f annotations → read (join workspace f) ≢ some (err e))
      × ((p : Str)
          → In p out ↔ ((f : PathBuf) × Linked f annotations × Uses (read (join workspace f)) p))
  Collected annotations (err (io path e)) =
      (f : PathBuf) × Linked f annotations × (path ≡ join workspace f) × (read path ≡ some (err e))
  Collected annotations (err (no_success_criteria path)) = ⊥

  from-Collected :
      (annotations : List Annotation) (r : Result (SpecError I) (List Str))
      → From (files_of annotations []) [] r
      → Collected annotations r
  from-Collected annotations (ok out) (readable, iff) = (
    λ f e l h. readable f e ((files_of-In f annotations []).1 (inl l)) h,
    λ p. (
      λ i. elim ((iff p).0 i) [
        | inl (f, j, has) ↦ (
          f,
          linked f ((files_of-In f annotations []).0 j),
          (Supplied-Uses (read (join workspace f)) p).0 has,
        )
        | inr j ↦ absurd j
      ],
      λ (f, l, has). (iff p).1 (
          inl (
            f,
            (files_of-In f annotations []).1 (inl l),
            (Supplied-Uses (read (join workspace f)) p).1 has,
          )),
    ),
  )
    where
      linked : (f : PathBuf) → Linked f annotations ⊎ In f [] → Linked f annotations
      linked f (inl l) = l
      linked f (inr i) = absurd i
  from-Collected annotations (err (io path e)) (f, i, same, failed) = (
    f,
    elim ((files_of-In f annotations []).0 i) [ inl l ↦ l | inr j ↦ absurd j ],
    same,
    ap read same ∙ failed,
  )
  from-Collected annotations (err (no_success_criteria path)) h = h

  -- The packages are exactly those of the tools that a file of a row that is verified or judged uses;
  -- a file that is not there is passed over, and one that cannot be read is the error. A tool is used
  -- where its name stands behind one of the boundaries before a command, or at the start, and before
  -- one of those after a command, or at the end.
  pub collect_deps-Collected :
      (annotations : List Annotation)
      → Collected annotations (collect_deps read workspace annotations)
  unfolding collect_deps
  collect_deps-Collected annotations =
      from-Collected annotations (collect_from read workspace (files_of annotations []) [])
        (collect-From (files_of annotations []) [])
