-- ===== src/State/Rebuild/Files.antt =====
-- The spec files that loom/crates/loom-core/src/state/rebuild.rs takes from the directory.
use wrapix.Prelude.{
  ◌≡◌, ◌↔◌, refl, sym, ap, ap₂, ◌∙◌, subst, Bool, true, false, Option, none, some, List, [], ◌∷◌,
  In, inl, inr, if◌then◌else◌,
}
use wrapix.Prelude.Text.{Str}
use wrapix.Prelude.Paths.{file_stem, extension}
use wrapix.Prelude.Sorting.{Ordered, sort_by-Ordered, sort_by-In}
use wrapix.Prelude.Exec.{Result, ok, err}
use wrapix.State.Rebuild.{
  SpecFile, Entry, SpecsDir, missing, unreadable, entries, label_of, is_md, spec_file, read_file,
  read_entry, read_entries, sorted, collect_spec_files,
}

abbrev name_in : Str → Option Str → Str
name_in d (some name) = name
name_in d none = d

module _ {I : Type 0} where
  -- A regular file `<stem>.md`, with the given content.
  abbrev pub Holds : Entry I → SpecFile → Type 0
  Holds e f =
      (name : Str) × (content : Str) × (e.name ≡ some name)
      × (e.is_file ≡ true)
      × (is_md (extension name) ≡ true)
      × (e.content ≡ ok content)
      × (f ≡ spec_file (file_stem name) content)

  abbrev Among : List (Result I (Entry I)) → SpecFile → Type 0
  Among es f = (e : Entry I) × In (ok e) es × Holds e f

  abbrev Read : List (Result I (Entry I)) → Result I (List SpecFile) → Type 0
  Read es (ok files) = (f : SpecFile) → In f files ↔ Among es f
  Read es (err x) = Unit

  abbrev entry_of : Entry I → Result I (Entry I) → Entry I
  entry_of d (ok e) = e
  entry_of d (err x) = d

  -- An entry that is passed over.
  skipped :
      (e : Entry I) (es : List (Result I (Entry I))) (r : Result I (List SpecFile))
      → ((f : SpecFile) → Holds e f → ⊥)
      → Read es r
      → Read (ok e ∷ es) r
  skipped e es (err x) never h = tt
  skipped e es (ok files) never h = λ f. (
    λ i. let (d, at, holds) = (h f).0 i in (d, inr at, holds),
    λ (d, at, holds). elim at [
      | inl q ↦ absurd (never f (subst (λ (x : Entry I). Holds x f) (ap (entry_of e) q) holds))
      | inr later ↦ (h f).1 (d, later, holds)
    ],
  )

  abbrev content_in : Str → Result I Str → Str
  content_in d (ok c) = c
  content_in d (err x) = d

  abbrev files_in : List SpecFile → Result I (List SpecFile) → List SpecFile
  files_in d (ok files) = files
  files_in d (err x) = d

  taken :
      (e : Entry I) (name : Str) (es : List (Result I (Entry I))) (c : Result I Str)
      (r : Result I (List SpecFile))
      → e.name ≡ some name
      → e.is_file ≡ true
      → is_md (extension name) ≡ true
      → e.content ≡ c
      → Read es r
      → Read (ok e ∷ es) (read_file (file_stem name) c r)
  taken e name es (err x) r en ef em ec h = tt
  taken e name es (ok c) (err x) en ef em ec h = tt
  taken e name es (ok c) (ok files) en ef em ec h = λ f. (
    λ i. elim i [
      | inl q ↦ (e, inl refl, (name, c, en, ef, em, ec, q))
      | inr j ↦ let (d, at, holds) = (h f).0 j in (d, inr at, holds)
    ],
    λ (d, at, holds). elim at [
      | inl q ↦ inl (same f (subst (λ (x : Entry I). Holds x f) (ap (entry_of e) q) holds))
      | inr later ↦ inr ((h f).1 (d, later, holds))
    ],
  )
    where
      same : (f : SpecFile) → Holds e f → f ≡ spec_file (file_stem name) c
      same f (name', c', en', ef', em', ec', q) =
          q
          ∙ ap₂ (λ (n x : Str). spec_file (file_stem n) x) (ap (name_in name) (sym en' ∙ en))
              (ap (content_in c) (sym ec' ∙ ec))

  by_tests :
      (e : Entry I) (name : Str) (es : List (Result I (Entry I))) (r : Result I (List SpecFile))
      (is_file md : Bool)
      → e.name ≡ some name
      → e.is_file ≡ is_file
      → is_md (extension name) ≡ md
      → Read es r
      → Read
          (ok e ∷ es)
          (if is_file then (if md then read_file (file_stem name) e.content r else r) else r)
  by_tests e name es r true true en ef em h = taken e name es e.content r en ef em refl h
  by_tests e name es r true false en ef em h =
      skipped e es r (λ f hs. cc (em, hs.4, ap (name_in name) (sym en ∙ hs.2))) h
  by_tests e name es r false md en ef em h = skipped e es r (λ f hs. cc (ef, hs.3)) h

  read_entry-Read :
      (e : Entry I) (o : Option Str) (es : List (Result I (Entry I))) (r : Result I (List SpecFile))
      → e.name ≡ o
      → Read es r
      → Read (ok e ∷ es) (read_entry e o r)
  read_entry-Read e none es r en h = skipped e es r (λ f hs. cc (en, hs.2)) h
  read_entry-Read e (some name) es r en h =
      by_tests e name es r e.is_file (is_md (extension name)) en refl refl h

  read_entries-Read : (es : List (Result I (Entry I))) → Read es (read_entries es)
  unfolding read_entries
  read_entries-Read [] = λ f. (λ i. absurd i, λ (e, at, holds). absurd at)
  read_entries-Read (err e ∷ es) = tt
  read_entries-Read (ok e ∷ es) =
      read_entry-Read e e.name es (read_entries es) refl (read_entries-Read es)

  -- The files are those that the directory holds, in the order of their labels.
  abbrev pub Collected : SpecsDir I → List SpecFile → Type 0
  Collected missing files = files ≡ []
  Collected (unreadable e) files = ⊥
  Collected (entries es) files = Ordered label_of files × ((f : SpecFile) → In f files ↔ Among es f)

  sorted-Collected :
      (es : List (Result I (Entry I))) (r : Result I (List SpecFile)) (files : List SpecFile)
      → Read es r
      → sorted r ≡ ok files
      → Collected (entries es) files
  sorted-Collected es (err e) files h q = cc q
  sorted-Collected es (ok fs) files h q = subst (Collected (entries es)) (ap (files_in fs) q) (
    sort_by-Ordered label_of fs,
    λ f. (
      λ i. (h f).0 ((sort_by-In label_of f fs).0 i),
      λ among. (sort_by-In label_of f fs).1 ((h f).1 among),
    ),
  )

  pub collect_spec_files-Collected :
      (dir : SpecsDir I) (files : List SpecFile)
      → collect_spec_files dir ≡ ok files
      → Collected dir files
  unfolding collect_spec_files
  collect_spec_files-Collected missing files q = ap (files_in []) (sym q)
  collect_spec_files-Collected (unreadable e) files q = cc q
  collect_spec_files-Collected (entries es) files q =
      sorted-Collected es (read_entries es) files (read_entries-Read es) q
