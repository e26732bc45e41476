-- ===== src/Logging/Retention/Sweep.antt =====
-- The sweep of loom/crates/loom-core/src/logging/retention.rs, against the list of all files.
use wrapix.Prelude.{
  ℕ, ◌+◌, ◌%◌, ◌^◌, ◌<◌, ◌≡◌, refl, ap, ◌∙◌, sym, subst, ◌-◌, ◌==◌, ◌||◌, ltb, Bool, true, false,
  not, ◌&&◌, List, [], ◌∷◌, ◌++◌, map, filter, filter-append, length, length-append, leb, inl, inr,
  Bool-cases, append_assoc, append-nil, arith, if◌then◌else◌, Option, none, some,
}
use mathlib.Core.List.{map-append}
use wrapix.Prelude.Text.{Str}
use wrapix.Prelude.Exec.{Result, ok, err}
use wrapix.Logging.Retention.{
  FileEntry, Listing, unreadable, listed, Entries, nil, directory, file, special, untyped, unread,
  RetentionReport, fail, sweep_aged, sweep_file, keep_file, walk_and_sweep, walk_entries,
  empty_report, days_ns, sweep_root, sweep_retention_at,
}

abbrev is_old_at : ℕ → Result ℕ ℕ → Bool
is_old_at cutoff (ok mtime) = not (leb cutoff mtime)
is_old_at cutoff (err kind) = false

abbrev is_recent_at : ℕ → Result ℕ ℕ → Bool
is_recent_at cutoff (ok mtime) = leb cutoff mtime
is_recent_at cutoff (err kind) = false

abbrev can_go : Result ℕ (Unit {0}) → Bool
can_go (ok _) = true
can_go (err kind) = false

-- A file whose mtime can be read and is before the cutoff, and that can be removed.
abbrev pub goes : ℕ → FileEntry → Bool
goes cutoff f = is_old_at cutoff f.modified && can_go f.removal

abbrev pub stays : ℕ → FileEntry → Bool
stays cutoff f = not (goes cutoff f)

abbrev pub is_recent : ℕ → FileEntry → Bool
is_recent cutoff f = is_recent_at cutoff f.modified

abbrev pub path_of : FileEntry → Str
path_of f = f.path

-- All files below a directory, in the order of the walk.
unfoldable mutual
  pub files : Listing → List FileEntry
  files (unreadable kind) = []
  files (listed entries) = entry_files entries

  pub entry_files : Entries → List FileEntry
  entry_files nil = []
  entry_files (directory path listing entries) = files listing ++ entry_files entries
  entry_files (file f entries) = f ∷ entry_files entries
  entry_files (special entries) = entry_files entries
  entry_files (untyped path kind entries) = entry_files entries
  entry_files (unread entries) = entry_files entries

-- What the report says more after files were met.
abbrev pub Reports : ℕ → List FileEntry → RetentionReport → RetentionReport → Type 0
Reports cutoff fs r r' =
    (r'.deleted ≡ r.deleted ++ map path_of (filter (goes cutoff) fs))
    × (r'.skipped_recent ≡ (r.skipped_recent + length (filter (is_recent cutoff) fs)) % 2 ^ 32)
    × (r'.skipped_recent < 2 ^ 32)

Reports-none :
    (cutoff : ℕ) (r r' : RetentionReport)
    → r.skipped_recent < 2 ^ 32
    → r'.deleted ≡ r.deleted
    → r'.skipped_recent ≡ r.skipped_recent
    → Reports cutoff [] r r'
Reports-none cutoff r r' small e s = (e ∙ sym (append-nil r.deleted), omega arith, omega arith)

Reports-append :
    (cutoff : ℕ) (fs gs : List FileEntry) (r r' r'' : RetentionReport)
    → Reports cutoff fs r r'
    → Reports cutoff gs r' r''
    → Reports cutoff (fs ++ gs) r r''
Reports-append cutoff fs gs r r' r'' (d, s, b) (d', s', b') = (
  d'
      ∙ ap (λ (xs : List Str). xs ++ map path_of (filter (goes cutoff) gs)) d
      ∙ append_assoc r.deleted _ _
      ∙ ap (λ (xs : List Str). r.deleted ++ xs)
          (sym (map-append path_of (filter (goes cutoff) fs) (filter (goes cutoff) gs))
            ∙ ap (map path_of) (sym (filter-append (goes cutoff) fs gs))),
  rw (filter-append (is_recent cutoff) fs gs)
      (omega (arith, length-append (filter (is_recent cutoff) fs) (filter (is_recent cutoff) gs))),
  b',
)

abbrev Reported : ℕ → FileEntry → RetentionReport → Bool × RetentionReport → Type 0
Reported cutoff f r (stay, r') = (stay ≡ stays cutoff f) × Reports cutoff (f ∷ []) r r'

abbrev entry : Str → Result ℕ ℕ → Result ℕ (Unit {0}) → FileEntry
entry path modified removal = record { path = path; modified = modified; removal = removal }

sweep_entry-Reported :
    (cutoff : ℕ) (path : Str) (modified : Result ℕ ℕ) (removal : Result ℕ (Unit {0}))
    (r : RetentionReport)
    → r.skipped_recent < 2 ^ 32
    → Reported cutoff
        (entry path modified removal)
        r
        (sweep_aged cutoff (entry path modified removal) modified r)
sweep_entry-Reported cutoff path (err kind) removal r small =
    (refl, (sym (append-nil r.deleted), omega arith, omega arith))
sweep_entry-Reported cutoff path (ok mtime) (ok _) r small = elim (Bool-cases (leb cutoff mtime)) [
  | inl recent ↦ rw recent (refl, (sym (append-nil r.deleted), omega arith, omega arith))
  | inr old ↦ rw old (refl, (refl, omega arith, omega arith))
]
sweep_entry-Reported cutoff path (ok mtime) (err kind) r small =
    elim (Bool-cases (leb cutoff mtime)) [
      | inl recent ↦ rw recent (refl, (sym (append-nil r.deleted), omega arith, omega arith))
      | inr old ↦ rw old (refl, (sym (append-nil r.deleted), omega arith, omega arith))
    ]

sweep_file-Reported :
    (cutoff : ℕ) (f : FileEntry) (r : RetentionReport)
    → r.skipped_recent < 2 ^ 32
    → Reported cutoff f r (sweep_file cutoff f r)
unfolding sweep_file
sweep_file-Reported cutoff f r small =
    sweep_entry-Reported cutoff f.path f.modified f.removal r small

kept_files :
    (cutoff : ℕ) (f : FileEntry) (out : Entries × RetentionReport) (fs : List FileEntry)
    (stay : Bool)
    → stay ≡ stays cutoff f
    → entry_files out.0 ≡ filter (stays cutoff) fs
    → (entry_files (keep_file f out stay).0 ≡ filter (stays cutoff) (f ∷ fs))
      × ((keep_file f out stay).1 ≡ out.1)
unfolding entry_files
kept_files cutoff f out fs true e h = (rw (← e) (ap (λ t. f ∷ t) h), refl)
kept_files cutoff f out fs false e h = (rw (← e) h, refl)

abbrev Swept : ℕ → List FileEntry → List FileEntry → RetentionReport → RetentionReport → Type 0
Swept cutoff fs gs r r' = Reports cutoff fs r r' × (gs ≡ filter (stays cutoff) fs)

Swept-append :
    (cutoff : ℕ) (fs gs fs' gs' : List FileEntry) (r r' r'' : RetentionReport)
    → Swept cutoff fs fs' r r'
    → Swept cutoff gs gs' r' r''
    → Swept cutoff (fs ++ gs) (fs' ++ gs') r r''
Swept-append cutoff fs gs fs' gs' r r' r'' (x, e) (y, e') =
    (Reports-append cutoff fs gs r r' r'' x y, rw (filter-append (stays cutoff) fs gs) (cc (e, e')))

file-Swept :
    (cutoff : ℕ) (f : FileEntry) (fs : List FileEntry) (s : Bool × RetentionReport)
    (out : Entries × RetentionReport) (r : RetentionReport)
    → Reported cutoff f r s
    → Swept cutoff fs (entry_files out.0) s.1 out.1
    → Swept cutoff (f ∷ fs) (entry_files (keep_file f out s.0).0) r (keep_file f out s.0).1
file-Swept cutoff f fs (stay, r') out r (e, x) (y, h) =
    let (kept, same) = kept_files cutoff f out fs stay e h in
    (
      subst (Reports cutoff (f ∷ fs) r) (sym same)
          (Reports-append cutoff (f ∷ []) fs r r' out.1 x y),
      kept,
    )

mutual
  unfolding walk_and_sweep files

  listing-Swept :
      (cutoff : ℕ) (dir : Str) (listing : Listing) (r : RetentionReport)
      → r.skipped_recent < 2 ^ 32
      → Swept cutoff
          (files listing)
          (files (walk_and_sweep cutoff dir listing r).0)
          r
          (walk_and_sweep cutoff dir listing r).1
  listing-Swept cutoff dir (unreadable kind) r small =
      (Reports-none cutoff r (fail dir kind r) small refl refl, refl)
  listing-Swept cutoff dir (listed entries) r small = entries-Swept cutoff entries r small

  entries-Swept :
      (cutoff : ℕ) (entries : Entries) (r : RetentionReport)
      → r.skipped_recent < 2 ^ 32
      → Swept cutoff
          (entry_files entries)
          (entry_files (walk_entries cutoff entries r).0)
          r
          (walk_entries cutoff entries r).1
  entries-Swept cutoff nil r small = (Reports-none cutoff r r small refl refl, refl)
  entries-Swept cutoff (directory path listing entries) r small =
      let x = listing-Swept cutoff path listing r small in
      Swept-append cutoff (files listing) (entry_files entries) _ _ r
        (walk_and_sweep cutoff path listing r).1
        (walk_entries cutoff entries (walk_and_sweep cutoff path listing r).1).1 x
        (entries-Swept cutoff entries (walk_and_sweep cutoff path listing r).1 x.0.2)
  entries-Swept cutoff (file f entries) r small =
      let x = sweep_file-Reported cutoff f r small in
      file-Swept cutoff f (entry_files entries) (sweep_file cutoff f r)
        (walk_entries cutoff entries (sweep_file cutoff f r).1) r x
        (entries-Swept cutoff entries (sweep_file cutoff f r).1 x.1.2)
  entries-Swept cutoff (special entries) r small = entries-Swept cutoff entries r small
  entries-Swept cutoff (untyped path kind entries) r small =
      entries-Swept cutoff entries (fail path kind r) small
  entries-Swept cutoff (unread entries) r small = entries-Swept cutoff entries r small

abbrev Untouched : Option Listing → Option Listing × RetentionReport → Type 0
Untouched logs (logs', r) = (logs' ≡ logs) × (r ≡ empty_report)

abbrev SweptRoot : ℕ → Option Listing → Option Listing × RetentionReport → Type 0
SweptRoot cutoff none (logs', r) = (logs' ≡ none) × (r ≡ empty_report)
SweptRoot cutoff (some listing) (none, r) = ⊥
SweptRoot cutoff (some listing) (some listing', r) =
    Swept cutoff (files listing) (files listing') empty_report r

-- The sweep is off for 0 days, and does nothing where the cutoff would be before the earliest time.
abbrev pub SweptAt : ℕ → ℕ → Option Listing → Option Listing × RetentionReport → Type 0
SweptAt days now logs out =
    if days == 0 || ltb now (days_ns days)
    then Untouched logs out
    else SweptRoot (now - days_ns days) logs out

-- Where the sweep is on: the files that it deletes are exactly those, in the order of the walk, whose
-- mtime can be read and lies before the cutoff and that can be removed, in directories at any depth;
-- all other files stay, and the files at the cutoff or behind it are counted (a u32). For 0 days, for
-- a cutoff before the earliest time, and where there are no logs, nothing is done.
pub sweep_retention_at-SweptAt :
    (root : Str) (logs : Option Listing) (days now : ℕ)
    → SweptAt days now logs (sweep_retention_at root logs days now)
unfolding sweep_retention_at
sweep_retention_at-SweptAt root logs days now = elim (Bool-cases (days == 0)) [
  | inl off ↦ rw off (refl, refl)
  | inr on ↦ rw on (elim (Bool-cases (ltb now (days_ns days))) [
    | inl early ↦ rw early (refl, refl)
    | inr late ↦ rw late (root-Swept (now - days_ns days) logs)
  ])
]
  where
    root-Swept : (cutoff : ℕ) (l : Option Listing) → SweptRoot cutoff l (sweep_root cutoff l root)
    root-Swept cutoff none = (refl, refl)
    root-Swept cutoff (some listing) = listing-Swept cutoff root listing empty_report (omega arith)
