-- ===== src/Init/Story.antt =====
-- What `loom init` does under the workspace's lock: the lock, the config and the database together.
use wrapix.Prelude.{
  ◌≡◌, ◌⊎◌, refl, sym, ap, subst, Bool, true, false, Option, none, some, List, inl, inr,
}
use wrapix.Prelude.Text.{Str}
use wrapix.Prelude.Exec.{Result, ok, err}
use wrapix.Prelude.Act.{after, after-eq_ok, ◌>>◌}
use wrapix.Lock.{Kernel, LockError, acquire_workspace}
use wrapix.Lock
use wrapix.Lock.Flock.{Flock}
use wrapix.Lock.Workspace.{Taken, acquire_workspace-Taken}
use wrapix.State.Sql.{Database}
use wrapix.State.Sql.Sqlite.{Sqlite}
use wrapix.State.Sql.Steps.{returned}
use wrapix.State.Db.{StateError}
use wrapix.State.Rebuild.{ActiveMolecule, RebuildReport, SpecFile, collect_spec_files, rebuild}
use wrapix.State.Rebuild.Rebuilt.{Rebuilt, rebuild-Rebuilt}
use wrapix.Init.{
  InitError, lock, InitReport, Files, stored, with_database, reported, rebuilt, opened, recreating,
  refilling, done, opening, configured, locking, released, initialise, run,
}

module _ {D F Q J I : Type 0} (kernel : Kernel D F I) (flock : Flock kernel)
    (database : Database D Q J I) (sqlite : Sqlite database) (files : Files D I) where
  open sqlite use {rows}

  -- What a report tells of the database: rebuilt from a directory of specs, or only opened.
  abbrev pub Stocked : Bool → Str → List ActiveMolecule → Option RebuildReport → D → Type 0
  Stocked false workspace molecules r d = r ≡ none
  Stocked true workspace molecules r d =
      (report : RebuildReport) × (e : D) × (fs : List SpecFile) × (r ≡ some report)
      × (collect_spec_files (files.specs_dir workspace e) ≡ ok fs)
      × Rebuilt fs molecules report (rows d)

  -- The lock was taken from `d0`, and the work that it guards left `d2`.
  abbrev pub Guarded :
      D → D → Result (InitError Q J I) InitReport → Str → Bool → List ActiveMolecule → D → Type 0
  Guarded d d0 r workspace rebuilding molecules d' =
      (f : F) × (d1 : D) × (d2 : D) × (wrapix.Lock.new kernel d ≡ (ok tt, d0))
      × Taken kernel flock d0 (ok f, d1)
      × (initialise kernel database files workspace rebuilding molecules d1 ≡ (r, d2))
      × (d' ≡ kernel.close f d2)

  abbrev Refused : D → LockError I → D → Type 0
  Refused d e d' =
      (wrapix.Lock.new kernel d ≡ (err e, d'))
      ⊎ ((d0 : D) × (wrapix.Lock.new kernel d ≡ (ok tt, d0))
          × (acquire_workspace kernel d0 ≡ (err e, d'))
          × Taken kernel flock d0 (err e, d'))

  abbrev pub Story :
      Str → Bool → List ActiveMolecule → D → Result (InitError Q J I) InitReport × D → Type 0
  Story workspace rebuilding molecules d (err e, d') =
      ((x : LockError I) × (e ≡ lock x) × Refused d x d')
      ⊎ ((d0 : D) × Guarded d d0 (err e) workspace rebuilding molecules d')
  Story workspace rebuilding molecules d (ok report, d') =
      (d0 : D) × (g : Guarded d d0 (ok report) workspace rebuilding molecules d') × Stocked
        rebuilding workspace molecules report.rebuild g.2

  stored-eq_ok :
      {A : Type 0} (r : Result (StateError Q J I) A × D) (a : A) (d : D)
      → stored kernel database files r ≡ (ok a, d)
      → r ≡ (ok a, d)
  stored-eq_ok (ok b, e) a d h = let (ea, ed) = returned b e h in λ i. (ok (ea i), ed i)
  stored-eq_ok (err x, e) a d h = cc h

  rebuilt-Stocked :
      (workspace : Str) (created : Bool) (molecules : List ActiveMolecule) (report : InitReport)
      (d d' : D)
      → rebuilt kernel database files workspace created molecules d ≡ (ok report, d')
      → Stocked true workspace molecules report.rebuild d'
  rebuilt-Stocked workspace created molecules report d d' h =
      let (r, e, inner, last) =
        after-eq_ok
          ((recreating kernel database files workspace
              >> refilling kernel database files workspace molecules)
            d)
          (done kernel database files workspace created) h in
      let (u, d1, first, second) =
        after-eq_ok (recreating kernel database files workspace d)
          (λ _. refilling kernel database files workspace molecules) inner in
      let (fs, collected, listed, filled) =
        rebuild-Rebuilt database sqlite (files.specs_dir workspace d1) molecules r d1 e (
          stored-eq_ok (rebuild database (files.specs_dir workspace d1) molecules d1) r e second) in
      let (same, at) =
        returned (reported kernel database files workspace created (some r)) e last in
      (
        r,
        d1,
        fs,
        ap (λ (x : InitReport). x.rebuild) (sym same),
        collected,
        subst (λ (x : D). Rebuilt fs molecules r (rows x)) at filled,
      )

  opened-Stocked :
      (workspace : Str) (created : Bool) (report : InitReport) (d d' : D)
      → opened kernel database files workspace created d ≡ (ok report, d')
      → report.rebuild ≡ none
  opened-Stocked workspace created report d d' h =
      let (u, d1, first, last) =
        after-eq_ok (opening kernel database files workspace d)
          (λ _ e. (ok (reported kernel database files workspace created none), e)) h in
      ap (λ (x : InitReport). x.rebuild)
        (sym (returned (reported kernel database files workspace created none) d1 last).0)

  database-Stocked :
      (rebuilding : Bool) (workspace : Str) (created : Bool) (molecules : List ActiveMolecule)
      (report : InitReport) (d d' : D)
      → with_database kernel database files workspace rebuilding molecules created d
        ≡ (ok report, d')
      → Stocked rebuilding workspace molecules report.rebuild d'
  database-Stocked false workspace created molecules report d d' h =
      opened-Stocked workspace created report d d' h
  database-Stocked true workspace created molecules report d d' h =
      rebuilt-Stocked workspace created molecules report d d' h

  initialise-Stocked :
      (rebuilding : Bool) (workspace : Str) (molecules : List ActiveMolecule) (report : InitReport)
      (d d' : D)
      → initialise kernel database files workspace rebuilding molecules d ≡ (ok report, d')
      → Stocked rebuilding workspace molecules report.rebuild d'
  unfolding initialise
  initialise-Stocked rebuilding workspace molecules report d d' h =
      let (created, d1, first, last) =
        after-eq_ok (configured kernel database files workspace d)
          (with_database kernel database files workspace rebuilding molecules) h in
      database-Stocked rebuilding workspace created molecules report d1 d' last

  module _ (workspace : Str) (rebuilding : Bool) (molecules : List ActiveMolecule) where
    body-Story :
        (d d0 d1 : D) (f : F) (r : Result (InitError Q J I) InitReport × D)
        → wrapix.Lock.new kernel d ≡ (ok tt, d0)
        → Taken kernel flock d0 (ok f, d1)
        → initialise kernel database files workspace rebuilding molecules d1 ≡ r
        → Story workspace rebuilding molecules d (released kernel database files f r)
    body-Story d d0 d1 f (err e, d2) made taken h = inr (d0, (f, d1, d2, made, taken, h, refl))
    body-Story d d0 d1 f (ok report, d2) made taken h = (
      d0,
      (f, d1, d2, made, taken, h, refl),
      initialise-Stocked rebuilding workspace molecules report d1 d2 h,
    )

    lock-Story :
        (d d0 : D) (r : Result (LockError I) F × D)
        → wrapix.Lock.new kernel d ≡ (ok tt, d0)
        → acquire_workspace kernel d0 ≡ r
        → Story workspace rebuilding molecules d (
            after (locking kernel database files r) (λ f e.
              released kernel database files f
                (initialise kernel database files workspace rebuilding molecules e)))
    lock-Story d d0 (err e, d') made h = inl (
      e,
      refl,
      inr (d0, made, h, subst (Taken kernel flock d0) h (acquire_workspace-Taken kernel flock d0)),
    )
    lock-Story d d0 (ok f, d1) made h =
        body-Story d d0 d1 f (initialise kernel database files workspace rebuilding molecules d1)
          made (subst (Taken kernel flock d0) h (acquire_workspace-Taken kernel flock d0)) refl

    new-Story :
        (d : D) (r : Result (LockError I) (Unit {0}) × D)
        → wrapix.Lock.new kernel d ≡ r
        → Story workspace rebuilding molecules d (
            after
              (after
                (locking kernel database files r)
                (λ _ e. locking kernel database files (acquire_workspace kernel e)))
              (λ f e.
                released kernel database files f
                  (initialise kernel database files workspace rebuilding molecules e)))
    new-Story d (err e, d') h = inl (e, refl, inl h)
    new-Story d (ok u, d0) h = lock-Story d d0 (acquire_workspace kernel d0) h refl

    -- How `loom init` ends: with the error of the lock, and then nothing was done behind it; or the
    -- workspace's lock was taken, which was free, as were the locks of the specs whose files are
    -- listed, and the lock's file is closed after the work, also where that failed. If `--rebuild`
    -- succeeds, the tables are those of the spec files and the given molecules before the lock is
    -- given up; without it there is no report of a rebuild.
    pub run-Story :
        (d : D)
        → Story workspace rebuilding molecules d
            (run kernel database files workspace rebuilding molecules d)
    unfolding run
    run-Story d = new-Story d (wrapix.Lock.new kernel d) refl
