-- ===== src/State/Rebuild/Rebuilt.antt =====
-- What loom/crates/loom-core/src/state/rebuild.rs leaves in the database, where it succeeds.
use wrapix.Prelude.{
  ◌≤◌, ◌≡◌, ◌↔◌, refl, sym, ap, ◌∙◌, subst, Bool, true, false, List, [], ◌∷◌, In, Distinct, length,
  inl, inr, if◌then◌else◌, map, arith,
}
use wrapix.State.Rebuild.Loops.{counted_specs, counted_molecules, specs-Stored, molecules-Stored}
use wrapix.Prelude.Text.{Str, codes}
use wrapix.Prelude.Exec.{Result, ok, err}
use wrapix.Prelude.Act.{after-eq_ok, ◌>>=◌, ◌>>◌}
use wrapix.Core.Label.{SpecLabel}
use wrapix.State.Sql.{Tables, create_tables, drop_tables, Database}
use wrapix.State.Sql.Sqlite.{Sqlite, no_rows, applied, paths_of}
use wrapix.State.Sql.Steps.{execute-rows, returned}
use wrapix.State.Db.{schema_version, execute, drop_and_recreate, done, poisoned}
use wrapix.State.Rebuild.{
  ActiveMolecule, RebuildReport, empty_report, SpecFile, SpecsDir, collect_spec_files, store_specs,
  store_molecules, rebuild_from, rebuild,
}
use wrapix.State.Rebuild.Files.{Collected, collect_spec_files-Collected}
use wrapix.State.Rebuild.Rows.{
  spec_of, molecule_of, kept, Declared, specs_stored, molecules_stored, stored_all-Distinct,
  stored_all-In, stored_all-length, map-length,
}

-- The tables hold the given specs and molecules, and nothing of what they held before.
pub record Rebuilt (files : List SpecFile) (molecules : List ActiveMolecule)
    (report : RebuildReport) (t : Tables) : Type 0 where
  pub specs : t.specs ≡ map spec_of files
  pub active : t.molecules ≡ map molecule_of (kept files molecules)
  pub companions_once : (label : SpecLabel) → Distinct (paths_of label t.companions)
  pub companions_declared :
      (label : SpecLabel) (path : Str)
      → In path (paths_of label t.companions) ↔ Declared label path files
  pub meta : t.meta ≡ (codes "schema_version", codes "1") ∷ []
  pub spec_count : report.specs ≡ length t.specs
  pub molecule_count : report.molecules ≡ length t.molecules
  pub companion_count : length t.companions ≤ report.companions

module _ {D Q J I : Type 0} (database : Database D Q J I) (sqlite : Sqlite database) where
  open sqlite use {rows}

  abbrev fresh : Tables
  fresh = record no_rows { meta = (codes "schema_version", codes "1") ∷ [] }

  recreated-rows : (d d' : D) → drop_and_recreate database d ≡ (ok tt, d') → rows d' ≡ fresh
  unfolding drop_and_recreate applied
  recreated-rows d d' h =
      let dropping = execute database drop_tables in
      let creating = execute database create_tables in
      let (n3, d3, h3, end) =
        after-eq_ok ((dropping >> creating >> execute database schema_version) d) (done database)
          h in
      let (n2, d2, h2, last) =
        after-eq_ok ((dropping >> creating) d) (λ _. execute database schema_version) h3 in
      let (n1, d1, first, second) = after-eq_ok (dropping d) (λ _. creating) h2 in
      sym (ap rows (returned tt d3 end).1)
      ∙ execute-rows database sqlite schema_version d2 d3 n3 last tt
      ∙ ap (applied schema_version) (
          execute-rows database sqlite create_tables d1 d2 n2 second tt
          ∙ execute-rows database sqlite drop_tables d d1 n1 first tt)

  rebuilt-from :
      (files : List SpecFile) (ms : List ActiveMolecule) (r : RebuildReport) (d d' : D)
      → (drop_and_recreate database
            >> store_specs database files empty_report
            >>= store_molecules database files ms)
          d
        ≡ (ok r, d')
      → (rows d' ≡ molecules_stored (kept files ms) (specs_stored files fresh))
        × (r ≡ counted_molecules (length (kept files ms)) (counted_specs files empty_report))
  rebuilt-from files ms r d d' h =
      let (r2, d2, h2, last) =
        after-eq_ok ((drop_and_recreate database >> store_specs database files empty_report) d)
          (store_molecules database files ms) h in
      let (u, d1, first, second) =
        after-eq_ok (drop_and_recreate database d) (λ _. store_specs database files empty_report)
          h2 in
      let (t2, c2) = specs-Stored database sqlite files empty_report r2 d1 d2 second in
      let (t3, c3) = molecules-Stored database sqlite files ms r2 r d2 d' last in
      (
        t3
            ∙ ap (molecules_stored (kept files ms))
                (t2 ∙ ap (specs_stored files) (recreated-rows d d1 first)),
        c3 ∙ ap (counted_molecules (length (kept files ms))) c2,
      )

  tables-Rebuilt :
      (files : List SpecFile) (ms : List ActiveMolecule)
      → Rebuilt files ms
          (counted_molecules (length (kept files ms)) (counted_specs files empty_report))
          (molecules_stored (kept files ms) (specs_stored files fresh))
  unfolding paths_of
  tables-Rebuilt files ms = record {
    specs = refl;
    active = refl;
    companions_once = λ label. stored_all-Distinct label files [] tt;
    companions_declared = λ label path. (
      λ i. elim ((stored_all-In label path files []).0 i) [
        | inl j ↦ absurd j
        | inr declared ↦ declared
      ],
      λ declared. (stored_all-In label path files []).1 (inr declared),
    );
    meta = refl;
    spec_count = omega (arith, map-length spec_of files);
    molecule_count = omega (arith, map-length molecule_of (kept files ms));
    companion_count = omega (arith, stored_all-length files []);
  }

  abbrev Outcome : Result I (List SpecFile) → List ActiveMolecule → RebuildReport → D → Type 0
  Outcome c molecules report d' =
      (files : List SpecFile) × (c ≡ ok files) × Rebuilt files molecules report (rows d')

  under_lock :
      (files : List SpecFile) (ms : List ActiveMolecule) (r : RebuildReport) (d d' : D) (b : Bool)
      → (if b
          then (err poisoned, d)
          else (drop_and_recreate database
                >> store_specs database files empty_report
                >>= store_molecules database files ms)
              d)
        ≡ (ok r, d')
      → Rebuilt files ms r (rows d')
  under_lock files ms r d d' true h = cc h
  under_lock files ms r d d' false h =
      let (t, c) = rebuilt-from files ms r d d' h in
      subst (λ (p : RebuildReport × Tables). Rebuilt files ms p.0 p.1) (λ i. (sym c i, sym t i))
        (tables-Rebuilt files ms)

  from_files :
      (c : Result I (List SpecFile)) (ms : List ActiveMolecule) (r : RebuildReport) (d d' : D)
      → rebuild_from database c ms d ≡ (ok r, d')
      → Outcome c ms r d'
  from_files (err e) ms r d d' h = cc h
  from_files (ok files) ms r d d' h =
      (files, refl, under_lock files ms r d d' (database.is_poisoned d) h)

  -- Where a rebuild returns a report, the tables depend on the directory and the given molecules only:
  -- one row for each regular file `<label>.md` of the directory, by label and without notes; of the
  -- molecules, in order, those whose spec has a file, with a count of 0; for each spec the companions
  -- that its file declares, each once; and no meta row but the schema's version, so the current spec
  -- is forgotten. The report has as many specs and molecules as there are rows, and as many
  -- companions or more.
  pub rebuild-Rebuilt :
      (dir : SpecsDir I) (molecules : List ActiveMolecule) (report : RebuildReport) (d d' : D)
      → rebuild database dir molecules d ≡ (ok report, d')
      → (files : List SpecFile) × (collect_spec_files dir ≡ ok files)
        × Collected dir files
        × Rebuilt files molecules report (rows d')
  unfolding rebuild
  rebuild-Rebuilt dir molecules report d d' h =
      let (files, e, rebuilt) = from_files (collect_spec_files dir) molecules report d d' h in
      (files, e, collect_spec_files-Collected dir files e, rebuilt)
