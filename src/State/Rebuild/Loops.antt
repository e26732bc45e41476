-- ===== src/State/Rebuild/Loops.antt =====
-- What the loops of loom/crates/loom-core/src/state/rebuild.rs do to the tables and to the report.
use wrapix.Prelude.{
  ℕ, ◌+◌, ◌≡◌, sym, ap, ap₂, ◌∙◌, Bool, true, false, List, [], ◌∷◌, length, if◌then◌else◌, map,
  append_assoc, append-nil, arith,
}
use wrapix.Prelude.Text.{Str}
use wrapix.Prelude.Exec.{ok}
use wrapix.Prelude.Act.{after-eq_ok, ◌>>◌}
use wrapix.Core.Label.{SpecLabel}
use wrapix.State.Companions.{parse_companions}
use wrapix.State.Sql.{
  SpecRecord, MoleculeRecord, ignore_companion, insert_spec, insert_molecule, Database,
}
use wrapix.State.Sql.Sqlite.{add_companion, Sqlite, applied}
use wrapix.State.Sql.Steps.{execute-rows, returned}
use wrapix.State.Db.{execute, Call}
use wrapix.State.Rebuild.{
  ActiveMolecule, RebuildReport, one_spec, one_molecule, one_companion, SpecFile, has_file,
  store_companions, store_specs, store_molecules,
}
use wrapix.State.Rebuild.Rows.{
  spec_of, molecule_of, kept, stored_all, declared_count, companions_stored, specs_stored,
  molecules_stored,
}

abbrev counted_companions : ℕ → RebuildReport → RebuildReport
counted_companions n r = record r { companions = r.companions + n }

abbrev pub counted_specs : List SpecFile → RebuildReport → RebuildReport
counted_specs files r = record r {
  specs = r.specs + length files;
  companions = r.companions + declared_count files;
}

abbrev pub counted_molecules : ℕ → RebuildReport → RebuildReport
counted_molecules n r = record r { molecules = r.molecules + n }

module _ {D Q J I : Type 0} (database : Database D Q J I) (sqlite : Sqlite database) where
  open sqlite use {rows}

  companions-Stored :
      (label : SpecLabel) (ps : List Str) (r r' : RebuildReport) (d d' : D)
      → store_companions database label ps r d ≡ (ok r', d')
      → (rows d' ≡ companions_stored label ps (rows d)) × (r' ≡ counted_companions (length ps) r)
  unfolding store_companions applied add_companion
  companions-Stored label [] r r' d d' h = (
    sym (ap rows (returned r d h).1),
    sym (returned r d h).0 ∙ ap (λ (n : ℕ). record r { companions = n }) (omega arith),
  )
  companions-Stored label (p ∷ ps) r r' d d' h =
      let (n, e, first, rest) =
        after-eq_ok (execute database (ignore_companion label p) d)
          (λ _. store_companions database label ps (one_companion r)) h in
      let (t, c) = companions-Stored label ps (one_companion r) r' e d' rest in
      let one = execute-rows database sqlite (ignore_companion label p) d e n first tt in
      (
        t ∙ ap (companions_stored label ps) one,
        c ∙ ap (λ (k : ℕ). record r { companions = k }) (omega arith),
      )

  pub specs-Stored :
      (files : List SpecFile) (r r' : RebuildReport) (d d' : D)
      → store_specs database files r d ≡ (ok r', d')
      → (rows d' ≡ specs_stored files (rows d)) × (r' ≡ counted_specs files r)
  unfolding store_specs applied
  specs-Stored [] r r' d d' h = (
    sym (ap rows (returned r d h).1)
        ∙ ap (λ (l : List SpecRecord). record (rows d) { specs = l })
            (sym (append-nil (rows d).specs)),
    sym (returned r d h).0
        ∙ ap₂ (λ (m n : ℕ). record r { specs = m; companions = n }) (omega arith) (omega arith),
  )
  specs-Stored (f ∷ files) r r' d d' h =
      let ps = parse_companions f.content in
      let (r1, d1, inner, later) =
        after-eq_ok
          ((execute database (insert_spec f.label f.path)
              >> store_companions database f.label ps (one_spec r))
            d)
          (store_specs database files) h in
      let (n, d0, first, rest) =
        after-eq_ok (execute database (insert_spec f.label f.path) d)
          (λ _. store_companions database f.label ps (one_spec r)) inner in
      let one = execute-rows database sqlite (insert_spec f.label f.path) d d0 n first tt in
      let (t1, c1) = companions-Stored f.label ps (one_spec r) r1 d0 d1 rest in
      let (t2, c2) = specs-Stored files r1 r' d1 d' later in
      (
        t2
            ∙ ap (specs_stored files) (t1 ∙ ap (companions_stored f.label ps) one)
            ∙ ap
                (λ (l : List SpecRecord). record (rows d) {
                  specs = l;
                  companions = stored_all (f ∷ files) (rows d).companions;
                })
                (append_assoc (rows d).specs (spec_of f ∷ []) (map spec_of files)),
        c2
            ∙ ap (counted_specs files) c1
            ∙ ap₂ (λ (a b : ℕ). record r { specs = a; companions = b }) (omega arith) (omega arith),
      )

  pub molecules-Stored :
      (files : List SpecFile) (ms : List ActiveMolecule) (r r' : RebuildReport) (d d' : D)
      → store_molecules database files ms r d ≡ (ok r', d')
      → (rows d' ≡ molecules_stored (kept files ms) (rows d))
        × (r' ≡ counted_molecules (length (kept files ms)) r)
  unfolding store_molecules applied
  molecules-Stored files [] r r' d d' h = (
    sym (ap rows (returned r d h).1)
        ∙ ap (λ (l : List MoleculeRecord). record (rows d) { molecules = l })
            (sym (append-nil (rows d).molecules)),
    sym (returned r d h).0 ∙ ap (λ (n : ℕ). record r { molecules = n }) (omega arith),
  )
  molecules-Stored files (m ∷ ms) r r' d d' h =
      by_file (has_file files m.spec_label) (molecules-Stored files ms) h
    where
      insert_it : Call database ℕ
      insert_it = execute database (insert_molecule m.id m.spec_label m.base_commit)

      chosen : Bool → List ActiveMolecule
      chosen b = let rest = kept files ms in if b then m ∷ rest else rest

      by_file :
          (b : Bool)
          → ((q q' : RebuildReport) (e e' : D)
              → store_molecules database files ms q e ≡ (ok q', e')
              → (rows e' ≡ molecules_stored (kept files ms) (rows e))
                × (q' ≡ counted_molecules (length (kept files ms)) q))
          → (if b
                then insert_it >> store_molecules database files ms (one_molecule r)
                else store_molecules database files ms r)
              d
            ≡ (ok r', d')
          → (rows d' ≡ molecules_stored (chosen b) (rows d))
            × (r' ≡ counted_molecules (length (chosen b)) r)
      by_file false later h' = later r r' d d' h'
      by_file true later h' =
          let (n, d0, first, rest) =
            after-eq_ok (insert_it d) (λ _. store_molecules database files ms (one_molecule r))
              h' in
          let one =
            execute-rows database sqlite (insert_molecule m.id m.spec_label m.base_commit) d d0 n
              first tt in
          let (t, c) = later (one_molecule r) r' d0 d' rest in
          (
            t
                ∙ ap (molecules_stored (kept files ms)) one
                ∙ ap (λ (l : List MoleculeRecord). record (rows d) { molecules = l })
                    (append_assoc (rows d).molecules (molecule_of m ∷ [])
                      (map molecule_of (kept files ms))),
            c ∙ ap (λ (k : ℕ). record r { molecules = k }) (omega arith),
          )
