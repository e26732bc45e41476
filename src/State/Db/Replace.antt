-- ===== src/State/Db/Replace.antt =====
-- What `replace_companions` of loom/crates/loom-core/src/state/db.rs leaves in the tables.
use wrapix.Prelude.{
  ◌≡◌, ◌↔◌, refl, sym, ap, ◌∙◌, subst, Bool, true, false, Option, none, some, List, [], ◌∷◌, In,
  find, Distinct, inl, inr, Bool-cases, if◌then◌else◌,
}
use wrapix.Prelude.Text.{Str, str_eq, str_eq_iff, str_eq_refl}
use wrapix.Prelude.Exec.{ok, err}
use wrapix.Prelude.Act.{after-eq_ok, ◌>>◌}
use wrapix.Core.Label.{SpecLabel}
use wrapix.State.Sql.{
  SpecRecord, Tables, upsert_spec, delete_companions, ignore_companion, Database,
}
use wrapix.State.Sql.Sqlite.{Sqlite, applied, paths_of, put_spec, drop_companions, add_companion}
use wrapix.State.Sql.Companions.{stored, stored-Distinct, stored-In}
use wrapix.State.Sql.Replacing.{drop_same, replaced_other}
use wrapix.State.Sql.Steps.{execute-rows, returned}
use wrapix.State.Db.{poisoned, execute, insert_companions, replace_companions}

abbrev pub spec_at : Str → List SpecRecord → Option SpecRecord
spec_at label = find (λ (r : SpecRecord). str_eq r.label label)

abbrev pub notes_in : Option SpecRecord → Option Str
notes_in none = none
notes_in (some r) = r.implementation_notes

abbrev pub spec_with : Str → Str → Option Str → SpecRecord
spec_with label path notes = record {
  label = label;
  spec_path = path;
  implementation_notes = notes;
}

-- The spec has the path, and the notes that it had; the companions of its label are the given ones,
-- each once, and those of other labels are as they were.
pub record Replaced (label : SpecLabel) (path : Str) (ps : List Str) (t t' : Tables) : Type 0 where
  pub at_path :
      spec_at label t'.specs ≡ some (spec_with label path (notes_in (spec_at label t.specs)))
  pub once : Distinct (paths_of label t'.companions)
  pub given : (p : Str) → In p (paths_of label t'.companions) ↔ In p ps
  pub others :
      (l : Str) → str_eq label l ≡ false → paths_of l t'.companions ≡ paths_of l t.companions
  pub active : t'.molecules ≡ t.molecules
  pub meta : t'.meta ≡ t.meta

put_spec-at :
    (label path : Str) (rows : List SpecRecord)
    → spec_at label (put_spec label path rows)
      ≡ some (spec_with label path (notes_in (spec_at label rows)))
unfolding put_spec
put_spec-at label path [] = rw (str_eq_refl label) refl
put_spec-at label path (r ∷ rows) = elim (Bool-cases (str_eq r.label label)) [
  | inl e ↦
      rw (e, e)
        (ap (λ (l : Str). some (spec_with l path r.implementation_notes))
          ((str_eq_iff r.label label).0 e))
  | inr e ↦ rw (e, e) (put_spec-at label path rows)
]

module _ {D Q J I : Type 0} (database : Database D Q J I) (sqlite : Sqlite database) where
  open sqlite use {rows}

  insert-Stored :
      (label : SpecLabel) (ps : List Str) (d d' : D)
      → insert_companions database label ps d ≡ (ok tt, d')
      → rows d' ≡ record (rows d) { companions = stored label ps (rows d).companions }
  unfolding insert_companions applied add_companion
  insert-Stored label [] d d' h = sym (ap rows (returned tt d h).1)
  insert-Stored label (p ∷ ps) d d' h =
      let (n, e, first, rest) =
        after-eq_ok (execute database (ignore_companion label p) d)
          (λ _. insert_companions database label ps) h in
      insert-Stored label ps e d' rest
      ∙ ap (λ (t : Tables). record t { companions = stored label ps t.companions })
          (execute-rows database sqlite (ignore_companion label p) d e n first tt)

  abbrev replaced : SpecLabel → Str → List Str → Tables → Tables
  replaced label path ps t = record t {
    specs = put_spec label path t.specs;
    companions = stored label ps (drop_companions label t.companions);
  }

  replaced-Replaced :
      (label : SpecLabel) (path : Str) (ps : List Str) (t : Tables)
      → Replaced label path ps t (replaced label path ps t)
  replaced-Replaced label path ps t =
      let gone = drop_same label t.companions in
      record {
        at_path = put_spec-at label path t.specs;
        once =
            stored-Distinct label label ps (drop_companions label t.companions)
              (subst Distinct (sym gone) tt);
        given = λ p. (
          λ i. elim ((stored-In label label p ps (drop_companions label t.companions)).0 i) [
            | inl j ↦ absurd (subst (λ (l : List Str). In p l) gone j)
            | inr (e, j) ↦ j
          ],
          λ j.
              (stored-In label label p ps (drop_companions label t.companions)).1
                (inr (str_eq_refl label, j)),
        );
        others = λ l ne. replaced_other l label ps t.companions ne;
        active = refl;
        meta = refl;
      }

  replace-rows :
      (label : SpecLabel) (path : Str) (ps : List Str) (d d' : D)
      → (execute database (upsert_spec label path)
            >> execute database (delete_companions label)
            >> insert_companions database label ps)
          d
        ≡ (ok tt, d')
      → rows d' ≡ replaced label path ps (rows d)
  unfolding applied
  replace-rows label path ps d d' h =
      let (n2, d2, h2, last) =
        after-eq_ok
          ((execute database (upsert_spec label path) >> execute database (delete_companions label))
            d)
          (λ _. insert_companions database label ps) h in
      let (n1, d1, first, second) =
        after-eq_ok (execute database (upsert_spec label path) d)
          (λ _. execute database (delete_companions label)) h2 in
      insert-Stored label ps d2 d' last
      ∙ ap (λ (t : Tables). record t { companions = stored label ps t.companions })
          (execute-rows database sqlite (delete_companions label) d1 d2 n2 second tt
            ∙ ap (applied (delete_companions label))
                (execute-rows database sqlite (upsert_spec label path) d d1 n1 first tt))

  under_lock :
      (label : SpecLabel) (path : Str) (ps : List Str) (d d' : D) (b : Bool)
      → (if b
          then (err poisoned, d)
          else (execute database (upsert_spec label path)
                >> execute database (delete_companions label)
                >> insert_companions database label ps)
              d)
        ≡ (ok tt, d')
      → Replaced label path ps (rows d) (rows d')
  under_lock label path ps d d' true h = cc h
  under_lock label path ps d d' false h =
      subst (Replaced label path ps (rows d)) (sym (replace-rows label path ps d d' h))
        (replaced-Replaced label path ps (rows d))

  pub replace_companions-Replaced :
      (label : SpecLabel) (path : Str) (ps : List Str) (d d' : D)
      → replace_companions database label path ps d ≡ (ok tt, d')
      → Replaced label path ps (rows d) (rows d')
  unfolding replace_companions
  replace_companions-Replaced label path ps d d' h =
      under_lock label path ps d d' (database.is_poisoned d) h
