-- ===== src/Plan/Companions/Listed.antt =====
-- What `loom plan` leaves of a spec's companions in the state database.
use mathlib.Core.List.{Perm}
use wrapix.Prelude.{
  ◌≡◌, ◌↔◌, refl, sym, subst, ap, ◌∙◌, Bool, true, false, List, In, Distinct, if◌then◌else◌,
}
use wrapix.Prelude.Text.{Str}
use wrapix.Prelude.Sorting.{Ordered}
use wrapix.Prelude.Exec.{Result, ok, err}
use wrapix.Core.Label.{SpecLabel}
use wrapix.State.Companions.{parse_companions}
use wrapix.State.Sql.{Database}
use wrapix.State.Sql.Sqlite.{Sqlite, paths_of}
use wrapix.State.Sql.Steps.{returned}
use wrapix.State.Db.{StateError, poisoned, asked, companions, replace_companions}
use wrapix.State.Db.Replace.{Replaced, replace_companions-Replaced}
use wrapix.Plan.Companions.{
  CompanionReconciliation, section_present_in, reconciled, reconcile_body, reconcile_companions,
}

-- The paths in order, each once.
abbrev pub OrderedSet : List Str → List Str → Type 0
OrderedSet out ps =
    Ordered (λ s. s) out
    × (kept : List Str) × Perm out kept
    × Distinct kept
    × ((p : Str) → In p kept ↔ In p ps)

module _ {D Q J I : Type 0} (database : Database D Q J I) (sqlite : Sqlite database) where
  open sqlite use {rows}

  abbrev list_of : List Str → Result (StateError Q J I) (List Str) → List Str
  list_of l (ok out) = out
  list_of l (err x) = l

  -- What the list of the companions is.
  listed_rows :
      (label : SpecLabel) (d d' : D) (out : List Str) (b : Bool) (r : Result Q (List Str))
      → database.select_companions label d ≡ r
      → Path
          (Result (StateError Q J I) (List Str) × D)
          (if b then (err poisoned, d) else (asked database r, d))
          (ok out, d')
      → Ordered (λ s. s) out × Perm out (paths_of label (rows d).companions)
  listed_rows label d d' out true r e h = cc h
  listed_rows label d d' out false (err x) e h = cc h
  listed_rows label d d' out false (ok l) e h =
      sqlite.listed label d out
        (e ∙ ap (λ (t : Result (StateError Q J I) (List Str) × D). ok (list_of l t.0)) h)

  abbrev pub Landed : SpecLabel → Str → CompanionReconciliation → Result I Str → D → D → Type 0
  Landed label spec_path outcome source d d' =
      (body : Str) × (source ≡ ok body)
      × (outcome.paths ≡ parse_companions body)
      × (outcome.section_present ≡ section_present_in body)
      × Replaced label spec_path outcome.paths (rows d) (rows d')

  module _ {R : Type 0} (read_to_string : Str → D → Result I Str) where
    stored-Landed :
        (label : SpecLabel) (spec_path body : Str) (outcome : CompanionReconciliation) (d d' : D)
        (r : Result (StateError Q J I) (Unit {0}) × D)
        → replace_companions database label spec_path (parse_companions body) d ≡ r
        → reconciled {R = R} database read_to_string
            (record { paths = parse_companions body; section_present = section_present_in body })
            r
          ≡ (ok outcome, d')
        → Landed label spec_path outcome (ok body) d d'
    stored-Landed label spec_path body outcome d d' (err x, d1) e h = cc h
    stored-Landed label spec_path body outcome d d' (ok u, d1) e h =
        let (same, at) =
          returned
            (record { paths = parse_companions body; section_present = section_present_in body }) d1
            h in
        (
          body,
          refl,
          ap (λ (o : CompanionReconciliation). o.paths) (sym same),
          ap (λ (o : CompanionReconciliation). o.section_present) (sym same),
          subst
              (λ (p : CompanionReconciliation × D).
                Replaced label spec_path p.0.paths (rows d) (rows p.1))
              (λ i. (same i, at i))
              (replace_companions-Replaced database sqlite label spec_path (parse_companions body) d
                d1 e),
        )

    body-Landed :
        (label : SpecLabel) (spec_path : Str) (outcome : CompanionReconciliation) (d d' : D)
        (source : Result I Str)
        → reconcile_body {R = R} database read_to_string label spec_path source d ≡ (ok outcome, d')
        → Landed label spec_path outcome source d d'
    body-Landed label spec_path outcome d d' (err x) h = cc h
    body-Landed label spec_path outcome d d' (ok body) h =
        stored-Landed label spec_path body outcome d d'
          (replace_companions database label spec_path (parse_companions body) d) refl h

    -- Where `loom plan` writes the companions of a spec and the database then lists them: they are the
    -- paths that the spec's file declares, in order, each once. The spec has the given path and the
    -- notes that it had, and the companions of the other specs, the molecules and the meta rows stay.
    pub reconcile_companions-listed :
        (label : SpecLabel) (spec_path : Str) (outcome : CompanionReconciliation) (out : List Str)
        (d d' e : D)
        → reconcile_companions {R = R} database read_to_string label spec_path d ≡ (ok outcome, d')
        → companions database label d' ≡ (ok out, e)
        → Landed label spec_path outcome (read_to_string spec_path d) d d'
          × OrderedSet out outcome.paths
    unfolding reconcile_companions
    reconcile_companions-listed label spec_path outcome out d d' e h l =
        let landed = body-Landed label spec_path outcome d d' (read_to_string spec_path d) h in
        let (ordered, perm) =
          listed_rows label d' e out (database.is_poisoned d') (database.select_companions label d')
            refl l in
        let (body, source, paths, section, replaced) = landed in
        (
          landed,
          (ordered, paths_of label (rows d').companions, perm, replaced.once, replaced.given),
        )
