-- ===== src/Plan/Companions.antt =====
-- loom/crates/loom-workflow/src/plan/companions.rs: the companions that a spec declares are written
-- to the state database. Reading the spec's file is a parameter.
pub mod Listed
use wrapix.Prelude.{ℕ, Bool, List, any}
use wrapix.Prelude.Text.{Str, str_eq, lines}
use wrapix.Prelude.Exec.{Result, ok, err}
use wrapix.Prelude.Act.{Act}
use wrapix.Core.Label.{SpecLabel}
use wrapix.State.Companions.{heading, parse_companions}
use wrapix.State.Sql.{Database}
use wrapix.State.Db.{StateError, replace_companions}
use wrapix.Plan.{PlanError, read_spec, state}

pub record CompanionReconciliation : Type 0 where
  pub paths : List Str
  pub section_present : Bool

unfoldable pub section_present_in : Str → Bool
unfolding lines str_eq
section_present_in body = any (λ (l : Str). str_eq l heading) (lines body)

module _ {D Q J I R : Type 0} (database : Database D Q J I)
    (read_to_string : Str → D → Result I Str) where
  abbrev pub reconciled :
      CompanionReconciliation
      → Result (StateError Q J I) (Unit {0}) × D
      → Result (PlanError Q J I R) CompanionReconciliation × D
  reconciled found (ok _, d) = (ok found, d)
  reconciled found (err e, d) = (err (state e), d)

  abbrev pub reconcile_body :
      SpecLabel → Str → Result I Str → Act D (PlanError Q J I R) CompanionReconciliation
  reconcile_body label spec_path (err e) d = (err (read_spec spec_path e), d)
  reconcile_body label spec_path (ok body) d =
      reconciled
        (record { paths = parse_companions body; section_present = section_present_in body })
        (replace_companions database label spec_path (parse_companions body) d)

  unfoldable pub reconcile_companions :
      SpecLabel → Str → Act D (PlanError Q J I R) CompanionReconciliation
  unfolding parse_companions section_present_in replace_companions
  reconcile_companions label spec_path d =
      reconcile_body label spec_path (read_to_string spec_path d) d
