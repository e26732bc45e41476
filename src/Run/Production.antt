-- ===== src/Run/Production.antt =====
-- loom/crates/loom-workflow/src/run/production.rs: the controller of the `loom run` binary. The
-- `bd` client and the `loom check` process are parameters.
use wrapix.Prelude.{ℕ, ◌≡◌, refl, Bool, Option, none, some, List, [], ◌∷◌, ◌++◌, if◌then◌else◌}
use wrapix.Prelude.Text.{Str, codes}
use wrapix.Prelude.Exec.{Result, ok, err}
use wrapix.Core.Bead.{Bead}
use wrapix.Core.BeadId.{BeadId}
use wrapix.Core.Label.{SpecLabel, spec_prefix, clarify}
use wrapix.Run.Retry.{failure, RetryPolicy, Controller}
use wrapix.Run.Loop.{continuous, run_loop}
use wrapix.Run.Loop.Endless.{Endless, run_loop-never_returns}

-- What the controller uses of `BdClient` and of the child process.
pub record Bd (S E : Type 0) : Type 0 where
  -- `ready` with a limit and a label filter
  pub ready : Option ℕ → Option Str → S → Result E (List Bead) × S
  pub close : BeadId → Option Str → S → Result E (Unit {0}) × S
  -- `update` with labels to add
  pub add_labels : BeadId → List Str → S → Result E (Unit {0}) × S
  -- `loom check -s <label>`: did the process succeed?
  pub loom_check : SpecLabel → S → Result E Bool × S
  -- `RunError::CheckHandoff`
  pub check_handoff : E

abbrev pub stub_agent_error : Str
stub_agent_error = codes "loom-agent backend not yet implemented (wx-3hhwq.20)"

abbrev pub spec_label_filter : SpecLabel → Str
spec_label_filter label = spec_prefix ++ label

-- `beads.into_iter().next()`
abbrev first : List Bead → Option Bead
first [] = none
first (bead ∷ _) = some bead

module _ {S E : Type 0} (bd : Bd S E) (label : SpecLabel) where
  abbrev first_ready : Result E (List Bead) × S → Result E (Option Bead) × S
  first_ready (ok beads, s) = (ok (first beads), s)
  first_ready (err x, s) = (err x, s)

  abbrev handoff : Result E Bool × S → Result E (Unit {0}) × S
  handoff (ok succeeded, s) = (if succeeded then ok tt else err bd.check_handoff, s)
  handoff (err x, s) = (err x, s)

  -- The backend is a stub: every attempt fails.
  unfoldable pub production : Controller S E
  production = record {
    next_ready_bead = λ s. first_ready (bd.ready (some 1) (some (spec_label_filter label)) s);
    run_bead = λ bead previous_failure s. (ok (failure stub_agent_error), s);
    close_bead = λ id s. bd.close id none s;
    apply_clarify = λ id s. bd.add_labels id (clarify ∷ []) s;
    exec_check = λ s. handoff (bd.loom_check label s);
  }

-- `bd` behaviour: in the states `I` some bead of the spec is ready, and adding the label
-- `loom:clarify` to a bead leads to such a state again. `bd ready` lists unblocked open beads, whatever
-- their other labels, and a label closes no bead and blocks none.
pub record StaysReady {S E : Type 0} (bd : Bd S E) (label : SpecLabel) (I : S → Type 0)
    : Type 0 where
  pub ready :
      (s : S)
      → I s
      → (bead : Bead) × (others : List Bead) × (t : S) × (bd.ready
            (some 1)
            (some (spec_label_filter label))
            s
          ≡ (ok (bead ∷ others), t))
        × I t
  pub labelled :
      (id : BeadId) (s : S) → I s → (t : S) × (bd.add_labels id (clarify ∷ []) s ≡ (ok tt, t)) × I t

module _ {S E : Type 0} (bd : Bd S E) (label : SpecLabel) (I : S → Type 0) where
  production-Endless : StaysReady bd label I → Endless (production bd label) I
  unfolding production
  production-Endless h = record {
    pull = λ s i. let (bead, others, t, e, j) = h.ready s i in (bead, t, rw e, j);
    ran = λ bead p s i. (failure stub_agent_error, s, refl, i);
    closed = λ bead p s t i e. cc e;
    flagged = λ id s i. h.labelled id s i;
  }

  -- Where a bead of the spec stays ready although beads get the label `loom:clarify`, the
  -- continuous `loom run` of the binary never returns: it pulls beads that it has given up on again.
  pub production-never_returns :
      (policy : RetryPolicy) (fuel : ℕ) (s : S)
      → StaysReady bd label I
      → I s
      → run_loop (production bd label) policy continuous fuel s ≡ none
  production-never_returns policy fuel s h =
      run_loop-never_returns (production bd label) policy I (production-Endless h) fuel s
