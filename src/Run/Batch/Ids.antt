-- ===== src/Run/Batch/Ids.antt =====
-- A parallel batch loses no bead and reports none twice.
use mathlib.Core.List.{Perm}
use mathlib.Core.List.Perm
use wrapix.Prelude.{◌≡◌, refl, ◌∙◌, subst, Option, some, List, [], ◌∷◌, map, arith}
use wrapix.Prelude.Exec.{ok, continue-eq_ok}
use wrapix.Core.Bead.{Bead}
use wrapix.Core.BeadId.{BeadId}
use wrapix.Core.Label.{SpecLabel}
use wrapix.Run.Retry.{AgentOutcome, success, failure}
use wrapix.Run.Batch.{
  Git, WorktreeBead, BatchSlot, BatchResult, merged, conflict, agent_failed, create_worktrees,
  joined_slots, merge_back_as, merge_back_one, merge_back, run_parallel_batch,
}

abbrev pub id_of : BatchResult → BeadId
id_of (merged id) = id
id_of (conflict id _ _) = id
id_of (agent_failed id _) = id

abbrev slot_bead : WorktreeBead → Bead
slot_bead w = w.bead

abbrev slot_id : BatchSlot → BeadId
slot_id slot = slot.bead.id

abbrev pub bead_id : Bead → BeadId
bead_id bead = bead.id

module _ {S E : Type 0} (git : Git S E) where
  merge_one-id :
      (slot : BatchSlot) (o : AgentOutcome) (s : S) (r : BatchResult) (t : S)
      → merge_back_as git slot o s ≡ some (ok r, t)
      → id_of r ≡ slot.bead.id
  unfolding merge_back_as
  merge_one-id slot success s r t h = ground arith
  merge_one-id slot (failure e) s r t h = ground arith

  merge_back-ids :
      (slots : List BatchSlot) (s : S) (rs : List BatchResult) (t : S)
      → merge_back git slots s ≡ some (ok rs, t)
      → map id_of rs ≡ map slot_id slots
  unfolding merge_back
  merge_back-ids [] s rs t h = ground arith
  merge_back-ids (slot ∷ slots) s rs t h =
      let (r, s1, one, more) = continue-eq_ok (merge_back_one git slot s) _ h in
      let (rest, s2, others, finish) = continue-eq_ok (merge_back git slots s1) _ more in
      ground (
        arith,
        finish,
        merge_one-id slot slot.outcome s r s1 one,
        merge_back-ids slots s1 rest s2 others,
      )

  create_worktrees-beads :
      (label : SpecLabel) (beads : List Bead) (s : S) (ws : List WorktreeBead) (t : S)
      → create_worktrees git label beads s ≡ some (ok ws, t)
      → map slot_bead ws ≡ beads
  unfolding create_worktrees
  create_worktrees-beads label [] s ws t h = ground arith
  create_worktrees-beads label (bead ∷ beads) s ws t h =
      let (wt, s1, one, more) = continue-eq_ok (some (git.create_worktree label bead.id s)) _ h in
      let (rest, s2, others, finish) =
        continue-eq_ok (create_worktrees git label beads s1) _ more in
      ground (arith, finish, create_worktrees-beads label beads s1 rest s2 others)

spawned-ids :
    (spawn : WorktreeBead → Option AgentOutcome)
    → ((w : WorktreeBead) → (o : AgentOutcome) × (spawn w ≡ some o))
    → (ws : List WorktreeBead)
    → map slot_id (joined_slots spawn ws) ≡ map bead_id (map slot_bead ws)
unfolding joined_slots
spawned-ids spawn ends [] = refl
spawned-ids spawn ends (w ∷ ws) =
    let (o, e) = ends w in ground (arith, e, spawned-ids spawn ends ws)

-- If no worker panics and the batch does not stop at a git error, its results are about the beads
-- that it was given, each as often as given, in whatever order the workers ended and whatever they
-- did to the repository.
pub run_parallel_batch-Perm :
    {S E : Type 0} (git : Git S E) (schedule : List WorktreeBead → List WorktreeBead)
    (label : SpecLabel) (beads : List Bead) (spawn : WorktreeBead → Option AgentOutcome)
    (work : List WorktreeBead → S → S) (s : S) {rs : List BatchResult} {t : S}
    → ((ws : List WorktreeBead) → Perm (schedule ws) ws)
    → ((w : WorktreeBead) → (o : AgentOutcome) × (spawn w ≡ some o))
    → run_parallel_batch git schedule label beads spawn work s ≡ some (ok rs, t)
    → Perm (map id_of rs) (map bead_id beads)
unfolding run_parallel_batch
run_parallel_batch-Perm git schedule label beads spawn work s {rs} {t} fair ends h =
    let (ws, s1, created, merges) = continue-eq_ok (create_worktrees git label beads s) _ h in
    let ids =
      merge_back-ids git (joined_slots spawn (schedule ws)) (work ws s1) rs t merges
      ∙ spawned-ids spawn ends (schedule ws) in
    subst (λ bs. Perm (map id_of rs) (map bead_id bs))
      (create_worktrees-beads git label beads s ws s1 created)
      (rw ids (Perm.map bead_id (Perm.map slot_bead (fair ws))))
