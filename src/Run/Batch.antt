-- ===== src/Run/Batch.antt =====
-- loom/crates/loom-workflow/src/run/parallel.rs: one parallel batch. The git client is a parameter;
-- each of its calls acts on a state and may fail.
pub mod Ids
pub mod Cleanup
pub mod Halted
pub mod Midmerge
pub mod Noting
mod Tests
use wrapix.Prelude.{ℕ, zero, suc, ◌≡◌, Option, none, some, List, [], ◌∷◌, filter_map}
use wrapix.Prelude.Text.{Str}
use wrapix.Prelude.Exec.{Result, ok, err, Exec, pure, lift, ◌>>=◌, ◌>>◌}
use wrapix.Core.Bead.{Bead}
use wrapix.Core.BeadId.{BeadId}
use wrapix.Core.Label.{SpecLabel}
use wrapix.Core.Git.{CreatedWorktree, MergeResult, ok_merge, conflict_merge}
use wrapix.Run.Retry.{AgentOutcome, success, failure}

pub record Git (S E : Type 0) : Type 0 where
  pub create_worktree : SpecLabel → BeadId → S → Result E CreatedWorktree × S
  pub merge_branch : Str → S → Result E MergeResult × S
  pub remove_worktree : Str → S → Result E (Unit {0}) × S
  pub delete_branch : Str → S → Result E (Unit {0}) × S

pub record WorktreeBead : Type 0 where
  pub bead : Bead
  pub worktree : CreatedWorktree

pub record BatchSlot : Type 0 where
  pub bead : Bead
  pub worktree : CreatedWorktree
  pub outcome : AgentOutcome

pub data BatchResult : Type 0 where
  merged : BeadId → BatchResult
  conflict : BeadId → Str → Str → BatchResult
  agent_failed : BeadId → Str → BatchResult

abbrev merged_id : BatchResult → Option BeadId
merged_id (merged id) = some id
merged_id _ = none

abbrev conflict_id : BatchResult → Option BeadId
conflict_id (conflict id _ _) = some id
conflict_id _ = none

abbrev failure_id : BatchResult → Option BeadId
failure_id (agent_failed id _) = some id
failure_id _ = none

unfoldable pub merged_ids : List BatchResult → List BeadId
merged_ids = filter_map merged_id

unfoldable pub conflict_ids : List BatchResult → List BeadId
conflict_ids = filter_map conflict_id

unfoldable pub failure_ids : List BatchResult → List BeadId
failure_ids = filter_map failure_id

-- One join of the `JoinSet`: a worker that panicked has no slot, and is left out with a warning.
unfoldable pub joined : (WorktreeBead → Option AgentOutcome) → WorktreeBead → Option BatchSlot
joined spawn w = elim (spawn w) [
  | none ↦ none
  | some outcome ↦ some (record { bead = w.bead; worktree = w.worktree; outcome = outcome })
]

-- What the joins give, of the workers in the order in which they end.
unfoldable pub joined_slots :
    (WorktreeBead → Option AgentOutcome) → List WorktreeBead → List BatchSlot
unfolding joined
joined_slots spawn finished = filter_map (joined spawn) finished

-- The agents run at the same time. `schedule` gives the order in which they end, `work` what they do to
-- the repository until then, all together and however their steps interleave (they commit to their
-- branches), and `spawn` what each of them reports.
unfoldable pub run_concurrent_spawns :
    {S E : Type 0}
    → (List WorktreeBead → List WorktreeBead)
    → (WorktreeBead → Option AgentOutcome)
    → (List WorktreeBead → S → S)
    → List WorktreeBead
    → Exec S E (List BatchSlot)
unfolding joined_slots
run_concurrent_spawns schedule spawn work slots s =
    some (ok (joined_slots spawn (schedule slots)), work slots s)

module _ {S E : Type 0} (git : Git S E) where
  unfoldable pub create_worktrees : SpecLabel → List Bead → Exec S E (List WorktreeBead)
  create_worktrees label [] = pure []
  create_worktrees label (bead ∷ beads) = do
    wt ← lift (git.create_worktree label bead.id)
    rest ← create_worktrees label beads
    pure (record { bead = bead; worktree = wt } ∷ rest)

  -- What becomes of a slot whose branch was merged.
  abbrev pub after_merge : BatchSlot → MergeResult → Exec S E BatchResult
  after_merge slot ok_merge = do
    lift (git.remove_worktree slot.worktree.path)
    lift (git.delete_branch slot.worktree.branch)
    pure (merged slot.bead.id)
  after_merge slot conflict_merge =
      pure (conflict slot.bead.id slot.worktree.path slot.worktree.branch)

  unfoldable pub merge_back_as : BatchSlot → AgentOutcome → Exec S E BatchResult
  merge_back_as slot success = do
    result ← lift (git.merge_branch slot.worktree.branch)
    after_merge slot result
  merge_back_as slot (failure error) = do
    lift (git.remove_worktree slot.worktree.path)
    lift (git.delete_branch slot.worktree.branch)
    pure (agent_failed slot.bead.id error)

  unfoldable pub merge_back_one : BatchSlot → Exec S E BatchResult
  unfolding merge_back_as
  merge_back_one slot = merge_back_as slot slot.outcome

  unfoldable pub merge_back : List BatchSlot → Exec S E (List BatchResult)
  unfolding merge_back_one
  merge_back [] = pure []
  merge_back (slot ∷ slots) = do
    result ← merge_back_one slot
    results ← merge_back slots
    pure (result ∷ results)

  unfoldable pub run_parallel_batch :
      (List WorktreeBead → List WorktreeBead)
      → SpecLabel
      → List Bead
      → (WorktreeBead → Option AgentOutcome)
      → (List WorktreeBead → S → S)
      → Exec S E (List BatchResult)
  unfolding create_worktrees run_concurrent_spawns merge_back
  run_parallel_batch schedule label beads spawn work = do
    slots ← create_worktrees label beads
    batch_slots ← run_concurrent_spawns schedule spawn work slots
    merge_back batch_slots
