-- ===== src/Run/Batch/Halted.antt =====
-- The parallel batch of loom/crates/loom-workflow/src/run/parallel.rs with the git client of
-- loom/crates/loom-core/src/git/client.rs, as the loom binary runs it.
use wrapix.Prelude.{
  All-In, In-All, All-filter_map, In, Option, ◌≡◌, subst, arith, some, List, [], ◌∷◌, ◌++◌, All,
}
use wrapix.Prelude.Text.{Str}
use wrapix.Prelude.Exec.{ok, continue-eq_ok}
use wrapix.Core.Git.{
  GitError, System, create_worktree, remove_worktree, delete_branch, merge_branch,
}
use wrapix.Core.Git.Program.{
  Unmerging, LeavesOpen, remove_worktree-keeps, delete_branch-keeps, merge_branch-keeps,
  merge_branch-NotOk, merge_branch-LeavesOpen,
}
use wrapix.Core.Label.{SpecLabel}
use wrapix.Run.Retry.{AgentOutcome}
use wrapix.Core.Bead.{Bead}
use wrapix.Core.Git.Create.{create_worktree-branch}
use wrapix.Run.Batch.{
  Git, BatchSlot, BatchResult, WorktreeBead, joined, create_worktrees, joined_slots,
  run_parallel_batch,
}
use wrapix.Run.Batch.Midmerge.{
  returned, LoomTree, LoomSlot, NoneAfterConflict, Halting, merge_back-NoneAfterConflict,
}

-- `GitClient`
unfoldable pub git_client : {S I : Type 0} → System S I → Str → Git S (GitError I)
unfolding create_worktree remove_worktree delete_branch merge_branch
git_client system workdir = record {
  create_worktree = create_worktree system workdir;
  merge_branch = merge_branch system workdir;
  remove_worktree = remove_worktree system workdir;
  delete_branch = delete_branch system workdir;
}

git_client-Halting :
    {S I : Type 0} (system : System S I) (workdir : Str) (U : S → Type 0)
    → Unmerging system workdir U
    → Halting (git_client system workdir) U
unfolding git_client
git_client-Halting system workdir U h = record {
  created = λ label id s t worktree e.
      (label ++ b'/' ∷ id, (create_worktree-branch system workdir label id s t worktree e).0);
  opened =
      λ branch s t e. subst (LeavesOpen U) e (merge_branch-LeavesOpen system workdir U h branch s);
  refused = merge_branch-NotOk system workdir U h;
  merge_keeps = merge_branch-keeps system workdir U h;
  remove_keeps = remove_worktree-keeps system workdir U h;
  delete_keeps = delete_branch-keeps system workdir U h;
}

abbrev LoomBead : WorktreeBead → Type 0
LoomBead w = LoomTree w.worktree

joined-worktree :
    (spawn : WorktreeBead → Option AgentOutcome) (w : WorktreeBead) (slot : BatchSlot)
    → joined spawn w ≡ some slot
    → w.worktree ≡ slot.worktree
unfolding joined
joined-worktree spawn w slot e = ground (arith, e)

spawned-Loom :
    (spawn : WorktreeBead → Option AgentOutcome) (ws : List WorktreeBead)
    → All LoomBead ws
    → All LoomSlot (joined_slots spawn ws)
unfolding joined_slots
spawned-Loom spawn =
    All-filter_map LoomBead LoomSlot (joined spawn)
      (λ w slot p e. subst LoomTree (joined-worktree spawn w slot e) p)

module _ {S E : Type 0} (git : Git S E) (U : S → Type 0) (h : Halting git U) where
  created-Loom :
      (label : SpecLabel) (beads : List Bead) (s : S) (ws : List WorktreeBead) (t : S)
      → create_worktrees git label beads s ≡ some (ok ws, t)
      → All LoomBead ws
  unfolding create_worktrees
  created-Loom label [] s ws t e = subst (All LoomBead) (returned [] ws s t e) tt
  created-Loom label (bead ∷ beads) s ws t e =
      let (wt, s1, one, more) = continue-eq_ok (some (git.create_worktree label bead.id s)) _ e in
      let (rest, s2, others, finish) =
        continue-eq_ok (create_worktrees git label beads s1) _ more in
      subst (All LoomBead) (returned _ ws s2 t finish)
        (h.created label bead.id s s1 wt (cc one), created-Loom label beads s1 rest s2 others)

-- A batch with the git client, in whatever order its workers end and whatever they do to the
-- repository, where git behaves as documented and
-- the batch does not stop at a git error: behind the first conflict no branch is merged any more,
-- whatever it holds. Every later result is a conflict or the failure of an agent.
pub run_parallel_batch-NoneAfterConflict :
    {S I : Type 0} (system : System S I) (workdir : Str) (U : S → Type 0)
    (schedule : List WorktreeBead → List WorktreeBead) (label : SpecLabel) (beads : List Bead)
    (spawn : WorktreeBead → Option AgentOutcome) (work : List WorktreeBead → S → S) (s : S)
    {rs : List BatchResult} {t : S}
    → Unmerging system workdir U
    → ((ws : List WorktreeBead) (w : WorktreeBead) → In w (schedule ws) → In w ws)
    → run_parallel_batch (git_client system workdir) schedule label beads spawn work s
      ≡ some (ok rs, t)
    → NoneAfterConflict rs
unfolding run_parallel_batch
run_parallel_batch-NoneAfterConflict system workdir U schedule label beads spawn work s {rs} {t} h
      fair e =
    let client = git_client-Halting system workdir U h in
    let (ws, s1, created, merges) =
      continue-eq_ok (create_worktrees (git_client system workdir) label beads s) _ e in
    let loom = created-Loom (git_client system workdir) U client label beads s ws s1 created in
    merge_back-NoneAfterConflict (git_client system workdir) U client
      (joined_slots spawn (schedule ws)) (work ws s1)
      (spawned-Loom spawn (schedule ws)
        (In-All LoomBead (schedule ws) (λ w i. All-In LoomBead ws loom w (fair ws w i))))
      merges
