-- ===== src/Run/Batch/Midmerge.antt =====
-- What loom/crates/loom-workflow/src/run/parallel.rs merges behind a conflict, with a git client that
-- leaves the conflict in the index.
use wrapix.Prelude.{◌≡◌, sym, subst, arith, Bool, true, false, some, List, [], ◌∷◌, All}
use wrapix.Prelude.Text.{Str}
use wrapix.Prelude.Exec.{ok, pure, continue-eq_ok}
use wrapix.Core.Git.{CreatedWorktree, conflict_merge}
use wrapix.Core.Git.Program.{loom_branch, NotOk}
use wrapix.Core.BeadId.{BeadId}
use wrapix.Core.Label.{SpecLabel}
use wrapix.Run.Retry.{AgentOutcome, success, failure}
use wrapix.Run.Batch.{
  Git, BatchSlot, BatchResult, merged, conflict, agent_failed, merge_back_as, merge_back_one,
  merge_back,
}

-- A branch that is named as those of `create_worktree`.
abbrev pub LoomTree : CreatedWorktree → Type 0
LoomTree worktree = (rest : Str) × (worktree.branch ≡ loom_branch rest)

abbrev pub LoomSlot : BatchSlot → Type 0
LoomSlot slot = LoomTree slot.worktree

abbrev pub is_merged : BatchResult → Bool
is_merged (merged _) = true
is_merged (conflict _ _ _) = false
is_merged (agent_failed _ _) = false

abbrev pub NotMerged : BatchResult → Type 0
NotMerged r = is_merged r ≡ false

-- Behind the first conflict nothing is merged.
abbrev pub NoneAfterConflict : List BatchResult → Type 0
NoneAfterConflict [] = Unit
NoneAfterConflict (conflict _ _ _ ∷ rs) = All NotMerged rs
NoneAfterConflict (merged _ ∷ rs) = NoneAfterConflict rs
NoneAfterConflict (agent_failed _ _ ∷ rs) = NoneAfterConflict rs

-- What merge-back relies on of a git client, in the states `U` whose index has unmerged entries: no
-- merge is done, and the removal of a worktree and of a branch does not settle them.
pub record Halting {S E : Type 0} (git : Git S E) (U : S → Type 0) : Type 0 where
  pub created :
      (label : SpecLabel) (id : BeadId) (s t : S) (worktree : CreatedWorktree)
      → git.create_worktree label id s ≡ (ok worktree, t)
      → LoomTree worktree
  pub opened : (branch : Str) (s t : S) → git.merge_branch branch s ≡ (ok conflict_merge, t) → U t
  pub refused : (rest : Str) (s : S) → U s → NotOk (git.merge_branch (loom_branch rest) s).0
  pub merge_keeps : (rest : Str) (s : S) → U s → U (git.merge_branch (loom_branch rest) s).1
  pub remove_keeps : (path : Str) (s : S) → U s → U (git.remove_worktree path s).1
  pub delete_keeps : (rest : Str) (s : S) → U s → U (git.delete_branch (loom_branch rest) s).1

pub returned :
    {S E A : Type 0} (a b : A) (s t : S) → pure {S = S} {E = E} a s ≡ some (ok b, t) → a ≡ b
returned a b s t e = cc e

module _ {S E : Type 0} (git : Git S E) (U : S → Type 0) (h : Halting git U) where
  one_open :
      (slot : BatchSlot) (o : AgentOutcome) (s : S) (r : BatchResult) (t : S)
      → LoomSlot slot
      → U s
      → merge_back_as git slot o s ≡ some (ok r, t)
      → NotMerged r × U t
  unfolding merge_back_as
  one_open slot success s r t (rest, loom) u e = ground (
    arith,
    subst (λ (b : Str). NotOk (git.merge_branch b s).0) (sym loom) (h.refused rest s u),
    subst (λ (b : Str). U (git.merge_branch b s).1) (sym loom) (h.merge_keeps rest s u),
  )
  one_open slot (failure x) s r t (rest, loom) u e = ground (
    arith,
    subst (λ (b : Str). U (git.delete_branch b (git.remove_worktree slot.worktree.path s).1).1)
        (sym loom) (h.delete_keeps rest _ (h.remove_keeps slot.worktree.path s u)),
  )

  one_conflict :
      (slot : BatchSlot) (o : AgentOutcome) (s t : S) {id : BeadId} {path branch : Str}
      → merge_back_as git slot o s ≡ some (ok (conflict id path branch), t)
      → U t
  unfolding merge_back_as
  one_conflict slot success s t e = ground (arith, h.opened slot.worktree.branch s t)
  one_conflict slot (failure x) s t e = ground arith

  all_open :
      (slots : List BatchSlot) (s : S) (rs : List BatchResult) (t : S)
      → All LoomSlot slots
      → U s
      → merge_back git slots s ≡ some (ok rs, t)
      → All NotMerged rs
  unfolding merge_back merge_back_one
  all_open [] s rs t loom u e = subst (All NotMerged) (returned [] rs s t e) tt
  all_open (slot ∷ slots) s rs t (loom, looms) u e =
      let (r, s1, one, more) = continue-eq_ok (merge_back_one git slot s) _ e in
      let (others, s2, later, finish) = continue-eq_ok (merge_back git slots s1) _ more in
      let (plain, v) = one_open slot slot.outcome s r s1 loom u one in
      subst (All NotMerged) (returned (r ∷ others) rs s2 t finish)
        (plain, all_open slots s1 others s2 looms v later)

  pub merge_back-NoneAfterConflict :
      (slots : List BatchSlot) (s : S) {rs : List BatchResult} {t : S}
      → All LoomSlot slots
      → merge_back git slots s ≡ some (ok rs, t)
      → NoneAfterConflict rs
  unfolding merge_back merge_back_one
  merge_back-NoneAfterConflict [] s {rs} {t} loom e =
      subst NoneAfterConflict (returned [] rs s t e) tt
  merge_back-NoneAfterConflict (slot ∷ slots) s {rs} {t} (loom, looms) e =
      let (r, s1, one, more) = continue-eq_ok (merge_back_one git slot s) _ e in
      let (others, s2, later, finish) = continue-eq_ok (merge_back git slots s1) _ more in
      subst NoneAfterConflict (returned (r ∷ others) rs s2 t finish)
        (behind r s1 others s2 one later (merge_back-NoneAfterConflict slots s1 looms later))
    where
      behind :
          (r : BatchResult) (s1 : S) (others : List BatchResult) (s2 : S)
          → merge_back_one git slot s ≡ some (ok r, s1)
          → merge_back git slots s1 ≡ some (ok others, s2)
          → NoneAfterConflict others
          → NoneAfterConflict (r ∷ others)
      behind (conflict id path branch) s1 others s2 one later rest =
          all_open slots s1 others s2 looms (one_conflict slot slot.outcome s s1 one) later
      behind (merged id) s1 others s2 one later rest = rest
      behind (agent_failed id x) s1 others s2 one later rest = rest
