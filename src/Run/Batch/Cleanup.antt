-- ===== src/Run/Batch/Cleanup.antt =====
-- The git calls of `merge_back` of loom/crates/loom-workflow/src/run/parallel.rs: which branches are
-- merged, which worktrees are removed, and where it stops.
use wrapix.Prelude.{
  sym, ap, ap₂, ◌∙◌, refl, ◌≡◌, some, List, [], ◌∷◌, ◌++◌, append_assoc, append-nil,
}
use wrapix.Prelude.Text.{Str}
use wrapix.Prelude.Exec.{Result, ok, err}
use wrapix.Run.Batch.Noting.{Noting, pure-Noting, continue-Noting, call-Noting}
use wrapix.Core.Git.{CreatedWorktree, MergeResult, ok_merge, conflict_merge}
use wrapix.Core.BeadId.{BeadId}
use wrapix.Run.Retry.{AgentOutcome, success, failure}
use wrapix.Run.Batch.{
  Git, BatchSlot, BatchResult, merged, conflict, agent_failed, after_merge, merge_back_as,
  merge_back_one, merge_back,
}

-- A call of git, with its answer.
pub data GitCall (E : Type 0) : Type 0 where
  created : BeadId → Result E CreatedWorktree → GitCall E
  merging : Str → Result E MergeResult → GitCall E
  removed : Str → Result E (Unit {0}) → GitCall E
  deleted : Str → Result E (Unit {0}) → GitCall E

-- A git client that notes each call, in order, with what it answers.
module _ {S E : Type 0} where
  abbrev noted :
      {A : Type 0}
      → (Result E A → GitCall E)
      → (S → Result E A × S)
      → S × List (GitCall E)
      → Result E A × (S × List (GitCall E))
  noted call m (s, log) = ((m s).0, ((m s).1, log ++ call (m s).0 ∷ []))

  abbrev pub recording : Git S E → Git (S × List (GitCall E)) E
  recording git = record {
    create_worktree = λ label id. noted (created id) (git.create_worktree label id);
    merge_branch = λ branch. noted (merging branch) (git.merge_branch branch);
    remove_worktree = λ path. noted (removed path) (git.remove_worktree path);
    delete_branch = λ branch. noted (deleted branch) (git.delete_branch branch);
  }

module _ {E : Type 0} where
  -- The calls that lead to a result, with the answers: a slot is merged where git merged its branch,
  -- and then its worktree and its branch go; it is a conflict where git answered that, and then
  -- nothing goes; the branch of an agent that failed is not merged, and goes with its worktree.
  abbrev pub calls_of : BatchSlot → BatchResult → List (GitCall E)
  calls_of slot (merged _) =
      merging slot.worktree.branch (ok ok_merge)
      ∷ removed slot.worktree.path (ok tt)
      ∷ deleted slot.worktree.branch (ok tt)
      ∷ []
  calls_of slot (conflict _ _ _) = merging slot.worktree.branch (ok conflict_merge) ∷ []
  calls_of slot (agent_failed _ _) =
      removed slot.worktree.path (ok tt) ∷ deleted slot.worktree.branch (ok tt) ∷ []

-- The result that each outcome may lead to.
abbrev pub Fits : BatchSlot → AgentOutcome → BatchResult → Type 0
Fits slot success (merged id) = id ≡ slot.bead.id
Fits slot success (conflict id path branch) =
    (id ≡ slot.bead.id) × (path ≡ slot.worktree.path) × (branch ≡ slot.worktree.branch)
Fits slot (failure e) (agent_failed id error) = (id ≡ slot.bead.id) × (error ≡ e)
Fits slot _ _ = ⊥

abbrev pub AllFit : List BatchSlot → List BatchResult → Type 0
AllFit [] [] = Unit
AllFit (slot ∷ slots) (r ∷ rs) = Fits slot slot.outcome r × AllFit slots rs
AllFit _ _ = ⊥

abbrev pub all_calls : {E : Type 0} → List BatchSlot → List BatchResult → List (GitCall E)
all_calls (slot ∷ slots) (r ∷ rs) = calls_of slot r ++ all_calls slots rs
all_calls _ _ = []

-- The calls at a slot where git fails: the last one answers the error, and those before it succeeded.
pub data Broke {E : Type 0} (slot : BatchSlot) (e : E)
    : AgentOutcome → List (GitCall E) → Type 0 where
  at_merge : Broke slot e success (merging slot.worktree.branch (err e) ∷ [])
  at_removal :
      Broke slot e success
        (merging slot.worktree.branch (ok ok_merge) ∷ removed slot.worktree.path (err e) ∷ [])
  at_deletion : Broke slot e success (
      merging slot.worktree.branch (ok ok_merge)
      ∷ removed slot.worktree.path (ok tt)
      ∷ deleted slot.worktree.branch (err e)
      ∷ [])
  at_failed_removal :
      (error : Str) → Broke slot e (failure error) (removed slot.worktree.path (err e) ∷ [])
  at_failed_deletion :
      (error : Str)
      → Broke slot e
          (failure error)
          (removed slot.worktree.path (ok tt) ∷ deleted slot.worktree.branch (err e) ∷ [])

module _ {E : Type 0} where
  abbrev OneCalled : BatchSlot → AgentOutcome → Result E BatchResult → List (GitCall E) → Type 0
  OneCalled slot o (ok r) log = (log ≡ calls_of slot r) × Fits slot o r
  OneCalled slot o (err e) log = Broke slot e o log

  -- The calls of a merge-back that ends with the results, or with an error at a slot: those before it
  -- are done, and those behind it are left alone.
  abbrev pub Called : List BatchSlot → Result E (List BatchResult) → List (GitCall E) → Type 0
  Called slots (ok rs) log = (log ≡ all_calls slots rs) × AllFit slots rs
  Called slots (err e) log =
      (done : List BatchSlot) × (slot : BatchSlot) × (rest : List BatchSlot) × (rs : List
        BatchResult)
      × (last : List (GitCall E)) × (slots ≡ done ++ slot ∷ rest)
      × AllFit done rs
      × Broke slot e slot.outcome last
      × (log ≡ all_calls done rs ++ last)

module _ {S E : Type 0} (git : Git S E) where
  after_merge-calls :
      (slot : BatchSlot) (log : List (GitCall E)) (result : MergeResult) (s : S)
      → Noting
          (λ r more. OneCalled slot success r (merging slot.worktree.branch (ok result) ∷ more))
          log
          (after_merge (recording git) slot result (s, log))
  after_merge-calls slot log ok_merge s =
      call-Noting _ log (removed slot.worktree.path) (git.remove_worktree slot.worktree.path s) _
        (λ e. at_removal)
        (λ u s1.
          call-Noting _ _ (deleted slot.worktree.branch) (git.delete_branch slot.worktree.branch s1)
            _ (λ e. at_deletion) (λ u s2. pure-Noting _ (merged slot.bead.id) s2 _ (refl, refl)))
  after_merge-calls slot log conflict_merge s =
      pure-Noting _ (conflict slot.bead.id slot.worktree.path slot.worktree.branch) s log
        (refl, (refl, refl, refl))

  one-calls :
      (slot : BatchSlot) (o : AgentOutcome) (s : S) (log : List (GitCall E))
      → Noting (OneCalled slot o) log (merge_back_as (recording git) slot o (s, log))
  unfolding merge_back_as
  one-calls slot success s log =
      call-Noting (OneCalled slot success) log (merging slot.worktree.branch)
        (git.merge_branch slot.worktree.branch s) _ (λ e. at_merge)
        (λ result. after_merge-calls slot _ result)
  one-calls slot (failure x) s log =
      call-Noting (OneCalled slot (failure x)) log (removed slot.worktree.path)
        (git.remove_worktree slot.worktree.path s) _ (λ e. at_failed_removal x)
        (λ u s1.
          call-Noting _ _ (deleted slot.worktree.branch) (git.delete_branch slot.worktree.branch s1)
            _ (λ e. at_failed_deletion x)
            (λ u s2. pure-Noting _ (agent_failed slot.bead.id x) s2 _ (refl, (refl, refl))))

  merge_back_from-calls :
      (slots : List BatchSlot) (s : S) (log : List (GitCall E))
      → Noting (Called slots) log (merge_back (recording git) slots (s, log))
  unfolding merge_back merge_back_one
  merge_back_from-calls [] s log = pure-Noting (Called []) [] s log (refl, tt)
  merge_back_from-calls (slot ∷ slots) s log =
      continue-Noting (OneCalled slot slot.outcome) (Called (slot ∷ slots)) log _ _
        (one-calls slot slot.outcome s log)
        (λ e calls begun. ([], slot, slots, [], calls, refl, tt, begun, refl))
        (λ r s1 calls q.
          continue-Noting (Called slots) _ (log ++ calls) _ _
            (merge_back_from-calls slots s1 (log ++ calls)) (λ e more p. stopped e r calls more q p)
            (λ rs s2 more p. pure-Noting _ (r ∷ rs) s2 _ (finished r rs calls more q p)))
    where
      stopped :
          (e : E) (r : BatchResult) (calls more : List (GitCall E))
          → OneCalled {E = E} slot slot.outcome (ok r) calls
          → Called {E = E} slots (err e) more
          → Called {E = E} (slot ∷ slots) (err e) (calls ++ more)
      stopped e r calls more (eq, fits) (done, at, rest, rs, last, split, all_fit, begun, eq') = (
        slot ∷ done,
        at,
        rest,
        r ∷ rs,
        last,
        ap (λ ss. slot ∷ ss) split,
        (fits, all_fit),
        begun,
        ap₂ ◌++◌ eq eq' ∙ sym (append_assoc (calls_of slot r) (all_calls done rs) last),
      )

      finished :
          (r : BatchResult) (rs : List BatchResult) (calls more : List (GitCall E))
          → OneCalled {E = E} slot slot.outcome (ok r) calls
          → Called {E = E} slots (ok rs) more
          → Called {E = E} (slot ∷ slots) (ok (r ∷ rs)) (calls ++ (more ++ []))
      finished r rs calls more (eq, fits) (eq', all_fit) =
          (ap₂ ◌++◌ eq (append-nil more ∙ eq'), (fits, all_fit))

  -- Merge-back always ends. With results: each slot has one, in the order of the slots, about its
  -- bead. It is `AgentFailed` with the agent's error exactly for the agents that failed, whose branch is
  -- not merged; else it is `Merged` if git answers that it merged the branch, and `Conflict` if git
  -- answers that. A merged or failed worktree and its branch are removed, nothing more is done about a
  -- conflict, and these are all calls of git. With a git error: it is the answer to the last call, the
  -- calls at that slot before it succeeded, the slots before it were done as above, and no call is
  -- about those behind it.
  pub merge_back-calls :
      (slots : List BatchSlot) (s : S)
      → (result : Result E (List BatchResult)) × (t : S) × (log : List (GitCall E)) × (merge_back
            (recording git)
            slots
            (s, [])
          ≡ some (result, (t, log)))
        × Called slots result log
  merge_back-calls slots s = merge_back_from-calls slots s []
