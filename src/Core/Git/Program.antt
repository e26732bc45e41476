-- ===== src/Core/Git/Program.antt =====
-- What loom/crates/loom-core/src/git/client.rs relies on of the git program, about an index with
-- unmerged entries, and what its calls do there.
use wrapix.Prelude.{
  ℕ, ◌≡◌, refl, sym, subst, Bool, true, false, not, ◌&&◌, Option, List, is_empty, ◌∷◌, ◌++◌, none,
  if◌then◌else◌,
}
use wrapix.Prelude.Text.{Str}
use wrapix.Prelude.Int.{ℤ}
use wrapix.Prelude.Exec.{Result, ok, err}
use wrapix.Prelude.Act.{Act, after}
use wrapix.Core.Process.{Finished, exited, not_spawned, elapsed, succeeded}
use wrapix.Core.Git.{
  GitError, MergeResult, ok_merge, conflict_merge, Output, branch_prefix, merge_args, unmerged_args,
  remove_args, prune_args, delete_args, System, git, process_output, run_git_raw, clean_exit,
  failed, run_git, remove_worktree, delete_branch, conflict_or, merged_or, merge_branch,
}

-- The branches of `create_worktree` begin so, and are no switches.
abbrev pub loom_branch : Str → Str
loom_branch rest = branch_prefix ++ b'/' ∷ rest

-- The calls that leave unmerged entries as they are: a merge is refused, the removal of a linked
-- worktree and of a branch does not touch the index of the main one.
pub data Harmless : List Str → Type 0 where
  merging : (rest : Str) → Harmless (merge_args (loom_branch rest))
  listing_unmerged : Harmless unmerged_args
  removing : (path : Str) → Harmless (remove_args path)
  pruning : Harmless prune_args
  deleting : (rest : Str) → Harmless (delete_args (loom_branch rest))

-- git's documented behaviour, in the states `U` whose index has unmerged entries.
pub record Unmerging {S I : Type 0} (system : System S I) (workdir : Str) (U : S → Type 0)
    : Type 0 where
  -- `git ls-files --unmerged` lists the unmerged entries
  pub listed :
      (s : S) (code : Option ℤ) (out e : List ℕ) (t : S)
      → git system workdir unmerged_args s ≡ (exited code out e, t)
      → succeeded code ≡ true
      → is_empty out ≡ false
      → U t
  -- `git merge` ends with an error before it does anything
  pub refused :
      (rest : Str) (s : S) (code : Option ℤ) (out e : List ℕ) (t : S)
      → U s
      → git system workdir (merge_args (loom_branch rest)) s ≡ (exited code out e, t)
      → succeeded code ≡ false
  pub stays : (args : List Str) (s : S) → Harmless args → U s → U (git system workdir args s).1

module _ {S : Type 0} (U : S → Type 0) where
  -- A conflict that is reported leaves unmerged entries.
  abbrev pub LeavesOpen : {E : Type 0} → Result E MergeResult × S → Type 0
  LeavesOpen (ok conflict_merge, t) = U t
  LeavesOpen (ok ok_merge, t) = Unit
  LeavesOpen (err e, t) = Unit

abbrev pub NotOk : {E : Type 0} → Result E MergeResult → Type 0
NotOk (ok ok_merge) = ⊥
NotOk (ok conflict_merge) = Unit
NotOk (err e) = Unit

after-keeps :
    {S E A B : Type 0} (U : S → Type 0) (o : Result E A × S) (f : A → Act S E B)
    → U o.1
    → ((a : A) (s : S) → U s → U (f a s).1)
    → U (after o f).1
after-keeps U (ok a, s) f u h = h a s u
after-keeps U (err e, s) f u h = u

module _ {S I : Type 0} (system : System S I) (workdir : Str) (U : S → Type 0)
    (h : Unmerging system workdir U) where
  process_output-keeps :
      (args : List Str) (o : Finished I × S) → U o.1 → U (process_output system workdir args o).1
  process_output-keeps args (exited code out e, s) u = u
  process_output-keeps args (not_spawned e, s) u = u
  process_output-keeps args (elapsed, s) u = u

  run_git_raw-keeps :
      (args : List Str) (s : S) → Harmless args → U s → U (run_git_raw system workdir args none s).1
  unfolding run_git_raw
  run_git_raw-keeps args s harmless u = process_output-keeps args _ (h.stays args s harmless u)

  run_git-keeps :
      (args : List Str) (s : S) → Harmless args → U s → U (run_git system workdir args none s).1
  unfolding run_git
  run_git-keeps args s harmless u =
      after-keeps U (run_git_raw system workdir args none s) (clean_exit system workdir)
        (run_git_raw-keeps args s harmless u) (λ output t v. v)

  pub remove_worktree-keeps :
      (path : Str) (s : S) → U s → U (remove_worktree system workdir path s).1
  unfolding remove_worktree
  remove_worktree-keeps path s u =
      after-keeps U (run_git system workdir (remove_args path) none s) _
        (run_git-keeps (remove_args path) s (removing path) u)
        (λ a t v. run_git-keeps prune_args t pruning v)

  pub delete_branch-keeps :
      (rest : Str) (s : S) → U s → U (delete_branch system workdir (loom_branch rest) s).1
  unfolding delete_branch
  delete_branch-keeps rest s u = run_git-keeps (delete_args (loom_branch rest)) s (deleting rest) u

  merged_or-keeps :
      (output : Output) (b : Bool) (s : S) → U s → U (merged_or system workdir output b s).1
  merged_or-keeps output true s u = u
  merged_or-keeps output false s u =
      after-keeps U (run_git_raw system workdir unmerged_args none s)
        (conflict_or system workdir output) (run_git_raw-keeps unmerged_args s listing_unmerged u)
        (λ unmerged t v. v)

  pub merge_branch-keeps :
      (rest : Str) (s : S) → U s → U (merge_branch system workdir (loom_branch rest) s).1
  unfolding merge_branch
  merge_branch-keeps rest s u =
      after-keeps U (run_git_raw system workdir (merge_args (loom_branch rest)) none s) _
        (run_git_raw-keeps (merge_args (loom_branch rest)) s (merging rest) u)
        (λ output t v. merged_or-keeps output (succeeded output.status) t v)

  -- A merge that failed is not reported as done.
  conflict_or-NotOk :
      (output unmerged : Output) (s : S) → NotOk (conflict_or system workdir output unmerged s).0
  conflict_or-NotOk output unmerged s =
      choice (succeeded unmerged.status && not (is_empty unmerged.stdout))
    where
      choice :
          (b : Bool) → NotOk (if b then ok conflict_merge else err (failed system workdir output))
      choice true = tt
      choice false = tt

  failing-NotOk : (output : Output) (s : S) → NotOk (merged_or system workdir output false s).0
  failing-NotOk output s = listed_as (run_git_raw system workdir unmerged_args none s)
    where
      listed_as :
          (o : Result (GitError I) Output × S)
          → NotOk (after o (conflict_or system workdir output)).0
      listed_as (ok unmerged, t) = conflict_or-NotOk output unmerged t
      listed_as (err e, t) = tt

  pub merge_branch-NotOk :
      (rest : Str) (s : S) → U s → NotOk (merge_branch system workdir (loom_branch rest) s).0
  unfolding merge_branch run_git_raw
  merge_branch-NotOk rest s u =
      ended_as (git system workdir (merge_args (loom_branch rest)) s)
        (λ code out e t eq. h.refused rest s code out e t u eq)
    where
      ended_as :
          (o : Finished I × S)
          → ((code : Option ℤ) (out e : List ℕ) (t : S)
              → o ≡ (exited code out e, t)
              → succeeded code ≡ false)
          → NotOk
              (after
                (process_output system workdir (merge_args (loom_branch rest)) o)
                (λ output. merged_or system workdir output (succeeded output.status))).0
      ended_as (exited code out e, t) refused =
          subst
            (λ (b : Bool).
              NotOk
                (merged_or system workdir (record { status = code; stdout = out; stderr = e }) b
                  t).0)
            (sym (refused code out e t refl))
            (failing-NotOk (record { status = code; stdout = out; stderr = e }) t)
      ended_as (not_spawned e, t) refused = tt
      ended_as (elapsed, t) refused = tt

  conflict_or-LeavesOpen :
      (output : Output) (o : Finished I × S)
      → ((code : Option ℤ) (out e : List ℕ) (t : S)
          → o ≡ (exited code out e, t)
          → succeeded code ≡ true
          → is_empty out ≡ false
          → U t)
      → LeavesOpen U (
          after (process_output system workdir unmerged_args o) (conflict_or system workdir output))
  conflict_or-LeavesOpen output (exited code out e, t) open_at =
      choice (succeeded code) (is_empty out) (open_at code out e t refl)
    where
      choice :
          (b c : Bool)
          → (b ≡ true → c ≡ false → U t)
          → LeavesOpen U
              (if b && not c then ok conflict_merge else err (failed system workdir output), t)
      choice true true u = tt
      choice true false u = u refl refl
      choice false c u = tt
  conflict_or-LeavesOpen output (not_spawned e, t) open_at = tt
  conflict_or-LeavesOpen output (elapsed, t) open_at = tt

  merged_or-LeavesOpen :
      (output : Output) (b : Bool) (s : S) → LeavesOpen U (merged_or system workdir output b s)
  unfolding run_git_raw
  merged_or-LeavesOpen output true s = tt
  merged_or-LeavesOpen output false s =
      conflict_or-LeavesOpen output (git system workdir unmerged_args s) (h.listed s)

  pub merge_branch-LeavesOpen :
      (branch : Str) (s : S) → LeavesOpen U (merge_branch system workdir branch s)
  unfolding merge_branch
  merge_branch-LeavesOpen branch s =
      ended_as (run_git_raw system workdir (merge_args branch) none s)
    where
      ended_as :
          (o : Result (GitError I) Output × S)
          → LeavesOpen U
              (after o (λ output. merged_or system workdir output (succeeded output.status)))
      ended_as (ok output, t) = merged_or-LeavesOpen output (succeeded output.status) t
      ended_as (err e, t) = tt
