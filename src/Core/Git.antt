-- ===== src/Core/Git.antt =====
-- loom/crates/loom-core/src/git: the git client. The git program, the directories and
-- `String::from_utf8_lossy` are parameters; what gix reads is left out.
pub mod Create
pub mod Program
use wrapix.Prelude.{
  ℕ, Bool, true, false, not, ◌&&◌, ◌||◌, ◌==◌, Option, none, some, List, [], ◌∷◌, ◌++◌, is_empty,
  if◌then◌else◌,
}
use wrapix.Prelude.Text.{Str, codes, join, starts_with}
use wrapix.Prelude.Int.{ℤ}
use wrapix.Prelude.Components.{PathBuf, components, parent}
use wrapix.Prelude.Exec.{Result, ok, err}
use wrapix.Prelude.Act.{Act, pure, ◌>>=◌, ◌>>◌}
use wrapix.Core.Process.{Finished, exited, not_spawned, elapsed, code_or_minus_one, succeeded}
use wrapix.Core.BeadId.{BeadId}
use wrapix.Core.Label.{SpecLabel}

-- error.rs. `I` is an error of the operating system.
pub data GitError (I : Type 0) : Type 0 where
  open_repo : Str → Str → GitError I
  gix : Str → GitError I
  -- the status, and what was written to stderr
  git_cli : ℤ → Str → GitError I
  git_timeout : Str → GitError I
  spawn : I → GitError I
  merge_conflict : Str → GitError I
  io : I → GitError I
  join_error utf8 : GitError I

pub record CreatedWorktree : Type 0 where
  pub path : Str
  pub branch : Str

pub data MergeResult : Type 0 where
  ok_merge conflict_merge : MergeResult

-- `std::process::Output`
pub record Output : Type 0 where
  pub status : Option ℤ
  pub stdout : List ℕ
  pub stderr : List ℕ

abbrev pub worktree_base : Str
worktree_base = codes ".wrapix/worktree"

abbrev pub branch_prefix : Str
branch_prefix = codes "loom"

-- `format!("{BRANCH_PREFIX}/{label}/{bead_id}")`
abbrev pub branch_of : SpecLabel → BeadId → Str
branch_of label bead_id = branch_prefix ++ b'/' ∷ (label ++ b'/' ∷ bead_id)

unfoldable pub ends_in_slash : Str → Bool
ends_in_slash [] = false
ends_in_slash (c ∷ []) = c == b'/'
ends_in_slash (c ∷ d ∷ s) = ends_in_slash (d ∷ s)

-- `PathBuf::join`, on texts
unfoldable pub join_path : Str → Str → Str
unfolding starts_with ends_in_slash
join_path dir path =
    if starts_with (codes "/") path
    then path
    else if is_empty dir || ends_in_slash dir
    then dir ++ path
    else dir ++ b'/' ∷ path

abbrev pub with_trailing : List Str → Option Str → List Str
with_trailing args none = args
with_trailing args (some t) = args ++ t ∷ []

abbrev pub merge_args : Str → List Str
merge_args branch = codes "merge" ∷ codes "--no-ff" ∷ codes "--no-edit" ∷ branch ∷ []

abbrev pub unmerged_args : List Str
unmerged_args = codes "ls-files" ∷ codes "--unmerged" ∷ []

abbrev pub add_args : Str → List Str
add_args branch = codes "worktree" ∷ codes "add" ∷ codes "-b" ∷ branch ∷ []

abbrev pub remove_args : Str → List Str
remove_args path = codes "worktree" ∷ codes "remove" ∷ codes "--force" ∷ path ∷ []

abbrev pub prune_args : List Str
prune_args = codes "worktree" ∷ codes "prune" ∷ []

abbrev pub delete_args : Str → List Str
delete_args branch = codes "branch" ∷ codes "-D" ∷ branch ∷ []

-- The state and the errors of the operating system; the program `git` with its arguments, for at most
-- 60 seconds.
pub record System (S I : Type 0) : Type 0 where
  pub run_process : List Str → S → Finished I × S
  pub create_dir_all : PathBuf → S → Result I (Unit {0}) × S
  pub lossy : List ℕ → Str

module _ {S I : Type 0} (system : System S I) (workdir : Str) where
  -- The program, in the working tree.
  abbrev pub git : List Str → S → Finished I × S
  git args = system.run_process (codes "-C" ∷ workdir ∷ args)

  abbrev pub process_output : List Str → Finished I × S → Result (GitError I) Output × S
  process_output args (exited code stdout stderr, s) =
      (ok (record { status = code; stdout = stdout; stderr = stderr }), s)
  process_output args (not_spawned e, s) = (err (spawn e), s)
  process_output args (elapsed, s) = (err (git_timeout (join (codes " ") args)), s)

  unfoldable pub run_git_raw : List Str → Option Str → Act S (GitError I) Output
  unfolding join
  run_git_raw args trailing s =
      process_output (with_trailing args trailing) (git (with_trailing args trailing) s)

  abbrev pub failed : Output → GitError I
  failed output = git_cli (code_or_minus_one output.status) (system.lossy output.stderr)

  abbrev pub clean_exit : Output → Act S (GitError I) (Unit {0})
  clean_exit output s = (if succeeded output.status then ok tt else err (failed output), s)

  unfoldable pub run_git : List Str → Option Str → Act S (GitError I) (Unit {0})
  unfolding run_git_raw
  run_git args trailing = run_git_raw args trailing >>= clean_exit

  abbrev io_result : Result I (Unit {0}) × S → Result (GitError I) (Unit {0}) × S
  io_result (ok u, s) = (ok u, s)
  io_result (err e, s) = (err (io e), s)

  abbrev create_parent : Option PathBuf → Act S (GitError I) (Unit {0})
  create_parent none s = (ok tt, s)
  create_parent (some dir) s = io_result (system.create_dir_all dir s)

  unfoldable pub worktree_path : SpecLabel → BeadId → Str
  unfolding join_path
  worktree_path label bead_id =
      join_path workdir (join_path (join_path worktree_base label) bead_id)

  unfoldable pub create_worktree : SpecLabel → BeadId → Act S (GitError I) CreatedWorktree
  unfolding run_git worktree_path components
  create_worktree label bead_id =
      create_parent (parent (components (worktree_path label bead_id)))
      >> run_git (add_args (branch_of label bead_id)) (some (worktree_path label bead_id))
      >> pure (record { path = worktree_path label bead_id; branch = branch_of label bead_id })

  unfoldable pub remove_worktree : Str → Act S (GitError I) (Unit {0})
  unfolding run_git
  remove_worktree path = run_git (remove_args path) none >> run_git prune_args none

  unfoldable pub delete_branch : Str → Act S (GitError I) (Unit {0})
  unfolding run_git
  delete_branch branch = run_git (delete_args branch) none

  -- After a merge that failed: are there unmerged entries in the index?
  abbrev pub conflict_or : Output → Output → Act S (GitError I) MergeResult
  conflict_or output unmerged s = (
    if succeeded unmerged.status && not (is_empty unmerged.stdout)
        then ok conflict_merge
        else err (failed output),
    s,
  )

  abbrev pub merged_or : Output → Bool → Act S (GitError I) MergeResult
  merged_or output true = pure ok_merge
  merged_or output false = run_git_raw unmerged_args none >>= conflict_or output

  unfoldable pub merge_branch : Str → Act S (GitError I) MergeResult
  unfolding run_git_raw
  merge_branch branch =
      run_git_raw (merge_args branch) none
      >>= (λ output. merged_or output (succeeded output.status))
