-- ===== src/Run/Batch/Tests.antt =====
-- A git whose index is remembered, in which the branch of "wx-2" conflicts, and a batch of three beads.
use wrapix.Prelude.{
  ℕ, ◌≡◌, refl, Bool, true, false, Option, some, List, [], ◌∷◌, any, is_empty, if◌then◌else◌, arith,
}
use wrapix.Prelude.Text.{Str, codes, str_eq}
use wrapix.Prelude.Int.{ℤ, pos}
use wrapix.Prelude.Exec.{ok}
use wrapix.Core.Process.{Finished, exited, succeeded}
use wrapix.Core.Bead.{Bead}
use wrapix.Core.Git.{System, git, merge_args, unmerged_args}
use wrapix.Core.Git.Program.{
  loom_branch, Unmerging, Harmless, merging, listing_unmerged, removing, pruning, deleting,
}
use wrapix.Run.Retry.{AgentOutcome, success}
use wrapix.Run.Batch.{WorktreeBead, BatchResult, merged, conflict, run_parallel_batch}
use wrapix.Run.Batch.Midmerge.{NoneAfterConflict}
use wrapix.Run.Batch.Halted.{git_client, run_parallel_batch-NoneAfterConflict}

abbrev exit_with : ℕ → List ℕ → Bool → Finished Str × Bool
exit_with code out unmerged = (exited (some (pos code)) out [], unmerged)

-- The state says whether the index has unmerged entries.
abbrev merge : Bool → Bool → Finished Str × Bool
merge true conflicts = exit_with 128 [] true
merge false true = exit_with 1 [] true
merge false false = exit_with 0 [] false

abbrev ls_files : Bool → Finished Str × Bool
ls_files true = exit_with 0 (codes "100644 6b58 1 a") true
ls_files false = exit_with 0 [] false

abbrev run : List Str → Bool → Finished Str × Bool
run (c ∷ dir ∷ command ∷ args) unmerged =
    if str_eq command (codes "merge")
    then merge unmerged (any (str_eq (codes "loom/core/wx-2")) args)
    else if str_eq command (codes "ls-files")
    then ls_files unmerged
    else exit_with 0 [] unmerged
run args unmerged = exit_with 129 [] unmerged

abbrev system : System Bool Str
system = record { run_process = run; create_dir_all = λ dir s. (ok tt, s); lossy = λ bytes. bytes }

abbrev Unmerged : Bool → Type 0
Unmerged s = s ≡ true

toy-listed :
    (s : Bool) (code : Option ℤ) (out e : List ℕ) (t : Bool)
    → git system (codes "/repo") unmerged_args s ≡ (exited code out e, t)
    → is_empty out ≡ false
    → Unmerged t
unfolding str_eq
toy-listed true code out e t eq filled = ground arith
toy-listed false code out e t eq filled = ground arith

toy-refused :
    (rest : Str) (s : Bool) (code : Option ℤ) (out e : List ℕ) (t : Bool)
    → Unmerged s
    → git system (codes "/repo") (merge_args (loom_branch rest)) s ≡ (exited code out e, t)
    → succeeded code ≡ false
unfolding str_eq
toy-refused rest true code out e t u eq = ground arith
toy-refused rest false code out e t u eq = cc u

toy-stays :
    (args : List Str) (s : Bool)
    → Harmless args
    → Unmerged s
    → Unmerged (git system (codes "/repo") args s).1
unfolding str_eq
toy-stays args true (merging rest) u = refl
toy-stays args true listing_unmerged u = refl
toy-stays args true (removing path) u = refl
toy-stays args true pruning u = refl
toy-stays args true (deleting rest) u = refl
toy-stays args false harmless u = cc u

toy-Unmerging : Unmerging system (codes "/repo") Unmerged
toy-Unmerging = record {
  listed = λ s code out e t eq c filled. toy-listed s code out e t eq filled;
  refused = toy-refused;
  stays = toy-stays;
}

abbrev bead : Str → Bead
bead id = record {
  id = id;
  title = codes "title";
  description = [];
  status = codes "open";
  priority = 2;
  issue_type = codes "task";
  labels = [];
}

abbrev beads : List Bead
beads = bead (codes "wx-1") ∷ bead (codes "wx-2") ∷ bead (codes "wx-3") ∷ []

abbrev spawn : WorktreeBead → Option AgentOutcome
spawn w = some success

abbrev results : List BatchResult
results =
    merged (codes "wx-1")
    ∷ conflict (codes "wx-2") (codes "/repo/.wrapix/worktree/core/wx-2") (codes "loom/core/wx-2")
    ∷ conflict (codes "wx-3") (codes "/repo/.wrapix/worktree/core/wx-3") (codes "loom/core/wx-3")
    ∷ []

-- The branch of "wx-3" would merge cleanly.
batch_three :
    run_parallel_batch
      (git_client system (codes "/repo"))
      (λ ws. ws)
      (codes "core")
      beads
      spawn
      (λ ws s. s)
      false
    ≡ some (ok results, true)
unfolding run_parallel_batch git_client str_eq
batch_three = refl

run_parallel_batch-NoneAfterConflict_example : NoneAfterConflict results
run_parallel_batch-NoneAfterConflict_example =
    run_parallel_batch-NoneAfterConflict system (codes "/repo") Unmerged (λ ws. ws) (codes "core")
      beads spawn (λ ws s. s) false toy-Unmerging (λ ws w i. i) batch_three
