-- ===== src/Core/Git/Create.antt =====
-- The worktree that loom/crates/loom-core/src/git/client.rs creates.
use wrapix.Prelude.{◌≡◌, ap}
use wrapix.Prelude.Text.{Str}
use wrapix.Prelude.Exec.{Result, ok, err}
use wrapix.Prelude.Act.{after, pure}
use wrapix.Core.BeadId.{BeadId}
use wrapix.Core.Label.{SpecLabel}
use wrapix.Core.Git.{CreatedWorktree, System, branch_of, worktree_path, create_worktree}

made_as :
    {S E A B : Type 0} (o : Result E A × S) (b : B) {c : B} {t : S}
    → after o (λ _. pure b) ≡ (ok c, t)
    → c ≡ b
made_as (ok a, s) b e = cc e
made_as (err x, s) b e = cc e

module _ {S I : Type 0} (system : System S I) (workdir : Str) where
  pub create_worktree-branch :
      (label : SpecLabel) (bead_id : BeadId) (s t : S) (worktree : CreatedWorktree)
      → create_worktree system workdir label bead_id s ≡ (ok worktree, t)
      → (worktree.branch ≡ branch_of label bead_id)
        × (worktree.path ≡ worktree_path system workdir label bead_id)
  unfolding create_worktree
  create_worktree-branch label bead_id s t worktree e =
      let eq =
        made_as _
          (record {
            path = worktree_path system workdir label bead_id;
            branch = branch_of label bead_id;
          })
          e in
      (ap (λ (w : CreatedWorktree). w.branch) eq, ap (λ (w : CreatedWorktree). w.path) eq)
