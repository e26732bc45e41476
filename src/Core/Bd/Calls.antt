-- ===== src/Core/Bd/Calls.antt =====
-- The calls of loom/crates/loom-core/src/bd/client.rs: what they run, and how they fail.
use wrapix.Prelude.{ℕ, ◌≡◌, refl, false, Option, List, [], ◌∷◌, Bool-cases, inl, inr}
use wrapix.Prelude.Text.{Str, codes}
use wrapix.Prelude.Exec.{Result, ok, err}
use wrapix.Prelude.Act.{Act, after}
use wrapix.Core.Label.{MoleculeId}
use wrapix.Core.BeadId.{BeadId}
use wrapix.Core.Bead.{Bead}
use wrapix.Core.Bd.{
  MolProgress, BdError, cli, RunOutput, success, render_args, Json, CreateOpts, UpdateOpts,
  ListOpts, ReadyOpts, create_args, update_args, close_args, list_args, ready_args, show_args,
  progress_args,
}
use wrapix.Core.Bd.Client.{
  checking, invoke, show, create, close, update, list, ready, dep_add, mol_bond, mol_progress,
}

-- The operations of the client.
pub data Op : Type 0 where
  show_op : BeadId → Op
  create_op : CreateOpts → Op
  close_op : BeadId → Option Str → Op
  update_op : BeadId → UpdateOpts → Op
  list_op : ListOpts → Op
  ready_op : ReadyOpts → Op
  dep_add_op : BeadId → BeadId → Op
  mol_bond_op : Str → Str → Op
  mol_progress_op : MoleculeId → Op

abbrev pub argv : Op → List Str
argv (show_op id) = show_args id
argv (create_op opts) = create_args opts
argv (close_op id reason) = close_args id reason
argv (update_op id opts) = update_args id opts
argv (list_op opts) = list_args opts
argv (ready_op opts) = ready_args opts
argv (dep_add_op issue depends_on) = codes "dep" ∷ codes "add" ∷ issue ∷ depends_on ∷ []
argv (mol_bond_op left right) = codes "mol" ∷ codes "bond" ∷ left ∷ right ∷ []
argv (mol_progress_op id) = progress_args id

module _ {S I J F : Type 0} (json : Json F J) (run : List Str → ℕ → Act S (BdError I J) RunOutput)
    (limit : ℕ) where
  abbrev pub Answer : Op → Type 0
  Answer (show_op _) = Bead
  Answer (create_op _) = BeadId
  Answer (list_op _) = List Bead
  Answer (ready_op _) = List Bead
  Answer (mol_progress_op _) = MolProgress F
  Answer _ = Unit {0}

  abbrev pub perform : (op : Op) → Act S (BdError I J) (Answer op)
  perform (show_op id) = show json run limit id
  perform (create_op opts) = create json run limit opts
  perform (close_op id reason) = close json run limit id reason
  perform (update_op id opts) = update json run limit id opts
  perform (list_op opts) = list json run limit opts
  perform (ready_op opts) = ready json run limit opts
  perform (dep_add_op issue depends_on) = dep_add json run limit issue depends_on
  perform (mol_bond_op left right) = mol_bond json run limit left right
  perform (mol_progress_op id) = mol_progress json run limit id

  -- A `bd` that could not be run, or that failed, is the error; otherwise nothing is said here.
  abbrev pub Fails :
      {A : Type 0} → List Str → Result (BdError I J) RunOutput → Result (BdError I J) A → Type 0
  Fails args (err e) r = r ≡ err e
  Fails args (ok output) r =
      (success output ≡ false)
      → r ≡ err (cli output.status (render_args args) (json.lossy output.stderr))

  -- What follows an invocation and runs nothing.
  invoked :
      {A : Type 0} (args : List Str) (f : List ℕ → Result (BdError I J) A) (s : S)
      → let r = after (invoke json run limit args s) (λ out t. (f out, t)) in
        (r.1 ≡ (run args limit s).1) × Fails args (run args limit s).0 r.0
  unfolding invoke
  invoked {A} args f s = went (run args limit s)
    where
      went :
          (q : Result (BdError I J) RunOutput × S)
          → let r = after (checking json run limit args q) (λ out t. (f out, t)) in
            (r.1 ≡ q.1) × Fails {A = A} args q.0 r.0
      went (err e, t) = (refl, refl)
      went (ok output, t) = elim (Bool-cases (success output)) [
        | inl e ↦ rw e (refl, λ h. absurd (cc h))
        | inr e ↦ rw e (refl, λ h. refl)
      ]

  -- Each operation runs `bd` once, with its arguments, and leaves everything as that run left it; where
  -- `bd` could not be run, or did not end with status 0, the answer is that error, whatever it printed.
  pub perform-Fails :
      (op : Op) (s : S)
      → ((perform op s).1 ≡ (run (argv op) limit s).1)
        × Fails (argv op) (run (argv op) limit s).0 (perform op s).0
  unfolding show create close update list ready dep_add mol_bond mol_progress
  perform-Fails (show_op id) s = invoked (show_args id) _ s
  perform-Fails (create_op opts) s = invoked (create_args opts) _ s
  perform-Fails (close_op id reason) s = invoked (close_args id reason) (λ _. ok tt) s
  perform-Fails (update_op id opts) s = invoked (update_args id opts) (λ _. ok tt) s
  perform-Fails (list_op opts) s = invoked (list_args opts) _ s
  perform-Fails (ready_op opts) s = invoked (ready_args opts) _ s
  perform-Fails (dep_add_op issue depends_on) s =
      invoked (codes "dep" ∷ codes "add" ∷ issue ∷ depends_on ∷ []) (λ _. ok tt) s
  perform-Fails (mol_bond_op left right) s =
      invoked (codes "mol" ∷ codes "bond" ∷ left ∷ right ∷ []) (λ _. ok tt) s
  perform-Fails (mol_progress_op id) s = invoked (progress_args id) _ s
