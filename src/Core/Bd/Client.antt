-- ===== src/Core/Bd/Client.antt =====
-- The methods of `BdClient`, loom/crates/loom-core/src/bd/client.rs.
use wrapix.Prelude.{
  ℕ, Bool, ◌==◌, ◌||◌, Option, none, some, List, [], ◌∷◌, all, is_empty, if◌then◌else◌,
}
use wrapix.Prelude.Text.{Str, codes, str_eq, trim}
use wrapix.Prelude.Utf8.{from_utf8}
use wrapix.Prelude.Exec.{Result, ok, err}
use wrapix.Prelude.Act.{Act, ◌>>=◌}
use wrapix.Core.Label.{MoleculeId}
use wrapix.Core.BeadId.{BeadId, ParseBeadIdError, new}
use wrapix.Core.Bead.{Bead}
use wrapix.Core.Bd.{
  MolProgress, BdError, cli, decode, show_empty, create_missing_id, utf8, create_invalid_id,
  RunOutput, success, render_args, Json, CreateOpts, UpdateOpts, ListOpts, ReadyOpts, create_args,
  update_args, close_args, list_args, ready_args, show_args, progress_args,
}

-- `u8::is_ascii_whitespace`
abbrev pub is_ascii_whitespace : ℕ → Bool
is_ascii_whitespace b = b == 0x20 || (b == 0x09 || (b == 0x0a || (b == 0x0c || b == 0x0d)))

abbrev or_default : Option Str → Str
or_default none = []
or_default (some s) = s

abbrev trimmed : Option Str → Str
trimmed none = []
trimmed (some s) = trim s

module _ {S I J F : Type 0} (json : Json F J) (run : List Str → ℕ → Act S (BdError I J) RunOutput)
    (limit : ℕ) where
  abbrev pub checked : List Str → Result (BdError I J) RunOutput → Result (BdError I J) (List ℕ)
  checked args (err e) = err e
  checked args (ok output) =
      if success output
      then ok output.stdout
      else err (cli output.status (render_args args) (json.lossy output.stderr))

  abbrev pub checking :
      List Str → Result (BdError I J) RunOutput × S → Result (BdError I J) (List ℕ) × S
  checking args (r, s) = (checked args r, s)

  -- `invoke`: the bytes on stdout of a `bd` that succeeds
  unfoldable pub invoke : List Str → Act S (BdError I J) (List ℕ)
  unfolding render_args
  invoke args s = checking args (run args limit s)

  -- A call whose output is not looked at.
  abbrev pub invoke_ : List Str → Act S (BdError I J) (Unit {0})
  invoke_ args = invoke args >>= (λ out s. (ok tt, s))

  abbrev decoded : {A : Type 0} → Str → Result J A → Result (BdError I J) A
  decoded args (ok a) = ok a
  decoded args (err e) = err (decode args e)

  abbrev first_row : Result (BdError I J) (List Bead) → Result (BdError I J) Bead
  first_row (ok (bead ∷ beads)) = ok bead
  first_row (ok []) = err show_empty
  first_row (err e) = err e

  unfoldable pub show : BeadId → Act S (BdError I J) Bead
  unfolding invoke
  show id =
      invoke (show_args id)
      >>= (λ out s. (first_row (decoded (render_args (show_args id)) (json.beads out)), s))

  abbrev valid_id : Result ParseBeadIdError BeadId → Result (BdError I J) BeadId
  valid_id (ok id) = ok id
  valid_id (err e) = err (create_invalid_id e)

  abbrev created_id : Option Str → Result (BdError I J) BeadId
  created_id none = err utf8
  created_id (some stdout) =
      if is_empty (trim stdout) then err create_missing_id else valid_id (new (trim stdout))

  unfoldable pub create : CreateOpts → Act S (BdError I J) BeadId
  unfolding invoke create_args trim new from_utf8
  create opts = invoke (create_args opts) >>= (λ out s. (created_id (from_utf8 out), s))

  unfoldable pub close : BeadId → Option Str → Act S (BdError I J) (Unit {0})
  unfolding invoke
  close id reason = invoke_ (close_args id reason)

  unfoldable pub update : BeadId → UpdateOpts → Act S (BdError I J) (Unit {0})
  unfolding invoke update_args
  update id opts = invoke_ (update_args id opts)

  -- An empty output and `null` are no beads.
  unfoldable pub read_rows : Str → List ℕ → Result (BdError I J) (List Bead)
  unfolding trim from_utf8 str_eq
  read_rows args out =
      if all is_ascii_whitespace out
      then ok []
      else if str_eq (trimmed (from_utf8 out)) (codes "null")
      then ok []
      else decoded args (json.beads out)

  unfoldable pub list : ListOpts → Act S (BdError I J) (List Bead)
  unfolding invoke read_rows
  list opts =
      invoke (list_args opts) >>= (λ out s. (read_rows (render_args (list_args opts)) out, s))

  unfoldable pub ready : ReadyOpts → Act S (BdError I J) (List Bead)
  unfolding invoke read_rows ready_args
  ready opts =
      invoke (ready_args opts) >>= (λ out s. (read_rows (render_args (ready_args opts)) out, s))

  unfoldable pub dep_add : BeadId → BeadId → Act S (BdError I J) (Unit {0})
  unfolding invoke
  dep_add issue depends_on = invoke_ (codes "dep" ∷ codes "add" ∷ issue ∷ depends_on ∷ [])

  unfoldable pub mol_bond : Str → Str → Act S (BdError I J) (Unit {0})
  unfolding invoke
  mol_bond left right = invoke_ (codes "mol" ∷ codes "bond" ∷ left ∷ right ∷ [])

  unfoldable pub mol_progress : MoleculeId → Act S (BdError I J) (MolProgress F)
  unfolding invoke
  mol_progress id =
      invoke (progress_args id)
      >>= (λ out s. (decoded (render_args (progress_args id)) (json.progress out), s))
