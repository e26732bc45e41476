-- ===== src/Core/Bd.antt =====
-- loom/crates/loom-core/src/bd: client.rs, runner.rs and error.rs. How a process ends and what the
-- JSON library reads are parameters; what a process prints is bytes.
pub mod Argv
pub mod Client
pub mod Switches
pub mod Calls
mod Tests
use wrapix.Prelude.{
  ℕ, Bool, true, false, not, ◌==◌, ◌||◌, Option, none, some, List, [], ◌∷◌, ◌++◌, all, is_empty,
  if◌then◌else◌,
}
use wrapix.Prelude.Text.{Str, codes, str_eq, trim, join}
use wrapix.Prelude.Int.{ℤ, pos, negsuc}
use wrapix.Prelude.Decimal.{to_string}
use wrapix.Prelude.Utf8.{from_utf8}
use wrapix.Prelude.Exec.{Result, ok, err}
use wrapix.Prelude.Act.{Act, after, ◌>>=◌}
use wrapix.Core.Process.{Finished, exited, not_spawned, elapsed, code_or_minus_one}
use wrapix.Core.Label.{MoleculeId}
use wrapix.Core.BeadId.{BeadId, ParseBeadIdError, new}
use wrapix.Core.Bead.{Bead}

pub record MolProgress (F : Type 0) : Type 0 where
  pub molecule_id : MoleculeId
  pub molecule_title : Str
  pub completed : ℕ
  pub in_progress : ℕ
  pub total : ℕ
  pub percent : F
  pub current_step_id : Option Str

-- `I` is an error of the operating system, `J` one of the JSON library.
pub data BdError (I J : Type 0) : Type 0 where
  spawn : I → BdError I J
  timeout : Str → BdError I J
  -- the status, the arguments and what was written to stderr
  cli : ℤ → Str → Str → BdError I J
  decode : Str → J → BdError I J
  show_empty create_missing_id utf8 join_error : BdError I J
  create_invalid_id : ParseBeadIdError → BdError I J

pub record RunOutput : Type 0 where
  pub status : ℤ  -- i32
  pub stdout : List ℕ
  pub stderr : List ℕ

abbrev pub success : RunOutput → Bool
success output = elim output.status [ pos n ↦ n == 0 | negsuc n ↦ false ]

unfoldable pub render_args : List Str → Str
unfolding join
render_args args = join (codes " ") args

abbrev run_result : {I J : Type 0} → List Str → Finished I → Result (BdError I J) RunOutput
run_result args (exited code stdout stderr) =
    ok (record { status = code_or_minus_one code; stdout = stdout; stderr = stderr })
run_result args (not_spawned e) = err (spawn e)
run_result args elapsed = err (timeout (render_args args))

abbrev run_as : {S I J : Type 0} → List Str → Finished I × S → Result (BdError I J) RunOutput × S
run_as args (f, s) = (run_result args f, s)

-- `TokioRunner::run`: `process` runs `bd` with the arguments, for at most so many milliseconds.
unfoldable pub tokio_run :
    {S I J : Type 0}
    → (List Str → ℕ → S → Finished I × S)
    → List Str
    → ℕ
    → Act S (BdError I J) RunOutput
unfolding render_args
tokio_run process args t s = run_as args (process args t s)

-- What the JSON library reads, and `String::from_utf8_lossy`.
pub record Json (F J : Type 0) : Type 0 where
  pub beads : List ℕ → Result J (List Bead)
  pub progress : List ℕ → Result J (MolProgress F)
  pub lossy : List ℕ → Str

pub record CreateOpts : Type 0 where
  pub title : Str
  pub description : Str
  pub issue_type : Option Str
  pub priority : Option ℕ
  pub labels : List Str
  pub parent : Option BeadId

pub record UpdateOpts : Type 0 where
  pub claim : Bool
  pub status : Option Str
  pub priority : Option ℕ
  pub add_labels : List Str
  pub remove_labels : List Str

pub record ListOpts : Type 0 where
  pub status : Option Str
  pub label : Option Str

pub record ReadyOpts : Type 0 where
  pub limit : Option ℕ
  pub label : Option Str

-- `if let Some(v) = … { args.push(flag); args.push(v) }`
abbrev pub flag : Str → Option Str → List Str
flag name none = []
flag name (some value) = name ∷ value ∷ []

abbrev pub number : Option ℕ → Option Str
number none = none
number (some n) = some (to_string n)

abbrev pub joined : List Str → List Str
joined [] = []
joined (l ∷ labels) = codes "--labels" ∷ join (codes ",") (l ∷ labels) ∷ []

abbrev pub each : Str → List Str → List Str
each name [] = []
each name (l ∷ labels) = name ∷ l ∷ each name labels

-- `format!("{flag}{value}")`
abbrev pub assigned : Str → Option Str → List Str
assigned name none = []
assigned name (some value) = (name ++ value) ∷ []

unfoldable pub create_args : CreateOpts → List Str
unfolding join to_string
create_args opts =
    codes "create"
    ∷ codes "--silent"
    ∷ codes "--title"
    ∷ opts.title
    ∷ codes "--description"
    ∷ opts.description
    ∷ (flag (codes "--type") opts.issue_type
        ++ (flag (codes "--priority") (number opts.priority)
            ++ (flag (codes "--parent") opts.parent ++ joined opts.labels)))

unfoldable pub update_args : BeadId → UpdateOpts → List Str
unfolding to_string
update_args id opts =
    codes "update"
    ∷ id
    ∷ ((if opts.claim then codes "--claim" ∷ [] else [])
        ++ (flag (codes "--status") opts.status
            ++ (flag (codes "--priority") (number opts.priority)
                ++ (each (codes "--add-label") opts.add_labels
                    ++ each (codes "--remove-label") opts.remove_labels))))

abbrev pub close_args : BeadId → Option Str → List Str
close_args id reason = codes "close" ∷ id ∷ flag (codes "--reason") reason

abbrev pub list_args : ListOpts → List Str
list_args opts =
    codes "list"
    ∷ codes "--json"
    ∷ (assigned (codes "--status=") opts.status ++ assigned (codes "--label=") opts.label)

unfoldable pub ready_args : ReadyOpts → List Str
unfolding to_string
ready_args opts =
    codes "ready"
    ∷ codes "--json"
    ∷ (assigned (codes "--limit=") (number opts.limit) ++ assigned (codes "--label=") opts.label)

abbrev pub show_args : BeadId → List Str
show_args id = codes "show" ∷ id ∷ codes "--json" ∷ []

abbrev pub progress_args : MoleculeId → List Str
progress_args id = codes "mol" ∷ codes "progress" ∷ id ∷ codes "--json" ∷ []
