-- ===== src/Lock.antt =====
-- loom/crates/loom-core/src/lock: manager.rs and error.rs. The files of the lock directory, `flock`
-- and the clock are a parameter, and a path is the file's name in that directory.
pub mod Flock
pub mod Workspace
pub mod Polling
pub mod Beside
pub mod Search
pub mod Toy
mod Tests
use wrapix.Prelude.{
  ℕ, zero, suc, ◌+◌, Bool, true, false, not, ◌&&◌, Option, none, some, List, [], ◌∷◌, ◌++◌, leb,
  if◌then◌else◌,
}
use wrapix.Prelude.Text.{Str, codes, str_eq}
use wrapix.Prelude.Paths.{file_stem, extension}
use wrapix.Prelude.Exec.{Result, ok, err}
use wrapix.Core.Label.{SpecLabel}

-- `K` is the state of the system, `F` an open file, `E` an error of the operating system.
pub record Kernel (K F E : Type 0) : Type 0 where
  pub create_dir_all : K → Result E (Unit {0}) × K
  -- `File::options().create(true)…open`
  pub open_file : Str → K → Result E F × K
  -- `RwLock::try_write` without its guard: is the lock granted?
  pub try_write : F → K → Bool × K
  pub close : F → K → K
  -- the entries, each an error or a name, which may be no UTF-8; none if there is no directory
  pub read_dir : K → Option (Result E (List (Result E (Option Str))))
  -- `Instant::now` and `thread::sleep`, in milliseconds
  pub now : K → ℕ
  pub sleep : ℕ → K → K

pub data LockError (E : Type 0) : Type 0 where
  create_dir : E → LockError E
  open_failed : Str → E → LockError E
  spec_busy : Str → LockError E
  workspace_busy : Str → LockError E
  reserved_label : LockError E
  io : E → LockError E

abbrev pub reserved_workspace_label : Str
reserved_workspace_label = codes "workspace"

abbrev pub poll_interval : ℕ
poll_interval = 50

abbrev pub default_spec_timeout : ℕ
default_spec_timeout = 5000

abbrev pub lock_name : Str → Str
lock_name label = label ++ codes ".lock"

abbrev pub is_lock : Option Str → Bool
is_lock none = false
is_lock (some ext) = str_eq ext (codes "lock")

-- A lock file of a spec.
unfoldable pub is_spec_lock : Str → Bool
unfolding str_eq file_stem extension
is_spec_lock name =
    is_lock (extension name) && not (str_eq (file_stem name) reserved_workspace_label)

module _ {K F E : Type 0} (kernel : Kernel K F E) where
  abbrev Answer : Type 0 → Type 0
  Answer A = Result (LockError E) A × K

  abbrev created : Result E (Unit {0}) × K → Answer (Unit {0})
  created (ok _, k) = (ok tt, k)
  created (err e, k) = (err (create_dir e), k)

  unfoldable pub new : K → Answer (Unit {0})
  new k = created (kernel.create_dir_all k)

  abbrev pub opened_as : Str → Result E F × K → Answer F
  opened_as name (ok f, k) = (ok f, k)
  opened_as name (err e, k) = (err (open_failed name e), k)

  unfoldable pub open_lock_file : Str → K → Answer F
  open_lock_file name k = opened_as name (kernel.open_file name k)

  -- The loop of `acquire_with_timeout`: a file that is not locked is closed at the end.
  unfoldable pub poll : ℕ → F → ℕ → LockError E → K → Option (Answer F)
  poll zero f deadline on_busy k = none
  poll (suc fuel) f deadline on_busy k =
      let (taken, k') = kernel.try_write f k in
      let again = poll fuel f deadline on_busy (kernel.sleep poll_interval k') in
      if taken
      then some (ok f, k')
      else if leb deadline (kernel.now k')
      then some (err on_busy, kernel.close f k')
      else again

  abbrev pub poll_from : ℕ → ℕ → LockError E → Answer F → Option (Answer F)
  poll_from fuel timeout on_busy (ok f, k) = poll fuel f (kernel.now k + timeout) on_busy k
  poll_from fuel timeout on_busy (err e, k) = some (err e, k)

  unfoldable pub acquire_with_timeout : ℕ → Str → ℕ → LockError E → K → Option (Answer F)
  unfolding poll open_lock_file
  acquire_with_timeout fuel name timeout on_busy k =
      poll_from fuel timeout on_busy (open_lock_file name k)

  unfoldable pub acquire_spec_with_timeout : ℕ → SpecLabel → ℕ → K → Option (Answer F)
  unfolding acquire_with_timeout str_eq
  acquire_spec_with_timeout fuel label timeout k =
      if str_eq label reserved_workspace_label
      then some (err reserved_label, k)
      else acquire_with_timeout fuel (lock_name label) timeout (spec_busy label) k

  abbrev pub acquire_spec : ℕ → SpecLabel → K → Option (Answer F)
  acquire_spec fuel label = acquire_spec_with_timeout fuel label default_spec_timeout

  -- The probe is dropped, and with it the lock if it was granted.
  abbrev pub probe_opened : Answer F → Answer Bool
  probe_opened (err e, k) = (err e, k)
  probe_opened (ok f, k) = let (taken, k') = kernel.try_write f k in (ok taken, kernel.close f k')

  abbrev pub looked : Str → (K → Answer (Option Str)) → Answer Bool → Answer (Option Str)
  looked stem next (err e, k) = (err e, k)
  looked stem next (ok true, k) = next k
  looked stem next (ok false, k) = (ok (some stem), k)

  abbrev pub visit : Bool → Str → (K → Answer (Option Str)) → K → Answer (Option Str)
  visit false name next k = next k
  visit true name next k = looked (file_stem name) next (probe_opened (open_lock_file name k))

  -- The loop of `find_held_spec_lock`.
  unfoldable pub find_held : List (Result E (Option Str)) → K → Answer (Option Str)
  unfolding is_spec_lock open_lock_file file_stem
  find_held [] k = (ok none, k)
  find_held (err e ∷ entries) k = (err (io e), k)
  find_held (ok none ∷ entries) k = find_held entries k
  find_held (ok (some name) ∷ entries) k = visit (is_spec_lock name) name (find_held entries) k

  abbrev pub find_in : Option (Result E (List (Result E (Option Str)))) → K → Answer (Option Str)
  find_in none k = (ok none, k)
  find_in (some (err e)) k = (err (io e), k)
  find_in (some (ok entries)) k = find_held entries k

  abbrev pub try_workspace : Answer F → Answer F
  try_workspace (err e, k) = (err e, k)
  try_workspace (ok f, k) =
      let (taken, k') = kernel.try_write f k in
      if taken
      then (ok f, k')
      else (err (workspace_busy reserved_workspace_label), kernel.close f k')

  abbrev pub unless_held : Answer (Option Str) → Answer F
  unless_held (err e, k) = (err e, k)
  unless_held (ok (some busy_label), k) = (err (workspace_busy busy_label), k)
  unless_held (ok none, k) = try_workspace (open_lock_file (lock_name reserved_workspace_label) k)

  unfoldable pub acquire_workspace : K → Answer F
  unfolding find_held open_lock_file
  acquire_workspace k = unless_held (find_in (kernel.read_dir k) k)
