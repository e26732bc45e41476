-- ===== src/Lock/Tests.antt =====
-- Concrete runs of loom/crates/loom-core/src/lock/manager.rs.
use wrapix.Prelude.{ℕ, ◌<◌, ◌≡◌, ◌≢◌, refl, arith, none, some, [], ◌∷◌, Option}
use wrapix.Prelude.Text.{Str, codes, str_eq}
use wrapix.Prelude.Exec.{Result, ok, err}
use wrapix.Lock.{
  LockError, spec_busy, workspace_busy, lock_name, reserved_workspace_label,
  acquire_spec_with_timeout, acquire_workspace,
}
use wrapix.Lock.Workspace.{Taken, acquire_workspace-Taken}
use wrapix.Lock.Polling.{Ended, acquire_spec-Ended}
use wrapix.Lock.Beside.{acquire_spec-beside}
use wrapix.Lock.Toy.{File, System, toy, toy_flock, toy_clock, toy_holder}

abbrev alpha : Str
alpha = codes "alpha"

none_old : (q : Str) (f : File) → none ≡ some f → f.0 < 1
none_old q f h = cc h

abbrev start : System
start = record {
  held = λ q. none;
  next = 1;
  time = 0;
  names = codes "README" ∷ lock_name alpha ∷ lock_name reserved_workspace_label ∷ [];
  old = none_old;
}

-- With the lock of `alpha`, and with that of the workspace.
abbrev with_alpha : System
with_alpha = (toy.try_write (1, lock_name alpha) start).1

abbrev with_workspace : System
with_workspace = (toy.try_write (1, lock_name reserved_workspace_label) start).1

acquire_workspace-Taken_example : Taken toy toy_flock start (acquire_workspace toy start)
acquire_workspace-Taken_example = acquire_workspace-Taken toy toy_flock start

granted : (acquire_workspace toy start).0 ≡ ok (4, lock_name reserved_workspace_label)
unfolding acquire_workspace str_eq
granted = refl

in_use : (acquire_workspace toy with_alpha).0 ≡ err (workspace_busy alpha)
unfolding acquire_workspace str_eq
in_use = refl

acquire_spec-Ended_example :
    (q : Result (LockError Str) File × System) × (acquire_spec_with_timeout toy 101 alpha 5000
        with_alpha
      ≡ some q)
    × Ended toy toy_flock toy_clock alpha 5000 with_alpha q
acquire_spec-Ended_example =
    acquire_spec-Ended toy toy_flock toy_clock 100 5000 alpha with_alpha (omega arith)

abbrev answer :
    Option (Result (LockError Str) File × System) → Option (Result (LockError Str) File × ℕ)
answer none = none
answer (some (r, s)) = some (r, s.time)

-- Busy for 100 ms, which are polled three times.
timed_out :
    answer (acquire_spec_with_timeout toy 3 alpha 100 with_alpha)
    ≡ some (err (spec_busy alpha), 100)
unfolding acquire_spec_with_timeout str_eq
timed_out = refl

acquire_spec-beside_example :
    (m : System) × (acquire_spec_with_timeout toy 1 alpha 5000 with_workspace
      ≡ some (ok (3, lock_name alpha), m))
    × (toy_flock.holder m (lock_name alpha) ≡ some (3, lock_name alpha))
    × ((q : Str) → q ≢ lock_name alpha → toy_flock.holder m q ≡ toy_flock.holder with_workspace q)
    × (toy_flock.holder m (lock_name reserved_workspace_label)
        ≡ toy_flock.holder with_workspace (lock_name reserved_workspace_label))
unfolding str_eq
acquire_spec-beside_example =
    acquire_spec-beside toy toy_flock 0 5000 alpha with_workspace _ (3, lock_name alpha) (λ e. cc e)
      (toy_holder with_workspace (lock_name alpha)) refl
