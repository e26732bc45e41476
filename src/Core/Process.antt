-- ===== src/Core/Process.antt =====
-- The programs that loom/crates/loom-core runs, bd and git: what `tokio::process` gives of one that ends,
-- or does not in time.
use wrapix.Prelude.{ℕ, Bool, false, ◌==◌, Option, none, some, List}
use wrapix.Prelude.Int.{ℤ, pos, negsuc}

-- What `tokio::process::Command::output` under `timeout` gives.
pub data Finished (I : Type 0) : Type 0 where
  -- the exit code, none after a signal, and the two outputs
  exited : Option ℤ → List ℕ → List ℕ → Finished I
  not_spawned : I → Finished I
  elapsed : Finished I

abbrev pub code_or_minus_one : Option ℤ → ℤ
code_or_minus_one (some n) = n
code_or_minus_one none = negsuc 0

-- `ExitStatus::success`
abbrev pub succeeded : Option ℤ → Bool
succeeded (some (pos n)) = n == 0
succeeded (some (negsuc n)) = false
succeeded none = false
