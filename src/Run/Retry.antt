-- ===== src/Run/Retry.antt =====
-- loom/crates/loom-workflow/src/run/outcome.rs, retry.rs, and `process_one_bead` of runner.rs: one
-- bead through the retry state machine.
pub mod Step
pub mod Bounds
use wrapix.Prelude.{ℕ, zero, suc, ◌+◌, ◌%◌, ◌^◌, Option, none, some, [], leb, if◌then◌else◌}
use wrapix.Prelude.Text.{Str}
use wrapix.Prelude.Exec.{Result, ok, err, Exec, pure, lift, ◌>>=◌}
use wrapix.Core.Bead.{Bead}
use wrapix.Core.BeadId.{BeadId}

-- outcome.rs
pub data AgentOutcome : Type 0 where
  success : AgentOutcome
  failure : Str → AgentOutcome

pub data BeadResult : Type 0 where
  done : BeadResult
  clarified : Str → BeadResult

-- retry.rs
pub record RetryPolicy : Type 0 where
  pub max_retries : ℕ  -- u32

pub data RetryDecision : Type 0 where
  retry : Str → RetryDecision
  give_up : RetryDecision

abbrev pub default_policy : RetryPolicy
default_policy = record { max_retries = 2 }

unfoldable pub decide : RetryPolicy → ℕ → Str → RetryDecision
decide policy retries_used failed =
    if leb policy.max_retries retries_used then give_up else retry failed

-- u32 arithmetic wraps.
abbrev pub u32 : ℕ → ℕ
u32 n = n % 2 ^ 32

-- The trait `AgentLoopController` of runner.rs. Its methods act on a state of the implementation's
-- own and may fail; what they do is the implementation's.
pub record Controller (S E : Type 0) : Type 0 where
  pub next_ready_bead : S → Result E (Option Bead) × S
  pub run_bead : Bead → Option Str → S → Result E AgentOutcome × S
  pub close_bead : BeadId → S → Result E (Unit {0}) × S
  pub apply_clarify : BeadId → S → Result E (Unit {0}) × S
  pub exec_check : S → Result E (Unit {0}) × S

-- `Option<String>::unwrap_or_default`
abbrev pub unwrap_or_default : Option Str → Str
unwrap_or_default none = []
unwrap_or_default (some s) = s

module _ {S E : Type 0} (c : Controller S E) (bead : Bead) (policy : RetryPolicy) where
  -- The loop of `process_one_bead` over `retries_used` and `previous_failure`.
  unfoldable pub process_from : ℕ → ℕ → Option Str → Exec S E BeadResult
  unfolding decide
  process_from zero retries_used previous_failure s = none
  process_from (suc fuel) retries_used previous_failure s =
      (do
        outcome ← lift (c.run_bead bead previous_failure)
        elim outcome [
          | success ↦ pure done
          | failure error ↦ elim (decide policy retries_used error) [
            | retry pf ↦ process_from fuel (u32 (retries_used + 1)) (some pf)
            | give_up ↦ pure (clarified (unwrap_or_default previous_failure))
          ]
        ])
        s

  -- Each round but the last uses up a retry, so `max_retries + 1` rounds are enough.
  unfoldable pub process_one_bead : Exec S E BeadResult
  unfolding process_from
  process_one_bead = process_from (suc policy.max_retries) 0 none
