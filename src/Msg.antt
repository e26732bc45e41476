-- ===== src/Msg.antt =====
-- loom/crates/loom-workflow/src/msg: what a human is asked, and the answers.
pub mod Context
pub mod Options
pub mod Reply
pub mod Target
mod Tests
use wrapix.Prelude.{ℕ}
use wrapix.Prelude.Text.{Str}

-- error.rs, without the failures of bd and of the template, which the functions here do not raise
pub data MsgError : Type 0 where
  -- the value given to -n
  invalid_index : Str → MsgError
  -- the index, and how many beads there are
  index_out_of_range : ℕ → ℕ → MsgError
  bead_not_found : Str → MsgError
  -- the bead, the option, and the options there are
  option_missing : Str → ℕ → Str → MsgError
  target_required ambiguous_target answer_or_dismiss : MsgError
