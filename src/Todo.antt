-- ===== src/Todo.antt =====
-- loom/crates/loom-workflow/src/todo: `loom todo`.
pub mod Tier
pub mod Exit
mod Tests
