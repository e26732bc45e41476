-- ===== src/Run.antt =====
-- loom/crates/loom-workflow/src/run: `loom run`.
pub mod Retry
pub mod Loop
pub mod Production
pub mod Batch
mod Tests
