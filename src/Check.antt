-- ===== src/Check.antt =====
-- loom/crates/loom-workflow/src/check: the review and push gate of `loom check`.
pub mod Gate
mod Tests
