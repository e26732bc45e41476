-- ===== src/Spec.antt =====
-- loom/crates/loom-workflow/src/spec: the specs' criteria and what these refer to.
pub mod Criteria
pub mod Annotations
pub mod Deps
mod Tests
