-- ===== src/Core.antt =====
-- loom/crates/loom-core: labels, bead ids, beads, and the clients of bd and git.
pub mod Label
pub mod BeadId
pub mod Bead
pub mod Process
pub mod Bd
pub mod Git
mod Tests
