-- ===== src/Logging.antt =====
-- loom/crates/loom-core/src/logging: where the logs of the agents go.
pub mod Time
pub mod Retention
mod Tests
