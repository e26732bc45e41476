-- ===== src/Agent.antt =====
-- loom/crates/loom-core/src/agent and loom/crates/loom-agent/src: what the agents say, read line by
-- line, and what is said to them.
pub mod Event
pub mod Ndjson
pub mod Wire
pub mod Session
pub mod Claude
pub mod Pi
mod Tests
