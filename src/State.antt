-- ===== src/State.antt =====
-- loom/crates/loom-core/src/state: what the state database is rebuilt from.
pub mod Companions
pub mod Sql
pub mod Db
pub mod Rebuild
mod Tests
