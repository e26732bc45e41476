-- ===== src/Tmux.antt =====
-- lib/mcp/tmux/tmux-mcp: the tmux debug server.
pub mod Panes
pub mod Windows
pub mod Session
pub mod Protocol
pub mod Tools
pub mod Audit
pub mod Server
mod Tests
