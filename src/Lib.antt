-- ===== src/Lib.antt =====
-- wrapix: the decisions of Loom, which runs coding agents over a queue of beads (issues kept by the
-- program bd), and of the tmux debug server that the agents call.
--
-- How the parts interact. `loom todo` turns spec changes into beads, `loom run` gives ready beads to
-- agents, one at a time or a batch in git worktrees, and `loom check` reviews the result and pushes
-- it, asks a human, or starts `loom run` again. The agents look at programs through the tmux server.
--
-- Core: loom/crates/loom-core/src. Core/Label is bd/label.rs, Core/BeadId is identifier/bead.rs,
--   Core/Bead is bd/models.rs, Core/Bd is the client of bd: client.rs, runner.rs and error.rs of bd,
--   and Core/Git the one of git: client.rs and error.rs of git. Core/Process is how a program ends.
--   A text is a list of code points (Prelude/Text), and an identifier that the source wraps is the
--   text.
-- Lock: loom/crates/loom-core/src/lock, manager.rs and error.rs. Lock/Flock says what the code relies
--   on of the file system and its advisory locks, and Lock/Toy is a small file system that has it.
-- Run: loom/crates/loom-workflow/src/run. Run/Retry is retry.rs, outcome.rs and `process_one_bead`
--   of runner.rs; Run/Loop is `run_loop` of runner.rs; Run/Production is the controller of
--   production.rs; Run/Batch is parallel.rs, and Run/Batch/Halted joins it to Core/Git. The trait
--   `AgentLoopController` is a record of functions over a state of the implementation's own, each of
--   which may fail.
-- Check: loom/crates/loom-workflow/src/check. Check/Gate is runner.rs, verdict.rs and iteration.rs.
-- Todo: loom/crates/loom-workflow/src/todo. Todo/Tier is tier.rs, Todo/Exit is exit.rs.
-- Msg: loom/crates/loom-workflow/src/msg. Msg/Options is options.rs, Msg/Reply is reply.rs,
--   Msg/Target is list.rs and `resolve_target` of context.rs, Msg/Context is the rest of context.rs,
--   with the types of loom/crates/loom-templates/src/msg/mod.rs; MsgError is error.rs.
-- Spec: loom/crates/loom-workflow/src/spec. Spec/Criteria and Spec/Annotations are annotations.rs,
--   Spec/Deps is deps.rs, on the bytes of a file, whose paths are those of Prelude/Components.
-- State: loom/crates/loom-core/src/state. State/Companions is companions.rs, State/Db is db.rs and
--   error.rs, State/Rebuild is rebuild.rs. State/Sql has the tables and the statements, State/Sql/Sqlite
--   what they are taken to do, and State/Sql/Toy a small database that does it.
-- Init: loom/crates/loom-workflow/src/init, mod.rs and error.rs, which uses the workspace's lock, the
--   database and bd. Init/Toy puts the small worlds of the lock and of the database side by side.
-- In Plan: of loom/crates/loom-workflow/src/plan, the reconciliation of companions.rs and error.rs.
-- Agent: loom/crates/loom-core/src/agent and loom/crates/loom-agent/src. Agent/Event is event.rs,
--   error.rs and parse.rs, Agent/Ndjson is ndjson.rs, the reader of lines, and Agent/Session is
--   session.rs; Agent/Claude and Agent/Pi are messages.rs and parser.rs of claude/ and pi/, and
--   Agent/Wire is what these two share.
-- Logging: loom/crates/loom-core/src/logging. Logging/Time is time.rs, Logging/Retention is
--   retention.rs, on a tree of what the file system answers.
-- Tmux: lib/mcp/tmux/tmux-mcp/src. Tmux/Panes is panes.rs, Tmux/Session is tmux.rs and Tmux/Windows
--   what it reads of the output of `tmux list-windows`, Tmux/Protocol is mcp.rs, and of main.rs
--   Tmux/Tools is the handlers of the tools and Tmux/Server the dispatch and the loop. Tmux/Audit is
--   audit.rs, the log of what the tools were asked; for the handlers a log is a record of functions.
-- Prelude: lists, texts and the functions of Rust's `str` and `Path` that the code calls, UTF-8,
--   decimal numbers, machine integers, and actions that change a state and may fail.
--
-- Loops. The retry loop takes `max_retries + 1` rounds, one for each attempt that the budget
-- allows. `run_loop` takes its fuel, a number of rounds, as an argument: one round is enough in
-- once mode, and in continuous mode as many as there are beads settled one after another, and one
-- more; for a controller that never runs dry none is. The loop of `next_event` takes one more round
-- than there are reads, and the search for a tool one for each byte of the file. The wait for a
-- lock takes one round for each 50 ms of the timeout and one more, and the search for the year of a
-- time stamp one for each day and one more; that these are enough is proved. All other loops are by
-- recursion on a list or on the tree of the directory.
--
-- Integers. u32 and u64 counters wrap, as `% 2 ^ 32` and `% 2 ^ 64`, or saturate where the source
-- says so; a cast to a signed integer is written out.
--
-- Parameters. bd, git, tmux, the agents, JSON decoding and the other commands are arguments of the
-- definitions; what a theorem needs of them is a hypothesis.
--
-- Not modelled: the programs themselves, files, SQLite, TOML and the configuration, the command line,
-- the templates, the log sink and renderer, what gix reads of a repository, and how the agents are
-- started and stopped.
pub mod Prelude
pub mod Core
pub mod Run
pub mod Check
pub mod Todo
pub mod Init
pub mod Lock
pub mod Msg
pub mod Plan
pub mod Spec
pub mod State
pub mod Logging
pub mod Agent
pub mod Tmux
