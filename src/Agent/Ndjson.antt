-- ===== src/Agent/Ndjson.antt =====
-- loom/crates/loom-core/src/agent/ndjson.rs: the reader of an agent's output. The pipe is what the
-- calls of `read_line` on it give, one after another; behind them is its end.
use wrapix.Prelude.{
  ℕ, ◌*◌, Bool, ◌==◌, ◌||◌, Option, none, some, List, [], ◌∷◌, is_empty, ltb, if◌then◌else◌,
}
use wrapix.Prelude.Text.{Str, trim_end_by, utf8_len}
use wrapix.Prelude.Exec.{Result, ok, err}
use wrapix.Agent.Event.{ProtocolError, io_error, line_too_long}

-- A line with its end, as far as the pipe has one, or an error.
pub data Read : Type 0 where
  chunk failed : Str → Read

abbrev pub max_line_bytes : ℕ
max_line_bytes = 10 * 1024 * 1024

abbrev pub is_line_end : ℕ → Bool
is_line_end c = c == 0x0a || c == 0x0d

-- The line, or none at the end of the output, and what is left to read.
unfoldable pub next_line : List Read → Result ProtocolError (Option Str) × List Read
unfolding utf8_len trim_end_by
next_line [] = (ok none, [])
next_line (failed e ∷ reads) = (err (io_error e), reads)
next_line (chunk s ∷ reads) =
    let line = trim_end_by is_line_end s in
    let later = next_line reads in
    if is_empty s
    then (ok none, reads)
    else if ltb max_line_bytes (utf8_len s)
    then (err (line_too_long (utf8_len s) max_line_bytes), reads)
    else if is_empty line
    then later
    else (ok (some line), reads)
