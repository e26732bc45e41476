-- ===== src/Agent/Session.antt =====
-- loom/crates/loom-core/src/agent/session.rs: a session with an agent. The state parameter of the
-- source's type is in the types of the functions: `prompt` takes an idle session and gives an active
-- one, and so on. The child's input is a state `W` that writing and flushing change.
pub mod Answer
pub mod Stream
use wrapix.Prelude.{
  ℕ, zero, suc, Bool, false, ◌==◌, Option, none, some, List, [], ◌∷◌, length, last?, if◌then◌else◌,
}
use wrapix.Prelude.Text.{Str}
use wrapix.Prelude.Exec.{Result, ok, err, Exec}
use wrapix.Prelude.Exec
use wrapix.Prelude.Act.{Act, pure, ◌>>=◌, ◌>>◌}
use wrapix.Agent.Event.{AgentEvent, ProtocolError, io_error, ParsedLine, LineParse}
use wrapix.Agent.Ndjson.{Read, next_line}

pub record Stdin (W : Type 0) : Type 0 where
  pub write_all : Str → W → Result Str (Unit {0}) × W
  pub flush : W → Result Str (Unit {0}) × W

pub record Session (V F W : Type 0) : Type 0 where
  pub stdin : W
  pub reader : List Read
  pub pending : List (AgentEvent V F)

-- The two states of a session.
pub record Idle (V F W : Type 0) : Type 0 where
  pub session : Session V F W

pub record Active (V F W : Type 0) : Type 0 where
  pub session : Session V F W

abbrev pub new_session : {V F W : Type 0} → W → List Read → Idle V F W
new_session stdin reader = record {
  session = record { stdin = stdin; reader = reader; pending = [] };
}

-- An `io::Error` under `?`.
abbrev pub as_io : {W : Type 0} → Result Str (Unit {0}) × W → Result ProtocolError (Unit {0}) × W
as_io (ok _, w) = (ok tt, w)
as_io (err e, w) = (err (io_error e), w)

abbrev pub ends_line : Option ℕ → Bool
ends_line none = false
ends_line (some c) = c == 0x0a

module _ {V F W : Type 0} (parser : LineParse V F) (io : Stdin W) where
  abbrev pub write : Str → Act W ProtocolError (Unit {0})
  write s w = as_io (io.write_all s w)

  abbrev pub flush : Act W ProtocolError (Unit {0})
  flush w = as_io (io.flush w)

  -- A parsed line's response goes to the agent, as a line.
  unfoldable pub write_response : Option Str → Act W ProtocolError (Unit {0})
  write_response none = pure tt
  write_response (some response) = do
    write response
    if ends_line (last? response) then pure tt else write (0x0a ∷ [])
    flush

  abbrev send_line : Result ProtocolError Str → Act W ProtocolError (Unit {0})
  send_line (err e) w = (err e, w)
  send_line (ok line) w = (do write line; flush) w

  abbrev activated :
      Session V F W → Result ProtocolError (Unit {0}) × W → Result ProtocolError (Active V F W)
  activated s (ok _, w) = ok (record { session = record s { stdin = w } })
  activated s (err e, w) = err e

  -- A session that could not be prompted is gone.
  unfoldable pub prompt : Str → Idle V F W → Result ProtocolError (Active V F W)
  prompt msg s = activated s.session (send_line (parser.encode_prompt msg) s.session.stdin)

  abbrev pub Next : Type 0
  Next = Option (Result ProtocolError (Option (AgentEvent V F)) × Session V F W)

  -- The first event of a line goes to the caller and the others are kept; a line without events is
  -- passed over.
  abbrev pub emit : (Session V F W → Next) → List (AgentEvent V F) → Session V F W → Next
  emit more [] s = more s
  emit more (event ∷ events) s = some (ok (some event), record s { pending = events })

  abbrev pub answered :
      (Session V F W → Next)
      → List (AgentEvent V F)
      → Session V F W
      → Result ProtocolError (Unit {0}) × W
      → Next
  answered more events s (err e, w) = some (err e, record s { stdin = w })
  answered more events s (ok _, w) = emit more events (record s { stdin = w })

  abbrev pub parsed :
      (Session V F W → Next) → Session V F W → Result ProtocolError (ParsedLine V F) → Next
  parsed more s (err e) = some (err e, s)
  parsed more s (ok p) = answered more p.events s (write_response p.response s.stdin)

  abbrev pub received :
      (Session V F W → Next) → Session V F W → Result ProtocolError (Option Str) × List Read → Next
  received more s (err e, reads) = some (err e, record s { reader = reads })
  received more s (ok none, reads) = some (ok none, record s { reader = reads })
  received more s (ok (some line), reads) =
      parsed more (record s { reader = reads }) (parser.parse_line line)

  -- The loop of `next_event`, `fuel` lines of it.
  unfoldable pub read_events : ℕ → Session V F W → Next
  unfolding next_line write_response
  read_events zero s = none
  read_events (suc fuel) s = received (read_events fuel) s (next_line s.reader)

  abbrev pub next_of : List (AgentEvent V F) → Session V F W → Next
  next_of [] s = read_events (suc (length s.reader)) s
  next_of (event ∷ events) s = some (ok (some event), record s { pending = events })

  -- Each round of the loop reads, so that there are no more rounds than reads that are left.
  unfoldable pub next_event : Session V F W → Next
  unfolding read_events
  next_event s = next_of s.pending s

  unfoldable pub steer : Str → Active V F W → Result ProtocolError (Unit {0}) × Active V F W
  steer msg s =
      let (answer, w) = send_line (parser.encode_steer msg) s.session.stdin in
      (answer, record { session = record s.session { stdin = w } })

  abbrev idled :
      Session V F W → Result ProtocolError (Unit {0}) × W → Result ProtocolError (Idle V F W)
  idled s (ok _, w) = ok (record { session = record s { stdin = w; pending = [] } })
  idled s (err e, w) = err e

  abbrev abort_with :
      Session V F W → Result ProtocolError (Option Str) → Result ProtocolError (Idle V F W)
  abort_with s (err e) = err e
  abort_with s (ok none) = ok (record { session = record s { pending = [] } })
  abort_with s (ok (some line)) = idled s (send_line (ok line) s.stdin)

  unfoldable pub abort : Active V F W → Result ProtocolError (Idle V F W)
  abort s = abort_with s.session parser.encode_abort
