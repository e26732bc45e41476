-- ===== src/Agent/Event.antt =====
-- loom/crates/loom-core/src/agent: event.rs, error.rs and parse.rs. The values of the JSON library
-- are a type `V`, and its floating-point numbers a type `F`.
use wrapix.Prelude.{ℕ, Bool, Option, none, List, []}
use wrapix.Prelude.Text.{Str}
use wrapix.Prelude.Exec.{Result}

pub data CompactionReason : Type 0 where
  context_limit user_requested unknown_reason : CompactionReason

pub data AgentEvent (V F : Type 0) : Type 0 where
  message_delta : Str → AgentEvent V F
  -- its id, the tool and the parameters
  tool_call : Str → Str → V → AgentEvent V F
  -- its id, the output and whether it is an error
  tool_result : Str → Str → Bool → AgentEvent V F
  turn_end : AgentEvent V F
  -- the exit code and the cost
  session_complete : ℕ → Option F → AgentEvent V F
  compaction_start : CompactionReason → AgentEvent V F
  compaction_end : Bool → AgentEvent V F
  error_event : Str → AgentEvent V F

-- The errors of the libraries are the texts that they display.
pub data ProtocolError : Type 0 where
  invalid_json unknown_message_type io_error : Str → ProtocolError
  process_exit : ℕ → ProtocolError
  unexpected_eof : ProtocolError
  -- the length and the limit
  line_too_long : ℕ → ℕ → ProtocolError
  unsupported : ProtocolError

pub record ParsedLine (V F : Type 0) : Type 0 where
  pub events : List (AgentEvent V F)
  pub response : Option Str

abbrev pub empty_line : {V F : Type 0} → ParsedLine V F
empty_line = record { events = []; response = none }

-- The trait that a backend's parser implements.
pub record LineParse (V F : Type 0) : Type 0 where
  pub parse_line : Str → Result ProtocolError (ParsedLine V F)
  pub encode_prompt : Str → Result ProtocolError Str
  pub encode_steer : Str → Result ProtocolError Str
  pub encode_abort : Result ProtocolError (Option Str)
