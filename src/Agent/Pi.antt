-- ===== src/Agent/Pi.antt =====
-- loom/crates/loom-agent/src/pi: messages.rs and parser.rs. The JSON library is a parameter: it reads
-- a line as each kind of message, and prints values and what is sent.
pub mod Replies
pub mod Completion
use wrapix.Prelude.{Bool, true, ◌||◌, Option, none, some, List, [], ◌∷◌, if◌then◌else◌}
use wrapix.Prelude.Text.{Str, codes, str_eq}
use wrapix.Prelude.Exec.{Result, ok, err}
use wrapix.Agent.Event.{
  CompactionReason, context_limit, user_requested, unknown_reason, AgentEvent, message_delta,
  tool_call, tool_result, turn_end, session_complete, compaction_start, compaction_end, error_event,
  ProtocolError, unknown_message_type, ParsedLine, empty_line, LineParse,
}
use wrapix.Agent.Wire.{Value, as_json, as_line, answer_line, output_of}

pub record PiEnvelope : Type 0 where
  pub msg_type : Option Str
  pub id : Option Str

pub record PiResponse (V : Type 0) : Type 0 where
  pub id : Str
  pub command : Str
  pub is_success : Bool
  pub payload : Option (Value V)
  pub error : Option Str

pub data AssistantMessageDelta : Type 0 where
  text_delta : Str → AssistantMessageDelta
  -- the reason and the message
  error_delta : Option Str → Option Str → AssistantMessageDelta
  unknown_delta : AssistantMessageDelta

pub data PiEvent (V : Type 0) : Type 0 where
  message_update : AssistantMessageDelta → PiEvent V
  -- the id of the call, the tool and its arguments
  tool_execution_start : Str → Str → Value V → PiEvent V
  -- the id of the call, the result and whether it is an error
  tool_execution_end : Str → Value V → Bool → PiEvent V
  tool_execution_update turn_start turn_ended agent_start agent_end : PiEvent V
  compaction_started : Option Str → PiEvent V
  compaction_ended : Bool → PiEvent V
  queue_update auto_retry_start auto_retry_end extension_error unknown_event : PiEvent V

pub record PiUiRequest : Type 0 where
  pub id : Str
  pub method : Str

-- What is sent to pi.
pub data Wire : Type 0 where
  -- the id of the request and whether it is cancelled
  ui_response : Str → Bool → Wire
  prompt_command steer_command : Str → Wire
  abort_command : Wire

-- `serde_json::from_str` at each type of message, and `to_string`.
pub record Json (V : Type 0) : Type 0 where
  pub envelope_of : Str → Result Str PiEnvelope
  pub response_of : Str → Result Str (PiResponse V)
  pub event_of : Str → Result Str (PiEvent V)
  pub ui_request_of : Str → Result Str PiUiRequest
  pub print_wire : Wire → Result Str Str
  pub print_value : Value V → Str

abbrev reason_of : Str → CompactionReason
reason_of reason =
    if str_eq reason (codes "threshold") || str_eq reason (codes "overflow")
    then context_limit
    else if str_eq reason (codes "manual")
    then user_requested
    else unknown_reason

unfoldable pub map_compaction_reason : Option Str → CompactionReason
unfolding str_eq
map_compaction_reason none = unknown_reason
map_compaction_reason (some reason) = reason_of reason

unfoldable pub ui_method_requires_response : Str → Bool
unfolding str_eq
ui_method_requires_response method =
    str_eq method (codes "select")
    || str_eq method (codes "confirm")
    || str_eq method (codes "input")
    || str_eq method (codes "editor")

-- `message.or(reason).unwrap_or_default()`
abbrev error_text : Option Str → Option Str → Str
error_text (some message) reason = message
error_text none (some reason) = reason
error_text none none = []

module _ (F : Type 0) {V : Type 0} (json : Json V) where
  abbrev Parsed : Type 0
  Parsed = Result ProtocolError (ParsedLine (Value V) F)

  abbrev one : AgentEvent (Value V) F → ParsedLine (Value V) F
  one event = record { events = event ∷ []; response = none }

  unfoldable pub parse_event : PiEvent V → ParsedLine (Value V) F
  unfolding map_compaction_reason
  parse_event (message_update (text_delta text)) = one (message_delta text)
  parse_event (message_update (error_delta reason message)) =
      one (error_event (error_text message reason))
  parse_event (message_update unknown_delta) = empty_line
  parse_event (tool_execution_start id name args) = one (tool_call id name args)
  parse_event (tool_execution_end id result is_error) =
      one (tool_result id (output_of json.print_value result) is_error)
  parse_event turn_ended = one turn_end
  parse_event agent_end = one (session_complete 0 none)
  parse_event (compaction_started reason) = one (compaction_start (map_compaction_reason reason))
  parse_event (compaction_ended aborted) = one (compaction_end aborted)
  parse_event tool_execution_update = empty_line
  parse_event turn_start = empty_line
  parse_event agent_start = empty_line
  parse_event queue_update = empty_line
  parse_event auto_retry_start = empty_line
  parse_event auto_retry_end = empty_line
  parse_event extension_error = empty_line
  parse_event unknown_event = empty_line

  unfoldable pub parse_ui_request : PiUiRequest → Parsed
  unfolding ui_method_requires_response
  parse_ui_request req =
      if ui_method_requires_response req.method
      then answer_line (as_line (as_json (json.print_wire (ui_response req.id true))))
      else ok empty_line

  abbrev pub ignored : Result ProtocolError (PiResponse V) → Parsed
  ignored (ok response) = ok empty_line
  ignored (err e) = err e

  abbrev pub requested : Result ProtocolError PiUiRequest → Parsed
  requested (ok req) = parse_ui_request req
  requested (err e) = err e

  abbrev pub happened : Result ProtocolError (PiEvent V) → Parsed
  happened (ok event) = ok (parse_event event)
  happened (err e) = err e

  -- A line with an id is no event; without a type, its type reads as "".
  abbrev pub classified : Str → Option Str → Str → Parsed
  classified line none kind = happened (as_json (json.event_of line))
  classified line (some id) kind = err (unknown_message_type kind)

  abbrev pub with_type : Str → Option Str → Option Str → Parsed
  with_type line id none = classified line id []
  with_type line id (some kind) =
      if str_eq kind (codes "response")
      then ignored (as_json (json.response_of line))
      else if str_eq kind (codes "extension_ui_request")
      then requested (as_json (json.ui_request_of line))
      else classified line id kind

  abbrev pub enveloped : Str → Result ProtocolError PiEnvelope → Parsed
  enveloped line (ok env) = with_type line env.id env.msg_type
  enveloped line (err e) = err e

  unfoldable pub parse_line : Str → Parsed
  unfolding parse_event parse_ui_request str_eq
  parse_line line = enveloped line (as_json (json.envelope_of line))

  unfoldable pub encode_command : Wire → Result ProtocolError Str
  encode_command payload = as_line (as_json (json.print_wire payload))

  abbrev some_line : Result ProtocolError Str → Result ProtocolError (Option Str)
  some_line (ok line) = ok (some line)
  some_line (err e) = err e

  abbrev pub pi_parser : LineParse (Value V) F
  pi_parser = record {
    parse_line = parse_line;
    encode_prompt = λ msg. encode_command (prompt_command msg);
    encode_steer = λ msg. encode_command (steer_command msg);
    encode_abort = some_line (encode_command abort_command);
  }
