-- ===== src/Agent/Claude.antt =====
-- loom/crates/loom-agent/src/claude: messages.rs and parser.rs. The JSON library is a parameter: it
-- reads a line as a message, and prints values and what is sent.
pub mod Approvals
pub mod Completion
use wrapix.Prelude.{
  ℕ, Bool, true, false, not, any, Option, none, some, List, [], ◌∷◌, ◌++◌, if◌then◌else◌,
}
use wrapix.Prelude.Text.{Str, codes, str_eq}
use wrapix.Prelude.Exec.{Result, ok, err}
use wrapix.Agent.Event.{
  AgentEvent, message_delta, tool_call, tool_result, turn_end, session_complete, error_event,
  ProtocolError, ParsedLine, empty_line, LineParse,
}
use wrapix.Agent.Wire.{Value, as_json, as_line, answer_line, output_of}

pub data AssistantBlock (V : Type 0) : Type 0 where
  text : Str → AssistantBlock V
  -- its id, the name and the input
  tool_use : Str → Str → Value V → AssistantBlock V
  unknown_block : AssistantBlock V

pub data UserBlock (V : Type 0) : Type 0 where
  -- the id of the use, the content and whether it is an error
  tool_output : Str → Value V → Bool → UserBlock V
  unknown_block : UserBlock V

pub record ResultMessage (F : Type 0) : Type 0 where
  pub subtype : Str
  pub result : Option Str
  pub total_cost_usd : Option F
  pub duration_ms : Option ℕ  -- u64
  pub num_turns : Option ℕ  -- u32
  pub is_error : Option Bool

pub data ClaudeMessage (V F : Type 0) : Type 0 where
  -- the subtype and the session
  system : Str → Option Str → ClaudeMessage V F
  assistant : List (AssistantBlock V) → ClaudeMessage V F
  user : List (UserBlock V) → ClaudeMessage V F
  result_message : ResultMessage F → ClaudeMessage V F
  -- its id, the tool and the input
  control_request : Str → Str → Value V → ClaudeMessage V F
  unknown_message : ClaudeMessage V F

-- What is sent to claude.
pub data Wire : Type 0 where
  -- the id of the request and whether it is approved
  control_response : Str → Bool → Wire
  user_message : Str → Wire

-- `serde_json::from_str`, `to_string` of what is sent, and `to_string` of a value.
pub record Json (V F : Type 0) : Type 0 where
  pub message_of : Str → Result Str (ClaudeMessage V F)
  pub print_wire : Wire → Result Str Str
  pub print_value : Value V → Str

abbrev unwrap_or_default : Option Str → Str
unwrap_or_default none = []
unwrap_or_default (some s) = s

module _ {V F : Type 0} (json : Json V F) where
  abbrev assistant_event : AssistantBlock V → List (AgentEvent (Value V) F)
  assistant_event (text s) = message_delta s ∷ []
  assistant_event (tool_use id name input) = tool_call id name input ∷ []
  assistant_event AssistantBlock.unknown_block = []

  abbrev user_event : UserBlock V → List (AgentEvent (Value V) F)
  user_event (tool_output id content is_error) =
      tool_result id (output_of json.print_value content) is_error ∷ []
  user_event UserBlock.unknown_block = []

  unfoldable pub assistant_events : List (AssistantBlock V) → List (AgentEvent (Value V) F)
  assistant_events [] = []
  assistant_events (block ∷ blocks) = assistant_event block ++ assistant_events blocks

  unfoldable pub user_events : List (UserBlock V) → List (AgentEvent (Value V) F)
  user_events [] = []
  user_events (block ∷ blocks) = user_event block ++ user_events blocks

  unfoldable pub result_events : ResultMessage F → List (AgentEvent (Value V) F)
  unfolding str_eq
  result_events r =
      if str_eq r.subtype (codes "success")
      then turn_end ∷ session_complete 0 r.total_cost_usd ∷ []
      else if str_eq r.subtype (codes "error")
      then error_event (unwrap_or_default r.result) ∷ session_complete 1 r.total_cost_usd ∷ []
      else []

  -- The deny-list is `denied_tools`.
  abbrev pub is_approved : List Str → Str → Bool
  is_approved denied tool = not (any (str_eq tool) denied)

  abbrev pub parse_message :
      List Str → ClaudeMessage V F → Result ProtocolError (ParsedLine (Value V) F)
  parse_message denied (system subtype session) = ok empty_line
  parse_message denied (assistant blocks) =
      ok (record { events = assistant_events blocks; response = none })
  parse_message denied (user blocks) = ok (record { events = user_events blocks; response = none })
  parse_message denied (result_message r) =
      ok (record { events = result_events r; response = none })
  parse_message denied (control_request id tool input) =
      answer_line
        (as_line (as_json (json.print_wire (control_response id (is_approved denied tool)))))
  parse_message denied unknown_message = ok empty_line

  abbrev parse_read :
      List Str
      → Result ProtocolError (ClaudeMessage V F)
      → Result ProtocolError (ParsedLine (Value V) F)
  parse_read denied (ok message) = parse_message denied message
  parse_read denied (err e) = err e

  unfoldable pub parse_line : List Str → Str → Result ProtocolError (ParsedLine (Value V) F)
  unfolding assistant_events user_events result_events str_eq
  parse_line denied line = parse_read denied (as_json (json.message_of line))

  unfoldable pub encode_user_message : Str → Result ProtocolError Str
  encode_user_message msg = as_line (as_json (json.print_wire (user_message msg)))

  -- `ClaudeParser` with its deny-list.
  abbrev pub claude_parser : List Str → LineParse (Value V) F
  claude_parser denied = record {
    parse_line = parse_line denied;
    encode_prompt = encode_user_message;
    encode_steer = encode_user_message;
    encode_abort = ok none;
  }
