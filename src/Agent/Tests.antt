-- ===== src/Agent/Tests.antt =====
-- Concrete sessions with claude and with pi.
use wrapix.Prelude.{
  ℕ, ◌≡◌, refl, Bool, true, false, none, some, List, [], ◌∷◌, ◌++◌, inl, inr, ◌||◌, arith,
  if◌then◌else◌,
}
use wrapix.Prelude.Text.{Str, codes, str_eq}
use wrapix.Prelude.Exec.{Result, ok, err}
use wrapix.Agent.Event.{message_delta, turn_end, session_complete}
use wrapix.Agent.Wire.{Value, null}
use wrapix.Agent.Ndjson.{Read, chunk}
use wrapix.Agent.Session.{Session, Stdin}
use wrapix.Agent.Session.Stream.{finished, remaining, stream, drain, drain-stream}
use wrapix.Agent.Claude
use wrapix.Agent.Claude.{
  ClaudeMessage, assistant, text, result_message, control_request, unknown_message, claude_parser,
}
use wrapix.Agent.Claude.Approvals.{Answers, parse_line-Answers}
use wrapix.Agent.Claude.Completion.{SomeFinal, drain-Final}
use wrapix.Agent.Pi
use wrapix.Agent.Pi.{pi_parser}
use wrapix.Agent.Pi.Replies.{Replies, parse_line-Replies}
use wrapix.Agent.Pi.Completion.{SomeEnds, drain-Ends}

-- A child that takes all that is written, and keeps it.
abbrev kept : Stdin (List Str)
kept = record { write_all = λ s w. (ok tt, w ++ s ∷ []); flush = λ w. (ok tt, w) }

-- A JSON library for which the line "ask" is a request for the tool "Bash", "done" the final result,
-- and any other line what claude says.
abbrev message_of : Str → ClaudeMessage ℕ ℕ
message_of line =
    if str_eq line (codes "ask")
    then control_request (codes "r1") (codes "Bash") null
    else if str_eq line (codes "done")
    then result_message (record {
      subtype = codes "success";
      result = none;
      total_cost_usd = some 42;
      duration_ms = none;
      num_turns = none;
      is_error = none;
    })
    else assistant (text line ∷ [])

abbrev print_wire : Claude.Wire → Result Str Str
print_wire (Claude.Wire.control_response id true) = ok (id ++ codes " yes")
print_wire (Claude.Wire.control_response id false) = ok (id ++ codes " no")
print_wire (Claude.Wire.user_message msg) = ok msg

abbrev json : Claude.Json ℕ ℕ
json = record {
  message_of = λ line. ok (message_of line);
  print_wire = print_wire;
  print_value = λ v. [];
}

abbrev denied : List Str
denied = codes "Bash" ∷ []

abbrev said : List Read
said =
    chunk (codes "hello" ++ 0x0a ∷ [])
    ∷ chunk (0x0a ∷ [])
    ∷ chunk (codes "ask" ++ 0x0d ∷ 0x0a ∷ [])
    ∷ chunk (codes "done")
    ∷ []

abbrev session : Session (Value ℕ) ℕ (List Str)
session = record { stdin = []; reader = said; pending = [] }

drained_events :
    drain (claude_parser json denied) kept 4 session
    ≡ some (
      message_delta (codes "hello") ∷ turn_end ∷ session_complete 0 (some 42) ∷ [],
      finished,
      (codes "r1 no" ++ 0x0a ∷ []) ∷ [],
    )
unfolding drain str_eq Claude.parse_line
drained_events = refl

drain-stream_example :
    drain (claude_parser json denied) kept 4 session
    ≡ some (remaining (claude_parser json denied) kept session)
unfolding stream str_eq Claude.parse_line
drain-stream_example = drain-stream (claude_parser json denied) kept 4 session (omega arith)

parse_line-Answers_example :
    Answers json denied (message_of (codes "ask")) (Claude.parse_line json denied (codes "ask"))
parse_line-Answers_example =
    parse_line-Answers json denied (codes "ask") (message_of (codes "ask")) refl

drain-Final_example : SomeFinal json denied 0 (some 42) said
drain-Final_example =
    drain-Final json denied 0 (some 42) kept said [] 4 drained_events (inr (inr (inl refl)))

-- A JSON library for pi, for which the line "end" is the end of the agent, "select" and "notify" are
-- requests of an extension, and the others say themselves.
abbrev is_request : Str → Bool
is_request line = str_eq line (codes "select") || str_eq line (codes "notify")

abbrev pi_json : Pi.Json ℕ
pi_json = record {
  envelope_of = λ line. ok (record {
    msg_type = if is_request line then some (codes "extension_ui_request") else none;
    id = if is_request line then some (codes "u1") else none;
  });
  response_of = λ line. err (codes "no response");
  event_of = λ line. ok (
      if str_eq line (codes "end")
      then Pi.PiEvent.agent_end
      else Pi.PiEvent.message_update (Pi.AssistantMessageDelta.text_delta line));
  ui_request_of = λ line. ok (record { id = codes "u1"; method = line });
  print_wire = λ wire. ok (codes "cancelled");
  print_value = λ v. [];
}

parse_line-Replies_example :
    Replies ℕ pi_json (codes "select") (Pi.parse_line ℕ pi_json (codes "select"))
parse_line-Replies_example = parse_line-Replies ℕ pi_json (codes "select")

abbrev pi_said : List Read
pi_said =
    chunk (codes "hello" ++ 0x0a ∷ [])
    ∷ chunk (codes "select" ++ 0x0a ∷ [])
    ∷ chunk (codes "end" ++ 0x0a ∷ [])
    ∷ []

pi_drained :
    drain (pi_parser ℕ pi_json) kept 3 (record { stdin = []; reader = pi_said; pending = [] })
    ≡ some (
      message_delta (codes "hello") ∷ session_complete 0 none ∷ [],
      finished,
      (codes "cancelled" ++ 0x0a ∷ []) ∷ [],
    )
unfolding drain str_eq Pi.parse_line
pi_drained = refl

drain-Ends_example : SomeEnds ℕ pi_json 0 none pi_said
drain-Ends_example = drain-Ends ℕ pi_json 0 none kept pi_said [] 3 pi_drained (inr (inl refl))
