-- ===== src/Agent/Claude/Completion.antt =====
-- When the events of loom/crates/loom-agent/src/claude/parser.rs say that a session is complete.
use wrapix.Prelude.{subst, some, ℕ, ◌≡◌, refl, Option, List, [], ◌∷◌, In, inl, inr, ◌⊎◌, Bool-cases}
use wrapix.Prelude.Text.{Str, codes, str_eq, str_eq_iff, trim_end_by}
use wrapix.Prelude.Exec.{Result, ok, err}
use wrapix.Agent.Event.{AgentEvent, session_complete, ParsedLine, ProtocolError}
use wrapix.Agent.Wire.{Value, as_json, as_line, answer_line}
use wrapix.Agent.Ndjson.{Read, chunk, is_line_end}
use wrapix.Agent.Session.{Stdin}
use wrapix.Agent.Session.Stream.{Told, stream, stream-source, drain, drain-remaining}
use wrapix.Agent.Claude.{
  AssistantBlock, text, tool_use, UserBlock, tool_output, ClaudeMessage, system, assistant, user,
  result_message, control_request, unknown_message, ResultMessage, Json, control_response,
  is_approved, assistant_events, user_events, result_events, parse_message, parse_line,
  claude_parser,
}

module _ {V F : Type 0} (json : Json V F) (denied : List Str) (code : ℕ) (cost : Option F) where
  abbrev done : AgentEvent (Value V) F
  done = session_complete code cost

  -- A final result of claude's with this exit code and cost.
  abbrev pub Final : ClaudeMessage V F → Type 0
  Final message =
      (r : ResultMessage F) × (message ≡ result_message r)
      × (r.total_cost_usd ≡ cost)
      × (((r.subtype ≡ codes "success") × (code ≡ 0)) ⊎ ((r.subtype ≡ codes "error") × (code ≡ 1)))

  assistant_none : (blocks : List (AssistantBlock V)) → ¬ In done (assistant_events json blocks)
  unfolding assistant_events
  assistant_none [] m = m
  assistant_none (text s ∷ blocks) m = elim m [ inl e ↦ cc e | inr m' ↦ assistant_none blocks m' ]
  assistant_none (tool_use id name input ∷ blocks) m = elim m [
    | inl e ↦ cc e
    | inr m' ↦ assistant_none blocks m'
  ]
  assistant_none (AssistantBlock.unknown_block ∷ blocks) m = assistant_none blocks m

  user_none : (blocks : List (UserBlock V)) → ¬ In done (user_events json blocks)
  unfolding user_events
  user_none [] m = m
  user_none (tool_output id content is_error ∷ blocks) m = elim m [
    | inl e ↦ cc e
    | inr m' ↦ user_none blocks m'
  ]
  user_none (UserBlock.unknown_block ∷ blocks) m = user_none blocks m

  result-Final : (r : ResultMessage F) → In done (result_events json r) → Final (result_message r)
  unfolding result_events
  result-Final r m = elim (Bool-cases (str_eq r.subtype (codes "success"))) [
    | inl e ↦ elim (rw e at m) [
      | inl x ↦ cc x
      | inr m' ↦ elim m' [
        | inl x ↦ (r, refl, cc x, inl ((str_eq_iff _ _).0 e, cc x))
        | inr m'' ↦ absurd m''
      ]
    ]
    | inr e ↦ elim (Bool-cases (str_eq r.subtype (codes "error"))) [
      | inl f ↦ elim (rw (e, f) at m) [
        | inl x ↦ cc x
        | inr m' ↦ elim m' [
          | inl x ↦ (r, refl, cc x, inr ((str_eq_iff _ _).0 f, cc x))
          | inr m'' ↦ absurd m''
        ]
      ]
      | inr f ↦ absurd (rw (e, f) at m)
    ]
  ]

  abbrev Says : Result ProtocolError (ParsedLine (Value V) F) → Type 0
  Says (ok p) = In done p.events
  Says (err e) = ⊥

  request_none : (r : Result ProtocolError Str) → ¬ Says (answer_line (as_line r))
  request_none (ok s) m = m
  request_none (err e) m = m

  message-Final :
      (message : ClaudeMessage V F) → Says (parse_message json denied message) → Final message
  message-Final (system subtype session) m = absurd m
  message-Final (assistant blocks) m = absurd (assistant_none blocks m)
  message-Final (user blocks) m = absurd (user_none blocks m)
  message-Final (result_message r) m = result-Final r m
  message-Final (control_request id tool input) m = absurd (
      request_none (as_json (json.print_wire (control_response id (is_approved json denied tool))))
        m)
  message-Final unknown_message m = absurd m

  abbrev pub LineFinal : Str → Type 0
  LineFinal line =
      (message : ClaudeMessage V F) × (json.message_of line ≡ ok message) × Final message

  line-Final :
      (line : Str) (r : Result Str (ClaudeMessage V F))
      → json.message_of line ≡ r
      → Says (parse_line json denied line)
      → LineFinal line
  unfolding parse_line
  line-Final line (ok message) e m = (message, e, message-Final message (rw e at m))
  line-Final line (err x) e m = absurd (rw e at m)

  -- One of the lines that were read is the final result.
  abbrev pub SomeFinal : List Read → Type 0
  SomeFinal reads = (s : Str) × In (chunk s) reads × LineFinal (trim_end_by is_line_end s)

  stream-Final :
      {W : Type 0} (io : Stdin W) (reads : List Read) (w : W)
      → In done (stream (claude_parser json denied) io reads w).0
      → SomeFinal reads
  stream-Final io reads w m =
      let (s, p, i, e, m') = stream-source (claude_parser json denied) io reads w done m in
      (s, i, line-Final (trim_end_by is_line_end s) _ refl (rw e m'))

  -- A session with claude is reported complete, to a driver that calls `next_event` until there is
  -- no more, only if a line of its output, one of those that were read, is the final result, with
  -- that cost: with exit code 0 only for subtype "success", with 1 only for subtype "error", and with
  -- no other code.
  pub drain-Final :
      {W : Type 0} (io : Stdin W) (reads : List Read) (w : W) (n : ℕ) {told : Told (Value V) F W}
      → drain (claude_parser json denied) io n (record { stdin = w; reader = reads; pending = [] })
        ≡ some told
      → In done told.0
      → SomeFinal reads
  drain-Final {W = W} io reads w n {told} e m = stream-Final io reads w (
      subst (λ (t : Told (Value V) F W). In done t.0)
        (drain-remaining (claude_parser json denied) io n _ told e) m)
