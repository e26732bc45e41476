-- ===== src/Agent/Pi/Completion.antt =====
-- When the events of loom/crates/loom-agent/src/pi/parser.rs say that a session is complete.
use wrapix.Prelude.{
  subst, some, ℕ, ◌≡◌, ◌≢◌, refl, Option, none, some, List, In, true, inl, inr, Bool-cases, [], ◌∷◌,
}
use wrapix.Prelude.Text.{Str, codes, str_eq, trim_end_by}
use wrapix.Prelude.Exec.{Result, ok, err}
use wrapix.Agent.Event.{AgentEvent, session_complete, ParsedLine, ProtocolError}
use wrapix.Agent.Wire.{Value, as_json, as_line, answer_line}
use wrapix.Agent.Ndjson.{Read, chunk, is_line_end}
use wrapix.Agent.Session.{Stdin}
use wrapix.Agent.Session.Stream.{Told, stream, stream-source, drain, drain-remaining}
use wrapix.Agent.Pi.{
  text_delta, error_delta, unknown_delta, message_update, tool_execution_start, tool_execution_end,
  tool_execution_update, turn_start, turn_ended, agent_start, compaction_started, compaction_ended,
  queue_update, auto_retry_start, auto_retry_end, extension_error, unknown_event, PiEnvelope,
  PiEvent, PiUiRequest, PiResponse, agent_end, Json, ui_response, ui_method_requires_response,
  parse_event, parse_ui_request, ignored, requested, classified, with_type, enveloped, parse_line,
  pi_parser,
}

module _ (F : Type 0) {V : Type 0} (json : Json V) (code : ℕ) (cost : Option F) where
  abbrev done : AgentEvent (Value V) F
  done = session_complete code cost

  -- The line is the event that pi's agent has ended.
  abbrev pub Ends : Str → Type 0
  Ends line = (json.event_of line ≡ ok agent_end) × (code ≡ 0) × (cost ≡ none)

  abbrev Says : Result ProtocolError (ParsedLine (Value V) F) → Type 0
  Says (ok p) = In done p.events
  Says (err e) = ⊥

  another : (event : AgentEvent (Value V) F) → done ≢ event → ¬ In done (event ∷ [])
  another event ne m = elim m [ inl e ↦ ne e | inr y ↦ y ]

  event-Ends :
      (line : Str) (event : PiEvent V)
      → json.event_of line ≡ ok event
      → In done (parse_event F json event).events
      → Ends line
  unfolding parse_event
  event-Ends line (message_update (text_delta text)) e m = absurd (another _ (λ h. cc h) m)
  event-Ends line (message_update (error_delta reason message)) e m =
      absurd (another _ (λ h. cc h) m)
  event-Ends line (tool_execution_start id name args) e m = absurd (another _ (λ h. cc h) m)
  event-Ends line (tool_execution_end id result is_error) e m = absurd (another _ (λ h. cc h) m)
  event-Ends line turn_ended e m = absurd (another _ (λ h. cc h) m)
  event-Ends line (compaction_started reason) e m = absurd (another _ (λ h. cc h) m)
  event-Ends line (compaction_ended aborted) e m = absurd (another _ (λ h. cc h) m)
  event-Ends line (message_update unknown_delta) e m = absurd m
  event-Ends line tool_execution_update e m = absurd m
  event-Ends line turn_start e m = absurd m
  event-Ends line agent_start e m = absurd m
  event-Ends line queue_update e m = absurd m
  event-Ends line auto_retry_start e m = absurd m
  event-Ends line auto_retry_end e m = absurd m
  event-Ends line extension_error e m = absurd m
  event-Ends line unknown_event e m = absurd m
  event-Ends line agent_end e m = elim m [ inl x ↦ (e, cc x, cc x) | inr y ↦ absurd y ]

  classified-Ends :
      (line kind : Str) (id : Option Str) (r : Result Str (PiEvent V))
      → json.event_of line ≡ r
      → Says (classified F json line id kind)
      → Ends line
  classified-Ends line kind (some id) r e m = absurd m
  classified-Ends line kind none (ok event) e m = event-Ends line event e (rw e at m)
  classified-Ends line kind none (err x) e m = absurd (rw e at m)

  request_silent : (r : Result ProtocolError Str) → ¬ Says (answer_line (as_line r))
  request_silent (ok s) m = m
  request_silent (err e) m = m

  requested_silent : (r : Result Str PiUiRequest) → ¬ Says (requested F json (as_json r))
  unfolding parse_ui_request
  requested_silent (ok req) m = elim (Bool-cases (ui_method_requires_response req.method)) [
    | inl asks ↦ request_silent (as_json (json.print_wire (ui_response req.id true))) (rw asks at m)
    | inr idle ↦ rw idle at m
  ]
  requested_silent (err x) m = m

  ignored_silent : (r : Result Str (PiResponse V)) → ¬ Says (ignored F json (as_json r))
  ignored_silent (ok response) m = m
  ignored_silent (err x) m = m

  with_type-Ends :
      (line : Str) (id kind : Option Str) → Says (with_type F json line id kind) → Ends line
  with_type-Ends line id none m = classified-Ends line [] id _ refl m
  with_type-Ends line id (some kind) m = elim (Bool-cases (str_eq kind (codes "response"))) [
    | inl e ↦ absurd (ignored_silent (json.response_of line) (rw e at m))
    | inr e ↦ elim (Bool-cases (str_eq kind (codes "extension_ui_request"))) [
      | inl f ↦ absurd (requested_silent (json.ui_request_of line) (rw (e, f) at m))
      | inr f ↦ classified-Ends line kind id _ refl (rw (e, f) at m)
    ]
  ]

  enveloped-Ends :
      (line : Str) (r : Result Str PiEnvelope)
      → Says (enveloped F json line (as_json r))
      → Ends line
  enveloped-Ends line (ok env) m = with_type-Ends line env.id env.msg_type m
  enveloped-Ends line (err x) m = absurd m

  -- One of the lines that were read is that event.
  abbrev pub SomeEnds : List Read → Type 0
  SomeEnds reads = (s : Str) × In (chunk s) reads × Ends (trim_end_by is_line_end s)

  stream-Ends :
      {W : Type 0} (io : Stdin W) (reads : List Read) (w : W)
      → In done (stream (pi_parser F json) io reads w).0
      → SomeEnds reads
  stream-Ends io reads w m =
      let (s, p, i, e, m') = stream-source (pi_parser F json) io reads w done m in
      let line = trim_end_by is_line_end s in
      (s, i, unfold parse_line in enveloped-Ends line (json.envelope_of line) (rw e m'))

  -- A session with pi is reported complete, to a driver that calls `next_event` until there is no
  -- more, only if a line of its output, one of those that were read, is the event that the agent has
  -- ended, and then with exit code 0 and without a cost.
  pub drain-Ends :
      {W : Type 0} (io : Stdin W) (reads : List Read) (w : W) (n : ℕ) {told : Told (Value V) F W}
      → drain (pi_parser F json) io n (record { stdin = w; reader = reads; pending = [] })
        ≡ some told
      → In done told.0
      → SomeEnds reads
  drain-Ends {W = W} io reads w n {told} e m = stream-Ends io reads w (
      subst (λ (t : Told (Value V) F W). In done t.0)
        (drain-remaining (pi_parser F json) io n _ told e) m)
