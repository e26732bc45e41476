-- ===== src/Agent/Claude/Approvals.antt =====
-- What `ClaudeParser` of loom/crates/loom-agent/src/claude/parser.rs answers to claude's questions for
-- permission.
use wrapix.Prelude.{
  ◌≡◌, ◌≢◌, ◌↔◌, ◌++◌, refl, Bool, true, false, not, any, Option, none, some, List, [], ◌∷◌, In,
  arith,
}
use wrapix.Prelude.Text.{Str, str_eq, any-In}
use wrapix.Prelude.Exec.{Result, ok, err}
use wrapix.Agent.Event.{ProtocolError, invalid_json, ParsedLine}
use wrapix.Agent.Wire.{Value, as_json, as_line, answer_line}
use wrapix.Agent.Claude.{
  ClaudeMessage, system, assistant, user, result_message, control_request, unknown_message, Json,
  control_response, is_approved, parse_message, parse_line,
}

not_denied : (b : Bool) → (not b ≡ false) ↔ (b ≡ true)
not_denied b = (λ h. ground arith, λ h. ground arith)

module _ {V F : Type 0} (json : Json V F) (denied : List Str) where
  -- The answer to a request for a tool, as it is printed.
  abbrev Asked : ClaudeMessage V F → Result Str Str → Type 0
  Asked message printed =
      (id : Str) × (tool : Str) × (input : Value V) × (approved : Bool) × (message
        ≡ control_request id tool input)
      × ((approved ≡ false) ↔ In tool denied)
      × (json.print_wire (control_response id approved) ≡ printed)

  abbrev Line : ClaudeMessage V F → ParsedLine (Value V) F → Option Str → Type 0
  Line message p none = (id tool : Str) (input : Value V) → message ≢ control_request id tool input
  Line message p (some response) =
      (printed : Str) × Asked message (ok printed)
      × (response ≡ printed ++ 0x0a ∷ [])
      × (p.events ≡ [])

  -- A line with an answer is a request and has no events; any other is none.
  abbrev pub Answers : ClaudeMessage V F → Result ProtocolError (ParsedLine (Value V) F) → Type 0
  Answers message (ok p) = Line message p p.response
  Answers message (err e) = (x : Str) × Asked message (err x) × (e ≡ invalid_json x)

  approval : (tool : Str) → (is_approved json denied tool ≡ false) ↔ In tool denied
  approval tool =
      let (f, g) = not_denied (any (str_eq tool) denied) in
      let (f', g') = any-In tool denied in (λ h. f' (f h), λ m. g (g' m))

  request-Answers :
      (id tool : Str) (input : Value V) (r : Result Str Str)
      → json.print_wire (control_response id (is_approved json denied tool)) ≡ r
      → Answers (control_request id tool input) (answer_line (as_line (as_json r)))
  request-Answers id tool input (ok printed) e =
      (printed, (id, tool, input, is_approved json denied tool, refl, approval tool, e), refl, refl)
  request-Answers id tool input (err x) e =
      (x, (id, tool, input, is_approved json denied tool, refl, approval tool, e), refl)

  message-Answers :
      (message : ClaudeMessage V F) → Answers message (parse_message json denied message)
  message-Answers (system subtype session) = λ id tool input h. cc h
  message-Answers (assistant blocks) = λ id tool input h. cc h
  message-Answers (user blocks) = λ id tool input h. cc h
  message-Answers (result_message r) = λ id tool input h. cc h
  message-Answers (control_request id tool input) = request-Answers id tool input _ refl
  message-Answers unknown_message = λ id tool input h. cc h

  -- Of a line that is a message: the parser answers exactly if it is a request for a tool, and then
  -- does nothing else; the answer has the id of the request, it denies the tool exactly if the tool
  -- is on the deny-list, and it is one line. The parser fails only where that answer cannot be
  -- printed.
  pub parse_line-Answers :
      (line : Str) (message : ClaudeMessage V F)
      → json.message_of line ≡ ok message
      → Answers message (parse_line json denied line)
  unfolding parse_line
  parse_line-Answers line message e = rw e (message-Answers message)
