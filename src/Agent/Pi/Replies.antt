-- ===== src/Agent/Pi/Replies.antt =====
-- What `PiParser` of loom/crates/loom-agent/src/pi/parser.rs replies to the extensions of pi.
use wrapix.Prelude.{
  ◌≡◌, ◌≢◌, ◌↔◌, ◌++◌, refl, true, false, Option, none, some, List, [], ◌∷◌, In, inl, inr, any,
  Bool-cases, ap, ◌∙◌, sym, subst, arith,
}
use mathlib.Core.Option.{some-injective}
use wrapix.Prelude.Text.{Str, codes, str_eq, str_eq_iff, any-In}
use wrapix.Prelude.Exec.{Result, ok, err}
use wrapix.Agent.Event.{ProtocolError, invalid_json, ParsedLine}
use wrapix.Agent.Wire.{Value, as_json, as_line, answer_line}
use wrapix.Agent.Pi.{
  PiEnvelope, PiUiRequest, PiResponse, PiEvent, parse_event, Json, ui_response,
  ui_method_requires_response, parse_ui_request, ignored, requested, classified, with_type,
  enveloped, parse_line,
}

-- The methods for which an extension waits.
abbrev pub blocking : List Str
blocking = codes "select" ∷ codes "confirm" ∷ codes "input" ∷ codes "editor" ∷ []

requires-any : (method : Str) → ui_method_requires_response method ≡ any (str_eq method) blocking
unfolding ui_method_requires_response
requires-any method = ground arith

requires_iff : (method : Str) → (ui_method_requires_response method ≡ true) ↔ In method blocking
requires_iff method = rw (requires-any method) (any-In method blocking)

module _ (F : Type 0) {V : Type 0} (json : Json V) where
  -- The line is a request of an extension.
  abbrev Requests : Str → PiUiRequest → Type 0
  Requests line req =
      (env : PiEnvelope) × (json.envelope_of line ≡ ok env)
      × (env.msg_type ≡ some (codes "extension_ui_request"))
      × (json.ui_request_of line ≡ ok req)

  abbrev Replied : Str → ParsedLine (Value V) F → Option Str → Type 0
  Replied line p none = (req : PiUiRequest) → Requests line req → ¬ In req.method blocking
  Replied line p (some response) =
      (req : PiUiRequest) × (printed : Str) × Requests line req
      × In req.method blocking
      × (json.print_wire (ui_response req.id true) ≡ ok printed)
      × (response ≡ printed ++ 0x0a ∷ [])
      × (p.events ≡ [])

  -- A request is refused only where it asks for a reply that cannot be printed.
  abbrev Refused : PiUiRequest → ProtocolError → Type 0
  Refused req e =
      (x : Str) × In req.method blocking
      × (json.print_wire (ui_response req.id true) ≡ err x)
      × (e ≡ invalid_json x)

  abbrev pub Replies : Str → Result ProtocolError (ParsedLine (Value V) F) → Type 0
  Replies line (ok p) = Replied line p p.response
  Replies line (err e) = (req : PiUiRequest) → Requests line req → Refused req e

  -- A line of another type, which is never replied to.
  other-Replied :
      (line : Str) (env : PiEnvelope)
      → json.envelope_of line ≡ ok env
      → env.msg_type ≢ some (codes "extension_ui_request")
      → (req : PiUiRequest) → ¬ Requests line req
  other-Replied line env e ne req (env', e', kind, _) = ne (cc (e, e', kind))

  event_silent : (event : PiEvent V) → (parse_event F json event).response ≡ none
  unfolding parse_event
  event_silent event = ground arith

  classified-Replies :
      (line kind : Str) (id : Option Str) (r : Result Str (PiEvent V))
      → json.event_of line ≡ r
      → ((req : PiUiRequest) → ¬ Requests line req)
      → Replies line (classified F json line id kind)
  classified-Replies line kind (some id) r e none_asks = λ req asks. absurd (none_asks req asks)
  classified-Replies line kind none (ok event) e none_asks =
      rw e (rw (event_silent event) (λ req asks m. none_asks req asks))
  classified-Replies line kind none (err x) e none_asks =
      rw e (λ req asks. absurd (none_asks req asks))

  same_request :
      (line : Str) (req req' : PiUiRequest) → Requests line req → Requests line req' → req ≡ req'
  same_request line req req' (env, e, kind, r) (env', e', kind', r') = cc (r, r')

  answer-Replies :
      (line : Str) (req : PiUiRequest) (r : Result Str Str)
      → json.print_wire (ui_response req.id true) ≡ r
      → Requests line req
      → In req.method blocking
      → Replies line (answer_line (as_line (as_json r)))
  answer-Replies line req (ok printed) e asks m = (req, printed, asks, m, e, refl, refl)
  answer-Replies line req (err x) e asks m = λ req' asks'.
      let same : req ≡ req' = same_request line req req' asks asks' in
      subst (λ r. Refused r (invalid_json x)) same (x, m, e, refl)

  request-Replies :
      (line : Str) (req : PiUiRequest)
      → Requests line req
      → Replies line (parse_ui_request F json req)
  unfolding parse_ui_request
  request-Replies line req (env, e, kind, r) =
      elim (Bool-cases (ui_method_requires_response req.method)) [
        | inl asks ↦
            rw asks
              (answer-Replies line req _ refl (env, e, kind, r) ((requires_iff req.method).0 asks))
        | inr idle ↦ rw idle (λ req' (env', e', kind', r') m.
            let same : req' ≡ req = cc (r, r') in cc (idle, (requires_iff req'.method).1 m, same))
      ]

  ignored-Replies :
      (line : Str) (r : Result Str (PiResponse V))
      → ((req : PiUiRequest) → ¬ Requests line req)
      → Replies line (ignored F json (as_json r))
  ignored-Replies line (ok response) none_asks = λ req asks m. none_asks req asks
  ignored-Replies line (err x) none_asks = λ req asks. absurd (none_asks req asks)

  requested-Replies :
      (line : Str) (env : PiEnvelope)
      → json.envelope_of line ≡ ok env
      → env.msg_type ≡ some (codes "extension_ui_request")
      → (r : Result Str PiUiRequest) → json.ui_request_of line ≡ r
      → Replies line (requested F json (as_json r))
  requested-Replies line env e kind (ok req) r = request-Replies line req (env, e, kind, r)
  requested-Replies line env e kind (err x) r =
      λ req asks. let (env', e', kind', r') = asks in cc (r, r')

  distinct : codes "response" ≢ codes "extension_ui_request"
  distinct h = cc h

  not_ui :
      (kind : Str)
      → kind ≡ codes "extension_ui_request"
      → str_eq kind (codes "extension_ui_request") ≢ false
  not_ui kind e q = cc (q, (str_eq_iff kind (codes "extension_ui_request")).1 e)

  with_type-Replies :
      (line : Str) (env : PiEnvelope) (kind : Option Str)
      → json.envelope_of line ≡ ok env
      → env.msg_type ≡ kind
      → Replies line (with_type F json line env.id kind)
  with_type-Replies line env none e k =
      classified-Replies line [] env.id _ refl (other-Replied line env e (λ h. cc (h, k)))
  with_type-Replies line env (some kind) e k = elim (Bool-cases (str_eq kind (codes "response"))) [
    | inl response ↦ rw response (
        ignored-Replies line _ (
          other-Replied line env e
            (λ h. distinct (cc (k, h, (str_eq_iff kind (codes "response")).0 response)))))
    | inr r ↦ rw r (elim (Bool-cases (str_eq kind (codes "extension_ui_request"))) [
      | inl request ↦ rw request (
          requested-Replies line env e
            (k ∙ ap some ((str_eq_iff kind (codes "extension_ui_request")).0 request)) _ refl)
      | inr q ↦ rw q (
          classified-Replies line kind env.id _ refl
            (other-Replied line env e (λ h. not_ui kind (some-injective _ _ (sym k ∙ h)) q)))
    ])
  ]

  enveloped-Replies :
      (line : Str) (r : Result Str PiEnvelope)
      → json.envelope_of line ≡ r
      → Replies line (enveloped F json line (as_json r))
  enveloped-Replies line (ok env) e = with_type-Replies line env env.msg_type e refl
  enveloped-Replies line (err x) e = λ req asks. let (env', e', kind, r) = asks in cc (e, e')

  -- The parser for pi replies exactly if the line is a request of an extension by one of the methods
  -- for which extensions wait, and then does nothing else; the reply says to the id of the request
  -- that it is cancelled, and is one line. It takes each request of an extension, with an id or
  -- without, and fails on one only where that reply cannot be printed.
  pub parse_line-Replies : (line : Str) → Replies line (parse_line F json line)
  unfolding parse_line
  parse_line-Replies line = enveloped-Replies line _ refl
