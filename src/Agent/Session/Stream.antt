-- ===== src/Agent/Session/Stream.antt =====
-- The events that a driver of loom/crates/loom-core/src/agent/session.rs gets, against the lines of
-- the agent.
use wrapix.Prelude.{
  ℕ, zero, suc, ◌<◌, ◌≡◌, refl, sym, ap, ◌∙◌, subst, Option, none, some, List, [], ◌∷◌, ◌++◌, In,
  In-append, length, is_empty, ltb, if◌then◌else◌, inl, inr, Bool-cases, arith,
}
use mathlib.Core.Option.{some-injective}
use wrapix.Prelude.Text.{Str, trim_end_by, utf8_len}
use wrapix.Prelude.Exec.{Result, ok, err}
use wrapix.Agent.Event.{AgentEvent, ProtocolError, io_error, line_too_long, ParsedLine, LineParse}
use wrapix.Agent.Ndjson.{Read, chunk, failed, max_line_bytes, is_line_end, next_line}
use wrapix.Agent.Session.Answer.{say, write_response-say}
use wrapix.Agent.Session.{
  Session, Stdin, Next, answered, parsed, received, read_events, next_of, next_event,
}

pub data Ending : Type 0 where
  finished : Ending
  broke : ProtocolError → Ending

-- The events that were given, how it ended, and the child's input then.
abbrev pub Told : Type 0 → Type 0 → Type 0 → Type 0
Told V F W = List (AgentEvent V F) × Ending × W

abbrev pub prepend : {V F W : Type 0} → List (AgentEvent V F) → Told V F W → Told V F W
prepend events (later, ending, w) = (events ++ later, ending, w)

-- A line ends when its reads get fewer.
abbrev Shorter : List Read → Result ProtocolError (Option Str) × List Read → Type 0
Shorter reads (err e, rest) = Unit
Shorter reads (ok none, rest) = Unit
Shorter reads (ok (some line), rest) = length rest < length reads

Shorter-later :
    (r : Read) (reads : List Read) (x : Result ProtocolError (Option Str) × List Read)
    → Shorter reads x
    → Shorter (r ∷ reads) x
Shorter-later r reads (err e, rest) h = tt
Shorter-later r reads (ok none, rest) h = tt
Shorter-later r reads (ok (some line), rest) h = omega arith

next_line-Shorter : (reads : List Read) → Shorter reads (next_line reads)
unfolding next_line
next_line-Shorter [] = tt
next_line-Shorter (failed e ∷ reads) = tt
next_line-Shorter (chunk s ∷ reads) = elim (Bool-cases (is_empty s)) [
  | inl e ↦ rw e tt
  | inr e ↦ rw e (elim (Bool-cases (ltb max_line_bytes (utf8_len s))) [
    | inl f ↦ rw f tt
    | inr f ↦ rw f (elim (Bool-cases (is_empty (trim_end_by is_line_end s))) [
      | inl g ↦ rw g (Shorter-later (chunk s) reads (next_line reads) (next_line-Shorter reads))
      | inr g ↦ rw g (omega arith)
    ])
  ])
]

module _ {V F W : Type 0} (parser : LineParse V F) (io : Stdin W) where
  abbrev told_answer :
      (W → Told V F W) → List (AgentEvent V F) → Result ProtocolError (Unit {0}) × W → Told V F W
  told_answer more events (err e, w) = ([], broke e, w)
  told_answer more events (ok _, w) = prepend events (more w)

  abbrev told : (W → Told V F W) → Result ProtocolError (ParsedLine V F) → W → Told V F W
  told more (err e) w = ([], broke e, w)
  told more (ok p) w = told_answer more p.events (say io p.response w)

  -- What the output says, line by line.
  unfoldable pub stream : List Read → W → Told V F W
  unfolding utf8_len trim_end_by say
  stream [] w = ([], finished, w)
  stream (failed e ∷ reads) w = ([], broke (io_error e), w)
  stream (chunk s ∷ reads) w =
      let later = stream reads w in
      let line = trim_end_by is_line_end s in
      let said = told (λ w'. stream reads w') (parser.parse_line line) w in
      if is_empty s
      then ([], finished, w)
      else if ltb max_line_bytes (utf8_len s)
      then ([], broke (line_too_long (utf8_len s) max_line_bytes), w)
      else if is_empty line
      then later
      else said

  -- An event that is said comes from a line of the output.
  abbrev FromLine : List Read → AgentEvent V F → Type 0
  FromLine reads event =
      (s : Str) × (p : ParsedLine V F) × In (chunk s) reads
      × (parser.parse_line (trim_end_by is_line_end s) ≡ ok p)
      × In event p.events

  told_answer-source :
      (Q : Type 0) (more : W → Told V F W) (p : ParsedLine V F) (event : AgentEvent V F)
      (answer : Result ProtocolError (Unit {0}) × W)
      → (In event p.events → Q)
      → ((w : W) → In event (more w).0 → Q)
      → In event (told_answer more p.events answer).0
      → Q
  told_answer-source Q more p event (err e, w) now later m = absurd m
  told_answer-source Q more p event (ok _, w) now later m =
      elim (In-append event p.events (more w).0 m) [ inl i ↦ now i | inr i ↦ later w i ]

  told-source :
      (Q : Type 0) (more : W → Told V F W) (r : Result ProtocolError (ParsedLine V F)) (w : W)
      (event : AgentEvent V F)
      → ((p : ParsedLine V F) → r ≡ ok p → In event p.events → Q)
      → ((w' : W) → In event (more w').0 → Q)
      → In event (told more r w).0
      → Q
  told-source Q more (err e) w event now later m = absurd m
  told-source Q more (ok p) w event now later m =
      told_answer-source Q more p event _ (now p refl) later m

  earlier :
      (r : Read) (reads : List Read) (event : AgentEvent V F)
      → FromLine reads event
      → FromLine (r ∷ reads) event
  earlier r reads event (s, p, i, e, m) = (s, p, inr i, e, m)

  pub stream-source :
      (reads : List Read) (w : W) (event : AgentEvent V F)
      → In event (stream reads w).0
      → FromLine reads event
  unfolding stream
  stream-source [] w event m = absurd m
  stream-source (failed e ∷ reads) w event m = absurd m
  stream-source (chunk s ∷ reads) w event m = elim (Bool-cases (is_empty s)) [
    | inl e ↦ absurd (rw e at m)
    | inr e ↦ elim (Bool-cases (ltb max_line_bytes (utf8_len s))) [
      | inl f ↦ absurd (rw (e, f) at m)
      | inr f ↦ elim (Bool-cases (is_empty (trim_end_by is_line_end s))) [
        | inl g ↦ earlier (chunk s) reads event (stream-source reads w event (rw (e, f, g) at m))
        | inr g ↦
            told-source (FromLine (chunk s ∷ reads) event) (λ w'. stream reads w')
              (parser.parse_line (trim_end_by is_line_end s)) w event
              (λ p h i. (s, p, inl refl, h, i))
              (λ w' i. earlier (chunk s) reads event (stream-source reads w' event i))
              (rw (e, f, g) at m)
      ]
    ]
  ]

  -- What is still to be said in a state of the session.
  abbrev pub remaining : Session V F W → Told V F W
  remaining s = prepend s.pending (stream s.reader s.stdin)

  abbrev step : Result ProtocolError (Option Str) × List Read → W → Told V F W
  step (err e, rest) w = ([], broke e, w)
  step (ok none, rest) w = ([], finished, w)
  step (ok (some line), rest) w = told (λ w'. stream rest w') (parser.parse_line line) w

  stream-next_line : (reads : List Read) (w : W) → stream reads w ≡ step (next_line reads) w
  unfolding stream next_line
  stream-next_line [] w = refl
  stream-next_line (failed e ∷ reads) w = refl
  stream-next_line (chunk s ∷ reads) w = elim (Bool-cases (is_empty s)) [
    | inl e ↦ rw e
    | inr e ↦ rw e (elim (Bool-cases (ltb max_line_bytes (utf8_len s))) [
      | inl f ↦ rw f
      | inr f ↦ rw f (elim (Bool-cases (is_empty (trim_end_by is_line_end s))) [
        | inl g ↦ rw g (stream-next_line reads w)
        | inr g ↦ rw g
      ])
    ])
  ]

  abbrev seen : Next parser io → Option (Told V F W)
  seen none = none
  seen (some (err e, s)) = some ([], broke e, s.stdin)
  seen (some (ok none, s)) = some ([], finished, s.stdin)
  seen (some (ok (some event), s)) = some (prepend (event ∷ []) (remaining s))

  answered-seen :
      (more : Session V F W → Next parser io) (events : List (AgentEvent V F)) (s : Session V F W)
      (answer : Result ProtocolError (Unit {0}) × W)
      → ((t : Session V F W) → t.reader ≡ s.reader → seen (more t) ≡ some (stream t.reader t.stdin))
      → seen (answered parser io more events s answer)
        ≡ some (told_answer (λ w. stream s.reader w) events answer)
  answered-seen more events s (err e, w) ih = refl
  answered-seen more [] s (ok _, w) ih = ih (record s { stdin = w }) refl
  answered-seen more (event ∷ events) s (ok _, w) ih = refl

  parsed-seen :
      (more : Session V F W → Next parser io) (s : Session V F W)
      (p : Result ProtocolError (ParsedLine V F))
      → ((t : Session V F W) → t.reader ≡ s.reader → seen (more t) ≡ some (stream t.reader t.stdin))
      → seen (parsed parser io more s p) ≡ some (told (λ w. stream s.reader w) p s.stdin)
  parsed-seen more s (err e) ih = refl
  parsed-seen more s (ok p) ih =
      ap (λ answer. seen (answered parser io more p.events s answer))
        (write_response-say parser io p.response s.stdin)
      ∙ answered-seen more p.events s _ ih

  received-seen :
      (more : Session V F W → Next parser io) (s : Session V F W)
      (r : Result ProtocolError (Option Str) × List Read)
      → Shorter s.reader r
      → ((t : Session V F W)
          → length t.reader < length s.reader
          → seen (more t) ≡ some (stream t.reader t.stdin))
      → seen (received parser io more s r) ≡ some (step r s.stdin)
  received-seen more s (err e, rest) lt ih = refl
  received-seen more s (ok none, rest) lt ih = refl
  received-seen more s (ok (some line), rest) lt ih =
      parsed-seen more (record s { reader = rest }) (parser.parse_line line)
        (λ t e. ih t (subst (λ (l : List Read). length l < length s.reader) (sym e) lt))

  read_events-seen :
      (fuel : ℕ) (s : Session V F W)
      → length s.reader < fuel
      → seen (read_events parser io fuel s) ≡ some (stream s.reader s.stdin)
  unfolding read_events
  read_events-seen zero s h = absurd (omega arith)
  read_events-seen (suc fuel) s h =
      received-seen (read_events parser io fuel) s (next_line s.reader) (next_line-Shorter s.reader)
        (λ t lt. read_events-seen fuel t (omega arith))
      ∙ ap some (sym (stream-next_line s.reader s.stdin))

  next_of-seen :
      (events : List (AgentEvent V F)) (s : Session V F W)
      → seen (next_of parser io events s) ≡ some (prepend events (stream s.reader s.stdin))
  next_of-seen [] s = read_events-seen (suc (length s.reader)) s (omega arith)
  next_of-seen (event ∷ events) s = refl

  abbrev given : AgentEvent V F → Option (Told V F W) → Option (Told V F W)
  given event none = none
  given event (some later) = some (prepend (event ∷ []) later)

  abbrev drained : (Session V F W → Option (Told V F W)) → Next parser io → Option (Told V F W)
  drained more none = none
  drained more (some (err e, s)) = some ([], broke e, s.stdin)
  drained more (some (ok none, s)) = some ([], finished, s.stdin)
  drained more (some (ok (some event), s)) = given event (more s)

  -- A driver that calls `next_event` until there is no more event, at most `n` times.
  unfoldable pub drain : ℕ → Session V F W → Option (Told V F W)
  unfolding next_event
  drain zero s = none
  drain (suc n) s = drained (drain n) (next_event parser io s)

  drained-seen :
      (n : ℕ) (more : Session V F W → Option (Told V F W)) (x : Next parser io) (v : Told V F W)
      → seen x ≡ some v
      → length v.0 < suc n
      → ((s : Session V F W) → length (remaining s).0 < n → more s ≡ some (remaining s))
      → drained more x ≡ some v
  drained-seen n more none v h lt ih = cc h
  drained-seen n more (some (err e, s)) v h lt ih = h
  drained-seen n more (some (ok none, s)) v h lt ih = h
  drained-seen n more (some (ok (some event), s)) v h lt ih =
      let e = some-injective _ v h in
      ap (given event)
        (ih s (omega (arith, subst (λ (t : Told V F W). length t.0 < suc n) (sym e) lt)))
      ∙ h

  -- A driver that calls `next_event` until there is no more gets the events that are pending and
  -- then those of the lines of the output, in their order, none lost and none twice, up to the end
  -- or the first line that is no line of the protocol or could not be answered. By then the answers
  -- of the lines have been written to the child, each when its line was read: its text, a line feed
  -- if it does not end in one, and what was written is flushed. One call more than there are events
  -- is enough.
  pub drain-stream :
      (n : ℕ) (s : Session V F W) → length (remaining s).0 < n → drain n s ≡ some (remaining s)
  unfolding drain next_event
  drain-stream zero s h = absurd (omega arith)
  drain-stream (suc n) s h =
      drained-seen n (drain n) (next_of parser io s.pending s) (remaining s)
        (next_of-seen s.pending s) h (λ t lt. drain-stream n t lt)

  drained_sound :
      (more : Session V F W → Option (Told V F W)) (x : Next parser io) (r v : Told V F W)
      → seen x ≡ some r
      → ((t : Session V F W) (u : Told V F W) → more t ≡ some u → u ≡ remaining t)
      → drained more x ≡ some v
      → v ≡ r
  drained_sound more none r v h ih e = cc h
  drained_sound more (some (err x, s)) r v h ih e = some-injective _ _ (sym e ∙ h)
  drained_sound more (some (ok none, s)) r v h ih e = some-injective _ _ (sym e ∙ h)
  drained_sound more (some (ok (some event), s)) r v h ih e = later (more s) refl e
    where
      later : (o : Option (Told V F W)) → more s ≡ o → given event o ≡ some v → v ≡ r
      later none q e' = cc e'
      later (some u) q e' =
          sym (some-injective _ _ e') ∙ ap (prepend (event ∷ [])) (ih s u q) ∙ some-injective _ _ h

  -- Whatever a driver gets of a session until there is no more event is what remains to be said.
  pub drain-remaining :
      (n : ℕ) (s : Session V F W) (v : Told V F W) → drain n s ≡ some v → v ≡ remaining s
  unfolding drain next_event
  drain-remaining zero s v e = cc e
  drain-remaining (suc n) s v e =
      drained_sound (drain n) (next_of parser io s.pending s) (remaining s) v
        (next_of-seen s.pending s) (λ t u q. drain-remaining n t u q) e
