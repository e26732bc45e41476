-- ===== src/Agent/Session/Answer.antt =====
-- How loom/crates/loom-core/src/agent/session.rs writes the answer to a line.
use wrapix.Prelude.{
  Bool, true, false, ◌==◌, last?, ◌≡◌, refl, ap, ◌∙◌, Option, none, some, List, [], ◌∷◌,
  if◌then◌else◌,
}
use wrapix.Prelude.Text.{Str}
use wrapix.Prelude.Exec.{Result, ok, err}
use wrapix.Prelude.Act.{after, pure, ◌>>◌}
use wrapix.Agent.Event.{ProtocolError, io_error, LineParse}
use wrapix.Agent.Session.{Stdin, write_response, write, flush, as_io, ends_line}

unfoldable pub ends_in_line_feed : Str → Bool
ends_in_line_feed [] = false
ends_in_line_feed (c ∷ []) = c == 0x0a
ends_in_line_feed (c ∷ d ∷ s) = ends_in_line_feed (d ∷ s)

module _ {W : Type 0} (io : Stdin W) where
  abbrev then_write :
      Result Str (Unit {0}) × W
      → (W → Result ProtocolError (Unit {0}) × W)
      → Result ProtocolError (Unit {0}) × W
  then_write (err e, w) more = (err (io_error e), w)
  then_write (ok _, w) more = more w

  -- Texts are written one after another and then sent off, up to the first error.
  unfoldable pub write_texts : List Str → W → Result ProtocolError (Unit {0}) × W
  write_texts [] w = then_write (io.flush w) (λ w'. (ok tt, w'))
  write_texts (s ∷ ss) w = then_write (io.write_all s w) (λ w'. write_texts ss w')

  -- An answer is its text as one line, with a line feed if it has none at its end.
  abbrev line_feed_unless : Bool → List Str
  line_feed_unless true = []
  line_feed_unless false = (0x0a ∷ []) ∷ []

  unfoldable pub say : Option Str → W → Result ProtocolError (Unit {0}) × W
  unfolding write_texts ends_in_line_feed
  say none w = (ok tt, w)
  say (some answer) w = write_texts (answer ∷ line_feed_unless (ends_in_line_feed answer)) w

module _ {V F W : Type 0} (parser : LineParse V F) (io : Stdin W) where
  last_line_feed : (s : Str) → ends_line (last? s) ≡ ends_in_line_feed s
  unfolding ends_in_line_feed
  last_line_feed [] = refl
  last_line_feed (c ∷ []) = refl
  last_line_feed (c ∷ d ∷ s) = last_line_feed (d ∷ s)

  flush-write : (o : Result Str (Unit {0}) × W) → as_io o ≡ then_write io o (λ w. (ok tt, w))
  flush-write (ok _, w) = refl
  flush-write (err e, w) = refl

  write_then_flush :
      (o : Result Str (Unit {0}) × W)
      → after (as_io o) (λ _. flush parser io) ≡ then_write io o (λ w. write_texts io [] w)
  unfolding write_texts
  write_then_flush (ok _, w) = flush-write (io.flush w)
  write_then_flush (err e, w) = refl

  -- What `write_response` does behind the text of the answer.
  abbrev finish_line : Bool → W → Result ProtocolError (Unit {0}) × W
  finish_line ended = (if ended then pure tt else write parser io (0x0a ∷ [])) >> flush parser io

  finish_line-write :
      (ended : Bool) (w : W) → finish_line ended w ≡ write_texts io (line_feed_unless io ended) w
  unfolding write_texts
  finish_line-write true w = flush-write (io.flush w)
  finish_line-write false w = write_then_flush (io.write_all (0x0a ∷ []) w)

  finished-write :
      (ended : Bool) (o : Result Str (Unit {0}) × W)
      → after (as_io o) (λ _. finish_line ended)
        ≡ then_write io o (λ w. write_texts io (line_feed_unless io ended) w)
  finished-write ended (ok _, w) = finish_line-write ended w
  finished-write ended (err e, w) = refl

  pub write_response-say :
      (answer : Option Str) (w : W) → write_response parser io answer w ≡ say io answer w
  unfolding write_response say write_texts
  write_response-say none w = refl
  write_response-say (some answer) w =
      ap (λ (ended : Bool). (write parser io answer >> finish_line ended) w) (last_line_feed answer)
      ∙ finished-write (ends_in_line_feed answer) (io.write_all answer w)
