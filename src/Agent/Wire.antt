-- ===== src/Agent/Wire.antt =====
-- What the parsers of loom/crates/loom-agent/src share: the values of the JSON library, as far as they
-- are looked into, its errors, and the text of a tool's output.
use wrapix.Prelude.{some, [], ◌∷◌, ◌++◌}
use wrapix.Prelude.Text.{Str}
use wrapix.Prelude.Exec.{Result, ok, err}
use wrapix.Agent.Event.{ProtocolError, invalid_json, ParsedLine}

-- `serde_json::Value`, as far as the parsers look into it.
pub data Value (V : Type 0) : Type 0 where
  string : Str → Value V
  null : Value V
  other : V → Value V

-- `?` on an error of the JSON library
abbrev pub as_json : {A : Type 0} → Result Str A → Result ProtocolError A
as_json (ok a) = ok a
as_json (err e) = err (invalid_json e)

-- A line of what was printed.
abbrev pub as_line : Result ProtocolError Str → Result ProtocolError Str
as_line (ok s) = ok (s ++ 0x0a ∷ [])
as_line (err e) = err e

abbrev pub answer_line :
    {V F : Type 0} → Result ProtocolError Str → Result ProtocolError (ParsedLine V F)
answer_line (ok s) = ok (record { events = []; response = some s })
answer_line (err e) = err e

-- The text of a tool's output.
abbrev pub output_of : {V : Type 0} → (Value V → Str) → Value V → Str
output_of print (string s) = s
output_of print null = []
output_of print (other v) = print (other v)
