-- ===== src/Todo/Exit.antt =====
-- loom/crates/loom-workflow/src/todo/exit.rs: the exit signal in an agent's output.
pub mod Last
use wrapix.Prelude.{Option, none, some, List, [], ◌∷◌, Bool, is_empty, or_option, if◌then◌else◌}
use wrapix.Prelude.Text.{Str, codes, trim, find_str, contains, lines}

pub data ExitSignal : Type 0 where
  complete : ExitSignal
  blocked : Str → ExitSignal
  clarify : Str → ExitSignal

abbrev pub complete_marker : Str
complete_marker = codes "LOOM_COMPLETE"

abbrev pub blocked_marker : Str
blocked_marker = codes "LOOM_BLOCKED"

abbrev pub clarify_marker : Str
clarify_marker = codes "LOOM_CLARIFY"

-- The loop over the lines before, the nearest first.
unfoldable pub nearest : List Str → Str
unfolding trim
nearest [] = []
nearest (prev ∷ prior) =
    let rest = nearest prior in
    let trimmed = trim prev in if is_empty trimmed then rest else trimmed

-- The text before the marker on its line, or else the nearest line before; `prior` holds the lines
-- before, the nearest first.
unfoldable pub reason_for : Str → Str → List Str → Option Str
unfolding nearest find_str trim
reason_for marker line prior = elim (find_str marker line) [
  | none ↦ none
  | some p ↦
      let same_line = trim p.0 in
      if is_empty same_line then some (nearest prior) else some same_line
]

-- The signal of one line.
unfoldable pub line_signal : Str → List Str → Option ExitSignal
unfolding reason_for contains
line_signal line prior = elim (reason_for blocked_marker line prior) [
  | some reason ↦ some (blocked reason)
  | none ↦ elim (reason_for clarify_marker line prior) [
    | some question ↦ some (clarify question)
    | none ↦ if contains complete_marker line then some complete else none
  ]
]

-- The loop over the lines; a line with a signal replaces `last`.
unfoldable pub scan : List Str → List Str → Option ExitSignal → Option ExitSignal
unfolding line_signal
scan prior [] last = last
scan prior (line ∷ rest) last = scan (line ∷ prior) rest (or_option (line_signal line prior) last)

unfoldable pub parse_exit_signal : Str → Option ExitSignal
unfolding scan lines
parse_exit_signal output = scan [] (lines output) none
