-- ===== src/Todo/Exit/Last.antt =====
-- `parse_exit_signal` of loom/crates/loom-workflow/src/todo/exit.rs returns the last signal.
use wrapix.Prelude.{
  ◌≡◌, refl, ap, ◌∙◌, ◌⊎◌, inl, inr, true, false, Option, none, some, List, [], ◌∷◌, ◌++◌, All,
  or_option, Option-cases, arith,
}
use wrapix.Prelude.Text.{Str, contains, lines}
use wrapix.Todo.Exit.{
  ExitSignal, complete, blocked, clarify, complete_marker, blocked_marker, clarify_marker,
  reason_for, line_signal, scan, parse_exit_signal,
}

-- The line holds one of the three markers.
abbrev pub HasMarker : Str → Type 0
HasMarker line =
    (contains blocked_marker line ≡ true)
    ⊎ ((contains clarify_marker line ≡ true) ⊎ (contains complete_marker line ≡ true))

-- The signal that a line with a marker gives: "blocked" goes before "clarify", and that before
-- "complete".
abbrev pub SignalOf : Str → List Str → ExitSignal → Type 0
SignalOf line prior (blocked reason) = reason_for blocked_marker line prior ≡ some reason
SignalOf line prior (clarify question) =
    (contains blocked_marker line ≡ false) × (reason_for clarify_marker line prior ≡ some question)
SignalOf line prior complete =
    (contains blocked_marker line ≡ false)
    × (contains clarify_marker line ≡ false)
    × (contains complete_marker line ≡ true)

-- The lines read after `start`, the nearest first, if `above` were read before it.
abbrev pub after : List Str → List Str → List Str
after above [] = above
after above (l ∷ ls) = after (l ∷ above) ls

-- The last line of `ls` with a marker gives `signal`; or no line of `ls` has one.
abbrev pub Reports : List Str → List Str → Option ExitSignal → Type 0
Reports above ls none = All (λ l. ¬ HasMarker l) ls
Reports above ls (some signal) =
    (start : List Str) × (line : Str) × (end : List Str) × (ls ≡ start ++ line ∷ end)
    × SignalOf line (after above start) signal
    × All (λ l. ¬ HasMarker l) end

reason-none : (m l : Str) (prior : List Str) → reason_for m l prior ≡ none → contains m l ≡ false
unfolding reason_for contains
reason-none m l prior h = ground arith

reason-some :
    (m l : Str) (prior : List Str) {r : Str} → reason_for m l prior ≡ some r → contains m l ≡ true
unfolding reason_for contains
reason-some m l prior h = ground arith

line_signal-SignalOf :
    (l : Str) (prior : List Str) (s : ExitSignal)
    → line_signal l prior ≡ some s
    → SignalOf l prior s
unfolding line_signal
line_signal-SignalOf l prior (blocked r) h = ground arith
line_signal-SignalOf l prior (clarify q) h = ground (arith, reason-none blocked_marker l prior)
line_signal-SignalOf l prior complete h =
    ground (arith, reason-none blocked_marker l prior, reason-none clarify_marker l prior)

line_signal-none :
    (l : Str) (prior : List Str)
    → line_signal l prior ≡ none
    → (contains blocked_marker l ≡ false)
      × (contains clarify_marker l ≡ false)
      × (contains complete_marker l ≡ false)
unfolding line_signal
line_signal-none l prior h =
    ground (arith, reason-none blocked_marker l prior, reason-none clarify_marker l prior)

unmarked : (l : Str) (prior : List Str) → line_signal l prior ≡ none → ¬ HasMarker l
unmarked l prior h m = let (a, b, c) = line_signal-none l prior h in grind arith

or_option_assoc :
    (a b c : Option ExitSignal) → or_option a (or_option b c) ≡ or_option (or_option a b) c
or_option_assoc none b c = refl
or_option_assoc (some x) b c = refl

scan-or_option :
    (above ls : List Str) (last : Option ExitSignal)
    → scan above ls last ≡ or_option (scan above ls none) last
unfolding scan
scan-or_option above [] last = refl
scan-or_option above (l ∷ ls) last = elim (Option-cases (line_signal l above)) [
  | inl h ↦ rw h (scan-or_option (l ∷ above) ls last)
  | inr (s, h) ↦ rw h (
      ground (
        arith,
        scan-or_option (l ∷ above) ls (some s),
        or_option_assoc (scan (l ∷ above) ls none) (some s) last,
      ))
]

Reports-cons :
    (above : List Str) (l : Str) (ls : List Str) (rest : Option ExitSignal)
    → Reports (l ∷ above) ls rest
    → Reports above (l ∷ ls) (or_option rest (line_signal l above))
Reports-cons above l ls (some s) (start, line, end, e, signal, clear) =
    (l ∷ start, line, end, cc e, signal, clear)
Reports-cons above l ls none clear = elim (Option-cases (line_signal l above)) [
  | inl h ↦ rw h (unmarked l above h, clear)
  | inr (s, h) ↦ rw h ([], l, ls, refl, line_signal-SignalOf l above s h, clear)
]

or_option-none : (o : Option ExitSignal) → or_option o none ≡ o
or_option-none none = refl
or_option-none (some s) = refl

scan-cons :
    (above : List Str) (l : Str) (ls : List Str)
    → scan above (l ∷ ls) none ≡ or_option (scan (l ∷ above) ls none) (line_signal l above)
unfolding scan
scan-cons above l ls =
    scan-or_option (l ∷ above) ls (or_option (line_signal l above) none)
    ∙ ap (or_option (scan (l ∷ above) ls none)) (or_option-none (line_signal l above))

scan-Reports : (above ls : List Str) → Reports above ls (scan above ls none)
scan-Reports above [] = unfold scan in tt
scan-Reports above (l ∷ ls) =
    rw (scan-cons above l ls)
      (Reports-cons above l ls (scan (l ∷ above) ls none) (scan-Reports (l ∷ above) ls))

-- The exit signal is that of the last line with a marker, whose text is read from that line and the
-- lines before it; on one line "blocked" goes before "clarify" and that before "complete". There is
-- no signal exactly if no line has a marker.
pub parse_exit_signal-Reports :
    (output : Str) → Reports [] (lines output) (parse_exit_signal output)
unfolding parse_exit_signal
parse_exit_signal-Reports output = scan-Reports [] (lines output)
