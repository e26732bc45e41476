-- ===== src/Tmux/Windows/Print.antt =====
-- What lib/mcp/tmux/tmux-mcp/src/tmux.rs reads back of the windows that tmux prints in the format
-- `#{window_name}|#{pane_pid}|#{pane_dead}`, one per line.
use wrapix.Prelude.{
  ℕ, ◌^◌, ◌<◌, ◌≡◌, refl, ap, ◌∙◌, Bool, true, false, Option, some, List, [], ◌∷◌, ◌++◌, map, All,
  arith, filter, filter_map, not, is_empty, All-append,
}
use wrapix.Prelude.Text.{Str, codes, str_eq, lines, lines_from, split, strip_cr}
use wrapix.Prelude.Split.{Lacks, lines_from-append, strip_cr-append, digits-Lacks}
use wrapix.Prelude.Decimal.{to_string, to_string-AllDigits, parse_u32-to_string}
use wrapix.Tmux.Windows.{WindowInfo, window_of_parts, parse_window, parse_windows}

-- A live window has the id of its process, and a name in which tmux's separators do not occur.
pub record Window : Type 0 where
  pub name : Str
  pub pid : ℕ
  pub is_dead : Bool

abbrev pub print_dead : Bool → Str
print_dead true = codes "1"
print_dead false = codes "0"

abbrev pub print_window : Window → Str
print_window w = w.name ++ (b'|' ∷ (to_string w.pid ++ (b'|' ∷ print_dead w.is_dead)))

unfoldable pub print_windows : List Window → Str
print_windows [] = []
print_windows (w ∷ ws) = print_window w ++ (0x0a ∷ print_windows ws)

abbrev pub info_of : Window → WindowInfo
info_of w = record { name = w.name; pid = some w.pid; is_dead = w.is_dead }

pub record Printable (w : Window) : Type 0 where
  pub no_bar : Lacks b'|' w.name
  pub one_line : Lacks 0x0a w.name
  pub small : w.pid < 2 ^ 32

split-append : (d : ℕ) (a s : Str) → Lacks d a → split d (a ++ (d ∷ s)) ≡ a ∷ split d s
unfolding split
split-append d [] s h = ground arith
split-append d (c ∷ a) s (ne, h) = rw (split-append d a s h) (ground arith)

split-Lacks : (d : ℕ) (a : Str) → Lacks d a → split d a ≡ a ∷ []
unfolding split
split-Lacks d [] h = refl
split-Lacks d (c ∷ a) (ne, h) = rw (split-Lacks d a h) (ground arith)

strip_dead : (b : Bool) → strip_cr (b'|' ∷ print_dead b) ≡ b'|' ∷ print_dead b
strip_dead true = refl
strip_dead false = refl

dead-Lacks : (b : Bool) → Lacks 0x0a (b'|' ∷ print_dead b)
dead-Lacks true = (omega arith, (omega arith, tt))
dead-Lacks false = (omega arith, (omega arith, tt))

print_window-Lacks : (w : Window) → Printable w → Lacks 0x0a (print_window w)
print_window-Lacks w p =
    All-append _ w.name (b'|' ∷ (to_string w.pid ++ (b'|' ∷ print_dead w.is_dead))) p.one_line (
      omega arith,
      All-append _ (to_string w.pid) (b'|' ∷ print_dead w.is_dead)
          (digits-Lacks 0x0a (to_string w.pid) (omega arith) (to_string-AllDigits w.pid))
          (dead-Lacks w.is_dead),
    )

strip_cr-print : (w : Window) → strip_cr (print_window w) ≡ print_window w
strip_cr-print w =
    strip_cr-append w.name b'|' _
    ∙ ap (λ t. w.name ++ t)
        (strip_cr-append (b'|' ∷ to_string w.pid) b'|' (print_dead w.is_dead)
          ∙ ap (λ t. b'|' ∷ (to_string w.pid ++ t)) (strip_dead w.is_dead))

nonempty_append : (a : Str) (d : ℕ) (s : Str) → is_empty (a ++ (d ∷ s)) ≡ false
nonempty_append [] d s = refl
nonempty_append (c ∷ a) d s = refl

abbrev found : Str → Option ℕ → Bool → Option WindowInfo
found name pid is_dead = some (record { name = name; pid = pid; is_dead = is_dead })

parse_window-print : (w : Window) → Printable w → parse_window (print_window w) ≡ some (info_of w)
unfolding parse_window window_of_parts
parse_window-print w p =
    rw
      (
        split-append b'|' w.name (to_string w.pid ++ (b'|' ∷ print_dead w.is_dead)) p.no_bar,
        split-append b'|' (to_string w.pid) (print_dead w.is_dead)
            (digits-Lacks b'|' (to_string w.pid) (omega arith) (to_string-AllDigits w.pid)),
        parse_dead w.is_dead,
      )
      (rw (parse_u32-to_string w.pid p.small) (read_dead w.name (some w.pid) w.is_dead))
  where
    parse_dead : (b : Bool) → split b'|' (print_dead b) ≡ print_dead b ∷ []
    parse_dead b = ground arith

    read_dead :
        (name : Str) (pid : Option ℕ) (b : Bool)
        → found name pid (str_eq (print_dead b) (codes "1")) ≡ found name pid b
    read_dead name pid b = ground arith

filter_map-cons :
    (f : Str → Option WindowInfo) (x : Str) (xs : List Str) {y : WindowInfo}
    → f x ≡ some y
    → filter_map f (x ∷ xs) ≡ y ∷ filter_map f xs
filter_map-cons f x xs e = rw (e, filter_map) refl

parse_windows-line :
    (w : Window) (rest : Str)
    → Printable w
    → parse_windows (print_window w ++ (0x0a ∷ rest)) ≡ info_of w ∷ parse_windows rest
unfolding parse_windows lines
parse_windows-line w rest p =
    rw
      (
        lines_from-append [] (print_window w) rest (print_window-Lacks w p),
        strip_cr-print w,
        nonempty_append w.name b'|' (to_string w.pid ++ (b'|' ∷ print_dead w.is_dead)),
      )
      (filter_map-cons parse_window (print_window w)
        (filter (λ x. not (is_empty x)) (lines_from [] rest)) (parse_window-print w p))

-- What tmux prints of its windows is read back, if each name has no "|" and no newline, and each
-- process id is a u32: all windows in their order, each with its name, its process and whether the
-- process is dead.
pub parse_windows-print :
    (ws : List Window) → All Printable ws → parse_windows (print_windows ws) ≡ map info_of ws
unfolding print_windows
parse_windows-print [] h = unfold parse_windows lines in refl
parse_windows-print (w ∷ ws) (p, h) =
    rw (parse_windows-line w (print_windows ws) p, parse_windows-print ws h) refl
