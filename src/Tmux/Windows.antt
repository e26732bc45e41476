-- ===== src/Tmux/Windows.antt =====
-- lib/mcp/tmux/tmux-mcp/src/tmux.rs: what `tmux list-windows` prints, read.
pub mod Print
use wrapix.Prelude.{ℕ, Bool, not, Option, none, some, List, [], ◌∷◌, filter, filter_map, is_empty}
use wrapix.Prelude.Text.{Str, codes, str_eq, lines, split, parse_u32}

pub record WindowInfo : Type 0 where
  pub name : Str
  pub pid : Option ℕ
  pub is_dead : Bool

unfoldable pub window_of_parts : List Str → Option WindowInfo
unfolding parse_u32 str_eq
window_of_parts (name ∷ pid ∷ dead ∷ more) =
    some (record { name = name; pid = parse_u32 pid; is_dead = str_eq dead (codes "1") })
window_of_parts _ = none

unfoldable pub parse_window : Str → Option WindowInfo
unfolding window_of_parts split
parse_window line = window_of_parts (split b'|' line)

unfoldable pub parse_windows : Str → List WindowInfo
unfolding parse_window lines
parse_windows output = filter_map parse_window (filter (λ line. not (is_empty line)) (lines output))

abbrev pub first_window : List Str → Option WindowInfo
first_window [] = none
first_window (line ∷ more) = parse_window line

abbrev pub window_format : Str
window_format = codes "#{window_name}|#{pane_pid}|#{pane_dead}"
