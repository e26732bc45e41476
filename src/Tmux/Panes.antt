-- ===== src/Tmux/Panes.antt =====
-- lib/mcp/tmux/tmux-mcp/src/panes.rs: the panes that the server tracks. The hash map is an
-- association list; nothing depends on the order of its entries.
mod Map
pub mod Ids
pub mod History
use Map.{get, insert, remove}
use wrapix.Prelude.{
  ℕ, ◌+◌, ◌%◌, ◌^◌, Bool, true, false, Option, none, some, List, [], ◌∷◌, ◌++◌, map, length,
  is_empty, is_some,
}
use wrapix.Prelude.Text.{Str, codes}
use wrapix.Prelude.Decimal.{to_string}

pub data PaneStatus : Type 0 where
  running exited : PaneStatus

unfoldable pub as_str : PaneStatus → Str
as_str running = codes "running"
as_str exited = codes "exited"

pub record PaneState : Type 0 where
  pub id : Str
  pub name : Str
  pub status : PaneStatus
  pub command : Str

abbrev pub new_pane : Str → Str → Str → PaneState
new_pane id name command = record { id = id; name = name; status = running; command = command }

abbrev pub set_status : PaneState → PaneStatus → PaneState
set_status pane status = record pane { status = status }

abbrev is_running_status : PaneStatus → Bool
is_running_status running = true
is_running_status exited = false

unfoldable pub is_running : PaneState → Bool
is_running pane = is_running_status pane.status

abbrev is_exited_status : PaneStatus → Bool
is_exited_status running = false
is_exited_status exited = true

unfoldable pub is_exited : PaneState → Bool
is_exited pane = is_exited_status pane.status

pub record PaneManager : Type 0 where
  pub panes : List (Str × PaneState)
  pub next_id : ℕ  -- u64

abbrev pub new_manager : PaneManager
new_manager = record { panes = []; next_id = 1 }

abbrev pub id_of : ℕ → Str
id_of n = codes "debug-" ++ to_string n

-- The id, and the manager with the counter moved on (a u64 wraps).
unfoldable pub generate_id : PaneManager → Str × PaneManager
unfolding to_string
generate_id m = (id_of m.next_id, record m { next_id = (m.next_id + 1) % 2 ^ 64 })

abbrev pub unwrap_or : Option Str → Str → Str
unwrap_or none d = d
unwrap_or (some s) d = s

unfoldable pub create_pane : Str → Option Str → PaneManager → Str × PaneManager
unfolding generate_id insert
create_pane command name m =
    let (id, m') = generate_id m in
    (id, record m' { panes = insert id (new_pane id (unwrap_or name id) command) m'.panes })

unfoldable pub get_pane : PaneManager → Str → Option PaneState
unfolding get
get_pane m pane_id = get pane_id m.panes

unfoldable pub contains_pane : PaneManager → Str → Bool
unfolding get
contains_pane m pane_id = is_some (get pane_id m.panes)

unfoldable pub remove_pane : Str → PaneManager → Option PaneState × PaneManager
unfolding get remove
remove_pane pane_id m = (get pane_id m.panes, record m { panes = remove pane_id m.panes })

abbrev update_found : Option PaneState → Str → PaneStatus → PaneManager → Bool × PaneManager
update_found none pane_id status m = (false, m)
update_found (some pane) pane_id status m =
    (true, record m { panes = insert pane_id (set_status pane status) m.panes })

unfoldable pub update_status : Str → PaneStatus → PaneManager → Bool × PaneManager
unfolding get insert
update_status pane_id status m = update_found (get pane_id m.panes) pane_id status m

abbrev second : Str × PaneState → PaneState
second e = e.1

abbrev first : Str × PaneState → Str
first e = e.0

-- `iter`, `len`, `is_empty` and `pane_ids`
unfoldable pub values : PaneManager → List PaneState
values m = map second m.panes

unfoldable pub len : PaneManager → ℕ
len m = length m.panes

unfoldable pub no_panes : PaneManager → Bool
no_panes m = is_empty m.panes

unfoldable pub pane_ids : PaneManager → List Str
pane_ids m = map first m.panes
