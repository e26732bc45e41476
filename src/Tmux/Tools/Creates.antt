-- ===== src/Tmux/Tools/Creates.antt =====
-- What the tool `tmux_create_pane` of lib/mcp/tmux/tmux-mcp/src/main.rs does to the tracked panes.
use wrapix.Prelude.{
  ◌+◌, ◌^◌, ◌<◌, ◌≡◌, refl, ◌∙◌, true, false, Option, none, some, List, if◌then◌else◌, sym, subst,
  inl, inr, Bool-cases,
}
use wrapix.Prelude.Text.{Str, str_eq, str_eq_iff}
use wrapix.Prelude.Exec.{Result, ok, err}
use wrapix.Tmux.Panes.{new_pane, create_pane, remove_pane, get_pane, unwrap_or}
use wrapix.Tmux.Panes.Ids.{IsValid, create_pane-fresh, get_pane-remove_pane}
use wrapix.Tmux.Session.{TmuxError, Executor, TmuxSession, create_window}
use wrapix.Tmux.Protocol.{Json, ToolCallResult}
use wrapix.Tmux.Tools.{Audit, AppState, PaneJson, created, create_as}

module _ {V W : Type 0} (json : Json V) (pretty : List PaneJson → Str) (execute : Executor W)
    (audit : Audit W) (command : Str) (name : Option Str) (state : AppState W) where
  abbrev pub new_id : Str
  new_id = (create_pane command name state.pane_manager).0

  -- tmux's answer to the request for a window for the pane.
  abbrev pub window : Result TmuxError Str × TmuxSession W
  window = create_window execute command new_id state.tmux_session

  abbrev pub Tracked : Result TmuxError Str → ToolCallResult × AppState W → Type 0
  Tracked (ok _) (result, state') =
      (result.is_error ≡ false)
      × ((j : Str)
          → get_pane state'.pane_manager j ≡ (
              if str_eq new_id j
              then some (new_pane new_id (unwrap_or name new_id) command)
              else get_pane state.pane_manager j))
  Tracked (err e) (result, state') =
      (result.is_error ≡ true)
      × ((j : Str) → get_pane state'.pane_manager j ≡ get_pane state.pane_manager j)

  undone :
      IsValid state.pane_manager
      → state.pane_manager.next_id + 1 < 2 ^ 64
      → (j : Str)
      → get_pane (remove_pane new_id (create_pane command name state.pane_manager).1).1 j
        ≡ get_pane state.pane_manager j
  undone v small j =
      let (new, _, others) = create_pane-fresh command name state.pane_manager v small in
      get_pane-remove_pane new_id j (create_pane command name state.pane_manager).1
      ∙ elim (Bool-cases (str_eq new_id j)) [
        | inl same ↦ rw same (
            subst (λ k. none ≡ get_pane state.pane_manager k) ((str_eq_iff new_id j).0 same)
              (sym new))
        | inr other ↦ rw other (others j ∙ rw other)
      ]

  created-Tracked :
      IsValid state.pane_manager
      → state.pane_manager.next_id + 1 < 2 ^ 64
      → (r : Result TmuxError Str) (t : TmuxSession W)
      → Tracked r (
          created json pretty execute audit new_id command name
            (record state { pane_manager = (create_pane command name state.pane_manager).1 })
            (r, t))
  created-Tracked v small (ok _) t =
      (refl, (create_pane-fresh command name state.pane_manager v small).2)
  created-Tracked v small (err e) t = (refl, undone v small)

  -- Behind a valid state: where tmux makes the window, the answer is no error, and the pane is
  -- tracked under its new id and no other one changed; where tmux does not, the answer is an error
  -- and the tracked panes are what they were.
  pub create_as-Tracked :
      IsValid state.pane_manager
      → state.pane_manager.next_id + 1 < 2 ^ 64
      → Tracked window.0 (create_as json pretty execute audit command name state)
  unfolding create_as
  create_as-Tracked v small = created-Tracked v small window.0 window.1
