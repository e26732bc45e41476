-- ===== src/Tmux/Session.antt =====
-- lib/mcp/tmux/tmux-mcp/src/tmux.rs: the tmux session of the server. The program tmux is a
-- parameter: what it answers to a list of arguments, and what that does to the world.
use wrapix.Prelude.{
  ℕ, Bool, true, false, ◌||◌, Option, none, some, List, [], ◌∷◌, ◌++◌, find, if◌then◌else◌,
}
use wrapix.Prelude.Text.{Str, codes, starts_with, contains, join, lines}
use wrapix.Prelude.Decimal.{to_string}
use wrapix.Prelude.Exec.{Result, ok, err}
use wrapix.Tmux.Windows.{WindowInfo, parse_window, parse_windows, first_window, window_format}
use wrapix.Prelude.Act.{Act, pure, raise, ◌>>=◌, ◌>>◌}

-- An `io::Error` is the text that it displays.
pub data TmuxError : Type 0 where
  command_failed : Str → Str → TmuxError
  session_not_found window_not_found io_error : Str → TmuxError

unfoldable pub show_error : TmuxError → Str
show_error (command_failed command stderr) =
    codes "Tmux command '" ++ command ++ codes "' failed: " ++ stderr
show_error (session_not_found name) = codes "Tmux session '" ++ name ++ codes "' not found"
show_error (window_not_found name) =
    codes "Tmux window '" ++ name ++ codes "' not found. Use tmux_list_panes to see active panes."
show_error (io_error e) = codes "IO error: " ++ e

-- `std::process::Output`, its streams as lossy text.
pub record Output : Type 0 where
  pub is_success : Bool
  pub stdout : Str
  pub stderr : Str

abbrev pub Executor : Type 0 → Type 0
Executor W = List Str → W → Result Str Output × W

-- `TmuxSession`, with the world that its executor acts on.
pub record TmuxSession (W : Type 0) : Type 0 where
  pub session_name : Str
  pub session_created : Bool
  pub width : ℕ  -- u32
  pub height : ℕ  -- u32
  pub world : W

abbrev pub with_executor : {W : Type 0} → ℕ → W → TmuxSession W
with_executor pid world = record {
  session_name = codes "debug-" ++ to_string pid;
  session_created = false;
  width = 200;
  height = 50;
  world = world;
}

abbrev unwrap_or : Option Str → Str → Str
unwrap_or none d = d
unwrap_or (some s) d = s

-- The error of a command that did not succeed.
unfoldable pub failure_of : Str → List Str → Str → TmuxError
unfolding contains starts_with join
failure_of session args stderr =
    if contains (codes "session not found") stderr || contains (codes "no server running") stderr
    then session_not_found session
    else if contains (codes "can't find window") stderr
        || contains (codes "window not found") stderr
        || contains (codes "no such window") stderr
    then window_not_found
        (unwrap_or (find (starts_with (session ++ codes ":")) args) (codes "unknown"))
    else command_failed (codes "tmux " ++ join (codes " ") args) stderr

module _ {W : Type 0} (execute : Executor W) where
  abbrev checked : Str → List Str → Result Str Output → Result TmuxError Str
  checked session args (err e) = err (io_error e)
  checked session args (ok output) =
      if output.is_success then ok output.stdout else err (failure_of session args output.stderr)

  unfoldable pub run_tmux : List Str → Act (TmuxSession W) TmuxError Str
  unfolding failure_of
  run_tmux args s =
      let (answer, world) = execute args s.world in
      (checked s.session_name args answer, record s { world = world })

  abbrev target : TmuxSession W → Str → Str
  target s name = s.session_name ++ codes ":" ++ name

  abbrev created : Act (TmuxSession W) TmuxError (Unit {0})
  created s = (ok tt, record s { session_created = true })

  unfoldable pub new_session : Act (TmuxSession W) TmuxError (Unit {0})
  unfolding run_tmux to_string
  new_session s =
      (do
        run_tmux (
            codes "new-session"
            ∷ codes "-d"
            ∷ codes "-s"
            ∷ s.session_name
            ∷ codes "-x"
            ∷ to_string s.width
            ∷ codes "-y"
            ∷ to_string s.height
            ∷ [])
        run_tmux (
            codes "set-hook"
            ∷ codes "-t"
            ∷ s.session_name
            ∷ codes "after-new-window"
            ∷ codes "set-option remain-on-exit on"
            ∷ [])
        created)
        s

  unfoldable pub ensure_session : Act (TmuxSession W) TmuxError (Unit {0})
  unfolding new_session
  ensure_session s = let made = new_session s in if s.session_created then (ok tt, s) else made

  -- A call whose error is ignored.
  abbrev ignored : Act (TmuxSession W) TmuxError Str → Act (TmuxSession W) TmuxError (Unit {0})
  ignored m s = (ok tt, (m s).1)

  unfoldable pub open_window : Str → Str → Act (TmuxSession W) TmuxError Str
  unfolding run_tmux
  open_window command name s =
      (do
        run_tmux
            (codes "new-window" ∷ codes "-t" ∷ s.session_name ∷ codes "-n" ∷ name ∷ command ∷ [])
        ignored (
            run_tmux (
              codes "set-option"
              ∷ codes "-t"
              ∷ target s name
              ∷ codes "remain-on-exit"
              ∷ codes "on"
              ∷ []))
        pure name)
        s

  unfoldable pub create_window : Str → Str → Act (TmuxSession W) TmuxError Str
  unfolding ensure_session open_window
  create_window command name = do ensure_session; open_window command name

  unfoldable pub send_keys : Str → Str → Act (TmuxSession W) TmuxError (Unit {0})
  unfolding run_tmux
  send_keys pane_id keys s =
      (do run_tmux (codes "send-keys" ∷ codes "-t" ∷ target s pane_id ∷ keys ∷ []); pure tt) s

  unfoldable pub capture_pane : Str → ℕ → Act (TmuxSession W) TmuxError Str
  unfolding run_tmux to_string
  capture_pane pane_id count s =
      run_tmux
        (codes "capture-pane"
          ∷ codes "-t"
          ∷ target s pane_id
          ∷ codes "-p"
          ∷ codes "-S"
          ∷ (codes "-" ++ to_string count)
          ∷ [])
        s

  unfoldable pub kill_window : Str → Act (TmuxSession W) TmuxError (Unit {0})
  unfolding run_tmux
  kill_window pane_id s =
      (do run_tmux (codes "kill-window" ∷ codes "-t" ∷ target s pane_id ∷ []); pure tt) s

  unfoldable pub list_windows : Act (TmuxSession W) TmuxError (List WindowInfo)
  unfolding run_tmux parse_windows
  list_windows s =
      let listed =
        (do
          output ←
              run_tmux (
                codes "list-windows"
                ∷ codes "-t"
                ∷ s.session_name
                ∷ codes "-F"
                ∷ window_format
                ∷ [])
          pure (parse_windows output))
          s in
      if s.session_created then listed else (ok [], s)

  abbrev window_or : Str → Option WindowInfo → Act (TmuxSession W) TmuxError WindowInfo
  window_or pane_id none = raise (window_not_found pane_id)
  window_or pane_id (some info) = pure info

  unfoldable pub get_window_info : Str → Act (TmuxSession W) TmuxError WindowInfo
  unfolding run_tmux parse_window lines
  get_window_info pane_id s =
      (do
        output ←
            run_tmux (
              codes "list-windows"
              ∷ codes "-t"
              ∷ target s pane_id
              ∷ codes "-F"
              ∷ window_format
              ∷ [])
        window_or pane_id (first_window (lines output)))
        s

  unfoldable pub kill_session : Act (TmuxSession W) TmuxError (Unit {0})
  unfolding run_tmux
  kill_session s =
      let (_, s') = run_tmux (codes "kill-session" ∷ codes "-t" ∷ s.session_name ∷ []) s in
      if s.session_created then (ok tt, record s' { session_created = false }) else (ok tt, s)
