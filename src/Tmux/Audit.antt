-- ===== src/Tmux/Audit.antt =====
-- lib/mcp/tmux/tmux-mcp/src/audit.rs: the log of what the tools do. Files, the clock and JSON are
-- parameters; the environment variables are read once, when the server starts.
pub mod Stamp
pub mod Captures
mod Tests
use wrapix.Prelude.{
  ℕ, suc, ◌+◌, ◌%◌, ◌^◌, Bool, true, false, Option, none, some, List, [], ◌∷◌, ◌++◌, map,
  if◌then◌else◌,
}
use wrapix.Prelude.Text.{Str, codes}
use wrapix.Prelude.Exec.{Result, ok, err}
use wrapix.Prelude.Act.{Act, pure, ◌>>=◌, ◌>>◌}
use wrapix.Logging.Time.{padded}
use wrapix.Tmux.Tools.{Audit}
use wrapix.Tmux.Audit.Stamp.{timestamp}

pub record AuditEntry : Type 0 where
  pub ts : Str
  pub tool : Str
  pub pane_id : Option Str
  pub command : Option Str
  pub name : Option Str
  pub keys : Option Str
  pub lines : Option ℕ  -- i32, from 1 to 1000
  pub output_bytes : Option ℕ

abbrev plain : Str → Str → Option Str → AuditEntry
plain ts tool pane_id = record {
  ts = ts;
  tool = tool;
  pane_id = pane_id;
  command = none;
  name = none;
  keys = none;
  lines = none;
  output_bytes = none;
}

abbrev pub create_pane_entry : Str → Str → Option Str → Str → AuditEntry
create_pane_entry pane_id command name ts = record (plain ts (codes "create_pane") (some pane_id)) {
  command = some command;
  name = name;
}

abbrev pub send_keys_entry : Str → Str → Str → AuditEntry
send_keys_entry pane_id keys ts = record (plain ts (codes "send_keys") (some pane_id)) {
  keys = some keys;
}

abbrev pub capture_pane_entry : Str → ℕ → ℕ → Str → AuditEntry
capture_pane_entry pane_id lines output_bytes ts =
    record (plain ts (codes "capture_pane") (some pane_id)) {
      lines = some lines;
      output_bytes = some output_bytes;
    }

abbrev pub kill_pane_entry : Str → Str → AuditEntry
kill_pane_entry pane_id ts = plain ts (codes "kill_pane") (some pane_id)

abbrev pub list_panes_entry : Str → AuditEntry
list_panes_entry ts = plain ts (codes "list_panes") none

-- What the logger uses of files, of the clock and of JSON. A path is a text.
pub record Files (W E : Type 0) : Type 0 where
  -- `SystemTime::now` since the epoch, in seconds
  pub now : W → Option ℕ
  pub to_json : AuditEntry → Result E Str
  pub parent : Str → Option Str
  pub join : Str → Str → Str
  pub exists : Str → W → Bool
  pub create_dir_all : Str → Act W E (Unit {0})
  -- `OpenOptions` to create and to append
  pub open_append : Str → Act W E (Unit {0})
  pub append : Str → Str → Act W E (Unit {0})
  -- `File::create`, which empties a file that exists
  pub create : Str → Act W E (Unit {0})
  pub write_all : Str → Str → Act W E (Unit {0})

pub record AuditLogger : Type 0 where
  pub log_path : Str
  pub full_capture_dir : Option Str
  pub capture_counter : ℕ  -- AtomicU64

-- `new`, and `from_env` where the variable is set
abbrev pub new_logger : Str → Option Str → AuditLogger
new_logger log_path full_capture_dir = record {
  log_path = log_path;
  full_capture_dir = full_capture_dir;
  capture_counter = 1;
}

abbrev pub from_env : Option Str → Option Str → Option AuditLogger
from_env none full = none
from_env (some log_path) full = some (new_logger log_path full)

-- The timestamp always returns: Stamp.Dates.timestamp-some.
abbrev pub stamp_text : Option Str → Str
stamp_text none = []
stamp_text (some ts) = ts

-- `{}-capture-{:03}.txt`
unfoldable pub capture_name : Str → ℕ → Str
unfolding padded
capture_name pane_id counter = pane_id ++ (codes "-capture-" ++ (padded 3 counter ++ codes ".txt"))

module _ {W E : Type 0} (files : Files W E) where
  abbrev of_json : Result E Str → Act W E Str
  of_json r w = (r, w)

  abbrev pub ensure_dir : Option Str → Act W E (Unit {0})
  ensure_dir none w = (ok tt, w)
  ensure_dir (some dir) w = if files.exists dir w then (ok tt, w) else files.create_dir_all dir w

  -- The entry is a line more in the file.
  unfoldable pub log : AuditLogger → AuditEntry → Act W E (Unit {0})
  log logger entry = of_json (files.to_json entry) >>= (λ json.
      ensure_dir (files.parent logger.log_path)
      >> files.open_append logger.log_path
      >> files.append logger.log_path (json ++ 0x0a ∷ []))

  -- The file of a capture, and its content.
  abbrev pub write_capture : Str → Str → Str → Act W E (Option Str)
  write_capture dir filename content =
      files.create (files.join dir filename)
      >> files.write_all (files.join dir filename) content
      >> pure (some filename)

  -- The counter is raised where the directory is there, whether the file can be written or not.
  abbrev pub numbered :
      Str
      → Str
      → Str
      → AuditLogger
      → Result E (Unit {0}) × W
      → (Result E (Option Str) × W) × AuditLogger
  numbered dir pane_id content logger (err e, w) = ((err e, w), logger)
  numbered dir pane_id content logger (ok _, w) = (
    write_capture dir (capture_name pane_id logger.capture_counter) content w,
    record logger { capture_counter = (logger.capture_counter + 1) % 2 ^ 64 },
  )

  abbrev pub save_in :
      Option Str → Str → Str → AuditLogger → W → (Result E (Option Str) × W) × AuditLogger
  save_in none pane_id content logger w = ((ok none, w), logger)
  save_in (some dir) pane_id content logger w =
      numbered dir pane_id content logger (ensure_dir (some dir) w)

  unfoldable pub save_full_capture :
      Str → Str → AuditLogger → W → (Result E (Option Str) × W) × AuditLogger
  unfolding capture_name
  save_full_capture pane_id content logger w =
      save_in logger.full_capture_dir pane_id content logger w

  -- `MaybeAuditLogger`: no logger, no entry.
  abbrev pub maybe_log : (Str → AuditEntry) → Option AuditLogger × W → Option AuditLogger × W
  maybe_log entry (none, w) = (none, w)
  maybe_log entry (some logger, w) =
      (some logger, (log logger (entry (stamp_text (timestamp (files.now w)))) w).1)

  abbrev pub maybe_save : Str → Str → Option AuditLogger × W → Option AuditLogger × W
  maybe_save pane_id content (none, w) = (none, w)
  maybe_save pane_id content (some logger, w) =
      let ((r, w'), logger') = save_full_capture pane_id content logger w in (some logger', w')

  -- What the server calls; it ignores the errors.
  unfoldable pub audit : Audit (Option AuditLogger × W)
  unfolding log save_full_capture timestamp
  audit = record {
    log_create_pane = λ pane_id command name. maybe_log (create_pane_entry pane_id command name);
    log_send_keys = λ pane_id keys. maybe_log (send_keys_entry pane_id keys);
    log_capture_pane =
        λ pane_id lines output_bytes. maybe_log (capture_pane_entry pane_id lines output_bytes);
    save_full_capture = maybe_save;
    log_kill_pane = λ pane_id. maybe_log (kill_pane_entry pane_id);
    log_list_panes = maybe_log list_panes_entry;
  }
