-- ===== src/Tmux/Audit/Tests.antt =====
-- Concrete runs of the log of lib/mcp/tmux/tmux-mcp/src/audit.rs.
use wrapix.Prelude.{Distinct, ◌≡◌, refl, arith, true, none, some, List, [], ◌∷◌, ◌++◌}
use wrapix.Prelude.Text.{Str, codes}
use wrapix.Prelude.Int.{pos}
use wrapix.Prelude.Exec.{ok}
use wrapix.Logging.Time.{utc_parts}
use wrapix.Tmux.Audit.{AuditLogger, Files, new_logger, list_panes_entry, log, audit}
use wrapix.Tmux.Audit.Captures.{save_all, save_all-Distinct}
use wrapix.Tmux.Audit.Stamp.{Parts, timestamp_parts, timestamp}
use wrapix.Tmux.Audit.Stamp.Dates.{timestamp_parts-utc_parts}

-- The leap day of 2024, at noon.
noon : timestamp (some 1709208000) ≡ some (codes "2024-02-29T12:00:00Z")
unfolding timestamp
noon = refl

timestamp_parts-utc_parts_example :
    (p : Parts) × (timestamp_parts 1709208000 ≡ some p)
    × (utc_parts 1709208000 ≡ record {
      year = pos p.year;
      month = p.month;
      day = p.day;
      hour = p.hour;
      minute = p.min;
      second = p.sec;
    })
timestamp_parts-utc_parts_example = timestamp_parts-utc_parts 1709208000 (omega arith)

-- The world is what was done to it; JSON is the name of the tool.
abbrev done : Str → Str → List Str → List Str
done verb path w = w ++ (verb ++ path) ∷ []

abbrev recorded : Files (List Str) Str
recorded = record {
  now = λ w. some 1709208000;
  to_json = λ entry. ok entry.tool;
  parent = λ path. some (codes "/log");
  join = λ dir name. dir ++ (codes "/" ++ name);
  exists = λ path w. true;
  create_dir_all = λ path w. (ok tt, done (codes "mkdir ") path w);
  open_append = λ path w. (ok tt, done (codes "open ") path w);
  append = λ path text w. (ok tt, done (codes "append ") text w);
  create = λ path w. (ok tt, done (codes "create ") path w);
  write_all = λ path text w. (ok tt, done (codes "write ") text w);
}

abbrev logger : AuditLogger
logger = new_logger (codes "/log/audit") (some (codes "/log/full"))

listed :
    log recorded logger (list_panes_entry (codes "now")) []
    ≡ (ok tt, codes "open /log/audit" ∷ codes "append list_panes\n" ∷ [])
unfolding log
listed = refl

saved_twice :
    save_all recorded ((codes "debug-1", codes "a") ∷ (codes "debug-2", codes "b") ∷ []) logger []
    ≡ codes "debug-1-capture-001.txt" ∷ codes "debug-2-capture-002.txt" ∷ []
unfolding save_all
saved_twice = refl

save_all-Distinct_example :
    Distinct (
      save_all recorded
        ((codes "debug-1", codes "a") ∷ (codes "debug-1", codes "a") ∷ [])
        logger
        [])
save_all-Distinct_example =
    save_all-Distinct recorded ((codes "debug-1", codes "a") ∷ (codes "debug-1", codes "a") ∷ [])
      logger [] (omega arith)

-- A server without the log leaves the world as it is.
silent : (audit recorded).log_list_panes (none, []) ≡ (none, [])
unfolding audit
silent = refl
