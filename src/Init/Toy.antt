-- ===== src/Init/Toy.antt =====
-- A small world for the runs of loom/crates/loom-workflow/src/init: locks and tables side by side.
use wrapix.Prelude.{ap}
use wrapix.Prelude.Text.{Str}
use wrapix.Lock.{Kernel}
use wrapix.Lock.Flock.{Flock}
use wrapix.Lock.Toy.{File, System, toy, toy_flock}
use wrapix.State.Sql.{Tables, Database}
use wrapix.State.Sql.Sqlite.{Sqlite}
use wrapix.State.Sql.Toy.{toy as toy_db, toy_sqlite}

abbrev pub World : Type 0
World = System × Tables

abbrev left : {A : Type 0} → World → A × System → A × World
left w r = (r.0, (r.1, w.1))

abbrev right : {A : Type 0} → World → A × Tables → A × World
right w r = (r.0, (w.0, r.1))

abbrev locks_of : {A : Type 0} → A × World → A × System
locks_of r = (r.0, r.1.0)

abbrev tables_of : {A : Type 0} → A × World → A × Tables
tables_of r = (r.0, r.1.1)

abbrev pub kernel : Kernel World File Str
kernel = record {
  create_dir_all = λ w. left w (toy.create_dir_all w.0);
  open_file = λ name w. left w (toy.open_file name w.0);
  try_write = λ f w. left w (toy.try_write f w.0);
  close = λ f w. (toy.close f w.0, w.1);
  read_dir = λ w. toy.read_dir w.0;
  now = λ w. toy.now w.0;
  sleep = λ n w. (toy.sleep n w.0, w.1);
}

abbrev pub database : Database World Str Str Str
database = record {
  is_poisoned = λ w. toy_db.is_poisoned w.1;
  create_parent = λ path w. right w (toy_db.create_parent path w.1);
  remove_file = λ path w. right w (toy_db.remove_file path w.1);
  connect = λ path w. right w (toy_db.connect path w.1);
  execute = λ q w. right w (toy_db.execute q w.1);
  select_spec = λ label w. toy_db.select_spec label w.1;
  select_molecule = λ label w. toy_db.select_molecule label w.1;
  select_meta = λ key w. toy_db.select_meta key w.1;
  select_companions = λ label w. toy_db.select_companions label w.1;
  select_iteration = λ id w. toy_db.select_iteration id w.1;
  decode_notes = toy_db.decode_notes;
}

pub flock : Flock kernel
flock = record {
  path = toy_flock.path;
  holder = λ w. toy_flock.holder w.0;
  opened = λ p w w' f e. toy_flock.opened p w.0 w'.0 f (ap locks_of e);
  not_opened = λ p w w' x e. toy_flock.not_opened p w.0 w'.0 x (ap locks_of e);
  granted = λ f w w' e. toy_flock.granted f w.0 w'.0 (ap locks_of e);
  refused = λ f w w' e. toy_flock.refused f w.0 w'.0 (ap locks_of e);
  closed = λ f w q. toy_flock.closed f w.0 q;
}

pub sqlite : Sqlite database
sqlite = record {
  rows = λ w. toy_sqlite.rows w.1;
  executed = λ q w w' n e exact. toy_sqlite.executed q w.1 w'.1 n (ap tables_of e) exact;
  listed = λ label w out e. toy_sqlite.listed label w.1 out e;
}
