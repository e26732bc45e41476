-- ===== src/Tmux/Audit/Captures.antt =====
-- The files of the captures that lib/mcp/tmux/tmux-mcp/src/audit.rs saves.
use wrapix.Prelude.{
  Distinct, ℕ, zero, suc, ◌+◌, ◌-◌, ◌^◌, ◌≤◌, ◌<◌, ◌≡◌, ◌≢◌, refl, sym, ap, ◌∙◌, Option, none, some,
  List, [], ◌∷◌, ◌++◌, length, All, All-append, append_assoc, arith,
}
use wrapix.Prelude.Text.{Str, codes}
use wrapix.Prelude.Decimal.{to_string, to_string-AllDigits, value, value-to_string}
use wrapix.Prelude.Split.{Lacks, digits-Lacks}
use wrapix.Prelude.Paths.{rsplit_once, rsplit_once-append}
use wrapix.Prelude.Exec.{Result, ok, err}
use wrapix.Prelude.Act.{after, pure}
use wrapix.Logging.Time.{replicate, padded}
use wrapix.Tmux.Audit.{
  AuditLogger, Files, capture_name, numbered, save_in, save_full_capture, write_capture,
}

value-replicate : (k : ℕ) (s : Str) → value 0 (replicate k b'0' ++ s) ≡ value 0 s
unfolding value replicate
value-replicate zero s = refl
value-replicate (suc k) s = value-replicate k s

value-padded : (k n : ℕ) → value 0 (padded k n) ≡ n
unfolding padded
value-padded k n = value-replicate (k - length (to_string n)) (to_string n) ∙ value-to_string n

zeros : (k : ℕ) → Lacks b'-' (replicate k b'0')
unfolding replicate
zeros zero = tt
zeros (suc k) = (omega arith, zeros k)

padded-Lacks : (k n : ℕ) → Lacks b'-' (padded k n)
unfolding padded
padded-Lacks k n =
    All-append _ _ (to_string n) (zeros (k - length (to_string n)))
      (digits-Lacks b'-' (to_string n) (omega arith) (to_string-AllDigits n))

-- The number in the name of a capture.
abbrev before_dot : Option (Str × Str) → ℕ
before_dot none = 0
before_dot (some (ds, txt)) = value 0 ds

abbrev last_part : Option (Str × Str) → ℕ
last_part none = 0
last_part (some (front, back)) = before_dot (rsplit_once b'.' back)

abbrev number_of : Str → ℕ
number_of name = last_part (rsplit_once b'-' name)

capture_name-parts :
    (pane_id : Str) (n : ℕ)
    → capture_name pane_id n ≡ (pane_id ++ codes "-capture") ++ b'-' ∷ (padded 3 n ++ codes ".txt")
unfolding capture_name
capture_name-parts pane_id n =
    sym (append_assoc pane_id (codes "-capture") (b'-' ∷ (padded 3 n ++ codes ".txt")))

number_of-capture_name : (pane_id : Str) (n : ℕ) → number_of (capture_name pane_id n) ≡ n
number_of-capture_name pane_id n =
    ap number_of (capture_name-parts pane_id n)
    ∙ ap last_part (
        rsplit_once-append b'-' (pane_id ++ codes "-capture") (padded 3 n ++ codes ".txt")
          (All-append _ (padded 3 n) (codes ".txt") (padded-Lacks 3 n) (omega arith)))
    ∙ ap before_dot (rsplit_once-append b'.' (padded 3 n) (codes "txt") (omega arith))
    ∙ value-padded 3 n

-- What a save gives: the name with the counter's number, and a counter that is one more; or no name.
abbrev Numbered : {E : Type 0} → Result E (Option Str) → ℕ → ℕ → Type 0
Numbered (ok (some name)) c c' = (number_of name ≡ c) × (c' ≡ c + 1)
Numbered (ok none) c c' = (c ≤ c') × (c' ≤ c + 1)
Numbered (err e) c c' = (c ≤ c') × (c' ≤ c + 1)

abbrev pub saved : {E : Type 0} → Result E (Option Str) → List Str → List Str
saved (ok (some name)) names = name ∷ names
saved (ok none) names = names
saved (err e) names = names

-- Numbers from `c` on.
abbrev From : ℕ → List Str → Type 0
From c = All (λ name. c ≤ number_of name)

From-le : (c d : ℕ) (names : List Str) → c ≤ d → From d names → From c names
From-le c d [] le h = tt
From-le c d (name ∷ names) le (n, h) = (omega arith, From-le c d names le h)

module _ {E : Type 0} where
  Numbered-le : (r : Result E (Option Str)) (c c' : ℕ) → Numbered r c c' → (c ≤ c') × (c' ≤ c + 1)
  Numbered-le (ok (some name)) c c' (n, e) = (omega arith, omega arith)
  Numbered-le (ok none) c c' h = h
  Numbered-le (err x) c c' h = h

  saved-From :
      (r : Result E (Option Str)) (c c' : ℕ) (names : List Str)
      → Numbered r c c'
      → From c' names
      → From c (saved r names)
  saved-From (ok (some name)) c c' names (n, e) h =
      (omega arith, From-le c c' names (omega arith) h)
  saved-From (ok none) c c' names (le, _) h = From-le c c' names le h
  saved-From (err x) c c' names (le, _) h = From-le c c' names le h

  saved-Distinct :
      (r : Result E (Option Str)) (c c' : ℕ) (names : List Str)
      → Numbered r c c'
      → From c' names
      → Distinct names
      → Distinct (saved r names)
  saved-Distinct (ok (some name)) c c' names (n, e) h d = (other names h, d)
    where
      other : (ns : List Str) → From c' ns → All (λ y. name ≢ y) ns
      other [] h' = tt
      other (m ∷ ns) (le, h') = (λ same. omega (arith, ap number_of same), other ns h')
  saved-Distinct (ok none) c c' names n h d = d
  saved-Distinct (err x) c c' names n h d = d

module _ {W E : Type 0} (files : Files W E) where
  -- The names that the saves of captures report, each of a pane and its content.
  unfoldable pub save_all : List (Str × Str) → AuditLogger → W → List Str
  unfolding save_full_capture
  save_all [] logger w = []
  save_all ((pane_id, content) ∷ captures) logger w =
      let ((r, w'), logger') = save_full_capture files pane_id content logger w in
      saved r (save_all captures logger' w')

  write_capture-Numbered :
      (dir pane_id content : Str) (c c' : ℕ) (w : W)
      → c' ≡ c + 1
      → Numbered (write_capture files dir (capture_name pane_id c) content w).0 c c'
  write_capture-Numbered dir pane_id content c c' w e =
      step (files.create (files.join dir (capture_name pane_id c)) w)
    where
      wrote :
          (r : Result E (Unit {0}) × W)
          → Numbered (after r (λ _. pure (some (capture_name pane_id c)))).0 c c'
      wrote (ok _, w') = (number_of-capture_name pane_id c, e)
      wrote (err x, w') = (omega arith, omega arith)

      step :
          (r : Result E (Unit {0}) × W)
          → Numbered
              (after
                (after r (λ _. files.write_all (files.join dir (capture_name pane_id c)) content))
                (λ _. pure (some (capture_name pane_id c)))).0
              c
              c'
      step (ok _, w') = wrote (files.write_all (files.join dir (capture_name pane_id c)) content w')
      step (err x, w') = (omega arith, omega arith)

  numbered-Numbered :
      (dir pane_id content : Str) (logger : AuditLogger) (r : Result E (Unit {0}) × W)
      → logger.capture_counter + 1 < 2 ^ 64
      → let ((q, w'), logger') = numbered files dir pane_id content logger r in
        Numbered q logger.capture_counter logger'.capture_counter
  numbered-Numbered dir pane_id content logger (ok _, w) h =
      write_capture-Numbered dir pane_id content logger.capture_counter _ w (omega arith)
  numbered-Numbered dir pane_id content logger (err x, w) h = (omega arith, omega arith)

  save-Numbered :
      (pane_id content : Str) (logger : AuditLogger) (w : W)
      → logger.capture_counter + 1 < 2 ^ 64
      → let ((q, w'), logger') = save_full_capture files pane_id content logger w in
        Numbered q logger.capture_counter logger'.capture_counter
  unfolding save_full_capture
  save-Numbered pane_id content logger w h = at_dir logger.full_capture_dir
    where
      at_dir :
          (d : Option Str)
          → let ((q, w'), logger') = save_in files d pane_id content logger w in
            Numbered q logger.capture_counter logger'.capture_counter
      at_dir none = (omega arith, omega arith)
      at_dir (some dir) = numbered-Numbered dir pane_id content logger _ h

  from_counter :
      (captures : List (Str × Str)) (logger : AuditLogger) (w : W)
      → length captures + logger.capture_counter < 2 ^ 64
      → All (λ name. logger.capture_counter ≤ number_of name) (save_all captures logger w)
  unfolding save_all
  from_counter [] logger w h = tt
  from_counter ((pane_id, content) ∷ captures) logger w h =
      let ((r, w'), logger') = save_full_capture files pane_id content logger w in
      let step = save-Numbered pane_id content logger w (omega arith) in
      let (from, to) = Numbered-le r logger.capture_counter logger'.capture_counter step in
      saved-From r _ _ _ step (from_counter captures logger' w' (omega arith))

  -- Up to the end of a u64: the captures that are saved have different names, so none overwrites
  -- another one, whatever the panes are called and whichever writes fail.
  pub save_all-Distinct :
      (captures : List (Str × Str)) (logger : AuditLogger) (w : W)
      → length captures + logger.capture_counter < 2 ^ 64
      → Distinct (save_all captures logger w)
  unfolding save_all
  save_all-Distinct [] logger w h = tt
  save_all-Distinct ((pane_id, content) ∷ captures) logger w h =
      let ((r, w'), logger') = save_full_capture files pane_id content logger w in
      let step = save-Numbered pane_id content logger w (omega arith) in
      let (from, to) = Numbered-le r logger.capture_counter logger'.capture_counter step in
      saved-Distinct r _ _ _ step (from_counter captures logger' w' (omega arith))
        (save_all-Distinct captures logger' w' (omega arith))
