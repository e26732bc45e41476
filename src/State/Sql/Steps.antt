-- ===== src/State/Sql/Steps.antt =====
-- One statement of loom/crates/loom-core/src/state that succeeds.
use wrapix.Prelude.{ℕ, ◌≡◌, ap}
use wrapix.Prelude.Exec.{Result, ok, err}
use wrapix.State.Sql.{Statement, Database}
use wrapix.State.Sql.Sqlite.{Sqlite, applied, IsExact}
use wrapix.State.Db.{StateError, asked, execute}

-- What a call returned without doing anything.
abbrev value : {A E : Type 0} → A → Result E A → A
value a (ok b) = b
value a (err e) = a

pub returned :
    {A E S : Type 0} (a : A) (s : S) {b : A} {t : S}
    → Path (Result E A × S) (ok a, s) (ok b, t)
    → (a ≡ b) × (s ≡ t)
returned {A} {E} {S} a s h =
    (ap (λ (p : Result E A × S). value a p.0) h, ap (λ (p : Result E A × S). p.1) h)

module _ {D Q J I : Type 0} (database : Database D Q J I) where
  asked-eq_ok : (r : Result Q ℕ) (n : ℕ) → asked database r ≡ ok n → r ≡ ok n
  asked-eq_ok (ok m) n h = cc h
  asked-eq_ok (err e) n h = cc h

  pub execute-rows :
      (sqlite : Sqlite database) (q : Statement) (d d' : D) (n : ℕ)
      → execute database q d ≡ (ok n, d')
      → IsExact q (sqlite.rows d)
      → sqlite.rows d' ≡ applied q (sqlite.rows d)
  unfolding execute
  execute-rows sqlite q d d' n h exact =
      sqlite.executed q d d' n
        (λ i. (
          asked-eq_ok (database.execute q d).0 n
              (ap (λ (t : Result (StateError Q J I) ℕ × D). t.0) h) i,
          (h i).1,
        ))
        exact
