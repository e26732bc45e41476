-- ===== src/Prelude/Exec.antt =====
-- `Result`, and actions that change a state, may fail, and may run out of fuel: `none` stands for
-- a loop that has not ended. What an action wrote before it failed stays written.
use mathlib.Core.Path.{◌≡◌, refl}
use mathlib.Core.Option.{Option, none, some}

pub data Result (E A : Type 0) : Type 0 where
  ok : A → Result E A
  err : E → Result E A

abbrev pub Exec : Type 0 → Type 0 → Type 0 → Type 0
Exec S E A = S → Option (Result E A × S)

module _ {S E A : Type 0} where
  abbrev pub pure : A → Exec S E A
  pure a s = some (ok a, s)

  abbrev pub raise : E → Exec S E A
  raise e s = some (err e, s)

  -- A call that always returns.
  abbrev pub lift : (S → Result E A × S) → Exec S E A
  lift m s = some (m s)

module _ {S E A B : Type 0} where
  abbrev pub continue : Option (Result E A × S) → (A → Exec S E B) → Option (Result E B × S)
  continue none f = none
  continue (some (ok a, s)) f = f a s
  continue (some (err e, s)) f = some (err e, s)

  infixl 5 ◌>>=◌ ◌>>◌
  abbrev pub ◌>>=◌ : Exec S E A → (A → Exec S E B) → Exec S E B
  ◌>>=◌ m f s = continue (m s) f

  abbrev pub ◌>>◌ : Exec S E A → Exec S E B → Exec S E B
  ◌>>◌ m k s = continue (m s) (λ _. k)

  -- A successful sequence ran its first part successfully.
  pub continue-eq_ok :
      (o : Option (Result E A × S)) (f : A → Exec S E B) {b : B} {t : S}
      → continue o f ≡ some (ok b, t)
      → (a : A) × (s : S) × (o ≡ some (ok a, s)) × (f a s ≡ some (ok b, t))
  continue-eq_ok none f h = cc
  continue-eq_ok (some (ok a, s)) f h = (a, s, refl, h)
  continue-eq_ok (some (err e, s)) f h = cc
