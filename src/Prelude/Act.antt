-- ===== src/Prelude/Act.antt =====
-- Actions that change a state and may fail, and that always return. What an action wrote before it
-- failed stays written.
use mathlib.Core.Path.{◌≡◌, refl}
use wrapix.Prelude.Exec.{Result, ok, err}

abbrev pub Act : Type 0 → Type 0 → Type 0 → Type 0
Act S E A = S → Result E A × S

module _ {S E A : Type 0} where
  abbrev pub pure : A → Act S E A
  pure a s = (ok a, s)

  abbrev pub raise : E → Act S E A
  raise e s = (err e, s)

module _ {S E A B : Type 0} where
  abbrev pub after : Result E A × S → (A → Act S E B) → Result E B × S
  after (ok a, s) f = f a s
  after (err e, s) f = (err e, s)

  infixl 5 ◌>>=◌ ◌>>◌
  abbrev pub ◌>>=◌ : Act S E A → (A → Act S E B) → Act S E B
  ◌>>=◌ m f s = after (m s) f

  abbrev pub ◌>>◌ : Act S E A → Act S E B → Act S E B
  ◌>>◌ m k s = after (m s) (λ _. k)

  -- A successful sequence ran its first part successfully.
  pub after-eq_ok :
      (o : Result E A × S) (f : A → Act S E B) {b : B} {t : S}
      → after o f ≡ (ok b, t)
      → (a : A) × (s : S) × (o ≡ (ok a, s)) × (f a s ≡ (ok b, t))
  after-eq_ok (ok a, s) f h = (a, s, refl, h)
  after-eq_ok (err e, s) f h = cc
