-- ===== src/Lock/Polling.antt =====
-- How loom/crates/loom-core/src/lock/manager.rs waits for the lock of a spec.
use wrapix.Prelude.{
  ℕ, zero, suc, ◌+◌, ◌*◌, ◌≤◌, ◌≡◌, ◌≢◌, refl, sym, ap, ◌∙◌, subst, Bool, true, false, Option, none,
  some, [], leb, inl, inr, Bool-cases, if◌then◌else◌, arith,
}
use wrapix.Prelude.Text.{Str, codes, str_eq, str_eq_iff}
use wrapix.Prelude.Paths.{rsplit_once, rsplit_once-append}
use wrapix.Prelude.Exec.{Result, ok, err}
use wrapix.Core.Label.{SpecLabel}
use wrapix.Lock.{
  Kernel, LockError, create_dir, open_failed, io, spec_busy, workspace_busy, reserved_label,
  reserved_workspace_label, poll_interval, lock_name, opened_as, open_lock_file, poll, poll_from,
  acquire_with_timeout, acquire_spec_with_timeout,
}
use wrapix.Lock.Flock.{Flock, Clock}

-- Specs with different labels have different lock files.
pub lock_name-injective : (l m : Str) → lock_name l ≡ lock_name m → l ≡ m
lock_name-injective l m e = ap front (
    sym (rsplit_once-append b'.' l (codes "lock") (omega arith))
    ∙ ap (rsplit_once b'.') e
    ∙ rsplit_once-append b'.' m (codes "lock") (omega arith))
  where
    front : Option (Str × Str) → Str
    front (some (s, t)) = s
    front none = []

pub no_test : (s t : Str) → s ≢ t → str_eq s t ≡ false
no_test s t ne = elim (Bool-cases (str_eq s t)) [
  | inl e ↦ absurd (ne ((str_eq_iff s t).0 e))
  | inr e ↦ e
]

reached : (a b : ℕ) → leb a b ≡ true → a ≤ b
reached a b h = ground arith

not_reached : (a b : ℕ) → leb a b ≡ false → b + 1 ≤ a
not_reached a b h = ground arith

module _ {K F E : Type 0} (kernel : Kernel K F E) where
  -- One try, and what follows a refusal.
  abbrev pub tries :
      F
      → ℕ
      → LockError E
      → Bool × K
      → (K → Option (Result (LockError E) F × K))
      → Option (Result (LockError E) F × K)
  tries f deadline busy (taken, k') again =
      if taken
      then some (ok f, k')
      else if leb deadline (kernel.now k')
      then some (err busy, kernel.close f k')
      else again (kernel.sleep poll_interval k')

module _ {K F E : Type 0} (kernel : Kernel K F E) (flock : Flock kernel)
    (clock : Clock kernel) where
  open flock use {path, holder}

  -- How waiting for a spec's lock ends.
  abbrev pub Ended : SpecLabel → ℕ → K → Result (LockError E) F × K → Type 0
  Ended label timeout k (ok f, k') =
      (label ≢ reserved_workspace_label) × (holder k' (lock_name label) ≡ some f)
  Ended label timeout k (err (spec_busy l), k') =
      (label ≢ reserved_workspace_label) × (l ≡ label) × (kernel.now k + timeout ≤ kernel.now k')
  Ended label timeout k (err reserved_label, k') = (label ≡ reserved_workspace_label) × (k' ≡ k)
  Ended label timeout k (err (open_failed name e), k') =
      (name ≡ lock_name label) × (label ≢ reserved_workspace_label)
  Ended label timeout k (err (create_dir e), k') = ⊥
  Ended label timeout k (err (workspace_busy l), k') = ⊥
  Ended label timeout k (err (io e), k') = ⊥

  -- How polling a file ends: with the lock, or not before the deadline.
  abbrev Polled : F → ℕ → LockError E → Result (LockError E) F × K → Type 0
  Polled f deadline busy (ok g, k') = (g ≡ f) × (holder k' (path f) ≡ some f)
  Polled f deadline busy (err e, k') = (e ≡ busy) × (deadline ≤ kernel.now k')

  abbrev Ends : F → ℕ → LockError E → Option (Result (LockError E) F × K) → Type 0
  Ends f deadline busy o =
      (r : Result (LockError E) F × K) × (o ≡ some r) × Polled f deadline busy r

  tries-Ends :
      (f : F) (deadline : ℕ) (busy : LockError E) (k : K) (t : Bool × K)
      (again : K → Option (Result (LockError E) F × K))
      → kernel.try_write f k ≡ t
      → (leb deadline (kernel.now t.1) ≡ false
          → Ends f deadline busy (again (kernel.sleep poll_interval t.1)))
      → Ends f deadline busy (tries kernel f deadline busy t again)
  tries-Ends f deadline busy k (true, k') again e h =
      ((ok f, k'), refl, (refl, (flock.granted f k k' e).1))
  tries-Ends f deadline busy k (false, k') again e h =
      elim (Bool-cases (leb deadline (kernel.now k'))) [
        | inl late ↦ rw late (
          (err busy, kernel.close f k'),
          refl,
          (refl, omega (arith, reached deadline (kernel.now k') late, clock.shut f k')),
        )
        | inr early ↦ rw early (h early)
      ]

  poll-Polled :
      (fuel : ℕ) (f : F) (deadline : ℕ) (busy : LockError E) (k : K)
      → deadline ≤ kernel.now k + 50 * fuel
      → Ends f deadline busy (poll kernel (suc fuel) f deadline busy k)
  unfolding poll
  poll-Polled zero f deadline busy k h =
      tries-Ends f deadline busy k (kernel.try_write f k) (poll kernel zero f deadline busy) refl
        (λ early. absurd (
          omega (
            arith,
            clock.tried f k,
            not_reached deadline (kernel.now (kernel.try_write f k).1) early,
          )))
  poll-Polled (suc fuel) f deadline busy k h =
      tries-Ends f deadline busy k (kernel.try_write f k) (poll kernel (suc fuel) f deadline busy)
        refl
        (λ early.
          poll-Polled fuel f deadline busy (kernel.sleep poll_interval (kernel.try_write f k).1)
            (omega (arith, clock.tried f k, clock.slept poll_interval (kernel.try_write f k).1)))

  Polled-Ended :
      (timeout : ℕ) (label : SpecLabel) (k k' : K) (f : F) (q : Result (LockError E) F × K)
      → path f ≡ lock_name label
      → kernel.now k ≤ kernel.now k'
      → label ≢ reserved_workspace_label
      → Polled f (kernel.now k' + timeout) (spec_busy label) q
      → Ended label timeout k q
  Polled-Ended timeout label k k' f (ok g, m) p le other (e, held) =
      (other, ap (holder m) (sym p) ∙ held ∙ ap some (sym e))
  Polled-Ended timeout label k k' f (err e, m) p le other (same, late) =
      subst (λ (x : LockError E). Ended label timeout k (err x, m)) (sym same)
        (other, refl, omega arith)

  later :
      (k k' : K) (r : Result E F) {name : Str}
      → kernel.open_file name k ≡ (r, k')
      → kernel.now k ≤ kernel.now k'
  later k k' r {name} e =
      subst (λ (t : Result E F × K). kernel.now k ≤ kernel.now t.1) e (clock.opening name k)

  opened-Ended :
      (fuel timeout : ℕ) (label : SpecLabel) (k : K) (r : Result E F × K)
      → timeout ≤ 50 * fuel
      → label ≢ reserved_workspace_label
      → kernel.open_file (lock_name label) k ≡ r
      → (q : Result (LockError E) F × K) × (poll_from kernel
            (suc fuel)
            timeout
            (spec_busy label)
            (opened_as kernel (lock_name label) r)
          ≡ some q)
        × Ended label timeout k q
  opened-Ended fuel timeout label k (err x, k') h other e =
      ((err (open_failed (lock_name label) x), k'), refl, (refl, other))
  opened-Ended fuel timeout label k (ok f, k') h other e =
      let (p, same, fresh) = flock.opened (lock_name label) k k' f e in
      let (q, run, ended) =
        poll-Polled fuel f (kernel.now k' + timeout) (spec_busy label) k' (omega arith) in
      (q, run, Polled-Ended timeout label k k' f q p (later k k' (ok f) e) other ended)

  -- With enough rounds, that is one for each 50 ms of the timeout and one more: waiting for the lock of
  -- a spec always ends. It ends with the lock; or, not before the timeout has passed, with the error
  -- that names the spec; or with an error for the reserved label or for a file that cannot be opened.
  pub acquire_spec-Ended :
      (fuel timeout : ℕ) (label : SpecLabel) (k : K)
      → timeout ≤ 50 * fuel
      → (q : Result (LockError E) F × K) × (acquire_spec_with_timeout kernel
            (suc fuel)
            label
            timeout
            k
          ≡ some q)
        × Ended label timeout k q
  unfolding acquire_spec_with_timeout acquire_with_timeout open_lock_file
  acquire_spec-Ended fuel timeout label k h =
      elim (Bool-cases (str_eq label reserved_workspace_label)) [
        | inl e ↦
            rw e (
              (err reserved_label, k),
              refl,
              ((str_eq_iff label reserved_workspace_label).0 e, refl),
            )
        | inr e ↦ rw e (
            opened-Ended fuel timeout label k (kernel.open_file (lock_name label) k) h
              (λ same. cc (e, (str_eq_iff label reserved_workspace_label).1 same)) refl)
      ]
