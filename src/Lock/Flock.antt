-- ===== src/Lock/Flock.antt =====
-- What `flock(2)` and the lock directory are taken to do: the hypotheses on what
-- loom/crates/loom-core/src/lock/manager.rs calls.
use wrapix.Prelude.{ℕ, ◌+◌, ◌≡◌, ◌≢◌, ◌⊎◌, ◌≤◌, true, false, Option, none, some}
use wrapix.Prelude.Text.{Str}
use wrapix.Prelude.Exec.{ok, err}
use wrapix.Lock.{Kernel}

module _ {K F E : Type 0} (kernel : Kernel K F E) where
  -- An exclusive lock on a file is held by one open file at most. It is granted if none other holds
  -- it, and released when that file is closed. A file that has just been opened holds none.
  pub record Flock : Type 0 where
    pub path : F → Str
    pub holder : K → Str → Option F
    pub opened :
        (p : Str) (k k' : K) (f : F)
        → kernel.open_file p k ≡ (ok f, k')
        → (path f ≡ p) × ((q : Str) → holder k' q ≡ holder k q) × ((q : Str) → holder k q ≢ some f)
    pub not_opened :
        (p : Str) (k k' : K) (e : E)
        → kernel.open_file p k ≡ (err e, k')
        → (q : Str) → holder k' q ≡ holder k q
    pub granted :
        (f : F) (k k' : K)
        → kernel.try_write f k ≡ (true, k')
        → ((holder k (path f) ≡ none) ⊎ (holder k (path f) ≡ some f))
          × (holder k' (path f) ≡ some f)
          × ((q : Str) → q ≢ path f → holder k' q ≡ holder k q)
    pub refused :
        (f : F) (k k' : K)
        → kernel.try_write f k ≡ (false, k')
        → ((g : F) × (holder k (path f) ≡ some g) × (g ≢ f))
          × ((q : Str) → holder k' q ≡ holder k q)
    pub closed :
        (f : F) (k : K) (q : Str)
        → (holder k q ≡ some f → holder (kernel.close f k) q ≡ none)
          × (holder k q ≢ some f → holder (kernel.close f k) q ≡ holder k q)

  -- The clock runs on while the process sleeps, and does not run back.
  pub record Clock : Type 0 where
    pub slept : (n : ℕ) (k : K) → kernel.now k + n ≤ kernel.now (kernel.sleep n k)
    pub tried : (f : F) (k : K) → kernel.now k ≤ kernel.now (kernel.try_write f k).1
    pub shut : (f : F) (k : K) → kernel.now k ≤ kernel.now (kernel.close f k)
    pub opening : (p : Str) (k : K) → kernel.now k ≤ kernel.now (kernel.open_file p k).1
