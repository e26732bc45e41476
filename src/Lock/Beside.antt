-- ===== src/Lock/Beside.antt =====
-- In loom/crates/loom-core/src/lock/manager.rs the workspace's lock does not keep a spec's from being taken.
use wrapix.Prelude.{
  ℕ, suc, ◌+◌, ◌≡◌, ◌≢◌, refl, sym, ap, ◌∙◌, Bool, true, false, Option, none, some, if◌then◌else◌,
}
use wrapix.Prelude.Text.{Str}
use wrapix.Prelude.Exec.{Result, ok, err}
use wrapix.Core.Label.{SpecLabel}
use wrapix.Lock.{
  Kernel, LockError, spec_busy, reserved_label, reserved_workspace_label, lock_name, opened_as,
  open_lock_file, poll, poll_from, acquire_with_timeout, acquire_spec_with_timeout,
}
use wrapix.Lock.Flock.{Flock}
use wrapix.Lock.Polling.{lock_name-injective, no_test, tries}

module _ {K F E : Type 0} (kernel : Kernel K F E) (flock : Flock kernel) where
  open flock use {path, holder}

  -- The lock of a spec that is free is taken at once, whoever holds other locks: also while
  -- the workspace's lock is held, which stays as it is.
  pub acquire_spec-beside :
      (fuel timeout : ℕ) (label : SpecLabel) (k k' : K) (f : F)
      → label ≢ reserved_workspace_label
      → holder k (lock_name label) ≡ none
      → kernel.open_file (lock_name label) k ≡ (ok f, k')
      → (m : K) × (acquire_spec_with_timeout kernel (suc fuel) label timeout k ≡ some (ok f, m))
        × (holder m (lock_name label) ≡ some f)
        × ((q : Str) → q ≢ lock_name label → holder m q ≡ holder k q)
        × (holder m (lock_name reserved_workspace_label)
            ≡ holder k (lock_name reserved_workspace_label))
  unfolding acquire_spec_with_timeout acquire_with_timeout open_lock_file poll
  acquire_spec-beside fuel timeout label k k' f other free e =
      let (p, same, fresh) = flock.opened (lock_name label) k k' f e in
      at_once p same (kernel.try_write f k') refl
    where
      again : K → Option (Result (LockError E) F × K)
      again = poll kernel fuel f (kernel.now k' + timeout) (spec_busy label)

      runs :
          (t : Bool × K)
          → kernel.try_write f k' ≡ t
          → acquire_spec_with_timeout kernel (suc fuel) label timeout k
            ≡ tries kernel f (kernel.now k' + timeout) (spec_busy label) t again
      runs t et =
          ap
            (λ (b : Bool).
              if b
              then some (err reserved_label, k)
              else acquire_with_timeout kernel (suc fuel) (lock_name label) timeout
                  (spec_busy label) k)
            (no_test label reserved_workspace_label other)
          ∙ ap
              (λ (r : Result E F × K).
                poll_from kernel (suc fuel) timeout (spec_busy label)
                  (opened_as kernel (lock_name label) r))
              e
          ∙ ap
              (λ (u : Bool × K). tries kernel f (kernel.now k' + timeout) (spec_busy label) u again)
              et

      at_once :
          path f ≡ lock_name label
          → ((q : Str) → holder k' q ≡ holder k q)
          → (t : Bool × K) → kernel.try_write f k' ≡ t
          → (m : K) × (acquire_spec_with_timeout kernel (suc fuel) label timeout k ≡ some (ok f, m))
            × (holder m (lock_name label) ≡ some f)
            × ((q : Str) → q ≢ lock_name label → holder m q ≡ holder k q)
            × (holder m (lock_name reserved_workspace_label)
                ≡ holder k (lock_name reserved_workspace_label))
      at_once p same (true, m) et =
          let (was, now, others) = flock.granted f k' m et in
          (
            m,
            runs (true, m) et,
            ap (holder m) (sym p) ∙ now,
            (λ q off. others q (λ h. off (h ∙ p)) ∙ same q),
            others (lock_name reserved_workspace_label)
                  (λ h. other (sym (lock_name-injective reserved_workspace_label label (h ∙ p))))
                ∙ same (lock_name reserved_workspace_label),
          )
      at_once p same (false, m) et =
          let ((g, held, differs), kept) = flock.refused f k' m et in
          absurd (cc (held, ap (holder k') p, same (lock_name label), free))
