-- ===== src/Lock/Workspace.antt =====
-- When loom/crates/loom-core/src/lock/manager.rs takes the workspace's lock, and when not.
use wrapix.Prelude.{
  ◌≡◌, ◌≢◌, ◌⊎◌, subst, refl, sym, ap, ◌∙◌, Bool, true, false, Option, none, some, List, inl, inr,
  if◌then◌else◌,
}
use wrapix.Prelude.Text.{Str}
use wrapix.Prelude.Paths.{file_stem}
use wrapix.Prelude.Exec.{Result, ok, err}
use wrapix.Lock.{
  Kernel, LockError, create_dir, open_failed, io, spec_busy, workspace_busy, reserved_label,
  reserved_workspace_label, lock_name, is_spec_lock, opened_as, open_lock_file, find_held, find_in,
  try_workspace, unless_held, acquire_workspace,
}
use wrapix.Lock.Flock.{Flock}
use wrapix.Lock.Search.{
  entries_in, IsFailure, SameLocks, Listed, Found, closed-SameLocks, was_free, find_held-Found,
}

module _ {K F E : Type 0} (kernel : Kernel K F E) (flock : Flock kernel) where
  open flock use {path, holder}

  abbrev workspace_lock : Str
  workspace_lock = lock_name reserved_workspace_label

  -- The lock that is in the way, and the label that the error names.
  abbrev InTheWay : K → Str → Type 0
  InTheWay k label =
      (name : Str) × (f : F) × (holder k name ≡ some f)
      × (((is_spec_lock name ≡ true) × (file_stem name ≡ label))
          ⊎ ((name ≡ workspace_lock) × (label ≡ reserved_workspace_label)))

  abbrev Refused : K → LockError E → Type 0
  Refused k (workspace_busy label) = InTheWay k label
  Refused k e = IsFailure e

  abbrev pub Taken : K → Result (LockError E) F × K → Type 0
  Taken k (ok f, k') =
      (holder k workspace_lock ≡ none)
      × (holder k' workspace_lock ≡ some f)
      × ((q : Str) → q ≢ workspace_lock → holder k' q ≡ holder k q)
      × ((entries : List (Result E (Option Str))) (name : Str)
          → kernel.read_dir k ≡ some (ok entries)
          → Listed kernel flock entries name
          → holder k name ≡ none)
  Taken k (err e, k') = SameLocks kernel flock k k' × Refused k e

  failure-Refused : (k : K) (e : LockError E) → IsFailure e → Refused k e
  failure-Refused k (create_dir x) h = h
  failure-Refused k (open_failed name x) h = h
  failure-Refused k (io x) h = h
  failure-Refused k (spec_busy label) h = absurd h
  failure-Refused k (workspace_busy label) h = absurd h
  failure-Refused k reserved_label h = absurd h

  abbrev NoneHeld : K → Type 0
  NoneHeld k =
      (entries : List (Result E (Option Str))) (name : Str)
      → kernel.read_dir k ≡ some (ok entries)
      → Listed kernel flock entries name
      → holder k name ≡ none

  try-Taken :
      (k m : K) (f : F) (t : Bool × K)
      → NoneHeld k
      → SameLocks kernel flock k m
      → ((q : Str) → holder k q ≢ some f)
      → path f ≡ workspace_lock
      → kernel.try_write f m ≡ t
      → Taken k (
          if t.0
          then (ok f, t.1)
          else (err (workspace_busy reserved_workspace_label), kernel.close f t.1))
  try-Taken k m f (true, n) none_held same fresh p e =
      let (was, now, others) = flock.granted f m n e in
      (
        ap (holder k) (sym p) ∙ was_free kernel flock f k m same fresh was,
        ap (holder n) (sym p) ∙ now,
        λ q off. others q (λ h. off (h ∙ p)) ∙ same q,
        none_held,
      )
  try-Taken k m f (false, n) none_held same fresh p e =
      let ((g, held, other), kept) = flock.refused f m n e in
      (
        closed-SameLocks kernel flock f k n (λ q. kept q ∙ same q) fresh,
        (path f, g, sym (same (path f)) ∙ held, inr (p, refl)),
      )

  opened-Taken :
      (k m : K) (r : Result E F × K)
      → NoneHeld k
      → SameLocks kernel flock k m
      → kernel.open_file workspace_lock m ≡ r
      → Taken k (try_workspace kernel (opened_as kernel workspace_lock r))
  opened-Taken k m (err x, n) none_held same e =
      (λ q. flock.not_opened workspace_lock m n x e q ∙ same q, tt)
  opened-Taken k m (ok f, n) none_held same e =
      let (p, kept, fresh) = flock.opened workspace_lock m n f e in
      try-Taken k n f (kernel.try_write f n) none_held (λ q. kept q ∙ same q)
        (λ q h. fresh q (same q ∙ h)) p refl

  workspace-Taken :
      (k m : K)
      → NoneHeld k
      → SameLocks kernel flock k m
      → Taken k (try_workspace kernel (open_lock_file kernel workspace_lock m))
  unfolding open_lock_file
  workspace-Taken k m none_held same =
      opened-Taken k m (kernel.open_file workspace_lock m) none_held same refl

  Found-Taken :
      (entries : List (Result E (Option Str))) (k : K) (r : Result (LockError E) (Option Str) × K)
      → kernel.read_dir k ≡ some (ok entries)
      → Found kernel flock entries k r
      → Taken k (unless_held kernel r)
  Found-Taken entries k (ok none, m) dir (same, none_held) =
      workspace-Taken k m
        (λ es name e l.
          none_held name
            (subst (λ xs. Listed kernel flock xs name) (ap entries_in (sym e ∙ dir)) l))
        same
  Found-Taken entries k (ok (some label), m) dir (same, name, (at, spec), stem, f, held) =
      (same, (name, f, held, inl (spec, stem)))
  Found-Taken entries k (err e, m) dir (same, failure) = (same, failure-Refused k e failure)

  dir-Taken :
      (k : K) (d : Option (Result E (List (Result E (Option Str)))))
      → kernel.read_dir k ≡ d
      → Taken k (unless_held kernel (find_in kernel d k))
  dir-Taken k none e = workspace-Taken k k (λ entries name h. cc (e, h)) (λ q. refl)
  dir-Taken k (some (err x)) e = (λ q. refl, tt)
  dir-Taken k (some (ok entries)) e =
      Found-Taken entries k (find_held kernel entries k) e (find_held-Found kernel flock entries k)

  -- The workspace's lock is taken only where it is free and no lock of a spec is held whose file is
  -- listed, and then nothing else changes; otherwise the locks are what they were, and the error is
  -- one of the operating system or names a lock that is held.
  pub acquire_workspace-Taken : (k : K) → Taken k (acquire_workspace kernel k)
  unfolding acquire_workspace
  acquire_workspace-Taken k = dir-Taken k (kernel.read_dir k) refl
