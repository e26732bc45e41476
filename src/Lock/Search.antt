-- ===== src/Lock/Search.antt =====
-- The search for a held lock in loom/crates/loom-core/src/lock/manager.rs.
use wrapix.Prelude.{
  ◌≡◌, ◌≢◌, ◌⊎◌, subst, refl, sym, ap, ◌∙◌, Bool, true, false, Option, none, some, List, [], ◌∷◌,
  In, inl, inr, Bool-cases,
}
use wrapix.Prelude.Text.{Str, str_eq, str_eq_iff}
use wrapix.Prelude.Paths.{file_stem}
use wrapix.Prelude.Exec.{Result, ok, err}
use wrapix.Lock.{
  Kernel, LockError, create_dir, open_failed, io, spec_busy, workspace_busy, reserved_label,
  is_spec_lock, opened_as, open_lock_file, probe_opened, looked, visit, find_held,
}
use wrapix.Lock.Flock.{Flock}

name_cases : (p q : Str) → (p ≡ q) ⊎ (p ≢ q)
name_cases p q = elim (Bool-cases (str_eq p q)) [
  | inl e ↦ inl ((str_eq_iff p q).0 e)
  | inr e ↦ inr (λ h. cc (e, (str_eq_iff p q).1 h))
]

abbrev name_in : {E : Type 0} → Result E (Option Str) → Str
name_in (ok (some name)) = name
name_in (ok none) = []
name_in (err e) = []

abbrev pub entries_in : {E A : Type 0} → Option (Result E (List A)) → List A
entries_in (some (ok entries)) = entries
entries_in (some (err e)) = []
entries_in none = []

-- An error of the operating system, not a lock that is held.
abbrev pub IsFailure : {E : Type 0} → LockError E → Type 0
IsFailure (create_dir e) = Unit
IsFailure (open_failed name e) = Unit
IsFailure (io e) = Unit
IsFailure (spec_busy label) = ⊥
IsFailure (workspace_busy label) = ⊥
IsFailure reserved_label = ⊥

module _ {K F E : Type 0} (kernel : Kernel K F E) (flock : Flock kernel) where
  open flock use {path, holder}

  -- The same locks are held, by the same files.
  abbrev pub SameLocks : K → K → Type 0
  SameLocks k k' = (q : Str) → holder k' q ≡ holder k q

  -- A lock file among the entries, of a spec.
  abbrev pub Listed : List (Result E (Option Str)) → Str → Type 0
  Listed entries name = In (ok (some name)) entries × (is_spec_lock name ≡ true)

  -- What the search says.
  abbrev pub Found :
      List (Result E (Option Str)) → K → Result (LockError E) (Option Str) × K → Type 0
  Found entries k (ok none, k') =
      SameLocks k k' × ((name : Str) → Listed entries name → holder k name ≡ none)
  Found entries k (ok (some label), k') =
      SameLocks k k'
      × (name : Str) × Listed entries name
      × (file_stem name ≡ label)
      × (f : F) × (holder k name ≡ some f)
  Found entries k (err e, k') = SameLocks k k' × IsFailure e

  -- A file is opened, tried and closed: the locks are what they were.
  abbrev Probed : Str → K → Result (LockError E) Bool × K → Type 0
  Probed name k (ok true, k') = SameLocks k k' × (holder k name ≡ none)
  Probed name k (ok false, k') = SameLocks k k' × (f : F) × (holder k name ≡ some f)
  Probed name k (err e, k') = SameLocks k k' × IsFailure e

  -- A file that holds nothing is closed.
  pub closed-SameLocks :
      (f : F) (k m : K)
      → SameLocks k m
      → ((q : Str) → holder k q ≢ some f)
      → SameLocks k (kernel.close f m)
  closed-SameLocks f k m same fresh q =
      (flock.closed f m q).1 (λ e. fresh q (sym (same q) ∙ e)) ∙ same q

  pub was_free :
      (f : F) (k k' : K)
      → SameLocks k k'
      → ((q : Str) → holder k q ≢ some f)
      → (holder k' (path f) ≡ none) ⊎ (holder k' (path f) ≡ some f)
      → holder k (path f) ≡ none
  was_free f k k' same fresh (inl e) = sym (same (path f)) ∙ e
  was_free f k k' same fresh (inr e) = absurd (fresh (path f) (sym (same (path f)) ∙ e))

  tried-Probed :
      (k k' : K) (f : F) (t : Bool × K)
      → SameLocks k k'
      → ((q : Str) → holder k q ≢ some f)
      → kernel.try_write f k' ≡ t
      → Probed (path f) k (ok t.0, kernel.close f t.1)
  tried-Probed k k' f (true, m) same fresh e =
      let (was, now, others) = flock.granted f k' m e in
      let free = was_free f k k' same fresh was in
      (
        λ q. elim (name_cases q (path f)) [
          | inl at ↦ (flock.closed f m q).0 (ap (holder m) at ∙ now) ∙ sym (ap (holder k) at ∙ free)
          | inr off ↦
              (flock.closed f m q).1 (λ h. fresh q (sym (others q off ∙ same q) ∙ h))
              ∙ others q off
              ∙ same q
        ],
        free,
      )
  tried-Probed k k' f (false, m) same fresh e =
      let ((g, held, other), kept) = flock.refused f k' m e in
      (closed-SameLocks f k m (λ q. kept q ∙ same q) fresh, g, sym (same (path f)) ∙ held)

  opened-Probed :
      (name : Str) (k : K) (r : Result E F × K)
      → kernel.open_file name k ≡ r
      → Probed name k (probe_opened kernel (opened_as kernel name r))
  opened-Probed name k (err x, k') e = (flock.not_opened name k k' x e, tt)
  opened-Probed name k (ok f, k') e =
      let (p, same, fresh) = flock.opened name k k' f e in
      subst (λ (n : Str). Probed n k (probe_opened kernel (ok f, k'))) p
        (tried-Probed k k' f (kernel.try_write f k') same fresh refl)

  probe-Probed :
      (name : Str) (k : K) → Probed name k (probe_opened kernel (open_lock_file kernel name k))
  unfolding open_lock_file
  probe-Probed name k = opened-Probed name k (kernel.open_file name k) refl

  -- What is found among more entries, from the same locks.
  skipped :
      (entry : Result E (Option Str)) (entries : List (Result E (Option Str))) (k k' : K)
      (r : Result (LockError E) (Option Str) × K)
      → SameLocks k k'
      → ((name : Str) → ok (some name) ≡ entry → is_spec_lock name ≡ true → holder k name ≡ none)
      → Found entries k' r
      → Found (entry ∷ entries) k r
  skipped entry entries k k' (ok none, m) same free (kept, none_held) = (
    λ q. kept q ∙ same q,
    λ name (at, spec). elim at [
      | inl e ↦ free name e spec
      | inr i ↦ sym (same name) ∙ none_held name (i, spec)
    ],
  )
  skipped entry entries k k' (ok (some label), m) same free
        (kept, name, (at, spec), stem, f, held) =
      (λ q. kept q ∙ same q, name, (inr at, spec), stem, f, sym (same name) ∙ held)
  skipped entry entries k k' (err e, m) same free (kept, failure) = (λ q. kept q ∙ same q, failure)

  looked-Found :
      (name : Str) (entries : List (Result E (Option Str))) (k : K)
      (next : K → Result (LockError E) (Option Str) × K) (r : Result (LockError E) Bool × K)
      → is_spec_lock name ≡ true
      → Probed name k r
      → ((m : K) → Found entries m (next m))
      → Found (ok (some name) ∷ entries) k (looked kernel (file_stem name) next r)
  looked-Found name entries k next (ok true, m) spec (same, free) h =
      skipped (ok (some name)) entries k m (next m) same
        (λ n e _. ap (holder k) (ap name_in e) ∙ free) (h m)
  looked-Found name entries k next (ok false, m) spec (same, f, held) h =
      (same, name, (inl refl, spec), refl, f, held)
  looked-Found name entries k next (err e, m) spec h' h = h'

  pub find_held-Found :
      (entries : List (Result E (Option Str))) (k : K)
      → Found entries k (find_held kernel entries k)
  unfolding find_held
  find_held-Found [] k = (λ q. refl, λ name l. absurd l.0)
  find_held-Found (err e ∷ entries) k = (λ q. refl, tt)
  find_held-Found (ok none ∷ entries) k =
      skipped (ok none) entries k k (find_held kernel entries k) (λ q. refl) (λ name e. cc e)
        (find_held-Found entries k)
  find_held-Found (ok (some name) ∷ entries) k = elim (Bool-cases (is_spec_lock name)) [
    | inl spec ↦
        subst
          (λ (b : Bool).
            Found (ok (some name) ∷ entries) k (visit kernel b name (find_held kernel entries) k))
          (sym spec)
          (looked-Found name entries k (find_held kernel entries)
            (probe_opened kernel (open_lock_file kernel name k)) spec (probe-Probed name k)
            (find_held-Found entries))
    | inr other ↦
        subst
          (λ (b : Bool).
            Found (ok (some name) ∷ entries) k (visit kernel b name (find_held kernel entries) k))
          (sym other)
          (skipped (ok (some name)) entries k k (find_held kernel entries k) (λ q. refl)
            (λ n e spec. cc (other, spec, ap name_in e)) (find_held-Found entries k))
  ]
