-- ===== src/Lock/Toy.antt =====
-- A small system whose locks and clock are as Lock/Flock asks: an open file is a number, given out
-- once, and its name. It stands in for the kernel in the tests.
use wrapix.Prelude.{
  ℕ, suc, ◌+◌, ◌<◌, ◌≡◌, ◌≢◌, ◌⊎◌, inl, inr, refl, sym, ap, ap₂, ◌∙◌, Bool, true, false, ◌==◌,
  ==_iff, ==_refl, ◌&&◌, Bool-cases, Option, none, some, List, [], map, if◌then◌else◌, arith,
}
use wrapix.Prelude.Text.{Str, str_eq, str_eq_iff}
use wrapix.Prelude.Exec.{Result, ok, err}
use wrapix.Lock.{Kernel}
use wrapix.Lock.Flock.{Flock, Clock}

abbrev pub File : Type 0
File = ℕ × Str

pub record System : Type 0 where
  pub held : Str → Option File
  pub next : ℕ
  pub time : ℕ
  pub names : List Str
  pub old : (q : Str) (f : File) → held q ≡ some f → f.0 < next

abbrev same : File → File → Bool
same (m, p) (n, q) = m == n && str_eq p q

same_iff : (f g : File) → same f g ≡ true → f ≡ g
same_iff (m, p) (n, q) h = elim (Bool-cases (m == n)) [
  | inl e ↦ ap₂ (λ (a : ℕ) (b : Str). (a, b)) ((==_iff m n).0 e) ((str_eq_iff p q).0 (rw e at h))
  | inr e ↦ absurd (cc (rw e at h))
]

same_refl : (f : File) → same f f ≡ true
same_refl (m, p) = rw (==_refl m, (str_eq_iff p p).1 refl) refl

abbrev hold : (Str → Option File) → Str → File → Str → Option File
hold held p f q = if str_eq q p then some f else held q

abbrev drop : File → Option File → Option File
drop f none = none
drop f (some g) = if same f g then none else some g

abbrev number_of : Option File → ℕ
number_of (some f) = f.0
number_of none = 0

pub hold-old :
    (s : System) (f : File) (q : Str) (g : File)
    → hold s.held f.1 f q ≡ some g
    → g.0 < suc (f.0 + s.next)
hold-old s f q g h = elim (Bool-cases (str_eq q f.1)) [
  | inl e ↦ omega (arith, ap number_of (rw e at h))
  | inr e ↦ omega (arith, s.old q g (rw e at h))
]

pub drop-old :
    (s : System) (f : File) (q : Str) (g : File) → drop f (s.held q) ≡ some g → g.0 < s.next
drop-old s f q g h = of_held (s.held q) refl h
  where
    of_held : (o : Option File) → s.held q ≡ o → drop f o ≡ some g → g.0 < s.next
    of_held none at e = absurd (cc e)
    of_held (some x) at e = elim (Bool-cases (same f x)) [
      | inl t ↦ absurd (cc (rw t at e))
      | inr t ↦ s.old q g (at ∙ (rw t at e))
    ]

drop_other : (f : File) (o : Option File) → o ≢ some f → drop f o ≡ o
drop_other f none h = refl
drop_other f (some g) h = elim (Bool-cases (same f g)) [
  | inl e ↦ absurd (h (ap some (sym (same_iff f g e))))
  | inr e ↦ rw e refl
]

abbrev grant : File → System → System
grant f s = record {
  held = hold s.held f.1 f;
  next = suc (f.0 + s.next);
  time = s.time;
  names = s.names;
  old = hold-old s f;
}

abbrev try_as : File → System → Option File → Bool × System
try_as f s none = (true, grant f s)
try_as f s (some g) = if same f g then (true, s) else (false, s)

abbrev pub toy : Kernel System File Str
toy = record {
  create_dir_all = λ s. (ok tt, s);
  open_file = λ p s.
      (ok (s.next, p), record s { next = suc s.next; old = λ q f h. omega (arith, s.old q f h) });
  try_write = λ f s. try_as f s (s.held f.1);
  close = λ f s. record {
    held = λ q. drop f (s.held q);
    next = s.next;
    time = s.time;
    names = s.names;
    old = drop-old s f;
  };
  read_dir = λ s. some (ok (map (λ (n : Str). ok (some n)) s.names));
  now = λ s. s.time;
  sleep = λ n s. record s { time = s.time + n };
}

abbrev path_in : Result Str File × System → Str
path_in (ok f, s) = f.1
path_in (err e, s) = []

abbrev number_in : Result Str File × System → ℕ
number_in (ok f, s) = f.0
number_in (err e, s) = 0

pub toy_flock : Flock toy
toy_flock = record {
  path = λ f. f.1;
  holder = λ s q. s.held q;
  opened = λ p k k' f e. (
    sym (ap path_in e),
    (λ q. sym (ap (λ (t : Result Str File × System). t.1.held q) e)),
    λ q h. omega (arith, k.old q f h, ap number_in e),
  );
  not_opened = λ p k k' e h. cc h;
  granted = λ f k k' e. try-granted f k k' (k.held f.1) refl e;
  refused = λ f k k' e. try-refused f k k' (k.held f.1) refl e;
  closed = λ f k q. (λ h. rw (h, same_refl f) refl, λ h. drop_other f (k.held q) h);
}
  where
    try-granted :
        (f : File) (k k' : System) (o : Option File)
        → k.held f.1 ≡ o
        → try_as f k o ≡ (true, k')
        → ((k.held f.1 ≡ none) ⊎ (k.held f.1 ≡ some f))
          × (k'.held f.1 ≡ some f)
          × ((q : Str) → q ≢ f.1 → k'.held q ≡ k.held q)
    try-granted f k k' none at e = (
      inl at,
      sym (ap (λ (t : Bool × System). t.1.held f.1) e) ∙ rw ((str_eq_iff f.1 f.1).1 refl) refl,
      λ q off. sym (ap (λ (t : Bool × System). t.1.held q) e) ∙ elim (Bool-cases (str_eq q f.1)) [
        | inl t ↦ absurd (off ((str_eq_iff q f.1).0 t))
        | inr t ↦ rw t refl
      ],
    )
    try-granted f k k' (some g) at e = elim (Bool-cases (same f g)) [
      | inl t ↦
          let here = at ∙ ap some (sym (same_iff f g t)) in
          let kept = rw t at e in
          (
            inr here,
            sym (ap (λ (u : Bool × System). u.1.held f.1) kept) ∙ here,
            λ q off. sym (ap (λ (u : Bool × System). u.1.held q) kept),
          )
      | inr t ↦ absurd (cc (ap (λ (u : Bool × System). u.0) (rw t at e)))
    ]

    try-refused :
        (f : File) (k k' : System) (o : Option File)
        → k.held f.1 ≡ o
        → try_as f k o ≡ (false, k')
        → ((g : File) × (k.held f.1 ≡ some g) × (g ≢ f)) × ((q : Str) → k'.held q ≡ k.held q)
    try-refused f k k' none at e = absurd (cc (ap (λ (u : Bool × System). u.0) e))
    try-refused f k k' (some g) at e = elim (Bool-cases (same f g)) [
      | inl t ↦ absurd (cc (ap (λ (u : Bool × System). u.0) (rw t at e)))
      | inr t ↦
          let kept = rw t at e in
          (
            (g, at, λ h. cc (t, ap (same f) h, same_refl f)),
            λ q. sym (ap (λ (u : Bool × System). u.1.held q) kept),
          )
    ]

try_time : (f : File) (s : System) (o : Option File) → (try_as f s o).1.time ≡ s.time
try_time f s none = refl
try_time f s (some g) = elim (Bool-cases (same f g)) [ inl e ↦ rw e refl | inr e ↦ rw e refl ]

pub toy_clock : Clock toy
toy_clock = record {
  slept = λ n k. omega arith;
  tried = λ f k. omega (arith, try_time f k (k.held f.1));
  shut = λ f k. omega arith;
  opening = λ p k. omega arith;
}

pub toy_holder : (s : System) (q : Str) → toy_flock.holder s q ≡ s.held q
unfolding toy_flock
toy_holder s q = refl
