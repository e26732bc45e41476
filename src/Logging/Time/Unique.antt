-- ===== src/Logging/Time/Unique.antt =====
-- A day of the calendar has one date.
use wrapix.Prelude.{
  ℕ, zero, suc, ◌+◌, ◌-◌, ◌≤◌, ◌<◌, ◌≡◌, ◌⊎◌, inl, inr, refl, sym, ap, ap₂, subst, ◌∙◌, arith,
}
use wrapix.Logging.Time.Calendar.{year_start, days_in_year, days_in_month, month_start, ordinal}
use wrapix.Logging.Time.Civil.{Dates}

at_or_below : (i j : ℕ) → i ≤ suc j → (i ≤ j) ⊎ (i ≡ suc j)
at_or_below i j le = grind arith

order : (i j : ℕ) → (i < j) ⊎ ((j < i) ⊎ (i ≡ j))
order i j = grind arith

-- Blocks of days, one behind another.
module _ (start size : ℕ → ℕ) (next : (i : ℕ) → 1 ≤ i → start (suc i) ≡ start i + size i) where
  start_le : (i j : ℕ) → 1 ≤ i → i ≤ j → start i ≤ start j
  start_le i zero h le = absurd (omega arith)
  start_le i (suc j) h le = elim (at_or_below i j le) [
    | inl below ↦ omega (arith, start_le i j h below, next j (omega arith))
    | inr e ↦ rw e (omega arith)
  ]

  -- Where two blocks have a day in common they are one.
  pub same_block :
      (i j a b : ℕ) → 1 ≤ i → 1 ≤ j → a < size i → b < size j → start i + a ≡ start j + b → i ≡ j
  same_block i j a b hi hj la lb e = elim (order i j) [
    | inl lt ↦ absurd (omega (arith, start_le (suc i) j (omega arith) lt, next i hi))
    | inr other ↦ elim other [
      | inl lt ↦ absurd (omega (arith, start_le (suc j) i (omega arith) lt, next j hj))
      | inr same ↦ same
    ]
  ]

year_next : (y : ℕ) → 1 ≤ y → year_start (suc y) ≡ year_start y + days_in_year y
unfolding year_start
year_next y h = refl

pub month_next : (y m : ℕ) → 1 ≤ m → month_start y (suc m) ≡ month_start y m + days_in_month y m
unfolding month_start
month_next y zero h = absurd (omega arith)
month_next y (suc m) h = refl

year_end : (y : ℕ) → month_start y 13 ≡ days_in_year y
unfolding month_start days_in_year
year_end y = ground arith

-- The day of the year of a date.
in_year :
    (y m d : ℕ)
    → 1 ≤ m
    → m ≤ 12
    → 1 ≤ d
    → d ≤ days_in_month y m
    → month_start y m + (d - 1) < days_in_year y
in_year y m d hm m12 hd dm = omega (
  arith,
  start_le (month_start y) (days_in_month y) (month_next y) (suc m) 13 (omega arith) (omega arith),
  month_next y m hm,
  year_end y,
)

pub ordinal_sum : (y m d : ℕ) → ordinal y m d ≡ year_start y + (month_start y m + (d - 1))
unfolding ordinal
ordinal_sum y m d = omega arith

in_one_year :
    (y m d m' d' n : ℕ)
    → Dates (y, m, d) n
    → Dates (y, m', d') n
    → ◌≡◌ {A = ℕ × ℕ × ℕ} (y, m, d) (y, m', d')
in_one_year y m d m' d' n (m1, m12, d1, dm, e) (m1', m12', d1', dm', e') =
    ap₂ (λ (a b : ℕ). (y, a, b)) months
      (omega (arith, ordinal_sum y m d, ordinal_sum y m' d', ap (month_start y) months))
  where
    months : m ≡ m'
    months =
        same_block (month_start y) (days_in_month y) (month_next y) m m' (d - 1) (d' - 1) m1 m1'
          (omega arith) (omega arith) (omega (arith, ordinal_sum y m d, ordinal_sum y m' d'))

-- A date behind the year 0.
later_year : (y m d n : ℕ) → 366 ≤ n → Dates (y, m, d) n → 1 ≤ y
unfolding days_in_year year_start
later_year zero m d n h (m1, m12, d1, dm, e) =
    absurd (omega (arith, ordinal_sum zero m d, in_year zero m d m1 m12 d1 dm, first_year))
  where
    first_year : (days_in_year zero ≡ 366) × (year_start zero ≡ 0)
    first_year = (refl, refl)
later_year (suc y) m d n h dates = omega arith

-- A day behind the year 0 is that of one date only.
pub Dates-unique : (p q : ℕ × ℕ × ℕ) (n : ℕ) → 366 ≤ n → Dates p n → Dates q n → p ≡ q
Dates-unique (y, m, d) (y', m', d') n late h h' =
    in_one_year y m d m' d' n h (subst (λ (z : ℕ). Dates (z, m', d') n) (sym years) h')
    ∙ ap (λ (z : ℕ). (z, m', d')) years
  where
    day : (z a b : ℕ) → Dates (z, a, b) n → month_start z a + (b - 1) < days_in_year z
    day z a b (a1, a12, b1, ab, e) = in_year z a b a1 a12 b1 ab

    years : y ≡ y'
    years =
        same_block year_start days_in_year year_next y y' (month_start y m + (d - 1))
          (month_start y' m' + (d' - 1)) (later_year y m d n late h) (later_year y' m' d' n late h')
          (day y m d h) (day y' m' d' h')
          (omega (arith, ordinal_sum y m d, ordinal_sum y' m' d', h.4, h'.4))
