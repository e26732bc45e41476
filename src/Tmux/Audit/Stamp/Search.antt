-- ===== src/Tmux/Audit/Stamp/Search.antt =====
-- The loops over the years and the months of lib/mcp/tmux/tmux-mcp/src/audit.rs.
use wrapix.Prelude.{
  ℕ, zero, suc, ◌+◌, ◌-◌, ◌≤◌, ◌<◌, ◌≡◌, refl, Bool, true, false, Option, some, List, [], ◌∷◌, ltb,
  Bool-cases, inl, inr, if◌then◌else◌, arith, ap, ◌∙◌,
}
use wrapix.Logging.Time.Calendar.{is_leap, days_in_year, days_in_month, year_start, month_start}
use wrapix.Prelude.Int.{pos}
use wrapix.Logging.Time.Civil.{Dates}
use wrapix.Logging.Time.Unique.{month_next, ordinal_sum}
use wrapix.Tmux.Audit.Stamp.{
  is_leap_year, year_days, find_year, find_month, days_in_months, month_and_day, in_year, date_from,
}

leap : (y : ℕ) → is_leap_year y ≡ is_leap y
unfolding is_leap_year is_leap
leap y = ground arith

year_days_lem : (y : ℕ) → year_days y ≡ days_in_year y
unfolding year_days days_in_year
year_days_lem y = ap (λ (b : Bool). if b then 366 else 365) (leap y)

below : (a b : ℕ) → ltb a b ≡ true → a < b
below a b h = ground arith

not_below : (a b : ℕ) → ltb a b ≡ false → b ≤ a
not_below a b h = ground arith

some_day : (y : ℕ) → 1 ≤ days_in_year y
unfolding days_in_year
some_day y = ground arith

year_start-suc : (y : ℕ) → year_start (suc y) ≡ year_start y + days_in_year y
unfolding year_start
year_start-suc y = refl

-- The year that is found, and the days behind its start.
abbrev Year : ℕ → Option (ℕ × ℕ) → Type 0
Year n o =
    (y : ℕ) × (r : ℕ) × (o ≡ some (y, r)) × (1 ≤ y) × (r < days_in_year y) × (year_start y + r ≡ n)

pub find_year-Year :
    (fuel y r : ℕ) → r < fuel → 1 ≤ y → Year (year_start y + r) (find_year fuel y r)
unfolding find_year
find_year-Year zero y r h hy = absurd (omega arith)
find_year-Year (suc fuel) y r h hy =
    rw (year_days_lem y) (elim (Bool-cases (ltb r (days_in_year y))) [
      | inl e ↦ rw e (y, r, refl, hy, below r (days_in_year y) e, omega arith)
      | inr e ↦
          let later =
            find_year-Year fuel (suc y) (r - days_in_year y)
              (omega (arith, some_day y, not_below r (days_in_year y) e)) (omega arith) in
          let (z, q, found, hz, small, sum) = later in
          rw e (
            z,
            q,
            found,
            hz,
            small,
            omega (arith, year_start-suc y, not_below r (days_in_year y) e),
          )
    ])

-- The days of `k` months from the month `m` on.
abbrev from_month : ℕ → ℕ → ℕ → List ℕ
from_month y m zero = []
from_month y m (suc k) = days_in_month y m ∷ from_month y (suc m) k

year_months : (y : ℕ) → days_in_months (is_leap_year y) ≡ from_month y 1 12
unfolding days_in_months days_in_month
year_months y =
    ap
      (λ (b : Bool).
        31 ∷ (if b then 29 else 28) ∷ 31 ∷ 30 ∷ 31 ∷ 30 ∷ 31 ∷ 31 ∷ 30 ∷ 31 ∷ 30 ∷ 31 ∷ [])
      (leap y)

find_month-in :
    (k y m r e : ℕ)
    → 1 ≤ m
    → k + m ≡ e
    → month_start y m + r < month_start y e
    → (i : ℕ) × (q : ℕ) × (find_month (from_month y m k) m r ≡ (i, q))
      × (m ≤ i)
      × (i < e)
      × (q < days_in_month y i)
      × (month_start y i + q ≡ month_start y m + r)
unfolding find_month
find_month-in zero y m r e hm sum h = absurd (omega (arith, ap (month_start y) (m_is_e m e sum)))
  where
    m_is_e : (a b : ℕ) → 0 + a ≡ b → a ≡ b
    m_is_e a b h' = omega arith
find_month-in (suc k) y m r e hm sum h = elim (Bool-cases (ltb r (days_in_month y m))) [
  | inl t ↦ rw t (m, r, refl, omega arith, omega arith, below r (days_in_month y m) t, omega arith)
  | inr t ↦
      let (i, q, found, from, before, small, total) =
        find_month-in k y (suc m) (r - days_in_month y m) e (omega arith) (omega arith)
          (omega (arith, month_next y m hm, not_below r (days_in_month y m) t)) in
      rw t (
        i,
        q,
        found,
        omega arith,
        before,
        small,
        omega (arith, month_next y m hm, not_below r (days_in_month y m) t),
      )
]

year_end : (y : ℕ) → (month_start y 13 ≡ days_in_year y) × (month_start y 1 ≡ 0)
unfolding month_start days_in_year
year_end y = (ground arith, refl)

epoch : year_start 1970 ≡ 719528
unfolding year_start
epoch = refl

-- The date that is found for a day since the epoch, with rounds enough.
pub date_from-Dates :
    (days : ℕ)
    → (date : ℕ × ℕ × ℕ) × (date_from (suc days) (pos days) ≡ some date)
      × Dates date (days + 719528)
unfolding date_from
date_from-Dates days =
    let (y, r, found, hy, small, sum) =
      find_year-Year (suc days) 1970 days (omega arith) (omega arith) in
    let (m, q, month, from, before, short, total) =
      find_month-in 12 y 1 r 13 (omega arith) (omega arith)
        (omega (arith, (year_end y).0, (year_end y).1)) in
    (
      (y, m, q + 1),
      ap in_year found
          ∙ ap (month_and_day y) (ap (λ (l : List ℕ). find_month l 1 r) (year_months y) ∙ month),
      (
        omega arith,
        omega arith,
        omega arith,
        omega arith,
        omega (arith, ordinal_sum y m (q + 1), epoch, (year_end y).1),
      ),
    )
