-- ===== src/Domain/Calendar.antt =====
-- The one-year limit on the age of a task: the boundary at the end of February, and ageing.
use native.Mathlib.Decide.{ℕ_discrete}
use egeism.Base.{
  ℕ, suc, ◌-◌, ◌≤◌, ◌<◌, min, ◌≡◌, ◌≢◌, refl, ap, inl, inr, true, false, if◌then◌else◌, Bool-cases,
  arith, ◌==◌, ◌&&◌,
}
use egeism.Domain.Source.{Time, is_leap, days_in_month, minus_year, minus_day, cutoff}

-- A date of the calendar.
pub record IsDate (t : Time) : Type 0 where
  pub year_pos : 1 < t.year
  pub month_pos : 0 < t.month
  pub month_le : t.month ≤ 12
  pub day_pos : 0 < t.day
  pub day_le : t.day ≤ days_in_month t.year t.month

other_month : (y z m : ℕ) → m ≢ 2 → days_in_month y m ≡ days_in_month z m
unfolding days_in_month
other_month y z m h = ground arith

pub days_february : (y : ℕ) → days_in_month y 2 ≡ (if is_leap y then 29 else 28)
unfolding days_in_month
days_february y = refl

pub leap_after : (y : ℕ) → is_leap (suc y) ≡ true → is_leap y ≡ false
unfolding is_leap
leap_after y h = ground arith

-- The year before one with a February 29 has none.
february_29 : (y : ℕ) → 1 < y → 29 ≤ days_in_month y 2 → days_in_month (y - 1) 2 ≡ 28
february_29 y h d =
    let e : y ≡ suc (y - 1) = omega arith in
    ground (arith, days_february y, days_february (y - 1), leap_after (y - 1), ap is_leap e)

-- Every day but February 29 is there one year earlier.
pub day_last_year :
    (t : Time)
    → IsDate t
    → ((t.month == 2) && (t.day == 29)) ≡ false
    → t.day ≤ days_in_month (t.year - 1) t.month
day_last_year t d h = elim (ℕ_discrete t.month 2) [
  | yes e ↦ ground (
    arith,
    days_february t.year,
    days_february (t.year - 1),
    ap (days_in_month t.year) e,
    ap (days_in_month (t.year - 1)) e,
  )
  | no other ↦ omega (arith, other_month t.year (t.year - 1) t.month other)
]

clamped : Time → Time
clamped t = record {
  year = t.year - 1;
  month = t.month;
  day = min t.day (days_in_month (t.year - 1) t.month);
  nanos = t.nanos;
}

cutoff_leap_day :
    (t : Time)
    → IsDate t
    → t.month ≡ 2
    → t.day ≡ 29
    → days_in_month (t.year - 1) 2 ≡ 28
    → cutoff t ≡ clamped t
unfolding cutoff minus_year minus_day clamped
cutoff_leap_day t d m e f =
    let g = ap (days_in_month (t.year - 1)) m in ground (arith, days_february (t.year - 1))

cutoff_other_day :
    (t : Time)
    → ((t.month == 2) && (t.day == 29)) ≡ false
    → t.day ≤ days_in_month (t.year - 1) t.month
    → cutoff t ≡ clamped t
unfolding cutoff minus_year minus_day clamped
cutoff_other_day t h f = ground arith

-- The cutoff is the same day and time of day one year earlier, and the last day of February for
-- February 29: the day is clamped to the month, as PostgreSQL does for `interval '1 year'`.
pub cutoff_clamps :
    (t : Time)
    → IsDate t
    → cutoff t ≡ record {
      year = t.year - 1;
      month = t.month;
      day = min t.day (days_in_month (t.year - 1) t.month);
      nanos = t.nanos;
    }
unfolding clamped
cutoff_clamps t d = elim (Bool-cases ((t.month == 2) && (t.day == 29))) [
  | inl h ↦
      let m : t.month ≡ 2 = ground arith in
      let e : t.day ≡ 29 = ground arith in
      cutoff_leap_day t d m e
        (february_29 t.year d.year_pos (ground (arith, ap (days_in_month t.year) m)))
  | inr h ↦ cutoff_other_day t h (day_last_year t d h)
]
