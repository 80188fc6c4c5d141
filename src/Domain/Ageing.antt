-- ===== src/Domain/Ageing.antt =====
-- How the freshness of a source changes with time.
use egeism.Base.{
  ℕ, suc, ◌<◌, ◌≤◌, ◌≡◌, ◌≢◌, inl, inr, Bool, true, false, Option, none, some, Option-cases, arith,
  ◌==◌, ◌&&◌,
}
use egeism.Domain.Source.{
  Time, before, days_in_month, is_leap, cutoff, Source, expired, current, ParseUrl, date_freshness,
  dated_freshness, freshness, is_current, known_time,
}
use egeism.Domain.Calendar.{IsDate, days_february, leap_after, day_last_year, cutoff_clamps}

before_of_not_before : (a b c : Time) → before a b ≡ true → before c b ≡ false → before a c ≡ true
unfolding before
before_of_not_before a b c h k = ground arith

-- The leap day, on which the cutoff goes back to a time of day of February 28.
abbrev pub is_leap_day : Time → Bool
is_leap_day t = (t.month == 2) && (t.day == 29)

cutoff_mono :
    (t u : Time)
    → IsDate t
    → IsDate u
    → is_leap_day u ≡ false
    → before u t ≡ false
    → before (cutoff u) (cutoff t) ≡ false
unfolding before
cutoff_mono t u d e o h =
    rw (cutoff_clamps t d, cutoff_clamps u e) (ground (arith, day_last_year u e o))

date_freshness-expired :
    (now later p v : Time)
    → IsDate now
    → IsDate later
    → is_leap_day later ≡ false
    → before later now ≡ false
    → date_freshness now p v ≡ expired
    → date_freshness later p v ≢ current
unfolding date_freshness
date_freshness-expired now later p v d e o h x c =
    let m = cutoff_mono now later d e o h in
    ground (arith, before_of_not_before p (cutoff now) (cutoff later))

-- A task that has expired does not become current again, at any later time but on a leap day.
pub expired_stays :
    (parse : ParseUrl) (s : Option Source) (now later : Time)
    → IsDate now
    → IsDate later
    → is_leap_day later ≡ false
    → before later now ≡ false
    → freshness parse s now ≡ expired
    → is_current parse s later ≡ false
unfolding is_current freshness dated_freshness
expired_stays parse none now later d e o h x = cc
expired_stays parse (some s) now later d e o h x = elim (Option-cases (known_time s.published_at)) [
  | inl a ↦ ground arith
  | inr (p, a) ↦ elim (Option-cases (known_time s.verified_at)) [
    | inl b ↦ ground arith
    | inr (v, b) ↦ ground (arith, date_freshness-expired now later p v d e o h)
  ]
]

abbrev pub february : ℕ → ℕ → ℕ → Time
february y d n = record { year = y; month = 2; day = d; nanos = n }

february-IsDate : (y d n : ℕ) → 1 < y → 0 < d → d ≤ days_in_month y 2 → IsDate (february y d n)
february-IsDate y d n h k l = record {
  year_pos = h;
  month_pos = omega arith;
  month_le = omega arith;
  day_pos = k;
  day_le = l;
}

cutoff-february :
    (y n : ℕ)
    → 0 < y
    → is_leap (suc y) ≡ true
    → (cutoff (february (suc y) 28 n) ≡ february y 28 n)
      × (cutoff (february (suc y) 29 n) ≡ february y 28 n)
cutoff-february y n h l = ground (
  arith,
  days_february y,
  days_february (suc y),
  leap_after y l,
  cutoff_clamps (february (suc y) 28 n),
  cutoff_clamps (february (suc y) 29 n),
  february-IsDate (suc y) 28 n,
  february-IsDate (suc y) 29 n,
)

-- On a leap day it does: a task that was published on February 28 and has expired on February 28 of
-- the next year, a leap year, is current again on February 29 up to the time of day at which it was
-- published.
pub leap_day_revives :
    (y n m k : ℕ) (v : Time)
    → 0 < y
    → is_leap (suc y) ≡ true
    → n < m
    → k ≤ n
    → before v (february y 28 n) ≡ false
    → before (february (suc y) 28 m) v ≡ false
    → (date_freshness (february (suc y) 28 m) (february y 28 n) v ≡ expired)
      × (date_freshness (february (suc y) 29 k) (february y 28 n) v ≡ current)
unfolding date_freshness before
leap_day_revives y n m k v h l lt le a b =
    let e = (cutoff-february y m h l).0 in
    let f = (cutoff-february y k h l).1 in
    (rw (e, date_freshness) (ground arith), rw (f, date_freshness) (ground arith))
