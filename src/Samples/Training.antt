-- ===== src/Samples/Training.antt =====
-- Sources on concrete dates, and the training of a student.
use egeism.Base.{
  ◌+◌, ◌*◌, ◌≤◌, ◌<◌, ◌≡◌, ◌↔◌, refl, ◌==◌, leb, min, Bool, true, false, ◌&&◌, some, List, [], ◌∷◌,
  ◌++◌, take, count, if◌then◌else◌, arith,
}
use egeism.Base.Text.{codes}
use egeism.Domain.Source.{
  Url, before, days_in_month, is_leap, cutoff, minus_year, minus_day, expired, date_freshness,
  dated_freshness, freshness, is_current, known_time, is_zero, trusted_source_url, plain_host,
  trusted_host,
}
use egeism.Domain.Calendar.{IsDate}
use egeism.Domain.Ageing.{february, expired_stays}
use egeism.Domain.Hosts.{IsTrusted, trusted_source_url_iff}
use egeism.Domain.Entities.{Task}
use egeism.Domain.Learning.{
  math, manual, RecentNumber, task_rules, by_number, by_number_from, is_ready, training_ceiling,
  climb, all_ready_from,
}
use egeism.Domain.Training.{AllReady, Unready, training_ceiling_opens, training_ceiling_stops}
use egeism.Checker.Normalize.{trim_space, is_space}
use egeism.Practice.Session.{recommend_plan, interleave_numbers}
use egeism.Practice.Planning.{dedup, recommend_plan-dedup}
use egeism.Practice.Pools.{interleave_numbers-count}
use egeism.Samples.Data.{
  today, noon, published, parse_url, link, performance, short_task, written_task,
}

today-IsDate : IsDate today
unfolding days_in_month
today-IsDate = record {
  year_pos = omega arith;
  month_pos = omega arith;
  month_le = omega arith;
  day_pos = omega arith;
  day_le = omega arith;
}

tomorrow_IsDate : IsDate (noon 2025 6 2)
unfolding days_in_month
tomorrow_IsDate = record {
  year_pos = omega arith;
  month_pos = omega arith;
  month_le = omega arith;
  day_pos = omega arith;
  day_le = omega arith;
}

not_before : before (noon 2025 6 2) today ≡ false
unfolding before
not_before = refl

has_expired : freshness parse_url (some (published (noon 2024 5 1))) today ≡ expired
unfolding freshness dated_freshness date_freshness known_time is_zero before cutoff minus_year
    minus_day days_in_month trusted_source_url plain_host trim_space is_space trusted_host
has_expired = refl

abbrev is_short : Task → Bool
is_short t = t.id == 10

leap_2028 : is_leap 2028 ≡ true
unfolding is_leap
leap_2028 = refl

verified_after : before (noon 2027 3 1) (february 2027 28 1) ≡ false
unfolding before
verified_after = refl

verified_before : before (february 2028 28 2) (noon 2027 3 1) ≡ false
unfolding before
verified_before = refl

-- Numbers 1 to 3 are trained, 4 to 6 are open.
abbrev performances : List RecentNumber
performances = performance 1 ∷ performance 2 ∷ performance 3 ∷ []

ceiling_below : training_ceiling performances 19 < 19
unfolding training_ceiling climb all_ready_from by_number by_number_from is_ready
ceiling_below = omega arith

ceiling_above : 3 * 1 < training_ceiling performances 19
unfolding training_ceiling climb all_ready_from by_number by_number_from is_ready
ceiling_above = omega arith

abbrev twelve : List RecentNumber
twelve =
    performance 1
    ∷ performance 2
    ∷ performance 3
    ∷ performance 4
    ∷ performance 5
    ∷ performance 6
    ∷ performance 7
    ∷ performance 8
    ∷ performance 9
    ∷ performance 10
    ∷ performance 11
    ∷ performance 12
    ∷ []

thirteen_manual : (task_rules math 13).grading_mode ≡ manual
unfolding task_rules
thirteen_manual = refl

thirteen_open : 13 ≤ training_ceiling twelve 19
unfolding training_ceiling climb all_ready_from by_number by_number_from is_ready
thirteen_open = omega arith

expired_stays_example :
    is_current parse_url (some (published (noon 2024 5 1))) (noon 2025 6 2) ≡ false
expired_stays_example =
    expired_stays parse_url (some (published (noon 2024 5 1))) today (noon 2025 6 2) today-IsDate
      tomorrow_IsDate refl not_before has_expired

trusted_source_url_iff_example :
    (trusted_source_url parse_url (codes "fipi") link ≡ true)
    ↔ ((u : Url) × (parse_url link ≡ some u) × IsTrusted (codes "fipi") u)
trusted_source_url_iff_example = trusted_source_url_iff parse_url (codes "fipi") link

training_ceiling_opens_example :
    (min 3 19 ≤ training_ceiling performances 19)
    × (training_ceiling performances 19 ≤ 19)
    × AllReady (by_number performances) (3 * 1)
training_ceiling_opens_example = training_ceiling_opens performances 19 1 ceiling_above

training_ceiling_stops_example :
    Unready (by_number performances) 1 (1 + training_ceiling performances 19)
training_ceiling_stops_example = training_ceiling_stops performances 19 ceiling_below

recommend_plan-dedup_example :
    recommend_plan (short_task ∷ []) (written_task ∷ []) (short_task ∷ written_task ∷ []) 2
    ≡ take
        (if 2 == 0 then 12 else 2)
        (dedup [] ((short_task ∷ []) ++ ((written_task ∷ []) ++ (short_task ∷ written_task ∷ []))))
recommend_plan-dedup_example =
    recommend_plan-dedup (short_task ∷ []) (written_task ∷ []) (short_task ∷ written_task ∷ []) 2

interleave_numbers-count_example :
    count is_short (interleave_numbers (short_task ∷ written_task ∷ []) 13)
    ≡ count
        (λ t. is_short t && (leb 1 t.number && leb t.number 13))
        (short_task ∷ written_task ∷ [])
interleave_numbers-count_example =
    interleave_numbers-count is_short (short_task ∷ written_task ∷ []) 13
