-- ===== src/Domain/Source.antt =====
-- internal/domain/source.go: which task sources are trusted, and how long a task stays current.
-- `parse_url` stands for net/url's Parse. A `time.Time` is a date and a nanosecond of the day, all
-- in one location; the calendar is the Gregorian one from year 1.
use egeism.Base.{
  ℕ, ◌+◌, ◌-◌, ◌%◌, ◌==◌, ltb, Bool, true, false, not, ◌&&◌, ◌||◌, Option, none, some, List, [],
  ◌∷◌, ◌++◌, if◌then◌else◌,
}
use egeism.Base.Text.{Text, codes, text_eq}
use egeism.Checker.Normalize.{trim_space}

-- What the code reads of a `*url.URL`.
pub record Url : Type 0 where
  pub scheme : Text
  pub has_user : Bool
  pub port : Text
  pub hostname : Text

abbrev pub ParseUrl : Type 0
ParseUrl = Text → Option Url

-- The checks before the host is looked at; `none` is `return false`.
unfoldable pub plain_host : Option Url → Option Text
plain_host none = none
plain_host (some u) =
    if not (text_eq u.scheme (codes "https")) || u.has_user || not (text_eq u.port [])
    then none
    else some u.hostname

unfoldable pub is_fipi_host : Text → Bool
is_fipi_host h =
    text_eq h (codes "fipi.ru")
    || text_eq h (codes "doc.fipi.ru")
    || text_eq h (codes "ege.fipi.ru")

-- TrustedSourceURL("fipi", raw).
unfoldable pub trusted_fipi : ParseUrl → Text → Bool
unfolding plain_host is_fipi_host
trusted_fipi parse raw = elim (plain_host (parse raw)) [ none ↦ false | some h ↦ is_fipi_host h ]

-- The loop over the subjects' sites.
unfoldable pub is_subject_host : Text → List Text → Bool
is_subject_host h [] = false
is_subject_host h (s ∷ ss) =
    if text_eq h (s ++ codes "-ege.sdamgia.ru") || text_eq h (s ++ codes ".ege.sdamgia.ru")
    then true
    else is_subject_host h ss

abbrev pub subjects : List Text
subjects = codes "math" ∷ codes "rus" ∷ codes "inf" ∷ codes "soc" ∷ []

unfoldable pub trusted_host : ParseUrl → Text → Text → Text → Bool
unfolding is_fipi_host trusted_fipi is_subject_host
trusted_host parse provider raw h =
    if text_eq provider (codes "fipi")
    then is_fipi_host h
    else (if text_eq provider (codes "openfipi")
        then text_eq h (codes "openfipi.devinf.ru") || trusted_fipi parse raw
        else (if text_eq provider (codes "sdamgia")
            then (if is_subject_host h subjects
                then true
                else text_eq h (codes "ege.sdamgia.ru") || trusted_fipi parse raw)
            else false))

unfoldable pub trusted_source_url : ParseUrl → Text → Text → Bool
unfolding plain_host
trusted_source_url parse provider raw = elim (plain_host (parse raw)) [
  | none ↦ false
  | some h ↦ trusted_host parse provider raw h
]

pub record Time : Type 0 where
  pub year : ℕ
  pub month : ℕ
  pub day : ℕ
  pub nanos : ℕ

-- t.Before(u); t.After(u) is `before u t`.
unfoldable pub before : Time → Time → Bool
before t u =
    if ltb t.year u.year
    then true
    else (t.year == u.year)
      && (ltb t.month u.month
          || ((t.month == u.month)
              && (ltb t.day u.day || ((t.day == u.day) && ltb t.nanos u.nanos))))

unfoldable pub is_zero : Time → Bool
is_zero t = (t.year == 1) && (t.month == 1) && (t.day == 1) && (t.nanos == 0)

unfoldable pub is_leap : ℕ → Bool
is_leap y = ((y % 4 == 0) && not (y % 100 == 0)) || (y % 400 == 0)

unfoldable pub days_in_month : ℕ → ℕ → ℕ
days_in_month y m =
    if m == 2
    then (if is_leap y then 29 else 28)
    else (if (m == 4) || (m == 6) || (m == 9) || (m == 11) then 30 else 31)

-- t.AddDate(-1, 0, 0): a day past the end of the month becomes a day of the next one.
unfoldable pub minus_year : Time → Time
minus_year t =
    let y = t.year - 1 in
    if ltb (days_in_month y t.month) t.day
    then record t { year = y; month = t.month + 1; day = t.day - days_in_month y t.month }
    else record t { year = y }

-- t.AddDate(0, 0, -1).
unfoldable pub minus_day : Time → Time
minus_day t =
    if t.day == 1
    then (if t.month == 1
        then record t { year = t.year - 1; month = 12; day = 31 }
        else record t { month = t.month - 1; day = days_in_month t.year (t.month - 1) })
    else record t { day = t.day - 1 }

unfoldable pub cutoff : Time → Time
cutoff now =
    let c = minus_year now in if (now.month == 2) && (now.day == 29) then minus_day c else c

pub record Source : Type 0 where
  pub provider : Text
  pub extern_id : Text
  pub url : Text
  pub published_at : Option Time
  pub verified_at : Option Time
  pub date_evidence_url : Text
  pub date_evidence : Text

pub data Freshness : Type 0 where
  unverified expired current : Freshness

-- `t == nil || t.IsZero()` gives `none`.
unfoldable pub known_time : Option Time → Option Time
unfolding is_zero
known_time none = none
known_time (some t) = if is_zero t then none else some t

-- The tests on the two dates, once both are known.
unfoldable pub date_freshness : Time → Time → Time → Freshness
date_freshness now published verified =
    if before now published || before now verified || before verified published
    then unverified
    else (if before published (cutoff now) then expired else current)

unfoldable pub dated_freshness : ParseUrl → Source → Time → Freshness
unfolding known_time
dated_freshness parse s now = elim (known_time s.published_at) [
  | none ↦ unverified
  | some published ↦ elim (known_time s.verified_at) [
    | none ↦ unverified
    | some verified ↦
        if text_eq (trim_space s.date_evidence) []
          || not (trusted_source_url parse s.provider s.date_evidence_url)
        then unverified
        else date_freshness now published verified
  ]
]

-- The first result of Freshness; `none` is the nil source.
unfoldable pub freshness : ParseUrl → Option Source → Time → Freshness
freshness parse none now = unverified
freshness parse (some s) now =
    if text_eq (trim_space s.extern_id) [] || not (trusted_source_url parse s.provider s.url)
    then unverified
    else dated_freshness parse s now

unfoldable pub is_current : ParseUrl → Option Source → Time → Bool
is_current parse s now = elim (freshness parse s now) [ current ↦ true | _ ↦ false ]
