-- ===== src/Bank/Refill.antt =====
-- internal/api/bank_sync.go: when the bank asks for more tasks, and when a run of a source counts as
-- a success. A map of the counts by number is the last row of the number, or zero.
use egeism.Base.{
  ℕ, zero, suc, ◌+◌, ◌==◌, ltb, leb, min, max, Bool, true, false, ◌&&◌, ◌||◌, List, [], ◌∷◌, any,
  if◌then◌else◌,
}
use egeism.Domain.Learning.{SubjectCode, rus, math, inf, soc}
use egeism.Bank.Queue.{Job, SyncResult, fetch, enqueue, Enqueued}

pub record Availability : Type 0 where
  pub number : ℕ
  pub active : ℕ

unfoldable pub expected : SubjectCode → ℕ
expected rus = 26
expected math = 19
expected inf = 27
expected soc = 16

unfoldable pub available_from : (ℕ → ℕ) → List Availability → ℕ → ℕ
available_from m [] n = m n
available_from m (row ∷ rows) n =
    available_from (λ k. if row.number == k then row.active else m k) rows n

-- The loop from `number`, over `rounds` numbers.
unfoldable pub short_from : (ℕ → ℕ) → ℕ → ℕ → Bool
short_from m zero number = false
short_from m (suc rounds) number =
    if ltb (m number) 10 then true else short_from m rounds (number + 1)

abbrev pub is_empty : List Availability → Bool
is_empty [] = true
is_empty (row ∷ rows) = false

-- Of a subject, as in all its calls.
unfoldable pub needs_bank_refill : List Availability → SubjectCode → Bool
needs_bank_refill counts subject =
    short_from (available_from (λ k. 0) counts) (expected subject) 1
    || (is_empty counts || any (λ row. ltb row.active 10) counts)

-- enqueueBankSync, without the wake-up.
unfoldable pub enqueue_bank_sync : ℕ → ℕ → SubjectCode → ℕ → ℕ → Bool → Bool → List Job → Enqueued
enqueue_bank_sync id now subject number limit active automatic jobs =
    let cooldown : ℕ = if automatic then 900 else 120 in
    enqueue id now subject number (min (max limit 1) 200) active cooldown fetch jobs

-- The limit of queuePracticeRefill.
unfoldable pub refill_limit : ℕ → ℕ
refill_limit number = if ltb 0 number then 20 else 80

-- executeBankSync: a run with no error that brought nothing to use is an error.
unfoldable pub no_eligible : Bool → SyncResult → Bool
no_eligible active res =
    (res.fetched == 0)
    || ((res.invalid == res.fetched) || (active && leb res.fetched (res.held + res.invalid)))
