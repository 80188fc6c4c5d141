-- ===== src/Bank/Stock.antt =====
-- needsBankRefill of internal/api/bank_sync.go.
use egeism.Base.{
  ℕ, zero, suc, ◌+◌, ◌≤◌, ◌<◌, ◌≡◌, ◌↔◌, refl, ◌==◌, ltb, false, List, [], ◌∷◌, any, All,
  Bool-cases, inl, inr, arith,
}
use egeism.Domain.Learning.{SubjectCode, rus, math, inf, soc}
use egeism.Bank.Refill.{
  Availability, expected, available_from, short_from, is_empty, needs_bank_refill,
}

short_from_sound :
    (m : ℕ → ℕ) (rounds n : ℕ)
    → short_from m rounds n ≡ false
    → (k : ℕ) → n ≤ k
    → k < n + rounds
    → 10 ≤ m k
unfolding short_from
short_from_sound m zero n h k l u = absurd (omega arith)
short_from_sound m (suc rounds) n h k l u = elim (Bool-cases (k == n)) [
  | inl e ↦ let same : k ≡ n = ground arith in rw same (ground arith)
  | inr e ↦ short_from_sound m rounds (n + 1) (ground arith) k (ground arith) (omega arith)
]

short_from_complete :
    (m : ℕ → ℕ) (rounds n : ℕ)
    → ((k : ℕ) → n ≤ k → k < n + rounds → 10 ≤ m k)
    → short_from m rounds n ≡ false
unfolding short_from
short_from_complete m zero n h = refl
short_from_complete m (suc rounds) n h =
    let first = h n (omega arith) (omega arith) in
    let rest = short_from_complete m rounds (n + 1) (λ k l u. h k (omega arith) (omega arith)) in
    ground arith

any-All :
    (counts : List Availability)
    → any (λ row. ltb row.active 10) counts ≡ false
    → All (λ row. 10 ≤ row.active) counts
any-All [] h = tt
any-All (c ∷ cs) h = (ground arith, any-All cs (ground arith))

All-any :
    (counts : List Availability)
    → All (λ row. 10 ≤ row.active) counts
    → any (λ row. ltb row.active 10) counts ≡ false
All-any [] h = refl
All-any (c ∷ cs) h = ground (arith, All-any cs h.1)

expected_pos : (s : SubjectCode) → 0 < expected s
unfolding expected
expected_pos rus = omega arith
expected_pos math = omega arith
expected_pos inf = omega arith
expected_pos soc = omega arith

-- Each number of the subject's exam has ten active tasks, by the counts.
abbrev pub IsStocked : List Availability → SubjectCode → Type 0
IsStocked counts s = (k : ℕ) → 0 < k → k ≤ expected s → 10 ≤ available_from (λ j. 0) counts k

stocked-nonempty :
    (counts : List Availability) (s : SubjectCode) → IsStocked counts s → is_empty counts ≡ false
unfolding available_from
stocked-nonempty [] s h =
    let p = expected_pos s in let q = h 1 (omega arith) (omega arith) in absurd (omega arith)
stocked-nonempty (c ∷ cs) s h = refl

-- No refill is asked for exactly when each number of the subject's exam has ten active tasks and no
-- row of the counts, of another number either, has fewer. So an empty bank always asks for one.
pub needs_bank_refill_iff :
    (counts : List Availability) (s : SubjectCode)
    → (needs_bank_refill counts s ≡ false)
      ↔ (IsStocked counts s × All (λ row. 10 ≤ row.active) counts)
unfolding needs_bank_refill
needs_bank_refill_iff counts s = (
  λ h. (
    λ k l u.
        short_from_sound (available_from (λ j. 0) counts) (expected s) 1 (ground arith) k
          (omega arith) (omega arith),
    any-All counts (ground arith),
  ),
  λ h.
      let a =
        short_from_complete (available_from (λ j. 0) counts) (expected s) 1
          (λ k l u. h.0 k (omega arith) (omega arith)) in
      let b = stocked-nonempty counts s h.0 in let c = All-any counts h.1 in ground arith,
)
