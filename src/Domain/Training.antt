-- ===== src/Domain/Training.antt =====
-- The ceiling of a student's training.
use native.Mathlib.Nat.{add-sub_cancel}
use native.Mathlib.Decide.{ℕ_discrete}
use egeism.Base.{
  ℕ, zero, suc, ◌+◌, ◌-◌, ◌*◌, ◌≤◌, ◌<◌, min, ◌≡◌, refl, ◌↔◌, inl, inr, Bool, true, false, List,
  ltb, lt→ltb, ◌&&◌, Bool-cases, arith,
}
use egeism.Domain.Learning.{
  SubjectCode, math, manual, task_rules, RecentNumber, by_number, is_ready, all_ready_from, climb,
  training_ceiling,
}

-- Each of the numbers from 1 to n meets the prerequisite.
abbrev pub AllReady : (ℕ → RecentNumber) → ℕ → Type 0
AllReady m n = (k : ℕ) → 0 < k → k ≤ n → is_ready (m k) ≡ true

all_ready_from_sound :
    (m : ℕ → RecentNumber) (count n : ℕ)
    → all_ready_from m count n ≡ true
    → (k : ℕ) → n ≤ k
    → k < n + count
    → is_ready (m k) ≡ true
unfolding all_ready_from
all_ready_from_sound m zero n h k l u = absurd (omega arith)
all_ready_from_sound m (suc count) n h k l u = elim (ℕ_discrete k n) [
  | yes e ↦ rw e (ground arith)
  | no other ↦ all_ready_from_sound m count (n + 1) (ground arith) k (omega arith) (omega arith)
]

-- A number of the range that is not ready.
abbrev pub Unready : (ℕ → RecentNumber) → ℕ → ℕ → Type 0
Unready m n u = (k : ℕ) × (n ≤ k) × (k < u) × (is_ready (m k) ≡ false)

all_ready_from_complete :
    (m : ℕ → RecentNumber) (count n : ℕ)
    → all_ready_from m count n ≡ false
    → Unready m n (n + count)
unfolding all_ready_from
all_ready_from_complete m zero n h = cc
all_ready_from_complete m (suc count) n h = elim (Bool-cases (is_ready (m n))) [
  | inl e ↦
      let (k, l, u, f) = all_ready_from_complete m count (n + 1) (ground arith) in
      (k, omega arith, omega arith, f)
  | inr e ↦ (n, omega arith, omega arith, e)
]

module _ (m : ℕ → RecentNumber) (last : ℕ) where
  -- A ceiling is a whole number of stages, each of three numbers.
  climb_stages : (fuel k : ℕ) → (j : ℕ) × (climb m last fuel (3 * k) ≡ 3 * j) × (k ≤ j)
  unfolding climb
  climb_stages zero k = (k, refl, omega arith)
  climb_stages (suc fuel) k =
      let (j, e, l) = climb_stages fuel (k + 1) in
      let e' : climb m last fuel (3 * k + 3) ≡ 3 * j = rw (stage_suc k) e in
      elim (Bool-cases (ltb (3 * k) last && all_ready_from m (3 * k) 1)) [
        | inl h ↦ (j, ground arith, omega arith)
        | inr h ↦ (k, ground arith, omega arith)
      ]
    where
      stage_suc : (k : ℕ) → 3 * k + 3 ≡ 3 * (k + 1)
      stage_suc k = omega arith

  abbrev goes_on : ℕ → Bool
  goes_on s = ltb s last && all_ready_from m s 1

  climb_on : (fuel s : ℕ) → goes_on s ≡ true → climb m last (suc fuel) s ≡ climb m last fuel (s + 3)
  unfolding climb
  climb_on fuel s h = ground arith

  climb_off : (fuel s : ℕ) → goes_on s ≡ false → climb m last (suc fuel) s ≡ s
  unfolding climb
  climb_off fuel s h = ground arith

  goes_on-AllReady : (s : ℕ) → goes_on s ≡ true → AllReady m s
  goes_on-AllReady s h k l u =
      all_ready_from_sound m s 1 (ground arith) k (omega arith) (omega arith)

  climb-AllReady : (fuel s : ℕ) → AllReady m s → AllReady m (climb m last fuel (s + 3) - 3)
  unfolding climb
  climb-AllReady zero s h = rw add-sub_cancel h
  climb-AllReady (suc fuel) s h = elim (Bool-cases (goes_on (s + 3))) [
    | inl e ↦
        rw (climb_on fuel (s + 3) e) (climb-AllReady fuel (s + 3) (goes_on-AllReady (s + 3) e))
    | inr e ↦ rw (climb_off fuel (s + 3) e, add-sub_cancel) h
  ]

  climb-le : (fuel s : ℕ) → s < last + 3 → climb m last fuel s < last + 3
  unfolding climb
  climb-le zero s h = h
  climb-le (suc fuel) s h = ground (arith, climb-le fuel (s + 3))

  le-climb : (fuel s : ℕ) → s ≤ climb m last fuel s
  unfolding climb
  le-climb zero s = omega arith
  le-climb (suc fuel) s = ground (arith, le-climb fuel (s + 3))

  climb_stops :
      (fuel s : ℕ)
      → last ≤ s + 3 * fuel
      → climb m last fuel s < last
      → Unready m 1 (1 + climb m last fuel s)
  unfolding climb
  climb_stops zero s h l = absurd (omega arith)
  climb_stops (suc fuel) s h l = elim (Bool-cases (goes_on s)) [
    | inl e ↦
        rw (climb_on fuel s e)
          (climb_stops fuel (s + 3) (omega arith) (rw (climb_on fuel s e) at l))
    | inr e ↦
        let l' = rw (climb_off fuel s e) at l in
        rw (climb_off fuel s e) (all_ready_from_complete m s 1 (ground (arith, lt→ltb s last l')))
  ]

-- The numbers open in threes: if a number above 3 * j is open then each of 1 to 3 * j meets the
-- prerequisite. The first three, as far as the exam has them, are open, and no number past the last.
pub training_ceiling_opens :
    (stats : List RecentNumber) (last j : ℕ)
    → 3 * j < training_ceiling stats last
    → (min 3 last ≤ training_ceiling stats last)
      × (training_ceiling stats last ≤ last)
      × AllReady (by_number stats) (3 * j)
unfolding training_ceiling
training_ceiling_opens stats last j h =
    let m = by_number stats in
    let c = climb m last last 3 in
    let (i, e, l) = climb_stages m last last 1 in
    let low = le-climb m last last 3 in
    let ready = climb-AllReady m last last 0 (λ k a b. absurd (omega arith)) in
    (ground arith, ground arith, λ k a b. ready k a (ground arith))

-- The ceiling is the highest that the rule allows: below the last number it stays only because one
-- of the open numbers misses the prerequisite. So the rounds counted are enough.
pub training_ceiling_stops :
    (stats : List RecentNumber) (last : ℕ)
    → training_ceiling stats last < last
    → Unready (by_number stats) 1 (1 + training_ceiling stats last)
unfolding training_ceiling
training_ceiling_stops stats last h =
    let m = by_number stats in
    let stop = climb_stops m last last 3 (omega arith) in
    elim (Bool-cases (ltb last (climb m last last 3))) [
      | inl e ↦ absurd (ground arith)
      | inr e ↦ rw (e, training_ceiling) (stop (ground arith))
    ]

-- A manually graded task, of the second part of the mathematics exam, is open only to a student who
-- meets the prerequisite on each of the numbers 1 to 12.
pub manual_after_twelve :
    (subject : SubjectCode) (stats : List RecentNumber) (last number : ℕ)
    → (task_rules subject number).grading_mode ≡ manual
    → number ≤ training_ceiling stats last
    → AllReady (by_number stats) 12
unfolding task_rules
manual_after_twelve subject stats last number g h =
    (training_ceiling_opens stats last 4 (ground arith)).2

-- The rules of a task number: the maximum is from 1 to 4 points, more than 1 exactly for the second
-- part, which is the manually graded one and has numbers 13 to 19 of the mathematics exam alone.
pub task_rules_parts :
    (subject : SubjectCode) (number : ℕ)
    → let r = task_rules subject number in
      (0 < r.max_points)
      × (r.max_points ≤ 4)
      × ((r.part ≡ 2) ↔ (1 < r.max_points))
      × ((r.grading_mode ≡ manual) ↔ (1 < r.max_points))
      × ((1 < r.max_points) ↔ ((subject ≡ math) × (12 < number) × (number < 20)))
unfolding task_rules
task_rules_parts subject number = ground arith
