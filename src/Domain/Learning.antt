-- ===== src/Domain/Learning.antt =====
-- internal/domain/learning.go: the exam rules of a task number, and the ceiling of a student's
-- training. The map from numbers to rows is the last row of the number, or the zero row.
use egeism.Base.{
  ℕ, zero, suc, ◌+◌, ◌*◌, ◌==◌, ltb, leb, Bool, true, false, not, ◌&&◌, ◌||◌, List, [], ◌∷◌,
  if◌then◌else◌,
}

-- internal/domain/entities.go.
pub data SubjectCode : Type 0 where
  rus math inf soc : SubjectCode

pub data GradingMode : Type 0 where
  auto manual : GradingMode

pub record Rules : Type 0 where
  pub part : ℕ
  pub grading_mode : GradingMode
  pub max_points : ℕ

abbrev pub is_math : SubjectCode → Bool
is_math math = true
is_math _ = false

unfoldable pub task_rules : SubjectCode → ℕ → Rules
task_rules subject number =
    if is_math subject && leb 13 number && leb number 19
    then (let points : ℕ = 2 in
        let points' = if (number == 14) || (number == 17) then 3 else points in
        let points'' = if leb 18 number then 4 else points' in
        record { part = 2; grading_mode = manual; max_points = points'' })
    else record { part = 1; grading_mode = auto; max_points = 1 }

pub record RecentNumber : Type 0 where
  pub number : ℕ
  pub total : ℕ
  pub correct : ℕ

abbrev zero_row : RecentNumber
zero_row = record { number = 0; total = 0; correct = 0 }

-- The map that the first loop builds: a later row of a number replaces an earlier one.
unfoldable pub by_number_from : (ℕ → RecentNumber) → List RecentNumber → ℕ → RecentNumber
by_number_from m [] n = m n
by_number_from m (row ∷ rows) n = by_number_from (λ k. if row.number == k then row else m k) rows n

unfoldable pub by_number : List RecentNumber → ℕ → RecentNumber
by_number rows = by_number_from (λ n. zero_row) rows

-- At least five graded answers, and 80 percent of them right.
unfoldable pub is_ready : RecentNumber → Bool
is_ready s = not (ltb s.total 5 || ltb (s.correct * 5) (s.total * 4))

-- The inner loop, over `count` numbers from n.
unfoldable pub all_ready_from : (ℕ → RecentNumber) → ℕ → ℕ → Bool
all_ready_from m zero n = true
all_ready_from m (suc count) n = if is_ready (m n) then all_ready_from m count (n + 1) else false

-- The outer loop, with fuel for its rounds.
unfoldable pub climb : (ℕ → RecentNumber) → ℕ → ℕ → ℕ → ℕ
climb m last zero ceiling = ceiling
climb m last (suc fuel) ceiling =
    let next = climb m last fuel (ceiling + 3) in
    if ltb ceiling last then (if all_ready_from m ceiling 1 then next else ceiling) else ceiling

-- Each round opens three numbers, so `last_number` rounds are enough.
unfoldable pub training_ceiling : List RecentNumber → ℕ → ℕ
training_ceiling stats last_number =
    let ceiling = climb (by_number stats) last_number last_number 3 in
    if ltb last_number ceiling then last_number else ceiling
