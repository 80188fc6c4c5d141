-- ===== src/Practice/Session.antt =====
-- internal/api/practice.go: the limit of a list, the merge of the sources of a session, and the
-- interleaving of task numbers. A `map[uuid.UUID]bool` used as a set is the list of its keys.
use egeism.Base.{
  ℕ, zero, suc, ◌+◌, ◌-◌, ◌==◌, leb, max, none, some, List, [], ◌∷◌, ◌++◌, length, filter,
  get_elem?, mem, if◌then◌else◌,
}
use egeism.Base.Int.{ℤ, pos, pos_part, ltb_ℤ}
use egeism.Domain.Entities.{Task}

-- `limit` is what ?limit= gives, `def` where it is missing.
unfoldable pub practice_limit : ℤ → ℕ → ℕ → ℕ
practice_limit limit def most =
    if ltb_ℤ limit (pos 1) then def else (if ltb_ℤ (pos most) limit then most else pos_part limit)

-- How a loop over one group ends: by the return of the function, or going on with the next group.
pub data Loop : Type 0 where
  returned : (out : List Task) → Loop
  going : (seen : List ℕ) (out : List Task) → Loop

unfoldable pub plan_group : ℕ → List ℕ → List Task → List Task → Loop
plan_group limit seen out [] = going seen out
plan_group limit seen out (t ∷ ts) =
    let skipped = plan_group limit seen out ts in
    let taken = plan_group limit (t.id ∷ seen) (out ++ t ∷ []) ts in
    if leb limit (length out) then returned out else (if mem t.id seen then skipped else taken)

unfoldable pub plan_groups : ℕ → List ℕ → List Task → List (List Task) → List Task
plan_groups limit seen out [] = out
plan_groups limit seen out (g ∷ gs) = elim (plan_group limit seen out g) [
  | returned final ↦ final
  | going seen' out' ↦ plan_groups limit seen' out' gs
]

unfoldable pub recommend_plan : List Task → List Task → List Task → ℕ → List Task
recommend_plan mistakes weak fresh limit =
    plan_groups (if limit == 0 then 12 else limit) [] [] (mistakes ∷ weak ∷ fresh ∷ [])

-- pools[n], in the order of the tasks.
unfoldable pub pool : List Task → ℕ → List Task
pool tasks n = filter (λ t. t.number == n) tasks

-- The numbers from n on, `count` of them.
unfoldable pub numbers_from : ℕ → ℕ → List ℕ
numbers_from n zero = []
numbers_from n (suc count) = n ∷ numbers_from (n + 1) count

-- The last three numbers up to the ceiling, then those below.
unfoldable pub number_order : ℕ → List ℕ
number_order ceiling =
    let start = max 1 (ceiling - 2) in
    numbers_from start (ceiling + 1 - start) ++ numbers_from 1 (start - 1)

-- One pass over the order at a depth.
unfoldable pub pass : List Task → List ℕ → ℕ → List Task
pass tasks [] depth = []
pass tasks (n ∷ ns) depth = elim (get_elem? (pool tasks n) depth) [
  | none ↦ pass tasks ns depth
  | some t ↦ t ∷ pass tasks ns depth
]

-- The loop over the depths ends at the first pass that adds nothing.
unfoldable pub passes : List Task → List ℕ → ℕ → ℕ → List Task
passes tasks order zero depth = []
passes tasks order (suc fuel) depth =
    let rest = passes tasks order fuel (depth + 1) in
    elim (pass tasks order depth) [ [] ↦ [] | t ∷ ts ↦ (t ∷ ts) ++ rest ]

-- A pool is no longer than the list of tasks, so one pass more than there are tasks is enough.
unfoldable pub interleave_numbers : List Task → ℕ → List Task
interleave_numbers tasks ceiling = passes tasks (number_order ceiling) (suc (length tasks)) 0
