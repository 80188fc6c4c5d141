-- ===== src/Variants/Composed.antt =====
-- No task twice in a composed variant.
use egeism.Base.{
  ℕ, zero, suc, ◌+◌, ◌≤◌, ◌≡◌, ◌≢◌, refl, inl, inr, ◌==◌, ==_refl, Bool, true, false, not, ◌||◌,
  List, [], ◌∷◌, map, take, filter, mem, mem-append, occurrences, IsDistinct, IsDistinct-append,
  IsDistinct-occurrences, Bool-cases, arith,
}
use egeism.Base.Int.{pos, pos_part, ltb_ℤ}
use egeism.Domain.Entities.{Task}
use egeism.Attempts.Tables.{Db}
use egeism.Variants.Assemble.{
  Draw, Shuffles, task_ids, is_eligible, random_tasks, Slot, add_need, slot_needs, draw_needs,
  composed_tasks,
}

abbrev needed : List (ℕ × ℕ) → List ℕ
needed needs = map (λ e. e.0) needs

-- Keys that occur once at most are distinct, and the other way round.
pub mem-occurrences : (k : ℕ) (ks : List ℕ) → mem k ks ≡ not (occurrences k ks == 0)
mem-occurrences k [] = refl
mem-occurrences k (j ∷ js) = ground (arith, mem-occurrences k js)

once-IsDistinct : (ks : List ℕ) → ((k : ℕ) → occurrences k ks ≤ 1) → IsDistinct ks
once-IsDistinct [] h = tt
once-IsDistinct (j ∷ js) h = (
  ground (arith, h j, mem-occurrences j js, ==_refl j),
  once-IsDistinct js (λ k. omega (arith, h k)),
)

occurrences-take : (k n : ℕ) (ks : List ℕ) → occurrences k (take n ks) ≤ occurrences k ks
occurrences-take k zero ks = omega arith
occurrences-take k (suc n) [] = omega arith
occurrences-take k (suc n) (j ∷ js) = omega (arith, occurrences-take k n js)

pub occurrences-filter :
    (k : ℕ) (p : Task → Bool) (ts : List Task)
    → occurrences k (task_ids (filter p ts)) ≤ occurrences k (task_ids ts)
occurrences-filter k p [] = omega arith
occurrences-filter k p (t ∷ ts) = ground (arith, occurrences-filter k p ts)

-- A drawn id occurs no more often than among the eligible tasks.
pub random_tasks-occurrences :
    (d : Draw) (db : Db) (subject_id n limit k : ℕ)
    → Shuffles d
    → occurrences k (random_tasks d db subject_id n limit)
      ≤ occurrences k (task_ids (filter (is_eligible d subject_id n) db.tasks))
unfolding random_tasks
random_tasks-occurrences d db subject_id n limit k s =
    let eligible = filter (is_eligible d subject_id n) db.tasks in
    omega (arith, occurrences-take k limit (task_ids (d.shuffle eligible)), s k eligible)

random_tasks-IsDistinct :
    (d : Draw) (db : Db) (subject_id n limit : ℕ)
    → Shuffles d
    → IsDistinct (task_ids db.tasks)
    → IsDistinct (random_tasks d db subject_id n limit)
random_tasks-IsDistinct d db subject_id n limit s u =
    once-IsDistinct (random_tasks d db subject_id n limit) (λ k. omega (
      arith,
      random_tasks-occurrences d db subject_id n limit k s,
      occurrences-filter k (is_eligible d subject_id n) db.tasks,
      IsDistinct-occurrences k (task_ids db.tasks) u,
    ))

-- The tasks with the id k among those of two numbers are at most those with the id.
two_numbers :
    (d : Draw) (subject_id n m k : ℕ) (ts : List Task)
    → n ≢ m
    → occurrences k (task_ids (filter (is_eligible d subject_id n) ts))
        + occurrences k (task_ids (filter (is_eligible d subject_id m) ts))
      ≤ occurrences k (task_ids ts)
two_numbers d subject_id n m k [] ne = omega arith
two_numbers d subject_id n m k (t ∷ ts) ne = ground (arith, two_numbers d subject_id n m k ts ne)

random_tasks-apart :
    (d : Draw) (db : Db) (subject_id n limit m limit' k : ℕ)
    → Shuffles d
    → IsDistinct (task_ids db.tasks)
    → n ≢ m
    → mem k (random_tasks d db subject_id n limit) ≡ true
    → mem k (random_tasks d db subject_id m limit') ≡ false
random_tasks-apart d db subject_id n limit m limit' k s u ne h = ground (
  arith,
  mem-occurrences k (random_tasks d db subject_id n limit),
  mem-occurrences k (random_tasks d db subject_id m limit'),
  random_tasks-occurrences d db subject_id n limit k s,
  random_tasks-occurrences d db subject_id m limit' k s,
  two_numbers d subject_id n m k db.tasks ne,
  IsDistinct-occurrences k (task_ids db.tasks) u,
)

draw_needs-apart :
    (d : Draw) (db : Db) (subject_id n limit k : ℕ) (needs : List (ℕ × ℕ))
    → Shuffles d
    → IsDistinct (task_ids db.tasks)
    → mem n (needed needs) ≡ false
    → mem k (random_tasks d db subject_id n limit) ≡ true
    → mem k (draw_needs d db subject_id needs) ≡ false
unfolding draw_needs
draw_needs-apart d db subject_id n limit k [] s u a h = refl
draw_needs-apart d db subject_id n limit k ((m, c) ∷ needs) s u a h =
    let ne : n ≢ m = λ e. ground (arith, ==_refl n) in
    ground (
      arith,
      mem-append k (random_tasks d db subject_id m c) (draw_needs d db subject_id needs),
      random_tasks-apart d db subject_id n limit m c k s u ne h,
      draw_needs-apart d db subject_id n limit k needs s u (ground arith) h,
    )

draw_needs-IsDistinct :
    (d : Draw) (db : Db) (subject_id : ℕ) (needs : List (ℕ × ℕ))
    → Shuffles d
    → IsDistinct (task_ids db.tasks)
    → IsDistinct (needed needs)
    → IsDistinct (draw_needs d db subject_id needs)
unfolding draw_needs
draw_needs-IsDistinct d db subject_id [] s u h = tt
draw_needs-IsDistinct d db subject_id ((n, c) ∷ needs) s u h =
    IsDistinct-append (random_tasks d db subject_id n c) (draw_needs d db subject_id needs)
      (random_tasks-IsDistinct d db subject_id n c s u)
      (draw_needs-IsDistinct d db subject_id needs s u h.1)
      (λ k m. draw_needs-apart d db subject_id n c k needs s u h.0 m)

add_need-mem :
    (k n c : ℕ) (needs : List (ℕ × ℕ))
    → mem k (needed (add_need n c needs)) ≡ (mem k (needed needs) || (k == n))
unfolding add_need
add_need-mem k n c [] = ground arith
add_need-mem k n c ((m, e) ∷ needs) = ground (arith, add_need-mem k n c needs)

add_need-IsDistinct :
    (n c : ℕ) (needs : List (ℕ × ℕ))
    → IsDistinct (needed needs)
    → IsDistinct (needed (add_need n c needs))
unfolding add_need
add_need-IsDistinct n c [] h = (refl, tt)
add_need-IsDistinct n c ((m, e) ∷ needs) h =
    ground (arith, add_need-IsDistinct n c needs h.1, add_need-mem m n c needs)

slot_needs-IsDistinct :
    (needs : List (ℕ × ℕ)) (slots : List Slot)
    → IsDistinct (needed needs)
    → IsDistinct (needed (slot_needs needs slots))
unfolding slot_needs
slot_needs-IsDistinct needs [] h = h
slot_needs-IsDistinct needs (sl ∷ slots) h = elim (Bool-cases (ltb_ℤ (pos 0) sl.count)) [
  | inl e ↦ rw e (
      slot_needs-IsDistinct (add_need sl.number (pos_part sl.count) needs) slots
        (add_need-IsDistinct sl.number (pos_part sl.count) needs h))
  | inr e ↦ rw e (slot_needs-IsDistinct needs slots h)
]

-- A composed variant holds no task twice, whatever slots are asked for, a number in several of them
-- too. The ids of the bank's tasks are distinct, and a random order keeps the rows.
pub composed_tasks-IsDistinct :
    (d : Draw) (db : Db) (subject_id : ℕ) (slots : List Slot)
    → Shuffles d
    → IsDistinct (task_ids db.tasks)
    → IsDistinct (composed_tasks d db subject_id slots)
unfolding composed_tasks
composed_tasks-IsDistinct d db subject_id slots s u =
    draw_needs-IsDistinct d db subject_id (slot_needs [] slots) s u
      (slot_needs-IsDistinct [] slots tt)
