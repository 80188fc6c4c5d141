-- ===== src/Variants/Clones.antt =====
-- A clone of a test has the numbers of the test.
use mathlib.Core.Path.{subst}
use egeism.Base.{
  ℕ, ◌≡◌, refl, sym, inl, inr, ◌==◌, ==_refl, Bool, true, Option, none, some, List, [], ◌∷◌, map,
  filter, find, mem, IsDistinct, All, Bool-cases, Option-cases, List-cases, arith,
}
use egeism.Domain.Entities.{Task}
use egeism.Attempts.Tables.{
  Db, Test, TestItem, ok, Result-cases, get_task, join_tasks, list_test_items, sort_items,
}
use egeism.Variants.Assemble.{
  Draw, Shuffles, task_ids, is_eligible, random_tasks, item_needs, draw_pools, set_pool, fill,
  clone_tasks,
}
use egeism.Variants.Composed.{mem-occurrences, random_tasks-occurrences, occurrences-filter}

abbrev number_found : Option Task → Option ℕ
number_found none = none
number_found (some t) = some t.number

-- The number of the task with this id.
pub number_of : Db → ℕ → Option ℕ
number_of db k = number_found (get_task db k)

abbrev IsNumbered : Db → ℕ → ℕ → Type 0
IsNumbered db n k = number_of db k ≡ some n

All-from-mem {κ} : (P : ℕ → Type κ) (ks : List ℕ) → ((k : ℕ) → mem k ks ≡ true → P k) → All P ks
All-from-mem P [] h = tt
All-from-mem P (k ∷ ks) h =
    (h k (ground (arith, ==_refl k)), All-from-mem P ks (λ j m. h j (ground arith)))

filter-find :
    (p : Task → Bool) (k : ℕ) (ts : List Task)
    → IsDistinct (task_ids ts)
    → mem k (task_ids (filter p ts)) ≡ true
    → (t : Task) × (find (λ t. t.id == k) ts ≡ some t) × (p t ≡ true)
filter-find p k [] u h = absurd (ground arith)
filter-find p k (t ∷ ts) u h = elim (Bool-cases (t.id == k)) [
  | inl e ↦ elim (Bool-cases (p t)) [
    | inl q ↦ (t, ground arith, q)
    | inr q ↦
        let out = occurrences-filter k p ts in
        absurd (
          ground
            (arith, mem-occurrences k (task_ids ts), mem-occurrences k (task_ids (filter p ts))))
  ]
  | inr e ↦ let (t', f, q) = filter-find p k ts u.1 (ground arith) in (t', ground arith, q)
]

random_tasks-IsNumbered :
    (d : Draw) (db : Db) (subject_id n limit : ℕ)
    → Shuffles d
    → IsDistinct (task_ids db.tasks)
    → All (IsNumbered db n) (random_tasks d db subject_id n limit)
unfolding number_of get_task
random_tasks-IsNumbered d db subject_id n limit s u =
    let eligible = is_eligible d subject_id n in
    All-from-mem (IsNumbered db n) (random_tasks d db subject_id n limit) (λ k m.
      let inside : mem k (task_ids (filter eligible db.tasks)) ≡ true = ground (
        arith,
        mem-occurrences k (random_tasks d db subject_id n limit),
        mem-occurrences k (task_ids (filter eligible db.tasks)),
        random_tasks-occurrences d db subject_id n limit k s,
      ) in
      let (t, f, q) = filter-find eligible k db.tasks u inside in rw f (ground arith))

-- Every pool holds tasks of its number.
abbrev IsSorted : Db → (ℕ → List ℕ) → Type 0
IsSorted db pools = (n : ℕ) → All (IsNumbered db n) (pools n)

draw_pools-IsSorted :
    (d : Draw) (db : Db) (subject_id : ℕ) (needs : List (ℕ × ℕ))
    → Shuffles d
    → IsDistinct (task_ids db.tasks)
    → IsSorted db (draw_pools d db subject_id needs)
unfolding draw_pools
draw_pools-IsSorted d db subject_id [] s u n = tt
draw_pools-IsSorted d db subject_id ((m, c) ∷ needs) s u n = elim (Bool-cases (m == n)) [
  | inl e ↦
      let same : m ≡ n = ground arith in
      rw (e, sym same) (random_tasks-IsNumbered d db subject_id m c s u)
  | inr e ↦ rw e (draw_pools-IsSorted d db subject_id needs s u n)
]

set_pool-IsSorted :
    (db : Db) (m : ℕ) (ids : List ℕ) (pools : ℕ → List ℕ)
    → IsSorted db pools
    → All (IsNumbered db m) ids
    → IsSorted db (set_pool m ids pools)
set_pool-IsSorted db m ids pools s a n = elim (Bool-cases (n == m)) [
  | inl e ↦ let same : n ≡ m = ground arith in rw (e, same) a
  | inr e ↦ rw e (s n)
]

abbrev IsRow : Db → Task → Type 0
IsRow db t = number_of db t.id ≡ some t.number

fill-numbers :
    (d : Draw) (db : Db) (pools : ℕ → List ℕ) (items : List Task) (ids : List ℕ)
    → IsSorted db pools
    → All (IsRow db) items
    → fill d db pools items ≡ ok ids
    → map (number_of db) ids ≡ map (λ t. some t.number) items
unfolding fill
fill-numbers d db pools [] ids s r h = ground arith
fill-numbers d db pools (it ∷ items) ids s r h = elim (List-cases (pools it.number)) [
  | inl e ↦ elim (Result-cases (fill d db pools items)) [
    | inl (x, f) ↦ absurd (ground arith)
    | inr (more, f) ↦
        let is : ids ≡ it.id ∷ more = ground arith in
        rw (is, r.0, fill-numbers d db pools items more s r.1 f) refl
  ]
  | inr (k, ks, e) ↦
      let numbered : All (IsNumbered db it.number) (k ∷ ks) =
        subst (All (IsNumbered db it.number)) e (s it.number) in
      elim (Result-cases (fill d db (set_pool it.number ks pools) items)) [
        | inl (x, f) ↦ absurd (ground arith)
        | inr (more, f) ↦
            let is : ids ≡ k ∷ more = ground arith in
            let later =
              fill-numbers d db (set_pool it.number ks pools) items more
                (set_pool-IsSorted db it.number ks pools s numbered.1) r.1 f in
            rw (is, numbered.0, later) refl
      ]
]

found-id : (k : ℕ) (ts : List Task) (t : Task) → find (λ t. t.id == k) ts ≡ some t → t.id ≡ k
found-id k [] t h = cc
found-id k (x ∷ ts) t h = ground (arith, found-id k ts t)

found-IsRow : (db : Db) (k : ℕ) (t : Task) → get_task db k ≡ some t → IsRow db t
unfolding number_of get_task
found-IsRow db k t e = rw (found-id k db.tasks t e, e) refl

join_tasks-IsRow : (db : Db) (items : List TestItem) → All (IsRow db) (join_tasks db items)
unfolding join_tasks
join_tasks-IsRow db [] = tt
join_tasks-IsRow db (i ∷ is) = elim (Option-cases (get_task db i.task_id)) [
  | inl e ↦ rw (e, join_tasks, All) (join_tasks-IsRow db is)
  | inr (t, e) ↦ rw (e, join_tasks, All) (found-IsRow db i.task_id t e, join_tasks-IsRow db is)
]

-- A clone of a test has a task for each item of the test, in the same order and of the same number,
-- also where the bank runs short. The ids of the bank's tasks are distinct, and a random order keeps
-- the rows.
pub clone_tasks-numbers :
    (d : Draw) (db : Db) (source : Test) (ids : List ℕ)
    → Shuffles d
    → IsDistinct (task_ids db.tasks)
    → clone_tasks d db source ≡ ok ids
    → map (number_of db) ids ≡ map (λ t. some t.number) (list_test_items db source.id)
unfolding clone_tasks
clone_tasks-numbers d db source ids s u h =
    let items = list_test_items db source.id in
    let rows : All (IsRow db) items =
      unfold list_test_items in
      join_tasks-IsRow db (sort_items (filter (λ i. i.test_id == source.id) db.items)) in
    fill-numbers d db (draw_pools d db source.subject_id (item_needs [] items)) items ids
      (draw_pools-IsSorted d db source.subject_id (item_needs [] items) s u) rows (ground arith)
