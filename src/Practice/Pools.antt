-- ===== src/Practice/Pools.antt =====
-- The interleaving of task numbers.
use native.Mathlib.Numerals.{add-one}
use native.Mathlib.Decide.{ℕ_discrete}
use egeism.Base.{
  ℕ, zero, suc, ◌+◌, ◌-◌, ◌≤◌, max, ◌≡◌, refl, sym, ap, ◌∙◌, inl, inr, Bool, false, ◌&&◌, Option,
  none, some, List, [], ◌∷◌, length, count, count-append, count-le_length, length-filter, get_elem?,
  mem, mem-append, IsDistinct, IsDistinct-append, ◌==◌, leb, ltb, if◌then◌else◌, List-cases, arith,
}
use egeism.Domain.Entities.{Task}
use egeism.Practice.Session.{pool, numbers_from, number_order, pass, passes, interleave_numbers}

-- The elements from an index on.
abbrev drop : ℕ → List Task → List Task
drop zero xs = xs
drop (suc n) [] = []
drop (suc n) (x ∷ xs) = drop n xs

module _ (p : Task → Bool) (tasks : List Task) where
  -- How many tasks with the property are in the pools of the numbers, from a depth on.
  left : List ℕ → ℕ → ℕ
  left [] depth = 0
  left (n ∷ ns) depth = count p (drop depth (pool tasks n)) + left ns depth

  abbrev weight : Option Task → ℕ
  weight none = 0
  weight (some t) = if p t then 1 else 0

  count-drop :
      (xs : List Task) (d : ℕ)
      → count p (drop d xs) ≡ weight (get_elem? xs d) + count p (drop (suc d) xs)
  count-drop [] zero = refl
  count-drop [] (suc d) = refl
  count-drop (x ∷ xs) zero = ground arith
  count-drop (x ∷ xs) (suc d) = count-drop xs d

  -- A pass takes from each pool the task at its depth.
  left-pass :
      (ns : List ℕ) (depth : ℕ)
      → left ns depth ≡ count p (pass tasks ns depth) + left ns (suc depth)
  unfolding left pass
  left-pass [] depth = omega arith
  left-pass (n ∷ ns) depth = ground (arith, count-drop (pool tasks n) depth, left-pass ns depth)

  drop-nil : (xs : List Task) (d : ℕ) → get_elem? xs d ≡ none → count p (drop d xs) ≡ 0
  drop-nil [] zero h = refl
  drop-nil [] (suc d) h = refl
  drop-nil (x ∷ xs) zero h = cc
  drop-nil (x ∷ xs) (suc d) h = drop-nil xs d h

  -- A pass that adds nothing leaves nothing behind.
  left_idle : (ns : List ℕ) (depth : ℕ) → pass tasks ns depth ≡ [] → left ns depth ≡ 0
  unfolding left pass
  left_idle [] depth h = refl
  left_idle (n ∷ ns) depth h = ground (arith, drop-nil (pool tasks n) depth, left_idle ns depth)

  drop-long : (xs : List Task) (d : ℕ) → length xs ≤ d → count p (drop d xs) ≡ 0
  drop-long [] zero h = refl
  drop-long [] (suc d) h = refl
  drop-long (x ∷ xs) zero h = absurd (omega arith)
  drop-long (x ∷ xs) (suc d) h = drop-long xs d (omega arith)

  length-pool : (n : ℕ) → length (pool tasks n) ≤ length tasks
  unfolding pool
  length-pool n = omega (
    arith,
    length-filter (λ (t : Task). t.number == n) tasks,
    count-le_length (λ (t : Task). t.number == n) tasks,
  )

  left_done : (ns : List ℕ) (depth : ℕ) → length tasks ≤ depth → left ns depth ≡ 0
  unfolding left
  left_done [] depth h = refl
  left_done (n ∷ ns) depth h = omega (
    arith,
    left_done ns depth h,
    length-pool n,
    drop-long (pool tasks n) depth (omega (arith, length-pool n)),
  )

  -- With as many passes as the longest pool wants, every task of the pools is taken.
  passes-left :
      (ns : List ℕ) (fuel depth : ℕ)
      → length tasks ≤ depth + fuel
      → count p (passes tasks ns fuel depth) ≡ left ns depth
  unfolding passes
  passes-left ns zero depth h = sym (left_done ns depth (omega arith))
  passes-left ns (suc fuel) depth h = elim (List-cases (pass tasks ns depth)) [
    | inl e ↦ rw (e, passes) (sym (left_idle ns depth e))
    | inr (t, ts, e) ↦
        rw (e, passes)
          (omega (
            arith,
            left-pass ns depth,
            ap (count p) e,
            count-append p (t ∷ ts) (passes tasks ns fuel (depth + 1)),
            passes-left ns fuel (depth + 1) (omega arith),
            ap (left ns) (add-one depth),
          ))
  ]

-- The tasks of a number, and those of the other numbers.
count_split :
    (p : Task → Bool) (tasks : List Task) (n : ℕ) (ns : List ℕ)
    → mem n ns ≡ false
    → count (λ t. p t && mem t.number (n ∷ ns)) tasks
      ≡ count p (pool tasks n) + count (λ t. p t && mem t.number ns) tasks
unfolding pool
count_split p [] n ns h = refl
count_split p (t ∷ ts) n ns h = elim (ℕ_discrete t.number n) [
  | yes e ↦ ground (arith, count_split p ts n ns h, ap (λ k. mem k ns) e)
  | no other ↦ ground (arith, count_split p ts n ns h)
]

count_none : (p : Task → Bool) (tasks : List Task) → count (λ t. p t && false) tasks ≡ 0
count_none p [] = refl
count_none p (t ∷ ts) = ground (arith, count_none p ts)

left-count :
    (p : Task → Bool) (tasks : List Task) (ns : List ℕ)
    → IsDistinct ns
    → left p tasks ns 0 ≡ count (λ t. p t && mem t.number ns) tasks
unfolding left
left-count p tasks [] d = sym (count_none p tasks)
left-count p tasks (n ∷ ns) d =
    omega (arith, count_split p tasks n ns d.0, left-count p tasks ns d.1)

numbers_from-mem : (k n count : ℕ) → mem k (numbers_from n count) ≡ (leb n k && ltb k (n + count))
unfolding numbers_from
numbers_from-mem k n zero = ground arith
numbers_from-mem k n (suc count) = ground (arith, numbers_from-mem k (n + 1) count)

numbers_from-IsDistinct : (n count : ℕ) → IsDistinct (numbers_from n count)
unfolding numbers_from
numbers_from-IsDistinct n zero = tt
numbers_from-IsDistinct n (suc count) =
    (ground (arith, numbers_from-mem n (n + 1) count), numbers_from-IsDistinct (n + 1) count)

number_order-mem : (k ceiling : ℕ) → mem k (number_order ceiling) ≡ (leb 1 k && leb k ceiling)
unfolding number_order
number_order-mem k ceiling =
    let start = max 1 (ceiling - 2) in
    ground (
      arith,
      mem-append k (numbers_from start (ceiling + 1 - start)) (numbers_from 1 (start - 1)),
      numbers_from-mem k start (ceiling + 1 - start),
      numbers_from-mem k 1 (start - 1),
    )

number_order-IsDistinct : (ceiling : ℕ) → IsDistinct (number_order ceiling)
unfolding number_order
number_order-IsDistinct ceiling =
    let start = max 1 (ceiling - 2) in
    IsDistinct-append (numbers_from start (ceiling + 1 - start)) (numbers_from 1 (start - 1))
      (numbers_from-IsDistinct start (ceiling + 1 - start)) (numbers_from-IsDistinct 1 (start - 1))
      (λ k m.
        ground
          (arith, numbers_from-mem k start (ceiling + 1 - start), numbers_from-mem k 1 (start - 1)))

count_ext :
    (p q : Task → Bool) (tasks : List Task)
    → ((t : Task) → p t ≡ q t)
    → count p tasks ≡ count q tasks
count_ext p q [] h = refl
count_ext p q (t ∷ ts) h = ground (arith, h t, count_ext p q ts h)

-- Interleaving only reorders: of the tasks with any property, the result has as many as there are
-- among the given tasks with a number from 1 to the ceiling, and it has no others. So no task of an
-- open number is lost or doubled, and the passes counted are enough.
pub interleave_numbers-count :
    (p : Task → Bool) (tasks : List Task) (ceiling : ℕ)
    → count p (interleave_numbers tasks ceiling)
      ≡ count (λ t. p t && (leb 1 t.number && leb t.number ceiling)) tasks
unfolding interleave_numbers
interleave_numbers-count p tasks ceiling =
    passes-left p tasks (number_order ceiling) (suc (length tasks)) 0 (omega arith)
    ∙ left-count p tasks (number_order ceiling) (number_order-IsDistinct ceiling)
    ∙ count_ext (λ t. p t && mem t.number (number_order ceiling))
        (λ t. p t && (leb 1 t.number && leb t.number ceiling)) tasks
        (λ t. ap (λ b. p t && b) (number_order-mem t.number ceiling))
