-- ===== src/Attempts/Reviewing.antt =====
-- A review, grade by grade.
use native.Mathlib.Decide.{ℕ_discrete}
use egeism.Base.{
  ℕ, suc, ◌≤◌, ◌≡◌, ◌≢◌, refl, ap, inl, inr, Bool, true, false, not, ◌&&◌, ◌==◌, Option, none, some,
  List, [], ◌∷◌, All, map, length, mem, IsDistinct, Bool-cases, arith, if◌then◌else◌,
}
use egeism.Base.Int.{ℤ, pos, negsuc}
use egeism.Base.Text.{Text}
use egeism.Attempts.Tables.{Answer}
use egeism.Attempts.Review.{
  grade_row, grade_answer, valid_points, is_written, remove_answer, find_answer, is_reviewed,
}
use egeism.Attempts.Points.{IsGraded}

pub valid_points-pos :
    (o : Option ℤ) (most : ℕ) (p : ℤ)
    → valid_points o most ≡ some p
    → (n : ℕ) × (p ≡ pos n) × (n ≤ most)
unfolding valid_points
valid_points-pos none most p h = cc
valid_points-pos (some (pos n)) most p h = (n, ground arith, ground arith)
valid_points-pos (some (negsuc n)) most p h = ground arith

grade_row-IsGraded :
    (teacher n : ℕ) (comment : Text) (a : Answer)
    → n ≤ a.max_points
    → IsGraded (grade_row teacher (pos n) comment a)
unfolding grade_row
grade_row-IsGraded teacher n comment a h = (n, refl, h, ground arith)

abbrev pub ids : List Answer → List ℕ
ids rows = map (λ a. a.id) rows

-- An answer that still waits for a review of the attempt.
abbrev pub waits : ℕ → Answer → Bool
waits attempt_id a =
    (a.attempt_id == attempt_id)
    && (is_written a.review_status && not (is_reviewed a.review_status))

-- The answers left to review stand in the table as they were taken from it.
abbrev pub Agrees : List Answer → List Answer → Type 0
Agrees manual rows =
    (k : ℕ) (a : Answer) → find_answer k manual ≡ some a → All (λ r. r.id ≡ k → r ≡ a) rows

-- Every answer that waits is among those left.
abbrev pub Covers : ℕ → List Answer → List Answer → Type 0
Covers attempt_id manual rows =
    All (λ r. waits attempt_id r ≡ true → mem r.id (ids manual) ≡ true) rows

find_answer-remove :
    (k j : ℕ) (manual : List Answer)
    → find_answer k (remove_answer j manual) ≡ (if k == j then none else find_answer k manual)
unfolding remove_answer find_answer
find_answer-remove k j [] = ground arith
find_answer-remove k j (a ∷ as') = ground (arith, find_answer-remove k j as')

mem-remove :
    (k j : ℕ) (manual : List Answer)
    → mem k (ids (remove_answer j manual)) ≡ (not (k == j) && mem k (ids manual))
unfolding remove_answer
mem-remove k j [] = ground arith
mem-remove k j (a ∷ as') = ground (arith, mem-remove k j as')

remove-IsDistinct :
    (j : ℕ) (manual : List Answer)
    → IsDistinct (ids manual)
    → IsDistinct (ids (remove_answer j manual))
unfolding remove_answer
remove-IsDistinct j [] d = tt
remove-IsDistinct j (a ∷ as') d = ground (arith, remove-IsDistinct j as' d.1, mem-remove a.id j as')

remove_absent :
    (j : ℕ) (manual : List Answer) → mem j (ids manual) ≡ false → remove_answer j manual ≡ manual
unfolding remove_answer
remove_absent j [] m = refl
remove_absent j (a ∷ as') m = ground (arith, remove_absent j as')

pub length-remove :
    (j : ℕ) (a : Answer) (manual : List Answer)
    → IsDistinct (ids manual)
    → find_answer j manual ≡ some a
    → suc (length (remove_answer j manual)) ≡ length manual
unfolding remove_answer find_answer
length-remove j a [] d h = cc
length-remove j a (b ∷ bs) d h = ground (
  arith,
  length-remove j a bs d.1,
  λ (m : mem j (ids bs) ≡ false). ap (length {0}) (remove_absent j bs m),
)

module _ (teacher id k n : ℕ) (comment : Text) where
  abbrev regrade : List Answer → List Answer
  regrade rows = grade_answer teacher id k (pos n) comment rows

  abbrev hits : Answer → Bool
  hits r = (r.attempt_id == id) && ((r.id == k) && is_written r.review_status)

  -- The row that a grade changes is the answer it was looked up as.
  regrade-IsGraded :
      (a : Answer) (rows : List Answer)
      → n ≤ a.max_points
      → All (λ r. r.id ≡ k → r ≡ a) rows
      → All IsGraded rows
      → All IsGraded (regrade rows)
  unfolding grade_answer
  regrade-IsGraded a [] l m g = tt
  regrade-IsGraded a (r ∷ rows) l m g = elim (Bool-cases (hits r)) [
    | inl e ↦
        let own = m.0 (ground arith) in
        rw e (
          grade_row-IsGraded teacher n comment r
              (omega (arith, ap (λ (x : Answer). x.max_points) own)),
          regrade-IsGraded a rows l m.1 g.1,
        )
    | inr e ↦ rw e (g.0, regrade-IsGraded a rows l m.1 g.1)
  ]

  regrade-Agrees :
      (j : ℕ) (b : Answer) (rows : List Answer)
      → j ≢ k
      → All (λ r. r.id ≡ j → r ≡ b) rows
      → All (λ r. r.id ≡ j → r ≡ b) (regrade rows)
  unfolding grade_answer grade_row
  regrade-Agrees j b [] ne m = tt
  regrade-Agrees j b (r ∷ rows) ne m = elim (Bool-cases (hits r)) [
    | inl e ↦ rw e (λ h. absurd (ne (ground arith)), regrade-Agrees j b rows ne m.1)
    | inr e ↦ rw e (m.0, regrade-Agrees j b rows ne m.1)
  ]

  -- The answer that is graded waits no more, if it is one of the attempt.
  regrade-Covers :
      (manual rows : List Answer)
      → Covers id manual rows
      → Covers id (remove_answer k manual) (regrade rows)
  unfolding grade_answer grade_row
  regrade-Covers manual [] c = tt
  regrade-Covers manual (r ∷ rows) c = elim (Bool-cases (hits r)) [
    | inl e ↦ rw e (λ h. ground arith, regrade-Covers manual rows c.1)
    | inr e ↦
        rw e (λ h. ground (arith, mem-remove r.id k manual, c.0 h), regrade-Covers manual rows c.1)
  ]

-- An answer that was reviewed before does not wait.
skip-Covers :
    (id k : ℕ) (a : Answer) (manual rows : List Answer)
    → is_reviewed a.review_status ≡ true
    → All (λ r. r.id ≡ k → r ≡ a) rows
    → Covers id manual rows
    → Covers id (remove_answer k manual) rows
skip-Covers id k a manual [] v m c = tt
skip-Covers id k a manual (r ∷ rows) v m c = (
  λ h. elim (ℕ_discrete r.id k) [
    | yes e ↦ let s = ap (λ (x : Answer). x.review_status) (m.0 e) in ground arith
    | no other ↦ ground (arith, mem-remove r.id k manual, c.0 h)
  ],
  skip-Covers id k a manual rows v m.1 c.1,
)

-- What a review keeps while it goes over the grades.
pub record Inv (id : ℕ) (manual rows : List Answer) : Type 0 where
  pub distinct : IsDistinct (ids manual)
  pub agrees : Agrees manual rows
  pub covers : Covers id manual rows
  pub graded : All IsGraded rows

pub step-Inv :
    (teacher id k n : ℕ) (comment : Text) (a : Answer) (manual rows : List Answer)
    → find_answer k manual ≡ some a
    → n ≤ a.max_points
    → Inv id manual rows
    → Inv id (remove_answer k manual) (grade_answer teacher id k (pos n) comment rows)
step-Inv teacher id k n comment a manual rows h l i = record {
  distinct = remove-IsDistinct k manual i.distinct;
  agrees = λ j b e.
      regrade-Agrees teacher id k n comment j b rows (ground (arith, find_answer-remove j k manual))
        (i.agrees j b (ground (arith, find_answer-remove j k manual)));
  covers = regrade-Covers teacher id k n comment manual rows i.covers;
  graded = regrade-IsGraded teacher id k n comment a rows l (i.agrees k a h) i.graded;
}

pub skip-Inv :
    (id k : ℕ) (a : Answer) (manual rows : List Answer)
    → find_answer k manual ≡ some a
    → is_reviewed a.review_status ≡ true
    → Inv id manual rows
    → Inv id (remove_answer k manual) rows
skip-Inv id k a manual rows h v i = record {
  distinct = remove-IsDistinct k manual i.distinct;
  agrees = λ j b e. i.agrees j b (ground (arith, find_answer-remove j k manual));
  covers = skip-Covers id k a manual rows v (i.agrees k a h) i.covers;
  graded = i.graded;
}
