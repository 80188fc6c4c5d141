-- ===== src/Attempts/Reviewed.antt =====
-- An accepted review as a whole.
use mathlib.Core.Path.{subst}
use egeism.Base.{
  ℕ, ◌≡◌, refl, inl, inr, Bool, true, false, ◌==◌, Option, none, some, List, [], ◌∷◌, All, All-imp,
  ==_refl, filter, length, mem, IsDistinct, Bool-cases, Option-cases, arith,
}
use egeism.Base.Int.{ℤ, pos}
use egeism.Attempts.Tables.{Answer, Db, Result, ok, err, list_answers, Result-cases, get_attempt}
use egeism.Attempts.Review.{
  AnswerGrade, weigh, weigh_found, grade_answer, grade_all, check_grade, Change, keep, give,
  find_answer, valid_points, review_attempt, is_written, remove_answer, is_reviewed, manual_answers,
}
use egeism.Attempts.Points.{IsGraded}
use egeism.Attempts.Reviewing.{
  ids, waits, Covers, Inv, step-Inv, skip-Inv, length-remove, valid_points-pos,
}

-- A change comes from an answer: one to keep was reviewed, one to give has points in its range.
abbrev Warrants : AnswerGrade → Option Answer → Change → Type 0
Warrants g o keep = (a : Answer) × (o ≡ some a) × (is_reviewed a.review_status ≡ true)
Warrants g o (give p) = (a : Answer) × (o ≡ some a) × (valid_points g.points a.max_points ≡ some p)

weigh-Warrants :
    (a : Answer) (g : AnswerGrade) (o : Option ℤ) (c : Change)
    → valid_points g.points a.max_points ≡ o
    → weigh a g o ≡ ok c
    → Warrants g (some a) c
weigh-Warrants a g none c v h = cc
weigh-Warrants a g (some p) keep v h = (a, refl, ground arith)
weigh-Warrants a g (some p) (give q) v h = (a, refl, ground arith)

weigh_found-Warrants :
    (g : AnswerGrade) (o : Option Answer) (c : Change) → weigh_found g o ≡ ok c → Warrants g o c
weigh_found-Warrants g none c h = cc
weigh_found-Warrants g (some a) c h =
    weigh-Warrants a g (valid_points g.points a.max_points) c refl h

check_grade-Warrants :
    (left : List Answer) (g : AnswerGrade) (c : Change)
    → check_grade left g ≡ ok c
    → Warrants g (find_answer g.answer_id left) c
unfolding check_grade
check_grade-Warrants left g c h = weigh_found-Warrants g (find_answer g.answer_id left) c h

module _ (teacher id : ℕ) where
  none_waits : (rows : List Answer) → Covers id [] rows → All (λ r. waits id r ≡ false) rows
  none_waits [] c = tt
  none_waits (r ∷ rows) c = (ground (arith, c.0), none_waits rows c.1)

  abbrev rows_of : Result (List Answer × Bool) → List Answer → List Answer
  rows_of (ok (rows, changed)) d = rows
  rows_of (err e) d = d

  -- What holds of the rows of a result.
  abbrev Settled : Result (List Answer × Bool) → Type 0
  Settled (ok (rows, changed)) = All IsGraded rows × All (λ r. waits id r ≡ false) rows
  Settled (err e) = Unit

  grade_all-Settled :
      (gs : List AnswerGrade) (rows manual : List Answer) (changed : Bool)
      → length manual ≡ length gs
      → Inv id manual rows
      → Settled (grade_all teacher id rows manual changed gs)
  unfolding grade_all
  grade_all-Settled [] rows [] changed l i = (i.graded, none_waits rows i.covers)
  grade_all-Settled [] rows (m ∷ ms) changed l i = absurd (omega arith)
  grade_all-Settled (g ∷ gs) rows manual changed l i = elim (Result-cases (check_grade manual g)) [
    | inl (e, h) ↦ rw (h, grade_all) tt
    | inr (keep, h) ↦
        let (a, found, done) = check_grade-Warrants manual g keep h in
        let shorter = length-remove g.answer_id a manual i.distinct found in
        rw (h, grade_all)
          (grade_all-Settled gs rows (remove_answer g.answer_id manual) changed (omega arith)
            (skip-Inv id g.answer_id a manual rows found done i))
    | inr (give p, h) ↦
        let (a, found, valid) = check_grade-Warrants manual g (give p) h in
        let (n, e, le) = valid_points-pos g.points a.max_points p valid in
        let shorter = length-remove g.answer_id a manual i.distinct found in
        rw (h, e, grade_all)
          (grade_all-Settled gs (grade_answer teacher id g.answer_id (pos n) g.comment rows)
            (remove_answer g.answer_id manual) true (omega arith)
            (step-Inv teacher id g.answer_id n g.comment a manual rows found le i))
  ]

filter-absent :
    (p : Answer → Bool) (k : ℕ) (rows : List Answer)
    → mem k (ids rows) ≡ false
    → mem k (ids (filter p rows)) ≡ false
filter-absent p k [] m = refl
filter-absent p k (r ∷ rows) m = ground (arith, filter-absent p k rows)

filter-IsDistinct :
    (p : Answer → Bool) (rows : List Answer)
    → IsDistinct (ids rows)
    → IsDistinct (ids (filter p rows))
filter-IsDistinct p [] d = tt
filter-IsDistinct p (r ∷ rows) d =
    ground (arith, filter-absent p r.id rows d.0, filter-IsDistinct p rows d.1)

found-present :
    (k : ℕ) (a : Answer) (rows : List Answer)
    → find_answer k rows ≡ some a
    → mem k (ids rows) ≡ true
unfolding find_answer
found-present k a [] h = cc
found-present k a (r ∷ rows) h = ground (arith, found-present k a rows)

found-filter :
    (p : Answer → Bool) (k : ℕ) (a : Answer) (rows : List Answer)
    → IsDistinct (ids rows)
    → find_answer k (filter p rows) ≡ some a
    → find_answer k rows ≡ some a
unfolding find_answer
found-filter p k a [] d h = h
found-filter p k a (r ∷ rows) d h =
    ground (arith, found-filter p k a rows d.1, found-present k a rows)

absent-All :
    (k : ℕ) (a : Answer) (rows : List Answer)
    → mem k (ids rows) ≡ false
    → All (λ r. r.id ≡ k → r ≡ a) rows
absent-All k a [] m = tt
absent-All k a (r ∷ rows) m = (λ e. ground arith, absent-All k a rows (ground arith))

found-All :
    (k : ℕ) (a : Answer) (rows : List Answer)
    → IsDistinct (ids rows)
    → find_answer k rows ≡ some a
    → All (λ r. r.id ≡ k → r ≡ a) rows
unfolding find_answer
found-All k a [] d h = tt
found-All k a (r ∷ rows) d h = elim (Bool-cases (r.id == k)) [
  | inl e ↦ (λ _. ground arith, absent-All k a rows (ground arith))
  | inr e ↦ (λ w. ground arith, found-All k a rows d.1 (ground arith))
]

abbrev left_of : ℕ → List Answer → List Answer
left_of id rows = filter (λ a. is_written a.review_status) (filter (λ a. a.attempt_id == id) rows)

left-Covers : (id : ℕ) (rows : List Answer) → Covers id (left_of id rows) rows
left-Covers id [] = tt
left-Covers id (r ∷ rows) = (
  λ h. ground (arith, ==_refl r.id),
  All-imp (λ q. waits id q ≡ true → mem q.id (ids (left_of id rows)) ≡ true)
      (λ q. waits id q ≡ true → mem q.id (ids (left_of id (r ∷ rows))) ≡ true)
      (λ q f w. ground (arith, f w)) rows (left-Covers id rows),
)

left-Inv :
    (id : ℕ) (rows : List Answer)
    → IsDistinct (ids rows)
    → All IsGraded rows
    → Inv id (left_of id rows) rows
left-Inv id rows d g =
    let mine = filter-IsDistinct (λ a. a.attempt_id == id) rows d in
    record {
      distinct =
          filter-IsDistinct (λ a. is_written a.review_status)
            (filter (λ a. a.attempt_id == id) rows) mine;
      agrees = λ k a h. found-All k a rows d (
          found-filter (λ r. r.attempt_id == id) k a rows d
            (found-filter (λ r. is_written r.review_status) k a
              (filter (λ r. r.attempt_id == id) rows) mine h));
      covers = left-Covers id rows;
      graded = g;
    }

-- After an accepted review no written answer of the attempt waits any more, whatever the order of
-- the grades, and the points of all answers are still in order. The ids of the answers are distinct
-- before, and their points in order.
pub review_attempt-Settled :
    (db after : Db) (id teacher : ℕ) (grades : List AnswerGrade)
    → IsDistinct (ids db.answers)
    → All IsGraded db.answers
    → review_attempt db id teacher grades ≡ ok after
    → All IsGraded after.answers × All (λ a. waits id a ≡ false) after.answers
unfolding review_attempt list_answers
review_attempt-Settled db after id teacher grades d g h =
    let left = manual_answers db id in
    elim (Option-cases (get_attempt db id)) [
      | inl e ↦ ground arith
      | inr (att, e) ↦ elim (Result-cases (grade_all teacher id db.answers left false grades)) [
        | inl (x, f) ↦ ground arith
        | inr ((rows, changed), f) ↦
            let l : length left ≡ length grades = ground arith in
            let rest : Settled teacher id (ok (rows, changed)) = subst (Settled teacher id) f (
              grade_all-Settled teacher id grades db.answers left false l
                (left-Inv id db.answers d g)) in
            ground arith
      ]
    ]
