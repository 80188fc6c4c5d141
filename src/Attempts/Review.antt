-- ===== src/Attempts/Review.antt =====
-- Store.ReviewAttempt of internal/store/repo_solutions.go. The map of the answers to review is the
-- list of them.
use egeism.Base.{
  ℕ, ◌+◌, ◌==◌, ltb, Bool, true, false, not, ◌&&◌, ◌||◌, Option, none, some, List, [], ◌∷◌, ◌++◌,
  filter, length, if◌then◌else◌,
}
use egeism.Base.Int.{ℤ, pos, ltb_ℤ, pos_part, neg_part}
use egeism.Base.Text.{Text, text_eq}
use egeism.Attempts.Tables.{
  Attempt, Answer, ReviewStatus, checked, reviewed, Notification, attempt_reviewed, Db, not_found,
  not_finished, incomplete_grades, unknown_grade, bad_grade, Result, ok, err, ◌>>=◌, ◌>>◌, fail_if,
  or_fail, is_some, get_attempt, list_answers,
}

pub record AnswerGrade : Type 0 where
  pub answer_id : ℕ
  pub points : Option ℤ
  pub comment : Text

abbrev pub is_written : ReviewStatus → Bool
is_written checked = false
is_written _ = true

abbrev pub is_reviewed : ReviewStatus → Bool
is_reviewed reviewed = true
is_reviewed _ = false

abbrev pub int_eq : ℤ → ℤ → Bool
int_eq a b = pos_part a + neg_part b == pos_part b + neg_part a

abbrev pub points_eq : Option ℤ → ℤ → Bool
points_eq none b = false
points_eq (some a) b = int_eq a b

-- The points of a grade, if they are given and within the maximum.
unfoldable pub valid_points : Option ℤ → ℕ → Option ℤ
valid_points none most = none
valid_points (some p) most = if ltb_ℤ p (pos 0) || ltb_ℤ (pos most) p then none else some p

-- GradeAnswer, on one row and on the table.
unfoldable pub grade_row : ℕ → ℤ → Text → Answer → Answer
grade_row teacher_id p comment a = record a {
  is_correct = int_eq p (pos a.max_points);
  review_status = reviewed;
  points = some p;
  teacher_comment = comment;
  reviewed_by = some teacher_id;
}

unfoldable pub grade_answer : ℕ → ℕ → ℕ → ℤ → Text → List Answer → List Answer
grade_answer teacher_id attempt_id id p comment [] = []
grade_answer teacher_id attempt_id id p comment (a ∷ rows) =
    (if (a.attempt_id == attempt_id) && ((a.id == id) && is_written a.review_status)
      then grade_row teacher_id p comment a
      else a)
    ∷ grade_answer teacher_id attempt_id id p comment rows

-- manual[id].
unfoldable pub find_answer : ℕ → List Answer → Option Answer
find_answer k [] = none
find_answer k (a ∷ rows) = if a.id == k then some a else find_answer k rows

-- delete(manual, id).
unfoldable pub remove_answer : ℕ → List Answer → List Answer
remove_answer id manual = filter (λ a. not (a.id == id)) manual

-- The same review once more.
abbrev pub is_unchanged : Answer → ℤ → Text → Bool
is_unchanged a p comment =
    is_reviewed a.review_status && (points_eq a.points p && text_eq a.teacher_comment comment)

-- What a grade comes to: the answer stays as it is, or gets these points.
pub data Change : Type 0 where
  keep : Change
  give : ℤ → Change

abbrev pub weigh : Answer → AnswerGrade → Option ℤ → Result Change
weigh a g none = err bad_grade
weigh a g (some p) =
    if ltb 5000 (length g.comment)
    then err bad_grade
    else (if is_unchanged a p g.comment then ok keep else ok (give p))

abbrev pub weigh_found : AnswerGrade → Option Answer → Result Change
weigh_found g none = err unknown_grade
weigh_found g (some a) = weigh a g (valid_points g.points a.max_points)

-- The tests on one grade, with the answers that are left.
unfoldable pub check_grade : List Answer → AnswerGrade → Result Change
check_grade manual g = weigh_found g (find_answer g.answer_id manual)

-- The loop over the grades, with the table, the answers that are left and the flag `changed`.
unfoldable pub grade_all :
    ℕ → ℕ → List Answer → List Answer → Bool → List AnswerGrade → Result (List Answer × Bool)
grade_all teacher_id attempt_id rows manual changed [] = ok (rows, changed)
grade_all teacher_id attempt_id rows manual changed (g ∷ gs) =
    let left = remove_answer g.answer_id manual in
    elim (check_grade manual g) [
      | err e ↦ err e
      | ok keep ↦ grade_all teacher_id attempt_id rows left changed gs
      | ok (give p) ↦
          grade_all teacher_id attempt_id
            (grade_answer teacher_id attempt_id g.answer_id p g.comment rows) left true gs
    ]

abbrev pub manual_answers : Db → ℕ → List Answer
manual_answers db attempt_id = filter (λ a. is_written a.review_status) (list_answers db attempt_id)

abbrev pub review_notification : Attempt → Notification
review_notification att = record {
  user_id = att.student_id;
  kind = attempt_reviewed;
  assignment_id = att.assignment_id;
  attempt_id = some att.id;
}

unfoldable pub review_attempt : Db → ℕ → ℕ → List AnswerGrade → Result Db
review_attempt db attempt_id teacher_id grades = do
  att ← or_fail (get_attempt db attempt_id) not_found
  fail_if (not (is_some att.finished_at)) not_finished
  let manual = manual_answers db attempt_id
  fail_if ((length manual == 0) || not (length grades == length manual)) incomplete_grades
  (rows, changed) ← grade_all teacher_id attempt_id db.answers manual false grades
  ok (record db {
    answers = rows;
    notifications =
        (if changed then db.notifications ++ review_notification att ∷ [] else db.notifications);
  })
