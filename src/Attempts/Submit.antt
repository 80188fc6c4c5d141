-- ===== src/Attempts/Submit.antt =====
-- Store.SubmitAnswer and submissionTask of internal/store/repo_solutions.go.
use egeism.Base.{
  ℕ, ◌==◌, ltb, Bool, false, not, ◌&&◌, ◌||◌, Option, none, some, [], any, length, if◌then◌else◌,
}
use egeism.Base.Int.{ℤ, pos, ltb_ℤ}
use egeism.Base.Text.{Text, codes, text_eq}
use egeism.Domain.Entities.{Task, is_manual, is_active}
use egeism.Domain.Source.{ParseUrl, Time, is_current}
use egeism.Checker.Normalize.{Std, trim_space}
use egeism.Checker.Compare.{check}
use egeism.Attempts.Tables.{
  Attempt, Test, Answer, ReviewStatus, checked, pending, Db, not_found, internal, other_subject,
  unavailable, not_current, not_in_test, bad_answer, already_finished, already_answered, need_photo,
  empty_written, empty_answer, Result, ok, ◌>>=◌, ◌>>◌, fail_if, or_fail, is_some, get_attempt,
  get_test, get_task, get_assignment, list_answers, list_photos, list_test_items, insert_answer,
}

-- What the handlers take from outside: the standard library, and the wall clock of the call.
pub record Env : Type 0 where
  pub std : Std
  pub parse_url : ParseUrl
  pub now : Time
  pub stamp : ℕ

-- The student's own free practice.
abbrev pub is_practice : Test → Attempt → Bool
is_practice test att =
    text_eq test.title (codes "__practice__") && (test.created_by == att.student_id)

abbrev practice_task : Env → Task → Result Task
practice_task env row = do
  fail_if (not (is_active row.status)) unavailable
  fail_if (not (is_current env.parse_url row.source env.now)) not_current
  ok row

abbrev listed_task : Db → Test → Task → Result Task
listed_task db test row = do
  fail_if (not (any (λ t. t.id == row.id) (list_test_items db test.id))) not_in_test
  ok row

unfoldable pub submission_task : Env → Db → Attempt → ℕ → Result Task
submission_task env db att task_id = do
  test ← or_fail (get_test db att.test_id) not_found
  row ← or_fail (get_task db task_id) not_found
  fail_if (not (row.subject_id == test.subject_id)) other_subject
  if is_practice test att then practice_task env row else listed_task db test row

unfoldable pub is_repeatable : Test → Attempt → Task → Bool
is_repeatable test att task = is_practice test att && not (is_manual task.grading_mode)

abbrev pub has_photo : Db → ℕ → ℕ → Bool
has_photo db attempt_id task_id = any (λ p. p.task_id == task_id) (list_photos db attempt_id)

-- Whether the attempt's assignment asks for a photo of each written solution.
unfoldable pub solution_required : Db → Option ℕ → Result Bool
solution_required db none = ok false
solution_required db (some k) = do
  asg ← or_fail (get_assignment db k) internal
  ok asg.require_solution

-- The status, the verdict and the points of a submission.
pub record Verdict : Type 0 where
  pub status : ReviewStatus
  pub correct : Bool
  pub score : Option ℤ

unfoldable pub judge_written : Db → Attempt → ℕ → Text → Result Verdict
judge_written db att task_id raw = do
  required ← solution_required db att.assignment_id
  fail_if (required && not (has_photo db att.id task_id)) need_photo
  fail_if (text_eq (trim_space raw) [] && not (has_photo db att.id task_id)) empty_written
  ok (record { status = pending; correct = false; score = none })

unfoldable pub judge_short : Env → Task → Text → Result Verdict
judge_short env task raw = do
  fail_if (text_eq (trim_space raw) []) empty_answer
  let correct = check env.std task.answer_schema raw
  ok (record {
    status = checked;
    correct = correct;
    score = some (pos (if correct then task.max_points else 0));
  })

unfoldable pub judge : Env → Db → Attempt → Task → Text → Result Verdict
judge env db att task raw =
    if is_manual task.grading_mode
    then judge_written db att task.id raw
    else judge_short env task raw

abbrev pub submission : Db → ℕ → ℕ → Text → ℤ → ℕ → Verdict → Answer
submission db attempt_id task_id raw time_ms max_points v = record {
  id = db.next_id;
  attempt_id = attempt_id;
  task_id = task_id;
  raw_answer = raw;
  is_correct = v.correct;
  time_spent_ms = time_ms;
  review_status = v.status;
  points = v.score;
  max_points = max_points;
  teacher_comment = [];
  reviewed_by = none;
}

unfoldable pub submit_answer : Env → Db → ℕ → ℕ → Text → ℤ → Result (Db × Answer)
submit_answer env db attempt_id task_id raw time_ms = do
  fail_if (ltb 10000 (length raw) || ltb_ℤ time_ms (pos 0)) bad_answer
  att ← or_fail (get_attempt db attempt_id) not_found
  fail_if (is_some att.finished_at) already_finished
  task ← submission_task env db att task_id
  test ← or_fail (get_test db att.test_id) internal
  fail_if
      (any (λ a. (a.task_id == task_id) && not (is_repeatable test att task))
        (list_answers db attempt_id))
      already_answered
  v ← judge env db att task raw
  let row = submission db attempt_id task_id raw time_ms task.max_points v
  ok (insert_answer db row, row)
