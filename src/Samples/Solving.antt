-- ===== src/Samples/Solving.antt =====
-- An attempt from its start to its review.
use egeism.Base.{ℕ, ◌≡◌, ◌≢◌, refl, true, false, none, some, [], ◌∷◌, ◌++◌, All}
use egeism.Base.Int.{pos}
use egeism.Base.Text.{codes}
use egeism.Domain.Entities.{Task, is_manual}
use egeism.Checker.Normalize.{
  is_space, normalize_number, strip_spaces, replace_minus, replace_comma, trim_space,
}
use egeism.Checker.Compare.{
  check, check_number, check_as, matches_number, rat_le, distance, tolerance_rat,
}
use egeism.Attempts.Tables.{
  Attempt, Answer, Db, checked, pending, reviewed, ok, get_attempt, get_test, get_task,
  get_assignment, list_answers, list_photos, list_test_items, sort_items, by_position, join_tasks,
  insert_answer, finish_attempt,
}
use egeism.Attempts.Submit.{
  submit_answer, submission_task, solution_required, judge, judge_short, is_repeatable, Verdict,
  submission,
}
use egeism.Attempts.Finish.{
  finish_submission, finish_open, finish_items, finish_photos, photo_tasks, distinct_keys,
  answered_tasks,
}
use egeism.Attempts.Filling.{IsFilled, finish_submission-IsFilled}
use egeism.Attempts.Review.{
  review_attempt, grade_all, check_grade, find_answer, valid_points, grade_answer, grade_row,
  remove_answer, review_notification,
}
use egeism.Attempts.Points.{IsGraded, submit_answer-IsGraded}
use egeism.Attempts.Elsewhere.{Same}
use egeism.Attempts.History.{IsFinished, submits, Run, stop, next, finished_is_history}
use egeism.Attempts.Reviewing.{waits}
use egeism.Attempts.Reviewed.{review_attempt-Settled}
use egeism.Solve.Handlers.{
  sent, StartReq, SubmitReq, SubmitResp, may_start, start_guard, start_attempt, new_attempt,
  handle_start_attempt, own_attempt, handle_submit_answer, submit_resp, is_student,
}
use egeism.Solve.Access.{MayAttempt, handle_start_attempt-MayAttempt, handle_submit_answer-solution}
use egeism.Samples.Data.{
  env, db, attempt, closed_db, finished_attempt, essay, grade, pupil, short_task,
}

-- The right answer, and the tables after it.
abbrev answer : Answer
answer =
    submission db 3 10 (codes "5") (pos 900) 1
      (record { status = checked; correct = true; score = some (pos 1) })

abbrev answered_db : Db
answered_db = record db { answers = answer ∷ []; next_id = 21 }

submitted : submit_answer env db 3 10 (codes "5") (pos 900) ≡ ok (answered_db, answer)
unfolding submit_answer get_attempt get_test get_task get_assignment list_answers list_photos
    list_test_items sort_items by_position join_tasks submission_task solution_required judge
    judge_short is_repeatable trim_space is_space check check_as check_number normalize_number
    strip_spaces replace_minus replace_comma matches_number rat_le distance tolerance_rat
    insert_answer
submitted = refl

closed_attempt : get_attempt closed_db 3 ≡ some finished_attempt
unfolding get_attempt
closed_attempt = refl

-- A finished attempt beside an open one, in which an answer is submitted.
abbrev two_db : Db
two_db = record closed_db { attempts = finished_attempt ∷ record attempt { id = 6 } ∷ [] }

abbrev later_answer : Answer
later_answer = record answer { attempt_id = 6 }

abbrev two_after : Db
two_after = record two_db { answers = essay ∷ later_answer ∷ []; next_id = 21 }

two-IsFinished : IsFinished 3 two_db
unfolding get_attempt
two-IsFinished = (finished_attempt, refl, refl)

later_submitted : submit_answer env two_db 6 10 (codes "5") (pos 900) ≡ ok (two_after, later_answer)
unfolding submit_answer get_attempt get_test get_task get_assignment list_answers list_photos
    list_test_items sort_items by_position join_tasks submission_task solution_required judge
    judge_short is_repeatable trim_space is_space check check_as check_number normalize_number
    strip_spaces replace_minus replace_comma matches_number rat_le distance tolerance_rat
    insert_answer
later_submitted = refl

history : Run two_db two_after
history =
    next (submits env 6 10 (codes "5") (pos 900) later_answer later_submitted) (stop two_after)

-- Full marks for the written answer.
abbrev reviewed_db : Db
reviewed_db = record closed_db {
  answers =
      record essay {
        is_correct = true;
        review_status = reviewed;
        points = some (pos 2);
        reviewed_by = some 7;
      }
      ∷ [];
  notifications = review_notification finished_attempt ∷ [];
}

accepted : review_attempt closed_db 3 7 (grade ∷ []) ≡ ok reviewed_db
unfolding review_attempt get_attempt list_answers grade_all check_grade find_answer valid_points
    grade_answer grade_row remove_answer
accepted = refl

-- An attempt that is finished with no answer: one is wrong, and one waits.
abbrev blank : ℕ → ℕ → ℕ → Verdict → Answer
blank id task_id most v = record (submission db 3 task_id [] (pos 0) most v) { id = id }

abbrev finished_db : Db
finished_db = record db {
  attempts = record attempt { finished_at = some 100 } ∷ [];
  answers =
      blank 20 10 1 (record { status = checked; correct = false; score = some (pos 0) })
      ∷ blank 21 11 2 (record { status = pending; correct = false; score = none })
      ∷ [];
  next_id = 22;
}

open_attempt : get_attempt db 3 ≡ some attempt
unfolding get_attempt
open_attempt = refl

was_finished : finish_submission env db 3 ≡ ok finished_db
unfolding finish_submission finish_open finish_items finish_photos photo_tasks distinct_keys
    answered_tasks finish_attempt get_attempt get_test get_task get_assignment list_answers
    list_photos list_test_items sort_items by_position join_tasks submission_task solution_required
    judge judge_short is_repeatable trim_space is_space check check_as check_number normalize_number
    strip_spaces replace_minus replace_comma matches_number rat_le distance tolerance_rat
    insert_answer
was_finished = refl

abbrev request : StartReq
request = record { test_id = 2; assignment_id = some 4 }

started :
    handle_start_attempt db pupil (some request)
    ≡ (start_attempt db pupil request, sent (new_attempt db pupil request, false))
unfolding handle_start_attempt may_start start_guard start_attempt get_assignment
started = refl

abbrev wrong_request : SubmitReq
wrong_request = record { task_id = 10; raw_answer = codes "6"; time_spent_ms = pos 900 }

abbrev wrong_answer : Answer
wrong_answer =
    submission db 3 10 (codes "6") (pos 900) 1
      (record { status = checked; correct = false; score = some (pos 0) })

abbrev wrong_db : Db
wrong_db = record db { answers = wrong_answer ∷ []; next_id = 21 }

abbrev wrong_reply : SubmitResp
wrong_reply = submit_resp short_task wrong_answer

wrong_submitted :
    handle_submit_answer env db pupil (some 3) (some wrong_request) ≡ sent (wrong_db, wrong_reply)
unfolding handle_submit_answer own_attempt submit_answer get_attempt get_test get_task
    get_assignment list_answers list_photos list_test_items sort_items by_position join_tasks
    submission_task solution_required judge judge_short is_repeatable trim_space is_space check
    check_as check_number normalize_number strip_spaces replace_minus replace_comma matches_number
    rat_le distance tolerance_rat insert_answer
wrong_submitted = refl

wrong_shown : wrong_reply.solution ≢ []
wrong_shown e = cc

submit_answer-IsGraded_example : All IsGraded answered_db.answers
submit_answer-IsGraded_example =
    submit_answer-IsGraded env db 3 10 (codes "5") (pos 900) answered_db answer submitted tt

finished_is_history_example : Same 3 two_db two_after
finished_is_history_example = finished_is_history 3 two_db two_after history two-IsFinished

finish_submission-IsFilled_example : IsFilled env db 3 attempt finished_db
finish_submission-IsFilled_example =
    finish_submission-IsFilled env db finished_db 3 attempt open_attempt refl tt was_finished

review_attempt-Settled_example :
    All IsGraded reviewed_db.answers × All (λ a. waits 3 a ≡ false) reviewed_db.answers
review_attempt-Settled_example =
    review_attempt-Settled closed_db reviewed_db 3 7 (grade ∷ []) (refl, tt) ((refl, refl), tt)
      accepted

handle_start_attempt-MayAttempt_example :
    (req : StartReq) × ((some request) ≡ some req)
    × (is_student pupil.role ≡ true)
    × MayAttempt db pupil req req.assignment_id
    × ((new_attempt db pupil request) ≡ new_attempt db pupil req)
    × ((start_attempt db pupil request).attempts
        ≡ db.attempts ++ (new_attempt db pupil request) ∷ [])
handle_start_attempt-MayAttempt_example =
    handle_start_attempt-MayAttempt db (start_attempt db pupil request) pupil (some request)
      (new_attempt db pupil request) false started

handle_submit_answer-solution_example :
    (att : Attempt) × (task : Task) × (get_attempt db 3 ≡ some att)
    × (att.student_id ≡ pupil.id)
    × (get_task db wrong_request.task_id ≡ some task)
    × (wrong_reply.solution ≡ task.answer_schema.correct)
    × (is_manual task.grading_mode ≡ false)
    × (check env.std task.answer_schema wrong_request.raw_answer ≡ false)
handle_submit_answer-solution_example =
    handle_submit_answer-solution env db wrong_db pupil 3 wrong_request wrong_reply wrong_submitted
      wrong_shown
