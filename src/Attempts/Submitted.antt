-- ===== src/Attempts/Submitted.antt =====
-- What an accepted answer was, and what it changed.
use egeism.Base.{ℕ, ◌≡◌, false, not, ◌&&◌, ◌==◌, some, any, arith}
use egeism.Base.Int.{ℤ}
use egeism.Base.Text.{Text}
use egeism.Domain.Entities.{Task}
use egeism.Attempts.Tables.{
  Attempt, Test, Answer, Db, ok, is_some, get_attempt, get_test, insert_answer, list_answers,
}
use egeism.Attempts.Submit.{
  Env, submission_task, is_repeatable, judge, Verdict, submission, submit_answer,
}

-- An accepted answer: the attempt was open, the task belongs to it, no other answer to it stood in
-- the way, and the row that was added carries the verdict.
pub record Submitted (env : Env) (db : Db) (id task_id : ℕ) (raw : Text) (time_ms : ℤ) (after : Db)
    (row : Answer) : Type 0 where
  pub att : Attempt
  pub test : Test
  pub task : Task
  pub verdict : Verdict
  pub att_found : get_attempt db id ≡ some att
  pub test_found : get_test db att.test_id ≡ some test
  pub att_open : is_some att.finished_at ≡ false
  pub task_found : submission_task env db att task_id ≡ ok task
  pub unanswered :
      any (λ a. (a.task_id == task_id) && not (is_repeatable test att task)) (list_answers db id)
      ≡ false
  pub judged : judge env db att task raw ≡ ok verdict
  pub row_is : row ≡ submission db id task_id raw time_ms task.max_points verdict
  pub after_is : after ≡ insert_answer db row

pub submit_answer-Submitted :
    (env : Env) (db : Db) (id task_id : ℕ) (raw : Text) (time_ms : ℤ) (after : Db) (row : Answer)
    → submit_answer env db id task_id raw time_ms ≡ ok (after, row)
    → Submitted env db id task_id raw time_ms after row
unfolding submit_answer
submit_answer-Submitted env db id task_id raw time_ms after row h = ground arith
