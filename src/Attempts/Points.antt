-- ===== src/Attempts/Points.antt =====
-- The points of an answer fit its status, whatever is done with it.
use egeism.Base.{
  ℕ, ◌≤◌, ◌≡◌, refl, Bool, true, false, ◌==◌, Option, none, some, [], ◌∷◌, All, All-append, arith,
  if◌then◌else◌,
}
use egeism.Base.Int.{ℤ, pos}
use egeism.Base.Text.{Text}
use egeism.Domain.Entities.{Task, is_manual}
use egeism.Domain.Learning.{GradingMode, auto, manual}
use egeism.Checker.Compare.{check}
use egeism.Attempts.Tables.{
  Attempt, Answer, ReviewStatus, checked, pending, reviewed, Db, ok, insert_answer,
}
use egeism.Attempts.Submit.{
  Env, judge, judge_written, judge_short, Verdict, submission, submit_answer,
}
use egeism.Attempts.Finish.{blank_verdict}
use egeism.Attempts.Submitted.{submit_answer-Submitted}

-- A checked answer has all points or none, as the checker found; a pending one has none yet and is
-- not correct; a reviewed one has from zero to the maximum, and is correct exactly at the maximum.
abbrev pub Fits : ReviewStatus → Bool → Option ℤ → ℕ → Type 0
Fits checked correct points most = points ≡ some (pos (if correct then most else 0))
Fits pending correct points most = (points ≡ none) × (correct ≡ false)
Fits reviewed correct points most =
    (p : ℕ) × (points ≡ some (pos p)) × (p ≤ most) × (correct ≡ (p == most))

abbrev pub IsGraded : Answer → Type 0
IsGraded a = Fits a.review_status a.is_correct a.points a.max_points

-- The two verdicts on an accepted answer.
abbrev pub written_verdict : Verdict
written_verdict = record { status = pending; correct = false; score = none }

abbrev pub short_verdict : Env → Task → Text → Verdict
short_verdict env task raw =
    let correct = check env.std task.answer_schema raw in
    record {
      status = checked;
      correct = correct;
      score = some (pos (if correct then task.max_points else 0));
    }

pub judge-verdict :
    (env : Env) (db : Db) (att : Attempt) (task : Task) (raw : Text) (v : Verdict)
    → judge env db att task raw ≡ ok v
    → v ≡ (if is_manual task.grading_mode then written_verdict else short_verdict env task raw)
unfolding judge judge_written judge_short
judge-verdict env db att task raw v h = ground arith

judge-Fits :
    (env : Env) (task : Task) (raw : Text) (b : Bool)
    → let v = if b then written_verdict else short_verdict env task raw in
      Fits v.status v.correct v.score task.max_points
judge-Fits env task raw true = (refl, refl)
judge-Fits env task raw false = refl

blank_mode-Fits :
    (m : GradingMode) (most : ℕ)
    → let v : Verdict =
        if is_manual m
        then written_verdict
        else record { status = checked; correct = false; score = some (pos 0) } in
      Fits v.status v.correct v.score most
blank_mode-Fits manual most = (refl, refl)
blank_mode-Fits auto most = refl

pub blank-Fits :
    (item : Task)
    → Fits
        (blank_verdict item).status
        (blank_verdict item).correct
        (blank_verdict item).score
        item.max_points
blank-Fits item = blank_mode-Fits item.grading_mode item.max_points

submission-IsGraded :
    (env : Env) (db : Db) (att : Attempt) (task : Task) (id k : ℕ) (raw : Text) (time_ms : ℤ)
    (v : Verdict)
    → judge env db att task raw ≡ ok v
    → IsGraded (submission db id k raw time_ms task.max_points v)
submission-IsGraded env db att task id k raw time_ms v h =
    rw (judge-verdict env db att task raw v h)
      (judge-Fits env task raw (is_manual task.grading_mode))

-- An accepted answer keeps the points of all answers in order.
pub submit_answer-IsGraded :
    (env : Env) (db : Db) (id task_id : ℕ) (raw : Text) (time_ms : ℤ) (after : Db) (row : Answer)
    → submit_answer env db id task_id raw time_ms ≡ ok (after, row)
    → All IsGraded db.answers
    → All IsGraded after.answers
unfolding insert_answer
submit_answer-IsGraded env db id task_id raw time_ms after row h g =
    let s = submit_answer-Submitted env db id task_id raw time_ms after row h in
    let graded =
      submission-IsGraded env db s.att s.task id task_id raw time_ms s.verdict s.judged in
    rw s.after_is (All-append IsGraded db.answers (row ∷ []) g (rw s.row_is graded, tt))
