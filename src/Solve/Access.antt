-- ===== src/Solve/Access.antt =====
-- What the requests of a student may do and show.
use egeism.Base.{
  not, ◌&&◌, if◌then◌else◌, ℕ, ◌≡◌, ◌≢◌, refl, inl, inr, ◌==◌, Bool, true, false, Option, none,
  some, List, [], ◌∷◌, ◌++◌, find, filter, All, Bool-cases, Option-cases, arith,
}
use egeism.Base.Int.{ℤ}
use egeism.Base.Text.{Text}
use egeism.Domain.Entities.{Task, is_manual, done}
use egeism.Checker.Compare.{check}
use egeism.Attempts.Tables.{
  Attempt, Test, Assignment, Answer, checked, Photo, Db, ok, Result-cases, get_attempt, get_test,
  get_task, get_assignment,
}
use egeism.Attempts.Submit.{Env, submit_answer, submission_task}
use egeism.Attempts.Submitted.{submit_answer-Submitted}
use egeism.Attempts.Points.{judge-verdict}
use egeism.Attempts.Review.{is_reviewed}
use egeism.Solve.Handlers.{
  sent, User, is_student, StartReq, may_start, start_guard, start_attempt, new_attempt,
  handle_start_attempt, SubmitReq, SubmitResp, own_attempt, handle_submit_answer,
  set_assignment_status, complete_assignment, ReviewItem, shows_correct, review_items, item_of,
}

-- The user may attempt the test: it is assigned to the user, or it is the user's own.
abbrev pub MayAttempt : Db → User → StartReq → Option ℕ → Type 0
MayAttempt db user req (some k) =
    (a : Assignment) × (get_assignment db k ≡ some a)
    × (a.student_id ≡ user.id)
    × (a.test_id ≡ req.test_id)
MayAttempt db user req none =
    (t : Test) × (get_test db req.test_id ≡ some t) × (t.created_by ≡ user.id)

start_guard-MayAttempt :
    (db : Db) (user : User) (req : StartReq) (o : Option ℕ)
    → start_guard db user req o ≡ sent tt
    → MayAttempt db user req o
unfolding start_guard
start_guard-MayAttempt db user req none h = elim (Option-cases (get_test db req.test_id)) [
  | inl e ↦ absurd (ground arith)
  | inr (t, e) ↦ (t, e, ground arith)
]
start_guard-MayAttempt db user req (some k) h = elim (Option-cases (get_assignment db k)) [
  | inl e ↦ absurd (ground arith)
  | inr (a, e) ↦ (a, e, ground arith, ground arith)
]

-- An attempt that is started is the user's own and of the test asked for, the user is a student, and
-- the test was assigned to this student by the assignment named, or made by the student.
pub handle_start_attempt-MayAttempt :
    (db after : Db) (user : User) (body : Option StartReq) (att : Attempt) (required : Bool)
    → handle_start_attempt db user body ≡ (after, sent (att, required))
    → (req : StartReq) × (body ≡ some req)
      × (is_student user.role ≡ true)
      × MayAttempt db user req req.assignment_id
      × (att ≡ new_attempt db user req)
      × (after.attempts ≡ db.attempts ++ att ∷ [])
unfolding handle_start_attempt may_start start_attempt
handle_start_attempt-MayAttempt db after user none att required h = absurd (ground arith)
handle_start_attempt-MayAttempt db after user (some req) att required h = (
  req,
  refl,
  ground arith,
  start_guard-MayAttempt db user req req.assignment_id (ground arith),
  ground arith,
  ground arith,
)

submitted-solution :
    (env : Env) (db after : Db) (id task_id : ℕ) (raw : Text) (time_ms : ℤ) (row : Answer)
    (task : Task)
    → submit_answer env db id task_id raw time_ms ≡ ok (after, row)
    → get_task db task_id ≡ some task
    → row.is_correct ≡ false
    → row.review_status ≡ checked
    → (is_manual task.grading_mode ≡ false) × (check env.std task.answer_schema raw ≡ false)
unfolding submission_task
submitted-solution env db after id task_id raw time_ms row task h found wrong status =
    let s = submit_answer-Submitted env db id task_id raw time_ms after row h in
    let v = judge-verdict env db s.att s.task raw s.verdict s.judged in
    let same : s.task ≡ task = ground (arith, s.task_found) in ground (arith, s.row_is, same, v)

-- The right answers are sent only after a wrong short answer: if the reply to a submission holds a
-- solution, the attempt is the user's own, the task is not a written one, and the checker refused
-- what was submitted.
pub handle_submit_answer-solution :
    (env : Env) (db after : Db) (user : User) (id : ℕ) (req : SubmitReq) (resp : SubmitResp)
    → handle_submit_answer env db user (some id) (some req) ≡ sent (after, resp)
    → resp.solution ≢ []
    → (att : Attempt) × (task : Task) × (get_attempt db id ≡ some att)
      × (att.student_id ≡ user.id)
      × (get_task db req.task_id ≡ some task)
      × (resp.solution ≡ task.answer_schema.correct)
      × (is_manual task.grading_mode ≡ false)
      × (check env.std task.answer_schema req.raw_answer ≡ false)
unfolding handle_submit_answer own_attempt
handle_submit_answer-solution env db after user id req resp h shown =
    elim (Option-cases (get_attempt db id)) [
      | inl e ↦ absurd (ground arith)
      | inr (att, e) ↦ elim (Option-cases (get_task db req.task_id)) [
        | inl f ↦ absurd (ground arith)
        | inr (task, f) ↦
            elim (Result-cases
              (submit_answer env db id req.task_id req.raw_answer req.time_spent_ms)) [
                | inl (x, g) ↦ absurd (ground arith)
                | inr ((after', row), g) ↦
                    let wrong : row.is_correct ≡ false = ground arith in
                    let status : row.review_status ≡ checked = ground arith in
                    let (short, refused_by) =
                      submitted-solution env db after' id req.task_id req.raw_answer
                        req.time_spent_ms row task g f wrong status in
                    (att, task, e, ground arith, f, ground arith, short, refused_by)
              ]
      ]
    ]

shows_correct-student :
    (user : User) (task : Task) (a : Answer)
    → is_student user.role ≡ true
    → is_reviewed a.review_status ≡ false
    → is_manual task.grading_mode ≡ true
    → shows_correct user task a ≡ false
unfolding shows_correct
shows_correct-student user task a s r m = ground arith

-- A written task whose answer waits for its review.
abbrev pub awaits : Option Task → Answer → Bool
awaits none a = false
awaits (some task) a = is_manual task.grading_mode && not (is_reviewed a.review_status)

-- The item shows no right answer of such a task.
abbrev pub IsDiscreet : Db → ReviewItem → Type 0
IsDiscreet db i = (if awaits (get_task db i.answer.task_id) i.answer then i.correct else []) ≡ []

item_of-IsDiscreet :
    (db : Db) (user : User) (a : Answer) (photos : List Photo) (o : Option Task)
    → is_student user.role ≡ true
    → get_task db a.task_id ≡ o
    → IsDiscreet db (item_of user a photos o)
item_of-IsDiscreet db user a photos none s e = rw e refl
item_of-IsDiscreet db user a photos (some t) s e =
    rw e (ground (arith, shows_correct-student user t a s))

-- A student who reads the review of an attempt does not see the right answers of a written task
-- before the answer to it is reviewed.
pub review_items-IsDiscreet :
    (db : Db) (user : User) (photos : List Photo) (rows : List Answer)
    → is_student user.role ≡ true
    → All (IsDiscreet db) (review_items db user photos rows)
unfolding review_items
review_items-IsDiscreet db user photos [] s = tt
review_items-IsDiscreet db user photos (a ∷ rows) s = (
  item_of-IsDiscreet db user a (filter (λ p. p.task_id == a.task_id) photos) (get_task db a.task_id)
      s refl,
  review_items-IsDiscreet db user photos rows s,
)

find-set_status :
    (k : ℕ) (rows : List Assignment) (a : Assignment)
    → find (λ x. x.id == k) rows ≡ some a
    → find (λ x. x.id == k) (set_assignment_status k done rows) ≡ some (record a { status = done })
unfolding set_assignment_status
find-set_status k [] a h = cc
find-set_status k (x ∷ rows) a h = elim (Bool-cases (x.id == k)) [
  | inl e ↦ ground arith
  | inr e ↦ ground (arith, find-set_status k rows a)
]

-- An assignment is completed once: a second attempt of it that is finished adds no notification and
-- changes nothing.
pub complete_assignment-once :
    (db : Db) (k first second : ℕ)
    → complete_assignment (complete_assignment db k first) k second ≡ complete_assignment db k first
unfolding complete_assignment get_assignment
complete_assignment-once db k first second = elim (Option-cases (get_assignment db k)) [
  | inl e ↦ ground arith
  | inr (a, e) ↦ ground (arith, find-set_status k db.assignments a e)
]
