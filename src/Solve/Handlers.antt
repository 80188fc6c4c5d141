-- ===== src/Solve/Handlers.antt =====
-- internal/api/solve.go, with the guards of internal/api/admin.go and the status codes of
-- internal/api/response.go. A request arrives parsed: `none` stands for a path or a body that is
-- refused as malformed. The nil id is 0. What is logged only is left out.
use egeism.Base.{
  ℕ, ◌+◌, ◌==◌, Bool, true, false, not, ◌&&◌, ◌||◌, Option, none, some, List, [], ◌∷◌, ◌++◌, filter,
  if◌then◌else◌,
}
use egeism.Base.Int.{ℤ}
use egeism.Base.Text.{Text}
use egeism.Domain.Answer.{AnswerType}
use egeism.Domain.Learning.{SubjectCode}
use egeism.Domain.Entities.{Task, Role, student, teacher, admin, is_manual, AssignmentStatus, done}
use egeism.Attempts.Tables.{
  Attempt, Assignment, Answer, ReviewStatus, checked, Photo, assignment_done, Db, Error, not_found,
  internal, Result, ok, err, get_attempt, get_test, get_task, get_assignment, list_answers,
  list_photos,
}
use egeism.Attempts.Submit.{Env, submit_answer}
use egeism.Attempts.Finish.{finish_submission}
use egeism.Attempts.Review.{is_reviewed}

-- An answer with a body, or an error with its status code.
pub data Reply {ℓ} (A : Type ℓ) : Type ℓ where
  sent : A → Reply A
  refused : ℕ → Reply A

-- The first refusal is the answer.
infixl 5 ◌>>=◌
abbrev pub ◌>>=◌ {ℓ κ} : {A : Type ℓ} {B : Type κ} → Reply A → (A → Reply B) → Reply B
refused code >>= rest = refused code
sent body >>= rest = rest body

infixl 5 ◌>>◌
abbrev pub ◌>>◌ {ℓ} : {B : Type ℓ} → Reply (Unit {0}) → Reply B → Reply B
check >> rest = check >>= λ _. rest

abbrev pub refuse_if : Bool → ℕ → Reply (Unit {0})
refuse_if true c = refused c
refuse_if false c = sent tt

abbrev pub found {ℓ} : {A : Type ℓ} → Option A → ℕ → Reply A
found none c = refused c
found (some a) c = sent a

-- writeStoreErr: the other errors are validation errors.
unfoldable pub store_status : Error → ℕ
store_status not_found = 404
store_status internal = 500
store_status _ = 422

abbrev pub stored {ℓ} : {A : Type ℓ} → Result A → Reply A
stored (ok a) = sent a
stored (err e) = refused (store_status e)

pub record User : Type 0 where
  pub id : ℕ
  pub role : Role
  pub subject : Option SubjectCode

-- The tables of the subjects and of the enrollments.
pub record People : Type 0 where
  pub subject_id : SubjectCode → Option ℕ
  pub teaches : ℕ → ℕ → Bool

abbrev pub is_student : Role → Bool
is_student student = true
is_student _ = false

pub record StartReq : Type 0 where
  pub test_id : ℕ
  pub assignment_id : Option ℕ

-- An attempt of an assignment is by its student and for its test; any other is of the student's own
-- test.
unfoldable pub start_guard : Db → User → StartReq → Option ℕ → Reply (Unit {0})
start_guard db user req (some k) = do
  asg ← found (get_assignment db k) 404
  refuse_if (not (asg.student_id == user.id)) 403
  refuse_if (not (asg.test_id == req.test_id)) 400
start_guard db user req none = do
  test ← found (get_test db req.test_id) 404
  refuse_if (not (test.created_by == user.id)) 403

unfoldable pub may_start : Db → User → Option StartReq → Reply StartReq
may_start db user body = do
  refuse_if (not (is_student user.role)) 403
  req ← found body 400
  refuse_if (req.test_id == 0) 400
  start_guard db user req req.assignment_id
  sent req

abbrev pub new_attempt : Db → User → StartReq → Attempt
new_attempt db user req = record {
  id = db.next_id;
  assignment_id = req.assignment_id;
  test_id = req.test_id;
  student_id = user.id;
  finished_at = none;
}

unfoldable pub start_attempt : Db → User → StartReq → Db
start_attempt db user req = record db {
  attempts = db.attempts ++ new_attempt db user req ∷ [];
  next_id = db.next_id + 1;
}

-- The flag of the answer: whether the assignment asks for photos.
abbrev pub required_of : Db → Option ℕ → Reply Bool
required_of db none = sent false
required_of db (some k) = do asg ← found (get_assignment db k) 404; sent asg.require_solution

unfoldable pub handle_start_attempt : Db → User → Option StartReq → Db × Reply (Attempt × Bool)
handle_start_attempt db user body = elim (may_start db user body) [
  | refused c ↦ (db, refused c)
  | sent req ↦
      let after = start_attempt db user req in
      (
        after,
        do required ← required_of after req.assignment_id; sent (new_attempt db user req, required),
      )
]

pub record SubmitReq : Type 0 where
  pub task_id : ℕ
  pub raw_answer : Text
  pub time_spent_ms : ℤ

pub record SubmitResp : Type 0 where
  pub review_status : ReviewStatus
  pub is_correct : Bool
  pub answer_id : ℕ
  pub solution : List Text

abbrev pub is_checked : ReviewStatus → Bool
is_checked checked = true
is_checked _ = false

-- The attempt, if it is the student's own.
unfoldable pub own_attempt : Db → User → ℕ → Reply Attempt
own_attempt db user attempt_id = do
  att ← found (get_attempt db attempt_id) 404
  refuse_if (not (att.student_id == user.id)) 403
  sent att

abbrev pub submit_resp : Task → Answer → SubmitResp
submit_resp task ans = record {
  review_status = ans.review_status;
  is_correct = ans.is_correct;
  answer_id = ans.id;
  solution =
      (if not ans.is_correct && is_checked ans.review_status
        then task.answer_schema.correct
        else []);
}

unfoldable pub handle_submit_answer :
    Env → Db → User → Option ℕ → Option SubmitReq → Reply (Db × SubmitResp)
handle_submit_answer env db user attempt body = do
  attempt_id ← found attempt 400
  req ← found body 400
  refuse_if (req.task_id == 0) 400
  att ← own_attempt db user attempt_id
  task ← found (get_task db req.task_id) 404
  (after, ans) ←
      stored (submit_answer env db attempt_id req.task_id req.raw_answer req.time_spent_ms)
  sent (after, submit_resp task ans)

-- SetAssignmentStatus.
unfoldable pub set_assignment_status : ℕ → AssignmentStatus → List Assignment → List Assignment
set_assignment_status k s [] = []
set_assignment_status k s (a ∷ rows) =
    (if a.id == k then record a { status = s } else a) ∷ set_assignment_status k s rows

abbrev pub is_done : AssignmentStatus → Bool
is_done done = true
is_done _ = false

unfoldable pub complete_assignment : Db → ℕ → ℕ → Db
complete_assignment db assignment_id attempt_id = elim (get_assignment db assignment_id) [
  | none ↦ db
  | some asg ↦ if is_done asg.status then db else record db {
    assignments = set_assignment_status assignment_id done db.assignments;
    notifications =
        db.notifications
        ++ record {
          user_id = asg.assigned_by;
          kind = assignment_done;
          assignment_id = some assignment_id;
          attempt_id = some attempt_id;
        }
          ∷ [];
  }
]

abbrev pub complete_of : Db → Option ℕ → ℕ → Db
complete_of db none attempt_id = db
complete_of db (some k) attempt_id = complete_assignment db k attempt_id

unfoldable pub handle_finish_attempt : Env → Db → User → Option ℕ → Reply Db
handle_finish_attempt env db user attempt = do
  attempt_id ← found attempt 400
  att ← own_attempt db user attempt_id
  after ← stored (finish_submission env db attempt_id)
  sent (complete_of after att.assignment_id att.id)

-- testInScope.
unfoldable pub test_in_scope : People → Db → User → ℕ → Option SubjectCode → Reply (Unit {0})
test_in_scope people db user test_id scope = do
  test ← found (get_test db test_id) 404
  elim scope [
    | none ↦ sent tt
    | some code ↦ do
      sub ← found (people.subject_id code) 404
      refuse_if (not (test.subject_id == sub)) 403
  ]

-- attemptReadable, by the role.
unfoldable pub readable_by : People → Db → User → ℕ → Role → Reply (Unit {0})
readable_by people db user attempt_id admin = sent tt
readable_by people db user attempt_id teacher = do
  att ← found (get_attempt db attempt_id) 404
  refuse_if (not (people.teaches user.id att.student_id)) 403
  test_in_scope people db user att.test_id user.subject
readable_by people db user attempt_id student = do
  att ← found (get_attempt db attempt_id) 404
  refuse_if (not (att.student_id == user.id)) 403

unfoldable pub attempt_readable : People → Db → User → ℕ → Reply (Unit {0})
attempt_readable people db user attempt_id = readable_by people db user attempt_id user.role

-- The fields of the answer that the item repeats are the answer's.
pub record ReviewItem : Type 0 where
  pub answer : Answer
  pub photos : List Photo
  pub number : ℕ
  pub statement : Text
  pub answer_kind : Option AnswerType
  pub correct : List Text

-- Whether the reader of a review sees the right answers of the task.
unfoldable pub shows_correct : User → Task → Answer → Bool
shows_correct user task a =
    not (is_manual task.grading_mode) || (is_reviewed a.review_status || not (is_student user.role))

abbrev pub item_of : User → Answer → List Photo → Option Task → ReviewItem
item_of user a photos none = record {
  answer = a;
  photos = photos;
  number = 0;
  statement = [];
  answer_kind = none;
  correct = [];
}
item_of user a photos (some task) = record {
  answer = a;
  photos = photos;
  number = task.number;
  statement = task.statement;
  answer_kind = some task.answer_schema.type;
  correct = (if shows_correct user task a then task.answer_schema.correct else []);
}

unfoldable pub review_items : Db → User → List Photo → List Answer → List ReviewItem
review_items db user photos [] = []
review_items db user photos (a ∷ rows) =
    item_of user a (filter (λ p. p.task_id == a.task_id) photos) (get_task db a.task_id)
    ∷ review_items db user photos rows

unfoldable pub handle_attempt_review : People → Db → User → Option ℕ → Reply (List ReviewItem)
handle_attempt_review people db user attempt = do
  attempt_id ← found attempt 400
  attempt_readable people db user attempt_id
  sent (review_items db user (list_photos db attempt_id) (list_answers db attempt_id))
