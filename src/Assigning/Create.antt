-- ===== src/Assigning/Create.antt =====
-- handleCreateAssignment and createAssignmentFor of internal/api/admin.go. The tables of tests and
-- assignments are those of the attempts, the users and the classes those of the accounts. Times are
-- in seconds. `draw` holds the clock and the random order for a student's own variant. The order of
-- a class by name is left out, and so are failures of the database and of the queue.
use egeism.Base.{
  map, ℕ, ◌+◌, ltb, Bool, true, false, not, Option, none, some, List, [], ◌∷◌, ◌++◌, filter, any,
  if◌then◌else◌,
}
use egeism.Base.Text.{codes}
use egeism.Domain.Entities.{Task, scheduled}
use egeism.Attempts.Tables.{
  Test, Assignment, assignment_created, Db, Result, ok, err, get_test, list_test_items,
}
use egeism.Variants.Assemble.{Draw, is_usable, generate_variant_like}
use egeism.Solve.Handlers.{
  Reply, sent, refused, ◌>>=◌, ◌>>◌, refuse_if, found, User, People, test_in_scope,
}
use egeism.Accounts.Tables.{Account, Db as Accounts, get_user, is_teacher_of}
use egeism.Accounts.Credentials.{require_teacher}
use egeism.Accounts.Panel.{is_nonempty}
use egeism.Accounts.Rosters.{is_member_of, class_owned}

pub record CreateAssignmentReq : Type 0 where
  pub test_id : ℕ
  pub student_id : Option ℕ
  pub class_id : Option ℕ
  pub require_solution : Bool
  pub scheduled_at : ℕ
  pub due_at : Option ℕ
  pub notify : Option Bool
  pub individual : Bool

-- An assignment that was made: its times, and whether its message is queued or marked as sent.
pub record Created : Type 0 where
  pub assignment : Assignment
  pub scheduled_at : ℕ
  pub due_at : Option ℕ
  pub queued : Bool

pub data Target : Type 0 where
  to_student to_class : ℕ → Target

-- Exactly one of the two.
unfoldable pub target_of : Option ℕ → Option ℕ → Reply Target
target_of (some k) none = sent (to_student k)
target_of none (some c) = sent (to_class c)
target_of _ _ = refused 400

unfoldable pub validate_deadline : ℕ → Option ℕ → Bool
validate_deadline at none = true
validate_deadline at (some due) = ltb at due

abbrev pub user_of : Account → User
user_of a = record { id = a.id; role = a.role; subject = a.subject }

-- ListClassMembers.
unfoldable pub list_class_members : Accounts → ℕ → List Account
list_class_members acc class_id =
    filter (λ u. any (is_member_of class_id u.id) acc.members) acc.users

-- The students who get the test.
unfoldable pub targets : Accounts → Account → Target → Reply (List Account)
targets acc teacher (to_student k) = do
  refuse_if (not (is_teacher_of acc teacher.id k)) 403
  student ← found (get_user acc k) 404
  sent (student ∷ [])
targets acc teacher (to_class c) = do
  class ← class_owned acc teacher c
  let students = filter (λ u. u.is_active) (list_class_members acc c)
  refuse_if (not (is_nonempty students)) 422
  sent students

-- A student's own variant, or the shared test when there is none.
abbrev pub variant_or_shared : Db → ℕ → Result (Db × ℕ) → Db × ℕ
variant_or_shared db test_id (err e) = (db, test_id)
variant_or_shared db test_id (ok (after, n)) = (after, db.next_id)

unfoldable pub test_for : Draw → Db → Test → Account → Account → CreateAssignmentReq → Db × ℕ
test_for d db test teacher student req =
    if req.individual
    then variant_or_shared db req.test_id
        (generate_variant_like d db test teacher.id (test.title ++ (codes " · " ++ student.name)))
    else (db, req.test_id)

abbrev pub is_opt_out : Option Bool → Bool
is_opt_out (some false) = true
is_opt_out _ = false

abbrev pub new_assignment : Db → ℕ → ℕ → ℕ → Bool → Assignment
new_assignment db test_id student_id teacher_id require_solution = record {
  id = db.next_id;
  test_id = test_id;
  student_id = student_id;
  assigned_by = teacher_id;
  require_solution = require_solution;
  status = scheduled;
}

-- createAssignmentFor, with CreateAssignment and CreateNotification of the store.
unfoldable pub create_assignment_for : Db → ℕ → ℕ → ℕ → CreateAssignmentReq → Db × Created
create_assignment_for db test_id student_id teacher_id req =
    let row = new_assignment db test_id student_id teacher_id req.require_solution in
    (
      record db {
        assignments = db.assignments ++ row ∷ [];
        notifications =
            db.notifications
            ++ record {
              user_id = student_id;
              kind = assignment_created;
              assignment_id = some db.next_id;
              attempt_id = none;
            }
              ∷ [];
        next_id = db.next_id + 1;
      },
      record {
        assignment = row;
        scheduled_at = req.scheduled_at;
        due_at = req.due_at;
        queued = not (is_opt_out req.notify);
      },
    )

-- The loop over the students.
unfoldable pub assign_all :
    Draw → Db → Test → Account → CreateAssignmentReq → List Account → Db × List Created
assign_all d db test teacher req [] = (db, [])
assign_all d db test teacher req (student ∷ students) =
    let (db1, test_id) = test_for d db test teacher student req in
    let (db2, row) = create_assignment_for db1 test_id student.id teacher.id req in
    let (after, rows) = assign_all d db2 test teacher req students in (after, row ∷ rows)

-- ListTestTasks: the rows of ListTestItems, which have no source.
unfoldable pub list_test_tasks : Db → ℕ → List Task
list_test_tasks db test_id =
    map (λ (t : Task). record t { source = none }) (list_test_items db test_id)

-- Every task that is listed is active and current.
unfoldable pub is_fresh : Draw → Db → ℕ → Bool
is_fresh d db test_id = not (any (λ t. not (is_usable d t)) (list_test_tasks db test_id))

-- The guards: the body, the test and the students.
unfoldable pub may_assign :
    Draw
    → People
    → Db
    → Accounts
    → Account
    → Option CreateAssignmentReq
    → Reply (CreateAssignmentReq × Test × List Account)
may_assign d people db acc teacher body = do
  require_teacher teacher
  req ← found body 400
  target ← target_of req.student_id req.class_id
  refuse_if (not (validate_deadline req.scheduled_at req.due_at)) 400
  test_in_scope people db (user_of teacher) req.test_id teacher.subject
  test ← found (get_test db req.test_id) 404
  refuse_if (not (is_fresh d db test.id)) 422
  students ← targets acc teacher target
  sent (req, test, students)

abbrev pub assign_if :
    Draw
    → Db
    → Account
    → Reply (CreateAssignmentReq × Test × List Account)
    → Db × Reply (List Created)
assign_if d db teacher (refused c) = (db, refused c)
assign_if d db teacher (sent (req, test, students)) =
    let (after, rows) = assign_all d db test teacher req students in
    (after, (if is_nonempty rows then sent rows else refused 500))

unfoldable pub handle_create_assignment :
    Draw → People → Db → Accounts → Account → Option CreateAssignmentReq → Db × Reply (List Created)
handle_create_assignment d people db acc teacher body =
    assign_if d db teacher (may_assign d people db acc teacher body)
