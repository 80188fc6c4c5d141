-- ===== src/Accounts/Rosters.antt =====
-- Classes and the students of a teacher: internal/api/classes.go, internal/api/students.go,
-- handleCreateStudent of internal/api/telegram_auth.go, and their operations
-- in internal/store/repo_classes.go and internal/store/repo_users.go.
use egeism.Base.{
  ℕ, ◌+◌, ◌==◌, Bool, not, ◌&&◌, Option, none, some, List, [], ◌∷◌, ◌++◌, filter, any,
  if◌then◌else◌,
}
use egeism.Base.Text.{Text}
use egeism.Domain.Entities.{student}
use egeism.Checker.Normalize.{trim_space}
use egeism.Solve.Handlers.{Reply, sent, refused, ◌>>=◌, ◌>>◌, refuse_if, found}
use egeism.Accounts.Tables.{
  Account, Class, Member, Db, is_student, get_user, get_class, is_teacher_of,
}
use egeism.Accounts.Credentials.{Library, require_teacher, create_account}
use egeism.Accounts.Panel.{is_nonempty}

-- CreateEnrollment, an upsert.
unfoldable pub create_enrollment : Db → ℕ → ℕ → Db
create_enrollment db teacher_id student_id =
    if is_teacher_of db teacher_id student_id then db else record db {
      enrollments =
          db.enrollments ++ record { teacher_id = teacher_id; student_id = student_id } ∷ [];
    }

abbrev pub is_member_of : ℕ → ℕ → Member → Bool
is_member_of class_id student_id m = (m.class_id == class_id) && (m.student_id == student_id)

-- AddClassMember of the queries: a second row is not inserted.
abbrev pub insert_member : Db → ℕ → ℕ → Db
insert_member db class_id student_id =
    if any (is_member_of class_id student_id) db.members then db else record db {
      members = db.members ++ record { class_id = class_id; student_id = student_id } ∷ [];
    }

-- AddClassMember: the membership and the enrollment in one transaction.
unfoldable pub add_class_member : Db → ℕ → ℕ → ℕ → Db
add_class_member db class_id teacher_id student_id =
    create_enrollment (insert_member db class_id student_id) teacher_id student_id

-- RemoveClassMember; `none` is ErrNotFound.
unfoldable pub remove_class_member : Db → ℕ → ℕ → Option Db
remove_class_member db class_id student_id =
    if any (is_member_of class_id student_id) db.members
    then some
        (record db { members = filter (λ m. not (is_member_of class_id student_id m)) db.members })
    else none

-- RemoveStudentFromTeacherClasses.
abbrev pub is_in_class_of : List Class → ℕ → ℕ → Member → Bool
is_in_class_of classes teacher_id student_id m =
    (m.student_id == student_id)
    && any (λ c. (c.id == m.class_id) && (c.teacher_id == teacher_id)) classes

-- UnenrollStudent: one transaction; `none` is ErrNotFound.
unfoldable pub unenroll_student : Db → ℕ → ℕ → Option Db
unenroll_student db teacher_id student_id =
    if is_teacher_of db teacher_id student_id
    then some (record db {
      members = filter (λ m. not (is_in_class_of db.classes teacher_id student_id m)) db.members;
      enrollments =
          filter (λ e. not ((e.teacher_id == teacher_id) && (e.student_id == student_id)))
            db.enrollments;
    })
    else none

unfoldable pub create_class : Db → ℕ → Text → Class × Db
create_class db teacher_id name =
    let class : Class = record { id = db.next_id; teacher_id = teacher_id; name = name } in
    (class, record db { classes = db.classes ++ class ∷ []; next_id = db.next_id + 1 })

-- RenameClass, on the rows.
unfoldable pub rename_rows : ℕ → Text → List Class → List Class
rename_rows k name [] = []
rename_rows k name (c ∷ rows) =
    (if c.id == k then record c { name = name } else c) ∷ rename_rows k name rows

-- DeleteClass, with the memberships that the foreign key cascades to.
unfoldable pub delete_class : Db → ℕ → Db
delete_class db k = record db {
  classes = filter (λ c. not (c.id == k)) db.classes;
  members = filter (λ m. not (m.class_id == k)) db.members;
}

-- The class, if it is the acting teacher's own.
unfoldable pub class_owned : Db → Account → ℕ → Reply Class
class_owned db user class_id = do
  class ← found (get_class db class_id) 404
  refuse_if (not (class.teacher_id == user.id)) 403
  sent class

unfoldable pub own_class_param : Db → Account → Option ℕ → Reply ℕ
own_class_param db user param = do
  require_teacher user
  class_id ← found param 400
  class ← class_owned db user class_id
  sent class_id

-- The tables of a reply, or those from before.
abbrev pub kept : Db → Reply Db → Db × Reply (Unit {0})
kept db (refused c) = (db, refused c)
kept db (sent after) = (after, sent tt)

-- A name that is not blank.
abbrev pub class_name : Option Text → Reply Text
class_name body = do
  name ← found body 400
  refuse_if (not (is_nonempty (trim_space name))) 400
  sent (trim_space name)

unfoldable pub created_class : Db → Account → Option Text → Reply Db
created_class db user body = do
  require_teacher user
  name ← class_name body
  sent (create_class db user.id name).1

unfoldable pub handle_create_class : Db → Account → Option Text → Db × Reply (Unit {0})
handle_create_class db user body = kept db (created_class db user body)

unfoldable pub renamed_class : Db → Account → Option ℕ → Option Text → Reply Db
renamed_class db user param body = do
  class_id ← own_class_param db user param
  name ← class_name body
  sent (record db { classes = rename_rows class_id name db.classes })

unfoldable pub handle_rename_class : Db → Account → Option ℕ → Option Text → Db × Reply (Unit {0})
handle_rename_class db user param body = kept db (renamed_class db user param body)

unfoldable pub deleted_class : Db → Account → Option ℕ → Reply Db
deleted_class db user param = do
  class_id ← own_class_param db user param
  sent (delete_class db class_id)

unfoldable pub handle_delete_class : Db → Account → Option ℕ → Db × Reply (Unit {0})
handle_delete_class db user param = kept db (deleted_class db user param)

unfoldable pub added_member : Db → Account → Option ℕ → Option ℕ → Reply Db
added_member db user param body = do
  class_id ← own_class_param db user param
  student_id ← found body 400
  row ← found (get_user db student_id) 404
  refuse_if (not (is_student row.role)) 400
  sent (add_class_member db class_id user.id student_id)

unfoldable pub handle_add_class_member : Db → Account → Option ℕ → Option ℕ → Db × Reply (Unit {0})
handle_add_class_member db user param body = kept db (added_member db user param body)

unfoldable pub removed_member : Db → Account → Option ℕ → Option ℕ → Reply Db
removed_member db user param target = do
  class_id ← own_class_param db user param
  student_id ← found target 400
  found (remove_class_member db class_id student_id) 404

unfoldable pub handle_remove_class_member :
    Db → Account → Option ℕ → Option ℕ → Db × Reply (Unit {0})
handle_remove_class_member db user param target = kept db (removed_member db user param target)

-- studentParam.
unfoldable pub student_param : Db → Account → Option ℕ → Reply ℕ
student_param db user param = do
  require_teacher user
  id ← found param 400
  row ← found (get_user db id) 404
  refuse_if (not (is_student row.role)) 400
  sent id

unfoldable pub enrolled : Db → Account → Option ℕ → Reply Db
enrolled db user param = do id ← student_param db user param; sent (create_enrollment db user.id id)

unfoldable pub handle_enroll_student : Db → Account → Option ℕ → Db × Reply (Unit {0})
handle_enroll_student db user param = kept db (enrolled db user param)

unfoldable pub unenrolled : Db → Account → Option ℕ → Reply Db
unenrolled db user param = do
  id ← student_param db user param
  found (unenroll_student db user.id id) 404

unfoldable pub handle_unenroll_student : Db → Account → Option ℕ → Db × Reply (Unit {0})
handle_unenroll_student db user param = kept db (unenrolled db user param)

pub record CreateStudentReq : Type 0 where
  pub name : Text
  pub username : Text
  pub password : Text
  pub class_id : Option ℕ

-- The class of the request is checked before the account is made.
abbrev pub class_checked : Db → Account → Option ℕ → Reply (Unit {0})
class_checked db user none = sent tt
class_checked db user (some k) = do class ← class_owned db user k; sent tt

abbrev pub placed : Db → ℕ → ℕ → Option ℕ → Db
placed db teacher_id student_id none = db
placed db teacher_id student_id (some k) = add_class_member db k teacher_id student_id

unfoldable pub created_student : Library → Db → Account → Option CreateStudentReq → Reply Db
created_student lib db user body = do
  require_teacher user
  req ← found body 400
  class_checked db user req.class_id
  (row, after) ← create_account lib db student req.name req.username req.password none
  sent (placed (create_enrollment after user.id row.id) user.id row.id req.class_id)

unfoldable pub handle_create_student :
    Library → Db → Account → Option CreateStudentReq → Db × Reply (Unit {0})
handle_create_student lib db user body = kept db (created_student lib db user body)
