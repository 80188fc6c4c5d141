-- ===== src/Accounts/Panel.antt =====
-- internal/api/admin_users.go: the accounts as an admin edits them. `actor` is the acting user as it
-- was when the request was authenticated, which may be before another request changed it.
use egeism.Base.{
  ℕ, ◌==◌, leb, Bool, true, false, not, ◌&&◌, ◌||◌, Option, none, some, List, [], ◌∷◌, filter,
  if◌then◌else◌,
}
use egeism.Base.Text.{Text, codes, text_eq}
use egeism.Domain.Learning.{SubjectCode, rus, math, inf, soc}
use egeism.Domain.Entities.{Role, student, teacher, admin}
use egeism.Checker.Normalize.{trim_space}
use egeism.Solve.Handlers.{Reply, sent, refused, ◌>>=◌, ◌>>◌, refuse_if, found}
use egeism.Accounts.Tables.{
  Account, Class, Db, Deleted, deleted, in_use, missing, get_user, set_user_name,
  set_user_role_subject, set_user_active, set_user_password, is_active_admin, is_teacher,
  count_active_admins, delete_user,
}
use egeism.Accounts.Credentials.{
  Library, proceed, validate_new_credentials, create_account, require_admin, valid_role_subject,
}

pub record AdminCreateUserReq : Type 0 where
  pub role : Text
  pub name : Text
  pub username : Text
  pub password : Text
  pub subject : Option Text

pub record AdminUpdateUserReq : Type 0 where
  pub name : Option Text
  pub role : Option Text
  pub subject : Option Text
  pub is_active : Option Bool
  pub password : Option Text

-- The tables after a store operation that found its row.
abbrev pub stored : Db → Option (Account × Db) → Db × Reply Account
stored db none = (db, refused 404)
stored db (some (user, after)) = (after, sent user)

-- The tables that a reply carries, or those from before.
abbrev pub saved : Db → Reply (Account × Db) → Db × Reply Account
saved db (refused c) = (db, refused c)
saved db (sent (user, after)) = (after, sent user)

unfoldable pub created_user :
    Library → Db → Account → Option AdminCreateUserReq → Reply (Account × Db)
created_user lib db actor body = do
  require_admin actor
  req ← found body 400
  (role, subject) ← valid_role_subject req.role req.subject
  create_account lib db role req.name req.username req.password subject

unfoldable pub handle_admin_create_user :
    Library → Db → Account → Option AdminCreateUserReq → Db × Reply Account
handle_admin_create_user lib db actor body = saved db (created_user lib db actor body)

abbrev pub is_some {ℓ} : {A : Type ℓ} → Option A → Bool
is_some none = false
is_some (some a) = true

abbrev pub turns_off : Option Bool → Bool
turns_off (some false) = true
turns_off _ = false

-- Is another role asked for?
abbrev pub leaves : Text → Option Text → Bool
leaves role none = false
leaves role (some wanted) = not (text_eq wanted role)

abbrev pub role_name : Role → Text
role_name student = codes "student"
role_name teacher = codes "teacher"
role_name admin = codes "admin"

abbrev pub subject_name : SubjectCode → Text
subject_name rus = codes "rus"
subject_name math = codes "math"
subject_name inf = codes "inf"
subject_name soc = codes "soc"

-- ListClassesForTeacher.
unfoldable pub list_classes_for_teacher : Db → ℕ → List Class
list_classes_for_teacher db k = filter (λ c. c.teacher_id == k) db.classes

abbrev pub is_nonempty {ℓ} : {A : Type ℓ} → List A → Bool
is_nonempty [] = false
is_nonempty (x ∷ xs) = true

-- The guards before the first change.
unfoldable pub may_update : Db → Account → ℕ → AdminUpdateUserReq → Reply Account
may_update db actor id req = do
  user ← found (get_user db id) 404
  refuse_if ((id == actor.id) && (is_some req.role || turns_off req.is_active)) 400
  refuse_if
      (is_active_admin user
        && ((leaves (codes "admin") req.role || turns_off req.is_active)
            && leb (count_active_admins db) 1))
      409
  refuse_if
      (is_teacher user.role
        && (leaves (codes "teacher") req.role && is_nonempty (list_classes_for_teacher db id)))
      409
  sent user

unfoldable pub update_name : Db → ℕ → Option Text → Account → Db × Reply Account
update_name db id none user = (db, sent user)
update_name db id (some s) user = elim (trim_space s) [
  | [] ↦ (db, refused 400)
  | c ∷ name ↦ stored db (set_user_name db id (c ∷ name))
]

abbrev pub named_subject : Option SubjectCode → Option Text
named_subject none = none
named_subject (some code) = some (subject_name code)

abbrev pub wanted_role : Option Text → Account → Text
wanted_role none user = role_name user.role
wanted_role (some role) user = role

-- The subject stays as it is unless it is sent or the role changes.
abbrev pub wanted_subject : Text → Option Text → Account → Option Text
wanted_subject role (some s) user = some s
wanted_subject role none user =
    if text_eq role (role_name user.role) then named_subject user.subject else none

abbrev pub set_checked : Db → ℕ → Reply (Role × Option SubjectCode) → Db × Reply Account
set_checked db id (refused c) = (db, refused c)
set_checked db id (sent (role, subject)) = stored db (set_user_role_subject db id role subject)

unfoldable pub update_role : Db → ℕ → Option Text → Option Text → Account → Db × Reply Account
update_role db id role subject user =
    let wanted = wanted_role role user in
    if is_some role || is_some subject
    then set_checked db id (valid_role_subject wanted (wanted_subject wanted subject user))
    else (db, sent user)

unfoldable pub update_active : Db → ℕ → Option Bool → Account → Db × Reply Account
update_active db id none user = (db, sent user)
update_active db id (some active) user = stored db (set_user_active db id active)

-- The new password's hash.
unfoldable pub checked_hash : Library → Text → Reply Text
checked_hash lib password = do
  name ← found (validate_new_credentials lib (codes "___") password) 400
  found (lib.hash password) 500

-- The reply holds the account as it was before the new password.
abbrev pub set_hash : Db → ℕ → Account → Reply Text → Db × Reply Account
set_hash db id user (refused c) = (db, refused c)
set_hash db id user (sent hash) =
    proceed (stored db (set_user_password db id hash)) (λ after row. (after, sent user))

unfoldable pub update_password : Library → Db → ℕ → Option Text → Account → Db × Reply Account
update_password lib db id none user = (db, sent user)
update_password lib db id (some password) user = set_hash db id user (checked_hash lib password)

-- The changes, each kept when a later one is refused.
unfoldable pub apply_update : Library → Db → ℕ → AdminUpdateUserReq → Account → Db × Reply Account
apply_update lib db id req user = proceed (update_name db id req.name user) (λ db1 user1.
    proceed (update_role db1 id req.role req.subject user1) (λ db2 user2.
      proceed (update_active db2 id req.is_active user2)
        (λ db3 user3. update_password lib db3 id req.password user3)))

abbrev pub update_if : Library → Db → AdminUpdateUserReq → ℕ → Reply Account → Db × Reply Account
update_if lib db req id (refused c) = (db, refused c)
update_if lib db req id (sent user) = apply_update lib db id req user

-- The id and the body of the request.
abbrev pub parsed {ℓ} : {A : Type ℓ} → Account → Option ℕ → Option A → Reply (ℕ × A)
parsed actor target body = do
  require_admin actor
  id ← found target 400
  req ← found body 400
  sent (id, req)

abbrev pub update_parsed :
    Library → Db → Account → Reply (ℕ × AdminUpdateUserReq) → Db × Reply Account
update_parsed lib db actor (refused c) = (db, refused c)
update_parsed lib db actor (sent (id, req)) = update_if lib db req id (may_update db actor id req)

unfoldable pub handle_admin_update_user :
    Library → Db → Account → Option ℕ → Option AdminUpdateUserReq → Db × Reply Account
handle_admin_update_user lib db actor target body =
    update_parsed lib db actor (parsed actor target body)

-- Would no active admin be left?
abbrev pub is_last_admin : Db → Option Account → Bool
is_last_admin db none = false
is_last_admin db (some user) = is_active_admin user && leb (count_active_admins db) 1

abbrev pub removed : Db → Deleted → Db × Reply (Unit {0})
removed db (deleted after) = (after, sent tt)
removed db in_use = (db, refused 409)
removed db missing = (db, refused 404)

unfoldable pub may_delete : Db → Account → Option ℕ → Reply ℕ
may_delete db actor target = do
  require_admin actor
  id ← found target 400
  refuse_if (id == actor.id) 400
  refuse_if (is_last_admin db (get_user db id)) 409
  sent id

abbrev pub delete_if : Db → Reply ℕ → Db × Reply (Unit {0})
delete_if db (refused c) = (db, refused c)
delete_if db (sent id) = removed db (delete_user db id)

unfoldable pub handle_admin_delete_user : Db → Account → Option ℕ → Db × Reply (Unit {0})
handle_admin_delete_user db actor target = delete_if db (may_delete db actor target)
