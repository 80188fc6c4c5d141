-- ===== src/Accounts/Tables.antt =====
-- The rows of migrations/00001_init.sql, 00002_auth.sql, 00003_telegram_link_codes.sql,
-- 00005_roles_classes.sql and 00007_password_reset.sql that accounts touch, and the queries of
-- internal/store/queries/users.sql, classes.sql, telegram.sql and password_reset.sql on them. A
-- table is the list of its rows. An id is the primary key of its table, so the first row with it is
-- the only one. Times are in seconds. Failures of the database itself are left out.
use egeism.Base.{
  ℕ, ◌==◌, ltb, Bool, true, false, not, ◌&&◌, ◌||◌, Option, none, some, List, [], ◌∷◌, filter, find,
  any, count, mem, if◌then◌else◌,
}
use egeism.Base.Text.{Text, text_eq}
use egeism.Domain.Learning.{SubjectCode}
use egeism.Domain.Entities.{Role, student, teacher, admin}

-- A Telegram id is only compared, with 0 for a missing one.
pub record Account : Type 0 where
  pub id : ℕ
  pub role : Role
  pub subject : Option SubjectCode
  pub name : Text
  pub username : Option Text
  pub password_hash : Option Text
  pub telegram_id : Option ℕ
  pub is_active : Bool

pub record Enrollment : Type 0 where
  pub teacher_id : ℕ
  pub student_id : ℕ

pub record Class : Type 0 where
  pub id : ℕ
  pub teacher_id : ℕ
  pub name : Text

pub record Member : Type 0 where
  pub class_id : ℕ
  pub student_id : ℕ

-- A reset token or a link code.
pub record Ticket : Type 0 where
  pub code : Text
  pub user_id : ℕ
  pub expires_at : ℕ
  pub used_at : Option ℕ

-- «password_reset_requested».
pub record Notice : Type 0 where
  pub user_id : ℕ
  pub subject_user_id : ℕ
  pub unread : Bool

-- `history` holds the ids that attempts, answers, tests and assignments refer to.
pub record Db : Type 0 where
  pub users : List Account
  pub enrollments : List Enrollment
  pub classes : List Class
  pub members : List Member
  pub resets : List Ticket
  pub links : List Ticket
  pub notices : List Notice
  pub history : List ℕ
  pub next_id : ℕ

abbrev pub is_admin : Role → Bool
is_admin admin = true
is_admin _ = false

abbrev pub is_teacher : Role → Bool
is_teacher teacher = true
is_teacher _ = false

abbrev pub is_student : Role → Bool
is_student student = true
is_student _ = false

-- The first row with the id is replaced.
unfoldable pub replace : ℕ → (Account → Account) → List Account → List Account
replace k f [] = []
replace k f (a ∷ rows) = if a.id == k then f a ∷ rows else a ∷ replace k f rows

unfoldable pub remove : ℕ → List Account → List Account
remove k [] = []
remove k (a ∷ rows) = if a.id == k then rows else a ∷ remove k rows

unfoldable pub get_user : Db → ℕ → Option Account
get_user db k = find (λ a. a.id == k) db.users

abbrev pub holds_text : Text → Option Text → Bool
holds_text t none = false
holds_text t (some s) = text_eq t s

abbrev pub holds_key : ℕ → Option ℕ → Bool
holds_key k none = false
holds_key k (some j) = k == j

unfoldable pub get_user_by_username : Db → Text → Option Account
get_user_by_username db name = find (λ a. holds_text name a.username) db.users

unfoldable pub get_user_by_telegram : Db → ℕ → Option Account
get_user_by_telegram db tg = find (λ a. holds_key tg a.telegram_id) db.users

-- `UPDATE users ... WHERE id = $1 RETURNING *`; no row is ErrNotFound.
unfoldable pub set_user : Db → ℕ → (Account → Account) → Option (Account × Db)
set_user db k f = elim (get_user db k) [
  | none ↦ none
  | some a ↦ some (f a, record db { users = replace k f db.users })
]

unfoldable pub set_user_name : Db → ℕ → Text → Option (Account × Db)
set_user_name db k name = set_user db k (λ a. record a { name = name })

unfoldable pub set_user_role_subject : Db → ℕ → Role → Option SubjectCode → Option (Account × Db)
set_user_role_subject db k role subject =
    set_user db k (λ a. record a { role = role; subject = subject })

unfoldable pub set_user_active : Db → ℕ → Bool → Option (Account × Db)
set_user_active db k active = set_user db k (λ a. record a { is_active = active })

unfoldable pub set_user_password : Db → ℕ → Text → Option (Account × Db)
set_user_password db k hash = set_user db k (λ a. record a { password_hash = some hash })

abbrev pub is_active_admin : Account → Bool
is_active_admin a = is_admin a.role && a.is_active

unfoldable pub count_active_admins : Db → ℕ
count_active_admins db = count is_active_admin db.users

unfoldable pub is_teacher_of : Db → ℕ → ℕ → Bool
is_teacher_of db teacher_id student_id =
    any (λ e. (e.teacher_id == teacher_id) && (e.student_id == student_id)) db.enrollments

unfoldable pub get_class : Db → ℕ → Option Class
get_class db k = find (λ c. c.id == k) db.classes

-- The memberships in classes that are left.
abbrev pub has_class : List Class → Member → Bool
has_class classes m = any (λ c. c.id == m.class_id) classes

-- DeleteUser, with what the foreign keys cascade to.
pub data Deleted : Type 0 where
  deleted : Db → Deleted
  in_use missing : Deleted

abbrev pub without_user : Db → ℕ → Db
without_user db k =
    let classes = filter (λ c. not (c.teacher_id == k)) db.classes in
    record db {
      users = remove k db.users;
      enrollments = filter (λ e. not ((e.teacher_id == k) || (e.student_id == k))) db.enrollments;
      classes = classes;
      members = filter (λ m. not (m.student_id == k) && has_class classes m) db.members;
      resets = filter (λ t. not (t.user_id == k)) db.resets;
      links = filter (λ t. not (t.user_id == k)) db.links;
      notices = filter (λ n. not ((n.user_id == k) || (n.subject_user_id == k))) db.notices;
    }

unfoldable pub delete_user : Db → ℕ → Deleted
delete_user db k = elim (get_user db k) [
  | none ↦ missing
  | some a ↦ if mem k db.history then in_use else deleted (without_user db k)
]

abbrev pub is_unused : Option ℕ → Bool
is_unused none = true
is_unused (some t) = false

-- GetValidPasswordResetToken and GetValidTelegramLinkCode.
abbrev pub is_valid : ℕ → Text → Ticket → Bool
is_valid now code t = text_eq t.code code && (is_unused t.used_at && ltb now t.expires_at)

unfoldable pub get_valid : ℕ → Text → List Ticket → Option Ticket
get_valid now code tickets = find (is_valid now code) tickets

-- MarkPasswordResetTokenUsed and MarkTelegramLinkCodeUsed.
unfoldable pub mark_used : ℕ → Text → List Ticket → List Ticket
mark_used now code [] = []
mark_used now code (t ∷ rows) =
    (if text_eq t.code code then record t { used_at = some now } else t) ∷ mark_used now code rows
