-- ===== src/Samples/Serving.antt =====
-- Accounts: a student loses the password, and other requests.
use egeism.Base.{ℕ, ◌+◌, ◌≤◌, ◌≡◌, refl, true, false, none, some, List, [], ◌∷◌, ◌++◌, arith}
use egeism.Base.Text.{Text, codes, text_eq}
use egeism.Domain.Entities.{student, teacher, admin}
use egeism.Checker.Normalize.{trim_space, trim_left, trim_right, is_space}
use egeism.Solve.Handlers.{sent, refused, People, test_in_scope}
use egeism.Accounts.Tables.{
  Account, Ticket, Db, count_active_admins, get_user, get_valid, mark_used, set_user,
  set_user_password, replace, is_teacher_of, get_class,
}
use egeism.Accounts.Credentials.{
  new_account, create_account, create_user_with_credentials, Library, validate_new_credentials,
  byte_len, rune_bytes, handle_login, require_teacher,
}
use egeism.Accounts.Panel.{AdminCreateUserReq, checked_hash}
use egeism.Accounts.Resets.{
  new_ticket, may_reset, create_password_reset_token, handle_create_password_reset_link,
  redeem_password_reset_token, redeem_if, ResetPasswordReq, may_redeem, handle_reset_password,
  welcome,
}
use egeism.Accounts.Linking.{link_telegram, redeem_telegram_link_code, linked, handle_telegram_auth}
use egeism.Accounts.Server.{
  Request, admin_create_user, admin_delete_user, add_class_member, unenroll_student, create_class,
  serve_all,
}
use egeism.Accounts.Running.{serve_all-admin}
use egeism.Accounts.Membership.{IsRostered}
use egeism.Accounts.Enrolled.{serve_all-IsRostered}
use egeism.Accounts.Recovery.{MayReset, reset_link-MayReset, reset_password-once, reset_link-works}
use egeism.Accounts.SignIn.{create_account-login, redeem_link-auth}
use egeism.Domain.Source.{is_current, freshness}
use egeism.Attempts.Tables.{
  Db as Tests, get_test, get_task, list_test_items, sort_items, by_position, join_tasks,
}
use egeism.Accounts.Rosters.{class_owned}
use egeism.Assigning.Create.{
  list_test_tasks, CreateAssignmentReq, Created, assign_all, handle_create_assignment, may_assign,
  target_of, validate_deadline, is_fresh, targets, list_class_members,
}
use egeism.Samples.Data.{lower_rune, draw, db, test}

abbrev lib : Library
lib = record {
  hash = λ p. some (104 ∷ p);
  matches = λ h p. text_eq h (104 ∷ p);
  issue_token = λ k. some (116 ∷ k ∷ []);
  lower = lower_rune;
}

abbrev boss : Account
boss = record {
  id = 1;
  role = admin;
  subject = none;
  name = codes "Boss";
  username = some (codes "boss");
  password_hash = some (104 ∷ codes "123456");
  telegram_id = none;
  is_active = true;
}

abbrev tutor : Account
tutor = record boss { id = 2; role = teacher; username = some (codes "tutor") }

abbrev pupil : Account
pupil = record boss { id = 3; role = student; name = codes "Anna"; username = some (codes "anna") }

abbrev link_code : Text
link_code = codes "abc"

abbrev link_ticket : Ticket
link_ticket = record { code = link_code; user_id = 3; expires_at = 900; used_at = none }

abbrev accounts : Db
accounts = record {
  users = boss ∷ tutor ∷ pupil ∷ [];
  enrollments = record { teacher_id = 2; student_id = 3 } ∷ [];
  classes = record { id = 5; teacher_id = 2; name = codes "11" } ∷ [];
  members = record { class_id = 5; student_id = 3 } ∷ [];
  resets = [];
  links = link_ticket ∷ [];
  notices = [];
  history = [];
  next_id = 10;
}

has_admin : 1 ≤ count_active_admins accounts
unfolding count_active_admins
has_admin = omega arith

accounts-IsRostered : IsRostered accounts
accounts-IsRostered = record {
  distinct = (refl, tt);
  given = (omega arith, tt);
  of_given = (omega arith, tt);
  covered = ((refl, tt), tt);
}

abbrev newcomer : AdminCreateUserReq
newcomer = record {
  role = codes "admin";
  name = codes "Vera";
  username = codes "vera";
  password = codes "123456";
  subject = none;
}

-- Another admin is made, who deletes the first one; the teacher drops the student and makes a class.
abbrev requests : List Request
requests =
    admin_create_user boss (some newcomer)
    ∷ admin_delete_user (record boss { id = 10 }) (some 1)
    ∷ unenroll_student tutor (some 3)
    ∷ create_class tutor (some (codes "10"))
    ∷ add_class_member tutor (some 11) (some 3)
    ∷ []

abbrev token : Text
token = codes "t0ken"

abbrev issued : Db
issued = record accounts { resets = new_ticket 100 token 3 3600 ∷ [] }

was_issued :
    handle_create_password_reset_link 100 (some token) accounts tutor (some 3)
    ≡ (issued, sent token)
unfolding handle_create_password_reset_link get_user may_reset is_teacher_of
    create_password_reset_token
was_issued = refl

abbrev new_hash : Text
new_hash = 104 ∷ codes "secret1"

abbrev reset : Db
reset = record issued {
  users = boss ∷ tutor ∷ record pupil { password_hash = some new_hash } ∷ [];
  resets = record (new_ticket 100 token 3 3600) { used_at = some 200 } ∷ [];
}

was_reset :
    redeem_password_reset_token 200 token new_hash issued
    ≡ some (record pupil { password_hash = some new_hash }, reset)
unfolding redeem_password_reset_token get_valid set_user_password set_user get_user replace
    mark_used
was_reset = refl

abbrev reset_request : ResetPasswordReq
reset_request = record { token = token; password = codes "secret1" }

pupil_found : get_user accounts 3 ≡ some pupil
unfolding get_user
pupil_found = refl

may_reset_now : may_redeem lib (some reset_request) ≡ sent (token, new_hash)
unfolding may_redeem checked_hash validate_new_credentials byte_len rune_bytes trim_space trim_left
    trim_right is_space
may_reset_now = refl

abbrev joiner : Account
joiner =
    new_account accounts.next_id student (codes "Nina") (codes "nina") (104 ∷ codes "secret1") none

abbrev grown : Db
grown = record accounts { users = accounts.users ++ joiner ∷ []; next_id = accounts.next_id + 1 }

was_created :
    create_account lib accounts student (codes "Nina") (codes "nina") (codes "secret1") none
    ≡ sent (joiner, grown)
unfolding create_account create_user_with_credentials validate_new_credentials byte_len rune_bytes
    trim_space is_space
was_created = refl

abbrev after_link : Db
after_link = record accounts {
  users = boss ∷ tutor ∷ record pupil { telegram_id = some 77 } ∷ [];
  links = record link_ticket { used_at = some 100 } ∷ [];
}

was_linked :
    redeem_telegram_link_code 100 link_code 77 accounts
    ≡ linked (record pupil { telegram_id = some 77 }) after_link
unfolding redeem_telegram_link_code link_telegram get_valid set_user get_user replace mark_used
was_linked = refl

abbrev people : People
people = record { subject_id = λ s. some 1; teaches = λ t k. true }

-- The tables with a test that has no tasks yet.
abbrev bare : Tests
bare = record db { items = [] }

-- The test for the class.
abbrev giving : CreateAssignmentReq
giving = record {
  test_id = 2;
  student_id = none;
  class_id = some 5;
  require_solution = false;
  scheduled_at = 1000;
  due_at = some 2000;
  notify = none;
  individual = false;
}

abbrev given_db : Tests
given_db = (assign_all draw bare test tutor giving (pupil ∷ [])).0

abbrev given : List Created
given = (assign_all draw bare test tutor giving (pupil ∷ [])).1

-- A test with tasks that are active and current is refused: their sources were not listed.
not_given : handle_create_assignment draw people db accounts tutor (some giving) ≡ (db, refused 422)
unfolding handle_create_assignment may_assign require_teacher target_of validate_deadline
    test_in_scope get_test get_class class_owned targets list_class_members is_fresh list_test_tasks
    list_test_items sort_items by_position join_tasks get_task is_current freshness
not_given = refl

serve_all-admin_example : 1 ≤ count_active_admins (serve_all lib accounts requests)
serve_all-admin_example = serve_all-admin lib accounts requests has_admin

serve_all-IsRostered_example : IsRostered (serve_all lib accounts requests)
serve_all-IsRostered_example = serve_all-IsRostered lib accounts requests accounts-IsRostered

reset_link-MayReset_example :
    (user : Account) × (k : ℕ) × (get_user accounts k ≡ some user)
    × MayReset accounts tutor user
    × (issued ≡ record accounts { resets = accounts.resets ++ new_ticket 100 token k 3600 ∷ [] })
reset_link-MayReset_example =
    reset_link-MayReset 100 (some token) accounts issued tutor (some 3) token was_issued

reset_password-once_example :
    redeem_if lib 300 reset (sent (token, (codes "other"))) ≡ (reset, refused 400)
reset_password-once_example =
    reset_password-once lib 200 300 issued reset (record pupil { password_hash = some new_hash })
      token new_hash (codes "other") was_reset

reset_link-works_example :
    (after : Db) × (handle_reset_password lib 200
        (create_password_reset_token 100 token 3 accounts)
        (some reset_request)
      ≡ (after, welcome lib (record pupil { password_hash = some new_hash })))
    × (get_user after 3 ≡ some (record pupil { password_hash = some new_hash }))
unfolding get_valid
reset_link-works_example =
    reset_link-works lib 100 200 accounts 3 pupil token new_hash (some reset_request) pupil_found
      refl (omega arith) may_reset_now

create_account-login_example :
    (handle_login lib grown
        (some (record { username = (codes " NINA "); password = (codes "secret1") }))
      ≡ sent (record { token = (116 ∷ joiner.id ∷ []); user = joiner }))
    × (handle_login lib grown
          (some (record { username = (codes " NINA "); password = (codes "secret2") }))
        ≡ refused 401)
unfolding trim_space is_space
create_account-login_example =
    create_account-login lib accounts grown student (codes "Nina") (codes "nina") (codes "secret1")
      (104 ∷ codes "secret1") (codes " NINA ") (codes "secret2") (116 ∷ joiner.id ∷ []) none joiner
      was_created refl refl refl refl refl refl

redeem_link-auth_example :
    handle_telegram_auth lib after_link (some 77)
    ≡ welcome lib (record pupil { telegram_id = some 77 })
redeem_link-auth_example =
    redeem_link-auth lib 100 77 link_code accounts after_link
      (record pupil { telegram_id = some 77 }) was_linked refl
