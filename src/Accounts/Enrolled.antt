-- ===== src/Accounts/Enrolled.antt =====
-- Rosters however many requests are served.
use mathlib.Core.Path.{subst}
use egeism.Base.{
  ℕ, ◌==◌, not, ◌≡◌, sym, ap, ◌∙◌, Option, none, some, List, [], ◌∷◌, ◌++◌, find, mem, Option-cases,
  Bool-cases, inl, inr, arith,
}
use egeism.Domain.Entities.{student}
use egeism.Solve.Handlers.{Reply, sent, refused}
use egeism.Accounts.Tables.{
  Account, Db, get_user, get_class, Deleted, deleted, in_use, missing, delete_user, without_user,
}
use egeism.Accounts.Credentials.{Library}
use egeism.Accounts.Panel.{
  AdminCreateUserReq, created_user, handle_admin_create_user, removed, delete_if, may_delete,
  handle_admin_delete_user,
}
use egeism.Accounts.Rosters.{
  CreateStudentReq, created_student, handle_create_student, create_enrollment, class_checked,
  class_owned, placed, is_member_of, created_class, handle_create_class, renamed_class,
  handle_rename_class, deleted_class, handle_delete_class, added_member, handle_add_class_member,
  removed_member, handle_remove_class_member, enrolled, handle_enroll_student, unenrolled,
  handle_unenroll_student,
}
use egeism.Accounts.Replies.{
  Reply-cases, kept-elim, create_account-users, created_student-after, created_class-after,
  renamed_class-after, deleted_class-after, added_member-after, own_class, removed_member-after,
  enrolled-after, unenrolled-after,
}
use egeism.Accounts.Membership.{IsRostered, create_enrollment-IsRostered}
use egeism.Accounts.Rostered.{
  unenroll_student-IsRostered, delete_class-IsRostered, removed_members-IsRostered,
  without_user-IsRostered, rename-IsRostered, next_id-IsRostered, create_class-IsRostered,
  add_class_member-IsRostered, create_enrollment-classes,
}
use egeism.Accounts.Unrostered.{same_rosters, update_user-rosters}
use egeism.Accounts.Untouched.{
  forgot-rosters, reset_link-rosters, reset_password-rosters, link_code-rosters,
  telegram_link-rosters,
}
use egeism.Accounts.Running.{created_user-after}
use egeism.Accounts.Server.{
  Request, admin_create_user, admin_update_user, admin_delete_user, forgot_password,
  create_reset_link, reset_password, telegram_link_code, telegram_link, create_class, rename_class,
  delete_class, add_class_member, remove_class_member, enroll_student, unenroll_student,
  create_student, serve, serve_all,
}

-- The deletion of an account takes its classes, memberships and enrollments along.
delete_user-IsRostered : (db : Db) (r : Reply ℕ) → IsRostered db → IsRostered (delete_if db r).0
unfolding delete_user
delete_user-IsRostered db (refused c) h = h
delete_user-IsRostered db (sent k) h =
    let Left : Deleted → Type 0 = λ r. IsRostered (removed db r).0 in
    elim (Option-cases (get_user db k)) [
      | inl e ↦ let same : delete_user db k ≡ missing = ground arith in subst Left (sym same) h
      | inr (a, e) ↦ elim (Bool-cases (mem k db.history)) [
        | inl used ↦ let same : delete_user db k ≡ in_use = ground arith in subst Left (sym same) h
        | inr free ↦
            let same : delete_user db k ≡ deleted (without_user db k) = ground arith in
            subst Left (sym same) (without_user-IsRostered db k h)
      ]
    ]

create_user-IsRostered :
    (lib : Library) (db : Db) (actor : Account) (body : Option AdminCreateUserReq)
    → IsRostered db
    → IsRostered (handle_admin_create_user lib db actor body).0
unfolding handle_admin_create_user
create_user-IsRostered lib db actor body h = elim (Reply-cases (created_user lib db actor body)) [
  | inl (c, e) ↦ rw e h
  | inr ((row, after), e) ↦
      let same = created_user-after lib db after actor row body e in
      rw (e, same) (next_id-IsRostered db (db.users ++ row ∷ []) h)
]

placed-IsRostered :
    (db made : Db) (user : Account) (k : ℕ) (class : Option ℕ)
    → class_checked db user class ≡ sent tt
    → made.classes ≡ db.classes
    → IsRostered made
    → IsRostered (placed made user.id k class)
unfolding class_owned get_class
placed-IsRostered db made user k none e same h = h
placed-IsRostered db made user k (some class) e same h =
    elim (Option-cases (find (λ c. c.id == class) db.classes)) [
      | inl f ↦ absurd (ground arith)
      | inr (c, f) ↦
          let found : get_class made class ≡ some c = rw same f in
          add_class_member-IsRostered made class user.id k c h found (ground arith)
    ]

create_student-IsRostered :
    (lib : Library) (db : Db) (user : Account) (body : Option CreateStudentReq)
    → IsRostered db
    → IsRostered (handle_create_student lib db user body).0
unfolding handle_create_student
create_student-IsRostered lib db user body h =
    kept-elim IsRostered db (created_student lib db user body) h (λ after done.
      let (req, row, made, checked, e, same) = created_student-after lib db after user body done in
      let (new, id) =
        create_account-users lib db made student req.name req.username req.password none row e in
      let base : IsRostered made = rw new (next_id-IsRostered db (db.users ++ row ∷ []) h) in
      let next = create_enrollment-IsRostered made user.id row.id base in
      let classes = create_enrollment-classes made user.id row.id in
      rw same (
        placed-IsRostered db (create_enrollment made user.id row.id) user row.id req.class_id
          checked (classes.0 ∙ ap (λ d. d.classes) new) next))

serve-IsRostered :
    (lib : Library) (db : Db) (r : Request) → IsRostered db → IsRostered (serve lib db r)
unfolding serve handle_admin_delete_user handle_create_class handle_rename_class handle_delete_class
    handle_add_class_member handle_remove_class_member handle_enroll_student handle_unenroll_student
serve-IsRostered lib db (admin_create_user user body) h = create_user-IsRostered lib db user body h
serve-IsRostered lib db (admin_update_user user id body) h =
    same_rosters db _ (update_user-rosters lib db user id body) h
serve-IsRostered lib db (admin_delete_user user id) h =
    delete_user-IsRostered db (may_delete db user id) h
serve-IsRostered lib db (forgot_password body) h = same_rosters db _ (forgot-rosters lib db body) h
serve-IsRostered lib db (create_reset_link now random user id) h =
    same_rosters db _ (reset_link-rosters now random db user id) h
serve-IsRostered lib db (reset_password now body) h =
    same_rosters db _ (reset_password-rosters lib now db body) h
serve-IsRostered lib db (telegram_link_code now random user) h =
    same_rosters db _ (link_code-rosters now random db user) h
serve-IsRostered lib db (telegram_link now body) h =
    same_rosters db _ (telegram_link-rosters lib now db body) h
serve-IsRostered lib db (create_class user body) h =
    kept-elim IsRostered db (created_class db user body) h (λ after done.
      let (name, e) = created_class-after db after user body done in
      rw e (create_class-IsRostered db user.id name h))
serve-IsRostered lib db (rename_class user id body) h =
    kept-elim IsRostered db (renamed_class db user id body) h (λ after done.
      let (k, name, e) = renamed_class-after db after user id body done in
      rw e (rename-IsRostered db k name h))
serve-IsRostered lib db (delete_class user id) h =
    kept-elim IsRostered db (deleted_class db user id) h (λ after done.
      let (k, e) = deleted_class-after db after user id done in
      rw e (delete_class-IsRostered db k h))
serve-IsRostered lib db (add_class_member user id body) h =
    kept-elim IsRostered db (added_member db user id body) h (λ after done.
      let (k, s, own, e) = added_member-after db after user id body done in
      let (c, found, teacher) = own_class db user id k own in
      rw e (add_class_member-IsRostered db k user.id s c h found teacher))
serve-IsRostered lib db (remove_class_member user id s) h =
    kept-elim IsRostered db (removed_member db user id s) h (λ after done.
      let (k, j, e) = removed_member-after db after user id s done in
      rw e (removed_members-IsRostered db (λ m. not (is_member_of k j m)) h))
serve-IsRostered lib db (enroll_student user id) h =
    kept-elim IsRostered db (enrolled db user id) h (λ after done.
      let (k, e) = enrolled-after db after user id done in
      rw e (create_enrollment-IsRostered db user.id k h))
serve-IsRostered lib db (unenroll_student user id) h =
    kept-elim IsRostered db (unenrolled db user id) h (λ after done.
      let (k, e) = unenrolled-after db after user id done in
      unenroll_student-IsRostered db after user.id k e h)
serve-IsRostered lib db (create_student user body) h = create_student-IsRostered lib db user body h

-- The members of a class are enrolled with its teacher, however many requests are served: tables
-- whose class ids are distinct and given, and whose members are all enrolled with the teachers of
-- their classes, stay so.
pub serve_all-IsRostered :
    (lib : Library) (db : Db) (rs : List Request) → IsRostered db → IsRostered (serve_all lib db rs)
unfolding serve_all
serve_all-IsRostered lib db [] h = h
serve_all-IsRostered lib db (r ∷ rs) h =
    serve_all-IsRostered lib (serve lib db r) rs (serve-IsRostered lib db r h)
