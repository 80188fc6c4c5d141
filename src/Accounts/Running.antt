-- ===== src/Accounts/Running.antt =====
-- What holds of the accounts however many requests are served.
use egeism.Base.{
  ◌+◌, ◌≤◌, ◌≡◌, refl, ap, Option, none, some, List, [], ◌∷◌, ◌++◌, count-append, inl, inr, arith,
}
use egeism.Solve.Handlers.{Reply, sent, refused}
use egeism.Accounts.Tables.{Account, Db, is_active_admin, count_active_admins}
use egeism.Accounts.Credentials.{Library, create_account, valid_role_subject}
use egeism.Accounts.Panel.{AdminCreateUserReq, saved, created_user, handle_admin_create_user}
use egeism.Accounts.Admins.{handle_admin_update_user-count, handle_admin_delete_user-count}
use egeism.Accounts.Rosters.{CreateStudentReq, created_student, handle_create_student}
use egeism.Accounts.Replies.{Reply-cases, kept-elim, create_account-users}
use egeism.Accounts.Users.{
  forgot-users, reset_link-users, link_code-users, create_class-users, rename_class-users,
  delete_class-users, add_member-users, remove_member-users, enroll-users, unenroll-users,
  created_student-users, reset_password-count, telegram_link-count,
}
use egeism.Accounts.Server.{
  Request, admin_create_user, admin_update_user, admin_delete_user, forgot_password,
  create_reset_link, reset_password, telegram_link_code, telegram_link, create_class, rename_class,
  delete_class, add_class_member, remove_class_member, enroll_student, unenroll_student,
  create_student, serve, serve_all,
}

-- Rows that are added keep an active admin.
grown :
    (db after : Db) (rows : List Account)
    → after.users ≡ db.users ++ rows
    → 1 ≤ count_active_admins db
    → 1 ≤ count_active_admins after
unfolding count_active_admins
grown db after rows e h =
    let c = count-append is_active_admin db.users rows in rw e (omega (arith, c, h))

unchanged :
    (db after : Db)
    → after.users ≡ db.users
    → 1 ≤ count_active_admins db
    → 1 ≤ count_active_admins after
unfolding count_active_admins
unchanged db after e h = rw e h

pub created_user-after :
    (lib : Library) (db after : Db) (actor row : Account) (body : Option AdminCreateUserReq)
    → created_user lib db actor body ≡ sent (row, after)
    → after ≡ record db { users = db.users ++ row ∷ []; next_id = db.next_id + 1 }
unfolding created_user
created_user-after lib db after actor row none h = absurd (ground arith)
created_user-after lib db after actor row (some req) h =
    elim (Reply-cases (valid_role_subject req.role req.subject)) [
      | inl (c, e) ↦ absurd (ground arith)
      | inr ((role, subject), e) ↦
          let made : create_account lib db role req.name req.username req.password subject
              ≡ sent (row, after) =
            ground arith in
          (create_account-users lib db after role req.name req.username req.password subject row
            made).0
    ]

saved-count :
    (db : Db) (r : Reply (Account × Db))
    → 1 ≤ count_active_admins db
    → ((row : Account) (after : Db) → r ≡ sent (row, after) → 1 ≤ count_active_admins after)
    → 1 ≤ count_active_admins (saved db r).0
saved-count db (refused c) one step = one
saved-count db (sent (row, after)) one step = step row after refl

create_user-count :
    (lib : Library) (db : Db) (actor : Account) (body : Option AdminCreateUserReq)
    → 1 ≤ count_active_admins db
    → 1 ≤ count_active_admins (handle_admin_create_user lib db actor body).0
unfolding handle_admin_create_user
create_user-count lib db actor body one =
    saved-count db (created_user lib db actor body) one (λ row after h.
      grown db after (row ∷ [])
        (ap (λ d. d.users) (created_user-after lib db after actor row body h)) one)

create_student-count :
    (lib : Library) (db : Db) (user : Account) (body : Option CreateStudentReq)
    → 1 ≤ count_active_admins db
    → 1 ≤ count_active_admins (handle_create_student lib db user body).0
unfolding handle_create_student
create_student-count lib db user body one =
    kept-elim (λ d. 1 ≤ count_active_admins d) db (created_student lib db user body) one
      (λ after h.
        let (row, e) = created_student-users lib db after user body h in
        grown db after (row ∷ []) e one)

serve-count :
    (lib : Library) (db : Db) (r : Request)
    → 1 ≤ count_active_admins db
    → 1 ≤ count_active_admins (serve lib db r)
unfolding serve
serve-count lib db (admin_create_user user body) h = create_user-count lib db user body h
serve-count lib db (admin_update_user user id body) h =
    handle_admin_update_user-count lib db user id body h
serve-count lib db (admin_delete_user user id) h = handle_admin_delete_user-count db user id h
serve-count lib db (forgot_password body) h = unchanged db _ (forgot-users lib db body) h
serve-count lib db (create_reset_link now random user id) h =
    unchanged db _ (reset_link-users now random db user id) h
serve-count lib db (reset_password now body) h = rw (reset_password-count lib now db body) h
serve-count lib db (telegram_link_code now random user) h =
    unchanged db _ (link_code-users now random db user) h
serve-count lib db (telegram_link now body) h = rw (telegram_link-count lib now db body) h
serve-count lib db (create_class user body) h = unchanged db _ (create_class-users db user body) h
serve-count lib db (rename_class user id body) h =
    unchanged db _ (rename_class-users db user id body) h
serve-count lib db (delete_class user id) h = unchanged db _ (delete_class-users db user id) h
serve-count lib db (add_class_member user id body) h =
    unchanged db _ (add_member-users db user id body) h
serve-count lib db (remove_class_member user id body) h =
    unchanged db _ (remove_member-users db user id body) h
serve-count lib db (enroll_student user id) h = unchanged db _ (enroll-users db user id) h
serve-count lib db (unenroll_student user id) h = unchanged db _ (unenroll-users db user id) h
serve-count lib db (create_student user body) h = create_student-count lib db user body h

-- An active admin is always left: from tables with one, no sequence of requests, by whatever acting
-- users, leads to tables without one.
pub serve_all-admin :
    (lib : Library) (db : Db) (rs : List Request)
    → 1 ≤ count_active_admins db
    → 1 ≤ count_active_admins (serve_all lib db rs)
unfolding serve_all
serve_all-admin lib db [] h = h
serve_all-admin lib db (r ∷ rs) h = serve_all-admin lib (serve lib db r) rs (serve-count lib db r h)
