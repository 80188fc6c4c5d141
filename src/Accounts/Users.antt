-- ===== src/Accounts/Users.antt =====
-- How the other requests change the table of users.
use egeism.Base.{
  ℕ, ◌≡◌, refl, ap, ◌∙◌, Option, none, some, List, [], ◌∷◌, ◌++◌, Option-cases, inl, inr, ◌⊎◌,
  arith,
}
use egeism.Base.Text.{Text}
use egeism.Domain.Entities.{student}
use egeism.Solve.Handlers.{Reply, sent, refused}
use egeism.Accounts.Tables.{
  set_user_password, get_user_by_username, Account, Db, set_user, is_active_admin,
  count_active_admins, get_valid,
}
use egeism.Accounts.Rows.{count-replace, set_user-after}
use egeism.Accounts.Replies.{
  created_class-after, renamed_class-after, deleted_class-after, added_member-after,
  removed_member-after, enrolled-after, unenrolled-after, create_account-users,
  created_student-after, kept-elim,
}
use egeism.Accounts.Credentials.{Library}
use egeism.Accounts.Resets.{
  create_password_reset_token, ResetPasswordReq, redeem_if, may_redeem, handle_reset_password,
  create_password_reset_notification, notify_all, notify_found, asked_username, forget,
  handle_forgot_password, recipients, handle_create_password_reset_link, issue, reset_target,
  redeem_password_reset_token,
}
use egeism.Accounts.Linking.{
  TelegramLinkReq, redeem_telegram_link_code, link_telegram, Redeemed, linked, unknown, taken,
  link_if, link_request, handle_telegram_link, handle_telegram_link_code, create_telegram_link_code,
}
use egeism.Accounts.Rosters.{
  CreateStudentReq, created_class, renamed_class, deleted_class, added_member, removed_member,
  enrolled, unenrolled, created_student, handle_create_class, create_class, insert_member, placed,
  handle_rename_class, handle_delete_class, delete_class, handle_add_class_member, add_class_member,
  handle_remove_class_member, create_enrollment, handle_enroll_student, handle_unenroll_student,
  unenroll_student,
}

notification-users :
    (db : Db) (r k : ℕ) → (create_password_reset_notification db r k).users ≡ db.users
unfolding create_password_reset_notification
notification-users db r k = ground arith

notify_all-users : (db : Db) (k : ℕ) (rs : List ℕ) → (notify_all db k rs).users ≡ db.users
unfolding notify_all
notify_all-users db k [] = refl
notify_all-users db k (r ∷ rs) =
    notify_all-users (create_password_reset_notification db r k) k rs ∙ notification-users db r k

notify_found-users : (db : Db) (o : Option Account) → (notify_found db o).users ≡ db.users
notify_found-users db none = refl
notify_found-users db (some user) = notify_all-users db user.id (recipients db user)

forget-users : (db : Db) (r : Reply Text) → (forget db r).0.users ≡ db.users
forget-users db (refused c) = refl
forget-users db (sent name) = notify_found-users db (get_user_by_username db name)

pub forgot-users :
    (lib : Library) (db : Db) (body : Option Text)
    → (handle_forgot_password lib db body).0.users ≡ db.users
unfolding handle_forgot_password
forgot-users lib db body = forget-users db (asked_username lib body)

issue-users :
    (now : ℕ) (random : Option Text) (db : Db) (r : Reply ℕ)
    → (issue now random db r).0.users ≡ db.users
unfolding create_password_reset_token
issue-users now random db (refused c) = refl
issue-users now none db (sent k) = refl
issue-users now (some t) db (sent k) = refl

pub reset_link-users :
    (now : ℕ) (random : Option Text) (db : Db) (user : Account) (target : Option ℕ)
    → (handle_create_password_reset_link now random db user target).0.users ≡ db.users
unfolding handle_create_password_reset_link
reset_link-users now random db user target = issue-users now random db (reset_target db user target)

pub link_code-users :
    (now : ℕ) (random : Option Text) (db : Db) (user : Account)
    → (handle_telegram_link_code now random db user).0.users ≡ db.users
unfolding handle_telegram_link_code create_telegram_link_code
link_code-users now none db user = refl
link_code-users now (some t) db user = refl

enrollment-users : (db : Db) (t k : ℕ) → (create_enrollment db t k).users ≡ db.users
unfolding create_enrollment
enrollment-users db t k = ground arith

pub member-users : (db : Db) (c t k : ℕ) → (add_class_member db c t k).users ≡ db.users
unfolding add_class_member
member-users db c t k = enrollment-users (insert_member db c k) t k ∙ ground arith

-- The requests on classes and rosters leave the users as they are.
pub create_class-users :
    (db : Db) (user : Account) (body : Option Text)
    → (handle_create_class db user body).0.users ≡ db.users
unfolding handle_create_class create_class
create_class-users db user body =
    kept-elim (λ d. d.users ≡ db.users) db (created_class db user body) refl
      (λ after h. let (name, e) = created_class-after db after user body h in rw e refl)

pub rename_class-users :
    (db : Db) (user : Account) (param : Option ℕ) (body : Option Text)
    → (handle_rename_class db user param body).0.users ≡ db.users
unfolding handle_rename_class
rename_class-users db user param body =
    kept-elim (λ d. d.users ≡ db.users) db (renamed_class db user param body) refl
      (λ after h. let (k, name, e) = renamed_class-after db after user param body h in rw e refl)

pub delete_class-users :
    (db : Db) (user : Account) (param : Option ℕ)
    → (handle_delete_class db user param).0.users ≡ db.users
unfolding handle_delete_class delete_class
delete_class-users db user param =
    kept-elim (λ d. d.users ≡ db.users) db (deleted_class db user param) refl
      (λ after h. let (k, e) = deleted_class-after db after user param h in rw e refl)

pub add_member-users :
    (db : Db) (user : Account) (param body : Option ℕ)
    → (handle_add_class_member db user param body).0.users ≡ db.users
unfolding handle_add_class_member
add_member-users db user param body =
    kept-elim (λ d. d.users ≡ db.users) db (added_member db user param body) refl
      (λ after h.
        let (k, id, own, e) = added_member-after db after user param body h in
        rw e (member-users db k user.id id))

pub remove_member-users :
    (db : Db) (user : Account) (param target : Option ℕ)
    → (handle_remove_class_member db user param target).0.users ≡ db.users
unfolding handle_remove_class_member
remove_member-users db user param target =
    kept-elim (λ d. d.users ≡ db.users) db (removed_member db user param target) refl
      (λ after h. let (k, id, e) = removed_member-after db after user param target h in rw e refl)

pub enroll-users :
    (db : Db) (user : Account) (param : Option ℕ)
    → (handle_enroll_student db user param).0.users ≡ db.users
unfolding handle_enroll_student
enroll-users db user param =
    kept-elim (λ d. d.users ≡ db.users) db (enrolled db user param) refl
      (λ after h.
        let (k, e) = enrolled-after db after user param h in rw e (enrollment-users db user.id k))

unenroll_student-users :
    (db after : Db) (t k : ℕ) → unenroll_student db t k ≡ some after → after.users ≡ db.users
unfolding unenroll_student
unenroll_student-users db after t k h = ground arith

pub unenroll-users :
    (db : Db) (user : Account) (param : Option ℕ)
    → (handle_unenroll_student db user param).0.users ≡ db.users
unfolding handle_unenroll_student
unenroll-users db user param =
    kept-elim (λ d. d.users ≡ db.users) db (unenrolled db user param) refl
      (λ after h.
        let (k, e) = unenrolled-after db after user param h in
        unenroll_student-users db after user.id k e)

pub placed-users : (db : Db) (t k : ℕ) (class : Option ℕ) → (placed db t k class).users ≡ db.users
placed-users db t k none = refl
placed-users db t k (some c) = member-users db c t k

pub created_student-users :
    (lib : Library) (db after : Db) (user : Account) (body : Option CreateStudentReq)
    → created_student lib db user body ≡ sent after
    → (row : Account) × (after.users ≡ db.users ++ row ∷ [])
created_student-users lib db after user body h =
    let (req, row, made, checked, e, f) = created_student-after lib db after user body h in
    let (new, id) =
      create_account-users lib db made student req.name req.username req.password none row e in
    (
      row,
      ap (λ d. d.users) f
          ∙ placed-users (create_enrollment made user.id row.id) user.id row.id req.class_id
          ∙ enrollment-users made user.id row.id
          ∙ ap (λ d. d.users) new,
    )

-- An edit of one row that keeps its role and its activity keeps the active admins.
set_user-count :
    (db after : Db) (k : ℕ) (f : Account → Account) (user : Account)
    → ((a : Account) → is_active_admin (f a) ≡ is_active_admin a)
    → set_user db k f ≡ some (user, after)
    → count_active_admins after ≡ count_active_admins db
unfolding count_active_admins
set_user-count db after k f user same h =
    let (a, found, image, e) = set_user-after db after k f user h in
    rw e (count-replace is_active_admin k f db.users same)

redeem_reset-count :
    (now : ℕ) (token hash : Text) (db after : Db) (user : Account)
    → redeem_password_reset_token now token hash db ≡ some (user, after)
    → count_active_admins after ≡ count_active_admins db
unfolding redeem_password_reset_token set_user_password count_active_admins
redeem_reset-count now token hash db after user h =
    elim (Option-cases (get_valid now token db.resets)) [
      | inl e ↦ absurd (ground arith)
      | inr (t, e) ↦
          let edit : Account → Account = λ a. record a { password_hash = some hash } in
          elim (Option-cases (set_user db t.user_id edit)) [
            | inl f ↦ absurd (ground arith)
            | inr ((u, mid), f) ↦
                let kept = set_user-count db mid t.user_id edit u (λ a. refl) f in ground arith
          ]
    ]

redeem_if-count :
    (lib : Library) (now : ℕ) (db : Db) (r : Reply (Text × Text))
    → count_active_admins (redeem_if lib now db r).0 ≡ count_active_admins db
redeem_if-count lib now db (refused c) = refl
redeem_if-count lib now db (sent (token, hash)) =
    elim (Option-cases (redeem_password_reset_token now token hash db)) [
      | inl e ↦ rw (e, redeem_if) refl
      | inr ((u, after), e) ↦ rw (e, redeem_if) (redeem_reset-count now token hash db after u e)
    ]

pub reset_password-count :
    (lib : Library) (now : ℕ) (db : Db) (body : Option ResetPasswordReq)
    → count_active_admins (handle_reset_password lib now db body).0 ≡ count_active_admins db
unfolding handle_reset_password
reset_password-count lib now db body = redeem_if-count lib now db (may_redeem lib body)

redeem_link-count :
    (now : ℕ) (code : Text) (tg : ℕ) (db after : Db) (user : Account)
    → redeem_telegram_link_code now code tg db ≡ linked user after
    → count_active_admins after ≡ count_active_admins db
unfolding redeem_telegram_link_code link_telegram count_active_admins
redeem_link-count now code tg db after user h = elim (Option-cases (get_valid now code db.links)) [
  | inl e ↦ absurd (ground arith)
  | inr (t, e) ↦
      let edit : Account → Account = λ a. record a { telegram_id = some tg } in
      elim (Option-cases (set_user db t.user_id edit)) [
        | inl f ↦ absurd (ground arith)
        | inr ((u, mid), f) ↦
            let kept = set_user-count db mid t.user_id edit u (λ a. refl) f in ground arith
      ]
]

pub Redeemed-cases :
    (r : Redeemed) → ((r ≡ unknown) ⊎ (r ≡ taken)) ⊎ ((u : Account) × (d : Db) × (r ≡ linked u d))
Redeemed-cases unknown = inl (inl refl)
Redeemed-cases taken = inl (inr refl)
Redeemed-cases (linked u d) = inr (u, d, refl)

link_if-count :
    (lib : Library) (now : ℕ) (db : Db) (r : Reply (Text × ℕ))
    → count_active_admins (link_if lib now db r).0 ≡ count_active_admins db
link_if-count lib now db (refused c) = refl
link_if-count lib now db (sent (code, tg)) =
    elim (Redeemed-cases (redeem_telegram_link_code now code tg db)) [
      | inl (inl e) ↦ rw (e, link_if) refl
      | inl (inr e) ↦ rw (e, link_if) refl
      | inr (u, after, e) ↦ rw (e, link_if) (redeem_link-count now code tg db after u e)
    ]

pub telegram_link-count :
    (lib : Library) (now : ℕ) (db : Db) (body : Option TelegramLinkReq)
    → count_active_admins (handle_telegram_link lib now db body).0 ≡ count_active_admins db
unfolding handle_telegram_link
telegram_link-count lib now db body = link_if-count lib now db (link_request body)
