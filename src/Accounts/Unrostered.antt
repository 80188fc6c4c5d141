-- ===== src/Accounts/Unrostered.antt =====
-- The requests that leave classes, members and enrollments as they are.
use egeism.Base.{
  ℕ, ◌≡◌, refl, ap, ◌∙◌, Bool, Option, none, some, List, ◌∷◌, Option-cases, List-cases, inl, inr,
  arith,
}
use egeism.Base.Text.{Text}
use egeism.Checker.Normalize.{trim_space}
use egeism.Domain.Learning.{SubjectCode}
use egeism.Domain.Entities.{Role}
use egeism.Solve.Handlers.{Reply, sent, refused}
use egeism.Accounts.Tables.{
  Account, Class, Member, Enrollment, Db, set_user, set_user_name, set_user_role_subject,
  set_user_active, set_user_password,
}
use egeism.Accounts.Credentials.{Library, proceed, valid_role_subject}
use egeism.Accounts.Panel.{
  AdminUpdateUserReq, stored, may_update, update_name, update_role, update_active, update_password,
  apply_update, update_if, update_parsed, handle_admin_update_user, set_checked, role_name,
  wanted_subject, set_hash, checked_hash, parsed,
}
use egeism.Accounts.Rows.{set_user-after}
use egeism.Accounts.Membership.{IsRostered}

-- What rosters are made of.
abbrev pub rosters : Db → List Class × List Member × List Enrollment × ℕ
rosters db = (db.classes, db.members, db.enrollments, db.next_id)

pub same_rosters : (db after : Db) → rosters after ≡ rosters db → IsRostered db → IsRostered after
same_rosters db after e h =
    let c : after.classes ≡ db.classes = ap (λ r. r.0) e in
    let m : after.members ≡ db.members = ap (λ r. r.1) e in
    let n : after.enrollments ≡ db.enrollments = ap (λ r. r.2) e in
    let i : after.next_id ≡ db.next_id = ap (λ r. r.3) e in
    record {
      distinct = rw c h.distinct;
      given = rw (c, i) h.given;
      of_given = rw (m, i) h.of_given;
      covered = rw (c, m, n) h.covered;
    }

stored-rosters :
    (db : Db) (k : ℕ) (f : Account → Account) → rosters (stored db (set_user db k f)).0 ≡ rosters db
stored-rosters db k f = elim (Option-cases (set_user db k f)) [
  | inl e ↦ rw e refl
  | inr ((u, after), e) ↦
      let (a, found, image, same) = set_user-after db after k f u e in rw (e, same) refl
]

proceed-rosters :
    (start : Db) (r : Db × Reply Account) (rest : Db → Account → Db × Reply Account)
    → rosters r.0 ≡ rosters start
    → ((db : Db) (user : Account) → rosters (rest db user).0 ≡ rosters db)
    → rosters (proceed r rest).0 ≡ rosters start
proceed-rosters start (db, refused c) rest h next = h
proceed-rosters start (db, sent user) rest h next = next db user ∙ h

update_name-rosters :
    (db : Db) (k : ℕ) (name : Option Text) (user : Account)
    → rosters (update_name db k name user).0 ≡ rosters db
unfolding update_name set_user_name
update_name-rosters db k none user = refl
update_name-rosters db k (some s) user = elim (List-cases (trim_space s)) [
  | inl e ↦
      let same : update_name db k (some s) user ≡ (db, refused 400) = ground arith in
      ap (λ r. rosters r.0) same
  | inr (c, t, e) ↦
      let edit : Account → Account = λ a. record a { name = c ∷ t } in
      let same : update_name db k (some s) user ≡ stored db (set_user db k edit) = ground arith in
      ap (λ r. rosters r.0) same ∙ stored-rosters db k edit
]

set_checked-rosters :
    (db : Db) (k : ℕ) (r : Reply (Role × Option SubjectCode))
    → rosters (set_checked db k r).0 ≡ rosters db
unfolding set_user_role_subject
set_checked-rosters db k (refused c) = refl
set_checked-rosters db k (sent (role, subject)) =
    stored-rosters db k (λ a. record a { role = role; subject = subject })

update_role-rosters :
    (db : Db) (k : ℕ) (role subject : Option Text) (user : Account)
    → rosters (update_role db k role subject user).0 ≡ rosters db
unfolding update_role
update_role-rosters db k none none user = refl
update_role-rosters db k none (some t) user =
    set_checked-rosters db k (valid_role_subject (role_name user.role) (some t))
update_role-rosters db k (some r) subject user =
    set_checked-rosters db k (valid_role_subject r (wanted_subject r subject user))

update_active-rosters :
    (db : Db) (k : ℕ) (active : Option Bool) (user : Account)
    → rosters (update_active db k active user).0 ≡ rosters db
unfolding update_active set_user_active
update_active-rosters db k none user = refl
update_active-rosters db k (some b) user = stored-rosters db k (λ a. record a { is_active = b })

set_hash-rosters :
    (db : Db) (k : ℕ) (user : Account) (r : Reply Text)
    → rosters (set_hash db k user r).0 ≡ rosters db
unfolding set_user_password
set_hash-rosters db k user (refused c) = refl
set_hash-rosters db k user (sent hash) =
    proceed-rosters db (stored db (set_user_password db k hash)) (λ after row. (after, sent user))
      (stored-rosters db k (λ a. record a { password_hash = some hash })) (λ d u. refl)

update_password-rosters :
    (lib : Library) (db : Db) (k : ℕ) (password : Option Text) (user : Account)
    → rosters (update_password lib db k password user).0 ≡ rosters db
unfolding update_password
update_password-rosters lib db k none user = refl
update_password-rosters lib db k (some p) user = set_hash-rosters db k user (checked_hash lib p)

apply_update-rosters :
    (lib : Library) (db : Db) (k : ℕ) (req : AdminUpdateUserReq) (user : Account)
    → rosters (apply_update lib db k req user).0 ≡ rosters db
unfolding apply_update
apply_update-rosters lib db k req user =
    proceed-rosters db (update_name db k req.name user)
      (λ db1 user1. proceed (update_role db1 k req.role req.subject user1) (λ db2 user2.
        proceed (update_active db2 k req.is_active user2)
          (λ db3 user3. update_password lib db3 k req.password user3)))
      (update_name-rosters db k req.name user)
      (λ db1 user1.
        proceed-rosters db1 (update_role db1 k req.role req.subject user1)
          (λ db2 user2.
            proceed (update_active db2 k req.is_active user2)
              (λ db3 user3. update_password lib db3 k req.password user3))
          (update_role-rosters db1 k req.role req.subject user1)
          (λ db2 user2.
            proceed-rosters db2 (update_active db2 k req.is_active user2)
              (λ db3 user3. update_password lib db3 k req.password user3)
              (update_active-rosters db2 k req.is_active user2)
              (λ db3 user3. update_password-rosters lib db3 k req.password user3)))

update_if-rosters :
    (lib : Library) (db : Db) (req : AdminUpdateUserReq) (k : ℕ) (r : Reply Account)
    → rosters (update_if lib db req k r).0 ≡ rosters db
update_if-rosters lib db req k (refused c) = refl
update_if-rosters lib db req k (sent user) = apply_update-rosters lib db k req user

update_parsed-rosters :
    (lib : Library) (db : Db) (actor : Account) (r : Reply (ℕ × AdminUpdateUserReq))
    → rosters (update_parsed lib db actor r).0 ≡ rosters db
update_parsed-rosters lib db actor (refused c) = refl
update_parsed-rosters lib db actor (sent (k, req)) =
    update_if-rosters lib db req k (may_update db actor k req)

pub update_user-rosters :
    (lib : Library) (db : Db) (actor : Account) (target : Option ℕ)
    (body : Option AdminUpdateUserReq)
    → rosters (handle_admin_update_user lib db actor target body).0 ≡ rosters db
unfolding handle_admin_update_user
update_user-rosters lib db actor target body =
    update_parsed-rosters lib db actor (parsed actor target body)
