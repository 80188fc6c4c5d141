-- ===== src/Accounts/Admins.antt =====
-- An active admin is left by every edit and deletion of accounts.
use mathlib.Core.Path.{subst}
use egeism.Base.{
  ℕ, ◌≤◌, ◌≡◌, refl, sym, ◌⊎◌, inl, inr, ◌==◌, Bool, true, false, not, ◌&&◌, ◌||◌, Option, none,
  some, ◌∷◌, find, All, count, mem, Bool-cases, Option-cases, List-cases, arith,
}
use egeism.Base.Text.{Text, codes, text_eq}
use egeism.Domain.Learning.{SubjectCode}
use egeism.Domain.Entities.{Role, admin, teacher, student}
use egeism.Checker.Normalize.{trim_space}
use egeism.Solve.Handlers.{Reply, sent, refused}
use egeism.Accounts.Tables.{
  Account, Db, get_user, set_user, set_user_name, set_user_role_subject, set_user_active,
  set_user_password, is_active_admin, count_active_admins, remove, replace, is_admin, Deleted,
  deleted, in_use, missing, delete_user, without_user,
}
use egeism.Accounts.Credentials.{Library, proceed, role_of, valid_role_subject, subject_for}
use egeism.Accounts.Panel.{
  AdminUpdateUserReq, stored, turns_off, leaves, may_update, update_name, update_role,
  update_active, update_password, apply_update, handle_admin_update_user, handle_admin_delete_user,
  set_checked, role_name, parsed, update_parsed, update_if, may_delete, is_last_admin, removed,
  delete_if, wanted_subject, set_hash, checked_hash,
}
use egeism.Accounts.Rows.{KeepsId, find-replace, remove-replace, count-remove}

-- Does the request leave an active admin an active admin?
abbrev pub harmless : AdminUpdateUserReq → Bool
harmless req = not (leaves (codes "admin") req.role || turns_off req.is_active)

set_user_found :
    (db : Db) (k : ℕ) (f : Account → Account) (user : Account)
    → get_user db k ≡ some user
    → set_user db k f ≡ some (f user, record db { users = replace k f db.users })
unfolding set_user
set_user_found db k f user h = ground arith

-- Does the checked role, if there is one, stay that of an admin?
abbrev admits : Reply (Role × Option SubjectCode) → Bool
admits (refused c) = true
admits (sent (role, subject)) = is_admin role

valid_role_subject-admits :
    (role : Text) (subject : Option Text)
    → text_eq role (codes "admin") ≡ true
    → admits (valid_role_subject role subject) ≡ true
unfolding valid_role_subject role_of subject_for
valid_role_subject-admits role subject h = rw (h, All) refl

role_name_admin :
    (role : Role) → is_admin role ≡ true → text_eq (role_name role) (codes "admin") ≡ true
role_name_admin admin h = refl
role_name_admin teacher h = cc
role_name_admin student h = cc

module _ (safe : Bool) (k : ℕ) where
  -- The row of the id, and an active admin: another row, or this one for good.
  abbrev pub Holds : Db → Account → Type 0
  Holds db user =
      (get_user db k ≡ some user)
      × ((1 ≤ count is_active_admin (remove k db.users)) ⊎ ((is_active_admin user && safe) ≡ true))

  abbrev pub Kept : Db × Reply Account → Type 0
  Kept (db, refused c) = 1 ≤ count_active_admins db
  Kept (db, sent user) = Holds db user

  Holds-count : (db : Db) (user : Account) → Holds db user → 1 ≤ count_active_admins db
  unfolding get_user count_active_admins
  Holds-count db user h =
      let c = count-remove is_active_admin k db.users user h.0 in
      elim h.1 [ inl more ↦ omega (arith, c, more) | inr own ↦ ground arith ]

  pub Kept-count : (r : Db × Reply Account) → Kept r → 1 ≤ count_active_admins r.0
  Kept-count (db, refused c) h = h
  Kept-count (db, sent user) h = Holds-count db user h

  set_user-Kept :
      (db : Db) (user : Account) (f : Account → Account)
      → Holds db user
      → KeepsId f
      → ((is_active_admin user && safe) ≡ true → is_active_admin (f user) ≡ true)
      → Kept (stored db (set_user db k f))
  unfolding get_user
  set_user-Kept db user f h keep stays =
      let found = find-replace k f db.users user keep h.0 in
      let others = remove-replace k f db.users keep in
      subst (λ r. Kept (stored db r)) (sym (set_user_found db k f user h.0))
        (
          found,
          elim h.1 [ inl more ↦ inl (rw others more) | inr own ↦ inr (ground (arith, stays own)) ],
        )

  proceed-count :
      (r : Db × Reply Account) (rest : Db → Account → Db × Reply Account)
      → Kept r
      → ((db : Db) (user : Account) → Holds db user → 1 ≤ count_active_admins (rest db user).0)
      → 1 ≤ count_active_admins (proceed r rest).0
  proceed-count (db, refused c) rest h next = h
  proceed-count (db, sent user) rest h next = next db user h

  update_name-Kept :
      (db : Db) (name : Option Text) (user : Account)
      → Holds db user
      → Kept (update_name db k name user)
  unfolding update_name set_user_name
  update_name-Kept db none user h = h
  update_name-Kept db (some s) user h = elim (List-cases (trim_space s)) [
    | inl e ↦
        let same : update_name db k (some s) user ≡ (db, refused 400) = ground arith in
        subst Kept (sym same) (Holds-count db user h)
    | inr (c, t, e) ↦
        let edit : Account → Account = λ a. record a { name = c ∷ t } in
        let same : update_name db k (some s) user ≡ stored db (set_user db k edit) = ground arith in
        subst Kept (sym same) (set_user-Kept db user edit h (λ a. refl) (λ own. ground arith))
  ]

  update_active-Kept :
      (db : Db) (active : Option Bool) (user : Account)
      → (safe ≡ true → turns_off active ≡ false)
      → Holds db user
      → Kept (update_active db k active user)
  unfolding update_active set_user_active
  update_active-Kept db none user s h = h
  update_active-Kept db (some b) user s h =
      set_user-Kept db user (λ a. record a { is_active = b }) h (λ a. refl)
        (λ own. let off = s (ground arith) in ground arith)

  set_checked-Kept :
      (db : Db) (user : Account) (r : Reply (Role × Option SubjectCode))
      → ((is_active_admin user && safe) ≡ true → admits r ≡ true)
      → Holds db user
      → Kept (set_checked db k r)
  unfolding set_user_role_subject
  set_checked-Kept db user (refused c) s h = Holds-count db user h
  set_checked-Kept db user (sent (role, subject)) s h =
      set_user-Kept db user (λ a. record a { role = role; subject = subject }) h (λ a. refl)
        (λ own. let known = s own in ground arith)

  update_role-Kept :
      (db : Db) (role subject : Option Text) (user : Account)
      → (safe ≡ true → leaves (codes "admin") role ≡ false)
      → Holds db user
      → Kept (update_role db k role subject user)
  unfolding update_role
  update_role-Kept db none none user s h = h
  update_role-Kept db none (some t) user s h =
      set_checked-Kept db user (valid_role_subject (role_name user.role) (some t))
        (λ own.
          valid_role_subject-admits (role_name user.role) (some t)
            (role_name_admin user.role (ground arith)))
        h
  update_role-Kept db (some r) subject user s h =
      set_checked-Kept db user (valid_role_subject r (wanted_subject r subject user))
        (λ own.
          valid_role_subject-admits r (wanted_subject r subject user)
            (let stays = s (ground arith) in ground arith))
        h

  set_hash-count :
      (db : Db) (user : Account) (r : Reply Text)
      → Holds db user
      → 1 ≤ count_active_admins (set_hash db k user r).0
  unfolding set_user_password
  set_hash-count db user (refused c) h = Holds-count db user h
  set_hash-count db user (sent hash) h =
      proceed-count (stored db (set_user_password db k hash)) (λ after row. (after, sent user))
        (set_user-Kept db user (λ a. record a { password_hash = some hash }) h (λ a. refl)
          (λ own. ground arith))
        Holds-count

  update_password-count :
      (lib : Library) (db : Db) (password : Option Text) (user : Account)
      → Holds db user
      → 1 ≤ count_active_admins (update_password lib db k password user).0
  unfolding update_password
  update_password-count lib db none user h = Holds-count db user h
  update_password-count lib db (some p) user h = set_hash-count db user (checked_hash lib p) h

apply_update-count :
    (lib : Library) (db : Db) (k : ℕ) (req : AdminUpdateUserReq) (user : Account)
    → Holds (harmless req) k db user
    → 1 ≤ count_active_admins (apply_update lib db k req user).0
unfolding apply_update
apply_update-count lib db k req user h =
    let safe = harmless req in
    proceed-count safe k (update_name db k req.name user)
      (λ db1 user1. proceed (update_role db1 k req.role req.subject user1) (λ db2 user2.
        proceed (update_active db2 k req.is_active user2)
          (λ db3 user3. update_password lib db3 k req.password user3)))
      (update_name-Kept safe k db req.name user h)
      (λ db1 user1 h1.
        proceed-count safe k (update_role db1 k req.role req.subject user1)
          (λ db2 user2.
            proceed (update_active db2 k req.is_active user2)
              (λ db3 user3. update_password lib db3 k req.password user3))
          (update_role-Kept safe k db1 req.role req.subject user1 (λ s. ground arith) h1)
          (λ db2 user2 h2.
            proceed-count safe k (update_active db2 k req.is_active user2)
              (λ db3 user3. update_password lib db3 k req.password user3)
              (update_active-Kept safe k db2 req.is_active user2 (λ s. ground arith) h2)
              (λ db3 user3 h3. update_password-count safe k lib db3 req.password user3 h3)))

-- What the guards give.
may_update-Holds :
    (db : Db) (actor user : Account) (k : ℕ) (req : AdminUpdateUserReq)
    → 1 ≤ count_active_admins db
    → may_update db actor k req ≡ sent user
    → Holds (harmless req) k db user
unfolding may_update count_active_admins get_user
may_update-Holds db actor user k req one h = elim (Option-cases (get_user db k)) [
  | inl e ↦ absurd (ground arith)
  | inr (a, e) ↦
      let same : a ≡ user = ground arith in
      let found : find (λ x. x.id == k) db.users ≡ some user = ground arith in
      let c = count-remove is_active_admin k db.users user found in
      elim (Bool-cases (is_active_admin user)) [
        | inl own ↦ elim (Bool-cases (harmless req)) [
          | inl s ↦ (found, inr (ground arith))
          | inr s ↦ (found, inl (ground arith))
        ]
        | inr other ↦ (found, inl (ground arith))
      ]
]

update_parsed-count :
    (lib : Library) (db : Db) (actor : Account) (r : Reply (ℕ × AdminUpdateUserReq))
    → 1 ≤ count_active_admins db
    → 1 ≤ count_active_admins (update_parsed lib db actor r).0
update_parsed-count lib db actor (refused c) one = one
update_parsed-count lib db actor (sent (k, req)) one =
    update_if-count (may_update db actor k req) refl
  where
    update_if-count :
        (r : Reply Account)
        → may_update db actor k req ≡ r
        → 1 ≤ count_active_admins (update_if lib db req k r).0
    update_if-count (refused c) h = one
    update_if-count (sent user) h =
        apply_update-count lib db k req user (may_update-Holds db actor user k req one h)

pub handle_admin_update_user-count :
    (lib : Library) (db : Db) (actor : Account) (target : Option ℕ)
    (body : Option AdminUpdateUserReq)
    → 1 ≤ count_active_admins db
    → 1 ≤ count_active_admins (handle_admin_update_user lib db actor target body).0
unfolding handle_admin_update_user
handle_admin_update_user-count lib db actor target body one =
    update_parsed-count lib db actor (parsed actor target body) one

removed-count :
    (db : Db) (k : ℕ)
    → 1 ≤ count_active_admins db
    → is_last_admin db (get_user db k) ≡ false
    → 1 ≤ count_active_admins (removed db (delete_user db k)).0
unfolding delete_user get_user count_active_admins
removed-count db k one more =
    let Left : Deleted → Type 0 = λ r. 1 ≤ count_active_admins (removed db r).0 in
    elim (Option-cases (find (λ a. a.id == k) db.users)) [
      | inl e ↦ let same : delete_user db k ≡ missing = ground arith in subst Left (sym same) one
      | inr (a, e) ↦ elim (Bool-cases (mem k db.history)) [
        | inl used ↦
            let same : delete_user db k ≡ in_use = ground arith in subst Left (sym same) one
        | inr free ↦
            let same : delete_user db k ≡ deleted (without_user db k) = ground arith in
            let c = count-remove is_active_admin k db.users a e in
            let left : 1 ≤ count is_active_admin (remove k db.users) = ground arith in
            subst Left (sym same) left
      ]
    ]

may_delete-spares :
    (db : Db) (actor : Account) (target : Option ℕ) (k : ℕ)
    → may_delete db actor target ≡ sent k
    → is_last_admin db (get_user db k) ≡ false
unfolding may_delete
may_delete-spares db actor none k h = absurd (ground arith)
may_delete-spares db actor (some id) k h = elim (Bool-cases (is_last_admin db (get_user db id))) [
  | inl last ↦ absurd (ground arith)
  | inr more ↦ let same : id ≡ k = ground arith in rw (sym same) more
]

pub handle_admin_delete_user-count :
    (db : Db) (actor : Account) (target : Option ℕ)
    → 1 ≤ count_active_admins db
    → 1 ≤ count_active_admins (handle_admin_delete_user db actor target).0
unfolding handle_admin_delete_user
handle_admin_delete_user-count db actor target one =
    delete_if-count (may_delete db actor target) refl
  where
    delete_if-count :
        (r : Reply ℕ) → may_delete db actor target ≡ r → 1 ≤ count_active_admins (delete_if db r).0
    delete_if-count (refused c) h = one
    delete_if-count (sent k) h = removed-count db k one (may_delete-spares db actor target k h)
