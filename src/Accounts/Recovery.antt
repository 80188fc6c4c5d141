-- ===== src/Accounts/Recovery.antt =====
-- Reset links: who may issue one, what it is good for and for how long.
use egeism.Base.{
  ℕ, ◌+◌, ◌<◌, ◌≡◌, refl, ap, ◌⊎◌, true, Option, none, some, List, [], ◌∷◌, ◌++◌, All, Bool-cases,
  Option-cases, inl, inr, arith,
}
use egeism.Base.Text.{Text, text_eq, text_eq_refl}
use egeism.Domain.Entities.{Role, student, teacher, admin}
use egeism.Solve.Handlers.{Reply, sent, refused}
use egeism.Accounts.Tables.{
  Account, Ticket, Db, is_admin, is_teacher, is_student, is_valid, get_valid, mark_used, get_user,
  set_user, replace, set_user_password, is_teacher_of,
}
use egeism.Accounts.Credentials.{Library}
use egeism.Accounts.Resets.{
  new_ticket, may_reset, reset_target, issue, create_password_reset_token,
  handle_create_password_reset_link, ResetPasswordReq, may_redeem, redeem_password_reset_token,
  redeem_if, redeemed, welcome, handle_reset_password, handle_forgot_password, asked_username,
  forget,
}
use egeism.Accounts.Rows.{find-replace}
use egeism.Accounts.Replies.{Reply-cases}

-- An admin may reset anyone's password, a teacher that of a student on the roster.
abbrev pub MayReset : Db → Account → Account → Type 0
MayReset db actor target =
    (is_admin actor.role ≡ true)
    ⊎ ((is_teacher actor.role ≡ true)
        × (is_student target.role ≡ true)
        × (is_teacher_of db actor.id target.id ≡ true))

may_reset-MayReset :
    (db : Db) (actor target : Account) (role : Role)
    → actor.role ≡ role
    → may_reset db actor target role ≡ sent tt
    → MayReset db actor target
unfolding may_reset
may_reset-MayReset db actor target admin e h = inl (rw e refl)
may_reset-MayReset db actor target teacher e h = inr (rw e refl, ground arith, ground arith)
may_reset-MayReset db actor target student e h = absurd (ground arith)

reset_target-found :
    (db : Db) (actor : Account) (target : Option ℕ) (k : ℕ)
    → reset_target db actor target ≡ sent k
    → (user : Account) × (get_user db k ≡ some user)
      × (may_reset db actor user actor.role ≡ sent tt)
reset_target-found db actor none k h = absurd (ground arith)
reset_target-found db actor (some j) k h = elim (Option-cases (get_user db j)) [
  | inl e ↦ absurd (ground arith)
  | inr (user, e) ↦ elim (Reply-cases (may_reset db actor user actor.role)) [
    | inl (c, f) ↦ absurd (ground arith)
    | inr (x, f) ↦ (user, ground arith, f)
  ]
]

issue-sent :
    (now : ℕ) (random : Option Text) (db after : Db) (r : Reply ℕ) (token : Text)
    → issue now random db r ≡ (after, sent token)
    → (k : ℕ) × (r ≡ sent k) × (after ≡ create_password_reset_token now token k db)
issue-sent now random db after (refused c) token h = absurd (ground arith)
issue-sent now none db after (sent k) token h = absurd (ground arith)
issue-sent now (some t) db after (sent k) token h = (k, refl, ground arith)

-- A reset link is issued only by an admin, or by a teacher for a student who is enrolled with this
-- teacher; it is a new token of that account, for an hour, and nothing else changes.
pub reset_link-MayReset :
    (now : ℕ) (random : Option Text) (db after : Db) (actor : Account) (target : Option ℕ)
    (token : Text)
    → handle_create_password_reset_link now random db actor target ≡ (after, sent token)
    → (user : Account) × (k : ℕ) × (get_user db k ≡ some user)
      × MayReset db actor user
      × (after ≡ record db { resets = db.resets ++ new_ticket now token k 3600 ∷ [] })
unfolding handle_create_password_reset_link create_password_reset_token
reset_link-MayReset now random db after actor target token h =
    let (k, e, same) = issue-sent now random db after (reset_target db actor target) token h in
    let (user, found, may) = reset_target-found db actor target k e in
    (user, k, found, may_reset-MayReset db actor user actor.role refl may, same)

get_valid-marked :
    (now later : ℕ) (token : Text) (rows : List Ticket)
    → get_valid later token (mark_used now token rows) ≡ none
unfolding get_valid mark_used
get_valid-marked now later token [] = refl
get_valid-marked now later token (t ∷ rows) =
    let rest = get_valid-marked now later token rows in
    elim (Bool-cases (text_eq t.code token)) [
      | inl e ↦ rw (e, All) (ground arith)
      | inr e ↦ ground arith
    ]

redeemed-marked :
    (now later : ℕ) (token hash : Text) (db after : Db) (user : Account)
    → redeem_password_reset_token now token hash db ≡ some (user, after)
    → get_valid later token after.resets ≡ none
unfolding redeem_password_reset_token
redeemed-marked now later token hash db after user h =
    elim (Option-cases (get_valid now token db.resets)) [
      | inl e ↦ absurd (ground arith)
      | inr (t, e) ↦ elim (Option-cases (set_user_password db t.user_id hash)) [
        | inl f ↦ absurd (ground arith)
        | inr ((u, mid), f) ↦
            let marked = get_valid-marked now later token mid.resets in ground arith
      ]
    ]

redeem_none :
    (now : ℕ) (token hash : Text) (db : Db)
    → get_valid now token db.resets ≡ none
    → redeem_password_reset_token now token hash db ≡ none
unfolding redeem_password_reset_token
redeem_none now token hash db h = ground arith

-- A reset link works once: after a password was reset with a token, a second request with the token,
-- whenever it comes and whatever password it holds, is refused and changes nothing.
pub reset_password-once :
    (lib : Library) (now later : ℕ) (db after : Db) (user : Account) (token hash second : Text)
    → redeem_password_reset_token now token hash db ≡ some (user, after)
    → redeem_if lib later after (sent (token, second)) ≡ (after, refused 400)
reset_password-once lib now later db after user token hash second h =
    let none' =
      redeem_none later token second after (redeemed-marked now later token hash db after user h) in
    rw none' refl

get_valid-append :
    (now : ℕ) (code : Text) (rows : List Ticket) (t : Ticket)
    → get_valid now code rows ≡ none
    → is_valid now code t ≡ true
    → get_valid now code (rows ++ t ∷ []) ≡ some t
unfolding get_valid
get_valid-append now code [] t h v = rw v refl
get_valid-append now code (x ∷ rows) t h v =
    let rest = get_valid-append now code rows t (ground arith) v in ground arith

redeem_found :
    (now : ℕ) (token hash : Text) (db : Db) (t : Ticket) (user : Account)
    → get_valid now token db.resets ≡ some t
    → get_user db t.user_id ≡ some user
    → redeem_password_reset_token now token hash db
      ≡ some (
        record user { password_hash = some hash },
        record db {
          users = replace t.user_id (λ a. record a { password_hash = some hash }) db.users;
          resets = mark_used now token db.resets;
        },
      )
unfolding redeem_password_reset_token set_user_password set_user
redeem_found now token hash db t user h e = ground arith

-- A new link works for an hour: if the token was issued for an account that exists and is not the
-- token of a link that is still valid, then a request with a password that may be set, less than an
-- hour later, sets the account's password and is answered as a login of the account.
pub reset_link-works :
    (lib : Library) (now later : ℕ) (db : Db) (k : ℕ) (user : Account) (token hash : Text)
    (body : Option ResetPasswordReq)
    → get_user db k ≡ some user
    → get_valid later token db.resets ≡ none
    → later < now + 3600
    → may_redeem lib body ≡ sent (token, hash)
    → (after : Db) × (handle_reset_password lib later
          (create_password_reset_token now token k db)
          body
        ≡ (after, welcome lib (record user { password_hash = some hash })))
      × (get_user after k ≡ some (record user { password_hash = some hash }))
unfolding handle_reset_password create_password_reset_token get_user
reset_link-works lib now later db k user token hash body found fresh soon may =
    let t = new_ticket now token k 3600 in
    let edit : Account → Account = λ a. record a { password_hash = some hash } in
    let same_code = text_eq_refl token in
    let valid : is_valid later token t ≡ true = ground arith in
    let ticket = get_valid-append later token db.resets t fresh valid in
    let row = find-replace k edit db.users user (λ a. refl) found in
    let after : Db = record db {
      users = replace k edit db.users;
      resets = mark_used later token (db.resets ++ t ∷ []);
    } in
    let issued = create_password_reset_token now token k db in
    let redeem = redeem_found later token hash issued t user ticket found in
    (after, rw may (ap (redeemed lib issued) redeem), row)

reply-forget : (db other : Db) (r : Reply Text) → (forget db r).1 ≡ (forget other r).1
reply-forget db other (refused c) = refl
reply-forget db other (sent name) = refl

-- The reply to a forgotten password does not depend on the tables, so it does not tell whether the
-- username is known.
pub forgot_password-discreet :
    (lib : Library) (db other : Db) (body : Option Text)
    → (handle_forgot_password lib db body).1 ≡ (handle_forgot_password lib other body).1
unfolding handle_forgot_password
forgot_password-discreet lib db other body = reply-forget db other (asked_username lib body)
