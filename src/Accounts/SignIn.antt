-- ===== src/Accounts/SignIn.antt =====
-- Who gets a session: by a password, or by a linked Telegram account.
use egeism.Base.{
  map, ltb, Bool, false, Option, ◌++◌, ap, ◌∙◌, ℕ, ◌≡◌, ◌↔◌, refl, ◌==◌, ==_refl, true, false, some,
  List, [], ◌∷◌, find, any, All, Bool-cases, Option-cases, inl, inr, arith,
}
use egeism.Base.Text.{Text, text_eq, text_eq_refl}
use egeism.Domain.Learning.{SubjectCode}
use egeism.Domain.Entities.{Role}
use egeism.Checker.Normalize.{trim_space}
use egeism.Solve.Handlers.{sent, refused}
use egeism.Accounts.Tables.{
  holds_text, Account, Db, holds_key, get_user, get_user_by_username, get_user_by_telegram,
  get_valid, set_user, replace,
}
use egeism.Accounts.Credentials.{
  create_account, create_user_with_credentials, validate_new_credentials, new_account, or_username,
  byte_len, Library, LoginReq, AuthResp, fold_username, password_is, respond_with_token,
  handle_login,
}
use egeism.Accounts.Resets.{welcome}
use egeism.Accounts.Linking.{
  is_taken, link_telegram, redeem_telegram_link_code, linked, handle_telegram_auth,
}
use egeism.Accounts.Rows.{KeepsId, set_user-after}

-- The account that the request names, with the right password and not disabled.
abbrev pub MayLogin : Library → Db → LoginReq → Account → Type 0
MayLogin lib db req user =
    (get_user_by_username db (fold_username lib req.username) ≡ some user)
    × (password_is lib user.password_hash req.password ≡ true)
    × (user.is_active ≡ true)

login-MayLogin :
    (lib : Library) (db : Db) (req : LoginReq) (resp : AuthResp)
    → handle_login lib db (some req) ≡ sent resp
    → MayLogin lib db req resp.user × (lib.issue_token resp.user.id ≡ some resp.token)
unfolding handle_login respond_with_token
login-MayLogin lib db req resp h =
    elim (Option-cases (get_user_by_username db (fold_username lib req.username))) [
      | inl e ↦ absurd (ground arith)
      | inr (user, e) ↦ elim (Option-cases (lib.issue_token user.id)) [
        | inl f ↦ absurd (ground arith)
        | inr (token, f) ↦
            let same : resp.user ≡ user = ground arith in
            ((ground arith, ground arith, ground arith), ground arith)
      ]
    ]

MayLogin-login :
    (lib : Library) (db : Db) (req : LoginReq) (resp : AuthResp)
    → MayLogin lib db req resp.user
    → lib.issue_token resp.user.id ≡ some resp.token
    → handle_login lib db (some req) ≡ sent resp
unfolding handle_login respond_with_token
MayLogin-login lib db req resp may token = rw (may.0, may.1, may.2, token, All) refl

-- A login is answered with a session exactly for the account of the username, trimmed and in lower
-- case, whose hash the password matches, if the account is not disabled.
handle_login_iff :
    (lib : Library) (db : Db) (req : LoginReq) (resp : AuthResp)
    → (handle_login lib db (some req) ≡ sent resp)
      ↔ (MayLogin lib db req resp.user × (lib.issue_token resp.user.id ≡ some resp.token))
handle_login_iff lib db req resp =
    (login-MayLogin lib db req resp, λ both. MayLogin-login lib db req resp both.0 both.1)

find_added :
    (p : Account → Bool) (rows : List Account) (a : Account)
    → any p rows ≡ false
    → p a ≡ true
    → find p (rows ++ a ∷ []) ≡ some a
find_added p [] a h held = ground arith
find_added p (x ∷ rows) a h held =
    let rest = find_added p rows a (ground arith) held in ground arith

-- A new account has its username, in lower case and trimmed, alone, and the hash of its password.
created-found :
    (lib : Library) (db after : Db) (role : Role) (name username password hash : Text)
    (subject : Option SubjectCode) (user : Account)
    → create_account lib db role name username password subject ≡ sent (user, after)
    → lib.hash password ≡ some hash
    → (get_user_by_username after (fold_username lib username) ≡ some user)
      × (user.password_hash ≡ some hash)
      × (user.is_active ≡ true)
unfolding create_account create_user_with_credentials validate_new_credentials get_user_by_username
created-found lib db after role name username password hash subject user h hashed =
    let login = fold_username lib username in
    let account =
      new_account db.next_id role (or_username (trim_space name) login) login hash subject in
    elim (Bool-cases (ltb (byte_len login) 3)) [
      | inl e ↦ absurd (ground arith)
      | inr e ↦ elim (Bool-cases (ltb (byte_len password) 6)) [
        | inl f ↦ absurd (ground arith)
        | inr f ↦ elim (Bool-cases (any (λ a. holds_text login a.username) db.users)) [
          | inl g ↦ absurd (ground arith)
          | inr g ↦
              let made : user ≡ account = ground arith in
              let users : after.users ≡ db.users ++ account ∷ [] = ground arith in
              let there =
                find_added (λ a. holds_text login a.username) db.users account g
                  (text_eq_refl login) in
              (rw (users, made) there, ap (λ a. a.password_hash) made, ap (λ a. a.is_active) made)
        ]
      ]
    ]

-- An account that was created logs in: with its password, and its username in any case and with
-- spaces about it, it gets a session; with a password that the hash does not match it is refused.
-- This holds if bcrypt gives a hash that is not empty and that matches the password, and a token can
-- be issued.
pub create_account-login :
    (lib : Library) (db after : Db) (role : Role)
    (name username password hash typed other token : Text) (subject : Option SubjectCode)
    (user : Account)
    → create_account lib db role name username password subject ≡ sent (user, after)
    → lib.hash password ≡ some hash
    → text_eq hash [] ≡ false
    → lib.matches hash password ≡ true
    → lib.matches hash other ≡ false
    → lib.issue_token user.id ≡ some token
    → trim_space (map lib.lower typed) ≡ trim_space (map lib.lower username)
    → (handle_login lib after (some (record { username = typed; password = password }))
        ≡ sent (record { token = token; user = user }))
      × (handle_login lib after (some (record { username = typed; password = other }))
          ≡ refused 401)
unfolding handle_login respond_with_token
create_account-login lib db after role name username password hash typed other token subject user h
      hashed real right wrong issued same =
    let (there, kept, active) =
      created-found lib db after role name username password hash subject user h hashed in
    let found : get_user_by_username after (fold_username lib typed) ≡ some user =
      ap (get_user_by_username after) same ∙ there in
    (
      rw (found, kept, real, right, active, issued, All) refl,
      rw (found, kept, real, wrong, All) refl,
    )

find_by_telegram :
    (k tg : ℕ) (f : Account → Account) (rows : List Account) (a : Account)
    → KeepsId f
    → holds_key tg (f a).telegram_id ≡ true
    → find (λ x. x.id == k) rows ≡ some a
    → any (is_taken k tg) rows ≡ false
    → find (λ x. holds_key tg x.telegram_id) (replace k f rows) ≡ some (f a)
unfolding replace
find_by_telegram k tg f [] a keep held h free = cc
find_by_telegram k tg f (x ∷ rows) a keep held h free = elim (Bool-cases (x.id == k)) [
  | inl e ↦ let same : x ≡ a = ground arith in rw e (rw (same, held) refl)
  | inr e ↦
      let rest = find_by_telegram k tg f rows a keep held (ground arith) (ground arith) in
      ground arith
]

-- A Telegram account that was linked by a code belongs to the account of the code: the bot's login
-- with it is answered as a login of that account.
pub redeem_link-auth :
    (lib : Library) (now tg : ℕ) (code : Text) (db after : Db) (user : Account)
    → redeem_telegram_link_code now code tg db ≡ linked user after
    → (tg == 0) ≡ false
    → handle_telegram_auth lib after (some tg) ≡ welcome lib user
unfolding redeem_telegram_link_code link_telegram handle_telegram_auth get_user_by_telegram get_user
redeem_link-auth lib now tg code db after user h real =
    elim (Option-cases (get_valid now code db.links)) [
      | inl e ↦ absurd (ground arith)
      | inr (t, e) ↦
          let edit : Account → Account = λ a. record a { telegram_id = some tg } in
          elim (Option-cases (set_user db t.user_id edit)) [
            | inl f ↦ absurd (ground arith)
            | inr ((u, mid), f) ↦ elim (Bool-cases (any (is_taken t.user_id tg) db.users)) [
              | inl g ↦ absurd (ground arith)
              | inr g ↦
                  let (a, found, image, same) = set_user-after db mid t.user_id edit u f in
                  let users : after.users ≡ replace t.user_id edit db.users = ground arith in
                  let who : user ≡ edit a = ground arith in
                  let first =
                    find_by_telegram t.user_id tg edit db.users a (λ x. refl) (==_refl tg) found
                      g in
                  rw (real, users, first, who, All) refl
            ]
          ]
    ]
