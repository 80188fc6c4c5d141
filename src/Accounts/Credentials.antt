-- ===== src/Accounts/Credentials.antt =====
-- The accounts of internal/api/telegram_auth.go: their credentials, the login, and the acting user
-- of internal/api/auth.go. A request arrives parsed: `none` stands for a path or a body that is
-- refused as malformed. What is random (a token, a code) or fails in a library is an argument.
use egeism.Base.{
  ℕ, ◌+◌, ltb, Bool, true, false, not, ◌&&◌, Option, none, some, [], ◌∷◌, ◌++◌, map, any,
  if◌then◌else◌,
}
use egeism.Base.Text.{Text, codes, text_eq}
use egeism.Domain.Learning.{SubjectCode, rus, math, inf, soc}
use egeism.Domain.Entities.{Role, student, teacher, admin}
use egeism.Checker.Normalize.{trim_space}
use egeism.Accounts.Tables.{
  Account, Db, holds_text, get_user, get_user_by_username, is_teacher, is_admin,
}
use egeism.Solve.Handlers.{Reply, sent, refused, ◌>>=◌, ◌>>◌, refuse_if, found}

-- bcrypt, the tokens of sessions, and unicode.ToLower.
pub record Library : Type 0 where
  pub hash : Text → Option Text
  pub matches : Text → Text → Bool
  pub issue_token : ℕ → Option Text
  pub lower : ℕ → ℕ

-- An operation that goes on after the tables have changed.
abbrev pub proceed {ℓ κ} :
    {A : Type ℓ} {B : Type κ} → Db × Reply A → (Db → A → Db × Reply B) → Db × Reply B
proceed (db, refused c) rest = (db, refused c)
proceed (db, sent a) rest = rest db a

-- The bytes of a rune in UTF-8.
unfoldable pub rune_bytes : ℕ → ℕ
rune_bytes r =
    if ltb r 0x80 then 1 else (if ltb r 0x800 then 2 else (if ltb r 0x10000 then 3 else 4))

-- Go's `len` of a string counts its bytes.
unfoldable pub byte_len : Text → ℕ
unfolding rune_bytes
byte_len [] = 0
byte_len (r ∷ s) = rune_bytes r + byte_len s

-- strings.TrimSpace(strings.ToLower(username)).
abbrev pub fold_username : Library → Text → Text
fold_username lib username = trim_space (map lib.lower username)

-- The username to store; both messages are a 400.
unfoldable pub validate_new_credentials : Library → Text → Text → Option Text
validate_new_credentials lib username password =
    let name = fold_username lib username in
    if ltb (byte_len name) 3 then none else (if ltb (byte_len password) 6 then none else some name)

abbrev pub or_username : Text → Text → Text
or_username [] username = username
or_username (c ∷ s) username = c ∷ s

abbrev pub new_account : ℕ → Role → Text → Text → Text → Option SubjectCode → Account
new_account id role name username hash subject = record {
  id = id;
  role = role;
  subject = subject;
  name = name;
  username = some username;
  password_hash = some hash;
  telegram_id = none;
  is_active = true;
}

-- CreateUserWithCredentials; `none` is ErrUsernameTaken.
unfoldable pub create_user_with_credentials :
    Db → Role → Text → Text → Text → Option SubjectCode → Option (Account × Db)
create_user_with_credentials db role name username hash subject =
    let user = new_account db.next_id role name username hash subject in
    if any (λ a. holds_text username a.username) db.users
    then none
    else some (user, record db { users = db.users ++ user ∷ []; next_id = db.next_id + 1 })

unfoldable pub create_account :
    Library → Db → Role → Text → Text → Text → Option SubjectCode → Reply (Account × Db)
create_account lib db role name username password subject = do
  login ← found (validate_new_credentials lib username password) 400
  hash ← found (lib.hash password) 500
  found
      (create_user_with_credentials db role (or_username (trim_space name) login) login hash
        subject)
      409

pub record AuthResp : Type 0 where
  pub token : Text
  pub user : Account

unfoldable pub respond_with_token : Library → Account → Reply AuthResp
respond_with_token lib user = do
  token ← found (lib.issue_token user.id) 500
  sent (record { token = token; user = user })

pub record LoginReq : Type 0 where
  pub username : Text
  pub password : Text

-- An account without a password has the empty hash.
abbrev pub password_is : Library → Option Text → Text → Bool
password_is lib none password = false
password_is lib (some hash) password = not (text_eq hash []) && lib.matches hash password

unfoldable pub handle_login : Library → Db → Option LoginReq → Reply AuthResp
handle_login lib db body = do
  req ← found body 400
  user ← found (get_user_by_username db (fold_username lib req.username)) 401
  refuse_if (not (password_is lib user.password_hash req.password)) 401
  refuse_if (not user.is_active) 403
  respond_with_token lib user

-- The acting user of a request, by the id that its token holds.
unfoldable pub with_user : Db → Option ℕ → Reply Account
with_user db bearer = do
  id ← found bearer 401
  user ← found (get_user db id) 401
  refuse_if (not user.is_active) 403
  sent user

unfoldable pub require_teacher : Account → Reply (Unit {0})
require_teacher user = refuse_if (not (is_teacher user.role)) 403

unfoldable pub require_admin : Account → Reply (Unit {0})
require_admin user = refuse_if (not (is_admin user.role)) 403

-- A role and a subject as a request spells them.
unfoldable pub role_of : Text → Option Role
role_of s =
    if text_eq s (codes "admin")
    then some admin
    else (if text_eq s (codes "teacher")
        then some teacher
        else (if text_eq s (codes "student") then some student else none))

unfoldable pub subject_of : Text → Option SubjectCode
subject_of s =
    if text_eq s (codes "rus")
    then some rus
    else (if text_eq s (codes "math")
        then some math
        else (if text_eq s (codes "inf")
            then some inf
            else (if text_eq s (codes "soc") then some soc else none)))

-- Only a teacher has a subject, and the empty one stands for none.
unfoldable pub subject_for : Role → Option Text → Reply (Option SubjectCode)
subject_for teacher (some (c ∷ s)) = do code ← found (subject_of (c ∷ s)) 400; sent (some code)
subject_for _ _ = sent none

unfoldable pub valid_role_subject : Text → Option Text → Reply (Role × Option SubjectCode)
valid_role_subject role subject = do
  known ← found (role_of role) 400
  code ← subject_for known subject
  sent (known, code)
