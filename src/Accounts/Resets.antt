-- ===== src/Accounts/Resets.antt =====
-- internal/api/password_reset.go and internal/store/repo_password_reset.go. `now` is the time of the
-- request. What is logged only is left out, and who issued a token.
use egeism.Base.{
  ℕ, ◌+◌, ◌==◌, Bool, true, false, not, ◌&&◌, Option, none, some, List, [], ◌∷◌, ◌++◌, filter, map,
  any, mem, if◌then◌else◌,
}
use egeism.Base.Text.{Text}
use egeism.Domain.Entities.{Role, student, teacher, admin}
use egeism.Checker.Normalize.{trim_space}
use egeism.Solve.Handlers.{Reply, sent, refused, ◌>>=◌, ◌>>◌, refuse_if, found}
use egeism.Accounts.Tables.{
  Account, Ticket, Notice, Db, is_student, get_user, get_user_by_username, set_user_password,
  is_active_admin, is_teacher_of, get_valid, mark_used,
}
use egeism.Accounts.Credentials.{Library, fold_username, AuthResp, respond_with_token}
use egeism.Accounts.Panel.{checked_hash}

-- ListTeacherIDsForStudent and ListActiveAdminIDs.
unfoldable pub list_teacher_ids : Db → ℕ → List ℕ
list_teacher_ids db k = map (λ e. e.teacher_id) (filter (λ e. e.student_id == k) db.enrollments)

unfoldable pub list_active_admin_ids : Db → List ℕ
list_active_admin_ids db = map (λ a. a.id) (filter is_active_admin db.users)

-- CreatePasswordResetNotification: not while one about the same user is unread.
abbrev pub is_pending : ℕ → ℕ → Notice → Bool
is_pending recipient user_id n =
    (n.user_id == recipient) && ((n.subject_user_id == user_id) && n.unread)

unfoldable pub create_password_reset_notification : Db → ℕ → ℕ → Db
create_password_reset_notification db recipient user_id =
    if any (is_pending recipient user_id) db.notices then db else record db {
      notices =
          db.notices
          ++ record { user_id = recipient; subject_user_id = user_id; unread = true } ∷ [];
    }

unfoldable pub notify_all : Db → ℕ → List ℕ → Db
notify_all db user_id [] = db
notify_all db user_id (r ∷ rs) =
    notify_all (create_password_reset_notification db r user_id) user_id rs

-- A set of ids: each is taken once.
unfoldable pub distinct_ids : List ℕ → List ℕ
distinct_ids [] = []
distinct_ids (k ∷ ks) = let rest = distinct_ids ks in if mem k ks then rest else k ∷ rest

-- The teachers of a student and the active admins, without the user.
unfoldable pub recipients : Db → Account → List ℕ
recipients db user =
    let teachers = (if is_student user.role then list_teacher_ids db user.id else []) in
    filter (λ k. not (k == user.id)) (distinct_ids (teachers ++ list_active_admin_ids db))

abbrev pub notify_found : Db → Option Account → Db
notify_found db none = db
notify_found db (some user) = notify_all db user.id (recipients db user)

abbrev pub is_empty_text : Text → Bool
is_empty_text [] = true
is_empty_text (c ∷ s) = false

-- The username of the request, folded.
abbrev pub asked_username : Library → Option Text → Reply Text
asked_username lib body = do
  username ← found body 400
  refuse_if (is_empty_text (fold_username lib username)) 400
  sent (fold_username lib username)

abbrev pub forget : Db → Reply Text → Db × Reply (Unit {0})
forget db (refused c) = (db, refused c)
forget db (sent username) = (notify_found db (get_user_by_username db username), sent tt)

unfoldable pub handle_forgot_password : Library → Db → Option Text → Db × Reply (Unit {0})
handle_forgot_password lib db body = forget db (asked_username lib body)

-- CreatePasswordResetToken; the token expires after an hour.
abbrev pub new_ticket : ℕ → Text → ℕ → ℕ → Ticket
new_ticket now code user_id ttl = record {
  code = code;
  user_id = user_id;
  expires_at = now + ttl;
  used_at = none;
}

unfoldable pub create_password_reset_token : ℕ → Text → ℕ → Db → Db
create_password_reset_token now token user_id db = record db {
  resets = db.resets ++ new_ticket now token user_id 3600 ∷ [];
}

-- Who may reset whose password.
unfoldable pub may_reset : Db → Account → Account → Role → Reply (Unit {0})
may_reset db actor target admin = sent tt
may_reset db actor target teacher = do
  refuse_if (not (is_student target.role)) 403
  refuse_if (not (is_teacher_of db actor.id target.id)) 403
may_reset db actor target student = refused 403

abbrev pub reset_target : Db → Account → Option ℕ → Reply ℕ
reset_target db actor target = do
  id ← found target 400
  user ← found (get_user db id) 404
  may_reset db actor user actor.role
  sent id

-- The random token, or `none` when there is no randomness.
abbrev pub issue : ℕ → Option Text → Db → Reply ℕ → Db × Reply Text
issue now random db (refused c) = (db, refused c)
issue now none db (sent id) = (db, refused 500)
issue now (some token) db (sent id) = (create_password_reset_token now token id db, sent token)

unfoldable pub handle_create_password_reset_link :
    ℕ → Option Text → Db → Account → Option ℕ → Db × Reply Text
handle_create_password_reset_link now random db actor target =
    issue now random db (reset_target db actor target)

-- PeekPasswordResetToken.
unfoldable pub peek_password_reset_token : ℕ → Db → Text → Option (Account × ℕ)
peek_password_reset_token now db token = elim (get_valid now token db.resets) [
  | none ↦ none
  | some t ↦ elim (get_user db t.user_id) [ none ↦ none | some user ↦ some (user, t.expires_at) ]
]

unfoldable pub handle_peek_reset_token : ℕ → Db → Text → Reply (Text × ℕ)
handle_peek_reset_token now db raw = do
  refuse_if (is_empty_text (trim_space raw)) 400
  (user, expires) ← found (peek_password_reset_token now db (trim_space raw)) 404
  sent (user.name, expires)

-- RedeemPasswordResetToken: one transaction.
unfoldable pub redeem_password_reset_token : ℕ → Text → Text → Db → Option (Account × Db)
redeem_password_reset_token now token hash db = elim (get_valid now token db.resets) [
  | none ↦ none
  | some t ↦ elim (set_user_password db t.user_id hash) [
    | none ↦ none
    | some (user, after) ↦ some (user, record after { resets = mark_used now token after.resets })
  ]
]

pub record ResetPasswordReq : Type 0 where
  pub token : Text
  pub password : Text

-- The token and the hash of the new password.
unfoldable pub may_redeem : Library → Option ResetPasswordReq → Reply (Text × Text)
may_redeem lib body = do
  req ← found body 400
  refuse_if (is_empty_text (trim_space req.token)) 400
  hash ← checked_hash lib req.password
  sent (trim_space req.token, hash)

-- A disabled account gets no session.
unfoldable pub welcome : Library → Account → Reply AuthResp
welcome lib user = do refuse_if (not user.is_active) 403; respond_with_token lib user

abbrev pub redeemed : Library → Db → Option (Account × Db) → Db × Reply AuthResp
redeemed lib db none = (db, refused 400)
redeemed lib db (some (user, after)) = (after, welcome lib user)

abbrev pub redeem_if : Library → ℕ → Db → Reply (Text × Text) → Db × Reply AuthResp
redeem_if lib now db (refused c) = (db, refused c)
redeem_if lib now db (sent (token, hash)) =
    redeemed lib db (redeem_password_reset_token now token hash db)

unfoldable pub handle_reset_password :
    Library → ℕ → Db → Option ResetPasswordReq → Db × Reply AuthResp
handle_reset_password lib now db body = redeem_if lib now db (may_redeem lib body)
