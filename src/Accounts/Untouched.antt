-- ===== src/Accounts/Untouched.antt =====
-- The resets, the links and the notices leave classes, members and enrollments as they are.
use egeism.Base.{
  ℕ, ◌≡◌, refl, ◌∙◌, Option, none, some, List, [], ◌∷◌, Option-cases, inl, inr, arith,
}
use egeism.Base.Text.{Text}
use egeism.Solve.Handlers.{Reply, sent, refused}
use egeism.Accounts.Tables.{
  Account, Db, set_user, set_user_password, get_valid, get_user_by_username,
}
use egeism.Accounts.Credentials.{Library}
use egeism.Accounts.Resets.{
  create_password_reset_notification, notify_all, notify_found, recipients, forget, asked_username,
  handle_forgot_password, issue, reset_target, create_password_reset_token,
  handle_create_password_reset_link, redeem_password_reset_token, redeem_if, may_redeem,
  ResetPasswordReq, handle_reset_password,
}
use egeism.Accounts.Linking.{
  create_telegram_link_code, handle_telegram_link_code, link_telegram, redeem_telegram_link_code,
  link_if, link_request, TelegramLinkReq, handle_telegram_link, linked,
}
use egeism.Accounts.Rows.{set_user-after}
use egeism.Accounts.Users.{Redeemed-cases}
use egeism.Accounts.Unrostered.{rosters}

notification-rosters :
    (db : Db) (r k : ℕ) → rosters (create_password_reset_notification db r k) ≡ rosters db
unfolding create_password_reset_notification
notification-rosters db r k = ground arith

notify_all-rosters : (db : Db) (k : ℕ) (rs : List ℕ) → rosters (notify_all db k rs) ≡ rosters db
unfolding notify_all
notify_all-rosters db k [] = refl
notify_all-rosters db k (r ∷ rs) =
    notify_all-rosters (create_password_reset_notification db r k) k rs
    ∙ notification-rosters db r k

notify_found-rosters : (db : Db) (o : Option Account) → rosters (notify_found db o) ≡ rosters db
notify_found-rosters db none = refl
notify_found-rosters db (some user) = notify_all-rosters db user.id (recipients db user)

forget-rosters : (db : Db) (r : Reply Text) → rosters (forget db r).0 ≡ rosters db
forget-rosters db (refused c) = refl
forget-rosters db (sent name) = notify_found-rosters db (get_user_by_username db name)

pub forgot-rosters :
    (lib : Library) (db : Db) (body : Option Text)
    → rosters (handle_forgot_password lib db body).0 ≡ rosters db
unfolding handle_forgot_password
forgot-rosters lib db body = forget-rosters db (asked_username lib body)

issue-rosters :
    (now : ℕ) (random : Option Text) (db : Db) (r : Reply ℕ)
    → rosters (issue now random db r).0 ≡ rosters db
unfolding create_password_reset_token
issue-rosters now random db (refused c) = refl
issue-rosters now none db (sent k) = refl
issue-rosters now (some t) db (sent k) = refl

pub reset_link-rosters :
    (now : ℕ) (random : Option Text) (db : Db) (user : Account) (target : Option ℕ)
    → rosters (handle_create_password_reset_link now random db user target).0 ≡ rosters db
unfolding handle_create_password_reset_link
reset_link-rosters now random db user target =
    issue-rosters now random db (reset_target db user target)

pub link_code-rosters :
    (now : ℕ) (random : Option Text) (db : Db) (user : Account)
    → rosters (handle_telegram_link_code now random db user).0 ≡ rosters db
unfolding handle_telegram_link_code create_telegram_link_code
link_code-rosters now none db user = refl
link_code-rosters now (some t) db user = refl

set_user-rosters :
    (db after : Db) (k : ℕ) (f : Account → Account) (user : Account)
    → set_user db k f ≡ some (user, after)
    → rosters after ≡ rosters db
set_user-rosters db after k f user h =
    let (a, found, image, same) = set_user-after db after k f user h in rw same refl

redeem_reset-rosters :
    (now : ℕ) (token hash : Text) (db after : Db) (user : Account)
    → redeem_password_reset_token now token hash db ≡ some (user, after)
    → rosters after ≡ rosters db
unfolding redeem_password_reset_token set_user_password
redeem_reset-rosters now token hash db after user h =
    elim (Option-cases (get_valid now token db.resets)) [
      | inl e ↦ absurd (ground arith)
      | inr (t, e) ↦
          let edit : Account → Account = λ a. record a { password_hash = some hash } in
          elim (Option-cases (set_user db t.user_id edit)) [
            | inl f ↦ absurd (ground arith)
            | inr ((u, mid), f) ↦
                let kept = set_user-rosters db mid t.user_id edit u f in ground arith
          ]
    ]

redeem_if-rosters :
    (lib : Library) (now : ℕ) (db : Db) (r : Reply (Text × Text))
    → rosters (redeem_if lib now db r).0 ≡ rosters db
redeem_if-rosters lib now db (refused c) = refl
redeem_if-rosters lib now db (sent (token, hash)) =
    elim (Option-cases (redeem_password_reset_token now token hash db)) [
      | inl e ↦ rw (e, redeem_if) refl
      | inr ((u, after), e) ↦ rw (e, redeem_if) (redeem_reset-rosters now token hash db after u e)
    ]

pub reset_password-rosters :
    (lib : Library) (now : ℕ) (db : Db) (body : Option ResetPasswordReq)
    → rosters (handle_reset_password lib now db body).0 ≡ rosters db
unfolding handle_reset_password
reset_password-rosters lib now db body = redeem_if-rosters lib now db (may_redeem lib body)

redeem_link-rosters :
    (now : ℕ) (code : Text) (tg : ℕ) (db after : Db) (user : Account)
    → redeem_telegram_link_code now code tg db ≡ linked user after
    → rosters after ≡ rosters db
unfolding redeem_telegram_link_code link_telegram
redeem_link-rosters now code tg db after user h =
    elim (Option-cases (get_valid now code db.links)) [
      | inl e ↦ absurd (ground arith)
      | inr (t, e) ↦
          let edit : Account → Account = λ a. record a { telegram_id = some tg } in
          elim (Option-cases (set_user db t.user_id edit)) [
            | inl f ↦ absurd (ground arith)
            | inr ((u, mid), f) ↦
                let kept = set_user-rosters db mid t.user_id edit u f in ground arith
          ]
    ]

link_if-rosters :
    (lib : Library) (now : ℕ) (db : Db) (r : Reply (Text × ℕ))
    → rosters (link_if lib now db r).0 ≡ rosters db
link_if-rosters lib now db (refused c) = refl
link_if-rosters lib now db (sent (code, tg)) =
    elim (Redeemed-cases (redeem_telegram_link_code now code tg db)) [
      | inl (inl e) ↦ rw (e, link_if) refl
      | inl (inr e) ↦ rw (e, link_if) refl
      | inr (u, after, e) ↦ rw (e, link_if) (redeem_link-rosters now code tg db after u e)
    ]

pub telegram_link-rosters :
    (lib : Library) (now : ℕ) (db : Db) (body : Option TelegramLinkReq)
    → rosters (handle_telegram_link lib now db body).0 ≡ rosters db
unfolding handle_telegram_link
telegram_link-rosters lib now db body = link_if-rosters lib now db (link_request body)
