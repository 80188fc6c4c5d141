-- ===== src/Accounts/Linking.antt =====
-- Telegram accounts: internal/api/telegram_auth.go and the link codes of internal/store/repos.go.
use egeism.Base.{
  ℕ, ◌==◌, Bool, not, ◌&&◌, ◌||◌, Option, none, some, [], ◌∷◌, ◌++◌, any, if◌then◌else◌,
}
use egeism.Base.Text.{Text}
use egeism.Checker.Normalize.{trim_space}
use egeism.Solve.Handlers.{Reply, sent, refused, ◌>>=◌, ◌>>◌, refuse_if, found}
use egeism.Accounts.Tables.{
  Account, Db, holds_key, get_user_by_telegram, set_user, get_valid, mark_used,
}
use egeism.Accounts.Credentials.{Library, AuthResp}
use egeism.Accounts.Resets.{new_ticket, is_empty_text, welcome}

-- The bot's login.
unfoldable pub handle_telegram_auth : Library → Db → Option ℕ → Reply AuthResp
handle_telegram_auth lib db body = do
  tg ← found body 400
  refuse_if (tg == 0) 400
  user ← found (get_user_by_telegram db tg) 404
  welcome lib user

-- CreateTelegramLinkCode; the code expires after fifteen minutes.
unfoldable pub create_telegram_link_code : ℕ → Text → ℕ → Db → Db
create_telegram_link_code now code user_id db = record db {
  links = db.links ++ new_ticket now code user_id 900 ∷ [];
}

-- The random code, or `none` when there is no randomness.
unfoldable pub handle_telegram_link_code : ℕ → Option Text → Db → Account → Db × Reply Text
handle_telegram_link_code now none db user = (db, refused 500)
handle_telegram_link_code now (some code) db user =
    (create_telegram_link_code now code user.id db, sent code)

pub data Redeemed : Type 0 where
  linked : Account → Db → Redeemed
  unknown taken : Redeemed

-- LinkTelegramToUser: a Telegram id is unique among the users.
abbrev pub is_taken : ℕ → ℕ → Account → Bool
is_taken k tg a = not (a.id == k) && holds_key tg a.telegram_id

unfoldable pub link_telegram : Db → ℕ → ℕ → Option (Account × Db)
link_telegram db k tg = set_user db k (λ a. record a { telegram_id = some tg })

-- RedeemTelegramLinkCode: one transaction.
unfoldable pub redeem_telegram_link_code : ℕ → Text → ℕ → Db → Redeemed
redeem_telegram_link_code now code tg db = elim (get_valid now code db.links) [
  | none ↦ unknown
  | some t ↦ elim (link_telegram db t.user_id tg) [
    | none ↦ unknown
    | some (user, after) ↦
        if any (is_taken t.user_id tg) db.users
        then taken
        else linked user (record after { links = mark_used now code after.links })
  ]
]

pub record TelegramLinkReq : Type 0 where
  pub code : Text
  pub telegram_id : ℕ

abbrev pub link_request : Option TelegramLinkReq → Reply (Text × ℕ)
link_request body = do
  req ← found body 400
  refuse_if (is_empty_text (trim_space req.code) || (req.telegram_id == 0)) 400
  sent (trim_space req.code, req.telegram_id)

abbrev pub link_reply : Library → Db → Redeemed → Db × Reply AuthResp
link_reply lib db unknown = (db, refused 400)
link_reply lib db taken = (db, refused 409)
link_reply lib db (linked user after) = (after, welcome lib user)

abbrev pub link_if : Library → ℕ → Db → Reply (Text × ℕ) → Db × Reply AuthResp
link_if lib now db (refused c) = (db, refused c)
link_if lib now db (sent (code, tg)) = link_reply lib db (redeem_telegram_link_code now code tg db)

unfoldable pub handle_telegram_link :
    Library → ℕ → Db → Option TelegramLinkReq → Db × Reply AuthResp
handle_telegram_link lib now db body = link_if lib now db (link_request body)
