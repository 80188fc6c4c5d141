-- ===== src/Accounts/Server.antt =====
-- The requests on accounts, one after another: the routes of internal/api/server.go that change the
-- tables. The acting user of a request is the account as the request's token gave it, which an
-- earlier request may have changed since.
use egeism.Base.{ℕ, Option, List, [], ◌∷◌}
use egeism.Base.Text.{Text}
use egeism.Accounts.Tables.{Account, Db}
use egeism.Accounts.Credentials.{Library}
use egeism.Accounts.Panel.{
  AdminCreateUserReq, AdminUpdateUserReq, handle_admin_create_user, handle_admin_update_user,
  handle_admin_delete_user,
}
use egeism.Accounts.Resets.{
  ResetPasswordReq, handle_forgot_password, handle_create_password_reset_link,
  handle_reset_password,
}
use egeism.Accounts.Linking.{TelegramLinkReq, handle_telegram_link_code, handle_telegram_link}
use egeism.Accounts.Rosters.{
  CreateStudentReq, handle_create_class, handle_rename_class, handle_delete_class,
  handle_add_class_member, handle_remove_class_member, handle_enroll_student,
  handle_unenroll_student, handle_create_student,
}

pub data Request : Type 0 where
  admin_create_user : Account → Option AdminCreateUserReq → Request
  admin_update_user : Account → Option ℕ → Option AdminUpdateUserReq → Request
  admin_delete_user : Account → Option ℕ → Request
  forgot_password : Option Text → Request
  create_reset_link : ℕ → Option Text → Account → Option ℕ → Request
  reset_password : ℕ → Option ResetPasswordReq → Request
  telegram_link_code : ℕ → Option Text → Account → Request
  telegram_link : ℕ → Option TelegramLinkReq → Request
  create_class : Account → Option Text → Request
  rename_class : Account → Option ℕ → Option Text → Request
  delete_class : Account → Option ℕ → Request
  add_class_member remove_class_member : Account → Option ℕ → Option ℕ → Request
  enroll_student unenroll_student : Account → Option ℕ → Request
  create_student : Account → Option CreateStudentReq → Request

-- The tables after the request.
unfoldable pub serve : Library → Db → Request → Db
serve lib db (admin_create_user user body) = (handle_admin_create_user lib db user body).0
serve lib db (admin_update_user user id body) = (handle_admin_update_user lib db user id body).0
serve lib db (admin_delete_user user id) = (handle_admin_delete_user db user id).0
serve lib db (forgot_password body) = (handle_forgot_password lib db body).0
serve lib db (create_reset_link now random user id) =
    (handle_create_password_reset_link now random db user id).0
serve lib db (reset_password now body) = (handle_reset_password lib now db body).0
serve lib db (telegram_link_code now random user) = (handle_telegram_link_code now random db user).0
serve lib db (telegram_link now body) = (handle_telegram_link lib now db body).0
serve lib db (create_class user body) = (handle_create_class db user body).0
serve lib db (rename_class user id body) = (handle_rename_class db user id body).0
serve lib db (delete_class user id) = (handle_delete_class db user id).0
serve lib db (add_class_member user id body) = (handle_add_class_member db user id body).0
serve lib db (remove_class_member user id student) =
    (handle_remove_class_member db user id student).0
serve lib db (enroll_student user id) = (handle_enroll_student db user id).0
serve lib db (unenroll_student user id) = (handle_unenroll_student db user id).0
serve lib db (create_student user body) = (handle_create_student lib db user body).0

unfoldable pub serve_all : Library → Db → List Request → Db
serve_all lib db [] = db
serve_all lib db (r ∷ rs) = serve_all lib (serve lib db r) rs
