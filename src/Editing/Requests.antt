-- ===== src/Editing/Requests.antt =====
-- The edits of tests one after another.
use egeism.Base.{
  ℕ, ◌≡◌, ◌==◌, Option, none, some, List, [], ◌∷◌, Bool-cases, Option-cases, inl, inr, arith,
}
use egeism.Base.Text.{Text}
use egeism.Attempts.Tables.{Db, get_task}
use egeism.Solve.Handlers.{sent, User, People}
use egeism.Checker.Normalize.{trim_space}
use egeism.Accounts.Replies.{Reply-cases}
use egeism.Editing.Tests.{
  CreateTestReq, AddItemReq, owned_test, handle_delete_test, rename_test, handle_rename_test,
  handle_add_test_item, create_test, handle_create_test, Request, creates, deletes, renames,
  adds_item, handle, after_reply, edit_all,
}
use egeism.Editing.Found.{owned_test-found}
use egeism.Editing.Kept.{
  IsSound, create_test-IsSound, rename_test-IsSound, delete_test-IsSound, add_test_item-IsSound,
}

handle_create_test-IsSound :
    (people : People) (db after : Db) (user : User) (body : Option CreateTestReq)
    → IsSound db
    → handle_create_test people db user body ≡ sent after
    → IsSound after
unfolding handle_create_test
handle_create_test-IsSound people db after user none s h = absurd (ground arith)
handle_create_test-IsSound people db after user (some req) s h =
    elim (Option-cases (people.subject_id req.subject)) [
      | inl e ↦ absurd (ground arith)
      | inr (sub, e) ↦
          let made : after ≡ create_test db sub req.title user.id = ground arith in
          rw made (create_test-IsSound db sub req.title user.id s)
    ]

handle_delete_test-IsSound :
    (people : People) (db after : Db) (user : User) (path : Option ℕ)
    → IsSound db
    → handle_delete_test people db user path ≡ sent after
    → IsSound after
unfolding handle_delete_test
handle_delete_test-IsSound people db after user path s h =
    elim (Reply-cases (owned_test people db user path)) [
      | inl (c, e) ↦ absurd (ground arith)
      | inr (test, e) ↦ delete_test-IsSound db after test.id s (ground arith)
    ]

handle_rename_test-IsSound :
    (people : People) (db after : Db) (user : User) (path : Option ℕ) (body : Option Text)
    → IsSound db
    → handle_rename_test people db user path body ≡ sent after
    → IsSound after
unfolding handle_rename_test
handle_rename_test-IsSound people db after user path none s h =
    elim (Reply-cases (owned_test people db user path)) [
      | inl (c, e) ↦ absurd (ground arith)
      | inr (test, e) ↦ absurd (ground arith)
    ]
handle_rename_test-IsSound people db after user path (some name) s h =
    elim (Reply-cases (owned_test people db user path)) [
      | inl (c, e) ↦ absurd (ground arith)
      | inr (test, e) ↦
          let made : after ≡ rename_test db test.id (trim_space name) = ground arith in
          rw made (rename_test-IsSound db test.id (trim_space name) s)
    ]

handle_add_test_item-IsSound :
    (people : People) (db after : Db) (user : User) (path : Option ℕ) (body : Option AddItemReq)
    → IsSound db
    → handle_add_test_item people db user path body ≡ sent after
    → IsSound after
unfolding handle_add_test_item
handle_add_test_item-IsSound people db after user path none s h =
    elim (Reply-cases (owned_test people db user path)) [
      | inl (c, e) ↦ absurd (ground arith)
      | inr (test, e) ↦ absurd (ground arith)
    ]
handle_add_test_item-IsSound people db after user path (some req) s h =
    elim (Reply-cases (owned_test people db user path)) [
      | inl (c, e) ↦ absurd (ground arith)
      | inr (test, e) ↦ elim (Option-cases (get_task db req.task_id)) [
        | inl f ↦ absurd (ground arith)
        | inr (task, f) ↦ elim (Bool-cases (task.subject_id == test.subject_id)) [
          | inl g ↦
              let (k, found, own) = owned_test-found people db user path test e in
              add_test_item-IsSound db after k test task req s found f g (ground arith)
          | inr g ↦ absurd (ground arith)
        ]
      ]
    ]

handle-IsSound :
    (people : People) (db after : Db) (r : Request)
    → IsSound db
    → handle people db r ≡ sent after
    → IsSound after
unfolding handle
handle-IsSound people db after (creates user body) s h =
    handle_create_test-IsSound people db after user body s h
handle-IsSound people db after (deletes user path) s h =
    handle_delete_test-IsSound people db after user path s h
handle-IsSound people db after (renames user path body) s h =
    handle_rename_test-IsSound people db after user path body s h
handle-IsSound people db after (adds_item user path body) s h =
    handle_add_test_item-IsSound people db after user path body s h

-- If each item has its test and its task, of the test's subject, and each attempt has its test, then
-- this is so after any edits of tests by any users: a task of another subject never gets into a test,
-- and no attempt loses its test.
pub edit_all-IsSound :
    (people : People) (db : Db) (rs : List Request) → IsSound db → IsSound (edit_all people db rs)
unfolding edit_all
edit_all-IsSound people db [] s = s
edit_all-IsSound people db (r ∷ rs) s =
    edit_all-IsSound people (after_reply db (handle people db r)) rs
      (elim (Reply-cases (handle people db r)) [
        | inl (c, e) ↦ rw e s
        | inr (after, e) ↦ rw e (handle-IsSound people db after r s e)
      ])
