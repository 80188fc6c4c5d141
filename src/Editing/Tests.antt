-- ===== src/Editing/Tests.antt =====
-- handleCreateTest, handleDeleteTest, handleRenameTest and handleAddTestItem of
-- internal/api/admin.go with their operations of internal/store/repo_tests.go. A request arrives
-- parsed: `none` stands for a path or a body that is refused as malformed. The answer to a request
-- is the row that was written: here it is the tables after it. A position is taken as a number that
-- the column holds. The kind of a test is not kept in its row.
use egeism.Base.{
  ℕ, ◌+◌, ◌==◌, Bool, true, false, not, ◌&&◌, Option, none, some, List, [], ◌∷◌, ◌++◌, map, filter,
  any, if◌then◌else◌,
}
use egeism.Base.Text.{Text}
use egeism.Domain.Learning.{SubjectCode, rus, math, inf, soc}
use egeism.Checker.Normalize.{trim_space}
use egeism.Attempts.Tables.{Test, Assignment, Db, get_test, get_task}
use egeism.Solve.Handlers.{
  Reply, sent, refused, ◌>>=◌, ◌>>◌, refuse_if, found, User, People, test_in_scope,
}
use egeism.Accounts.Tables.{is_teacher}
use egeism.Accounts.Panel.{is_nonempty}

-- `is_kind` is whether the kind is classic or drill.
pub record CreateTestReq : Type 0 where
  pub subject : SubjectCode
  pub is_kind : Bool
  pub title : Text

pub record AddItemReq : Type 0 where
  pub task_id : ℕ
  pub position : ℕ

abbrev pub same_subject : SubjectCode → SubjectCode → Bool
same_subject rus rus = true
same_subject math math = true
same_subject inf inf = true
same_subject soc soc = true
same_subject a b = false

unfoldable pub subject_in_scope : Option SubjectCode → SubjectCode → Bool
subject_in_scope none code = true
subject_in_scope (some own) code = same_subject own code

abbrev pub new_test : Db → ℕ → Text → ℕ → Test
new_test db subject_id title created_by = record {
  id = db.next_id;
  subject_id = subject_id;
  title = title;
  created_by = created_by;
  variant_of = none;
}

-- CreateTest.
unfoldable pub create_test : Db → ℕ → Text → ℕ → Db
create_test db subject_id title created_by = record db {
  tests = db.tests ++ new_test db subject_id title created_by ∷ [];
  next_id = db.next_id + 1;
}

unfoldable pub handle_create_test : People → Db → User → Option CreateTestReq → Reply Db
handle_create_test people db user body = do
  refuse_if (not (is_teacher user.role)) 403
  req ← found body 400
  refuse_if (not req.is_kind) 400
  refuse_if (not (subject_in_scope user.subject req.subject)) 403
  sub ← found (people.subject_id req.subject) 404
  sent (create_test db sub req.title user.id)

-- testInScope and testOwned.
unfoldable pub owned_test : People → Db → User → Option ℕ → Reply Test
owned_test people db user path = do
  refuse_if (not (is_teacher user.role)) 403
  k ← found path 400
  test_in_scope people db user k user.subject
  test ← found (get_test db k) 404
  refuse_if (not (test.created_by == user.id)) 403
  sent test

abbrev pub is_of_assignment : ℕ → List Assignment → Option ℕ → Bool
is_of_assignment k rows none = false
is_of_assignment k rows (some j) = any (λ a. (a.id == j) && (a.test_id == k)) rows

-- ON DELETE SET NULL of tests.variant_of: a clone outlives its source.
abbrev pub is_clone_of : ℕ → Option ℕ → Bool
is_clone_of k none = false
is_clone_of k (some j) = j == k

abbrev pub without_source : ℕ → Test → Test
without_source k t = if is_clone_of k t.variant_of then record t { variant_of = none } else t

-- DeleteTest: the items go with the test, and the notifications with the assignments. An attempt
-- keeps its assignment from being removed.
unfoldable pub delete_test : Db → ℕ → Reply Db
delete_test db k = do
  refuse_if (any (λ a. a.test_id == k) db.attempts) 409
  refuse_if (any (λ a. is_of_assignment k db.assignments a.assignment_id) db.attempts) 500
  sent (record db {
    tests = map (without_source k) (filter (λ t. not (t.id == k)) db.tests);
    items = filter (λ x. not (x.test_id == k)) db.items;
    assignments = filter (λ a. not (a.test_id == k)) db.assignments;
    notifications =
        filter (λ n. not (is_of_assignment k db.assignments n.assignment_id)) db.notifications;
  })

unfoldable pub handle_delete_test : People → Db → User → Option ℕ → Reply Db
handle_delete_test people db user path = do
  test ← owned_test people db user path
  delete_test db test.id

abbrev pub with_title : ℕ → Text → Test → Test
with_title k title t = if t.id == k then record t { title = title } else t

-- RenameTest.
unfoldable pub rename_test : Db → ℕ → Text → Db
rename_test db k title = record db { tests = map (with_title k title) db.tests }

unfoldable pub handle_rename_test : People → Db → User → Option ℕ → Option Text → Reply Db
handle_rename_test people db user path body = do
  test ← owned_test people db user path
  name ← found body 400
  refuse_if (not (is_nonempty (trim_space name))) 400
  sent (rename_test db test.id (trim_space name))

-- AddTestItem: a test has one item in a position.
unfoldable pub add_test_item : Db → ℕ → AddItemReq → Reply Db
add_test_item db k req = do
  refuse_if (any (λ x. (x.test_id == k) && (x.position == req.position)) db.items) 500
  sent (record db {
    items = db.items ++ record { test_id = k; task_id = req.task_id; position = req.position } ∷ [];
  })

unfoldable pub handle_add_test_item : People → Db → User → Option ℕ → Option AddItemReq → Reply Db
handle_add_test_item people db user path body = do
  test ← owned_test people db user path
  req ← found body 400
  task ← found (get_task db req.task_id) 404
  refuse_if (not (task.subject_id == test.subject_id)) 400
  add_test_item db test.id req

-- Requests on tests, each by some user.
pub data Request : Type 0 where
  creates : User → Option CreateTestReq → Request
  deletes : User → Option ℕ → Request
  renames : User → Option ℕ → Option Text → Request
  adds_item : User → Option ℕ → Option AddItemReq → Request

unfoldable pub handle : People → Db → Request → Reply Db
handle people db (creates user body) = handle_create_test people db user body
handle people db (deletes user path) = handle_delete_test people db user path
handle people db (renames user path body) = handle_rename_test people db user path body
handle people db (adds_item user path body) = handle_add_test_item people db user path body

-- A request that is refused leaves the tables as they were.
abbrev pub after_reply : Db → Reply Db → Db
after_reply db (sent after) = after
after_reply db (refused c) = db

unfoldable pub edit_all : People → Db → List Request → Db
edit_all people db [] = db
edit_all people db (r ∷ rs) = edit_all people (after_reply db (handle people db r)) rs
