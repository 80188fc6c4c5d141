-- ===== src/Editing/Kept.antt =====
-- What the edits of tests keep: the subject of the items, and the tests of attempts.
use egeism.Base.{
  refl, ℕ, ◌≡◌, ◌==◌, Bool, true, false, not, Option, none, some, List, [], ◌∷◌, ◌++◌, find, filter,
  any, All, All-imp, All-append, Bool-cases, Option-cases, inl, inr, arith,
}
use egeism.Base.Text.{Text}
use egeism.Domain.Entities.{Task}
use egeism.Attempts.Tables.{Test, TestItem, Attempt, Db, get_test, get_task}
use egeism.Solve.Handlers.{sent}
use egeism.Accounts.Membership.{All-filter_with, All-and}
use egeism.Editing.Tests.{
  without_source, AddItemReq, delete_test, with_title, rename_test, add_test_item, new_test,
  create_test,
}
use egeism.Editing.Found.{
  by_id, mapped, KeepsSubject, others, find-append, find-map, find-others, find-id, with_title-id,
  with_title-subject, without_source-subject,
}

abbrev pub is_here : Option Test → Bool
is_here none = false
is_here (some t) = true

-- The subject of the test that was found is that of the task that was found.
abbrev pub agree : Option Test → Option Task → Bool
agree (some t) (some k) = t.subject_id == k.subject_id
agree _ _ = false

abbrev pub Fits : Db → TestItem → Type 0
Fits db x = agree (get_test db x.test_id) (get_task db x.task_id) ≡ true

-- The test of each item is there, and its task too, of the test's subject; the test of each attempt
-- is there.
pub record IsSound (db : Db) : Type 0 where
  pub items : All (Fits db) db.items
  pub attempts : All (λ a. is_here (get_test db a.test_id) ≡ true) db.attempts

pub create_test-IsSound :
    (db : Db) (sub : ℕ) (title : Text) (by : ℕ) → IsSound db → IsSound (create_test db sub title by)
unfolding create_test get_test get_task
create_test-IsSound db sub title by s = record {
  items = All-imp (Fits db) (Fits (create_test db sub title by)) fits db.items s.items;
  attempts =
      All-imp (λ (a : Attempt). is_here (get_test db a.test_id) ≡ true)
        (λ a. is_here (get_test (create_test db sub title by) a.test_id) ≡ true)
        (λ a h. here a.test_id h) db.attempts s.attempts;
}
  where
    here :
        (k : ℕ)
        → is_here (find (by_id k) db.tests) ≡ true
        → is_here (find (by_id k) (db.tests ++ new_test db sub title by ∷ [])) ≡ true
    here k h = elim (Option-cases (find (by_id k) db.tests)) [
      | inl e ↦ absurd (ground arith)
      | inr (t, e) ↦
          let same = find-append k db.tests (new_test db sub title by ∷ []) t e in ground arith
    ]

    fits : (x : TestItem) → Fits db x → Fits (create_test db sub title by) x
    fits x h = elim (Option-cases (find (by_id x.test_id) db.tests)) [
      | inl e ↦ absurd (ground arith)
      | inr (t, e) ↦
          let same = find-append x.test_id db.tests (new_test db sub title by ∷ []) t e in
          ground arith
    ]

is_here-mapped : (f : Test → Test) (o : Option Test) → is_here (mapped f o) ≡ is_here o
is_here-mapped f none = refl
is_here-mapped f (some t) = refl

agree-mapped :
    (f : Test → Test) (o : Option Test) (u : Option Task)
    → KeepsSubject f
    → agree (mapped f o) u ≡ agree o u
agree-mapped f none u keep = refl
agree-mapped f (some t) none keep = refl
agree-mapped f (some t) (some u) keep = let same = keep t in ground arith

pub rename_test-IsSound :
    (db : Db) (k : ℕ) (title : Text) → IsSound db → IsSound (rename_test db k title)
unfolding rename_test get_test get_task
rename_test-IsSound db k title s =
    let change = with_title k title in
    let row = λ (j : ℕ). find-map change j db.tests (with_title-id k title) in
    record {
      items =
          All-imp (Fits db) (Fits (rename_test db k title))
            (λ x h. rw (row x.test_id) (
              rw
                (agree-mapped change (find (by_id x.test_id) db.tests) (get_task db x.task_id)
                  (with_title-subject k title))
                h))
            db.items s.items;
      attempts =
          All-imp (λ (a : Attempt). is_here (get_test db a.test_id) ≡ true)
            (λ a. is_here (get_test (rename_test db k title) a.test_id) ≡ true)
            (λ a h.
              rw (row a.test_id) (rw (is_here-mapped change (find (by_id a.test_id) db.tests)) h))
            db.attempts s.attempts;
    }

-- No attempt is of a test that none is found for.
none-any :
    (k : ℕ) (rows : List Attempt)
    → any (λ a. a.test_id == k) rows ≡ false
    → All (λ a. (a.test_id == k) ≡ false) rows
none-any k [] h = tt
none-any k (a ∷ rows) h = (ground arith, none-any k rows (ground arith))

others-attempts :
    (k : ℕ) (ts : List Test) (rows : List Attempt)
    → any (λ a. a.test_id == k) rows ≡ false
    → All (λ a. is_here (find (by_id a.test_id) ts) ≡ true) rows
    → All (λ a. is_here (find (by_id a.test_id) (others k ts)) ≡ true) rows
others-attempts k ts rows unused h =
    All-imp
      (λ (a : Attempt). ((a.test_id == k) ≡ false) × (is_here (find (by_id a.test_id) ts) ≡ true))
      (λ a. is_here (find (by_id a.test_id) (others k ts)) ≡ true)
      (λ a b.
        rw (find-others k a.test_id ts b.0)
          (rw (is_here-mapped (without_source k) (find (by_id a.test_id) ts)) b.1))
      rows
      (All-and (λ (a : Attempt). (a.test_id == k) ≡ false)
        (λ (a : Attempt). is_here (find (by_id a.test_id) ts) ≡ true) rows (none-any k rows unused)
        h)

pub delete_test-IsSound :
    (db after : Db) (k : ℕ) → IsSound db → delete_test db k ≡ sent after → IsSound after
unfolding delete_test get_test get_task
delete_test-IsSound db after k s h = elim (Bool-cases (any (λ a. a.test_id == k) db.attempts)) [
  | inl e ↦ absurd (ground arith)
  | inr e ↦
      let tests : after.tests ≡ others k db.tests = ground arith in
      let tasks : after.tasks ≡ db.tasks = ground arith in
      let items : after.items ≡ filter (λ x. not (x.test_id == k)) db.items = ground arith in
      let attempts : after.attempts ≡ db.attempts = ground arith in
      record {
        items = rw items (
            All-filter_with (Fits db) (Fits after) (λ x. not (x.test_id == k))
              (λ x other f. rw tests (
                rw tasks (
                  rw (find-others k x.test_id db.tests (ground arith)) (
                    rw
                      (agree-mapped (without_source k) (find (by_id x.test_id) db.tests)
                        (find (λ t. t.id == x.task_id) db.tasks) (without_source-subject k))
                      f))))
              db.items s.items);
        attempts = rw attempts (rw tests (others-attempts k db.tests db.attempts e s.attempts));
      }
]

pub add_test_item-IsSound :
    (db after : Db) (k : ℕ) (test : Test) (task : Task) (req : AddItemReq)
    → IsSound db
    → get_test db k ≡ some test
    → get_task db req.task_id ≡ some task
    → (task.subject_id == test.subject_id) ≡ true
    → add_test_item db test.id req ≡ sent after
    → IsSound after
unfolding add_test_item get_test get_task
add_test_item-IsSound db after k test task req s found known same h =
    let id = find-id k db.tests test found in
    let row : TestItem = record {
      test_id = test.id;
      task_id = req.task_id;
      position = req.position;
    } in
    let tests : after.tests ≡ db.tests = ground arith in
    let tasks : after.tasks ≡ db.tasks = ground arith in
    let items : after.items ≡ db.items ++ row ∷ [] = ground arith in
    let attempts : after.attempts ≡ db.attempts = ground arith in
    let fits : Fits db row = ground arith in
    record {
      items =
          rw items
            (rw tests (rw tasks (All-append (Fits db) db.items (row ∷ []) s.items (fits, tt))));
      attempts = rw attempts (rw tests s.attempts);
    }
