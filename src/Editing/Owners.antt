-- ===== src/Editing/Owners.antt =====
-- The edits of other users and a test.
use mathlib.Core.Path.{subst}
use egeism.Base.{
  ◌⊎◌, ◌∙◌, ap, sym, inl, inr, ℕ, ◌≡◌, refl, ◌==◌, false, not, Option, none, some, List, [], ◌∷◌,
  ◌++◌, find, filter, All, Bool-cases, Option-cases, inl, inr, arith,
}
use egeism.Base.Text.{Text}
use egeism.Checker.Normalize.{trim_space}
use egeism.Attempts.Tables.{Test, TestItem, Db, get_test, get_task}
use egeism.Solve.Handlers.{sent, User, People}
use egeism.Accounts.Replies.{Reply-cases}
use egeism.Editing.Tests.{
  without_source, is_clone_of, AddItemReq, owned_test, delete_test, handle_delete_test, with_title,
  rename_test, handle_rename_test, add_test_item, handle_add_test_item, new_test, create_test,
  handle_create_test, Request, creates, deletes, renames, adds_item, handle, after_reply, edit_all,
}
use egeism.Editing.Found.{
  by_id, find-append, find-map, find-others, others, with_title-id, find-id, owned_test-found,
}

abbrev pub user_of : Request → User
user_of (creates user body) = user
user_of (deletes user path) = user
user_of (renames user path body) = user
user_of (adds_item user path body) = user

abbrev pub items_of : ℕ → List TestItem → List TestItem
items_of k rows = filter (λ x. x.test_id == k) rows

-- The row of the test and its items are the same, but a clone may have lost the mark of its source.
abbrev pub unmarked : Test → Test
unmarked t = record t { variant_of = none }

abbrev pub Keeps : ℕ → Test → Db → Db → Type 0
Keeps k test db after =
    (u : Test) × (get_test after k ≡ some u)
    × ((u ≡ test) ⊎ (u ≡ unmarked test))
    × (items_of k after.items ≡ items_of k db.items)

without_source-same :
    (j : ℕ) (t : Test) → (without_source j t ≡ t) ⊎ (without_source j t ≡ unmarked t)
without_source-same j t = elim (Bool-cases (is_clone_of j t.variant_of)) [
  | inl e ↦ inr (ground arith)
  | inr e ↦ inl (ground arith)
]

items_of-append :
    (k : ℕ) (rows : List TestItem) (x : TestItem)
    → (x.test_id == k) ≡ false
    → items_of k (rows ++ x ∷ []) ≡ items_of k rows
items_of-append k [] x h = ground arith
items_of-append k (y ∷ rows) x h =
    let rest = items_of-append k rows x h in
    elim (Bool-cases (y.test_id == k)) [ inl e ↦ ground arith | inr e ↦ ground arith ]

items_of-without :
    (j k : ℕ) (rows : List TestItem)
    → (k == j) ≡ false
    → items_of k (filter (λ x. not (x.test_id == j)) rows) ≡ items_of k rows
items_of-without j k [] h = refl
items_of-without j k (y ∷ rows) h =
    let rest = items_of-without j k rows h in
    elim (Bool-cases (y.test_id == k)) [
      | inl e ↦ let other : (y.test_id == j) ≡ false = ground arith in ground arith
      | inr e ↦ elim (Bool-cases (y.test_id == j)) [ inl f ↦ ground arith | inr f ↦ ground arith ]
    ]

-- A test that another user may edit is another one.
owned_test-other :
    (people : People) (db : Db) (user : User) (path : Option ℕ) (k : ℕ) (test own : Test)
    → get_test db k ≡ some test
    → (test.created_by == user.id) ≡ false
    → owned_test people db user path ≡ sent own
    → (k == own.id) ≡ false
unfolding get_test
owned_test-other people db user path k test own found foreign h =
    let (j, mine, by) = owned_test-found people db user path own h in
    let id = find-id j db.tests own mine in
    elim (Bool-cases (k == own.id)) [
      | inl e ↦
          let same : k ≡ j = ground arith in
          let here : find (by_id k) db.tests ≡ some own = rw same mine in
          let one : test ≡ own = ground arith in absurd (ground arith)
      | inr e ↦ e
    ]

delete_test-Keeps :
    (db after : Db) (j k : ℕ) (test : Test)
    → get_test db k ≡ some test
    → (k == j) ≡ false
    → delete_test db j ≡ sent after
    → Keeps k test db after
unfolding delete_test get_test
delete_test-Keeps db after j k test found other h =
    let tests : after.tests ≡ others j db.tests = ground arith in
    let items : after.items ≡ filter (λ x. not (x.test_id == j)) db.items = ground arith in
    (
      without_source j test,
      rw tests (rw (find-others j k db.tests other) (rw found refl)),
      without_source-same j test,
      rw items (items_of-without j k db.items other),
    )

rename_test-Keeps :
    (db : Db) (j k : ℕ) (title : Text) (test : Test)
    → get_test db k ≡ some test
    → (k == j) ≡ false
    → Keeps k test db (rename_test db j title)
unfolding rename_test get_test
rename_test-Keeps db j k title test found other =
    let id = find-id k db.tests test found in
    let renamed = find-map (with_title j title) k db.tests (with_title-id j title) in
    let same : (test.id == j) ≡ false = ground arith in
    let row : with_title j title test ≡ test = ground arith in
    (test, rw renamed (rw found (rw row refl)), inl refl, refl)

add_test_item-Keeps :
    (db after : Db) (j k : ℕ) (req : AddItemReq) (test : Test)
    → get_test db k ≡ some test
    → (k == j) ≡ false
    → add_test_item db j req ≡ sent after
    → Keeps k test db after
unfolding add_test_item get_test
add_test_item-Keeps db after j k req test found other h =
    let row : TestItem = record { test_id = j; task_id = req.task_id; position = req.position } in
    let tests : after.tests ≡ db.tests = ground arith in
    let items : after.items ≡ db.items ++ row ∷ [] = ground arith in
    (test, rw tests found, inl refl, rw items (items_of-append k db.items row (ground arith)))

handle-Keeps :
    (people : People) (db after : Db) (r : Request) (k : ℕ) (test : Test)
    → get_test db k ≡ some test
    → (test.created_by == (user_of r).id) ≡ false
    → handle people db r ≡ sent after
    → Keeps k test db after
unfolding handle handle_create_test create_test handle_delete_test handle_rename_test
    handle_add_test_item get_test
handle-Keeps people db after (creates user none) k test found foreign h = absurd (ground arith)
handle-Keeps people db after (creates user (some req)) k test found foreign h =
    elim (Option-cases (people.subject_id req.subject)) [
      | inl e ↦ absurd (ground arith)
      | inr (sub, e) ↦
          let row = new_test db sub req.title user.id in
          let tests : after.tests ≡ db.tests ++ row ∷ [] = ground arith in
          let items : after.items ≡ db.items = ground arith in
          let there = find-append k db.tests (row ∷ []) test found in
          (test, rw tests there, inl refl, rw items refl)
    ]
handle-Keeps people db after (deletes user path) k test found foreign h =
    elim (Reply-cases (owned_test people db user path)) [
      | inl (c, e) ↦ absurd (ground arith)
      | inr (own, e) ↦
          delete_test-Keeps db after own.id k test found
            (owned_test-other people db user path k test own found foreign e) (ground arith)
    ]
handle-Keeps people db after (renames user path none) k test found foreign h =
    elim (Reply-cases (owned_test people db user path)) [
      | inl (c, e) ↦ absurd (ground arith)
      | inr (own, e) ↦ absurd (ground arith)
    ]
handle-Keeps people db after (renames user path (some name)) k test found foreign h =
    elim (Reply-cases (owned_test people db user path)) [
      | inl (c, e) ↦ absurd (ground arith)
      | inr (own, e) ↦
          let made : after ≡ rename_test db own.id (trim_space name) = ground arith in
          rw made (
            rename_test-Keeps db own.id k (trim_space name) test found
              (owned_test-other people db user path k test own found foreign e))
    ]
handle-Keeps people db after (adds_item user path none) k test found foreign h =
    elim (Reply-cases (owned_test people db user path)) [
      | inl (c, e) ↦ absurd (ground arith)
      | inr (own, e) ↦ absurd (ground arith)
    ]
handle-Keeps people db after (adds_item user path (some req)) k test found foreign h =
    elim (Reply-cases (owned_test people db user path)) [
      | inl (c, e) ↦ absurd (ground arith)
      | inr (own, e) ↦ elim (Option-cases (get_task db req.task_id)) [
        | inl f ↦ absurd (ground arith)
        | inr (task, f) ↦
            add_test_item-Keeps db after own.id k req test found
              (owned_test-other people db user path k test own found foreign e) (ground arith)
      ]
    ]

step-Keeps :
    (people : People) (db : Db) (r : Request) (k : ℕ) (test : Test)
    → get_test db k ≡ some test
    → (test.created_by == (user_of r).id) ≡ false
    → Keeps k test db (after_reply db (handle people db r))
step-Keeps people db r k test found foreign = elim (Reply-cases (handle people db r)) [
  | inl (c, e) ↦ rw e (test, found, inl refl, refl)
  | inr (after, e) ↦ rw e (handle-Keeps people db after r k test found foreign e)
]

unmarked_twice :
    (test u v : Test)
    → (u ≡ test) ⊎ (u ≡ unmarked test)
    → (v ≡ u) ⊎ (v ≡ unmarked u)
    → (v ≡ test) ⊎ (v ≡ unmarked test)
unmarked_twice test u v (inl e) (inl f) = inl (f ∙ e)
unmarked_twice test u v (inl e) (inr f) = inr (f ∙ ap unmarked e)
unmarked_twice test u v (inr e) (inl f) = inr (f ∙ e)
unmarked_twice test u v (inr e) (inr f) = inr (f ∙ ap unmarked e)

owner_of : (test u : Test) → (u ≡ test) ⊎ (u ≡ unmarked test) → u.created_by ≡ test.created_by
owner_of test u (inl e) = ap (λ t. t.created_by) e
owner_of test u (inr e) = ap (λ t. t.created_by) e

-- However many edits of tests other users make, a test that is there keeps its subject, title and
-- creator, and its items in their order; of its row only the mark that it is a clone may be cleared,
-- as its source may be removed.
pub edit_all-Keeps :
    (people : People) (db : Db) (rs : List Request) (k : ℕ) (test : Test)
    → get_test db k ≡ some test
    → All (λ r. (test.created_by == (user_of r).id) ≡ false) rs
    → Keeps k test db (edit_all people db rs)
unfolding edit_all
edit_all-Keeps people db [] k test found h = (test, found, inl refl, refl)
edit_all-Keeps people db (r ∷ rs) k test found h =
    let next = after_reply db (handle people db r) in
    let (u, row, same, items) = step-Keeps people db r k test found h.0 in
    let owner = owner_of test u same in
    let others = subst (λ c. All (λ r. (c == (user_of r).id) ≡ false) rs) (sym owner) h.1 in
    let (v, last, then, rest) = edit_all-Keeps people next rs k u row others in
    (v, last, unmarked_twice test u v same then, rest ∙ items)
