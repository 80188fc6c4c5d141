-- ===== src/Samples/Editing.antt =====
-- Two teachers and a test.
use egeism.Base.{◌≡◌, refl, true, none, some, List, [], ◌∷◌}
use egeism.Base.Text.{codes}
use egeism.Domain.Learning.{math}
use egeism.Domain.Entities.{teacher}
use egeism.Attempts.Tables.{get_test, get_task}
use egeism.Solve.Handlers.{refused, User, People, test_in_scope}
use egeism.Editing.Tests.{
  Request, creates, deletes, renames, adds_item, owned_test, delete_test, handle_delete_test,
  handle_add_test_item, add_test_item, edit_all, handle,
}
use egeism.Editing.Kept.{IsSound}
use egeism.Editing.Requests.{edit_all-IsSound}
use egeism.Editing.Owners.{Keeps, edit_all-Keeps}
use egeism.Samples.Data.{db, test}

abbrev people : People
people = record { subject_id = λ s. some 1; teaches = λ t k. true }

abbrev owner : User
owner = record { id = 7; role = teacher; subject = none }

abbrev other : User
other = record { id = 9; role = teacher; subject = some math }

abbrev requests : List Request
requests =
    adds_item owner (some 2) (some (record { task_id = 10; position = 3 }))
    ∷ renames owner (some 2) (some (codes " Retake "))
    ∷ deletes owner (some 2)
    ∷ []

abbrev foreign : List Request
foreign =
    creates other (some (record { subject = math; is_kind = true; title = codes "Mine" }))
    ∷ renames other (some 2) (some (codes "Mine too"))
    ∷ deletes other (some 2)
    ∷ []

db-IsSound : IsSound db
unfolding get_test get_task
db-IsSound = record { items = (refl, (refl, tt)); attempts = (refl, tt) }

-- A test that was attempted is not removed.
attempted : handle people db (deletes owner (some 2)) ≡ refused 409
unfolding handle handle_delete_test owned_test test_in_scope get_test delete_test
attempted = refl

-- Nor does another teacher remove it.
not_owned : handle people db (deletes other (some 2)) ≡ refused 403
unfolding handle handle_delete_test owned_test test_in_scope get_test
not_owned = refl

-- A position is taken once.
taken :
    handle people db (adds_item owner (some 2) (some (record { task_id = 10; position = 1 })))
    ≡ refused 500
unfolding handle handle_add_test_item owned_test test_in_scope get_test get_task add_test_item
taken = refl

edit_all-IsSound_example : IsSound (edit_all people db requests)
edit_all-IsSound_example = edit_all-IsSound people db requests db-IsSound

edit_all-Keeps_example : Keeps 2 test db (edit_all people db foreign)
unfolding get_test
edit_all-Keeps_example = edit_all-Keeps people db foreign 2 test refl (refl, (refl, (refl, tt)))
