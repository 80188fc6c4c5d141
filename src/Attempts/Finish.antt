-- ===== src/Attempts/Finish.antt =====
-- Store.FinishSubmission of internal/store/repo_solutions.go. The range over the map of the tasks
-- with photos, whose order Go leaves open, goes through the tasks in the order of their first photo.
use egeism.Base.{ℕ, Bool, false, not, ◌&&◌, none, some, List, [], ◌∷◌, map, mem, if◌then◌else◌}
use egeism.Base.Int.{pos}
use egeism.Domain.Entities.{Task, is_manual}
use egeism.Attempts.Tables.{
  Attempt, checked, pending, Db, not_found, need_photo_for, Result, ok, err, ◌>>=◌, or_fail,
  is_some, get_attempt, list_answers, list_photos, list_test_items, insert_answer, finish_attempt,
}
use egeism.Attempts.Submit.{Env, submission_task, solution_required, Verdict, submission}

-- The keys of a map that is filled in this order.
unfoldable pub distinct_keys : List ℕ → List ℕ → List ℕ
distinct_keys seen [] = []
distinct_keys seen (k ∷ ks) =
    let rest = distinct_keys (k ∷ seen) ks in if mem k seen then distinct_keys seen ks else k ∷ rest

unfoldable pub photo_tasks : Db → ℕ → List ℕ
photo_tasks db id = distinct_keys [] (map (λ p. p.task_id) (list_photos db id))

unfoldable pub answered_tasks : Db → ℕ → List ℕ
answered_tasks db id = map (λ a. a.task_id) (list_answers db id)

-- What is recorded for an item that was not answered.
abbrev pub blank_verdict : Task → Verdict
blank_verdict item =
    if is_manual item.grading_mode
    then record { status = pending; correct = false; score = none }
    else record { status = checked; correct = false; score = some (pos 0) }

abbrev pub photo_verdict : Verdict
photo_verdict = record { status = pending; correct = false; score = none }

-- An answer with no text and no time.
abbrev pub blank_row : Db → ℕ → Task → Verdict → Db
blank_row db id task v = insert_answer db (submission db id task.id [] (pos 0) task.max_points v)

-- The loop over the items of the test, with the set of the answered tasks.
unfoldable pub finish_items : ℕ → Bool → List ℕ → Db → List ℕ → List Task → Result (Db × List ℕ)
finish_items id required photos db answered [] = ok (db, answered)
finish_items id required photos db answered (item ∷ items) =
    let skipped = finish_items id required photos db answered items in
    let filled =
      finish_items id required photos (blank_row db id item (blank_verdict item))
        (item.id ∷ answered) items in
    if is_manual item.grading_mode && (required && not (mem item.id photos))
    then err (need_photo_for item.number)
    else (if mem item.id answered then skipped else filled)

-- The loop over the tasks with photos.
unfoldable pub finish_photos : Env → Attempt → List ℕ → Db → List ℕ → Result Db
finish_photos env att answered db [] = ok db
finish_photos env att answered db (k ∷ ks) =
    let skipped = finish_photos env att answered db ks in
    let filled = λ (task : Task).
      finish_photos env att answered
        (insert_answer db (submission db att.id k [] (pos 0) task.max_points photo_verdict)) ks in
    if mem k answered then skipped else (submission_task env db att k >>= filled)

unfoldable pub finish_open : Env → Db → ℕ → Attempt → Result Db
finish_open env db id att = do
  required ← solution_required db att.assignment_id
  (db', answered) ←
      finish_items id required (photo_tasks db id) db (answered_tasks db id)
        (list_test_items db att.test_id)
  db'' ← finish_photos env att answered db' (photo_tasks db id)
  ok (record db'' { attempts = finish_attempt env.stamp id db''.attempts })

unfoldable pub finish_submission : Env → Db → ℕ → Result Db
finish_submission env db id = do
  att ← or_fail (get_attempt db id) not_found
  let finished = finish_open env db id att
  if is_some att.finished_at then ok db else finished
