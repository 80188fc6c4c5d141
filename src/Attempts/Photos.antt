-- ===== src/Attempts/Photos.antt =====
-- Store.MutateSolutionPhoto of internal/store/repo_solutions.go.
use egeism.Base.{
  ℕ, ◌+◌, ◌==◌, leb, Bool, not, ◌&&◌, [], ◌∷◌, ◌++◌, any, count, filter, if◌then◌else◌,
}
use egeism.Domain.Entities.{is_manual}
use egeism.Attempts.Tables.{
  Photo, Db, not_found, already_finished, already_answered, not_manual, too_many_photos, Result, ok,
  ◌>>=◌, ◌>>◌, fail_if, or_fail, is_some, get_attempt, list_answers, list_photos,
}
use egeism.Attempts.Submit.{Env, submission_task}

abbrev pub photo_count : Db → ℕ → ℕ → ℕ
photo_count db attempt_id task_id = count (λ p. p.task_id == task_id) (list_photos db attempt_id)

unfoldable pub delete_photo : Db → Photo → Db × Photo
delete_photo db p = (record db { photos = filter (λ q. not (q.id == p.id)) db.photos }, p)

unfoldable pub add_photo : Db → Photo → Db × Photo
add_photo db p =
    let row = record p { id = db.next_id } in
    (record db { photos = db.photos ++ row ∷ []; next_id = db.next_id + 1 }, row)

unfoldable pub mutate_solution_photo : Env → Db → Photo → Bool → Result (Db × Photo)
mutate_solution_photo env db p remove = do
  att ← or_fail (get_attempt db p.attempt_id) not_found
  fail_if (is_some att.finished_at) already_finished
  task ← submission_task env db att p.task_id
  fail_if (not (is_manual task.grading_mode)) not_manual
  fail_if (any (λ a. a.task_id == p.task_id) (list_answers db p.attempt_id)) already_answered
  fail_if (not remove && leb 5 (photo_count db p.attempt_id p.task_id)) too_many_photos
  ok (if remove then delete_photo db p else add_photo db p)
