-- ===== src/Attempts/Frozen.antt =====
-- What a finished attempt refuses.
use egeism.Base.{ℕ, ◌≡◌, ◌≢◌, Bool, true, some, arith}
use egeism.Base.Int.{ℤ}
use egeism.Base.Text.{Text}
use egeism.Attempts.Tables.{
  Attempt, Answer, Photo, Db, already_finished, ok, err, is_some, get_attempt,
}
use egeism.Attempts.Submit.{Env, submit_answer}
use egeism.Attempts.Finish.{finish_submission}
use egeism.Attempts.Photos.{mutate_solution_photo}

-- Once an attempt is finished no answer is accepted for it and no photo is added or removed, and to
-- finish it again changes nothing.
pub finished_is_frozen :
    (env : Env) (db : Db) (att : Attempt) (id task_id : ℕ) (raw : Text) (time_ms : ℤ) (p : Photo)
    (remove : Bool)
    → get_attempt db id ≡ some att
    → p.attempt_id ≡ id
    → is_some att.finished_at ≡ true
    → ((r : Db × Answer) → submit_answer env db id task_id raw time_ms ≢ ok r)
      × (mutate_solution_photo env db p remove ≡ err already_finished)
      × (finish_submission env db id ≡ ok db)
unfolding submit_answer mutate_solution_photo finish_submission
finished_is_frozen env db att id task_id raw time_ms p remove e q h =
    (λ r s. ground arith, ground arith, ground arith)
