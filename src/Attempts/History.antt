-- ===== src/Attempts/History.antt =====
-- What becomes of a finished attempt while others go on.
use mathlib.Core.Path.{subst}
use egeism.Base.{
  ℕ, ◌≡◌, refl, sym, ap, ◌∙◌, ◌==◌, Bool, true, false, not, ◌&&◌, some, List, [], ◌∷◌, filter, find,
  All, Bool-cases, Option-cases, inl, inr, arith,
}
use egeism.Base.Int.{ℤ}
use egeism.Base.Text.{Text}
use egeism.Attempts.Tables.{
  Attempt, Answer, Photo, Db, Result-cases, ok, is_some, get_attempt, list_answers, list_photos,
}
use egeism.Attempts.Submit.{Env, submit_answer, submission_task}
use egeism.Attempts.Finish.{finish_submission}
use egeism.Attempts.Photos.{mutate_solution_photo, delete_photo, add_photo}
use egeism.Attempts.Submitted.{submit_answer-Submitted}
use egeism.Attempts.Elsewhere.{
  Same, Same-then, filter-snoc, insert_answer-Same, finish_open-Same, attempt-id,
}

-- The attempt is there and finished.
abbrev pub IsFinished : ℕ → Db → Type 0
IsFinished k db = (att : Attempt) × (get_attempt db k ≡ some att) × (is_some att.finished_at ≡ true)

finish_submission-Same :
    (k id : ℕ) (env : Env) (db after : Db)
    → IsFinished k db
    → finish_submission env db id ≡ ok after
    → Same k db after
unfolding finish_submission get_attempt
finish_submission-Same k id env db after (att, found, over) h =
    elim (Option-cases (get_attempt db id)) [
      | inl e ↦ absurd (ground arith)
      | inr (other, e) ↦ elim (Bool-cases (is_some other.finished_at)) [
        | inl f ↦ let same : db ≡ after = ground arith in subst (Same k db) same (refl, refl, refl)
        | inr f ↦ elim (Bool-cases (id == k)) [
          | inl g ↦ let one : id ≡ k = ground arith in absurd (ground arith)
          | inr g ↦
              finish_open-Same k id env db other after g (attempt-id id db.attempts other e)
                (ground arith)
        ]
      ]
    ]

submit_answer-Same :
    (k id task_id : ℕ) (env : Env) (db after : Db) (raw : Text) (ms : ℤ) (row : Answer)
    → IsFinished k db
    → submit_answer env db id task_id raw ms ≡ ok (after, row)
    → Same k db after
submit_answer-Same k id task_id env db after raw ms row (att, found, over) h =
    let s = submit_answer-Submitted env db id task_id raw ms after row h in
    let open_one = s.att_open in
    let there = s.att_found in
    let of_attempt : row.attempt_id ≡ id = ap (λ r. r.attempt_id) s.row_is in
    elim (Bool-cases (id == k)) [
      | inl g ↦
          let one : id ≡ k = ground arith in
          let same : get_attempt db k ≡ some s.att =
            subst (λ i. get_attempt db i ≡ some s.att) one there in
          absurd (ground arith)
      | inr g ↦
          subst (Same k db) (sym s.after_is)
            (insert_answer-Same k db row (subst (λ i. (i == k) ≡ false) (sym of_attempt) g))
    ]

-- No photo of another attempt has the id of this one.
abbrev pub IsOwnPhoto : Db → Photo → Type 0
IsOwnPhoto db p =
    All (λ (q : Photo). ((q.id == p.id) && not (q.attempt_id == p.attempt_id)) ≡ false) db.photos

without-other :
    (k : ℕ) (p : Photo) (rows : List Photo)
    → (p.attempt_id == k) ≡ false
    → All (λ (q : Photo). ((q.id == p.id) && not (q.attempt_id == p.attempt_id)) ≡ false) rows
    → filter (λ q. q.attempt_id == k) (filter (λ q. not (q.id == p.id)) rows)
      ≡ filter (λ q. q.attempt_id == k) rows
without-other k p [] ne h = refl
without-other k p (q ∷ rows) ne h =
    let rest = without-other k p rows ne h.1 in
    elim (Bool-cases (q.id == p.id)) [
      | inl e ↦ let other : (q.attempt_id == k) ≡ false = ground arith in rw (e, other, All) rest
      | inr e ↦ elim (Bool-cases (q.attempt_id == k)) [
        | inl f ↦ rw (e, f, All) (rw rest refl)
        | inr f ↦ rw (e, f, All) rest
      ]
    ]

mutate_solution_photo-Same :
    (k : ℕ) (env : Env) (db after : Db) (p row : Photo) (remove : Bool)
    → IsFinished k db
    → IsOwnPhoto db p
    → mutate_solution_photo env db p remove ≡ ok (after, row)
    → Same k db after
unfolding mutate_solution_photo delete_photo add_photo get_attempt list_answers list_photos
mutate_solution_photo-Same k env db after p row remove (att, found, over) own h =
    elim (Option-cases (find (λ a. a.id == p.attempt_id) db.attempts)) [
      | inl e ↦ absurd (ground arith)
      | inr (open_one, e) ↦ elim (Bool-cases (p.attempt_id == k)) [
        | inl g ↦ let one : p.attempt_id ≡ k = ground arith in absurd (ground arith)
        | inr g ↦ elim (Result-cases (submission_task env db open_one p.task_id)) [
          | inl (x, t) ↦ absurd (ground arith)
          | inr (task, t) ↦ elim (Bool-cases remove) [
            | inl r ↦
                let made : after ≡ (delete_photo db p).0 = ground arith in
                subst (Same k db) (sym made) (refl, refl, without-other k p db.photos g own)
            | inr r ↦
                let made : after ≡ (add_photo db p).0 = ground arith in
                subst (Same k db) (sym made) (
                  refl,
                  refl,
                  filter-snoc (λ q. q.attempt_id == k) db.photos (record p { id = db.next_id }) g,
                )
          ]
        ]
      ]
    ]

-- The operations on attempts that succeed, one after another, on any attempts.
pub data Step : Db → Db → Type 0 where
  submits :
      {db after : Db} (env : Env) (id task_id : ℕ) (raw : Text) (ms : ℤ) (row : Answer)
      → submit_answer env db id task_id raw ms ≡ ok (after, row)
      → Step db after
  finishes :
      {db after : Db} (env : Env) (id : ℕ) → finish_submission env db id ≡ ok after → Step db after
  mutates :
      {db after : Db} (env : Env) (p row : Photo) (remove : Bool)
      → IsOwnPhoto db p
      → mutate_solution_photo env db p remove ≡ ok (after, row)
      → Step db after

pub data Run : Db → Db → Type 0 where
  stop : (db : Db) → Run db db
  next : {db mid after : Db} → Step db mid → Run mid after → Run db after

Step-Same : (k : ℕ) {db after : Db} → Step db after → IsFinished k db → Same k db after
Step-Same k {db} {after} (submits env id task_id raw ms row h) f =
    submit_answer-Same k id task_id env db after raw ms row f h
Step-Same k {db} {after} (finishes env id h) f = finish_submission-Same k id env db after f h
Step-Same k {db} {after} (mutates env p row remove own h) f =
    mutate_solution_photo-Same k env db after p row remove f own h

Run-Same : (k : ℕ) {db after : Db} → Run db after → IsFinished k db → Same k db after
Run-Same k (stop db) f = (refl, refl, refl)
Run-Same k (next {db} {mid} {after} s r) (att, found, over) =
    let here = Step-Same k s (att, found, over) in
    Same-then k db mid after here (Run-Same k r (att, here.0 ∙ found, over))

-- A finished attempt is history: whatever answers are submitted, photos added or removed and
-- attempts finished afterwards, of this attempt and of any others, its row, its answers and its
-- photos stay as they are. A photo that is given to an operation shares its id with none of another
-- attempt.
pub finished_is_history : (k : ℕ) (db after : Db) → Run db after → IsFinished k db → Same k db after
finished_is_history k db after r f = Run-Same k r f
