-- ===== src/Attempts/Filling.antt =====
-- What finishing an attempt records.
use mathlib.Core.Path.{subst}
use egeism.Base.{
  ℕ, ◌≡◌, refl, sym, ◌∙◌, inl, inr, Bool, true, false, ◌&&◌, ◌||◌, ◌==◌, ==_refl, some, List, [],
  ◌∷◌, ◌++◌, map, mem, any, find, filter, All, All-imp, All-append, Bool-cases, arith,
}
use egeism.Base.Int.{pos}
use egeism.Domain.Entities.{Task}
use egeism.Attempts.Tables.{
  Attempt, Answer, Db, ok, Result-cases, is_some, insert_answer, get_attempt, list_answers,
  list_test_items, finish_attempt,
}
use egeism.Attempts.Submit.{Env, submission, submission_task, solution_required}
use egeism.Attempts.Finish.{
  blank_verdict, photo_verdict, finish_items, finish_photos, finish_open, finish_submission,
  photo_tasks, answered_tasks,
}
use egeism.Attempts.Points.{IsGraded, blank-Fits}

-- Is there an answer of the attempt to the task?
abbrev pub has_answer : ℕ → Db → ℕ → Bool
has_answer id db k = any (λ a. (a.attempt_id == id) && (a.task_id == k)) db.answers

any-append : (p : Answer → Bool) (xs ys : List Answer) → any p (xs ++ ys) ≡ (any p xs || any p ys)
any-append p [] ys = refl
any-append p (x ∷ xs) ys = ground (arith, any-append p xs ys)

insert-has_answer :
    (id k : ℕ) (db : Db) (row : Answer)
    → has_answer id (insert_answer db row) k
      ≡ (has_answer id db k || ((row.attempt_id == id) && (row.task_id == k)))
unfolding insert_answer
insert-has_answer id k db row =
    ground (arith, any-append (λ a. (a.attempt_id == id) && (a.task_id == k)) db.answers (row ∷ []))

insert-IsGraded :
    (db : Db) (row : Answer)
    → IsGraded row
    → All IsGraded db.answers
    → All IsGraded (insert_answer db row).answers
unfolding insert_answer
insert-IsGraded db row r g = All-append IsGraded db.answers (row ∷ []) g (r, tt)

insert-attempts : (db : Db) (row : Answer) → (insert_answer db row).attempts ≡ db.attempts
unfolding insert_answer
insert-attempts db row = refl

-- From these tables to those, answers are added in order only, and the tasks are answered.
record Fills (id : ℕ) (ks : List ℕ) (db after : Db) : Type 0 where
  grows : (k : ℕ) → has_answer id db k ≡ true → has_answer id after k ≡ true
  fills : All (λ k. has_answer id after k ≡ true) ks
  graded : All IsGraded db.answers → All IsGraded after.answers
  same : after.attempts ≡ db.attempts

-- The set of the answered tasks is right.
abbrev Knows : ℕ → List ℕ → Db → Type 0
Knows id answered db = (k : ℕ) → mem k answered ≡ true → has_answer id db k ≡ true

finish_items-Fills :
    (id : ℕ) (required : Bool) (photos : List ℕ) (db after : Db) (answered answered' : List ℕ)
    (items : List Task)
    → finish_items id required photos db answered items ≡ ok (after, answered')
    → Knows id answered db
    → Fills id (map (λ t. t.id) items) db after × Knows id answered' after
unfolding finish_items
finish_items-Fills id required photos db after answered answered' [] h w =
    let a : db ≡ after = ground arith in
    let b : answered ≡ answered' = ground arith in
    (
      record {
        grows = λ k e. rw (sym a) e;
        fills = tt;
        graded = λ g. rw (sym a) g;
        same = rw (sym a) refl;
      },
      rw (sym a, sym b) w,
    )
finish_items-Fills id required photos db after answered answered' (item ∷ items) h w =
    elim (Bool-cases (mem item.id answered)) [
      | inl e ↦
          let (f, v) =
            finish_items-Fills id required photos db after answered answered' items (ground arith)
              w in
          (
            record {
              grows = f.grows;
              fills = (f.grows item.id (w item.id e), f.fills);
              graded = f.graded;
              same = f.same;
            },
            v,
          )
      | inr e ↦
          let row = submission db id item.id [] (pos 0) item.max_points (blank_verdict item) in
          let next = insert_answer db row in
          let kept : (k : ℕ) → has_answer id db k ≡ true → has_answer id next k ≡ true =
            λ k t. ground (arith, insert-has_answer id k db row) in
          let own : has_answer id next item.id ≡ true =
            ground (arith, insert-has_answer id item.id db row, ==_refl id, ==_refl item.id) in
          let known : Knows id (item.id ∷ answered) next =
            λ k m. ground (arith, insert-has_answer id k db row, w k, ==_refl id) in
          let (f, v) =
            finish_items-Fills id required photos next after (item.id ∷ answered) answered' items
              (ground arith) known in
          (
            record {
              grows = λ k t. f.grows k (kept k t);
              fills = (f.grows item.id own, f.fills);
              graded = λ g. f.graded (insert-IsGraded db row (blank-Fits item) g);
              same = f.same ∙ insert-attempts db row;
            },
            v,
          )
    ]

finish_photos-Fills :
    (env : Env) (att : Attempt) (answered : List ℕ) (db after : Db) (ks : List ℕ)
    → finish_photos env att answered db ks ≡ ok after
    → Knows att.id answered db
    → Fills att.id ks db after
unfolding finish_photos
finish_photos-Fills env att answered db after [] h w =
    let a : db ≡ after = ground arith in
    record {
      grows = λ k e. rw (sym a) e;
      fills = tt;
      graded = λ g. rw (sym a) g;
      same = rw (sym a) refl;
    }
finish_photos-Fills env att answered db after (k ∷ ks) h w = elim (Bool-cases (mem k answered)) [
  | inl e ↦
      let f = finish_photos-Fills env att answered db after ks (ground arith) w in
      record {
        grows = f.grows;
        fills = (f.grows k (w k e), f.fills);
        graded = f.graded;
        same = f.same;
      }
  | inr e ↦ elim (Result-cases (submission_task env db att k)) [
    | inl (x, t) ↦ absurd (ground arith)
    | inr (task, t) ↦
        let row = submission db att.id k [] (pos 0) task.max_points photo_verdict in
        let next = insert_answer db row in
        let kept : (j : ℕ) → has_answer att.id db j ≡ true → has_answer att.id next j ≡ true =
          λ j s. ground (arith, insert-has_answer att.id j db row) in
        let own : has_answer att.id next k ≡ true =
          ground (arith, insert-has_answer att.id k db row, ==_refl att.id, ==_refl k) in
        let f =
          finish_photos-Fills env att answered next after ks (ground arith)
            (λ j m. kept j (w j m)) in
        record {
          grows = λ j s. f.grows j (kept j s);
          fills = (f.grows k own, f.fills);
          graded = λ g. f.graded (insert-IsGraded db row (refl, refl) g);
          same = f.same ∙ insert-attempts db row;
        }
  ]
]

answered-has_answer :
    (id k : ℕ) (rows : List Answer)
    → mem k (map (λ a. a.task_id) (filter (λ a. a.attempt_id == id) rows)) ≡ true
    → any (λ a. (a.attempt_id == id) && (a.task_id == k)) rows ≡ true
answered-has_answer id k [] h = h
answered-has_answer id k (r ∷ rows) h = ground (arith, answered-has_answer id k rows)

found_attempt-id :
    (k : ℕ) (rows : List Attempt) (att : Attempt)
    → find (λ a. a.id == k) rows ≡ some att
    → att.id ≡ k
found_attempt-id k [] att h = cc
found_attempt-id k (r ∷ rows) att h = ground (arith, found_attempt-id k rows att)

find-finish_attempt :
    (now k : ℕ) (rows : List Attempt) (att : Attempt)
    → find (λ a. a.id == k) rows ≡ some att
    → is_some att.finished_at ≡ false
    → find (λ a. a.id == k) (finish_attempt now k rows)
      ≡ some (record att { finished_at = some now })
unfolding finish_attempt
find-finish_attempt now k [] att h o = cc
find-finish_attempt now k (r ∷ rows) att h o = elim (Bool-cases (r.id == k)) [
  | inl e ↦
      let same : r ≡ att = ground arith in
      let unfinished : is_some r.finished_at ≡ false = rw same o in
      rw (e, unfinished, finish_attempt) (ground arith)
  | inr e ↦ ground (arith, find-finish_attempt now k rows att)
]

-- What an attempt comes to when it is finished: its items and the tasks with photos are answered.
abbrev pub IsFilled : Env → Db → ℕ → Attempt → Db → Type 0
IsFilled env db id att after =
    All (λ k. has_answer id after k ≡ true) (map (λ t. t.id) (list_test_items db att.test_id))
    × All (λ k. has_answer id after k ≡ true) (photo_tasks db id)
    × All IsGraded after.answers
    × (get_attempt after id ≡ some (record att { finished_at = some env.stamp }))

finish_open-IsFilled :
    (env : Env) (db after : Db) (id : ℕ) (att : Attempt)
    → finish_open env db id att ≡ ok after
    → get_attempt db id ≡ some att
    → is_some att.finished_at ≡ false
    → All IsGraded db.answers
    → IsFilled env db id att after
unfolding finish_open get_attempt answered_tasks list_answers
finish_open-IsFilled env db after id att h found o g =
    let items = list_test_items db att.test_id in
    let photos = photo_tasks db id in
    let own = found_attempt-id id db.attempts att found in
    elim (Result-cases (solution_required db att.assignment_id)) [
      | inl (x, e) ↦ absurd (ground arith)
      | inr (required, e) ↦
          elim (Result-cases (finish_items id required photos db (answered_tasks db id) items)) [
            | inl (x, f) ↦ absurd (ground arith)
            | inr ((db', answered), f) ↦
                elim (Result-cases (finish_photos env att answered db' photos)) [
                  | inl (x, p) ↦ absurd (ground arith)
                  | inr (db'', p) ↦
                      let (a, known) =
                        finish_items-Fills id required photos db db' (answered_tasks db id) answered
                          items f (λ k m. answered-has_answer id k db.answers m) in
                      let b =
                        subst (λ j. Fills j photos db' db'') own
                          (finish_photos-Fills env att answered db' db'' photos p (rw own known)) in
                      let is : record db'' { attempts = finish_attempt env.stamp id db''.attempts }
                          ≡ after =
                        ground arith in
                      let rows : db''.attempts ≡ db.attempts = b.same ∙ a.same in
                      subst (IsFilled env db id att) is (
                        All-imp (λ k. has_answer id db' k ≡ true) (λ k. has_answer id db'' k ≡ true)
                            b.grows (map (λ t. t.id) items) a.fills,
                        b.fills,
                        b.graded (a.graded g),
                        rw rows (find-finish_attempt env.stamp id db.attempts att found o),
                      )
                ]
          ]
    ]

-- When an open attempt is finished, each item of its test and each task with a photo of it has an
-- answer, the points of all answers are in order, as they were before, and the attempt is finished
-- at the time of the call.
pub finish_submission-IsFilled :
    (env : Env) (db after : Db) (id : ℕ) (att : Attempt)
    → get_attempt db id ≡ some att
    → is_some att.finished_at ≡ false
    → All IsGraded db.answers
    → finish_submission env db id ≡ ok after
    → IsFilled env db id att after
unfolding finish_submission
finish_submission-IsFilled env db after id att found o g h =
    finish_open-IsFilled env db after id att (ground arith) found o g
