-- ===== src/Attempts/Elsewhere.antt =====
-- What finishing an attempt leaves alone: the other attempts.
use mathlib.Core.Path.{subst}
use egeism.Base.{
  ℕ, ◌≡◌, refl, sym, ◌∙◌, ◌==◌, Bool, false, not, ◌&&◌, some, List, [], ◌∷◌, ◌++◌, filter, find,
  mem, All, Bool-cases, inl, inr, arith,
}
use egeism.Base.Int.{pos}
use egeism.Domain.Entities.{Task, is_manual}
use egeism.Attempts.Tables.{
  Attempt, Answer, Db, Result-cases, ok, is_some, get_attempt, list_answers, list_photos,
  list_test_items, insert_answer, finish_attempt,
}
use egeism.Attempts.Submit.{Env, submission, submission_task, solution_required}
use egeism.Attempts.Finish.{
  blank_row, blank_verdict, photo_verdict, finish_items, finish_photos, finish_open, photo_tasks,
  answered_tasks,
}

-- The attempt, its answers and its photos are the same.
abbrev pub Same : ℕ → Db → Db → Type 0
Same k db after =
    (get_attempt after k ≡ get_attempt db k)
    × (list_answers after k ≡ list_answers db k)
    × (list_photos after k ≡ list_photos db k)

pub Same-then : (k : ℕ) (a b c : Db) → Same k a b → Same k b c → Same k a c
Same-then k a b c (x, y, z) (u, v, w) = (u ∙ x, v ∙ y, w ∙ z)

pub filter-snoc {ℓ} :
    {A : Type ℓ} (p : A → Bool) (xs : List A) (x : A)
    → p x ≡ false
    → filter p (xs ++ x ∷ []) ≡ filter p xs
filter-snoc p [] x h = rw h refl
filter-snoc p (y ∷ xs) x h = rw (filter-snoc p xs x h) refl

pub insert_answer-Same :
    (k : ℕ) (db : Db) (row : Answer)
    → (row.attempt_id == k) ≡ false
    → Same k db (insert_answer db row)
unfolding insert_answer get_attempt list_answers list_photos
insert_answer-Same k db row h = (refl, filter-snoc (λ a. a.attempt_id == k) db.answers row h, refl)

finish_items-Same :
    (k id : ℕ) (required : Bool) (photos : List ℕ) (db : Db) (answered : List ℕ) (items : List Task)
    (after : Db) (seen : List ℕ)
    → (id == k) ≡ false
    → finish_items id required photos db answered items ≡ ok (after, seen)
    → Same k db after
unfolding finish_items
finish_items-Same k id required photos db answered [] after seen ne h =
    let same : db ≡ after = ground arith in subst (Same k db) same (refl, refl, refl)
finish_items-Same k id required photos db answered (item ∷ items) after seen ne h =
    let next = blank_row db id item (blank_verdict item) in
    let skipped = λ (e : finish_items id required photos db answered items ≡ ok (after, seen)).
      finish_items-Same k id required photos db answered items after seen ne e in
    let filled =
      λ (e : finish_items id required photos next (item.id ∷ answered) items ≡ ok (after, seen)).
        finish_items-Same k id required photos next (item.id ∷ answered) items after seen ne e in
    elim (Bool-cases (is_manual item.grading_mode && (required && not (mem item.id photos)))) [
      | inl e ↦ absurd (ground arith)
      | inr e ↦ elim (Bool-cases (mem item.id answered)) [
        | inl f ↦ skipped (ground arith)
        | inr f ↦
            Same-then k db next after
              (insert_answer-Same k db
                (submission db id item.id [] (pos 0) item.max_points (blank_verdict item)) ne)
              (filled (ground arith))
      ]
    ]

finish_photos-Same :
    (k : ℕ) (env : Env) (att : Attempt) (answered : List ℕ) (db : Db) (ks : List ℕ) (after : Db)
    → (att.id == k) ≡ false
    → finish_photos env att answered db ks ≡ ok after
    → Same k db after
unfolding finish_photos
finish_photos-Same k env att answered db [] after ne h =
    let same : db ≡ after = ground arith in subst (Same k db) same (refl, refl, refl)
finish_photos-Same k env att answered db (j ∷ ks) after ne h =
    let row = λ (task : Task). submission db att.id j [] (pos 0) task.max_points photo_verdict in
    let skipped = λ (e : finish_photos env att answered db ks ≡ ok after).
      finish_photos-Same k env att answered db ks after ne e in
    let filled =
      λ (t : Task) (e : finish_photos env att answered (insert_answer db (row t)) ks ≡ ok after).
        finish_photos-Same k env att answered (insert_answer db (row t)) ks after ne e in
    elim (Bool-cases (mem j answered)) [
      | inl f ↦ skipped (ground arith)
      | inr f ↦ elim (Result-cases (submission_task env db att j)) [
        | inl (x, g) ↦ absurd (ground arith)
        | inr (t, g) ↦
            Same-then k db (insert_answer db (row t)) after (insert_answer-Same k db (row t) ne)
              (filled t (ground arith))
      ]
    ]

find-finish :
    (now id k : ℕ) (rows : List Attempt)
    → (id == k) ≡ false
    → find (λ a. a.id == k) (finish_attempt now id rows) ≡ find (λ a. a.id == k) rows
unfolding finish_attempt
find-finish now id k [] ne = refl
find-finish now id k (a ∷ rows) ne =
    let rest = find-finish now id k rows ne in
    elim (Bool-cases (a.id == k)) [
      | inl e ↦ let other : (a.id == id) ≡ false = ground arith in rw (other, e, All) refl
      | inr e ↦ elim (Bool-cases ((a.id == id) && not (is_some a.finished_at))) [
        | inl f ↦ rw (f, e, All) rest
        | inr f ↦ rw (f, e, All) rest
      ]
    ]

pub attempt-id :
    (k : ℕ) (rows : List Attempt) (a : Attempt) → find (λ a. a.id == k) rows ≡ some a → a.id ≡ k
attempt-id k [] a h = cc
attempt-id k (x ∷ rows) a h = elim (Bool-cases (x.id == k)) [
  | inl e ↦ let same : x ≡ a = ground arith in ground arith
  | inr e ↦ attempt-id k rows a (ground arith)
]

pub finish_open-Same :
    (k id : ℕ) (env : Env) (db : Db) (att : Attempt) (after : Db)
    → (id == k) ≡ false
    → att.id ≡ id
    → finish_open env db id att ≡ ok after
    → Same k db after
unfolding finish_open get_attempt list_answers list_photos
finish_open-Same k id env db att after ne own h =
    elim (Result-cases (solution_required db att.assignment_id)) [
      | inl (x, e) ↦ absurd (ground arith)
      | inr (required, e) ↦
          elim (Result-cases (
            finish_items id required (photo_tasks db id) db (answered_tasks db id)
              (list_test_items db att.test_id))) [
                | inl (x, f) ↦ absurd (ground arith)
                | inr ((mid, seen), f) ↦
                    elim (Result-cases (finish_photos env att seen mid (photo_tasks db id))) [
                      | inl (x, g) ↦ absurd (ground arith)
                      | inr (last, g) ↦
                          let (a, b, c) =
                            Same-then k db mid last
                              (finish_items-Same k id required (photo_tasks db id) db
                                (answered_tasks db id) (list_test_items db att.test_id) mid seen ne
                                f)
                              (finish_photos-Same k env att seen mid (photo_tasks db id) last
                                (ground arith) g) in
                          let made : after ≡ record last {
                            attempts = finish_attempt env.stamp id last.attempts;
                          } =
                            ground arith in
                          subst (Same k db) (sym made)
                            (find-finish env.stamp id k last.attempts ne ∙ a, b, c)
                    ]
              ]
    ]
