-- ===== src/Ingest/Effects.antt =====
-- What a candidate of a run does to the bank.
use egeism.Base.{
  ltb, ◌||◌, none, ◌++◌, All, length-append, count-append, if◌then◌else◌, not, ◌&&◌, ℕ, suc, ◌+◌,
  ◌≤◌, ◌≡◌, refl, inl, inr, Bool, true, false, Option, some, List, [], ◌∷◌, length, Option-cases,
  arith, count, any, find, ◌==◌, Bool-cases,
}
use egeism.Base.Text.{text_eq, Text}
use egeism.Checker.Normalize.{trim_space}
use egeism.Domain.Answer.{validate, AnswerSchema, is_written}
use egeism.Domain.Source.{Source, is_current}
use egeism.Domain.Learning.{SubjectCode, task_rules}
use egeism.Domain.Entities.{Task, TaskStatus, is_active, is_manual}
use egeism.Attempts.Tables.{is_some, Db}
use egeism.Domain.Entities.{draft, active}
use egeism.Ingest.Runner.{
  task_exists, Stored, rejected, failed, set_source, promote, promotable, refresh_task_source,
  merge_source, has_source, activate_draft, is_draft, ingest_known, ingest_new, ingest_valid,
  named_source, active_run, run_status, World, RawTask, Outcome, added, duplicate, promoted_one,
  invalid_one, broken, kept, ingest_one, new_task, create_task, insert_task,
}

abbrev pub active_count : Db → ℕ
active_count db = count (λ t. is_active t.status) db.tasks

-- A new task is one more in the bank; no outcome takes a task away or makes an active one inactive,
-- and a promotion makes at least one active.
abbrev pub Effect : Db → Outcome → Type 0
Effect db (added after) =
    (length after.tasks ≡ suc (length db.tasks)) × (active_count db ≤ active_count after)
Effect db (duplicate after) =
    (length after.tasks ≡ length db.tasks) × (active_count db ≤ active_count after)
Effect db (promoted_one after) =
    (length after.tasks ≡ length db.tasks) × (suc (active_count db) ≤ active_count after)
Effect db invalid_one = Unit
Effect db broken = Unit

set_source-counts :
    (k : ℕ) (src : Source) (ts : List Task)
    → (length (set_source k src ts) ≡ length ts)
      × (count (λ t. is_active t.status) (set_source k src ts) ≡ count (λ t. is_active t.status) ts)
unfolding set_source
set_source-counts k src [] = (refl, refl)
set_source-counts k src (t ∷ ts) =
    let (long, live) = set_source-counts k src ts in
    elim (Bool-cases (t.id == k)) [
      | inl e ↦ (ground arith, ground arith)
      | inr e ↦ (ground arith, ground arith)
    ]

draft_inactive : (s : TaskStatus) → is_draft s ≡ true → is_active s ≡ false
draft_inactive draft h = refl
draft_inactive active h = cc
draft_inactive TaskStatus.rejected h = cc

-- The tasks that are promoted were drafts.
promote-counts :
    (w : World) (subject_id : ℕ) (provider extern : Text) (ts : List Task)
    → (length (promote w subject_id provider extern ts) ≡ length ts)
      × (count (λ t. is_active t.status) (promote w subject_id provider extern ts)
          ≡ count (λ t. is_active t.status) ts + count (promotable w subject_id provider extern) ts)
unfolding promote
promote-counts w subject_id provider extern [] = (refl, refl)
promote-counts w subject_id provider extern (t ∷ ts) =
    let (long, live) = promote-counts w subject_id provider extern ts in
    elim (Bool-cases (promotable w subject_id provider extern t)) [
      | inl e ↦
          let idle : is_active t.status ≡ false = draft_inactive t.status (ground arith) in
          (ground arith, ground arith)
      | inr e ↦ (ground arith, ground arith)
    ]

any-count : (p : Task → Bool) (ts : List Task) → any p ts ≡ true → 1 ≤ count p ts
any-count p [] h = cc
any-count p (t ∷ ts) h = elim (Bool-cases (p t)) [
  | inl e ↦ ground arith
  | inr e ↦ let rest = any-count p ts (ground arith) in ground arith
]

-- A task that is created is added at the end of the bank; it is active only with a current source,
-- takes part, grading and points from the rules of its subject and number, and is answered in writing
-- only if it is graded by hand.
create_task-rules :
    (w : World) (db after : Db) (subject_id number : ℕ) (statement : Text) (media_count : ℕ)
    (schema : AnswerSchema) (src : Source) (status : TaskStatus)
    → create_task w db subject_id number statement media_count schema src status ≡ kept after
    → (code : SubjectCode) × (t : Task) × (w.subject_code subject_id ≡ some code)
      × (after ≡ insert_task db t)
      × (t.grading_mode ≡ (task_rules code number).grading_mode)
      × (t.max_points ≡ (task_rules code number).max_points)
      × ((is_active t.status && not (is_current w.parse_url t.source w.now)) ≡ false)
      × ((is_written schema.type && not (is_manual t.grading_mode)) ≡ false)
unfolding create_task
create_task-rules w db after subject_id number statement media_count schema src status h =
    elim (Option-cases (w.subject_code subject_id)) [
      | inl e ↦ absurd (ground arith)
      | inr (code, e) ↦
          let t = new_task db code subject_id number statement media_count schema src status in
          (code, t, e, ground arith, refl, refl, ground arith, ground arith)
    ]

refreshed-counts :
    (db fresh : Db) (subject_id : ℕ) (src : Source) (number : ℕ)
    → refresh_task_source db subject_id src number ≡ kept fresh
    → (length fresh.tasks ≡ length db.tasks) × (active_count fresh ≡ active_count db)
unfolding refresh_task_source
refreshed-counts db fresh subject_id src number h =
    elim (Option-cases (find (has_source subject_id src.provider src.extern_id) db.tasks)) [
      | inl e ↦ absurd (ground arith)
      | inr (t, e) ↦
          let merged = merge_source t.source src in
          let tasks : fresh.tasks ≡ set_source t.id merged db.tasks = ground arith in
          let (long, live) = set_source-counts t.id merged db.tasks in
          (rw tasks long, rw tasks live)
    ]

created-Effect :
    (w : World) (db after : Db) (subject_id number : ℕ) (statement : Text) (media_count : ℕ)
    (schema : AnswerSchema) (src : Source) (status : TaskStatus)
    → create_task w db subject_id number statement media_count schema src status ≡ kept after
    → Effect db (added after)
created-Effect w db after subject_id number statement media_count schema src status h =
    let (code, t, known, made, graded, points, live_source, answered) =
      create_task-rules w db after subject_id number statement media_count schema src status h in
    let tasks : after.tasks ≡ db.tasks ++ t ∷ [] = ground arith in
    let long = length-append db.tasks (t ∷ []) in
    let live = count-append (λ (t : Task). is_active t.status) db.tasks (t ∷ []) in
    (rw tasks (omega (arith, long)), rw tasks (omega (arith, live)))

ingest_new-Effect :
    (w : World) (status : Option TaskStatus) (db : Db) (subject_id : ℕ) (raw : RawTask)
    (src : Source)
    → Effect db (ingest_new w status db subject_id raw src)
unfolding ingest_new
ingest_new-Effect w status db subject_id raw src =
    let wanted = run_status status in
    let given : TaskStatus =
      if is_active wanted && not (is_current w.parse_url (some src) w.now) then draft else wanted in
    go given
      (create_task w db subject_id raw.number raw.statement (w.resolve_media raw.media)
        raw.answer_schema src given)
      refl
  where
    go :
        (given : TaskStatus) (r : Stored Db)
        → create_task w db subject_id raw.number raw.statement
            (w.resolve_media raw.media)
            raw.answer_schema
            src
            given
          ≡ r
        → Effect db (elim r [ rejected ↦ invalid_one | failed ↦ broken | kept after ↦ added after ])
    go given rejected e = tt
    go given failed e = tt
    go given (kept after) e =
        created-Effect w db after subject_id raw.number raw.statement (w.resolve_media raw.media)
          raw.answer_schema src given e

promoted-Effect :
    (w : World) (db fresh : Db) (subject_id : ℕ) (provider extern : Text)
    → (length fresh.tasks ≡ length db.tasks) × (active_count fresh ≡ active_count db)
    → let r = activate_draft w fresh subject_id provider extern in
      Effect db (if r.1 then promoted_one r.0 else duplicate r.0)
unfolding activate_draft
promoted-Effect w db fresh subject_id provider extern (long, live) =
    let (all, more) = promote-counts w subject_id provider extern fresh.tasks in
    elim (Bool-cases (any (promotable w subject_id provider extern) fresh.tasks)) [
      | inl e ↦
          let some_one = any-count (promotable w subject_id provider extern) fresh.tasks e in
          rw (e, All) (omega (arith, all, long), omega (arith, more, live, some_one))
      | inr e ↦ rw (e, All) (omega (arith, all, long), omega (arith, more, live))
    ]

ingest_known-Effect :
    (w : World) (status : Option TaskStatus) (db : Db) (subject_id : ℕ) (src : Source) (number : ℕ)
    → Effect db (ingest_known w status db subject_id src number)
unfolding ingest_known
ingest_known-Effect w status db subject_id src number =
    go (refresh_task_source db subject_id src number) refl
  where
    go :
        (r : Stored Db)
        → refresh_task_source db subject_id src number ≡ r
        → Effect db (elim r [
          | rejected ↦ invalid_one
          | failed ↦ broken
          | kept fresh ↦
              if active_run status && is_current w.parse_url (some src) w.now
              then (let (after, changed) =
                    activate_draft w fresh subject_id src.provider src.extern_id in
                  if changed then promoted_one after else duplicate after)
              else duplicate fresh
        ])
    go rejected e = tt
    go failed e = tt
    go (kept fresh) e =
        let same = refreshed-counts db fresh subject_id src number e in
        elim (Bool-cases (active_run status && is_current w.parse_url (some src) w.now)) [
          | inl f ↦
              rw (f, All) (promoted-Effect w db fresh subject_id src.provider src.extern_id same)
          | inr f ↦ rw (f, All) (same.0, omega (arith, same.1))
        ]

ingest_valid-Effect :
    (w : World) (status : Option TaskStatus) (name : Text) (db : Db) (raw : RawTask)
    (code : SubjectCode)
    → Effect db (ingest_valid w status name db raw code)
unfolding ingest_valid
ingest_valid-Effect w status name db raw code = go (w.subject_id code)
  where
    src : Source
    src = named_source w name raw

    go :
        (o : Option ℕ)
        → Effect db (elim o [
          | none ↦ broken
          | some subject_id ↦
              if task_exists db subject_id src.provider src.extern_id
              then ingest_known w status db subject_id src raw.number
              else ingest_new w status db subject_id raw src
        ])
    go none = tt
    go (some k) = elim (Bool-cases (task_exists db k src.provider src.extern_id)) [
      | inl e ↦ rw (e, All) (ingest_known-Effect w status db k src raw.number)
      | inr e ↦ rw (e, All) (ingest_new-Effect w status db k raw src)
    ]

-- What becomes of a candidate is what happened to the bank.
pub ingest_one-Effect :
    (w : World) (status : Option TaskStatus) (name : Text) (db : Db) (raw : RawTask)
    → Effect db (ingest_one w status name db raw)
unfolding ingest_one
ingest_one-Effect w status name db raw =
    elim (Bool-cases (ltb raw.number 1 || text_eq (trim_space raw.statement) [])) [
      | inl e ↦ rw (e, All) tt
      | inr e ↦ rw (e, All) (go raw.subject)
    ]
  where
    go :
        (o : Option SubjectCode)
        → Effect db (elim o [
          | none ↦ invalid_one
          | some code ↦
              if is_some (validate raw.answer_schema)
              then invalid_one
              else ingest_valid w status name db raw code
        ])
    go none = tt
    go (some code) = elim (Bool-cases (is_some (validate raw.answer_schema))) [
      | inl e ↦ rw (e, All) tt
      | inr e ↦ rw (e, All) (ingest_valid-Effect w status name db raw code)
    ]
