-- ===== src/Ingest/Runner.antt =====
-- Runner.Ingest of internal/ingest/ingest.go, with CreateTask, RefreshTaskSource and
-- ActivateDraftTaskBySource of internal/store/repos.go. The subject of a candidate is `none` where
-- its code is not one of the four. `extern_id` stands for the hash of a candidate, and
-- `resolve_media` for the number of media references that the media store takes. Failures of the
-- database are left out, except the rows that are missing.
use egeism.Base.{
  ℕ, suc, ◌+◌, ◌==◌, ltb, Bool, true, false, not, ◌&&◌, ◌||◌, Option, none, some, List, [], ◌∷◌,
  ◌++◌, find, any, length, if◌then◌else◌,
}
use egeism.Base.Text.{Text, text_eq}
use egeism.Domain.Answer.{AnswerSchema, validate, is_written}
use egeism.Domain.Source.{ParseUrl, Time, Source, before, is_current}
use egeism.Domain.Learning.{SubjectCode, task_rules}
use egeism.Domain.Entities.{Task, TaskStatus, draft, active, is_active, is_manual}
use egeism.Checker.Normalize.{trim_space}
use egeism.Attempts.Tables.{Db, is_some}

pub record RawMedia : Type 0 where
  pub url : Text
  pub kind : Text
  pub alt : Text
  pub inline : Bool

pub record RawTask : Type 0 where
  pub subject : Option SubjectCode
  pub number : ℕ
  pub statement : Text
  pub media : List RawMedia
  pub answer_schema : AnswerSchema
  pub source : Source

-- The outside of a run: the clock, the tables of the subjects, the hash and the media store.
pub record World : Type 0 where
  pub parse_url : ParseUrl
  pub now : Time
  pub subject_id : SubjectCode → Option ℕ
  pub subject_code : ℕ → Option SubjectCode
  pub extern_id : RawTask → Text
  pub resolve_media : List RawMedia → ℕ

-- The counters of a run: Result.
pub record Tally : Type 0 where
  pub fetched : ℕ
  pub inserted : ℕ
  pub skipped : ℕ
  pub invalid : ℕ
  pub promoted : ℕ
  pub held : ℕ

-- What a call of the store comes to: a value, a validation error, or another error.
pub data Stored {ℓ} (A : Type ℓ) : Type ℓ where
  kept : A → Stored A
  rejected : Stored A
  failed : Stored A

abbrev pub same_text : Text → Text → Source → Bool
same_text provider extern s = text_eq s.provider provider && text_eq s.extern_id extern

abbrev pub source_is : Text → Text → Option Source → Bool
source_is provider extern none = false
source_is provider extern (some s) = same_text provider extern s

abbrev pub has_source : ℕ → Text → Text → Task → Bool
has_source subject_id provider extern t =
    (t.subject_id == subject_id) && source_is provider extern t.source

-- TaskExistsBySource.
unfoldable pub task_exists : Db → ℕ → Text → Text → Bool
task_exists db subject_id provider extern = any (has_source subject_id provider extern) db.tasks

-- The row that CreateTask inserts, for the rules of its subject and number.
abbrev pub new_task :
    Db → SubjectCode → ℕ → ℕ → Text → ℕ → AnswerSchema → Source → TaskStatus → Task
new_task db code subject_id number statement media_count schema src status =
    let rules = task_rules code number in
    record {
      part = rules.part;
      grading_mode = rules.grading_mode;
      max_points = rules.max_points;
      id = db.next_id;
      subject_id = subject_id;
      number = number;
      statement = statement;
      media_count = media_count;
      answer_schema = schema;
      source = some src;
      status = status;
    }

abbrev pub insert_task : Db → Task → Db
insert_task db t = record db { tasks = db.tasks ++ t ∷ []; next_id = db.next_id + 1 }

-- CreateTask, of a task with a source.
unfoldable pub create_task :
    World → Db → ℕ → ℕ → Text → ℕ → AnswerSchema → Source → TaskStatus → Stored Db
create_task w db subject_id number statement media_count schema src status =
    if is_active status && not (is_current w.parse_url (some src) w.now)
    then rejected
    else (elim (w.subject_code subject_id) [
      | none ↦ failed
      | some code ↦
          let t = new_task db code subject_id number statement media_count schema src status in
          if is_written schema.type && not (is_manual t.grading_mode)
          then rejected
          else kept (insert_task db t)
    ])

-- The dates of the source that RefreshTaskSource keeps from the stored one.
abbrev pub is_later : Option Time → Option Time → Bool
is_later none new = false
is_later (some old) none = true
is_later (some old) (some new) = before old new

abbrev pub keep_published : Source → Source → Source
keep_published old src =
    if is_later old.published_at src.published_at
    then record src {
      published_at = old.published_at;
      date_evidence = old.date_evidence;
      date_evidence_url = old.date_evidence_url;
    }
    else src

abbrev pub keep_verified : Source → Source → Source
keep_verified old src =
    if is_some src.verified_at then src else record src { verified_at = old.verified_at }

unfoldable pub merge_source : Option Source → Source → Source
merge_source none src = src
merge_source (some old) src = keep_verified old (keep_published old src)

-- UpdateTaskSource.
unfoldable pub set_source : ℕ → Source → List Task → List Task
set_source k src [] = []
set_source k src (t ∷ ts) =
    (if t.id == k then record t { source = some src } else t) ∷ set_source k src ts

unfoldable pub refresh_task_source : Db → ℕ → Source → ℕ → Stored Db
refresh_task_source db subject_id src number =
    elim (find (has_source subject_id src.provider src.extern_id) db.tasks) [
      | none ↦ failed
      | some t ↦
          if t.number == number
          then kept (record db { tasks = set_source t.id (merge_source t.source src) db.tasks })
          else rejected
    ]

abbrev pub is_draft : TaskStatus → Bool
is_draft draft = true
is_draft _ = false

abbrev pub promotable : World → ℕ → Text → Text → Task → Bool
promotable w subject_id provider extern t =
    has_source subject_id provider extern t
    && (is_draft t.status && is_current w.parse_url t.source w.now)

unfoldable pub promote : World → ℕ → Text → Text → List Task → List Task
promote w subject_id provider extern [] = []
promote w subject_id provider extern (t ∷ ts) =
    (if promotable w subject_id provider extern t then record t { status = active } else t)
    ∷ promote w subject_id provider extern ts

-- ActivateDraftTaskBySource: the rows, and whether one changed.
unfoldable pub activate_draft : World → Db → ℕ → Text → Text → Db × Bool
activate_draft w db subject_id provider extern = (
  record db { tasks = promote w subject_id provider extern db.tasks },
  any (promotable w subject_id provider extern) db.tasks,
)

-- How a candidate ends; `broken` ends the run.
pub data Outcome : Type 0 where
  added : Db → Outcome
  duplicate : Db → Outcome
  promoted_one : Db → Outcome
  invalid_one : Outcome
  broken : Outcome

abbrev pub or_default : Text → Text → Text
or_default [] fallback = fallback
or_default s fallback = s

abbrev pub active_run : Option TaskStatus → Bool
active_run none = false
active_run (some s) = is_active s

abbrev pub run_status : Option TaskStatus → TaskStatus
run_status none = draft
run_status (some s) = s

-- A candidate that is in the bank.
unfoldable pub ingest_known : World → Option TaskStatus → Db → ℕ → Source → ℕ → Outcome
ingest_known w status db subject_id src number =
    elim (refresh_task_source db subject_id src number) [
      | rejected ↦ invalid_one
      | failed ↦ broken
      | kept fresh ↦
          if active_run status && is_current w.parse_url (some src) w.now
          then (let (after, changed) =
                activate_draft w fresh subject_id src.provider src.extern_id in
              if changed then promoted_one after else duplicate after)
          else duplicate fresh
    ]

-- One that is not.
unfoldable pub ingest_new : World → Option TaskStatus → Db → ℕ → RawTask → Source → Outcome
ingest_new w status db subject_id raw src =
    let wanted = run_status status in
    let given =
      if is_active wanted && not (is_current w.parse_url (some src) w.now) then draft else wanted in
    elim (create_task w db subject_id raw.number raw.statement (w.resolve_media raw.media)
      raw.answer_schema src given) [
        | rejected ↦ invalid_one
        | failed ↦ broken
        | kept after ↦ added after
      ]

abbrev pub named_source : World → Text → RawTask → Source
named_source w source_name raw = record raw.source {
  provider = or_default raw.source.provider source_name;
  extern_id = or_default raw.source.extern_id (w.extern_id raw);
}

unfoldable pub ingest_valid :
    World → Option TaskStatus → Text → Db → RawTask → SubjectCode → Outcome
ingest_valid w status source_name db raw code =
    let src = named_source w source_name raw in
    elim (w.subject_id code) [
      | none ↦ broken
      | some subject_id ↦
          if task_exists db subject_id src.provider src.extern_id
          then ingest_known w status db subject_id src raw.number
          else ingest_new w status db subject_id raw src
    ]

unfoldable pub ingest_one : World → Option TaskStatus → Text → Db → RawTask → Outcome
ingest_one w status source_name db raw =
    if ltb raw.number 1 || text_eq (trim_space raw.statement) []
    then invalid_one
    else (elim raw.subject [
      | none ↦ invalid_one
      | some code ↦
          if is_some (validate raw.answer_schema)
          then invalid_one
          else ingest_valid w status source_name db raw code
    ])

-- Whether a run that makes tasks active keeps this one as a draft.
abbrev pub is_held : World → Option TaskStatus → RawTask → Bool
is_held w status raw = active_run status && not (is_current w.parse_url (some raw.source) w.now)

abbrev pub bump : Bool → ℕ → ℕ
bump true n = suc n
bump false n = n

-- The switch on the outcome: the tables to go on with, and the counters.
unfoldable pub tables_after : Db → Outcome → Option Db
tables_after db (added after) = some after
tables_after db (duplicate after) = some after
tables_after db (promoted_one after) = some after
tables_after db invalid_one = some db
tables_after db broken = none

unfoldable pub count_outcome : Bool → Tally → Outcome → Tally
count_outcome held res (added after) = record res {
  inserted = suc res.inserted;
  held = bump held res.held;
}
count_outcome held res (duplicate after) = record res {
  skipped = suc res.skipped;
  held = bump held res.held;
}
count_outcome held res (promoted_one after) = record res {
  skipped = suc res.skipped;
  promoted = suc res.promoted;
}
count_outcome held res invalid_one = record res { invalid = suc res.invalid }
count_outcome held res broken = res

-- The loop, with the tables and the counters; the flag says whether it came to the end.
unfoldable pub ingest_from :
    World → Option TaskStatus → Text → Db → Tally → List RawTask → (Db × Tally) × Bool
ingest_from w status source_name db res [] = ((db, res), true)
ingest_from w status source_name db res (raw ∷ raws) =
    let outcome = ingest_one w status source_name db raw in
    elim (tables_after db outcome) [
      | none ↦ ((db, res), false)
      | some after ↦
          ingest_from w status source_name after (count_outcome (is_held w status raw) res outcome)
            raws
    ]

unfoldable pub ingest : World → Option TaskStatus → Text → Db → List RawTask → (Db × Tally) × Bool
ingest w status source_name db raws =
    ingest_from w status source_name db
      (record {
        fetched = length raws;
        inserted = 0;
        skipped = 0;
        invalid = 0;
        promoted = 0;
        held = 0;
      })
      raws
