-- ===== src/Scheduler/Handlers.antt =====
-- internal/scheduler/handler.go and the queries on assignments that it calls. Times are in seconds.
-- `send` tells whether Telegram takes a message for a chat, after the retries of its forms, and
-- `marks` whether the database takes the mark of an assignment as told; `show` and `digits` stand for
-- time.Format and fmt's %d, and `escape` for html.EscapeString. What is logged only is left out, and
-- so are the other failures of the database.
use egeism.Base.{
  not, ℕ, ◌%◌, ◌==◌, ltb, leb, Bool, true, false, ◌&&◌, ◌||◌, Option, none, some, List, [], ◌∷◌,
  ◌++◌, map, filter, find, if◌then◌else◌,
}
use egeism.Base.Text.{Text, codes}
use egeism.Domain.Entities.{AssignmentStatus, scheduled, missed}
use egeism.Scheduler.Notifier.{Button, is_empty}

pub record Assignment : Type 0 where
  pub id : ℕ
  pub test_id : ℕ
  pub student_id : ℕ
  pub scheduled_at : ℕ
  pub notified_at : Option ℕ
  pub status : AssignmentStatus
  pub due_at : Option ℕ

-- The other tables, and the libraries. `task_count` is that of the assignment's card, 0 without one.
pub record World : Type 0 where
  pub telegram_id : ℕ → Option (Option ℕ)
  pub test_title : ℕ → Option Text
  pub subject_title : ℕ → Text
  pub task_count : ℕ → ℕ
  pub web_url : Text
  pub id_text : ℕ → Text
  pub show : ℕ → Text
  pub digits : ℕ → Text
  pub escape : Text → Text

abbrev pub is_scheduled : AssignmentStatus → Bool
is_scheduled scheduled = true
is_scheduled _ = false

abbrev pub is_none {ℓ} : {A : Type ℓ} → Option A → Bool
is_none none = true
is_none (some a) = false

abbrev pub is_past : ℕ → Option ℕ → Bool
is_past now none = false
is_past now (some t) = leb t now

-- MarkAssignmentNotified.
unfoldable pub mark_notified : ℕ → ℕ → List Assignment → List Assignment
mark_notified now k [] = []
mark_notified now k (a ∷ rows) =
    (if a.id == k then record a { notified_at = some now } else a) ∷ mark_notified now k rows

unfoldable pub plural_tasks : ℕ → Text
plural_tasks n =
    let m = n % 100 in
    if leb 11 m && leb m 14
    then codes "заданий"
    else (if m % 10 == 1
        then codes "задание"
        else (if (m % 10 == 2) || ((m % 10 == 3) || (m % 10 == 4))
            then codes "задания"
            else codes "заданий"))

abbrev pub subject_line : World → Text → Text
subject_line w [] = []
subject_line w (c ∷ t) = codes "\n📚 " ++ w.escape (c ∷ t)

abbrev pub deadline_line : World → Option ℕ → Text
deadline_line w none = []
deadline_line w (some t) = codes "\n⏰ сдать до " ++ w.show t

unfoldable pub notify_text : World → Assignment → Text → Text
notify_text w a title =
    let n = w.task_count a.id in
    codes "📌 <b>Тебе назначен тест!</b>\n\n📝 <b>«"
    ++ (w.escape title
        ++ (codes "»</b>"
            ++ (subject_line w (w.subject_title a.test_id)
                ++ ((if ltb 0 n
                      then codes " · " ++ (w.digits n ++ (codes " " ++ plural_tasks n))
                      else [])
                    ++ (codes "\n🗓 на "
                        ++ (w.show a.scheduled_at
                            ++ (deadline_line w a.due_at ++ codes "\n\nУдачи! 💪")))))))

unfoldable pub notify_rows : World → Assignment → List (List Button)
notify_rows w a =
    (record {
      text = codes "▶" ++ (0xfe0f ∷ codes " Решать тут");
      url = [];
      callback_data = codes "assign:" ++ w.id_text a.id;
    }
      ∷ [])
    ∷ (if is_empty w.web_url
        then []
        else (record { text = codes "🌐 Решать на сайте"; url = w.web_url; callback_data = [] } ∷ [])
          ∷ [])

-- A message to a chat.
pub record Message : Type 0 where
  pub chat : ℕ
  pub body : Text
  pub rows : List (List Button)

-- What becomes of a task: the rows, the messages that were taken, and whether it is to be retried.
pub record Outcome : Type 0 where
  pub table : List Assignment
  pub sent : List Message
  pub retry : Bool

abbrev pub retried : List Assignment → Outcome
retried rows = record { table = rows; sent = []; retry = true }

abbrev pub kept : List Assignment → Outcome
kept rows = record { table = rows; sent = []; retry = false }

abbrev pub marked_if : Bool → ℕ → ℕ → List Assignment → List Assignment
marked_if marks now k rows = if marks then mark_notified now k rows else rows

-- A message that was taken is marked; if the mark fails, the task is to be retried all the same.
abbrev pub send_message : (Message → Bool) → Bool → ℕ → ℕ → List Assignment → Message → Outcome
send_message send marks now k rows m =
    if send m
    then record { table = marked_if marks now k rows; sent = m ∷ []; retry = not marks }
    else retried rows

abbrev pub notify_chat :
    World → (Message → Bool) → Bool → ℕ → List Assignment → Assignment → ℕ → Option Text → Outcome
notify_chat w send marks now rows a chat none = retried rows
notify_chat w send marks now rows a chat (some title) =
    send_message send marks now a.id rows
      (record { chat = chat; body = notify_text w a title; rows = notify_rows w a })

-- The student has a chat, or none, or is not found.
abbrev pub notify_student :
    World → (Message → Bool) → Bool → ℕ → List Assignment → Assignment → Option (Option ℕ) → Outcome
notify_student w send marks now rows a none = retried rows
notify_student w send marks now rows a (some none) = kept (marked_if marks now a.id rows)
notify_student w send marks now rows a (some (some chat)) =
    notify_chat w send marks now rows a chat (w.test_title a.test_id)

-- An assignment whose student was told is left alone.
abbrev pub notify_fresh :
    World → (Message → Bool) → Bool → ℕ → List Assignment → Assignment → Bool → Outcome
notify_fresh w send marks now rows a false = kept rows
notify_fresh w send marks now rows a true =
    notify_student w send marks now rows a (w.telegram_id a.student_id)

abbrev pub notify_found :
    World → (Message → Bool) → Bool → ℕ → List Assignment → Option Assignment → Outcome
notify_found w send marks now rows none = retried rows
notify_found w send marks now rows (some a) =
    notify_fresh w send marks now rows a (is_none a.notified_at)

unfoldable pub handle_notify_assignment :
    World → (Message → Bool) → Bool → ℕ → ℕ → List Assignment → Outcome
handle_notify_assignment w send marks now k rows =
    notify_found w send marks now rows (find (λ a. a.id == k) rows)

-- asynq's answer to a task with an id: it is held, or one with this id was held, or it fails.
pub data Enqueued : Type 0 where
  queued : List ℕ → Enqueued
  id_conflict : Enqueued
  unreachable : Enqueued

-- ScheduleAssignmentNotification: the tasks that asynq holds, by the ids of their assignments, and
-- whether there was an error. A conflict of ids is none.
abbrev pub scheduled_task : List ℕ → Enqueued → List ℕ × Bool
scheduled_task queue (queued after) = (after, false)
scheduled_task queue id_conflict = (queue, false)
scheduled_task queue unreachable = (queue, true)

unfoldable pub schedule_notification : (List ℕ → ℕ → Enqueued) → List ℕ → ℕ → List ℕ × Bool
schedule_notification enqueue queue k = scheduled_task queue (enqueue queue k)

-- ListDueAssignments.
abbrev pub due : ℕ → List Assignment → List Assignment
due now rows = filter (λ a. is_none a.notified_at && leb a.scheduled_at now) rows

-- SweepDueAssignments: the loop, in which an error is logged only.
unfoldable pub sweep_each : (List ℕ → ℕ → Enqueued) → List ℕ → List Assignment → List ℕ
sweep_each enqueue queue [] = queue
sweep_each enqueue queue (a ∷ rows) =
    let next =
      if is_scheduled a.status then (schedule_notification enqueue queue a.id).0 else queue in
    sweep_each enqueue next rows

unfoldable pub sweep_due : (List ℕ → ℕ → Enqueued) → ℕ → List ℕ → List Assignment → List ℕ
sweep_due enqueue now queue rows = sweep_each enqueue queue (due now rows)

-- MarkOverdueAssignments.
abbrev pub overdue : ℕ → Assignment → Assignment
overdue now a =
    if is_scheduled a.status && is_past now a.due_at then record a { status = missed } else a

unfoldable pub sweep_overdue : ℕ → List Assignment → List Assignment
sweep_overdue now rows = map (overdue now) rows

-- A student whose last answer was long ago.
pub record IdleStudent : Type 0 where
  pub name : Text
  pub telegram_id : Option ℕ

abbrev pub first_name : Text → Text
first_name [] = codes "Привет"
first_name (c ∷ s) = c ∷ s

-- handleStreakNudge: the messages that are tried, to which chats.
unfoldable pub streak_nudges : List IdleStudent → List (ℕ × Text)
streak_nudges [] = []
streak_nudges (s ∷ ss) = elim s.telegram_id [
  | none ↦ streak_nudges ss
  | some chat ↦
      (
        chat,
        first_name s.name ++ codes ", ты не решал уже несколько дней — не теряй стрик! /solve рус",
      )
      ∷ streak_nudges ss
]
