-- ===== src/Scheduler/Working.antt =====
-- The worker goes through the queue.
use mathlib.Core.Path.{subst}
use egeism.Base.{
  ℕ, ◌≡◌, refl, sym, ap, ◌∙◌, ◌==◌, Bool, true, false, not, ◌⊎◌, Option, none, some, List, [], ◌∷◌,
  ◌++◌, find, All, Bool-cases, inl, inr, arith,
}
use egeism.Base.Text.{Text}
use egeism.Scheduler.Handlers.{
  Assignment, World, Message, Outcome, is_none, mark_notified, marked_if, notify_chat,
  notify_student, notify_fresh, notify_found, notify_text, notify_rows, handle_notify_assignment,
}
use egeism.Scheduler.Delivery.{find-id, is_told, told-mark}

-- The worker runs each task that asynq holds once: the rows, and the messages that were taken.
unfoldable pub work :
    World → (Message → Bool) → Bool → ℕ → List ℕ → List Assignment → List Assignment × List Message
work w send marks now [] rows = (rows, [])
work w send marks now (k ∷ queue) rows =
    let o = handle_notify_assignment w send marks now k rows in
    let (after, more) = work w send marks now queue o.table in (after, o.sent ++ more)

-- The rows after a task are as they were, or the row of the task is marked.
abbrev pub Marks : ℕ → ℕ → List Assignment → Outcome → Type 0
Marks now j rows o = (o.table ≡ rows) ⊎ (o.table ≡ mark_notified now j rows)

marked_if-Marks :
    (marks : Bool) (now j : ℕ) (rows : List Assignment) (ms : List Message) (b : Bool)
    → Marks now j rows (record { table = marked_if marks now j rows; sent = ms; retry = b })
marked_if-Marks true now j rows ms b = inr refl
marked_if-Marks false now j rows ms b = inl refl

task-Marks :
    (w : World) (send : Message → Bool) (marks : Bool) (now j : ℕ) (rows : List Assignment)
    → Marks now j rows (handle_notify_assignment w send marks now j rows)
unfolding handle_notify_assignment
task-Marks w send marks now j rows = notify_found-Marks (find (λ a. a.id == j) rows) refl
  where
    notify_chat-Marks :
        (a : Assignment) (chat : ℕ) (title : Option Text)
        → a.id ≡ j
        → Marks now j rows (notify_chat w send marks now rows a chat title)
    notify_chat-Marks a chat none e = inl refl
    notify_chat-Marks a chat (some t) e =
        let m : Message = record {
          chat = chat;
          body = notify_text w a t;
          rows = notify_rows w a;
        } in
        elim (Bool-cases (send m)) [
          | inl g ↦
              rw (g, All)
                (subst
                  (λ i. Marks now j rows (record {
                    table = marked_if marks now i rows;
                    sent = m ∷ [];
                    retry = not marks;
                  }))
                  (sym e) (marked_if-Marks marks now j rows (m ∷ []) (not marks)))
          | inr g ↦ rw (g, All) (inl refl)
        ]

    notify_student-Marks :
        (o : Option (Option ℕ)) (a : Assignment)
        → a.id ≡ j
        → Marks now j rows (notify_student w send marks now rows a o)
    notify_student-Marks none a e = inl refl
    notify_student-Marks (some none) a e =
        subst
          (λ i.
            Marks now j rows
              (record { table = marked_if marks now i rows; sent = []; retry = false }))
          (sym e) (marked_if-Marks marks now j rows [] false)
    notify_student-Marks (some (some chat)) a e =
        notify_chat-Marks a chat (w.test_title a.test_id) e

    notify_fresh-Marks :
        (a : Assignment) (b : Bool)
        → a.id ≡ j
        → Marks now j rows (notify_fresh w send marks now rows a b)
    notify_fresh-Marks a false e = inl refl
    notify_fresh-Marks a true e = notify_student-Marks (w.telegram_id a.student_id) a e

    notify_found-Marks :
        (o : Option Assignment)
        → find (λ a. a.id == j) rows ≡ o
        → Marks now j rows (notify_found w send marks now rows o)
    notify_found-Marks none e = inl refl
    notify_found-Marks (some a) e =
        notify_fresh-Marks a (is_none a.notified_at) (find-id j rows a e)

find-marked :
    (now j k : ℕ) (rows : List Assignment)
    → (k == j) ≡ false
    → find (λ a. a.id == k) (mark_notified now j rows) ≡ find (λ a. a.id == k) rows
unfolding mark_notified
find-marked now j k [] ne = refl
find-marked now j k (a ∷ rows) ne =
    let rest = find-marked now j k rows ne in
    elim (Bool-cases (a.id == j)) [
      | inl e ↦ let other : (a.id == k) ≡ false = ground arith in rw (e, other, All) rest
      | inr e ↦ elim (Bool-cases (a.id == k)) [ inl f ↦ ground arith | inr f ↦ ground arith ]
    ]

-- A task tells no other student, and takes back nothing.
pub task-find :
    (w : World) (send : Message → Bool) (marks : Bool) (now j k : ℕ) (rows : List Assignment)
    → (k == j) ≡ false
    → find (λ a. a.id == k) (handle_notify_assignment w send marks now j rows).table
      ≡ find (λ a. a.id == k) rows
task-find w send marks now j k rows ne = elim (task-Marks w send marks now j rows) [
  | inl e ↦ ap (λ r. find (λ a. a.id == k) r) e
  | inr e ↦ ap (λ r. find (λ a. a.id == k) r) e ∙ find-marked now j k rows ne
]

pub work-told :
    (w : World) (send : Message → Bool) (marks : Bool) (now k : ℕ) (queue : List ℕ)
    (rows : List Assignment)
    → is_told k rows ≡ true
    → is_told k (work w send marks now queue rows).0 ≡ true
unfolding work
work-told w send marks now k [] rows h = h
work-told w send marks now k (j ∷ queue) rows h =
    work-told w send marks now k queue (handle_notify_assignment w send marks now j rows).table
      (elim (task-Marks w send marks now j rows) [
        | inl e ↦ subst (λ r. is_told k r ≡ true) (sym e) h
        | inr e ↦ subst (λ r. is_told k r ≡ true) (sym e) (told-mark now j k rows h)
      ])
