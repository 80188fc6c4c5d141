-- ===== src/Scheduler/Delivery.antt =====
-- Who is told of an assignment, and what becomes of it.
use mathlib.Core.Path.{subst}
use egeism.Base.{
  ℕ, ◌+◌, ◌≤◌, ◌≡◌, refl, sym, ◌==◌, Bool, true, false, not, ◌&&◌, Option, none, some, List, [],
  ◌∷◌, ◌++◌, find, occurrences, occurrences-append, All, if◌then◌else◌, Bool-cases, inl, inr, arith,
}
use egeism.Base.Text.{Text}
use egeism.Domain.Entities.{done}
use egeism.Scheduler.Handlers.{
  Assignment, World, Message, Outcome, is_scheduled, is_none, is_past, mark_notified, marked_if,
  notify_chat, notify_student, notify_fresh, notify_found, notify_text, notify_rows,
  handle_notify_assignment, sweep_overdue,
}

-- A finished attempt: SetAssignmentStatus(done) of internal/api/solve.go.
unfoldable pub set_done : ℕ → List Assignment → List Assignment
set_done k [] = []
set_done k (a ∷ rows) = (if a.id == k then record a { status = done } else a) ∷ set_done k rows

-- The id once for each message that was taken.
abbrev pub told : ℕ → List Message → List ℕ
told k [] = []
told k (m ∷ ms) = k ∷ told k ms

-- The id of a task whose mark fails.
abbrev pub unmarked : Bool → ℕ → List ℕ
unmarked true k = []
unmarked false k = k ∷ []

-- One step of the worker, or of a student who finishes. The first list holds the ids of the
-- assignments whose student was told, the second those of which the mark failed. A task may be put
-- into the queue, and run, any number of times.
pub data Step (w : World) : List Assignment → List ℕ → List ℕ → List Assignment → Type 0 where
  notify :
      (send : Message → Bool) (marks : Bool) (now k : ℕ) (rows : List Assignment)
      → Step w rows
          (told k (handle_notify_assignment w send marks now k rows).sent)
          (unmarked marks k)
          (handle_notify_assignment w send marks now k rows).table
  sweep : (now : ℕ) (rows : List Assignment) → Step w rows [] [] (sweep_overdue now rows)
  finish : (k : ℕ) (rows : List Assignment) → Step w rows [] [] (set_done k rows)

pub data Run (w : World) : List Assignment → List ℕ → List ℕ → List Assignment → Type 0 where
  stop : (rows : List Assignment) → Run w rows [] [] rows
  next :
      {rows mid after : List Assignment} {ids more lost miss : List ℕ}
      → Step w rows ids lost mid
      → Run w mid more miss after
      → Run w rows (ids ++ more) (lost ++ miss) after

-- Was the student of the assignment told?
abbrev pub was_told : Option Assignment → Bool
was_told none = false
was_told (some a) = not (is_none a.notified_at)

abbrev pub is_told : ℕ → List Assignment → Bool
is_told k rows = was_told (find (λ a. a.id == k) rows)

pub told-mark :
    (now j k : ℕ) (rows : List Assignment)
    → is_told k rows ≡ true
    → is_told k (mark_notified now j rows) ≡ true
unfolding mark_notified
told-mark now j k [] h = h
told-mark now j k (a ∷ rows) h = elim (Bool-cases (a.id == j)) [
  | inl e ↦ elim (Bool-cases (a.id == k)) [
    | inl f ↦ rw (e, f, All) (ground arith)
    | inr f ↦ let rest = told-mark now j k rows (ground arith) in ground arith
  ]
  | inr e ↦ elim (Bool-cases (a.id == k)) [
    | inl f ↦ ground arith
    | inr f ↦ let rest = told-mark now j k rows (ground arith) in ground arith
  ]
]

pub mark-told :
    (now k : ℕ) (rows : List Assignment) (a : Assignment)
    → find (λ a. a.id == k) rows ≡ some a
    → is_told k (mark_notified now k rows) ≡ true
unfolding mark_notified
mark-told now k [] a h = cc
mark-told now k (x ∷ rows) a h = elim (Bool-cases (x.id == k)) [
  | inl e ↦ ground arith
  | inr e ↦ let rest = mark-told now k rows a (ground arith) in ground arith
]

told-sweep :
    (now k : ℕ) (rows : List Assignment) → is_told k (sweep_overdue now rows) ≡ is_told k rows
unfolding sweep_overdue
told-sweep now k [] = refl
told-sweep now k (a ∷ rows) =
    let rest = told-sweep now k rows in
    elim (Bool-cases (is_scheduled a.status && is_past now a.due_at)) [
      | inl e ↦ ground arith
      | inr e ↦ ground arith
    ]

told-done : (j k : ℕ) (rows : List Assignment) → is_told k (set_done j rows) ≡ is_told k rows
unfolding set_done
told-done j k [] = refl
told-done j k (a ∷ rows) = let rest = told-done j k rows in ground arith

pub find-id :
    (k : ℕ) (rows : List Assignment) (a : Assignment)
    → find (λ a. a.id == k) rows ≡ some a
    → a.id ≡ k
find-id k [] a h = cc
find-id k (x ∷ rows) a h = elim (Bool-cases (x.id == k)) [
  | inl e ↦ let same : x ≡ a = ground arith in ground arith
  | inr e ↦ find-id k rows a (ground arith)
]

-- How many messages about the assignment are still to come, at most.
abbrev left : ℕ → List Assignment → ℕ
left k rows = if is_told k rows then 0 else 1

mark-left : (now j k : ℕ) (rows : List Assignment) → left k (mark_notified now j rows) ≤ left k rows
mark-left now j k rows = elim (Bool-cases (is_told k rows)) [
  | inl e ↦ let still = told-mark now j k rows e in rw (e, still) (omega arith)
  | inr e ↦ ground arith
]

-- A message uses up what was left for its assignment.
send-left :
    (now j k : ℕ) (rows : List Assignment) (a : Assignment)
    → find (λ a. a.id == j) rows ≡ some a
    → is_none a.notified_at ≡ true
    → occurrences k (j ∷ []) + left k (mark_notified now j rows) ≤ left k rows
send-left now j k rows a found fresh = elim (Bool-cases (k == j)) [
  | inl e ↦
      let same : k ≡ j = ground arith in
      let told = mark-told now j rows a found in
      let before : is_told j rows ≡ false = rw found (ground arith) in
      rw (same, told, before) (ground arith)
  | inr e ↦ let less = mark-left now j k rows in ground arith
]

-- What a run of the task j comes to, for the messages about k.
abbrev Spends : Bool → ℕ → ℕ → List Assignment → Outcome → Type 0
Spends marks j k rows o =
    occurrences k (told j o.sent) + left k o.table ≤ left k rows + occurrences k (unmarked marks j)

marked_if-left :
    (marks : Bool) (now j k : ℕ) (rows : List Assignment)
    → left k (marked_if marks now j rows) ≤ left k rows
marked_if-left true now j k rows = mark-left now j k rows
marked_if-left false now j k rows = omega arith

taken-Spends :
    (marks : Bool) (now j k : ℕ) (rows : List Assignment) (a : Assignment) (m : Message)
    → find (λ a. a.id == j) rows ≡ some a
    → is_none a.notified_at ≡ true
    → Spends marks j k rows
        (record { table = marked_if marks now j rows; sent = m ∷ []; retry = not marks })
taken-Spends true now j k rows a m e f = let spent = send-left now j k rows a e f in omega arith
taken-Spends false now j k rows a m e f = omega arith

task-left :
    (w : World) (send : Message → Bool) (marks : Bool) (now j k : ℕ) (rows : List Assignment)
    → Spends marks j k rows (handle_notify_assignment w send marks now j rows)
unfolding handle_notify_assignment
task-left w send marks now j k rows = notify_found-left (find (λ a. a.id == j) rows) refl
  where
    notify_chat-left :
        (a : Assignment) (chat : ℕ) (title : Option Text)
        → find (λ a. a.id == j) rows ≡ some a
        → is_none a.notified_at ≡ true
        → Spends marks j k rows (notify_chat w send marks now rows a chat title)
    notify_chat-left a chat none e f = omega arith
    notify_chat-left a chat (some t) e f =
        let m : Message = record {
          chat = chat;
          body = notify_text w a t;
          rows = notify_rows w a;
        } in
        let same = find-id j rows a e in
        let spent = taken-Spends marks now j k rows a m e f in
        elim (Bool-cases (send m)) [
          | inl g ↦
              rw (g, All)
                (subst
                  (λ i. Spends marks j k rows (record {
                    table = marked_if marks now i rows;
                    sent = m ∷ [];
                    retry = not marks;
                  }))
                  (sym same) spent)
          | inr g ↦ rw (g, All) (omega arith)
        ]

    notify_student-left :
        (o : Option (Option ℕ)) (a : Assignment)
        → find (λ a. a.id == j) rows ≡ some a
        → is_none a.notified_at ≡ true
        → Spends marks j k rows (notify_student w send marks now rows a o)
    notify_student-left none a e f = omega arith
    notify_student-left (some none) a e f =
        let less = marked_if-left marks now a.id k rows in omega (arith, less)
    notify_student-left (some (some chat)) a e f =
        notify_chat-left a chat (w.test_title a.test_id) e f

    notify_fresh-left :
        (a : Assignment) (b : Bool)
        → find (λ a. a.id == j) rows ≡ some a
        → is_none a.notified_at ≡ b
        → Spends marks j k rows (notify_fresh w send marks now rows a b)
    notify_fresh-left a false e f = omega arith
    notify_fresh-left a true e f = notify_student-left (w.telegram_id a.student_id) a e f

    notify_found-left :
        (o : Option Assignment)
        → find (λ a. a.id == j) rows ≡ o
        → Spends marks j k rows (notify_found w send marks now rows o)
    notify_found-left none e = omega arith
    notify_found-left (some a) e = notify_fresh-left a (is_none a.notified_at) e refl

Step-left :
    (w : World) (k : ℕ) {rows after : List Assignment} {ids lost : List ℕ}
    → Step w rows ids lost after
    → occurrences k ids + left k after ≤ left k rows + occurrences k lost
Step-left w k (notify send marks now j rows) = task-left w send marks now j k rows
Step-left w k (sweep now rows) = rw (told-sweep now k rows) (omega arith)
Step-left w k (finish j rows) = rw (told-done j k rows) (omega arith)

Run-left :
    (w : World) (k : ℕ) {rows after : List Assignment} {ids lost : List ℕ}
    → Run w rows ids lost after
    → occurrences k ids + left k after ≤ left k rows + occurrences k lost
Run-left w k (stop rows) = omega arith
Run-left w k (next {rows} {mid} {after} {ids} {more} {lost} {miss} s r) =
    let here = Step-left w k s in
    let rest = Run-left w k r in
    let split = occurrences-append k ids more in
    let split_lost = occurrences-append k lost miss in omega (arith, here, rest, split, split_lost)

-- However often the task of an assignment is put into the queue and run, whatever messages are lost,
-- and whatever the sweeps and the finished attempts do in between, the messages that are taken for
-- the assignment are one at most, and one more for each run of its task in which the mark fails.
pub told_once :
    (w : World) (k : ℕ) (rows after : List Assignment) (ids lost : List ℕ)
    → Run w rows ids lost after
    → occurrences k ids ≤ 1 + occurrences k lost
told_once w k rows after ids lost r = let spent = Run-left w k r in ground arith
