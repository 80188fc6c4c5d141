-- ===== src/Scheduler/Lifecycle.antt =====
-- The status of an assignment: scheduled, then perhaps missed, then done for good.
use egeism.Base.{
  ℕ, ◌≡◌, refl, ◌∙◌, ◌==◌, Bool, true, false, ◌&&◌, Option, none, some, List, [], ◌∷◌, find, All,
  Bool-cases, inl, inr, arith,
}
use egeism.Base.Text.{Text}
use egeism.Domain.Entities.{AssignmentStatus, scheduled, done, missed}
use egeism.Scheduler.Handlers.{
  Assignment, World, Message, is_scheduled, is_none, is_past, mark_notified, marked_if,
  handle_notify_assignment, notify_chat, notify_student, notify_fresh, notify_found, notify_text,
  notify_rows, overdue, sweep_overdue,
}
use egeism.Scheduler.Delivery.{set_done, Step, notify, sweep, finish, Run, stop, next}

abbrev pub is_done : AssignmentStatus → Bool
is_done done = true
is_done _ = false

-- Is the assignment done?
abbrev pub status_done : Option Assignment → Bool
status_done none = false
status_done (some a) = is_done a.status

abbrev pub done_at : ℕ → List Assignment → Bool
done_at k rows = status_done (find (λ a. a.id == k) rows)

overdue-IsSettled :
    (now : ℕ) (a : Assignment)
    → (is_scheduled (overdue now a).status && is_past now (overdue now a).due_at) ≡ false
overdue-IsSettled now a = elim (Bool-cases (is_scheduled a.status && is_past now a.due_at)) [
  | inl e ↦ ground arith
  | inr e ↦ ground arith
]

not_both : (s : AssignmentStatus) → is_done s ≡ true → is_scheduled s ≡ true → ⊥
not_both done h k = cc
not_both scheduled h k = cc
not_both missed h k = cc

done-mark :
    (now j k : ℕ) (rows : List Assignment) → done_at k (mark_notified now j rows) ≡ done_at k rows
unfolding mark_notified
done-mark now j k [] = refl
done-mark now j k (a ∷ rows) = let rest = done-mark now j k rows in ground arith

marked_if-done :
    (marks : Bool) (now j k : ℕ) (rows : List Assignment)
    → done_at k (marked_if marks now j rows) ≡ done_at k rows
marked_if-done true now j k rows = done-mark now j k rows
marked_if-done false now j k rows = refl

-- A task leaves the rows as they are, or marks one as told.
task-table :
    (w : World) (send : Message → Bool) (marks : Bool) (now j : ℕ) (rows : List Assignment) (k : ℕ)
    → done_at k (handle_notify_assignment w send marks now j rows).table ≡ done_at k rows
unfolding handle_notify_assignment
task-table w send marks now j rows k = notify_found-done (find (λ a. a.id == j) rows)
  where
    notify_chat-done :
        (a : Assignment) (chat : ℕ) (title : Option Text)
        → done_at k (notify_chat w send marks now rows a chat title).table ≡ done_at k rows
    notify_chat-done a chat none = refl
    notify_chat-done a chat (some t) =
        elim (Bool-cases
          (send (record { chat = chat; body = notify_text w a t; rows = notify_rows w a }))) [
            | inl e ↦ rw (e, All) (marked_if-done marks now a.id k rows)
            | inr e ↦ rw (e, All) refl
          ]

    notify_student-done :
        (a : Assignment) (o : Option (Option ℕ))
        → done_at k (notify_student w send marks now rows a o).table ≡ done_at k rows
    notify_student-done a none = refl
    notify_student-done a (some none) = marked_if-done marks now a.id k rows
    notify_student-done a (some (some chat)) = notify_chat-done a chat (w.test_title a.test_id)

    notify_fresh-done :
        (a : Assignment) (b : Bool)
        → done_at k (notify_fresh w send marks now rows a b).table ≡ done_at k rows
    notify_fresh-done a false = refl
    notify_fresh-done a true = notify_student-done a (w.telegram_id a.student_id)

    notify_found-done :
        (o : Option Assignment)
        → done_at k (notify_found w send marks now rows o).table ≡ done_at k rows
    notify_found-done none = refl
    notify_found-done (some a) = notify_fresh-done a (is_none a.notified_at)

done-sweep :
    (now k : ℕ) (rows : List Assignment)
    → done_at k rows ≡ true
    → done_at k (sweep_overdue now rows) ≡ true
unfolding sweep_overdue
done-sweep now k [] h = h
done-sweep now k (a ∷ rows) h = elim (Bool-cases (is_scheduled a.status && is_past now a.due_at)) [
  | inl e ↦ elim (Bool-cases (a.id == k)) [
    | inl f ↦
        let fact : is_done a.status ≡ true = ground arith in
        absurd (not_both a.status fact (ground arith))
    | inr f ↦ let rest = done-sweep now k rows (ground arith) in ground arith
  ]
  | inr e ↦ elim (Bool-cases (a.id == k)) [
    | inl f ↦ ground arith
    | inr f ↦ let rest = done-sweep now k rows (ground arith) in ground arith
  ]
]

done-done :
    (j k : ℕ) (rows : List Assignment) → done_at k rows ≡ true → done_at k (set_done j rows) ≡ true
unfolding set_done
done-done j k [] h = h
done-done j k (a ∷ rows) h = elim (Bool-cases (a.id == k)) [
  | inl e ↦ ground arith
  | inr e ↦ let rest = done-done j k rows (ground arith) in ground arith
]

Step-done :
    (w : World) (k : ℕ) {rows after : List Assignment} {ids lost : List ℕ}
    → Step w rows ids lost after
    → done_at k rows ≡ true
    → done_at k after ≡ true
Step-done w k (notify send marks now j rows) h = task-table w send marks now j rows k ∙ h
Step-done w k (sweep now rows) h = done-sweep now k rows h
Step-done w k (finish j rows) h = done-done j k rows h

Run-done :
    (w : World) (k : ℕ) {rows after : List Assignment} {ids lost : List ℕ}
    → Run w rows ids lost after
    → done_at k rows ≡ true
    → done_at k after ≡ true
Run-done w k (stop rows) h = h
Run-done w k (next {rows} {mid} {after} {ids} {more} {lost} {miss} s r) h =
    Run-done w k r (Step-done w k s h)

-- A done assignment stays done, whatever the worker does: no sweep of overdue assignments makes it a
-- missed one again.
pub done_is_final :
    (w : World) (k : ℕ) (rows after : List Assignment) (ids lost : List ℕ)
    → Run w rows ids lost after
    → done_at k rows ≡ true
    → done_at k after ≡ true
done_is_final w k rows after ids lost r h = Run-done w k r h

-- After the sweep of overdue assignments none is left that is scheduled and past its deadline.
pub sweep_overdue-settled :
    (now : ℕ) (rows : List Assignment)
    → All (λ a. (is_scheduled a.status && is_past now a.due_at) ≡ false) (sweep_overdue now rows)
unfolding sweep_overdue
sweep_overdue-settled now [] = tt
sweep_overdue-settled now (a ∷ rows) = (overdue-IsSettled now a, sweep_overdue-settled now rows)
