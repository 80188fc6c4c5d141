-- ===== src/Scheduler/Sweeping.antt =====
-- The sweep puts what is due into the queue.
use mathlib.Core.Path.{subst}
use egeism.Base.{
  ℕ, ◌≡◌, ◌==◌, leb, true, ◌&&◌, some, List, [], ◌∷◌, find, mem, All, if◌then◌else◌, Bool-cases,
  inl, inr, arith,
}
use egeism.Scheduler.Handlers.{
  Assignment, is_scheduled, is_none, Enqueued, queued, id_conflict, unreachable, scheduled_task,
  schedule_notification, due, sweep_each,
}

-- What asynq promises on a task: it is held then, whether it is new or its id was there, and no
-- other task is lost.
abbrev pub Holds : List ℕ → ℕ → Enqueued → Type 0
Holds queue k (queued after) =
    (mem k after ≡ true) × ((j : ℕ) → mem j queue ≡ true → mem j after ≡ true)
Holds queue k id_conflict = mem k queue ≡ true
Holds queue k unreachable = ⊥

abbrev pub IsQueue : (List ℕ → ℕ → Enqueued) → Type 0
IsQueue enqueue = (queue : List ℕ) (k : ℕ) → Holds queue k (enqueue queue k)

scheduled_task-Holds :
    (queue : List ℕ) (k : ℕ) (r : Enqueued)
    → Holds queue k r
    → (mem k (scheduled_task queue r).0 ≡ true)
      × ((j : ℕ) → mem j queue ≡ true → mem j (scheduled_task queue r).0 ≡ true)
scheduled_task-Holds queue k (queued after) h = h
scheduled_task-Holds queue k id_conflict h = (h, λ j m. m)
scheduled_task-Holds queue k unreachable h = absurd h

-- The sweep loses no task.
sweep_each-keeps :
    (enqueue : List ℕ → ℕ → Enqueued) (queue : List ℕ) (rows : List Assignment) (j : ℕ)
    → IsQueue enqueue
    → mem j queue ≡ true
    → mem j (sweep_each enqueue queue rows) ≡ true
unfolding sweep_each schedule_notification
sweep_each-keeps enqueue queue [] j q h = h
sweep_each-keeps enqueue queue (a ∷ rows) j q h = elim (Bool-cases (is_scheduled a.status)) [
  | inl e ↦
      let next = (scheduled_task queue (enqueue queue a.id)).0 in
      let (new, old) = scheduled_task-Holds queue a.id (enqueue queue a.id) (q queue a.id) in
      rw (e, All) (sweep_each-keeps enqueue next rows j q (old j h))
  | inr e ↦ rw (e, All) (sweep_each-keeps enqueue queue rows j q h)
]

sweep_each-mem :
    (enqueue : List ℕ → ℕ → Enqueued) (queue : List ℕ) (rows : List Assignment) (a : Assignment)
    (k : ℕ)
    → is_scheduled a.status ≡ true
    → mem k (sweep_each enqueue (scheduled_task queue (enqueue queue a.id)).0 rows) ≡ true
    → mem k (sweep_each enqueue queue (a ∷ rows)) ≡ true
unfolding sweep_each schedule_notification
sweep_each-mem enqueue queue rows a k s h = rw (s, All) h

pub sweep_due-mem :
    (enqueue : List ℕ → ℕ → Enqueued) (now k : ℕ) (queue : List ℕ) (rows : List Assignment)
    (a : Assignment)
    → IsQueue enqueue
    → find (λ a. a.id == k) rows ≡ some a
    → is_none a.notified_at ≡ true
    → is_scheduled a.status ≡ true
    → leb a.scheduled_at now ≡ true
    → mem k (sweep_each enqueue queue (due now rows)) ≡ true
unfolding sweep_each schedule_notification
sweep_due-mem enqueue now k queue [] a q h f s t = cc
sweep_due-mem enqueue now k queue (x ∷ rows) a q h f s t = elim (Bool-cases (x.id == k)) [
  | inl e ↦
      let same : x ≡ a = ground arith in
      let id : a.id ≡ k = ground arith in
      let (new, old) = scheduled_task-Holds queue a.id (enqueue queue a.id) (q queue a.id) in
      let held = subst (λ i. mem i (scheduled_task queue (enqueue queue a.id)).0 ≡ true) id new in
      let rest =
        sweep_each-keeps enqueue (scheduled_task queue (enqueue queue a.id)).0 (due now rows) k q
          held in
      rw same (rw (f, t, All) (sweep_each-mem enqueue queue (due now rows) a k s rest))
  | inr e ↦ elim (Bool-cases (is_none x.notified_at && leb x.scheduled_at now)) [
    | inl g ↦
        rw (g, All)
          (sweep_due-mem enqueue now k
            (if is_scheduled x.status then (scheduled_task queue (enqueue queue x.id)).0 else queue)
            rows a q (ground arith) f s t)
    | inr g ↦ rw (g, All) (sweep_due-mem enqueue now k queue rows a q (ground arith) f s t)
  ]
]
