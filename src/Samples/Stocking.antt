-- ===== src/Samples/Stocking.antt =====
-- The queue of the bank, the runs of a source, and the variants.
use egeism.Base.{
  length, ◌≤◌, ◌≡◌, ◌↔◌, refl, true, false, none, some, List, [], ◌∷◌, map, All, IsDistinct,
}
use egeism.Base.Int.{pos}
use egeism.Base.Text.{codes}
use egeism.Domain.Answer.{number}
use egeism.Domain.Source.{
  is_current, freshness, dated_freshness, date_freshness, known_time, is_zero, before, cutoff,
  minus_year, minus_day, days_in_month, trusted_source_url, plain_host, trusted_host,
}
use egeism.Domain.Learning.{math, soc, task_rules}
use egeism.Domain.Entities.{Task, active, draft}
use egeism.Checker.Normalize.{trim_space, is_space}
use egeism.Attempts.Tables.{Db, ok, get_task, list_test_items, sort_items, by_position, join_tasks}
use egeism.Bank.Queue.{
  Job, fetch, queued, enqueue, added, recent_job, claim, claim_queued, claimable, replace_oldest,
  reap, reap_job, start_job,
}
use egeism.Bank.Limits.{Limits}
use egeism.Bank.Reached.{Reachable, start, next, enqueues, Reachable-Limits}
use egeism.Bank.Refill.{Availability, needs_bank_refill}
use egeism.Bank.Stock.{IsStocked, needs_bank_refill_iff}
use egeism.Variants.Assemble.{
  Shuffles, task_ids, Slot, composed_tasks, random_tasks, add_need, item_needs, draw_pools, fill,
  clone_tasks,
}
use egeism.Variants.Composed.{composed_tasks-IsDistinct}
use egeism.Variants.Clones.{number_of, clone_tasks-numbers}
use egeism.Ingest.Runner.{kept, ingest, create_task, new_task, insert_task}
use egeism.Ingest.Balance.{Runs, ends, no_counts, ingest-Runs}
use egeism.Samples.Data.{draw, db, test, short_task, job, world, raw_task, fresh, schema}

abbrev waiting : Job
waiting = record job { state = queued; started_at = none; lease_until = none; attempts = 0 }

added_one : enqueue 1 1000 math 0 80 true 900 fetch [] ≡ added waiting (waiting ∷ [])
unfolding enqueue recent_job
added_one = refl

one_waits : Reachable (waiting ∷ [])
one_waits =
    next [] (waiting ∷ []) start
      (enqueues 1 1000 math 0 80 true 900 fetch [] (waiting ∷ []) waiting added_one)

abbrev begun : Job
begun = record job { started_at = some 1500; lease_until = some 1860 }

claimed : claim 1500 (waiting ∷ []) ≡ (some begun, begun ∷ [])
unfolding claim claim_queued claimable replace_oldest reap reap_job start_job
claimed = refl

abbrev some_rows : Availability
some_rows = record { number = 1; active = 12 }

abbrev slots : List Slot
slots =
    record { number = 1; count = pos 2 }
    ∷ record { number = 13; count = pos 1 }
    ∷ record { number = 1; count = pos 1 }
    ∷ []

draw-Shuffles : Shuffles draw
draw-Shuffles k ts = refl

db_IsDistinct : IsDistinct (task_ids db.tasks)
db_IsDistinct = (refl, (refl, tt))

cloned : clone_tasks draw db test ≡ ok (10 ∷ 11 ∷ [])
unfolding clone_tasks list_test_items sort_items by_position join_tasks get_task item_needs add_need
    draw_pools random_tasks fill is_current freshness dated_freshness date_freshness known_time
    is_zero before cutoff minus_year minus_day days_in_month trusted_source_url plain_host
    trusted_host trim_space is_space
cloned = refl

-- The same task twice in a clone: of two items of one number only the second is in the bank still.
abbrev old_task : Task
old_task = record short_task { id = 12; status = draft }

abbrev thin_db : Db
thin_db = record db {
  tasks = old_task ∷ short_task ∷ [];
  items =
      record { test_id = 2; task_id = 12; position = 1 }
      ∷ record { test_id = 2; task_id = 10; position = 2 }
      ∷ [];
}

repeated : clone_tasks draw thin_db test ≡ ok (10 ∷ 10 ∷ [])
unfolding clone_tasks list_test_items sort_items by_position join_tasks get_task item_needs add_need
    draw_pools random_tasks fill is_current freshness dated_freshness date_freshness known_time
    is_zero before cutoff minus_year minus_day days_in_month trusted_source_url plain_host
    trusted_host trim_space is_space
repeated = refl

abbrev created : Task
created = new_task db math 1 1 (codes "1 + 1") 0 (schema number (codes "2")) fresh active

was_created :
    create_task world db 1 1 (codes "1 + 1") 0 (schema number (codes "2")) fresh active
    ≡ kept (insert_task db created)
unfolding create_task task_rules is_current freshness dated_freshness date_freshness known_time
    is_zero before cutoff minus_year minus_day days_in_month trusted_source_url plain_host
    trusted_host trim_space is_space
was_created = refl

Reachable-Limits_example : Limits (waiting ∷ [])
Reachable-Limits_example = Reachable-Limits (waiting ∷ []) one_waits

needs_bank_refill_iff_example :
    (needs_bank_refill (some_rows ∷ []) soc ≡ false)
    ↔ (IsStocked (some_rows ∷ []) soc × All (λ row. 10 ≤ row.active) (some_rows ∷ []))
needs_bank_refill_iff_example = needs_bank_refill_iff (some_rows ∷ []) soc

composed_tasks-IsDistinct_example : IsDistinct (composed_tasks draw db 1 slots)
composed_tasks-IsDistinct_example =
    composed_tasks-IsDistinct draw db 1 slots draw-Shuffles db_IsDistinct

clone_tasks-numbers_example :
    map (number_of db) (10 ∷ 11 ∷ []) ≡ map (λ t. some t.number) (list_test_items db test.id)
clone_tasks-numbers_example =
    clone_tasks-numbers draw db test (10 ∷ 11 ∷ []) draw-Shuffles db_IsDistinct cloned

ingest-Runs_example :
    Runs
      (ends world (some active) (codes "file") db (raw_task ∷ []))
      db
      (no_counts (length (raw_task ∷ [])))
      (length (raw_task ∷ []))
      (ingest world (some active) (codes "file") db (raw_task ∷ []))
ingest-Runs_example = ingest-Runs world (some active) (codes "file") db (raw_task ∷ [])
