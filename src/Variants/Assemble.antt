-- ===== src/Variants/Assemble.antt =====
-- internal/store/repo_tests.go, with the queries of internal/store/queries/tasks.sql and tests.sql.
-- `shuffle` stands for the database's ORDER BY random(). A map from numbers to counts is the list of
-- its entries, in the order in which they come in.
use egeism.Base.{
  Option, none, some, ℕ, suc, ◌+◌, ◌≡◌, ◌==◌, Bool, not, ◌&&◌, List, [], ◌∷◌, ◌++◌, map, take,
  filter, length, occurrences, if◌then◌else◌,
}
use egeism.Base.Int.{ℤ, pos, pos_part, ltb_ℤ}
use egeism.Base.Text.{Text}
use egeism.Domain.Entities.{Task, is_active}
use egeism.Domain.Source.{ParseUrl, Time, is_current}
use egeism.Attempts.Tables.{
  Test, TestItem, Db, not_found, not_current, Result, ok, ◌>>=◌, ◌>>◌, fail_if, or_fail, get_task,
  list_test_items,
}

abbrev pub task_ids : List Task → List ℕ
task_ids ts = map (λ t. t.id) ts

-- The database's random order, and the time of the call.
pub record Draw : Type 0 where
  pub parse_url : ParseUrl
  pub now : Time
  pub shuffle : List Task → List Task

-- An order by a random key keeps the rows.
abbrev pub Shuffles : Draw → Type 0
Shuffles d =
    (k : ℕ) (ts : List Task) → occurrences k (task_ids (d.shuffle ts)) ≡ occurrences k (task_ids ts)

-- The query's task_source_current is taken as Source.Current, which it restates in SQL: they differ on
-- an address with a query right behind the host, and on the trimming of other spaces.
abbrev pub is_eligible : Draw → ℕ → ℕ → Task → Bool
is_eligible d subject_id number t =
    (t.subject_id == subject_id)
    && ((t.number == number) && (is_active t.status && is_current d.parse_url t.source d.now))

-- RandomTasksForNumber.
unfoldable pub random_tasks : Draw → Db → ℕ → ℕ → ℕ → List ℕ
random_tasks d db subject_id number limit =
    take limit (task_ids (d.shuffle (filter (is_eligible d subject_id number) db.tasks)))

pub record Slot : Type 0 where
  pub number : ℕ
  pub count : ℤ

-- need[number] += count; a new number goes to the end of the order.
unfoldable pub add_need : ℕ → ℕ → List (ℕ × ℕ) → List (ℕ × ℕ)
add_need number count [] = (number, count) ∷ []
add_need number count ((n, c) ∷ needs) =
    if n == number then (n, c + count) ∷ needs else (n, c) ∷ add_need number count needs

unfoldable pub slot_needs : List (ℕ × ℕ) → List Slot → List (ℕ × ℕ)
slot_needs needs [] = needs
slot_needs needs (sl ∷ slots) =
    if ltb_ℤ (pos 0) sl.count
    then slot_needs (add_need sl.number (pos_part sl.count) needs) slots
    else slot_needs needs slots

unfoldable pub draw_needs : Draw → Db → ℕ → List (ℕ × ℕ) → List ℕ
draw_needs d db subject_id [] = []
draw_needs d db subject_id ((n, c) ∷ needs) =
    random_tasks d db subject_id n c ++ draw_needs d db subject_id needs

-- The tasks of GenerateComposedVariant.
unfoldable pub composed_tasks : Draw → Db → ℕ → List Slot → List ℕ
composed_tasks d db subject_id slots = draw_needs d db subject_id (slot_needs [] slots)

-- The loop that counts the items of each number.
unfoldable pub item_needs : List (ℕ × ℕ) → List Task → List (ℕ × ℕ)
item_needs needs [] = needs
item_needs needs (it ∷ items) = item_needs (add_need it.number 1 needs) items

unfoldable pub draw_pools : Draw → Db → ℕ → List (ℕ × ℕ) → ℕ → List ℕ
draw_pools d db subject_id [] n = []
draw_pools d db subject_id ((m, c) ∷ needs) n =
    if m == n then random_tasks d db subject_id m c else draw_pools d db subject_id needs n

-- pool[number] = ids.
abbrev pub set_pool : ℕ → List ℕ → (ℕ → List ℕ) → ℕ → List ℕ
set_pool number ids pools n = if n == number then ids else pools n

-- Where a pool has dried up, the task of the source is taken, if it is still current.
abbrev pub is_usable : Draw → Task → Bool
is_usable d t = is_active t.status && is_current d.parse_url t.source d.now

-- The loop over the items of the source, with the pools.
unfoldable pub fill : Draw → Db → (ℕ → List ℕ) → List Task → Result (List ℕ)
fill d db pools [] = ok []
fill d db pools (it ∷ items) =
    let rest = fill d db pools items in
    let spent = λ (ids : List ℕ). fill d db (set_pool it.number ids pools) items in
    elim (pools it.number) [
      | id ∷ ids ↦ do more ← spent ids; ok (id ∷ more)
      | [] ↦ do
        original ← or_fail (get_task db it.id) not_found
        fail_if (not (is_usable d original)) not_current
        more ← rest
        ok (it.id ∷ more)
    ]

-- The tasks of GenerateVariantLike.
unfoldable pub clone_tasks : Draw → Db → Test → Result (List ℕ)
clone_tasks d db source = do
  let items = list_test_items db source.id
  fail_if (length items == 0) not_found
  fill d db (draw_pools d db source.subject_id (item_needs [] items)) items

-- AddTestItem for each task, with positions from 1.
unfoldable pub number_items : ℕ → ℕ → List ℕ → List TestItem
number_items test_id i [] = []
number_items test_id i (k ∷ ids) =
    record { test_id = test_id; task_id = k; position = i + 1 } ∷ number_items test_id (suc i) ids

-- assembleVariant, of which the kind is left out; a clone is marked with its source.
unfoldable pub assemble_variant : Db → ℕ → ℕ → Text → List ℕ → Option ℕ → Db × ℕ
assemble_variant db subject_id created_by title ids variant_of = (
  record db {
    tests =
        db.tests
        ++ record {
          id = db.next_id;
          subject_id = subject_id;
          title = title;
          created_by = created_by;
          variant_of = variant_of;
        }
          ∷ [];
    items = db.items ++ number_items db.next_id 0 ids;
    next_id = db.next_id + 1;
  },
  length ids,
)

unfoldable pub generate_composed_variant : Draw → Db → ℕ → List Slot → ℕ → Text → Db × ℕ
generate_composed_variant d db subject_id slots created_by title =
    assemble_variant db subject_id created_by title (composed_tasks d db subject_id slots) none

unfoldable pub generate_variant_like : Draw → Db → Test → ℕ → Text → Result (Db × ℕ)
generate_variant_like d db source created_by title = do
  ids ← clone_tasks d db source
  ok (assemble_variant db source.subject_id created_by title ids (some source.id))
