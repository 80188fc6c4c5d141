-- ===== src/Attempts/Tables.antt =====
-- The tables that an attempt touches, and the queries of internal/store/queries/solutions.sql,
-- attempts.sql, tests.sql and assignments.sql on them. A table is the list of its rows, oldest
-- first. Ids come from a counter: the database's random ids are new, and nothing else is asked of
-- them. A transaction is a function that returns the new tables or an error, so that an error leaves
-- the tables as they were. Failures of the database itself are left out.
use egeism.Base.{
  ℕ, ◌≡◌, refl, ◌⊎◌, inl, inr, ◌+◌, ◌==◌, leb, Bool, true, false, not, ◌&&◌, Option, none, some,
  List, [], ◌∷◌, ◌++◌, filter, find, if◌then◌else◌,
}
use egeism.Base.Int.{ℤ}
use egeism.Base.Text.{Text}
use egeism.Domain.Entities.{Task, AssignmentStatus}

pub data ReviewStatus : Type 0 where
  checked pending reviewed : ReviewStatus

pub record Attempt : Type 0 where
  pub id : ℕ
  pub assignment_id : Option ℕ
  pub test_id : ℕ
  pub student_id : ℕ
  pub finished_at : Option ℕ

pub record Test : Type 0 where
  pub id : ℕ
  pub subject_id : ℕ
  pub title : Text
  pub created_by : ℕ
  pub variant_of : Option ℕ

pub record TestItem : Type 0 where
  pub test_id : ℕ
  pub task_id : ℕ
  pub position : ℕ

pub record Assignment : Type 0 where
  pub id : ℕ
  pub test_id : ℕ
  pub student_id : ℕ
  pub assigned_by : ℕ
  pub require_solution : Bool
  pub status : AssignmentStatus

-- The status `auto` of the source is `checked` here.
pub record Answer : Type 0 where
  pub id : ℕ
  pub attempt_id : ℕ
  pub task_id : ℕ
  pub raw_answer : Text
  pub is_correct : Bool
  pub time_spent_ms : ℤ
  pub review_status : ReviewStatus
  pub points : Option ℤ
  pub max_points : ℕ
  pub teacher_comment : Text
  pub reviewed_by : Option ℕ

pub record Photo : Type 0 where
  pub id : ℕ
  pub attempt_id : ℕ
  pub task_id : ℕ
  pub object_key : Text
  pub content_type : Text
  pub size_bytes : ℕ

pub data NotificationKind : Type 0 where
  assignment_created assignment_done attempt_reviewed : NotificationKind

pub record Notification : Type 0 where
  pub user_id : ℕ
  pub kind : NotificationKind
  pub assignment_id : Option ℕ
  pub attempt_id : Option ℕ

pub record Db : Type 0 where
  pub attempts : List Attempt
  pub tests : List Test
  pub tasks : List Task
  pub items : List TestItem
  pub assignments : List Assignment
  pub answers : List Answer
  pub photos : List Photo
  pub notifications : List Notification
  pub next_id : ℕ

-- `need_photo` is the message of the answer, `need_photo_for` that of the whole test.
pub data Error : Type 0 where
  not_found internal : Error
  other_subject unavailable not_current not_in_test : Error
  bad_answer already_finished already_answered need_photo empty_written empty_answer : Error
  need_photo_for : ℕ → Error
  not_manual too_many_photos : Error
  not_finished incomplete_grades unknown_grade bad_grade : Error

pub data Result {ℓ} (A : Type ℓ) : Type ℓ where
  ok : A → Result A
  err : Error → Result A

pub Result-cases {ℓ} :
    {A : Type ℓ} (r : Result A) → ((e : Error) × (r ≡ err e)) ⊎ ((a : A) × (r ≡ ok a))
Result-cases (err e) = inl (e, refl)
Result-cases (ok a) = inr (a, refl)

-- The first error ends a transaction.
infixl 5 ◌>>=◌
abbrev pub ◌>>=◌ {ℓ κ} : {A : Type ℓ} {B : Type κ} → Result A → (A → Result B) → Result B
err e >>= rest = err e
ok a >>= rest = rest a

infixl 5 ◌>>◌
abbrev pub ◌>>◌ {ℓ} : {B : Type ℓ} → Result (Unit {0}) → Result B → Result B
check >> rest = check >>= λ _. rest

-- `if b { return e }`.
abbrev pub fail_if : Bool → Error → Result (Unit {0})
fail_if true e = err e
fail_if false e = ok tt

abbrev pub or_fail {ℓ} : {A : Type ℓ} → Option A → Error → Result A
or_fail none e = err e
or_fail (some a) e = ok a

abbrev pub is_some {ℓ} : {A : Type ℓ} → Option A → Bool
is_some none = false
is_some (some a) = true

unfoldable pub get_attempt : Db → ℕ → Option Attempt
get_attempt db k = find (λ a. a.id == k) db.attempts

unfoldable pub get_test : Db → ℕ → Option Test
get_test db k = find (λ t. t.id == k) db.tests

unfoldable pub get_task : Db → ℕ → Option Task
get_task db k = find (λ t. t.id == k) db.tasks

unfoldable pub get_assignment : Db → ℕ → Option Assignment
get_assignment db k = find (λ a. a.id == k) db.assignments

unfoldable pub list_answers : Db → ℕ → List Answer
list_answers db k = filter (λ a. a.attempt_id == k) db.answers

unfoldable pub list_photos : Db → ℕ → List Photo
list_photos db k = filter (λ p. p.attempt_id == k) db.photos

unfoldable pub by_position : TestItem → List TestItem → List TestItem
by_position i [] = i ∷ []
by_position i (j ∷ js) = if leb i.position j.position then i ∷ j ∷ js else j ∷ by_position i js

unfoldable pub sort_items : List TestItem → List TestItem
sort_items [] = []
sort_items (i ∷ is) = by_position i (sort_items is)

-- The join with the tasks.
unfoldable pub join_tasks : Db → List TestItem → List Task
join_tasks db [] = []
join_tasks db (i ∷ is) = elim (get_task db i.task_id) [
  | none ↦ join_tasks db is
  | some t ↦ t ∷ join_tasks db is
]

-- ListTestItems, of whose columns the code reads the task's.
unfoldable pub list_test_items : Db → ℕ → List Task
list_test_items db k = join_tasks db (sort_items (filter (λ i. i.test_id == k) db.items))

unfoldable pub insert_answer : Db → Answer → Db
insert_answer db a = record db { answers = db.answers ++ a ∷ []; next_id = db.next_id + 1 }

-- FinishAttempt, at the time `now`.
unfoldable pub finish_attempt : ℕ → ℕ → List Attempt → List Attempt
finish_attempt now k [] = []
finish_attempt now k (a ∷ as') =
    (if (a.id == k) && not (is_some a.finished_at) then record a { finished_at = some now } else a)
    ∷ finish_attempt now k as'
