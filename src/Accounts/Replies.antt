-- ===== src/Accounts/Replies.antt =====
-- What a request on classes and rosters that is answered does to the tables.
use egeism.Base.{
  ℕ, ◌+◌, ◌≡◌, refl, not, Option, none, some, [], ◌∷◌, ◌++◌, any, filter, Bool-cases, Option-cases,
  inl, inr, ◌⊎◌, arith,
}
use egeism.Base.Text.{Text}
use egeism.Checker.Normalize.{trim_space}
use egeism.Domain.Learning.{SubjectCode}
use egeism.Domain.Entities.{Role, student}
use egeism.Solve.Handlers.{Reply, sent, refused}
use egeism.Accounts.Tables.{Account, Class, Db, get_user, get_class, holds_text}
use egeism.Accounts.Credentials.{
  Library, validate_new_credentials, create_user_with_credentials, create_account,
}
use egeism.Accounts.Rosters.{
  create_class, created_class, rename_rows, renamed_class, delete_class, deleted_class,
  add_class_member, added_member, is_member_of, remove_class_member, removed_member,
  create_enrollment, enrolled, unenroll_student, unenrolled, created_student, CreateStudentReq,
  class_checked, placed, class_owned, own_class_param, student_param, kept,
}

pub Reply-cases {ℓ} :
    {A : Type ℓ} (r : Reply A) → ((c : ℕ) × (r ≡ refused c)) ⊎ ((a : A) × (r ≡ sent a))
Reply-cases (refused c) = inl (c, refl)
Reply-cases (sent a) = inr (a, refl)

pub kept-elim {ℓ} :
    (P : Db → Type ℓ) (db : Db) (r : Reply Db)
    → P db
    → ((after : Db) → r ≡ sent after → P after)
    → P (kept db r).0
kept-elim P db (refused c) base step = base
kept-elim P db (sent after) base step = step after refl

-- An account that is created is the last row, and new.
pub create_account-users :
    (lib : Library) (db after : Db) (role : Role) (name username password : Text)
    (subject : Option SubjectCode) (row : Account)
    → create_account lib db role name username password subject ≡ sent (row, after)
    → (after ≡ record db { users = db.users ++ row ∷ []; next_id = db.next_id + 1 })
      × (row.id ≡ db.next_id)
unfolding create_account create_user_with_credentials
create_account-users lib db after role name username password subject row h =
    elim (Option-cases (validate_new_credentials lib username password)) [
      | inl e ↦ absurd (ground arith)
      | inr (login, e) ↦ elim (Option-cases (lib.hash password)) [
        | inl f ↦ absurd (ground arith)
        | inr (hash, f) ↦ elim (Bool-cases (any (λ a. holds_text login a.username) db.users)) [
          | inl g ↦ absurd (ground arith)
          | inr g ↦ ground arith
        ]
      ]
    ]

pub own_class :
    (db : Db) (user : Account) (param : Option ℕ) (k : ℕ)
    → own_class_param db user param ≡ sent k
    → (c : Class) × (get_class db k ≡ some c) × (c.teacher_id ≡ user.id)
unfolding own_class_param class_owned
own_class db user none k h = absurd (ground arith)
own_class db user (some j) k h = elim (Option-cases (get_class db j)) [
  | inl e ↦ absurd (ground arith)
  | inr (c, e) ↦ (c, ground arith, ground arith)
]

pub created_class-after :
    (db after : Db) (user : Account) (body : Option Text)
    → created_class db user body ≡ sent after
    → (name : Text) × (after ≡ (create_class db user.id name).1)
unfolding created_class
created_class-after db after user none h = absurd (ground arith)
created_class-after db after user (some s) h = (trim_space s, ground arith)

pub renamed_class-after :
    (db after : Db) (user : Account) (param : Option ℕ) (body : Option Text)
    → renamed_class db user param body ≡ sent after
    → (k : ℕ) × (name : Text) × (after ≡ record db { classes = rename_rows k name db.classes })
unfolding renamed_class
renamed_class-after db after user param none h =
    elim (Reply-cases (own_class_param db user param)) [
      | inl (c, e) ↦ absurd (ground arith)
      | inr (k, e) ↦ absurd (ground arith)
    ]
renamed_class-after db after user param (some s) h =
    elim (Reply-cases (own_class_param db user param)) [
      | inl (c, e) ↦ absurd (ground arith)
      | inr (k, e) ↦ (k, trim_space s, ground arith)
    ]

pub deleted_class-after :
    (db after : Db) (user : Account) (param : Option ℕ)
    → deleted_class db user param ≡ sent after
    → (k : ℕ) × (after ≡ delete_class db k)
unfolding deleted_class
deleted_class-after db after user param h = elim (Reply-cases (own_class_param db user param)) [
  | inl (c, e) ↦ absurd (ground arith)
  | inr (k, e) ↦ (k, ground arith)
]

pub added_member-after :
    (db after : Db) (user : Account) (param body : Option ℕ)
    → added_member db user param body ≡ sent after
    → (k : ℕ) × (student_id : ℕ) × (own_class_param db user param ≡ sent k)
      × (after ≡ add_class_member db k user.id student_id)
unfolding added_member
added_member-after db after user param none h = elim (Reply-cases (own_class_param db user param)) [
  | inl (c, e) ↦ absurd (ground arith)
  | inr (k, e) ↦ absurd (ground arith)
]
added_member-after db after user param (some id) h =
    elim (Reply-cases (own_class_param db user param)) [
      | inl (c, e) ↦ absurd (ground arith)
      | inr (k, e) ↦ elim (Option-cases (get_user db id)) [
        | inl f ↦ absurd (ground arith)
        | inr (row, f) ↦ (k, id, e, ground arith)
      ]
    ]

pub removed_member-after :
    (db after : Db) (user : Account) (param target : Option ℕ)
    → removed_member db user param target ≡ sent after
    → (k : ℕ) × (student_id : ℕ) × (after
        ≡ record db { members = filter (λ m. not (is_member_of k student_id m)) db.members })
unfolding removed_member remove_class_member
removed_member-after db after user param none h =
    elim (Reply-cases (own_class_param db user param)) [
      | inl (c, e) ↦ absurd (ground arith)
      | inr (k, e) ↦ absurd (ground arith)
    ]
removed_member-after db after user param (some id) h =
    elim (Reply-cases (own_class_param db user param)) [
      | inl (c, e) ↦ absurd (ground arith)
      | inr (k, e) ↦ (k, id, ground arith)
    ]

pub enrolled-after :
    (db after : Db) (user : Account) (param : Option ℕ)
    → enrolled db user param ≡ sent after
    → (k : ℕ) × (after ≡ create_enrollment db user.id k)
unfolding enrolled
enrolled-after db after user param h = elim (Reply-cases (student_param db user param)) [
  | inl (c, e) ↦ absurd (ground arith)
  | inr (k, e) ↦ (k, ground arith)
]

pub unenrolled-after :
    (db after : Db) (user : Account) (param : Option ℕ)
    → unenrolled db user param ≡ sent after
    → (k : ℕ) × (unenroll_student db user.id k ≡ some after)
unfolding unenrolled
unenrolled-after db after user param h = elim (Reply-cases (student_param db user param)) [
  | inl (c, e) ↦ absurd (ground arith)
  | inr (k, e) ↦ elim (Option-cases (unenroll_student db user.id k)) [
    | inl f ↦ absurd (ground arith)
    | inr (d, f) ↦ (k, ground arith)
  ]
]

pub created_student-after :
    (lib : Library) (db after : Db) (user : Account) (body : Option CreateStudentReq)
    → created_student lib db user body ≡ sent after
    → (req : CreateStudentReq) × (row : Account) × (made : Db) × (class_checked db user req.class_id
        ≡ sent tt)
      × (create_account lib db student req.name req.username req.password none ≡ sent (row, made))
      × (after ≡ placed (create_enrollment made user.id row.id) user.id row.id req.class_id)
unfolding created_student
created_student-after lib db after user none h = absurd (ground arith)
created_student-after lib db after user (some req) h =
    elim (Reply-cases (class_checked db user req.class_id)) [
      | inl (c, e) ↦ absurd (ground arith)
      | inr (x, e) ↦
          elim (Reply-cases
            (create_account lib db student req.name req.username req.password none)) [
              | inl (c, f) ↦ absurd (ground arith)
              | inr ((row, made), f) ↦ (req, row, made, e, f, ground arith)
            ]
    ]
