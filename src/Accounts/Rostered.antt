-- ===== src/Accounts/Rostered.antt =====
-- Each operation on classes and rosters keeps the members of a class enrolled with its teacher.
use mathlib.Core.Path.{subst}
use egeism.Base.{
  ℕ, ◌+◌, ◌<◌, ◌≡◌, refl, sym, ap, ◌==◌, Bool, true, false, not, ◌&&◌, ◌||◌, some, List, [], ◌∷◌,
  ◌++◌, map, filter, find, any, mem, All, All-append, All-imp, IsDistinct, IsDistinct-snoc,
  Bool-cases, inl, inr, arith,
}
use egeism.Base.Text.{Text}
use egeism.Accounts.Tables.{
  Account, Enrollment, Class, Member, Db, get_class, has_class, is_teacher_of, without_user,
}
use egeism.Accounts.Rosters.{
  create_enrollment, insert_member, is_member_of, add_class_member, unenroll_student,
  is_in_class_of, create_class, rename_rows, delete_class,
}
use egeism.Accounts.Membership.{
  links, covers, IsCovered, IsRostered, All-filter, All-filter_with, All-and, any-append, All-find,
  IsDistinct-filter, links-filter, create_enrollment-IsRostered,
}

-- A member that is not in a class of the teacher, or is another student, stays covered.
spared :
    (t k : ℕ) (es : List Enrollment) (m : Member) (cs : List Class)
    → is_in_class_of cs t k m ≡ false
    → IsCovered cs es m
    → IsCovered cs (filter (λ e. not ((e.teacher_id == t) && (e.student_id == k))) es) m
spared t k es m [] out h = tt
spared t k es m (c ∷ cs) out h = (
  elim (Bool-cases (c.id == m.class_id)) [
    | inl e ↦
        let linked : any (links c.teacher_id m.student_id) es ≡ true = ground (arith, h.0) in
        let left =
          links-filter c.teacher_id m.student_id
            (λ e. not ((e.teacher_id == t) && (e.student_id == k))) es (λ x l. ground arith)
            linked in
        ground arith
    | inr e ↦ ground arith
  ],
  spared t k es m cs (ground arith) h.1,
)

pub unenroll_student-IsRostered :
    (db after : Db) (t k : ℕ)
    → unenroll_student db t k ≡ some after
    → IsRostered db
    → IsRostered after
unfolding unenroll_student
unenroll_student-IsRostered db after t k done h =
    let left : Db = record db {
      members = filter (λ m. not (is_in_class_of db.classes t k m)) db.members;
      enrollments = filter (λ e. not ((e.teacher_id == t) && (e.student_id == k))) db.enrollments;
    } in
    let same : left ≡ after = ground arith in
    subst IsRostered same (record {
      distinct = h.distinct;
      given = h.given;
      of_given =
          All-filter (λ m. m.class_id < db.next_id) (λ m. not (is_in_class_of db.classes t k m))
            db.members h.of_given;
      covered =
          All-filter_with (IsCovered db.classes db.enrollments)
            (IsCovered db.classes left.enrollments) (λ m. not (is_in_class_of db.classes t k m))
            (λ m out c. spared t k db.enrollments m db.classes (ground arith) c) db.members
            h.covered;
    })

pub delete_class-IsRostered : (db : Db) (k : ℕ) → IsRostered db → IsRostered (delete_class db k)
unfolding delete_class
delete_class-IsRostered db k h = record {
  distinct = IsDistinct-filter (λ c. not (c.id == k)) db.classes h.distinct;
  given = All-filter (λ c. c.id < db.next_id) (λ c. not (c.id == k)) db.classes h.given;
  of_given =
      All-filter (λ m. m.class_id < db.next_id) (λ m. not (m.class_id == k)) db.members h.of_given;
  covered =
      All-filter_with (IsCovered db.classes db.enrollments)
        (IsCovered (filter (λ c. not (c.id == k)) db.classes) db.enrollments)
        (λ m. not (m.class_id == k))
        (λ m out c.
          All-filter (λ c. covers db.enrollments m c ≡ true) (λ c. not (c.id == k)) db.classes c)
        db.members h.covered;
}

pub removed_members-IsRostered :
    (db : Db) (p : Member → Bool)
    → IsRostered db
    → IsRostered (record db { members = filter p db.members })
removed_members-IsRostered db p h = record {
  distinct = h.distinct;
  given = h.given;
  of_given = All-filter (λ m. m.class_id < db.next_id) p db.members h.of_given;
  covered = All-filter (IsCovered db.classes db.enrollments) p db.members h.covered;
}

pub without_user-IsRostered : (db : Db) (k : ℕ) → IsRostered db → IsRostered (without_user db k)
without_user-IsRostered db k h =
    let own : Class → Bool = λ c. not (c.teacher_id == k) in
    let left : Enrollment → Bool = λ e. not ((e.teacher_id == k) || (e.student_id == k)) in
    let stays : Member → Bool =
      λ m. not (m.student_id == k) && has_class (filter own db.classes) m in
    record {
      distinct = IsDistinct-filter own db.classes h.distinct;
      given = All-filter (λ c. c.id < db.next_id) own db.classes h.given;
      of_given = All-filter (λ m. m.class_id < db.next_id) stays db.members h.of_given;
      covered =
          All-filter_with (IsCovered db.classes db.enrollments)
            (IsCovered (filter own db.classes) (filter left db.enrollments)) stays
            (λ m s c.
              All-filter_with (λ c. covers db.enrollments m c ≡ true)
                (λ c. covers (filter left db.enrollments) m c ≡ true) own
                (λ c o v. elim (Bool-cases (c.id == m.class_id)) [
                  | inl e ↦
                      let linked : any (links c.teacher_id m.student_id) db.enrollments ≡ true =
                        ground arith in
                      let kept =
                        links-filter c.teacher_id m.student_id left db.enrollments
                          (λ e l. ground arith) linked in
                      ground arith
                  | inr e ↦ ground arith
                ])
                db.classes c)
            db.members h.covered;
    }

rename-ids :
    (k : ℕ) (name : Text) (cs : List Class)
    → map (λ c. c.id) (rename_rows k name cs) ≡ map (λ c. c.id) cs
unfolding rename_rows
rename-ids k name [] = refl
rename-ids k name (c ∷ cs) = let rest = rename-ids k name cs in ground arith

rename-All :
    (P : Class → Type 0) (k : ℕ) (name : Text) (cs : List Class)
    → ((c : Class) → P c → P (record c { name = name }))
    → All P cs
    → All P (rename_rows k name cs)
unfolding rename_rows
rename-All P k name [] keep h = tt
rename-All P k name (c ∷ cs) keep h = elim (Bool-cases (c.id == k)) [
  | inl e ↦ rw e (keep c h.0, rename-All P k name cs keep h.1)
  | inr e ↦ rw e (h.0, rename-All P k name cs keep h.1)
]

pub rename-IsRostered :
    (db : Db) (k : ℕ) (name : Text)
    → IsRostered db
    → IsRostered (record db { classes = rename_rows k name db.classes })
rename-IsRostered db k name h = record {
  distinct = subst IsDistinct (sym (rename-ids k name db.classes)) h.distinct;
  given = rename-All (λ c. c.id < db.next_id) k name db.classes (λ c l. l) h.given;
  of_given = h.of_given;
  covered =
      All-imp (IsCovered db.classes db.enrollments)
        (IsCovered (rename_rows k name db.classes) db.enrollments)
        (λ m. rename-All (λ c. covers db.enrollments m c ≡ true) k name db.classes (λ c v. v))
        db.members h.covered;
}

-- A new account takes an id.
pub next_id-IsRostered :
    (db : Db) (rows : List Account)
    → IsRostered db
    → IsRostered (record db { users = rows; next_id = db.next_id + 1 })
next_id-IsRostered db rows h = record {
  distinct = h.distinct;
  given =
      All-imp (λ c. c.id < db.next_id) (λ c. c.id < db.next_id + 1) (λ c l. omega arith) db.classes
        h.given;
  of_given =
      All-imp (λ m. m.class_id < db.next_id) (λ m. m.class_id < db.next_id + 1) (λ m l. omega arith)
        db.members h.of_given;
  covered = h.covered;
}

new_id-mem : (n : ℕ) (cs : List Class) → All (λ c. c.id < n) cs → mem n (map (λ c. c.id) cs) ≡ false
new_id-mem n [] h = refl
new_id-mem n (c ∷ cs) h = let rest = new_id-mem n cs h.1 in ground (arith, h.0)

map_ids-snoc :
    (c : Class) (cs : List Class) → map (λ c. c.id) (cs ++ c ∷ []) ≡ map (λ c. c.id) cs ++ c.id ∷ []
map_ids-snoc c [] = refl
map_ids-snoc c (d ∷ cs) = ap (λ r. d.id ∷ r) (map_ids-snoc c cs)

pub create_class-IsRostered :
    (db : Db) (t : ℕ) (name : Text) → IsRostered db → IsRostered (create_class db t name).1
unfolding create_class
create_class-IsRostered db t name h =
    let new : Class = record { id = db.next_id; teacher_id = t; name = name } in
    record {
      distinct = subst IsDistinct (sym (map_ids-snoc new db.classes)) (
          IsDistinct-snoc db.next_id (map (λ c. c.id) db.classes) h.distinct
            (new_id-mem db.next_id db.classes h.given));
      given =
          All-append (λ c. c.id < db.next_id + 1) db.classes (new ∷ [])
            (All-imp (λ c. c.id < db.next_id) (λ c. c.id < db.next_id + 1) (λ c l. omega arith)
              db.classes h.given)
            (omega arith, tt);
      of_given =
          All-imp (λ m. m.class_id < db.next_id) (λ m. m.class_id < db.next_id + 1)
            (λ m l. omega arith) db.members h.of_given;
      covered =
          All-imp (λ m. (m.class_id < db.next_id) × IsCovered db.classes db.enrollments m)
            (IsCovered (db.classes ++ new ∷ []) db.enrollments)
            (λ m both.
              All-append (λ c. covers db.enrollments m c ≡ true) db.classes (new ∷ []) both.1
                (let below = both.0 in ground arith, tt))
            db.members
            (All-and (λ m. m.class_id < db.next_id) (IsCovered db.classes db.enrollments) db.members
              h.of_given h.covered);
    }

-- The enrollment and the membership may be inserted in either order.
add_member-order :
    (db : Db) (class t k : ℕ)
    → add_class_member db class t k ≡ insert_member (create_enrollment db t k) class k
unfolding add_class_member create_enrollment is_teacher_of
add_member-order db class t k = elim (Bool-cases (any (links t k) db.enrollments)) [
  | inl e ↦ elim (Bool-cases (any (is_member_of class k) db.members)) [
    | inl f ↦ ground arith
    | inr f ↦ ground arith
  ]
  | inr e ↦ elim (Bool-cases (any (is_member_of class k) db.members)) [
    | inl f ↦ ground arith
    | inr f ↦ ground arith
  ]
]

insert_member-IsRostered :
    (db : Db) (class k : ℕ)
    → IsRostered db
    → class < db.next_id
    → IsCovered db.classes db.enrollments (record { class_id = class; student_id = k })
    → IsRostered (insert_member db class k)
insert_member-IsRostered db class k h below cov =
    elim (Bool-cases (any (is_member_of class k) db.members)) [
      | inl e ↦ subst IsRostered (ground arith) h
      | inr e ↦
          let new : Member = record { class_id = class; student_id = k } in
          let after : Db = record db { members = db.members ++ new ∷ [] } in
          let same : after ≡ insert_member db class k = ground arith in
          subst IsRostered same (record {
            distinct = h.distinct;
            given = h.given;
            of_given =
                All-append (λ m. m.class_id < db.next_id) db.members (new ∷ []) h.of_given
                  (below, tt);
            covered =
                All-append (IsCovered db.classes db.enrollments) db.members (new ∷ []) h.covered
                  (cov, tt);
          })
    ]

other_ids :
    (es : List Enrollment) (k : ℕ) (m : Member) (cs : List Class)
    → m.class_id ≡ k
    → mem k (map (λ c. c.id) cs) ≡ false
    → IsCovered cs es m
other_ids es k m [] e h = tt
other_ids es k m (c ∷ cs) e h = (ground arith, other_ids es k m cs e (ground arith))

-- A new member of the teacher's own class is covered by an enrollment with the teacher.
owned :
    (es : List Enrollment) (m : Member) (cs : List Class) (c : Class)
    → IsDistinct (map (λ c. c.id) cs)
    → find (λ d. d.id == m.class_id) cs ≡ some c
    → any (links c.teacher_id m.student_id) es ≡ true
    → IsCovered cs es m
owned es m [] c d h l = tt
owned es m (x ∷ cs) c d h l = elim (Bool-cases (x.id == m.class_id)) [
  | inl e ↦
      let same : x ≡ c = ground arith in
      let linked : any (links x.teacher_id m.student_id) es ≡ true = rw same l in
      (ground arith, other_ids es x.id m cs (ground arith) d.0)
  | inr e ↦ (ground arith, owned es m cs c d.1 (ground arith) l)
]

create_enrollment-linked :
    (db : Db) (t k : ℕ) → any (links t k) (create_enrollment db t k).enrollments ≡ true
unfolding create_enrollment is_teacher_of
create_enrollment-linked db t k = elim (Bool-cases (any (links t k) db.enrollments)) [
  | inl e ↦ rw (e, All) e
  | inr e ↦
      let more =
        any-append (links t k) db.enrollments (record { teacher_id = t; student_id = k } ∷ []) in
      rw (e, All) (ground arith)
]

pub create_enrollment-classes :
    (db : Db) (t k : ℕ)
    → ((create_enrollment db t k).classes ≡ db.classes)
      × ((create_enrollment db t k).next_id ≡ db.next_id)
unfolding create_enrollment
create_enrollment-classes db t k = ground arith

find-id : (k : ℕ) (cs : List Class) (c : Class) → find (λ d. d.id == k) cs ≡ some c → c.id ≡ k
find-id k [] c h = cc
find-id k (x ∷ cs) c h = elim (Bool-cases (x.id == k)) [
  | inl e ↦ let same : x ≡ c = ground arith in ground arith
  | inr e ↦ find-id k cs c (ground arith)
]

pub add_class_member-IsRostered :
    (db : Db) (class t k : ℕ) (c : Class)
    → IsRostered db
    → get_class db class ≡ some c
    → c.teacher_id ≡ t
    → IsRostered (add_class_member db class t k)
unfolding get_class
add_class_member-IsRostered db class t k c h found own =
    let e = create_enrollment db t k in
    let r = create_enrollment-IsRostered db t k h in
    let (classes, next) = create_enrollment-classes db t k in
    let found' : find (λ d. d.id == class) e.classes ≡ some c = rw classes found in
    let below : class < e.next_id =
      let b = All-find (λ c. c.id < e.next_id) (λ d. d.id == class) e.classes c found' r.given in
      let id = find-id class e.classes c found' in ground arith in
    let new : Member = record { class_id = class; student_id = k } in
    subst IsRostered (sym (add_member-order db class t k)) (
      insert_member-IsRostered e class k r below (
        owned e.enrollments new e.classes c r.distinct found' (
          subst (λ i. any (links i k) e.enrollments ≡ true) (sym own)
            (create_enrollment-linked db t k))))
