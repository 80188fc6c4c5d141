-- ===== src/Accounts/Membership.antt =====
-- Members of classes and the enrollments: the operations of the store, one by one.
use egeism.Base.{
  ℕ, ◌<◌, ◌≡◌, refl, sym, ◌==◌, Bool, true, false, not, ◌&&◌, ◌||◌, some, List, [], ◌∷◌, ◌++◌, map,
  filter, find, any, mem, All, All-imp, IsDistinct, Bool-cases, inl, inr, arith,
}
use egeism.Accounts.Tables.{Enrollment, Class, Member, Db, is_teacher_of}
use egeism.Accounts.Rosters.{create_enrollment}

-- Does the enrollment link the two?
abbrev pub links : ℕ → ℕ → Enrollment → Bool
links t k e = (e.teacher_id == t) && (e.student_id == k)

-- If the member is of this class, its teacher teaches the member.
abbrev pub covers : List Enrollment → Member → Class → Bool
covers enrollments m c =
    not (c.id == m.class_id) || any (links c.teacher_id m.student_id) enrollments

abbrev pub IsCovered : List Class → List Enrollment → Member → Type 0
IsCovered classes enrollments m = All (λ c. covers enrollments m c ≡ true) classes

-- Each member of a class is enrolled with the teacher of the class; the ids of the classes are
-- distinct and were given.
pub record IsRostered (db : Db) : Type 0 where
  pub distinct : IsDistinct (map (λ c. c.id) db.classes)
  pub given : All (λ c. c.id < db.next_id) db.classes
  pub of_given : All (λ m. m.class_id < db.next_id) db.members
  pub covered : All (IsCovered db.classes db.enrollments) db.members

module _ {ℓ} {A : Type ℓ} where
  pub All-filter {κ} :
      (P : A → Type κ) (p : A → Bool) (xs : List A) → All P xs → All P (filter p xs)
  All-filter P p [] h = tt
  All-filter P p (x ∷ xs) h = elim (Bool-cases (p x)) [
    | inl e ↦ rw e (h.0, All-filter P p xs h.1)
    | inr e ↦ rw e (All-filter P p xs h.1)
  ]

  -- What the filter lets through has its property.
  pub All-filter_with {κ μ} :
      (P : A → Type κ) (Q : A → Type μ) (p : A → Bool)
      → ((a : A) → p a ≡ true → P a → Q a)
      → (xs : List A) → All P xs
      → All Q (filter p xs)
  All-filter_with P Q p f [] h = tt
  All-filter_with P Q p f (x ∷ xs) h = elim (Bool-cases (p x)) [
    | inl e ↦ rw e (f x e h.0, All-filter_with P Q p f xs h.1)
    | inr e ↦ rw e (All-filter_with P Q p f xs h.1)
  ]

  pub any-append : (p : A → Bool) (xs ys : List A) → any p (xs ++ ys) ≡ (any p xs || any p ys)
  any-append p [] ys = refl
  any-append p (x ∷ xs) ys = ground (arith, any-append p xs ys)

  pub All-find {κ} :
      (P : A → Type κ) (p : A → Bool) (xs : List A) (a : A) → find p xs ≡ some a → All P xs → P a
  All-find P p [] a h all = cc
  All-find P p (x ∷ xs) a h all = elim (Bool-cases (p x)) [
    | inl e ↦ let same : x ≡ a = ground arith in rw (sym same) all.0
    | inr e ↦ All-find P p xs a (ground arith) all.1
  ]

module _ {ℓ κ μ} {A : Type ℓ} where
  pub All-and :
      (P : A → Type κ) (Q : A → Type μ) (xs : List A)
      → All P xs
      → All Q xs
      → All (λ a. P a × Q a) xs
  All-and P Q [] h k = tt
  All-and P Q (x ∷ xs) h k = ((h.0, k.0), All-and P Q xs h.1 k.1)

mem-filter_ids :
    (k : ℕ) (p : Class → Bool) (cs : List Class)
    → mem k (map (λ c. c.id) cs) ≡ false
    → mem k (map (λ c. c.id) (filter p cs)) ≡ false
mem-filter_ids k p [] h = refl
mem-filter_ids k p (c ∷ cs) h =
    let rest = mem-filter_ids k p cs (ground arith) in
    elim (Bool-cases (p c)) [ inl e ↦ rw e (ground arith) | inr e ↦ rw e rest ]

pub IsDistinct-filter :
    (p : Class → Bool) (cs : List Class)
    → IsDistinct (map (λ c. c.id) cs)
    → IsDistinct (map (λ c. c.id) (filter p cs))
IsDistinct-filter p [] h = tt
IsDistinct-filter p (c ∷ cs) h = elim (Bool-cases (p c)) [
  | inl e ↦ rw e (mem-filter_ids c.id p cs h.0, IsDistinct-filter p cs h.1)
  | inr e ↦ rw e (IsDistinct-filter p cs h.1)
]

-- An enrollment that a filter lets through is still there.
pub links-filter :
    (t k : ℕ) (p : Enrollment → Bool) (es : List Enrollment)
    → ((e : Enrollment) → links t k e ≡ true → p e ≡ true)
    → any (links t k) es ≡ true
    → any (links t k) (filter p es) ≡ true
links-filter t k p [] keep h = h
links-filter t k p (e ∷ es) keep h = elim (Bool-cases (links t k e)) [
  | inl l ↦ let stays = keep e l in rw stays (ground arith)
  | inr l ↦
      let rest = links-filter t k p es keep (ground arith) in
      elim (Bool-cases (p e)) [ inl s ↦ rw s (ground arith) | inr s ↦ rw s rest ]
]

-- More enrollments cover what fewer did.
covers-append :
    (es fs : List Enrollment) (m : Member) (c : Class)
    → covers es m c ≡ true
    → covers (es ++ fs) m c ≡ true
covers-append es fs m c h =
    let more = any-append (links c.teacher_id m.student_id) es fs in ground arith

pub create_enrollment-IsRostered :
    (db : Db) (t k : ℕ) → IsRostered db → IsRostered (create_enrollment db t k)
unfolding create_enrollment is_teacher_of
create_enrollment-IsRostered db t k h = elim (Bool-cases (any (links t k) db.enrollments)) [
  | inl e ↦ rw (e, All) h
  | inr e ↦
      let new : List Enrollment = record { teacher_id = t; student_id = k } ∷ [] in
      rw (e, All)
        (record {
          distinct = h.distinct;
          given = h.given;
          of_given = h.of_given;
          covered =
              All-imp (IsCovered db.classes db.enrollments)
                (IsCovered db.classes (db.enrollments ++ new))
                (λ m.
                  All-imp (λ c. covers db.enrollments m c ≡ true)
                    (λ c. covers (db.enrollments ++ new) m c ≡ true)
                    (λ c. covers-append db.enrollments new m c) db.classes)
                db.members h.covered;
        })
]
