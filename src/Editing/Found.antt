-- ===== src/Editing/Found.antt =====
-- Tests found by their id, in the tables that an edit changes.
use egeism.Base.{
  sym, ℕ, ◌≡◌, refl, ◌==◌, Bool, false, not, Option, none, some, List, [], ◌∷◌, ◌++◌, map, find,
  filter, Bool-cases, Option-cases, inl, inr, arith,
}
use egeism.Base.Text.{Text}
use egeism.Attempts.Tables.{Test, Db, get_test}
use egeism.Solve.Handlers.{sent, User, People, test_in_scope}
use egeism.Accounts.Replies.{Reply-cases}
use egeism.Editing.Tests.{owned_test, with_title, is_clone_of, without_source}

abbrev pub by_id : ℕ → Test → Bool
by_id k t = t.id == k

pub find-append :
    (k : ℕ) (ts more : List Test) (t : Test)
    → find (by_id k) ts ≡ some t
    → find (by_id k) (ts ++ more) ≡ some t
find-append k [] more t h = absurd (ground arith)
find-append k (x ∷ ts) more t h = elim (Bool-cases (x.id == k)) [
  | inl e ↦ ground arith
  | inr e ↦ let rest = find-append k ts more t (ground arith) in ground arith
]

find-without :
    (k j : ℕ) (ts : List Test)
    → (j == k) ≡ false
    → find (by_id j) (filter (λ t. not (t.id == k)) ts) ≡ find (by_id j) ts
find-without k j [] ne = refl
find-without k j (x ∷ ts) ne =
    let rest = find-without k j ts ne in
    elim (Bool-cases (x.id == k)) [
      | inl e ↦ ground arith
      | inr e ↦ elim (Bool-cases (x.id == j)) [ inl f ↦ ground arith | inr f ↦ ground arith ]
    ]

-- What a change of the rows does to the one that was found.
abbrev pub mapped : (Test → Test) → Option Test → Option Test
mapped f none = none
mapped f (some t) = some (f t)

abbrev pub KeepsId : (Test → Test) → Type 0
KeepsId f = (t : Test) → (f t).id ≡ t.id

abbrev pub KeepsSubject : (Test → Test) → Type 0
KeepsSubject f = (t : Test) → (f t).subject_id ≡ t.subject_id

pub with_title-id : (k : ℕ) (title : Text) → KeepsId (with_title k title)
with_title-id k title t = elim (Bool-cases (t.id == k)) [
  | inl e ↦ ground arith
  | inr e ↦ ground arith
]

pub with_title-subject : (k : ℕ) (title : Text) → KeepsSubject (with_title k title)
with_title-subject k title t = elim (Bool-cases (t.id == k)) [
  | inl e ↦ ground arith
  | inr e ↦ ground arith
]

without_source-id : (k : ℕ) → KeepsId (without_source k)
without_source-id k t = elim (Bool-cases (is_clone_of k t.variant_of)) [
  | inl e ↦ ground arith
  | inr e ↦ ground arith
]

pub without_source-subject : (k : ℕ) → KeepsSubject (without_source k)
without_source-subject k t = elim (Bool-cases (is_clone_of k t.variant_of)) [
  | inl e ↦ ground arith
  | inr e ↦ ground arith
]

pub find-map :
    (f : Test → Test) (j : ℕ) (ts : List Test)
    → KeepsId f
    → find (by_id j) (map f ts) ≡ mapped f (find (by_id j) ts)
find-map f j [] keep = refl
find-map f j (x ∷ ts) keep =
    let rest = find-map f j ts keep in
    let same = keep x in
    elim (Bool-cases (x.id == j)) [ inl e ↦ ground arith | inr e ↦ ground arith ]

-- The tests that are left when one is removed.
abbrev pub others : ℕ → List Test → List Test
others k ts = map (without_source k) (filter (λ t. not (t.id == k)) ts)

pub find-others :
    (k j : ℕ) (ts : List Test)
    → (j == k) ≡ false
    → find (by_id j) (others k ts) ≡ mapped (without_source k) (find (by_id j) ts)
find-others k j ts ne =
    rw (sym (find-without k j ts ne))
      (find-map (without_source k) j (filter (λ t. not (t.id == k)) ts) (without_source-id k))

-- The guard of a request on a test.
pub owned_test-found :
    (people : People) (db : Db) (user : User) (path : Option ℕ) (test : Test)
    → owned_test people db user path ≡ sent test
    → (k : ℕ) × (get_test db k ≡ some test) × (test.created_by ≡ user.id)
unfolding owned_test
owned_test-found people db user none test h = absurd (ground arith)
owned_test-found people db user (some k) test h =
    elim (Reply-cases (test_in_scope people db user k user.subject)) [
      | inl (c, e) ↦ absurd (ground arith)
      | inr (x, e) ↦ elim (Option-cases (get_test db k)) [
        | inl f ↦ absurd (ground arith)
        | inr (t, f) ↦ (k, ground arith, ground arith)
      ]
    ]

pub find-id : (k : ℕ) (ts : List Test) (t : Test) → find (by_id k) ts ≡ some t → t.id ≡ k
find-id k [] t h = cc
find-id k (x ∷ ts) t h = elim (Bool-cases (x.id == k)) [
  | inl e ↦ let same : x ≡ t = ground arith in ground arith
  | inr e ↦ find-id k ts t (ground arith)
]
