-- ===== src/Accounts/Rows.antt =====
-- The first row with an id, when it is replaced or removed.
use egeism.Base.{
  ℕ, ◌+◌, ◌≡◌, refl, sym, ◌==◌, All, Bool, true, some, List, [], ◌∷◌, find, count, if◌then◌else◌,
  Bool-cases, Option-cases, inl, inr, arith,
}
use egeism.Accounts.Tables.{Account, Db, get_user, set_user, replace, remove}

-- The edit leaves the id as it is.
abbrev pub KeepsId : (Account → Account) → Type 0
KeepsId f = (a : Account) → (f a).id ≡ a.id

pub find-replace :
    (k : ℕ) (f : Account → Account) (rows : List Account) (a : Account)
    → KeepsId f
    → find (λ x. x.id == k) rows ≡ some a
    → find (λ x. x.id == k) (replace k f rows) ≡ some (f a)
unfolding replace
find-replace k f [] a keep h = cc
find-replace k f (x ∷ rows) a keep h = elim (Bool-cases (x.id == k)) [
  | inl e ↦ let same : ((f x).id == k) ≡ true = rw (keep x) e in ground arith
  | inr e ↦ ground (arith, find-replace k f rows a keep)
]

pub remove-replace :
    (k : ℕ) (f : Account → Account) (rows : List Account)
    → KeepsId f
    → remove k (replace k f rows) ≡ remove k rows
unfolding replace remove
remove-replace k f [] keep = refl
remove-replace k f (x ∷ rows) keep = elim (Bool-cases (x.id == k)) [
  | inl e ↦ let same : ((f x).id == k) ≡ true = rw (keep x) e in ground arith
  | inr e ↦ ground (arith, remove-replace k f rows keep)
]

-- A count of the rows, with the row of the id apart.
pub count-remove :
    (p : Account → Bool) (k : ℕ) (rows : List Account) (a : Account)
    → find (λ x. x.id == k) rows ≡ some a
    → count p rows ≡ (if p a then 1 else 0) + count p (remove k rows)
unfolding remove
count-remove p k [] a h = cc
count-remove p k (x ∷ rows) a h = elim (Bool-cases (x.id == k)) [
  | inl e ↦ let same : x ≡ a = ground arith in rw (sym same, e, All) (ground arith)
  | inr e ↦
      let found : find (λ y. y.id == k) rows ≡ some a = ground arith in
      let rest = count-remove p k rows a found in rw e (ground arith)
]

pub count-replace :
    (p : Account → Bool) (k : ℕ) (f : Account → Account) (rows : List Account)
    → ((a : Account) → p (f a) ≡ p a)
    → count p (replace k f rows) ≡ count p rows
unfolding replace
count-replace p k f [] same = refl
count-replace p k f (x ∷ rows) same = elim (Bool-cases (x.id == k)) [
  | inl e ↦ rw (e, same x) refl
  | inr e ↦ let rest = count-replace p k f rows same in ground arith
]

pub set_user-after :
    (db after : Db) (k : ℕ) (f : Account → Account) (user : Account)
    → set_user db k f ≡ some (user, after)
    → (a : Account) × (get_user db k ≡ some a)
      × (user ≡ f a)
      × (after ≡ record db { users = replace k f db.users })
unfolding set_user
set_user-after db after k f user h = elim (Option-cases (get_user db k)) [
  | inl e ↦ absurd (ground arith)
  | inr (a, e) ↦ (a, e, ground arith, ground arith)
]
