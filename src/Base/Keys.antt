-- ===== src/Base/Keys.antt =====
-- Lists of numeric keys: membership as a test, and lists with no key twice.
use Prim.Native.Nat.{ℕ, ◌+◌, ◌≤◌}
use mathlib.Core.Path.{◌≡◌, refl}
use mathlib.Core.Bool.{Bool, true, false, ◌||◌}
use mathlib.Core.List.{List, [], ◌∷◌, ◌++◌}
use native.Mathlib.Omega.{arith}
use egeism.Base.Tests.{◌==◌, ==_refl, if◌then◌else◌}

-- Is the key among the keys?
abbrev pub mem : ℕ → List ℕ → Bool
mem k [] = false
mem k (j ∷ js) = (k == j) || mem k js

-- How often the key occurs.
abbrev pub occurrences : ℕ → List ℕ → ℕ
occurrences k [] = 0
occurrences k (j ∷ js) = (if k == j then 1 else 0) + occurrences k js

abbrev pub IsDistinct : List ℕ → Type 0
IsDistinct [] = Unit
IsDistinct (k ∷ ks) = (mem k ks ≡ false) × IsDistinct ks

pub mem-append : (k : ℕ) (xs ys : List ℕ) → mem k (xs ++ ys) ≡ (mem k xs || mem k ys)
mem-append k [] ys = refl
mem-append k (x ∷ xs) ys = ground (arith, mem-append k xs ys)

pub occurrences-append :
    (k : ℕ) (xs ys : List ℕ) → occurrences k (xs ++ ys) ≡ occurrences k xs + occurrences k ys
occurrences-append k [] ys = omega arith
occurrences-append k (x ∷ xs) ys = omega (arith, occurrences-append k xs ys)

pub occurrences_absent : (k : ℕ) (ks : List ℕ) → mem k ks ≡ false → occurrences k ks ≡ 0
occurrences_absent k [] h = refl
occurrences_absent k (j ∷ js) h = ground (arith, occurrences_absent k js)

-- No key occurs twice in a list of distinct keys.
pub IsDistinct-occurrences : (k : ℕ) (ks : List ℕ) → IsDistinct ks → occurrences k ks ≤ 1
IsDistinct-occurrences k [] h = omega arith
IsDistinct-occurrences k (j ∷ js) h =
    ground (arith, occurrences_absent k js, IsDistinct-occurrences k js h.1)

-- A new key at the end keeps the keys distinct.
pub IsDistinct-snoc :
    (k : ℕ) (ks : List ℕ) → IsDistinct ks → mem k ks ≡ false → IsDistinct (ks ++ k ∷ [])
IsDistinct-snoc k [] h m = (refl, tt)
IsDistinct-snoc k (j ∷ js) h m = ground (arith, mem-append j js (k ∷ []), IsDistinct-snoc k js h.1)

-- Two lists of distinct keys with none in common.
pub IsDistinct-append :
    (xs ys : List ℕ)
    → IsDistinct xs
    → IsDistinct ys
    → ((k : ℕ) → mem k xs ≡ true → mem k ys ≡ false)
    → IsDistinct (xs ++ ys)
IsDistinct-append [] ys h k apart = k
IsDistinct-append (x ∷ xs) ys h k apart = (
  ground (arith, mem-append x xs ys, apart x, ==_refl x),
  IsDistinct-append xs ys h.1 k (λ j m. apart j (ground arith)),
)
