-- ===== src/Checker/Folding.antt =====
-- Folding ё into е, and the case of words.
use mathlib.Core.List.{append-nil, map-append}
use mathlib.Core.Path.{ap₂}
use native.Mathlib.Decide.{ℕ_discrete}
use egeism.Base.{
  false, if◌then◌else◌, ℕ, ◌≡◌, ◌≢◌, refl, sym, ap, ◌∙◌, inl, inr, Bool, true, List, [], ◌∷◌, ◌++◌,
  map, Bool-cases, arith,
}
use egeism.Base.Text.{Text}
use egeism.Domain.Answer.{AnswerSchema}
use egeism.Checker.Normalize.{
  join_spaced, Std, is_space, close_field, fields_from, fields_func, fold_yo_rune, fold_yo,
  normalize_string,
}
use egeism.Checker.Compare.{matches_string, check_string}

close_field-append :
    (cur : Text) (fs gs : List Text) → close_field cur (fs ++ gs) ≡ close_field cur fs ++ gs
unfolding close_field
close_field-append [] fs gs = refl
close_field-append (c ∷ t) fs gs = refl

-- A cutting rune splits the fields of a text into those before it and those behind it.
fields_from-cut :
    (p : ℕ → Bool) (r : ℕ) (cur xs ys : Text)
    → p r ≡ true
    → fields_from p cur (xs ++ r ∷ ys) ≡ fields_from p cur xs ++ fields_from p [] ys
unfolding fields_from
fields_from-cut p r cur [] ys h = rw h (close_field-append cur [] (fields_from p [] ys))
fields_from-cut p r cur (x ∷ xs) ys h = elim (Bool-cases (p x)) [
  | inl e ↦
      rw (e, fields_from-cut p r [] xs ys h)
        (close_field-append cur (fields_from p [] xs) (fields_from p [] ys))
  | inr e ↦ rw e (fields_from-cut p r (cur ++ x ∷ []) xs ys h)
]

fields_func-cut :
    (p : ℕ → Bool) (r : ℕ) (xs ys : Text)
    → p r ≡ true
    → fields_func p (xs ++ r ∷ ys) ≡ fields_func p xs ++ fields_func p ys
unfolding fields_func
fields_func-cut p r xs ys h = fields_from-cut p r [] xs ys h

fields_func-nil : (p : ℕ → Bool) → fields_func p [] ≡ []
unfolding fields_func fields_from close_field
fields_func-nil p = refl

fields_func-head :
    (p : ℕ → Bool) (r : ℕ) (ys : Text) → p r ≡ true → fields_func p (r ∷ ys) ≡ fields_func p ys
fields_func-head p r ys h = rw (fields_func-cut p r [] ys h, fields_func-nil p)

check_string_of_fields :
    (std : Std) (s : AnswerSchema) (x y : Text)
    → fields_func is_space x ≡ fields_func is_space y
    → check_string std s x ≡ check_string std s y
unfolding check_string normalize_string
check_string_of_fields std s x y h = rw h

-- The verdict on a word or phrase is blind to spaces at either end, and to how long a run of spaces
-- inside is and which spaces it consists of.
check_string_spacing :
    (std : Std) (s : AnswerSchema) (r q t : ℕ) (xs ys : Text)
    → is_space r ≡ true
    → is_space q ≡ true
    → is_space t ≡ true
    → (check_string std s (r ∷ xs) ≡ check_string std s xs)
      × (check_string std s (xs ++ r ∷ []) ≡ check_string std s xs)
      × (check_string std s (xs ++ r ∷ q ∷ ys) ≡ check_string std s (xs ++ t ∷ ys))
check_string_spacing std s r q t xs ys hr hq ht = (
  check_string_of_fields std s (r ∷ xs) xs (fields_func-head is_space r xs hr),
  check_string_of_fields std s (xs ++ r ∷ []) xs (
      fields_func-cut is_space r xs [] hr
      ∙ ap (◌++◌ (fields_func is_space xs)) (fields_func-nil is_space)
      ∙ append-nil (fields_func is_space xs)),
  check_string_of_fields std s (xs ++ r ∷ q ∷ ys) (xs ++ t ∷ ys) (
      fields_func-cut is_space r xs (q ∷ ys) hr
      ∙ ap (◌++◌ (fields_func is_space xs)) (fields_func-head is_space q ys hq)
      ∙ sym (fields_func-cut is_space t xs ys ht)),
)

-- What Unicode says of the lower case of the four letters, and that no other letter has ё or Ё for
-- its lower case.
pub record LowersYo (std : Std) : Type 0 where
  pub small_yo : std.lower 0x451 ≡ 0x451
  pub capital_yo : std.lower 0x401 ≡ 0x451
  pub small_ie : std.lower 0x435 ≡ 0x435
  pub capital_ie : std.lower 0x415 ≡ 0x435
  pub others : (r : ℕ) → r ≢ 0x451 → r ≢ 0x401 → (std.lower r ≢ 0x451) × (std.lower r ≢ 0x401)

fold_yo-lower_rune :
    (std : Std) (r : ℕ) → LowersYo std → fold_yo_rune (std.lower r) ≡ std.lower (fold_yo_rune r)
unfolding fold_yo_rune
fold_yo-lower_rune std r l = elim (ℕ_discrete r 0x451) [
  | yes e ↦ ground (arith, l.small_yo, l.small_ie, ap std.lower e)
  | no small ↦ elim (ℕ_discrete r 0x401) [
    | yes e ↦ ground (arith, l.capital_yo, l.capital_ie, ap std.lower e)
    | no capital ↦ let o = l.others r small capital in ground arith
  ]
]

-- Folding ё into е commutes with lowering the case, so their order in the code does not matter.
fold_yo_lower :
    (std : Std) (s : Text) → LowersYo std → fold_yo (map std.lower s) ≡ map std.lower (fold_yo s)
unfolding fold_yo
fold_yo_lower std [] l = refl
fold_yo_lower std (r ∷ s) l = ap₂ ◌∷◌ (fold_yo-lower_rune std r l) (fold_yo_lower std s l)

-- What Unicode says of lower case: it is idempotent and neither makes nor takes away a space.
pub record LowersOnce (std : Std) : Type 0 where
  pub twice : (r : ℕ) → std.lower (std.lower r) ≡ std.lower r
  pub spaces : (r : ℕ) → is_space (std.lower r) ≡ is_space r
  pub blank : std.lower 0x20 ≡ 0x20

-- A change of runes that keeps the spaces changes the fields rune by rune.
close_field-map :
    (f : ℕ → ℕ) (cur : Text) (fs : List Text)
    → close_field (map f cur) (map (map f) fs) ≡ map (map f) (close_field cur fs)
unfolding close_field
close_field-map f [] fs = refl
close_field-map f (c ∷ t) fs = refl

fields_from-map :
    (f : ℕ → ℕ) (cur xs : Text)
    → ((r : ℕ) → is_space (f r) ≡ is_space r)
    → fields_from is_space (map f cur) (map f xs) ≡ map (map f) (fields_from is_space cur xs)
unfolding fields_from
fields_from-map f cur [] keep = close_field-map f cur []
fields_from-map f cur (x ∷ xs) keep =
    let cut = fields_from-map f [] xs keep in
    let longer = fields_from-map f (cur ++ x ∷ []) xs keep in
    elim (Bool-cases (is_space x)) [
      | inl e ↦
          rw (keep x, e)
            (ap (close_field (map f cur)) cut ∙ close_field-map f cur (fields_from is_space [] xs))
      | inr e ↦
          rw (keep x, e)
            (ap (λ c. fields_from is_space c (map f xs)) (sym (map-append f cur (x ∷ []))) ∙ longer)
    ]

join_spaced-map :
    (f : ℕ → ℕ) (fs : List Text)
    → f 0x20 ≡ 0x20
    → join_spaced (map (map f) fs) ≡ map f (join_spaced fs)
unfolding join_spaced
join_spaced-map f [] blank = refl
join_spaced-map f (g ∷ []) blank = refl
join_spaced-map f (g ∷ h ∷ fs) blank =
    let rest = join_spaced-map f (h ∷ fs) blank in
    rw rest (rw (map-append f g (0x20 ∷ join_spaced (h ∷ fs))) (rw blank refl))

joined-map :
    (f : ℕ → ℕ) (s : Text)
    → ((r : ℕ) → is_space (f r) ≡ is_space r)
    → f 0x20 ≡ 0x20
    → join_spaced (fields_func is_space (map f s)) ≡ map f (join_spaced (fields_func is_space s))
unfolding fields_func
joined-map f s keep blank =
    ap join_spaced (fields_from-map f [] s keep)
    ∙ join_spaced-map f (fields_from is_space [] s) blank

map-twice : (f : ℕ → ℕ) (s : Text) → ((r : ℕ) → f (f r) ≡ f r) → map f (map f s) ≡ map f s
map-twice f [] twice = refl
map-twice f (r ∷ s) twice = ap₂ ◌∷◌ (twice r) (map-twice f s twice)

fold_yo_rune-twice : (r : ℕ) → fold_yo_rune (fold_yo_rune r) ≡ fold_yo_rune r
unfolding fold_yo_rune
fold_yo_rune-twice r = ground arith

fold_yo_rune-space : (r : ℕ) → is_space (fold_yo_rune r) ≡ is_space r
unfolding fold_yo_rune is_space
fold_yo_rune-space r = ground arith

normalize_string-lower :
    (std : Std) (s : Text) (yo : Bool)
    → LowersOnce std
    → normalize_string std (map std.lower s) true yo ≡ normalize_string std s true yo
unfolding normalize_string
normalize_string-lower std s yo l =
    ap (λ t. if yo then fold_yo t else t)
      (ap (map std.lower) (joined-map std.lower s l.spaces l.blank)
        ∙ map-twice std.lower (join_spaced (fields_func is_space s)) l.twice)

-- Folding twice is folding once, also with the case lowered in between.
folded_twice :
    (std : Std) (ci : Bool) (t : Text)
    → LowersYo std
    → fold_yo (if ci then map std.lower (fold_yo t) else fold_yo t)
      ≡ fold_yo (if ci then map std.lower t else t)
unfolding fold_yo
folded_twice std true t l =
    ap (map fold_yo_rune) (sym (fold_yo_lower std t l))
    ∙ map-twice fold_yo_rune (map std.lower t) fold_yo_rune-twice
folded_twice std false t l = map-twice fold_yo_rune t fold_yo_rune-twice

joined-fold :
    (s : Text)
    → join_spaced (fields_func is_space (fold_yo s))
      ≡ fold_yo (join_spaced (fields_func is_space s))
unfolding fold_yo fold_yo_rune
joined-fold s = joined-map fold_yo_rune s fold_yo_rune-space refl

normalize_string-yo :
    (std : Std) (s : Text) (ci : Bool)
    → LowersYo std
    → normalize_string std (fold_yo s) ci true ≡ normalize_string std s ci true
unfolding normalize_string
normalize_string-yo std s ci l =
    ap (λ t. fold_yo (if ci then map std.lower t else t)) (joined-fold s)
    ∙ folded_twice std ci (join_spaced (fields_func is_space s)) l

-- Where a schema ignores case, an answer and the same in lower case have the same verdict; where it
-- takes ё for е, so have an answer and the same with е for each ё. This is so if lower case is
-- idempotent, keeps the spaces, and has ё for Ё and no other letter.
pub check_string_folds :
    (std : Std) (s : AnswerSchema) (raw : Text)
    → LowersOnce std
    → LowersYo std
    → (check_string std (record s { ci = true }) (map std.lower raw)
        ≡ check_string std (record s { ci = true }) raw)
      × (check_string std (record s { yo_fold = true }) (fold_yo raw)
          ≡ check_string std (record s { yo_fold = true }) raw)
unfolding check_string
check_string_folds std s raw once yo = (
  ap (λ t. matches_string std true s.yo_fold t s.correct)
      (normalize_string-lower std raw s.yo_fold once),
  ap (λ t. matches_string std s.ci true t s.correct) (normalize_string-yo std raw s.ci yo),
)
