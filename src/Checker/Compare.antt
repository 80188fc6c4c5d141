-- ===== src/Checker/Compare.antt =====
-- internal/checker/checker.go. A `map[string]bool` used as a set is a list without repetitions.
use egeism.Base.{
  ◌*◌, ◌==◌, Bool, true, false, not, ◌||◌, none, some, List, [], ◌∷◌, length, if◌then◌else◌,
}
use egeism.Base.Int.{pos, scale, ◌-ℤ◌, abs, ltb_ℤ}
use egeism.Base.Text.{Text, text_eq}
use egeism.Domain.Answer.{
  AnswerSchema, AnswerType, number, string, set, sequence, Rat, Float, finite, token_or_default,
}
use egeism.Checker.Normalize.{Std, normalize_number, normalize_string, tokenize, correct_tokens}

-- `new(big.Rat)`.
abbrev pub zero_rat : Rat
zero_rat = record { num = pos 0; den = 1 }

-- Rat.SetFloat64, with the exact tolerance zero where it gives nil.
unfoldable pub tolerance_rat : Float → Rat
tolerance_rat (finite q) = q
tolerance_rat _ = zero_rat

-- |a - b|, not reduced: only its value is compared.
unfoldable pub distance : Rat → Rat → Rat
unfolding ◌-ℤ◌
distance a b = record {
  num = pos (abs (scale a.num b.den -ℤ scale b.num a.den));
  den = a.den * b.den;
}

-- a.Cmp(b) <= 0.
unfoldable pub rat_le : Rat → Rat → Bool
rat_le a b = not (ltb_ℤ (scale b.num a.den) (scale a.num b.den))

unfoldable pub matches_number : Std → Rat → Rat → List Text → Bool
matches_number std got tol [] = false
matches_number std got tol (c ∷ cs) = elim (normalize_number std c) [
  | none ↦ matches_number std got tol cs
  | some want ↦ if rat_le (distance got want) tol then true else matches_number std got tol cs
]

unfoldable pub check_number : Std → AnswerSchema → Text → Bool
check_number std s raw = elim (normalize_number std raw) [
  | none ↦ false
  | some got ↦ matches_number std got (tolerance_rat s.tolerance) s.correct
]

unfoldable pub matches_string : Std → Bool → Bool → Text → List Text → Bool
matches_string std ci yo got [] = false
matches_string std ci yo got (c ∷ cs) =
    if text_eq (normalize_string std c ci yo) got then true else matches_string std ci yo got cs

unfoldable pub check_string : Std → AnswerSchema → Text → Bool
unfolding matches_string
check_string std s raw =
    matches_string std s.ci s.yo_fold (normalize_string std raw s.ci s.yo_fold) s.correct

abbrev pub contains : Text → List Text → Bool
contains t [] = false
contains t (u ∷ us) = text_eq t u || contains t us

-- set[t] = true.
unfoldable pub add_token : List Text → Text → List Text
add_token s t = if contains t s then s else t ∷ s

unfoldable pub to_set_from : List Text → List Text → List Text
to_set_from acc [] = acc
to_set_from acc (t ∷ ts) = to_set_from (add_token acc t) ts

unfoldable pub to_set : List Text → List Text
unfolding to_set_from add_token
to_set ts = to_set_from [] ts

-- The range over `want` that looks each token up in `got`.
abbrev pub all_in : List Text → List Text → Bool
all_in [] got = true
all_in (t ∷ ts) got = if contains t got then all_in ts got else false

unfoldable pub same_set : List Text → List Text → Bool
same_set got want = if length got == length want then all_in want got else false

unfoldable pub check_set : Std → AnswerSchema → Text → Bool
check_set std s raw =
    let mode = token_or_default s.token in
    same_set (to_set (tokenize std raw mode)) (to_set (correct_tokens std s.correct mode))

-- The loop over the indices of `want`, which has the length of `got`.
unfoldable pub same_at_each_index : List Text → List Text → Bool
same_at_each_index got [] = true
same_at_each_index [] (w ∷ ws) = false
same_at_each_index (g ∷ gs) (w ∷ ws) = if text_eq g w then same_at_each_index gs ws else false

unfoldable pub same_sequence : List Text → List Text → Bool
same_sequence got want = if length got == length want then same_at_each_index got want else false

unfoldable pub check_sequence : Std → AnswerSchema → Text → Bool
check_sequence std s raw =
    let mode = token_or_default s.token in
    same_sequence (tokenize std raw mode) (correct_tokens std s.correct mode)

unfoldable pub check_as : Std → AnswerType → AnswerSchema → Text → Bool
check_as std number s raw = check_number std s raw
check_as std string s raw = check_string std s raw
check_as std set s raw = check_set std s raw
check_as std sequence s raw = check_sequence std s raw
check_as std _ s raw = false

unfoldable pub check : Std → AnswerSchema → Text → Bool
unfolding check_as
check std s raw = check_as std s.type s raw
