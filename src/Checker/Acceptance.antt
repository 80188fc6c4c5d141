-- ===== src/Checker/Acceptance.antt =====
-- A valid schema accepts the answer that it lists.
use mathlib.Core.List.{append-nil}
use egeism.Base.{ℕ, ◌≡◌, ◌≢◌, refl, sym, ap, inl, true, false, none, some, [], ◌∷◌, arith}
use egeism.Base.Int.{ℤ, pos, negsuc, ltb_ℤ}
use egeism.Base.Text.{Text}
use egeism.Domain.Answer.{
  AnswerSchema, AnswerType, written, number, string, set, sequence, unknown, Float, finite,
  infinity, negative_infinity, nan, Rat, validate, is_negative,
}
use egeism.Checker.Normalize.{Std, normalize_number, correct_tokens}
use egeism.Checker.Compare.{contains, distance, rat_le, tolerance_rat, check_as, check}
use egeism.Checker.Numbers.{within_iff, check_number_iff}
use egeism.Checker.Strings.{check_string_iff}
use egeism.Checker.Sets.{check_set_iff, check_sequence_iff}

within_self :
    (a : Rat) (n : ℤ) (d : ℕ)
    → ltb_ℤ n (pos 0) ≡ false
    → rat_le (distance a a) (record { num = n; den = d }) ≡ true
within_self a (pos m) d h = (within_iff a a m d).1 (omega arith, omega arith)
within_self a (negsuc m) d h = ground arith

-- A number is within any tolerance that is not negative of itself.
distance_self :
    (a : Rat) (f : Float) → is_negative f ≡ false → rat_le (distance a a) (tolerance_rat f) ≡ true
unfolding tolerance_rat
distance_self a (finite q) h = within_self a q.num q.den h
distance_self a infinity h = (within_iff a a 0 1).1 (omega arith, omega arith)
distance_self a negative_infinity h = cc
distance_self a nan h = (within_iff a a 0 1).1 (omega arith, omega arith)

abbrev pub Reads : Std → AnswerType → Text → Type 0
Reads std number c = (q : Rat) × (normalize_number std c ≡ some q)
Reads std _ c = Unit

accepts_as :
    (std : Std) (type : AnswerType) (s : AnswerSchema) (c : Text)
    → s.type ≡ type
    → validate s ≡ none
    → s.correct ≡ c ∷ []
    → type ≢ written
    → Reads std type c
    → check_as std type s c ≡ true
unfolding check_as validate correct_tokens
accepts_as std number s c t v e w (q, p) =
    (check_number_iff std s c).1
      (q, p, rw e (inl (q, p, distance_self q s.tolerance (ground arith))))
accepts_as std string s c t v e w r = (check_string_iff std s c).1 (rw e (inl refl))
accepts_as std set s c t v e w r =
    (check_set_iff std s c).1 (λ u. rw (e, correct_tokens) (ap (contains u) (sym (append-nil _))))
accepts_as std sequence s c t v e w r =
    (check_sequence_iff std s c).1 (rw (e, correct_tokens) (sym (append-nil _)))
accepts_as std written s c t v e w r = absurd (w refl)
accepts_as std (unknown k) s c t v e w r = ground arith

-- A schema that passes validation and is not for a written solution accepts its listed answer,
-- typed as it is listed; for a number the listed answer has to read as one.
pub check_accepts_listed :
    (std : Std) (s : AnswerSchema) (c : Text)
    → validate s ≡ none
    → s.correct ≡ c ∷ []
    → s.type ≢ written
    → Reads std s.type c
    → check std s c ≡ true
unfolding check
check_accepts_listed std s c v e w r = accepts_as std s.type s c refl v e w r
