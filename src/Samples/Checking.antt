-- ===== src/Samples/Checking.antt =====
-- The checker on concrete answers.
use egeism.Base.{ℕ, ◌≡◌, ◌≢◌, ◌↔◌, refl, true, none, [], ◌∷◌, map, arith}
use egeism.Base.Int.{◌-ℤ◌, pos}
use egeism.Base.Text.{Text, codes}
use egeism.Domain.Answer.{
  AnswerSchema, finite, number, string, set, sequence, written, char, unset, Rat, token_or_default,
  validate, valid,
}
use egeism.Checker.Normalize.{
  is_space, normalize_number, fold_yo, tokenize, correct_tokens, strip_spaces, replace_minus,
  replace_comma, trim_space, trim_left, trim_right,
}
use egeism.Checker.Compare.{
  rat_le, distance, check_number, check_set, check_sequence, check_string, check, tolerance_rat,
  contains, matches_number,
}
use egeism.Checker.Spacing.{Spells}
use egeism.Checker.Numbers.{check_number-Spells, NearBy}
use egeism.Checker.Tokens.{IsPunctuation}
use egeism.Checker.Sets.{check_set_iff, check_sequence_iff}
use egeism.Checker.Folding.{LowersYo, LowersOnce, check_string_folds}
use egeism.Checker.Acceptance.{check_accepts_listed, Reads}
use egeism.Samples.Data.{std, schema}

abbrev whole : ℕ → Rat
whole n = record { num = pos n; den = 1 }

abbrev pieces : AnswerSchema
pieces = record (schema set (codes "1")) { correct = codes "1" ∷ codes "3" ∷ [] }

char_mode : token_or_default unset ≡ char
unfolding token_or_default
char_mode = refl

space_is : is_space 0x20 ≡ true
unfolding is_space
space_is = refl

tab_is : is_space 0x09 ≡ true
unfolding is_space
tab_is = refl

comma_is : IsPunctuation std 0x2c
comma_is = refl

std_LowersYo : LowersYo std
std_LowersYo = record {
  small_yo = refl;
  capital_yo = refl;
  small_ie = refl;
  capital_ie = refl;
  others = λ r h k. (λ e. ground arith, λ e. ground arith);
}

abbrev about_five : AnswerSchema
about_five = record (schema number (codes "5")) {
  tolerance = finite (record { num = pos 1; den = 1 });
}

about_one : tolerance_rat about_five.tolerance ≡ record { num = pos 1; den = 1 }
unfolding tolerance_rat
about_one = refl

std_LowersOnce : LowersOnce std
unfolding is_space
std_LowersOnce = record { twice = λ r. ground arith; spaces = λ r. ground arith; blank = refl }

-- Six is about five, as the bound is included.
about_six : check_number std about_five (codes " 6") ≡ true
unfolding check_number normalize_number strip_spaces replace_minus replace_comma is_space trim_space
    trim_left trim_right matches_number rat_le distance tolerance_rat ◌-ℤ◌
about_six = refl

schema_valid : validate (schema number (codes "5")) ≡ none
unfolding validate valid
schema_valid = refl

number_is : number ≢ written
number_is e = cc

five-Reads : Reads std number (codes "5")
unfolding normalize_number strip_spaces replace_minus replace_comma is_space trim_space
five-Reads = (whole 5, refl)

check_number-Spells_example :
    (check_number std about_five (codes "6") ≡ true)
    ↔ ((got : Rat) × Spells std (codes "6") got × NearBy std got 1 1 about_five.correct)
check_number-Spells_example = check_number-Spells std about_five (codes "6") 1 1 about_one

check_set_iff_example : (check_set std (schema set (codes "13")) (codes "31") ≡ true) ↔ (
    (u : Text)
    → contains u (tokenize std (codes "31") (token_or_default (schema set (codes "13")).token))
      ≡ contains u (
          correct_tokens std
            (schema set (codes "13")).correct
            (token_or_default (schema set (codes "13")).token)))
check_set_iff_example = check_set_iff std (schema set (codes "13")) (codes "31")

check_sequence_iff_example :
    (check_sequence std (schema sequence (codes "13")) (codes "13") ≡ true) ↔ (
      tokenize std (codes "13") (token_or_default (schema sequence (codes "13")).token)
      ≡ correct_tokens std
          (schema sequence (codes "13")).correct
          (token_or_default (schema sequence (codes "13")).token))
check_sequence_iff_example = check_sequence_iff std (schema sequence (codes "13")) (codes "13")

check_string_folds_example :
    (check_string std
        (record (schema string (codes "ab")) { ci = true })
        (map std.lower (codes " AB"))
      ≡ check_string std (record (schema string (codes "ab")) { ci = true }) (codes " AB"))
    × (check_string std
          (record (schema string (codes "ab")) { yo_fold = true })
          (fold_yo (codes " AB"))
        ≡ check_string std (record (schema string (codes "ab")) { yo_fold = true }) (codes " AB"))
check_string_folds_example =
    check_string_folds std (schema string (codes "ab")) (codes " AB") std_LowersOnce std_LowersYo

check_accepts_listed_example : check std (schema number (codes "5")) (codes "5") ≡ true
check_accepts_listed_example =
    check_accepts_listed std (schema number (codes "5")) (codes "5") schema_valid refl number_is
      five-Reads
