-- ===== src/Checker/Tokens.antt =====
-- Tokenization: what the character mode and the split mode do not see, and the verdicts on tokens.
use egeism.Base.{
  ℕ, ◌≡◌, refl, Bool, false, ◌||◌, List, [], ◌∷◌, ◌++◌, arith, All, All-append, Bool-cases, inl,
  inr,
}
use mathlib.Core.List.{append-nil}
use egeism.Base.Text.{Text}
use egeism.Domain.Answer.{AnswerSchema, char, split, token_or_default}
use egeism.Checker.Normalize.{
  Std, is_separator, close_field, fields_from, fields_func, char_tokens, tokenize, correct_tokens,
}
use egeism.Checker.Compare.{check_set, check_sequence}

-- A rune that is neither a letter nor a digit.
abbrev pub IsPunctuation : Std → ℕ → Type 0
IsPunctuation std r = (std.is_letter r || std.is_digit r) ≡ false

pub char_tokens-append :
    (std : Std) (xs ys : Text)
    → char_tokens std (xs ++ ys) ≡ char_tokens std xs ++ char_tokens std ys
unfolding char_tokens
char_tokens-append std [] ys = refl
char_tokens-append std (x ∷ xs) ys = ground (arith, char_tokens-append std xs ys)

char_tokens-skip :
    (std : Std) (r : ℕ) (xs ys : Text)
    → IsPunctuation std r
    → char_tokens std (xs ++ r ∷ ys) ≡ char_tokens std (xs ++ ys)
unfolding char_tokens
char_tokens-skip std r [] ys h = ground arith
char_tokens-skip std r (x ∷ xs) ys h = ground (arith, char_tokens-skip std r xs ys h)

-- In the character mode, which is also the default, a rune that is neither a letter nor a digit
-- can be put anywhere into an answer or left out: both verdicts on tokens stay as they were.
pub check_ignores_punctuation :
    (std : Std) (s : AnswerSchema) (r : ℕ) (xs ys : Text)
    → token_or_default s.token ≡ char
    → IsPunctuation std r
    → (check_set std s (xs ++ r ∷ ys) ≡ check_set std s (xs ++ ys))
      × (check_sequence std s (xs ++ r ∷ ys) ≡ check_sequence std s (xs ++ ys))
unfolding tokenize check_set check_sequence
check_ignores_punctuation std s r xs ys m h =
    let e = char_tokens-skip std r xs ys h in (rw (m, e), rw (m, e))

-- The listed forms written one after the other.
pub concat : List Text → Text
concat [] = []
concat (c ∷ cs) = c ++ concat cs

correct_tokens-concat :
    (std : Std) (cs : List Text)
    → correct_tokens std cs char ≡ correct_tokens std (concat cs ∷ []) char
unfolding correct_tokens tokenize concat char_tokens
correct_tokens-concat std [] = refl
correct_tokens-concat std (c ∷ cs) =
    simp (char_tokens-append, append-nil, correct_tokens-concat std cs)

-- In the character mode the correct answer may be listed in pieces or in one: 2, 4, 5 and 245 give
-- the same verdicts.
pub check_pieces :
    (std : Std) (s : AnswerSchema) (raw : Text)
    → token_or_default s.token ≡ char
    → (check_set std s raw ≡ check_set std (record s { correct = concat s.correct ∷ [] }) raw)
      × (check_sequence std s raw
          ≡ check_sequence std (record s { correct = concat s.correct ∷ [] }) raw)
unfolding check_set check_sequence
check_pieces std s raw m = let e = correct_tokens-concat std s.correct in (rw (m, e), rw (m, e))

-- No rune of the text satisfies the test.
abbrev pub Avoids : (ℕ → Bool) → Text → Type 0
Avoids p s = All (λ r. p r ≡ false) s

abbrev pub IsField : (ℕ → Bool) → Text → Type 0
IsField p [] = ⊥
IsField p (r ∷ s) = Avoids p (r ∷ s)

close_field-IsField :
    (p : ℕ → Bool) (cur : Text) (fs : List Text)
    → Avoids p cur
    → All (IsField p) fs
    → All (IsField p) (close_field cur fs)
unfolding close_field
close_field-IsField p [] fs h k = k
close_field-IsField p (c ∷ t) fs h k = (h, k)

fields_from-IsField :
    (p : ℕ → Bool) (cur s : Text) → Avoids p cur → All (IsField p) (fields_from p cur s)
unfolding fields_from
fields_from-IsField p cur [] h = close_field-IsField p cur [] h tt
fields_from-IsField p cur (r ∷ s) h = elim (Bool-cases (p r)) [
  | inl e ↦ rw e (close_field-IsField p cur (fields_from p [] s) h (fields_from-IsField p [] s tt))
  | inr e ↦ rw e (
      fields_from-IsField p (cur ++ r ∷ []) s
        (All-append (λ c. p c ≡ false) cur (r ∷ []) h (e, tt)))
]

-- The split mode gives tokens that are not empty and hold no separator.
pub tokenize-IsField : (std : Std) (s : Text) → All (IsField is_separator) (tokenize std s split)
unfolding tokenize fields_func
tokenize-IsField std s = fields_from-IsField is_separator [] s tt
