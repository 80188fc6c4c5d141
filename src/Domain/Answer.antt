-- ===== src/Domain/Answer.antt =====
-- internal/domain/answer.go: the description of how an answer is compared, and its validation.
-- The string types of the source are enumerations with one more case for any other string. A
-- `float64` is an exact rational, an infinity or NaN: the code compares it with zero, and turns it
-- into a rational.
use egeism.Base.{
  ℕ, ◌==◌, Bool, true, false, not, ◌&&◌, Option, none, some, List, length, if◌then◌else◌,
}
use egeism.Base.Int.{ℤ, pos, ltb_ℤ}
use egeism.Base.Text.{Text}

pub data AnswerType : Type 0 where
  written number string set sequence : AnswerType
  unknown : Text → AnswerType

unfoldable pub valid : AnswerType → Bool
valid (unknown s) = false
valid _ = true

-- `unset` is the empty string.
pub data TokenMode : Type 0 where
  unset char split : TokenMode
  unknown_mode : Text → TokenMode

-- A `big.Rat`: the value num / den.
pub record Rat : Type 0 where
  pub num : ℤ
  pub den : ℕ

pub data Float : Type 0 where
  finite : Rat → Float
  infinity negative_infinity nan : Float

-- `x < 0` on a float64: false for NaN.
abbrev pub is_negative : Float → Bool
is_negative (finite q) = ltb_ℤ q.num (pos 0)
is_negative infinity = false
is_negative negative_infinity = true
is_negative nan = false

pub record AnswerSchema : Type 0 where
  pub type : AnswerType
  pub correct : List Text
  pub tolerance : Float
  pub ci : Bool
  pub yo_fold : Bool
  pub token : TokenMode

pub data SchemaError : Type 0 where
  unknown_type empty_correct negative_tolerance unknown_token : SchemaError

abbrev pub is_written : AnswerType → Bool
is_written written = true
is_written _ = false

abbrev check_token : TokenMode → Option SchemaError
check_token (unknown_mode s) = some unknown_token
check_token _ = none

abbrev check_fields : AnswerType → Float → TokenMode → Option SchemaError
check_fields number tol tok = if is_negative tol then some negative_tolerance else none
check_fields set tol tok = check_token tok
check_fields sequence tol tok = check_token tok
check_fields _ tol tok = none

-- `none` is the nil error.
unfoldable pub validate : AnswerSchema → Option SchemaError
unfolding valid
validate s =
    if valid s.type
    then (if (length s.correct == 0) && not (is_written s.type)
        then some empty_correct
        else check_fields s.type s.tolerance s.token)
    else some unknown_type

unfoldable pub token_or_default : TokenMode → TokenMode
token_or_default unset = char
token_or_default m = m
