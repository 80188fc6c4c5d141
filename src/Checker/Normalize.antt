-- ===== src/Checker/Normalize.antt =====
-- internal/checker/normalize.go. Text is a list of runes. The Unicode tables of letters, digits and
-- lower case, and the grammar of `big.Rat.SetString`, are the fields of `Std`.
use egeism.Base.{
  ℕ, ◌==◌, leb, Bool, true, not, ◌&&◌, ◌||◌, Option, none, List, [], ◌∷◌, ◌++◌, map, filter,
  if◌then◌else◌,
}
use egeism.Base.Text.{Text}
use egeism.Domain.Answer.{TokenMode, split, Rat}

-- What the checker takes from Go's standard library.
pub record Std : Type 0 where
  pub is_letter : ℕ → Bool
  pub is_digit : ℕ → Bool
  pub lower : ℕ → ℕ
  pub set_string : Text → Option Rat

-- unicode.IsSpace: the runes with the property White_Space.
unfoldable pub is_space : ℕ → Bool
is_space r =
    (leb 0x09 r && leb r 0x0d)
    || (r == 0x20)
    || (r == 0x85)
    || (r == 0xa0)
    || (r == 0x1680)
    || (leb 0x2000 r && leb r 0x200a)
    || (r == 0x2028)
    || (r == 0x2029)
    || (r == 0x202f)
    || (r == 0x205f)
    || (r == 0x3000)

-- strings.TrimSpace, from the left and then from the right.
unfoldable pub trim_left : Text → Text
trim_left [] = []
trim_left (r ∷ s) = if is_space r then trim_left s else r ∷ s

unfoldable pub trim_right : Text → Text
trim_right [] = []
trim_right (r ∷ s) = elim (trim_right s) [
  | [] ↦ if is_space r then [] else r ∷ []
  | c ∷ t ↦ r ∷ c ∷ t
]

unfoldable pub trim_space : Text → Text
unfolding trim_left trim_right
trim_space s = trim_right (trim_left s)

-- minusReplacer, on one rune: the dashes become a hyphen-minus.
unfoldable pub replace_minus : ℕ → ℕ
replace_minus r =
    if (r == 0x2212) || (r == 0x2013) || (r == 0x2014) || (r == 0x2010) || (r == 0x2011)
    then 0x2d
    else r

-- strings.ReplaceAll(s, ",", "."), on one rune.
unfoldable pub replace_comma : ℕ → ℕ
replace_comma r = if r == 0x2c then 0x2e else r

unfoldable pub strip_spaces : Text → Text
strip_spaces s = filter (λ r. not (is_space r)) s

unfoldable pub normalize_number : Std → Text → Option Rat
normalize_number std s =
    elim (strip_spaces (map replace_comma (map replace_minus (trim_space s)))) [
      | [] ↦ none
      | c ∷ t ↦ std.set_string (c ∷ t)
    ]

-- strings.FieldsFunc: the runs of runes outside `p`. `cur` is the run being read.
unfoldable pub close_field : Text → List Text → List Text
close_field [] fs = fs
close_field (c ∷ t) fs = (c ∷ t) ∷ fs

unfoldable pub fields_from : (ℕ → Bool) → Text → Text → List Text
unfolding close_field
fields_from p cur [] = close_field cur []
fields_from p cur (r ∷ s) =
    let cut = close_field cur (fields_from p [] s) in
    let longer = fields_from p (cur ++ r ∷ []) s in if p r then cut else longer

unfoldable pub fields_func : (ℕ → Bool) → Text → List Text
fields_func p s = fields_from p [] s

-- strings.Join(fs, " ").
unfoldable pub join_spaced : List Text → Text
join_spaced [] = []
join_spaced (f ∷ []) = f
join_spaced (f ∷ g ∷ fs) = f ++ 0x20 ∷ join_spaced (g ∷ fs)

-- ё becomes е and Ё becomes Е.
unfoldable pub fold_yo_rune : ℕ → ℕ
fold_yo_rune r = if r == 0x451 then 0x435 else if r == 0x401 then 0x415 else r

unfoldable pub fold_yo : Text → Text
unfolding fold_yo_rune
fold_yo s = map fold_yo_rune s

unfoldable pub normalize_string : Std → Text → Bool → Bool → Text
normalize_string std s ci yo =
    let joined = join_spaced (fields_func is_space s) in
    let lowered = if ci then map std.lower joined else joined in
    if yo then fold_yo lowered else lowered

unfoldable pub is_separator : ℕ → Bool
is_separator r =
    if is_space r
    then true
    else (r == 0x2c) || (r == 0x3b) || (r == 0x2e) || (r == 0x7c) || (r == 0x2f) || (r == 0x3a)

-- One token for each letter or digit.
unfoldable pub char_tokens : Std → Text → List Text
char_tokens std [] = []
char_tokens std (r ∷ s) =
    if std.is_letter r || std.is_digit r then (r ∷ []) ∷ char_tokens std s else char_tokens std s

unfoldable pub tokenize : Std → Text → TokenMode → List Text
tokenize std s split = fields_func is_separator s
tokenize std s _ = char_tokens std s

unfoldable pub correct_tokens : Std → List Text → TokenMode → List Text
correct_tokens std [] mode = []
correct_tokens std (c ∷ cs) mode = tokenize std c mode ++ correct_tokens std cs mode
