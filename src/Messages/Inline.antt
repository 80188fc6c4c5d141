-- ===== src/Messages/Inline.antt =====
-- The text of a message: escaping, and the places of formulas, of internal/bot/format.go. Text is a
-- list of runes.
use egeism.Base.{
  ℕ, zero, suc, ◌+◌, ◌-◌, ◌*◌, ◌==◌, ltb, leb, Bool, true, false, ◌&&◌, ◌||◌, Option, none, some,
  List, [], ◌∷◌, ◌++◌, length, get_elem?, if◌then◌else◌,
}
use egeism.Base.Text.{Text, codes}

-- strings.ReplaceAll, of one rune.
unfoldable pub replace_all : ℕ → Text → Text → Text
replace_all c new [] = []
replace_all c new (r ∷ s) = if r == c then new ++ replace_all c new s else r ∷ replace_all c new s

-- The ampersand first.
unfoldable pub escape_html : Text → Text
escape_html s =
    replace_all 0x3e (codes "&gt;")
      (replace_all 0x3c (codes "&lt;") (replace_all 0x26 (codes "&amp;") s))

-- MediaRef.
pub record MediaRef : Type 0 where
  pub key : Text
  pub kind : Text
  pub alt : Text
  pub inline : Bool

-- The rest of a text after the prefix.
unfoldable pub after_prefix : Text → Text → Option Text
after_prefix [] s = some s
after_prefix (c ∷ p) [] = none
after_prefix (c ∷ p) (r ∷ s) = if c == r then after_prefix p s else none

abbrev pub is_ascii_digit : ℕ → Bool
is_ascii_digit r = leb 0x30 r && leb r 0x39

-- The digits that a text begins with, and the rest.
unfoldable pub span_digits : Text → Text × Text
span_digits [] = ([], [])
span_digits (r ∷ s) =
    let (ds, rest) = span_digits s in if is_ascii_digit r then (r ∷ ds, rest) else ([], r ∷ s)

abbrev pub opener : Text
opener = codes "⟦img:"

-- `⟦img:(\d+)⟧` at the beginning of a text: the digits, if it matches.
abbrev pub closed : Text × Text → Option Text
closed ([], rest) = none
closed (d ∷ ds, []) = none
closed (d ∷ ds, r ∷ rest) = if r == 0x27e7 then some (d ∷ ds) else none

unfoldable pub match_placeholder : Text → Option Text
match_placeholder s = elim (after_prefix opener s) [
  | none ↦ none
  | some rest ↦ closed (span_digits rest)
]

unfoldable pub digits_value : ℕ → Text → ℕ
digits_value n [] = n
digits_value n (d ∷ ds) = digits_value (n * 10 + (d - 0x30)) ds

-- strconv.Atoi of digits; a number that is no int is refused.
unfoldable pub atoi : Text → Option ℕ
atoi ds = let n = digits_value 0 ds in if ltb n 0x8000000000000000 then some n else none

abbrev pub alt_of : Option MediaRef → Text
alt_of none = []
alt_of (some m) = m.alt

abbrev pub alt_at : List MediaRef → Option ℕ → Text
alt_at media none = []
alt_at media (some i) = alt_of (get_elem? media i)

-- ReplaceAllStringFunc: a match is replaced, and its runes passed over; `skip` of them are left.
unfoldable pub substitute_from : List MediaRef → ℕ → Text → Text
substitute_from media skip [] = []
substitute_from media (suc skip) (r ∷ s) = substitute_from media skip s
substitute_from media zero (r ∷ s) = elim (match_placeholder (r ∷ s)) [
  | none ↦ r ∷ substitute_from media 0 s
  | some ds ↦ alt_at media (atoi ds) ++ substitute_from media (length ds + 5) s
]

abbrev pub is_match : Option Text → Bool
is_match none = false
is_match (some s) = true

-- strings.Contains.
unfoldable pub contains : Text → Text → Bool
contains p [] = is_match (after_prefix p [])
contains p (r ∷ s) = is_match (after_prefix p (r ∷ s)) || contains p s

unfoldable pub substitute_inline : Text → List MediaRef → Text
substitute_inline s media = if contains opener s then substitute_from media 0 s else s
