-- ===== src/Checker/Spacing.antt =====
-- What the normalization of numbers does not see: spaces anywhere, and the spelling of the minus
-- sign and of the decimal mark.
use egeism.Base.{
  mem, List, some, ◌==◌, ℕ, ◌≡◌, refl, sym, ap, ◌∙◌, true, Option, none, [], ◌∷◌, ◌++◌, map,
  if◌then◌else◌, List-cases, inl, inr, arith,
}
use egeism.Base.Text.{Text}
use egeism.Domain.Answer.{Rat}
use egeism.Checker.Normalize.{
  Std, is_space, trim_left, trim_right, trim_space, replace_minus, replace_comma, strip_spaces,
  normalize_number,
}

-- The runes that reach the number parser.
visible : Text → Text
visible s = strip_spaces (map replace_comma (map replace_minus s))

replace-is_space : (r : ℕ) → is_space (replace_comma (replace_minus r)) ≡ is_space r
unfolding is_space replace_comma replace_minus
replace-is_space r = ground arith

visible-nil : visible [] ≡ []
unfolding visible strip_spaces
visible-nil = refl

visible-cons :
    (r : ℕ) (s : Text)
    → visible (r ∷ s)
      ≡ (if is_space r then visible s else replace_comma (replace_minus r) ∷ visible s)
unfolding visible strip_spaces
visible-cons r s = ground (arith, replace-is_space r)

visible-trim_left : (s : Text) → visible (trim_left s) ≡ visible s
unfolding trim_left
visible-trim_left [] = refl
visible-trim_left (r ∷ s) = ground (arith, visible-cons r s, visible-trim_left s)

visible-trim_right : (s : Text) → visible (trim_right s) ≡ visible s
unfolding trim_right
visible-trim_right [] = refl
visible-trim_right (r ∷ s) = elim (List-cases (trim_right s)) [
  | inl e ↦
      rw (e, trim_right)
        (ground (
          arith,
          visible-cons r s,
          visible-cons r [],
          visible-nil,
          sym (visible-trim_right s) ∙ ap visible e,
        ))
  | inr (c, t, e) ↦
      rw (e, trim_right)
        (ground (
          arith,
          visible-cons r s,
          visible-cons r (c ∷ t),
          sym (visible-trim_right s) ∙ ap visible e,
        ))
]

visible-trim_space : (s : Text) → visible (trim_space s) ≡ visible s
unfolding trim_space
visible-trim_space s = visible-trim_right (trim_left s) ∙ visible-trim_left s

abbrev pub parse_visible : Std → Text → Option Rat
parse_visible std [] = none
parse_visible std (c ∷ t) = std.set_string (c ∷ t)

normalize_number-visible :
    (std : Std) (s : Text) → normalize_number std s ≡ parse_visible std (visible s)
unfolding normalize_number visible
normalize_number-visible std s = ap (parse_visible std) (visible-trim_space s)

visible-append : (xs ys : Text) → visible (xs ++ ys) ≡ visible xs ++ visible ys
visible-append [] ys = rw visible-nil
visible-append (x ∷ xs) ys =
    ground (arith, visible-cons x (xs ++ ys), visible-cons x xs, visible-append xs ys)

-- A space put anywhere into a text, or taken out, leaves the number that is read from it.
pub normalize_number_space :
    (std : Std) (r : ℕ) (xs ys : Text)
    → is_space r ≡ true
    → normalize_number std (xs ++ r ∷ ys) ≡ normalize_number std (xs ++ ys)
normalize_number_space std r xs ys h =
    normalize_number-visible std (xs ++ r ∷ ys)
    ∙ ap (parse_visible std)
        (ground (arith, visible-append xs (r ∷ ys), visible-append xs ys, visible-cons r ys))
    ∙ sym (normalize_number-visible std (xs ++ ys))

-- The spelling of the decimal mark and of the minus sign.
pub plain : Text → Text
plain s = map replace_comma (map replace_minus s)

replace_twice :
    (r : ℕ)
    → replace_comma (replace_minus (replace_comma (replace_minus r)))
      ≡ replace_comma (replace_minus r)
unfolding replace_comma replace_minus
replace_twice r = ground arith

visible-plain : (s : Text) → visible (plain s) ≡ visible s
unfolding plain
visible-plain [] = refl
visible-plain (r ∷ s) = ground (
  arith,
  visible-cons r s,
  visible-cons (replace_comma (replace_minus r)) (plain s),
  replace_twice r,
  replace-is_space r,
  visible-plain s,
)

-- Writing every dash as a hyphen-minus and every comma as a point does not change the number read.
pub normalize_number-plain :
    (std : Std) (s : Text) → normalize_number std (plain s) ≡ normalize_number std s
normalize_number-plain std s =
    normalize_number-visible std (plain s)
    ∙ ap (parse_visible std) (visible-plain s)
    ∙ sym (normalize_number-visible std s)

-- The text of a number as it is meant: without spaces, with a point for a comma and a hyphen-minus
-- for each dash.
abbrev pub dashes : List ℕ
dashes = 0x2212 ∷ 0x2013 ∷ 0x2014 ∷ 0x2010 ∷ 0x2011 ∷ []

abbrev pub spelled_rune : ℕ → ℕ
spelled_rune r = if r == 0x2c then 0x2e else if mem r dashes then 0x2d else r

abbrev pub spelled : Text → Text
spelled [] = []
spelled (r ∷ s) = if is_space r then spelled s else spelled_rune r ∷ spelled s

spelled_rune-replace : (r : ℕ) → replace_comma (replace_minus r) ≡ spelled_rune r
unfolding replace_comma replace_minus
spelled_rune-replace r = ground arith

visible-spelled : (s : Text) → visible s ≡ spelled s
visible-spelled [] = visible-nil
visible-spelled (r ∷ s) =
    ground (arith, visible-cons r s, spelled_rune-replace r, visible-spelled s)

-- A text spells a number if this text is not empty and reads as the number.
abbrev pub Spells : Std → Text → Rat → Type 0
Spells std s q = parse_visible std (spelled s) ≡ some q

pub normalize_number-spelled :
    (std : Std) (s : Text) → normalize_number std s ≡ parse_visible std (spelled s)
normalize_number-spelled std s =
    normalize_number-visible std s ∙ ap (parse_visible std) (visible-spelled s)
