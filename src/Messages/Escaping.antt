-- ===== src/Messages/Escaping.antt =====
-- What escaped text reads as, and what the check for formulas saves.
use egeism.Base.{
  ℕ, ◌≡◌, refl, ap, ◌∙◌, ◌==◌, false, ◌||◌, Option, none, some, List, [], ◌∷◌, ◌++◌, if◌then◌else◌,
  All, Bool-cases, ||_false, inl, inr, arith,
}
use egeism.Base.Text.{Text, codes, text_eq}
use egeism.Messages.Inline.{
  replace_all, escape_html, MediaRef, after_prefix, opener, match_placeholder, substitute_from,
  contains, is_match, substitute_inline,
}

-- How a reader of Telegram's HTML takes text without tags: a `<` or a `>` is refused, and an
-- ampersand begins one of the three entities. `name` is the entity being read.
abbrev pub entity : Text → Option ℕ
entity name =
    if text_eq name (codes "amp")
    then some 0x26
    else (if text_eq name (codes "lt")
        then some 0x3c
        else (if text_eq name (codes "gt") then some 0x3e else none))

abbrev pub add_rune : Option ℕ → Option Text → Option Text
add_rune none s = none
add_rune (some r) none = none
add_rune (some r) (some s) = some (r ∷ s)

unfoldable pub read_html : Option Text → Text → Option Text
read_html none [] = some []
read_html (some name) [] = none
read_html none (r ∷ s) =
    let plain = read_html none s in
    let within = read_html (some []) s in
    if r == 0x26
    then within
    else (if (r == 0x3c) || (r == 0x3e) then none else add_rune (some r) plain)
read_html (some name) (r ∷ s) =
    let closed = read_html none s in
    let longer = read_html (some (name ++ r ∷ [])) s in
    if r == 0x3b then add_rune (entity name) closed else longer

-- The escaped form of one rune.
abbrev escape_rune : ℕ → Text
escape_rune r =
    if r == 0x26
    then codes "&amp;"
    else (if r == 0x3c then codes "&lt;" else (if r == 0x3e then codes "&gt;" else r ∷ []))

escape_html-rune : (r : ℕ) (s : Text) → escape_html (r ∷ s) ≡ escape_rune r ++ escape_html s
unfolding escape_html replace_all
escape_html-rune r s = elim (Bool-cases (r == 0x26)) [
  | inl e ↦ rw (e, All) refl
  | inr e ↦ elim (Bool-cases (r == 0x3c)) [
    | inl f ↦ rw (e, f, All) refl
    | inr f ↦ elim (Bool-cases (r == 0x3e)) [
      | inl g ↦ rw (e, f, g, All) refl
      | inr g ↦ rw (e, f, g, All) refl
    ]
  ]
]

read_html-rune :
    (r : ℕ) (s : Text) → read_html none (escape_rune r ++ s) ≡ add_rune (some r) (read_html none s)
unfolding read_html
read_html-rune r s = elim (Bool-cases (r == 0x26)) [
  | inl e ↦ let same : r ≡ 0x26 = ground arith in rw (same, All) refl
  | inr e ↦ elim (Bool-cases (r == 0x3c)) [
    | inl f ↦ let same : r ≡ 0x3c = ground arith in rw (same, All) refl
    | inr f ↦ elim (Bool-cases (r == 0x3e)) [
      | inl g ↦ let same : r ≡ 0x3e = ground arith in rw (same, All) refl
      | inr g ↦ rw (e, f, g, read_html, All) (rw (e, f, g) refl)
    ]
  ]
]

-- Escaping loses nothing, and leaves nothing that a reader of HTML takes for a tag: escaped text
-- reads back as the text.
pub escape_html-roundtrip : (s : Text) → read_html none (escape_html s) ≡ some s
unfolding read_html escape_html replace_all
escape_html-roundtrip [] = refl
escape_html-roundtrip (r ∷ s) =
    ap (read_html none) (escape_html-rune r s)
    ∙ read_html-rune r (escape_html s)
    ∙ ap (add_rune (some r)) (escape_html-roundtrip s)

closed-opener : (s : Text) → after_prefix opener s ≡ none → match_placeholder s ≡ none
unfolding match_placeholder
closed-opener s h = ground arith

is_match-none : (o : Option Text) → is_match o ≡ false → o ≡ none
is_match-none none h = refl
is_match-none (some s) h = cc

substitute_from-plain :
    (media : List MediaRef) (s : Text) → contains opener s ≡ false → substitute_from media 0 s ≡ s
unfolding contains substitute_from
substitute_from-plain media [] h = refl
substitute_from-plain media (r ∷ s) h =
    let parts = ||_false (is_match (after_prefix opener (r ∷ s))) (contains opener s) h in
    let none' = closed-opener (r ∷ s) (is_match-none (after_prefix opener (r ∷ s)) parts.0) in
    let rest = substitute_from-plain media s parts.1 in
    rw (none', substitute_from) (ap (λ t. r ∷ t) rest)

-- The check for `⟦img:` only saves time: what the code makes of a text is what the replacement of
-- all placeholders makes of it.
pub substitute_inline-direct :
    (s : Text) (media : List MediaRef) → substitute_inline s media ≡ substitute_from media 0 s
unfolding substitute_inline
substitute_inline-direct s media = elim (Bool-cases (contains opener s)) [
  | inl e ↦ rw e refl
  | inr e ↦ rw (e, substitute_from-plain media s e) refl
]
