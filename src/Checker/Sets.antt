-- ===== src/Checker/Sets.antt =====
-- Comparison of token sets and token sequences.
use egeism.Base.{
  suc, ◌≤◌, ◌≡◌, refl, sym, ap, ◌∙◌, ◌↔◌, inl, inr, true, false, ◌||◌, List, [], ◌∷◌, length,
  if◌then◌else◌, Bool-cases, arith,
}
use egeism.Base.Text.{Text, text_eq, text_eq_iff, text_eq_refl}
use egeism.Domain.Answer.{AnswerSchema, token_or_default}
use egeism.Checker.Normalize.{Std, tokenize, correct_tokens}
use egeism.Checker.Compare.{
  contains, add_token, to_set_from, to_set, all_in, same_set, check_set, same_at_each_index,
  same_sequence, check_sequence,
}

abbrev IsSetOf : List Text → Type 0
IsSetOf [] = Unit
IsSetOf (t ∷ ts) = (contains t ts ≡ false) × IsSetOf ts

contains-add :
    (u t : Text) (s : List Text) → contains u (add_token s t) ≡ (text_eq u t || contains u s)
unfolding add_token
contains-add u t s = ground (arith, text_eq_iff u t)

add-IsSetOf : (t : Text) (s : List Text) → IsSetOf s → IsSetOf (add_token s t)
unfolding add_token
add-IsSetOf t s h = ground arith

to_set_from-contains :
    (u : Text) (acc ts : List Text)
    → contains u (to_set_from acc ts) ≡ (contains u acc || contains u ts)
unfolding to_set_from
to_set_from-contains u acc [] = ground arith
to_set_from-contains u acc (t ∷ ts) =
    ground (arith, to_set_from-contains u (add_token acc t) ts, contains-add u t acc)

to_set_from-IsSetOf : (acc ts : List Text) → IsSetOf acc → IsSetOf (to_set_from acc ts)
unfolding to_set_from
to_set_from-IsSetOf acc [] h = h
to_set_from-IsSetOf acc (t ∷ ts) h = to_set_from-IsSetOf (add_token acc t) ts (add-IsSetOf t acc h)

to_set-contains : (u : Text) (ts : List Text) → contains u (to_set ts) ≡ contains u ts
unfolding to_set
to_set-contains u ts = to_set_from-contains u [] ts

to_set-IsSetOf : (ts : List Text) → IsSetOf (to_set ts)
unfolding to_set
to_set-IsSetOf ts = to_set_from-IsSetOf [] ts tt

-- Every token of the first list is in the second.
abbrev Within : List Text → List Text → Type 0
Within xs ys = (u : Text) → contains u xs ≡ true → contains u ys ≡ true

all_in_iff : (xs ys : List Text) → (all_in xs ys ≡ true) ↔ Within xs ys
all_in_iff [] ys = (λ h u e. cc, λ h. refl)
all_in_iff (x ∷ xs) ys = (
  λ h u e. ground (arith, λ (p : all_in xs ys ≡ true). (all_in_iff xs ys).0 p u, text_eq_iff u x),
  λ h. ground (arith, (all_in_iff xs ys).1 (λ u e. h u (ground arith)), h x, text_eq_refl x),
)

remove : Text → List Text → List Text
remove t [] = []
remove t (u ∷ us) = if text_eq t u then us else u ∷ remove t us

length-remove :
    (t : Text) (us : List Text) → contains t us ≡ true → suc (length (remove t us)) ≡ length us
unfolding remove
length-remove t [] h = cc
length-remove t (u ∷ us) h = ground (arith, length-remove t us)

contains-remove :
    (t u : Text) (us : List Text)
    → text_eq u t ≡ false
    → contains u us ≡ true
    → contains u (remove t us) ≡ true
unfolding remove
contains-remove t u [] h e = cc
contains-remove t u (v ∷ us) h e =
    ground (arith, contains-remove t u us, text_eq_iff t v, text_eq_iff u t, text_eq_iff u v)

-- The pigeonhole principle: a list without repetitions is no longer than a list that holds it.
length-le_of_Within : (xs ys : List Text) → IsSetOf xs → Within xs ys → length xs ≤ length ys
length-le_of_Within [] ys d w = omega arith
length-le_of_Within (x ∷ xs) ys d w = omega (
  arith,
  length-remove x ys (w x (ground (arith, text_eq_refl x))),
  length-le_of_Within xs (remove x ys) d.1 rest,
)
  where
    rest : Within xs (remove x ys)
    rest u e = contains-remove x u ys (ground (arith, text_eq_iff u x)) (w u (ground arith))

same_length : (got want : List Text) → same_set got want ≡ true → length got ≡ length want
unfolding same_set
same_length got want h = ground arith

Within-cons :
    (u : Text) (xs ys : List Text) → contains u ys ≡ true → Within xs ys → Within (u ∷ xs) ys
Within-cons u xs ys g w v e = ground (arith, text_eq_iff v u, λ (p : contains v xs ≡ true). w v p)

-- The test on two maps used as sets holds exactly when they have the same tokens: the lengths are
-- equal and one holds the other, so the other holds the one.
same_set_iff :
    (got want : List Text)
    → IsSetOf got
    → IsSetOf want
    → (same_set got want ≡ true) ↔ ((u : Text) → contains u got ≡ contains u want)
unfolding same_set
same_set_iff got want dg dw = (forward, backward)
  where
    forward : same_set got want ≡ true → (u : Text) → contains u got ≡ contains u want
    forward h u =
        let inside = (all_in_iff want got).0 (ground arith) in
        elim (Bool-cases (contains u want)) [
          | inl e ↦ inside u e ∙ sym e
          | inr e ↦ elim (Bool-cases (contains u got)) [
            | inl g ↦ absurd (
                omega (
                  arith,
                  same_length got want h,
                  length-le_of_Within (u ∷ want) got (e, dw) (Within-cons u want got g inside),
                ))
            | inr g ↦ g ∙ sym e
          ]
        ]

    backward : ((u : Text) → contains u got ≡ contains u want) → same_set got want ≡ true
    backward h = ground (
      arith,
      (all_in_iff want got).1 (λ u e. h u ∙ e),
      length-le_of_Within want got dw (λ u e. h u ∙ e),
      length-le_of_Within got want dg (λ u e. sym (h u) ∙ e),
    )

-- An answer is accepted as a set exactly when it has the tokens of the correct forms and no others:
-- neither order nor repetition counts, on either side, so it is not compared as the multiset that the
-- comment on AnswerSet promises.
pub check_set_iff :
    (std : Std) (s : AnswerSchema) (raw : Text)
    → (check_set std s raw ≡ true) ↔ (
        (u : Text)
        → contains u (tokenize std raw (token_or_default s.token))
          ≡ contains u (correct_tokens std s.correct (token_or_default s.token)))
unfolding check_set
check_set_iff std s raw =
    let mode = token_or_default s.token in
    let got = tokenize std raw mode in
    let want = correct_tokens std s.correct mode in
    let e = same_set_iff (to_set got) (to_set want) (to_set-IsSetOf got) (to_set-IsSetOf want) in
    (
      λ h u. sym (to_set-contains u got) ∙ e.0 h u ∙ to_set-contains u want,
      λ h. e.1 (λ u. to_set-contains u got ∙ h u ∙ sym (to_set-contains u want)),
    )

same_at_each_index_iff :
    (got want : List Text)
    → length got ≡ length want
    → (same_at_each_index got want ≡ true) ↔ (got ≡ want)
unfolding same_at_each_index
same_at_each_index_iff [] [] l = (λ h. refl, λ h. refl)
same_at_each_index_iff (g ∷ gs) [] l = absurd (omega arith)
same_at_each_index_iff [] (w ∷ ws) l = absurd (omega arith)
same_at_each_index_iff (g ∷ gs) (w ∷ ws) l =
    let ih = same_at_each_index_iff gs ws (omega arith) in
    (λ h. ground (arith, text_eq_iff g w, ih), λ h. ground (arith, text_eq_iff g w, ih))

-- An answer is accepted as a sequence exactly when its tokens are those of the correct forms, in
-- their order.
pub check_sequence_iff :
    (std : Std) (s : AnswerSchema) (raw : Text)
    → (check_sequence std s raw ≡ true) ↔ (
        tokenize std raw (token_or_default s.token)
        ≡ correct_tokens std s.correct (token_or_default s.token))
unfolding check_sequence same_sequence
check_sequence_iff std s raw =
    let mode = token_or_default s.token in
    let got = tokenize std raw mode in
    let want = correct_tokens std s.correct mode in
    (
      λ h. (same_at_each_index_iff got want (ground arith)).0 (ground arith),
      λ h. let l = ap (length {0}) h in ground (arith, (same_at_each_index_iff got want l).1 h),
    )
