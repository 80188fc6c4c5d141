-- ===== src/Checker/Strings.antt =====
-- Comparison of words: what the normalization of strings does not see.
use egeism.Base.{◌≡◌, refl, ◌↔◌, ◌⊎◌, inl, inr, Bool, true, List, [], ◌∷◌, Bool-cases}
use egeism.Base.Text.{Text, text_eq, text_eq_iff}
use egeism.Domain.Answer.{AnswerSchema}
use egeism.Checker.Normalize.{Std, normalize_string}
use egeism.Checker.Compare.{matches_string, check_string}

-- Some listed form has the same normal form.
abbrev pub Listed : Std → Bool → Bool → Text → List Text → Type 0
Listed std ci yo got [] = ⊥
Listed std ci yo got (c ∷ cs) = (normalize_string std c ci yo ≡ got) ⊎ Listed std ci yo got cs

matches_string-Listed :
    (std : Std) (ci yo : Bool) (got : Text) (cs : List Text)
    → (matches_string std ci yo got cs ≡ true) ↔ Listed std ci yo got cs
unfolding matches_string
matches_string-Listed std ci yo got [] = (λ h. cc, λ n. absurd n)
matches_string-Listed std ci yo got (c ∷ cs) =
    let ih = matches_string-Listed std ci yo got cs in
    let e = text_eq_iff (normalize_string std c ci yo) got in
    elim (Bool-cases (text_eq (normalize_string std c ci yo) got)) [
      | inl p ↦ rw p (λ h. inl (e.0 p), λ n. refl)
      | inr p ↦ rw p (λ h. inr (ih.0 h), elim [ inl q ↦ cc (e.1 q) | inr n ↦ ih.1 n ])
    ]

-- An answer is accepted as a word or phrase exactly when it has the normal form of a listed form.
pub check_string_iff :
    (std : Std) (s : AnswerSchema) (raw : Text)
    → (check_string std s raw ≡ true)
      ↔ Listed std s.ci s.yo_fold (normalize_string std raw s.ci s.yo_fold) s.correct
unfolding check_string
check_string_iff std s raw =
    matches_string-Listed std s.ci s.yo_fold (normalize_string std raw s.ci s.yo_fold) s.correct
