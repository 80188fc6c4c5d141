-- ===== src/Checker/Numbers.antt =====
-- Comparison of numbers: the tolerance as an inequality, and the loop over the listed forms.
use egeism.Base.{
  ◌∙◌, ℕ, ◌+◌, ◌-◌, ◌*◌, ◌≤◌, ◌≡◌, refl, sym, ap, ◌↔◌, ◌⊎◌, inl, inr, true, some, List, [], ◌∷◌,
  ◌++◌, Bool-cases, Option-cases, arith,
}
use mathlib.Core.Path.{subst}
use mathlib.Core.Option.{some-injective}
use native.Mathlib.Decide.{dec_le}
use egeism.Base.Int.{ℤ, pos, negsuc, pos_part, neg_part, scale, ◌-ℤ◌, abs}
use egeism.Base.Text.{Text}
use egeism.Domain.Answer.{AnswerSchema, Rat}
use egeism.Checker.Normalize.{Std, is_space, normalize_number}
use egeism.Checker.Compare.{distance, rat_le, tolerance_rat, matches_number, check_number}
use egeism.Checker.Spacing.{
  Spells, normalize_number-spelled, plain, normalize_number_space, normalize_number-plain,
}

-- a <= b + m / d for rationals, multiplied out: no subtraction and no absolute value.
abbrev pub AtMost : Rat → Rat → ℕ → ℕ → Type 0
AtMost a b m d =
    (pos_part a.num * b.den + neg_part b.num * a.den) * d
    ≤ (pos_part b.num * a.den + neg_part a.num * b.den) * d + m * (a.den * b.den)

gap : ℕ → ℕ → ℕ
gap p q = (p - q) + (q - p)

abs-sub : (a b : ℤ) → abs (a -ℤ b) ≡ gap (pos_part a + neg_part b) (neg_part a + pos_part b)
unfolding ◌-ℤ◌ gap
abs-sub a b = ground arith

scale_parts :
    (a : ℤ) (k : ℕ)
    → (pos_part (scale a k) ≡ pos_part a * k) × (neg_part (scale a k) ≡ neg_part a * k)
scale_parts (pos n) k = ground arith
scale_parts (negsuc n) k = ground arith

gap_up : (p q : ℕ) → p ≤ q → gap p q + p ≡ q
unfolding gap
gap_up p q h = omega arith

gap_down : (p q : ℕ) → q ≤ p → gap p q + q ≡ p
unfolding gap
gap_down p q h = omega arith

gap_iff : (p q k t : ℕ) → (gap p q * k ≤ t) ↔ ((p * k ≤ q * k + t) × (q * k ≤ p * k + t))
gap_iff p q k t = elim (dec_le p q) [
  | yes h ↦
      let e = ap (λ (n : ℕ). n * k) (gap_up p q h) in
      (λ g. (omega arith, omega arith), λ g. omega arith)
  | no h ↦
      let e = ap (λ (n : ℕ). n * k) (gap_down p q (omega arith)) in
      (λ g. (omega arith, omega arith), λ g. omega arith)
]

rat_le_iff :
    (a : ℕ) (b m d : ℕ)
    → (rat_le (record { num = pos a; den = b }) (record { num = pos m; den = d }) ≡ true)
      ↔ (a * d ≤ m * b)
unfolding rat_le
rat_le_iff a b m d = ground (arith, scale_parts (pos a) d, scale_parts (pos m) b)

-- The two sides of the comparison, over the product of the denominators.
above : Rat → Rat → ℕ
above a b = pos_part a.num * b.den + neg_part b.num * a.den

below : Rat → Rat → ℕ
below a b = neg_part a.num * b.den + pos_part b.num * a.den

abs-scaled :
    (a b : Rat) → abs (scale a.num b.den -ℤ scale b.num a.den) ≡ gap (above a b) (below a b)
unfolding above below
abs-scaled a b = cc (
  abs-sub (scale a.num b.den) (scale b.num a.den),
  (scale_parts a.num b.den).0,
  (scale_parts a.num b.den).1,
  (scale_parts b.num a.den).0,
  (scale_parts b.num a.den).1,
)

distance_le_iff :
    (a b : Rat) (m d : ℕ)
    → (rat_le (distance a b) (record { num = pos m; den = d }) ≡ true)
      ↔ (gap (above a b) (below a b) * d ≤ m * (a.den * b.den))
unfolding distance
distance_le_iff a b m d =
    rw (← abs-scaled a b)
      (rat_le_iff (abs (scale a.num b.den -ℤ scale b.num a.den)) (a.den * b.den) m d)

-- For a tolerance m / d, the test `|a - b| <= m / d` on exact rationals holds exactly when each of
-- a and b is at most the other plus m / d.
pub within_iff :
    (a b : Rat) (m d : ℕ)
    → (rat_le (distance a b) (record { num = pos m; den = d }) ≡ true)
      ↔ (AtMost a b m d × AtMost b a m d)
unfolding above below
within_iff a b m d =
    let e = distance_le_iff a b m d in
    let g = gap_iff (above a b) (below a b) d (m * (a.den * b.den)) in
    (
      λ h. (let k = g.0 (e.0 h) in (omega arith, omega arith)),
      λ k. e.1 (g.1 (omega arith, omega arith)),
    )

-- One of the listed forms is a number within the tolerance of the answer's.
abbrev pub Near : Std → Rat → Rat → List Text → Type 0
Near std got tol [] = ⊥
Near std got tol (c ∷ cs) =
    ((want : Rat) × (normalize_number std c ≡ some want) × (rat_le (distance got want) tol ≡ true))
    ⊎ Near std got tol cs

matches_number-Near :
    (std : Std) (got tol : Rat) (cs : List Text)
    → (matches_number std got tol cs ≡ true) ↔ Near std got tol cs
unfolding matches_number
matches_number-Near std got tol [] = (λ h. cc, λ n. absurd n)
matches_number-Near std got tol (c ∷ cs) =
    let ih = matches_number-Near std got tol cs in
    elim (Option-cases (normalize_number std c)) [
      | inl e ↦
          rw (e, matches_number) (λ h. inr (ih.0 h), elim [ inl (w, p, q) ↦ cc | inr n ↦ ih.1 n ])
      | inr (w, e) ↦ elim (Bool-cases (rat_le (distance got w) tol)) [
        | inl p ↦ rw (e, matches_number) (λ h. inl (w, refl, p), λ n. rw p)
        | inr p ↦
            rw (e, matches_number)
              (rw p (λ h. inr (ih.0 h), elim [ inl (v, q, r) ↦ cc | inr n ↦ ih.1 n ]))
      ]
    ]

-- An answer is accepted as a number exactly when it reads as one and some listed form reads as one
-- within the tolerance. So a listed form that does not read as a number is passed over, and an
-- answer that does not is wrong.
pub check_number_iff :
    (std : Std) (s : AnswerSchema) (raw : Text)
    → (check_number std s raw ≡ true) ↔ (
        (got : Rat) × (normalize_number std raw ≡ some got)
        × Near std got (tolerance_rat s.tolerance) s.correct)
unfolding check_number
check_number_iff std s raw = elim (Option-cases (normalize_number std raw)) [
  | inl e ↦ rw (e, check_number) (λ h. cc, λ (g, p, n). cc)
  | inr (got, e) ↦
      let near = matches_number-Near std got (tolerance_rat s.tolerance) s.correct in
      rw (e, check_number)
        (
          λ h. (got, refl, near.0 h),
          λ (g, p, n). near.1 (
              subst (λ q. Near std q (tolerance_rat s.tolerance) s.correct)
                (sym (some-injective got g p)) n),
        )
]

-- One of the listed forms spells a number that is within m / d of the answer's, the bound included.
abbrev pub NearBy : Std → Rat → ℕ → ℕ → List Text → Type 0
NearBy std got m d [] = ⊥
NearBy std got m d (c ∷ cs) =
    ((want : Rat) × Spells std c want × AtMost got want m d × AtMost want got m d)
    ⊎ NearBy std got m d cs

Near-NearBy :
    (std : Std) (got : Rat) (m d : ℕ) (cs : List Text)
    → Near std got (record { num = pos m; den = d }) cs ↔ NearBy std got m d cs
Near-NearBy std got m d [] = (λ n. n, λ n. n)
Near-NearBy std got m d (c ∷ cs) =
    let rest = Near-NearBy std got m d cs in
    let reads = normalize_number-spelled std c in
    (
      elim [
        | inl (want, p, q) ↦
            let (lo, hi) = (within_iff got want m d).0 q in inl (want, sym reads ∙ p, lo, hi)
        | inr n ↦ inr (rest.0 n)
      ],
      elim [
        | inl (want, p, lo, hi) ↦ inl (want, reads ∙ p, (within_iff got want m d).1 (lo, hi))
        | inr n ↦ inr (rest.1 n)
      ],
    )

-- For a tolerance m / d, an answer is accepted as a number exactly when it spells a number and some
-- listed form spells one that differs from it by m / d at most, as exact rationals. A listed form
-- that spells none is passed over, and an answer that spells none is wrong.
pub check_number-Spells :
    (std : Std) (s : AnswerSchema) (raw : Text) (m d : ℕ)
    → tolerance_rat s.tolerance ≡ record { num = pos m; den = d }
    → (check_number std s raw ≡ true)
      ↔ ((got : Rat) × Spells std raw got × NearBy std got m d s.correct)
check_number-Spells std s raw m d tol =
    let e = check_number_iff std s raw in
    let reads = normalize_number-spelled std raw in
    (
      λ h.
          (let (got, p, n) = e.0 h in
            (
              got,
              sym reads ∙ p,
              (Near-NearBy std got m d s.correct).0 (subst (λ t. Near std got t s.correct) tol n),
            )),
      λ (got, p, n). e.1 (
        got,
        reads ∙ p,
        subst (λ t. Near std got t s.correct) (sym tol) ((Near-NearBy std got m d s.correct).1 n),
      ),
    )

-- The verdict on a number is blind to spaces anywhere in the answer, and to the spelling of its
-- decimal mark and minus sign.
check_number_formatting :
    (std : Std) (s : AnswerSchema) (r : ℕ) (xs ys : Text)
    → is_space r ≡ true
    → (check_number std s (xs ++ r ∷ ys) ≡ check_number std s (xs ++ ys))
      × (check_number std s (plain xs) ≡ check_number std s xs)
unfolding check_number
check_number_formatting std s r xs ys h = (
  rw (normalize_number_space std r xs ys h, check_number),
  rw (normalize_number-plain std xs, check_number),
)
