-- ===== src/Messages/Alignment.antt =====
-- The columns of an aligned table.
use egeism.Base.{
  ℕ, zero, suc, ◌-◌, ◌≤◌, ◌≡◌, refl, ap, ◌==◌, ==_refl, leb, Bool, true, false, ◌&&◌, ◌||◌, Option,
  List, [], ◌∷◌, ◌++◌, map, length, length-append, All, Bool-cases, inl, inr, arith,
}
use egeism.Base.Text.{Text, codes}
use egeism.Messages.Rows.{
  cell, is_at, width_from, widths_from, most_cells, repeat, padded, padded_from, join, full_row,
  divider_row,
}

-- No cell of the row, from column `j` on, is wider than its column. So no padding is negative.
abbrev pub fits : List Text → ℕ → List ℕ → Bool
fits cells j [] = true
fits cells j (w ∷ ws) = leb (length (cell cells j)) w && fits cells (suc j) ws

-- Each row but the separator fits, and is as long as the divider. Rows are counted from `i`.
abbrev pub IsAligned : Option ℕ → List ℕ → ℕ → List (List Text) → Type 0
IsAligned sep widths i [] = Unit
IsAligned sep widths i (r ∷ rs) =
    ((is_at i sep
        || (fits r 0 widths && (length (full_row r widths) == length (divider_row widths))))
      ≡ true)
    × IsAligned sep widths (suc i) rs

length-repeat : (r n : ℕ) → length (repeat r n) ≡ n
unfolding repeat
length-repeat r zero = refl
length-repeat r (suc n) = ap suc (length-repeat r n)

length-padded : (c : Text) (w : ℕ) → length c ≤ w → length (padded c w) ≡ w
length-padded c w h =
    let l = length-append c (repeat 0x20 (w - length c)) in
    let p = length-repeat 0x20 (w - length c) in omega (arith, l, p, h)

fits-length :
    (cells : List Text) (j : ℕ) (ws : List ℕ)
    → fits cells j ws ≡ true
    → length (join (codes " | ") (padded_from cells j ws))
      ≡ length (join (codes "-+-") (map (repeat 0x2d) ws))
unfolding join padded_from
fits-length cells j [] h = refl
fits-length cells j (w ∷ []) h =
    let a = length-padded (cell cells j) w (ground arith) in
    let b = length-repeat 0x2d w in omega (arith, a, b)
fits-length cells j (w ∷ v ∷ ws) h =
    let a = length-padded (cell cells j) w (ground arith) in
    let b = length-repeat 0x2d w in
    let rest = fits-length cells (suc j) (v ∷ ws) (ground arith) in
    let l =
      length-append (padded (cell cells j) w)
        (codes " | " ++ join (codes " | ") (padded_from cells (suc j) (v ∷ ws))) in
    let m =
      length-append (repeat 0x2d w)
        (codes "-+-" ++ join (codes "-+-") (map (repeat 0x2d) (v ∷ ws))) in
    omega (arith, a, b, rest, l, m)

fits-widths :
    (sep : Option ℕ) (all : List (List Text)) (r : List Text) (j n : ℕ)
    → ((k : ℕ) → length (cell r k) ≤ width_from sep 0 k all)
    → fits r j (widths_from sep all j n) ≡ true
unfolding widths_from
fits-widths sep all r j zero h = refl
fits-widths sep all r j (suc n) h =
    let rest = fits-widths sep all r (suc j) n h in let here = h j in ground arith

head-width :
    (sep : Option ℕ) (i k : ℕ) (r : List Text) (rs : List (List Text))
    → is_at i sep ≡ false
    → length (cell r k) ≤ width_from sep i k (r ∷ rs)
unfolding width_from
head-width sep i k r rs e = rw (e, All) (omega arith)

rest-width :
    (sep : Option ℕ) (i k : ℕ) (r : List Text) (rs : List (List Text))
    → width_from sep (suc i) k rs ≤ width_from sep i k (r ∷ rs)
unfolding width_from
rest-width sep i k r rs = elim (Bool-cases (is_at i sep)) [
  | inl e ↦ rw (e, All) (omega arith)
  | inr e ↦ rw (e, All) (omega arith)
]

trans : (a b c : ℕ) → a ≤ b → b ≤ c → a ≤ c
trans a b c h k = omega arith

rows-IsAligned :
    (sep : Option ℕ) (all : List (List Text)) (n i : ℕ) (rows : List (List Text))
    → ((k : ℕ) → width_from sep i k rows ≤ width_from sep 0 k all)
    → IsAligned sep (widths_from sep all 0 n) i rows
unfolding divider_row
rows-IsAligned sep all n i [] h = tt
rows-IsAligned sep all n i (r ∷ rs) h = (
  elim (Bool-cases (is_at i sep)) [
    | inl e ↦ ground arith
    | inr e ↦
        let widths = widths_from sep all 0 n in
        let fit = fits-widths sep all r 0 n (λ k.
          trans (length (cell r k)) (width_from sep i k (r ∷ rs)) (width_from sep 0 k all)
            (head-width sep i k r rs e) (h k)) in
        let long = fits-length r 0 widths fit in
        let same = ==_refl (length (divider_row widths)) in rw (e, fit, long) same
  ],
  rows-IsAligned sep all n (suc i) rs (λ k.
      trans (width_from sep (suc i) k rs) (width_from sep i k (r ∷ rs)) (width_from sep 0 k all)
        (rest-width sep i k r rs) (h k)),
)

-- The columns of a table line up: with the widths that are computed from its rows, each row but the
-- separator has no cell that is wider than its column, and is as long as the divider before the
-- blanks at its end are cut.
pub widths_from-IsAligned :
    (sep : Option ℕ) (rows : List (List Text))
    → IsAligned sep (widths_from sep rows 0 (most_cells rows)) 0 rows
widths_from-IsAligned sep rows = rows-IsAligned sep rows (most_cells rows) 0 rows (λ k. omega arith)
