-- ===== src/Messages/Rows.antt =====
-- Pipe tables in a statement: the rows and the aligned block of internal/bot/format.go.
use egeism.Base.{
  ℕ, zero, suc, ◌-◌, ◌==◌, max, Bool, false, not, ◌&&◌, ◌||◌, Option, none, some, List, [], ◌∷◌,
  ◌++◌, map, length, any, if◌then◌else◌,
}
use egeism.Base.Text.{Text, codes}
use egeism.Checker.Normalize.{trim_space}
use egeism.Messages.Inline.{MediaRef, escape_html, substitute_inline}

-- `\s` of Go's regular expressions.
abbrev pub is_blank : ℕ → Bool
is_blank r = (r == 9) || (r == 10) || (r == 12) || (r == 13) || (r == 32)

-- What is left from the second bar on: any runes but a newline, a bar, and blanks to the end.
unfoldable pub ends_in_bar : Text → Bool
ends_in_bar [] = false
ends_in_bar (r ∷ s) =
    let rest = ends_in_bar s in
    ((r == 0x7c) && not (any (λ c. not (is_blank c)) s)) || (not (r == 10) && rest)

-- `^\s*\|.*\|\s*$`.
unfoldable pub is_table_row : Text → Bool
is_table_row [] = false
is_table_row (r ∷ s) =
    let rest = is_table_row s in
    if is_blank r then rest else (if r == 0x7c then ends_in_bar s else false)

-- strings.TrimPrefix and strings.TrimSuffix, of a bar.
abbrev pub trim_bar : Text → Text
trim_bar [] = []
trim_bar (r ∷ s) = if r == 0x7c then s else r ∷ s

unfoldable pub trim_last_bar : Text → Text
trim_last_bar [] = []
trim_last_bar (r ∷ []) = if r == 0x7c then [] else r ∷ []
trim_last_bar (r ∷ c ∷ s) = r ∷ trim_last_bar (c ∷ s)

-- strings.Split at a rune; `cur` is the part being read.
unfoldable pub split_from : ℕ → Text → Text → List Text
split_from c cur [] = cur ∷ []
split_from c cur (r ∷ s) =
    let cut = split_from c [] s in
    let longer = split_from c (cur ++ r ∷ []) s in if r == c then cur ∷ cut else longer

unfoldable pub table_cells : Text → List Text
table_cells l = map trim_space (split_from 0x7c [] (trim_last_bar (trim_bar (trim_space l))))

-- `^-+$`, or empty.
unfoldable pub is_separator_row : List Text → Bool
is_separator_row cells = not (any (λ c. any (λ r. not (r == 0x2d)) c) cells)

abbrev pub row_cells : List MediaRef → Text → List Text
row_cells media r = map (λ c. trim_space (substitute_inline c media)) (table_cells r)

-- The first separator row, counted from `n`.
unfoldable pub separator_from : ℕ → List (List Text) → Option ℕ
separator_from n [] = none
separator_from n (r ∷ rs) = if is_separator_row r then some n else separator_from (suc n) rs

unfoldable pub cell : List Text → ℕ → Text
cell [] j = []
cell (c ∷ cs) zero = c
cell (c ∷ cs) (suc j) = cell cs j

-- The greatest number of cells.
unfoldable pub most_cells : List (List Text) → ℕ
most_cells [] = 0
most_cells (r ∷ rs) = max (length r) (most_cells rs)

-- Is this row the separator?
abbrev pub is_at : ℕ → Option ℕ → Bool
is_at i none = false
is_at i (some n) = i == n

-- The width of a column: of its widest cell outside the separator. Rows are counted from `i`.
unfoldable pub width_from : Option ℕ → ℕ → ℕ → List (List Text) → ℕ
width_from sep i j [] = 0
width_from sep i j (r ∷ rs) =
    let rest = width_from sep (suc i) j rs in
    if is_at i sep then rest else max (length (cell r j)) rest

-- The widths of `n` columns from `j` on.
unfoldable pub widths_from : Option ℕ → List (List Text) → ℕ → ℕ → List ℕ
widths_from sep rows j zero = []
widths_from sep rows j (suc n) = width_from sep 0 j rows ∷ widths_from sep rows (suc j) n

-- strings.Repeat; the source panics on a negative count, and here it is 0.
unfoldable pub repeat : ℕ → ℕ → Text
repeat r zero = []
repeat r (suc n) = r ∷ repeat r n

-- A cell with its padding.
abbrev pub padded : Text → ℕ → Text
padded c w = c ++ repeat 0x20 (w - length c)

unfoldable pub padded_from : List Text → ℕ → List ℕ → List Text
padded_from cells j [] = []
padded_from cells j (w ∷ ws) = padded (cell cells j) w ∷ padded_from cells (suc j) ws

-- strings.Join.
unfoldable pub join : Text → List Text → Text
join glue [] = []
join glue (p ∷ []) = p
join glue (p ∷ q ∷ ps) = p ++ (glue ++ join glue (q ∷ ps))

-- strings.TrimRight(s, " ").
unfoldable pub trim_right_of : ℕ → Text → Text
trim_right_of c [] = []
trim_right_of c (r ∷ s) = elim (trim_right_of c s) [
  | [] ↦ if r == c then [] else r ∷ []
  | d ∷ t ↦ r ∷ d ∷ t
]

-- The padded cells of a row, before the blanks at its end are cut.
abbrev pub full_row : List Text → List ℕ → Text
full_row cells widths = join (codes " | ") (padded_from cells 0 widths)

unfoldable pub join_padded : List Text → List ℕ → Text
join_padded cells widths = trim_right_of 0x20 (full_row cells widths)

unfoldable pub divider_row : List ℕ → Text
divider_row widths = join (codes "-+-") (map (repeat 0x2d) widths)

-- Is the separator the next row?
abbrev pub is_before : ℕ → Option ℕ → Bool
is_before i none = false
is_before i (some n) = suc i == n

-- The lines of the block, the rows counted from `i`.
unfoldable pub table_lines : Option ℕ → List ℕ → ℕ → List (List Text) → List Text
table_lines sep widths i [] = []
table_lines sep widths i (r ∷ rs) =
    let rest = table_lines sep widths (suc i) rs in
    if is_at i sep
    then rest
    else escape_html (join_padded r widths)
      ∷ (if is_before i sep then divider_row widths ∷ rest else rest)

unfoldable pub table_html : List Text → List MediaRef → Text
table_html rows media =
    let parsed = map (row_cells media) rows in
    let sep = separator_from 0 parsed in
    let widths = widths_from sep parsed 0 (most_cells parsed) in
    codes "<pre>" ++ (join (codes "\n") (table_lines sep widths 0 parsed) ++ codes "</pre>")
