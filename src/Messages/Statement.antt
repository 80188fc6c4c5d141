-- ===== src/Messages/Statement.antt =====
-- statementToHTML of internal/bot/format.go and internal/bot/richhtml.go: the segments of a
-- statement, and the figures of a rich message. `parse` stands for net/url's Parse, and `lower` for
-- unicode.ToLower.
use egeism.Base.{
  ℕ, zero, suc, ◌==◌, ltb, Bool, true, false, not, ◌&&◌, ◌||◌, Option, none, some, List, [], ◌∷◌,
  ◌++◌, map, if◌then◌else◌,
}
use egeism.Base.Text.{Text, codes, text_eq}
use egeism.Checker.Normalize.{trim_space}
use egeism.Domain.Source.{ParseUrl}
use egeism.Messages.Inline.{
  MediaRef, escape_html, substitute_inline, replace_all, after_prefix, is_match,
}
use egeism.Messages.Rows.{
  is_table_row, split_from, trim_right_of, join, table_html, row_cells, separator_from,
}

pub data Segment : Type 0 where
  para table : List Text → Segment

-- The loop over the lines: `acc` is the paragraph being read, or after `true` the rows of a table.
-- A paragraph ends at a row, a table at a line that is none.
unfoldable pub segments_from : Bool → List Text → List Text → List Segment
segments_from false acc [] = para acc ∷ []
segments_from true acc [] = table acc ∷ []
segments_from false acc (l ∷ ls) =
    let cut = segments_from true (l ∷ []) ls in
    let longer = segments_from false (acc ++ l ∷ []) ls in
    if is_table_row l then para acc ∷ cut else longer
segments_from true acc (l ∷ ls) =
    let cut = segments_from false (l ∷ []) ls in
    let longer = segments_from true (acc ++ l ∷ []) ls in
    if is_table_row l then longer else table acc ∷ cut

unfoldable pub segments : List Text → List Segment
segments lines = segments_from false [] lines

-- `flush`: a blank paragraph is left out.
abbrev pub nonblank : Text → Text → List Text
nonblank [] s = []
nonblank (c ∷ t) s = s ∷ []

unfoldable pub segment_html : List MediaRef → Segment → List Text
segment_html media (para lines) =
    let joined = trim_right_of 0x0a (join (codes "\n") lines) in
    nonblank (trim_space joined) (escape_html (substitute_inline joined media))
segment_html media (table rows) = table_html rows media ∷ []

abbrev pub concat_map {ℓ κ} : {A : Type ℓ} {B : Type κ} → (A → List B) → List A → List B
concat_map f [] = []
concat_map f (x ∷ xs) = f x ++ concat_map f xs

unfoldable pub statement_to_html : Text → List MediaRef → Text
statement_to_html text media =
    join (codes "\n") (concat_map (segment_html media) (segments (split_from 0x0a [] text)))

-- hostIsLocal.
abbrev pub ends_with : Text → Text → Bool
ends_with end [] = text_eq end []
ends_with end (r ∷ s) = text_eq end (r ∷ s) || ends_with end s

abbrev pub is_local_host : Text → Bool
is_local_host h =
    text_eq h []
    || text_eq h (codes "localhost")
    || text_eq h (codes "127.0.0.1")
    || text_eq h (codes "0.0.0.0")
    || text_eq h (codes "::1")
    || ends_with (codes ".local") h

unfoldable pub host_is_local : (ℕ → ℕ) → ParseUrl → Text → Bool
host_is_local lower parse raw = elim (parse raw) [
  | none ↦ true
  | some u ↦ is_local_host (map lower u.hostname)
]

abbrev pub is_absolute : Text → Bool
is_absolute key =
    is_match (after_prefix (codes "http://") key) || is_match (after_prefix (codes "https://") key)

-- publicMediaURL; `none` is the empty URL.
unfoldable pub public_media_url : (ℕ → ℕ) → ParseUrl → Text → Text → Option Text
public_media_url lower parse key base =
    if is_absolute key
    then (if host_is_local lower parse key then none else some key)
    else (if text_eq base [] || host_is_local lower parse base
        then none
        else some (trim_right_of 0x2f base ++ (codes "/" ++ key)))

abbrev pub is_file : MediaRef → Bool
is_file m = text_eq m.kind (codes "file")

-- Is the formula in the text already?
abbrev pub is_in_text : MediaRef → Bool
is_in_text m = m.inline && not (text_eq m.alt [])

abbrev pub figure : Text → Text
figure u = codes "<img src=\"" ++ (escape_html u ++ codes "\">")

-- The figures that go into the message, and the media that are left over.
abbrev pub put_figure :
    MediaRef → Option Text → List Text × List MediaRef → List Text × List MediaRef
put_figure m none (figures, left) = (figures, m ∷ left)
put_figure m (some u) (figures, left) = (figure u ∷ figures, left)

abbrev pub put_left : MediaRef → List Text × List MediaRef → List Text × List MediaRef
put_left m (figures, left) = (figures, m ∷ left)

unfoldable pub place_media : (ℕ → ℕ) → ParseUrl → Text → List MediaRef → List Text × List MediaRef
place_media lower parse base [] = ([], [])
place_media lower parse base (m ∷ ms) =
    let rest = place_media lower parse base ms in
    if is_file m || is_in_text m
    then (if is_file m then put_left m rest else rest)
    else put_figure m (public_media_url lower parse m.key base) rest

-- tableRichHTML: the first separator is no row.
abbrev pub without_at : Option ℕ → List (List Text) → List (List Text)
without_at none rows = rows
without_at (some n) [] = []
without_at (some zero) (r ∷ rs) = rs
without_at (some (suc n)) (r ∷ rs) = r ∷ without_at (some n) rs

abbrev pub header_rows : Option ℕ → ℕ
header_rows none = 0
header_rows (some n) = n

abbrev pub has_corner : List (List Text) → Bool
has_corner (([] ∷ cs) ∷ rs) = true
has_corner _ = false

abbrev pub tagged : Text → Text → Text
tagged tag c =
    codes "<"
    ++ (tag
        ++ (codes " align=\"center\">" ++ (escape_html c ++ (codes "</" ++ (tag ++ codes ">")))))

unfoldable pub cells_html : Bool → Bool → ℕ → List Text → Text
cells_html header labels j [] = []
cells_html header labels j (c ∷ cs) =
    tagged (if header || (labels && (j == 0)) then codes "th" else codes "td") c
    ++ cells_html header labels (suc j) cs

unfoldable pub rows_html : ℕ → Bool → ℕ → List (List Text) → Text
rows_html headers labels i [] = []
rows_html headers labels i (r ∷ rs) =
    codes "<tr>"
    ++ (cells_html (ltb i headers) labels 0 r
        ++ (codes "</tr>" ++ rows_html headers labels (suc i) rs))

unfoldable pub table_rich_html : List Text → List MediaRef → Text
table_rich_html rows media =
    let parsed = map (row_cells media) rows in
    let sep = separator_from 0 parsed in
    let body = without_at sep parsed in
    let headers = header_rows sep in
    codes "<table bordered striped>"
    ++ (rows_html headers (ltb 0 headers && has_corner body) 0 body ++ codes "</table>")

unfoldable pub segment_rich_html : List MediaRef → Segment → List Text
segment_rich_html media (para lines) =
    let joined = trim_space (join (codes "\n") lines) in
    nonblank joined (
      codes "<p>"
      ++ (replace_all 0x0a (codes "<br>") (escape_html (substitute_inline joined media))
          ++ codes "</p>"))
segment_rich_html media (table rows) = table_rich_html rows media ∷ []

unfoldable pub statement_to_rich_html :
    (ℕ → ℕ) → ParseUrl → Text → List MediaRef → Text → Text × List MediaRef
statement_to_rich_html lower parse text media base =
    let body = concat_map (segment_rich_html media) (segments (split_from 0x0a [] text)) in
    let (figures, left) = place_media lower parse base media in (join [] (body ++ figures), left)
