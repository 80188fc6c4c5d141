-- ===== src/Messages/Segments.antt =====
-- The segments of a statement, and where its media go.
use mathlib.Core.List.{append_assoc}
use egeism.Base.{
  ℕ, ◌+◌, ◌≡◌, refl, ap, ◌∙◌, Bool, true, false, not, ◌&&◌, ◌||◌, Option, none, some, List, [], ◌∷◌,
  ◌++◌, length, filter, any, count, All, Bool-cases, Option-cases, inl, inr, arith,
}
use egeism.Base.Text.{Text}
use egeism.Domain.Source.{ParseUrl}
use egeism.Messages.Inline.{MediaRef}
use egeism.Messages.Rows.{is_table_row}
use egeism.Messages.Statement.{
  Segment, para, table, segments_from, segments, concat_map, public_media_url, is_file, is_in_text,
  place_media,
}

abbrev pub lines_of : Segment → List Text
lines_of (para ls) = ls
lines_of (table ls) = ls

-- A table has rows only, a paragraph none.
abbrev pub is_uniform : Segment → Bool
is_uniform (para ls) = not (any is_table_row ls)
is_uniform (table ls) = not (any (λ l. not (is_table_row l)) ls)

segments_from-lines :
    (mode : Bool) (acc ls : List Text) → concat_map lines_of (segments_from mode acc ls) ≡ acc ++ ls
unfolding segments_from
segments_from-lines false acc [] = refl
segments_from-lines true acc [] = refl
segments_from-lines false acc (l ∷ ls) = elim (Bool-cases (is_table_row l)) [
  | inl e ↦ rw (e, All) (ap (λ r. acc ++ r) (segments_from-lines true (l ∷ []) ls))
  | inr e ↦
      rw (e, All) (segments_from-lines false (acc ++ l ∷ []) ls ∙ append_assoc acc (l ∷ []) ls)
]
segments_from-lines true acc (l ∷ ls) = elim (Bool-cases (is_table_row l)) [
  | inl e ↦ rw (e, All) (segments_from-lines true (acc ++ l ∷ []) ls ∙ append_assoc acc (l ∷ []) ls)
  | inr e ↦ rw (e, All) (ap (λ r. acc ++ r) (segments_from-lines false (l ∷ []) ls))
]

uniform-snoc :
    (p : Text → Bool) (acc : List Text) (l : Text)
    → any p acc ≡ false
    → p l ≡ false
    → any p (acc ++ l ∷ []) ≡ false
uniform-snoc p [] l h e = ground arith
uniform-snoc p (x ∷ acc) l h e = let rest = uniform-snoc p acc l (ground arith) e in ground arith

-- The segment that is being read.
abbrev current : Bool → List Text → Segment
current true acc = table acc
current false acc = para acc

segments_from-uniform :
    (mode : Bool) (acc ls : List Text)
    → is_uniform (current mode acc) ≡ true
    → All (λ s. is_uniform s ≡ true) (segments_from mode acc ls)
unfolding segments_from
segments_from-uniform false acc [] h = (h, tt)
segments_from-uniform true acc [] h = (h, tt)
segments_from-uniform false acc (l ∷ ls) h = elim (Bool-cases (is_table_row l)) [
  | inl e ↦ rw (e, All) (h, segments_from-uniform true (l ∷ []) ls (ground arith))
  | inr e ↦
      let more = uniform-snoc is_table_row acc l (ground arith) e in
      rw (e, All) (segments_from-uniform false (acc ++ l ∷ []) ls (ground arith))
]
segments_from-uniform true acc (l ∷ ls) h = elim (Bool-cases (is_table_row l)) [
  | inl e ↦
      let more = uniform-snoc (λ l. not (is_table_row l)) acc l (ground arith) (ground arith) in
      rw (e, All) (segments_from-uniform true (acc ++ l ∷ []) ls (ground arith))
  | inr e ↦ rw (e, All) (h, segments_from-uniform false (l ∷ []) ls (ground arith))
]

-- No line of a statement is lost, doubled or moved: the lines of its segments, one after another, are
-- its lines. And a segment that is shown as a table has table rows only, one that is not has none.
pub segments-lines :
    (ls : List Text)
    → (concat_map lines_of (segments ls) ≡ ls) × All (λ s. is_uniform s ≡ true) (segments ls)
unfolding segments
segments-lines ls = (segments_from-lines false [] ls, segments_from-uniform false [] ls refl)

abbrev pub is_none {ℓ} : {A : Type ℓ} → Option A → Bool
is_none none = true
is_none (some a) = false

-- Is the medium sent after the message?
abbrev pub goes_after : (ℕ → ℕ) → ParseUrl → Text → MediaRef → Bool
goes_after lower parse base m =
    is_file m || (not (is_in_text m) && is_none (public_media_url lower parse m.key base))

-- Is it a formula whose text stands in the message?
abbrev pub is_written_out : MediaRef → Bool
is_written_out m = is_in_text m && not (is_file m)

-- Each medium of a rich message is a figure in it, or a formula in its text, or sent after it: the
-- media that are left over are the files, and the figures that have no public address, in their
-- order, and every other one that is no formula with a text has a figure.
pub place_media-parts :
    (lower : ℕ → ℕ) (parse : ParseUrl) (base : Text) (ms : List MediaRef)
    → ((place_media lower parse base ms).1 ≡ filter (goes_after lower parse base) ms)
      × (length (place_media lower parse base ms).0
            + (length (place_media lower parse base ms).1 + count is_written_out ms)
          ≡ length ms)
unfolding place_media
place_media-parts lower parse base [] = (refl, refl)
place_media-parts lower parse base (m ∷ ms) =
    let rest = place_media-parts lower parse base ms in
    elim (Option-cases (public_media_url lower parse m.key base)) [
      | inl e ↦ ground arith
      | inr (u, e) ↦ ground arith
    ]
