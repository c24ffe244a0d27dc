-- ===== src/Query/Writer/LineStream.antt =====
-- What `JsonLinesWriter` of json_writer.rs yields.
use data_lib.Query.Writer.{Row, DataItem, JsonLinesWriter, newline, flush_threshold, has_next_block}
use data_lib.Query.Writer.Items.{advance}
use data_lib.Query.Writer.Blocks.{
  block_json, block_json-advance, IsMergeable, IsMergeable-advance, write_next_block-block_json,
  IsCovered-nil,
}
use data_lib.Query.Writer.Lines
use data_lib.Common.{
  ℕ, ◌≡◌, refl, sym, ◌∙◌, some, List, [], ◌∷◌, ◌++◌, map, ltb, Bool-cases, inl, inr, append_assoc,
  append-nil, All, length,
}

-- Each block on a line of its own.
unfoldable pub lines_json : List (List ℕ) → List ℕ
lines_json [] = []
lines_json (block ∷ blocks) = block ++ (newline ∷ lines_json blocks)

written : JsonLinesWriter → List ℕ
written w = w.sink ++ w.buf

-- Where the lines are flushed changes nothing in what is written.
push_line-written :
    (buf : List ℕ) (w : JsonLinesWriter)
    → written (Lines.push_line buf w) ≡ (w.sink ++ buf) ++ newline ∷ []
unfolding written Lines.push_line Lines.flush
push_line-written buf w = elim (Bool-cases (ltb flush_threshold (length (buf ++ newline ∷ [])))) [
  | inl q ↦ rw (q) (simp (append_assoc, append-nil) refl)
  | inr q ↦ rw (q) (sym (append_assoc w.sink buf (newline ∷ [])))
]

glue :
    (xs ys block rest : List ℕ)
    → ((xs ++ (ys ++ block)) ++ newline ∷ []) ++ rest ≡ (xs ++ ys) ++ (block ++ (newline ∷ rest))
glue xs ys block rest = simp append_assoc refl

lines_from :
    (w : JsonLinesWriter) (headers : List Row) (items : List DataItem)
    → IsMergeable headers items
    → (w' : JsonLinesWriter) × (left : List DataItem) × (Lines.write_blocks
          (length headers)
          w
          (record { header = headers; items = items })
        ≡ some (w', record { header = []; items = left }))
      × (written w' ≡ written w ++ lines_json (map (λ r. block_json r items) headers))
      × (All (λ item. item.rows ≡ []) left)
unfolding Lines.write_blocks lines_json has_next_block written
lines_from w [] items m = (w, items, refl, sym (append-nil (written w)), IsCovered-nil items m.1)
lines_from w (h ∷ headers) items m =
    let next = map (advance h.block) items in
    let w' = Lines.push_line (w.buf ++ block_json h items) w in
    let ih = lines_from w' headers next (IsMergeable-advance h headers items m) in
    (
      ih.0,
      ih.1,
      rw (write_next_block-block_json h headers items w.buf m) ih.2,
      ih.3
          ∙ rw (block_json-advance h.block headers items m.0.0, push_line-written)
              (glue w.sink w.buf (block_json h items)
                (lines_json (map (λ r. block_json r items) headers))),
      ih.4,
    )

-- For headers in strictly ascending order of blocks, and items in the order of their blocks, each row
-- under a header: writing the blocks and finishing yields the bytes that were there, then for each
-- header one line with the object of its block, wherever the buffer is flushed; no header is left,
-- and no row of any item.
pub finish-lines_json :
    (w : JsonLinesWriter) (headers : List Row) (items : List DataItem)
    → IsMergeable headers items
    → (w' : JsonLinesWriter) × (left : List DataItem) × (Lines.write_blocks
          (length headers)
          w
          (record { header = headers; items = items })
        ≡ some (w', record { header = []; items = left }))
      × (Lines.finish w' ≡ (w.sink ++ w.buf) ++ lines_json (map (λ r. block_json r items) headers))
      × (All (λ item. item.rows ≡ []) left)
unfolding Lines.finish Lines.flush written
finish-lines_json w headers items m = lines_from w headers items m
