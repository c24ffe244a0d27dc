-- ===== src/Query/Writer/ArrayStream.antt =====
-- What `JsonArrayWriter` of json_writer.rs yields.
use data_lib.Query.Writer.{Row, DataItem, JsonArrayWriter, comma, flush_threshold, has_next_block}
use data_lib.Query.Writer.Items.{advance}
use data_lib.Query.Writer.Blocks.{
  block_json, block_json-advance, IsMergeable, IsMergeable-advance, write_next_block-block_json,
  IsCovered-nil,
}
use data_lib.Query.Writer.Arrays
use data_lib.Common.{
  ℕ, ◌≡◌, refl, sym, ap, ◌∙◌, Bool, true, false, some, List, [], ◌∷◌, ◌++◌, map, ltb, append_assoc,
  append-nil, All, length,
}

-- The elements of an array after those that are written already.
unfoldable pub more_json : Bool → List (List ℕ) → List ℕ
more_json begun [] = []
more_json true (block ∷ blocks) = comma ∷ (block ++ more_json true blocks)
more_json false (block ∷ blocks) = b'[' ∷ (block ++ more_json true blocks)

-- A JSON array of blocks.
abbrev pub array_of : List (List ℕ) → List ℕ
array_of [] = b'[' ∷ b']' ∷ []
array_of (block ∷ blocks) = more_json false (block ∷ blocks) ++ b']' ∷ []

begun : Bool → List Row → Bool
begun b [] = b
begun b (h ∷ headers) = true

stored : JsonArrayWriter → List ℕ
stored w = w.sink ++ w.buf

abbrev opening : Bool → ℕ
opening true = comma
opening false = b'['

begin_new_item-stored :
    (w : JsonArrayWriter)
    → (stored (Arrays.begin_new_item w) ≡ stored w ++ opening w.rows_written ∷ [])
      × ((Arrays.begin_new_item w).rows_written ≡ true)
unfolding stored Arrays.begin_new_item Arrays.flush
begin_new_item-stored w = at _ refl _ refl
  where
    at :
        (b : Bool)
        → ltb flush_threshold (length w.buf) ≡ b
        → (c : Bool) → w.rows_written ≡ c
        → (stored (Arrays.begin_new_item w) ≡ stored w ++ opening w.rows_written ∷ [])
          × ((Arrays.begin_new_item w).rows_written ≡ true)
    at true e true f = rw (e, f) (refl, refl)
    at true e false f = rw (e, f) (refl, refl)
    at false e true f = rw (e, f) (sym (append_assoc w.sink w.buf (comma ∷ [])), refl)
    at false e false f = rw (e, f) (sym (append_assoc w.sink w.buf (b'[' ∷ [])), refl)

-- The next element, written where an item has begun.
element-stored :
    (pre : List ℕ) (o : JsonArrayWriter) (b : Bool) (block : List ℕ) (rest : List (List ℕ))
    → stored o ≡ pre ++ opening b ∷ []
    → stored (record o { buf = o.buf ++ block }) ++ more_json true rest
      ≡ pre ++ more_json b (block ∷ rest)
unfolding stored more_json
element-stored pre o b block rest e =
    ap (λ t. t ++ more_json true rest) (sym (append_assoc o.sink o.buf block))
    ∙ ap (λ t. (t ++ block) ++ more_json true rest) e
    ∙ at b
  where
    at :
        (b : Bool)
        → (((pre ++ opening b ∷ []) ++ block) ++ more_json true rest)
          ≡ pre ++ more_json b (block ∷ rest)
    at true = simp append_assoc refl
    at false = simp append_assoc refl

begun-true : (headers : List Row) → begun true headers ≡ true
unfolding begun
begun-true [] = refl
begun-true (h ∷ headers) = refl

arrays_from :
    (w : JsonArrayWriter) (headers : List Row) (items : List DataItem)
    → IsMergeable headers items
    → (w' : JsonArrayWriter) × (left : List DataItem) × (Arrays.write_blocks
          (length headers)
          w
          (record { header = headers; items = items })
        ≡ some (w', record { header = []; items = left }))
      × (stored w' ≡ stored w ++ more_json w.rows_written (map (λ r. block_json r items) headers))
      × (w'.rows_written ≡ begun w.rows_written headers)
      × (All (λ item. item.rows ≡ []) left)
unfolding Arrays.write_blocks more_json has_next_block begun
arrays_from w [] items m =
    (w, items, refl, sym (append-nil (stored w)), refl, IsCovered-nil items m.1)
arrays_from w (h ∷ headers) items m =
    let next = map (advance h.block) items in
    let opened = Arrays.begin_new_item w in
    let w' = record opened { buf = opened.buf ++ block_json h items } in
    let first = begin_new_item-stored w in
    let ih = arrays_from w' headers next (IsMergeable-advance h headers items m) in
    (
      ih.0,
      ih.1,
      rw (write_next_block-block_json h headers items opened.buf m) ih.2,
      ih.3
          ∙ ap (λ t. stored w' ++ more_json t (map (λ r. block_json r next) headers)) first.1
          ∙ ap (λ t. stored w' ++ more_json true t) (block_json-advance h.block headers items m.0.0)
          ∙ element-stored (stored w) opened w.rows_written (block_json h items)
              (map (λ r. block_json r items) headers) first.0,
      ih.4 ∙ ap (λ t. begun t headers) first.1 ∙ begun-true headers,
      ih.5,
    )

abbrev closing : Bool → List ℕ
closing true = b']' ∷ []
closing false = b'[' ∷ b']' ∷ []

finish-stored :
    (w : JsonArrayWriter) (b : Bool) → w.rows_written ≡ b → Arrays.finish w ≡ stored w ++ closing b
unfolding Arrays.finish Arrays.flush stored
finish-stored w true e = rw (e) (sym (append_assoc w.sink w.buf (b']' ∷ [])))
finish-stored w false e = rw (e) (sym (append_assoc w.sink w.buf (b'[' ∷ b']' ∷ [])))

-- For headers in strictly ascending order of blocks, and items in the order of their blocks, each row
-- under a header: a new writer that writes the blocks and finishes yields the JSON array of the
-- objects of the blocks in order, the empty array for none; no header is left, and no row of any
-- item.
pub finish-array_of :
    (headers : List Row) (items : List DataItem)
    → IsMergeable headers items
    → (w' : JsonArrayWriter) × (left : List DataItem) × (Arrays.write_blocks
          (length headers)
          Arrays.new
          (record { header = headers; items = items })
        ≡ some (w', record { header = []; items = left }))
      × (Arrays.finish w' ≡ array_of (map (λ r. block_json r items) headers))
      × (All (λ item. item.rows ≡ []) left)
unfolding Arrays.finish Arrays.flush Arrays.new stored begun more_json
finish-array_of [] items m =
    let all = arrays_from Arrays.new [] items m in
    (
      all.0,
      all.1,
      all.2,
      finish-stored all.0 false all.4 ∙ ap (λ t. t ++ closing false) all.3,
      all.5,
    )
finish-array_of (h ∷ headers) items m =
    let all = arrays_from Arrays.new (h ∷ headers) items m in
    (all.0, all.1, all.2, finish-stored all.0 true all.4 ∙ ap (λ t. t ++ closing true) all.3, all.5)
