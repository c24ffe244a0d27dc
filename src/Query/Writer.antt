-- ===== src/Query/Writer.antt =====
-- `BlockWriter` and `DataItem` of plan/result.rs. An item is what is left of it: the rows from `pos`
-- on, in the order of its key, each with its block number and the bytes that its encoder writes.
-- `none` stands for a panic.
pub mod Lines
pub mod Arrays
pub mod Items
pub mod Blocks
pub mod LineStream
pub mod ArrayStream
use data_lib.Query.Panics.{◌>>=◌}
use data_lib.Common.{
  ℕ, zero, suc, ◌+◌, Bool, true, false, Option, none, some, List, [], ◌∷◌, ◌++◌, ◌==◌,
  if◌then◌else◌, ltb, length, ◌*◌,
}

pub record Row : Type 0 where
  pub block : ℕ
  pub bytes : List ℕ

pub record DataItem : Type 0 where
  pub prop : List ℕ
  pub rows : List Row

-- The first item of the source's list is the header's.
pub record BlockWriter : Type 0 where
  pub header : List Row
  pub items : List DataItem

abbrev pub comma : ℕ
comma = b','

abbrev pub header_prop : List ℕ
header_prop = b'"' ∷ b'h' ∷ b'e' ∷ b'a' ∷ b'd' ∷ b'e' ∷ b'r' ∷ b'"' ∷ b':' ∷ []

-- `json_close` of json/encoder/util.rs; the index of the last byte underflows on no bytes.
unfoldable pub json_close : ℕ → List ℕ → Option (List ℕ)
json_close end [] = none
json_close end (last ∷ []) = some (if last == comma then end ∷ [] else last ∷ end ∷ [])
json_close end (x ∷ y ∷ out) = json_close end (y ∷ out) >>= λ closed. some (x ∷ closed)

-- The inner loop of `write_items`.
unfoldable pub write_rows : ℕ → List Row → List ℕ → List Row × List ℕ
write_rows block_number [] out = ([], out)
write_rows block_number (row ∷ rows) out =
    let later = write_rows block_number rows (out ++ row.bytes ++ comma ∷ []) in
    if row.block == block_number then later else (row ∷ rows, out)

unfoldable pub has_items : ℕ → List Row → Bool
has_items block_number [] = false
has_items block_number (row ∷ rows) = row.block == block_number

unfoldable pub write_items : ℕ → DataItem → List ℕ → Option (DataItem × List ℕ)
unfolding has_items write_rows json_close
write_items block_number item out =
    if has_items block_number item.rows
    then (do
      let written = write_rows block_number item.rows (out ++ item.prop ++ b'[' ∷ [])
      closed ← json_close b']' written.1
      some (record item { rows = written.0 }, closed ++ comma ∷ []))
    else some (item, out)

unfoldable pub write_all_items : ℕ → List DataItem → List ℕ → Option (List DataItem × List ℕ)
unfolding write_items
write_all_items block_number [] out = some ([], out)
write_all_items block_number (item ∷ items) out = do
  first ← write_items block_number item out
  rest ← write_all_items block_number items first.1
  some (first.0 ∷ rest.0, rest.1)

unfoldable pub write_header : List Row → List ℕ → Option (List Row × List ℕ)
write_header [] out = none
write_header (row ∷ rows) out = some (rows, ((out ++ header_prop) ++ row.bytes) ++ comma ∷ [])

unfoldable pub has_next_block : BlockWriter → Bool
has_next_block w = elim w.header [ [] ↦ false | row ∷ rows ↦ true ]

unfoldable pub get_current_block : BlockWriter → Option ℕ
get_current_block w = elim w.header [ [] ↦ none | row ∷ rows ↦ some row.block ]

unfoldable pub write_next_block : BlockWriter → List ℕ → Option (BlockWriter × List ℕ)
unfolding get_current_block write_header write_all_items json_close
write_next_block w out = do
  block_number ← get_current_block w
  header ← write_header w.header (out ++ b'{' ∷ [])
  items ← write_all_items block_number w.items header.1
  closed ← json_close b'}' items.1
  some (record { header = header.0; items = items.0 }, closed)

-- `JsonLinesWriter` and `JsonArrayWriter` of json_writer.rs. `sink` holds the bytes that `write` got;
-- its writes do not fail.
pub record JsonLinesWriter : Type 0 where
  pub sink : List ℕ
  pub buf : List ℕ

pub record JsonArrayWriter : Type 0 where
  pub sink : List ℕ
  pub buf : List ℕ
  pub rows_written : Bool

abbrev pub newline : ℕ
newline = 10

abbrev pub flush_threshold : ℕ
flush_threshold = 16 * 1024
