-- ===== src/Tests/BlockWriterTests.antt =====
-- The theorems on the writer of blocks at two blocks and a table that has rows in the second.
use data_lib.Query.Rows.{any}
use data_lib.Query.Writer.{Row, DataItem, JsonLinesWriter, JsonArrayWriter}
use data_lib.Query.Writer.Blocks.{IsMergeable, block_json, has_header}
use data_lib.Query.Writer.LineStream.{lines_json, finish-lines_json}
use data_lib.Query.Writer.ArrayStream.{array_of, finish-array_of}
use data_lib.Query.Writer.Lines
use data_lib.Query.Writer.Arrays
use data_lib.Common.{ℕ, ◌≡◌, refl, some, List, [], ◌∷◌, map, arith, All}

abbrev row : ℕ → ℕ → Row
row block byte = record { block = block; bytes = byte ∷ [] }

abbrev headers : List Row
headers = row 3 48 ∷ row 5 49 ∷ []

abbrev items : List DataItem
items = record { prop = 34 ∷ 108 ∷ 34 ∷ 58 ∷ []; rows = row 5 50 ∷ row 5 51 ∷ [] } ∷ []

headers-IsMergeable : IsMergeable headers items
unfolding has_header any
headers-IsMergeable =
    (((omega arith, tt), (tt, tt)), (((omega arith, (omega arith, tt)), (refl, (refl, tt))), tt))

finish-lines_json_example :
    (w' : JsonLinesWriter) × (left : List DataItem) × (Lines.write_blocks 2
        (record { sink = []; buf = [] })
        (record { header = headers; items = items })
      ≡ some (w', record { header = []; items = left }))
    × (Lines.finish w' ≡ lines_json (map (λ r. block_json r items) headers))
    × (All (λ item. item.rows ≡ []) left)
finish-lines_json_example =
    finish-lines_json (record { sink = []; buf = [] }) headers items headers-IsMergeable

finish-array_of_example :
    (w' : JsonArrayWriter) × (left : List DataItem) × (Arrays.write_blocks 2 Arrays.new
        (record { header = headers; items = items })
      ≡ some (w', record { header = []; items = left }))
    × (Arrays.finish w' ≡ array_of (map (λ r. block_json r items) headers))
    × (All (λ item. item.rows ≡ []) left)
finish-array_of_example = finish-array_of headers items headers-IsMergeable
