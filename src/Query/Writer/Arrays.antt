-- ===== src/Query/Writer/Arrays.antt =====
-- `JsonArrayWriter` of json_writer.rs.
use data_lib.Query.Panics.{◌>>=◌}
use data_lib.Query.Writer.{
  BlockWriter, JsonArrayWriter, comma, flush_threshold, has_next_block, write_next_block,
}
use data_lib.Common.{
  ℕ, zero, suc, true, false, Option, none, some, List, [], ◌∷◌, ◌++◌, if◌then◌else◌, ltb, length,
}

unfoldable pub new : JsonArrayWriter
new = record { sink = []; buf = []; rows_written = false }

unfoldable pub flush : JsonArrayWriter → JsonArrayWriter
flush w = record w { sink = w.sink ++ w.buf; buf = [] }

unfoldable pub begin_new_item : JsonArrayWriter → JsonArrayWriter
unfolding flush
begin_new_item w =
    let w' = if ltb flush_threshold (length w.buf) then flush w else w in
    if w'.rows_written
    then record w' { buf = w'.buf ++ comma ∷ [] }
    else record w' { buf = w'.buf ++ b'[' ∷ []; rows_written = true }

unfoldable pub write_blocks :
    ℕ → JsonArrayWriter → BlockWriter → Option (JsonArrayWriter × BlockWriter)
unfolding has_next_block write_next_block begin_new_item
write_blocks zero w blocks = if has_next_block blocks then none else some (w, blocks)
write_blocks (suc fuel) w blocks = elim (has_next_block blocks) [
  | false ↦ some (w, blocks)
  | true ↦
      let w' = begin_new_item w in
      write_next_block blocks w'.buf >>= λ next.
      write_blocks fuel (record w' { buf = next.1 }) next.0
]

unfoldable pub finish : JsonArrayWriter → List ℕ
unfolding flush
finish w =
    (flush (record w {
      buf = if w.rows_written then w.buf ++ b']' ∷ [] else w.buf ++ b'[' ∷ b']' ∷ [];
    })).sink
