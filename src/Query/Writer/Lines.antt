-- ===== src/Query/Writer/Lines.antt =====
-- `JsonLinesWriter` of json_writer.rs.
use data_lib.Query.Panics.{◌>>=◌}
use data_lib.Query.Writer.{
  BlockWriter, JsonLinesWriter, newline, flush_threshold, has_next_block, write_next_block,
}
use data_lib.Common.{
  ℕ, zero, suc, true, false, Option, none, some, List, [], ◌∷◌, ◌++◌, if◌then◌else◌, ltb, length,
}

unfoldable pub flush : JsonLinesWriter → JsonLinesWriter
flush w = record { sink = w.sink ++ w.buf; buf = [] }

unfoldable pub push_line : List ℕ → JsonLinesWriter → JsonLinesWriter
unfolding flush
push_line buf w =
    let w' = record w { buf = buf ++ newline ∷ [] } in
    if ltb flush_threshold (length w'.buf) then flush w' else w'

-- The loop runs while there is a block; `fuel` bounds it.
unfoldable pub write_blocks :
    ℕ → JsonLinesWriter → BlockWriter → Option (JsonLinesWriter × BlockWriter)
unfolding has_next_block write_next_block push_line
write_blocks zero w blocks = if has_next_block blocks then none else some (w, blocks)
write_blocks (suc fuel) w blocks = elim (has_next_block blocks) [
  | false ↦ some (w, blocks)
  | true ↦ write_next_block blocks w.buf >>= λ next. write_blocks fuel (push_line next.1 w) next.0
]

unfoldable pub finish : JsonLinesWriter → List ℕ
unfolding flush
finish w = (flush w).sink
