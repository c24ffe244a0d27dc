-- ===== src/Hotblocks/Ingest.antt =====
-- `IngestGeneric` of crates/hotblocks/src/dataset_controller/ingest_generic.rs: it buffers the blocks
-- of a data source and sends them on as chunks. A handler gives the messages that it sends and the
-- state that it leaves, or the failure that ends the task; sending itself is taken to succeed.
pub mod Trace
pub mod Fed
use data_lib.Common.{
  ℕ, zero, suc, ◌+◌, ◌-◌, ◌≤◌, ◌<◌, ◌≡◌, ◌≢◌, ◌↔◌, ◌⊎◌, inl, inr, refl, sym, ap, subst, ◌∙◌, String,
  Bool, true, false, not, ◌&&◌, ◌||◌, Option, none, some, List, [], ◌∷◌, ◌++◌, map, reverse, arith,
  ltb, leb, ◌==◌, str_eq, eq_iff, if◌then◌else◌, Result, ok, err, ensure, ◌>>=◌, ◌>>◌, >>=-eq-ok,
  All, All-append, Bool-cases, Option-cases, min, max, length, get_elem?, append_assoc, append-nil,
  last?, ◌%◌, ◌^◌,
}
use data_lib.Common.Int.{ℤ}
use data_lib.Primitives.{Block}
use data_lib.Storage.Data.{BlockRef}
use data_lib.Storage.Failure.{
  Failure, chain_continuity_violated, data_availability_changed, channel_closed,
}
use data_lib.Hotblocks.Writer.Rollback.{Rollback}

-- The trait `BlockChunkBuilder` and the `ChunkProcessor` of crates/data-core, and `Block::has_data`.
-- An operation that fails ends the task, so that what it leaves of the builder is not seen.
pub record ChunkBuilder : Type 1 where
  pub Body : Type 0
  pub Builder : Type 0
  pub Processor : Type 0
  pub Table : Type 0
  pub push : Block Body → Builder → Result Failure Builder
  pub max_num_rows : Builder → ℕ
  pub byte_size : Builder → ℕ
  pub clear : Builder → Builder
  pub new_chunk_processor : Builder → Result Failure Processor
  pub submit_to_processor : Builder → Processor → Result Failure (Builder × Processor)
  pub prepare_in_memory : Builder → Result Failure (Builder × List (String × Table))
  pub processor_rows : Processor → ℕ
  pub finish : Processor → Result Failure (List (String × Table))
  pub has_data : ℕ → String → Bool

abbrev pub row_bound : ℕ
row_bound = 200000

module _ (cb : ChunkBuilder) where
  pub record DataBuilder : Type 0 where
    pub builder : cb.Builder
    pub processor : Option cb.Processor
    pub spill_bound_bytes : ℕ

  pub record PreparedChunk : Type 0 where
    pub finalized_head : Option BlockRef
    pub parent_block_hash : String
    pub first_block : ℕ
    pub last_block : ℕ
    pub last_block_hash : String
    pub first_block_time : Option ℤ
    pub last_block_time : Option ℤ
    pub tables : List (String × cb.Table)

  -- A fork is sent with the place for its answer, kept here with the answer itself: none when the
  -- receiver drops it.
  pub data Message : Type 0 where
    finalized : BlockRef → Message
    chunk : PreparedChunk → Message
    fork : List BlockRef → Option Rollback → Message

  -- `DataEvent` of crates/data-source, a fork with the answer that its message gets.
  pub data Event : Type 0 where
    finalized_head : BlockRef → Event
    block : Block cb.Body → Bool → Event
    forked : List BlockRef → Option Rollback → Event
    maybe_on_head : Event

  pub record IngestGeneric : Type 0 where
    pub position : ℕ × Option String
    pub builder : DataBuilder
    pub finalized : Option BlockRef
    pub buffered_blocks : ℕ
    pub parent_block_hash : String
    pub first_block : ℕ
    pub first_block_time : Option ℤ
    pub last_block : ℕ
    pub last_block_hash : String
    pub last_block_time : Option ℤ
    pub data_mask : ℕ
    pub flush_floor : Option ℕ
    pub withholding : Bool

  -- `IngestGeneric::new`, at the position of the data source. The default mask is empty.
  unfoldable pub new_ingest : ℕ × Option String → cb.Builder → ℕ → IngestGeneric
  new_ingest position builder spill_bound_bytes = record {
    position = position;
    builder = record { builder = builder; processor = none; spill_bound_bytes = spill_bound_bytes };
    finalized = none;
    buffered_blocks = 0;
    parent_block_hash = "";
    first_block = position.0;
    first_block_time = none;
    last_block = 0;
    last_block_hash = "";
    last_block_time = none;
    data_mask = 0;
    flush_floor = none;
    withholding = false;
  }

  abbrev pub Handled : Type 0
  Handled = List Message × Result Failure IngestGeneric

  -- A handler and then another, unless the first fails.
  abbrev pub followed_by : Handled → (IngestGeneric → Handled) → Handled
  followed_by (ms, err e) f = (ms, err e)
  followed_by (ms, ok s) f = (ms ++ (f s).0, (f s).1)

  unfoldable pub num_rows : DataBuilder → ℕ
  num_rows d =
      cb.max_num_rows d.builder
      + elim d.processor as (λ _. ℕ) [ none ↦ 0 | some p ↦ cb.processor_rows p ]

  abbrev pub processor_of : DataBuilder → Result Failure cb.Processor
  processor_of d = elim d.processor [ none ↦ cb.new_chunk_processor d.builder | some p ↦ ok p ]

  unfoldable pub flush_to_processor : DataBuilder → Result Failure DataBuilder
  flush_to_processor d = do
    p ← processor_of d
    (b, p') ← cb.submit_to_processor d.builder p
    ok (record d { builder = cb.clear b; processor = some p' })

  abbrev pub unspilled : DataBuilder → Bool
  unspilled d = elim d.processor [
    | none ↦ leb (cb.byte_size d.builder) d.spill_bound_bytes
    | some p ↦ false
  ]

  -- The processor is there after `flush_to_processor`, which `processor_of` reads.
  unfoldable pub finish : DataBuilder → Result Failure (DataBuilder × List (String × cb.Table))
  finish d =
      if unspilled d
      then (do (b, tables) ← cb.prepare_in_memory d.builder; ok (record d { builder = b }, tables))
      else do
        d' ← flush_to_processor d
        p ← processor_of d'
        tables ← cb.finish p
        ok (record d' { processor = none }, tables)

  unfoldable pub clear : DataBuilder → DataBuilder
  clear d = record d { builder = cb.clear d.builder; processor = none }

  abbrev pub retain_tables : ℕ → List (String × cb.Table) → List (String × cb.Table)
  retain_tables mask [] = []
  retain_tables mask ((name, t) ∷ rest) =
      if cb.has_data mask name then (name, t) ∷ retain_tables mask rest else retain_tables mask rest

  -- `self.flush_floor.filter(|floor| self.last_block < *floor)`
  unfoldable pub withheld : IngestGeneric → Bool
  withheld s = elim s.flush_floor [ none ↦ false | some floor ↦ ltb s.last_block floor ]

  abbrev pub prepared : List (String × cb.Table) → IngestGeneric → PreparedChunk
  prepared tables s = record {
    finalized_head = s.finalized;
    parent_block_hash = s.parent_block_hash;
    first_block = s.first_block;
    last_block = s.last_block;
    last_block_hash = s.last_block_hash;
    first_block_time = s.first_block_time;
    last_block_time = s.last_block_time;
    tables = retain_tables s.data_mask tables;
  }

  unfoldable pub emit : IngestGeneric → Handled
  emit s = elim (finish s.builder) [
    | err e ↦ ([], err e)
    | ok (d, tables) ↦ (
      chunk (prepared tables s) ∷ [],
      ok (record s {
        builder = d;
        flush_floor = none;
        withholding = false;
        buffered_blocks = 0;
        first_block = s.last_block + 1;
      }),
    )
  ]

  unfoldable pub flush : IngestGeneric → Handled
  flush s =
      if s.buffered_blocks == 0
      then ([], ok s)
      else if withheld s
      then ([], ok (record s { withholding = true }))
      else emit s

  abbrev pub set_finalized : ℕ → String → IngestGeneric → IngestGeneric
  set_finalized n h s = record s { finalized = some (record { number = n; hash = h }) }

  unfoldable pub spill : IngestGeneric → Handled
  spill s =
      if ltb s.builder.spill_bound_bytes (cb.byte_size s.builder.builder)
      then ([], flush_to_processor s.builder >>= λ d. ok (record s { builder = d }))
      else ([], ok s)

  unfoldable pub maybe_flush : IngestGeneric → Handled
  maybe_flush s =
      followed_by (if ltb row_bound (num_rows s.builder) then flush s else ([], ok s)) spill

  abbrev pub open_chunk : Block cb.Body → IngestGeneric → Result Failure IngestGeneric
  open_chunk b s =
      if s.buffered_blocks == 0
      then ok (record s { parent_block_hash = b.parent_hash; first_block_time = b.timestamp })
      else (do ensure (str_eq s.last_block_hash b.parent_hash) chain_continuity_violated; ok s)

  abbrev pub extend : Block cb.Body → Bool → IngestGeneric → IngestGeneric
  extend b is_final s =
      let s' : IngestGeneric = record s {
        buffered_blocks = s.buffered_blocks + 1;
        last_block = b.number;
        last_block_hash = b.hash;
        last_block_time = b.timestamp;
      } in
      if is_final then set_finalized b.number b.hash s' else s'

  unfoldable pub push_block : Block cb.Body → Bool → IngestGeneric → Result Failure IngestGeneric
  push_block b is_final s = do
    d ← cb.push b s.builder.builder
    s' ← open_chunk b (record s { builder = record s.builder { builder = d } })
    ok (extend b is_final s')

  -- A chunk holds blocks of one mask.
  unfoldable pub change_mask : Block cb.Body → IngestGeneric → Handled
  change_mask b s =
      if s.data_mask == b.data_mask
      then ([], ok s)
      else followed_by (flush s) (λ s'. (
        [],
        ensure (s'.buffered_blocks == 0) data_availability_changed
            >> ok (record s' { data_mask = b.data_mask }),
      ))

  unfoldable pub handle_block : Block cb.Body → Bool → IngestGeneric → Handled
  handle_block b is_final s =
      followed_by (change_mask b s) (λ s'. followed_by ([], push_block b is_final s') maybe_flush)

  unfoldable pub handle_fork : List BlockRef → Option Rollback → IngestGeneric → Handled
  handle_fork prev none s = (fork prev none ∷ [], err channel_closed)
  handle_fork prev (some r) s = (
    fork prev (some r) ∷ [],
    ok (record s {
      builder = clear s.builder;
      buffered_blocks = 0;
      finalized = none;
      first_block = r.resume_from;
      flush_floor = r.reach_at_least;
      withholding = false;
      position = (r.resume_from, r.expected_parent_hash);
    }),
  )

  unfoldable pub handle_finalized : BlockRef → IngestGeneric → Handled
  handle_finalized head s = (
    if ltb head.number s.first_block then finalized head ∷ [] else [],
    ok (set_finalized head.number head.hash s),
  )

  unfoldable pub handle : Event → IngestGeneric → Handled
  handle (finalized_head head) s = handle_finalized head s
  handle (block b is_final) s = handle_block b is_final s
  handle (forked prev answer) s = handle_fork prev answer s
  handle maybe_on_head s = flush s

  unfoldable pub run : List Event → IngestGeneric → Handled
  run [] s = ([], ok s)
  run (e ∷ es) s = followed_by (handle e s) (run es)
