-- ===== src/Tests/IngestTests.antt =====
-- The theorems on the ingest task at a builder that counts rows, and a short stream.
use data_lib.Common.{
  err, ◌≢◌, ℕ, ◌+◌, ◌≡◌, refl, String, true, false, none, some, List, [], ◌∷◌, ok,
}
use data_lib.Hotblocks.Ingest
use data_lib.Hotblocks.Ingest.{
  ChunkBuilder, Event, finalized_head, forked, maybe_on_head, IngestGeneric, run,
}
use data_lib.DataSource
use data_lib.DataSource.Source
use data_lib.DataSource.Poll
use data_lib.Hotblocks.Ingest.Fed
use data_lib.DataSource.Source.{fresh_endpoint}
use data_lib.Storage.Failure.{chain_continuity_violated}
use data_lib.Hotblocks.Ingest.Fed.{Turn, run_on, IsLinked, IsCalm}
use data_lib.Hotblocks.Ingest.Fed.Pump.{run_on-IsLinked}
use data_lib.Hotblocks.Ingest.Trace.{IsTrace, run-IsTrace}

-- Blocks carry a number of rows, and the builder keeps their sum.
abbrev counting : ChunkBuilder
counting = record {
  Body = ℕ;
  Builder = ℕ;
  Processor = ℕ;
  Table = ℕ;
  push = λ b rows. ok (rows + b.body);
  max_num_rows = λ rows. rows;
  byte_size = λ rows. rows;
  clear = λ rows. 0;
  new_chunk_processor = λ rows. ok 0;
  submit_to_processor = λ rows held. ok (rows, held + rows);
  prepare_in_memory = λ rows. ok (0, ("blocks", rows) ∷ []);
  processor_rows = λ held. held;
  finish = λ held. ok (("blocks", held) ∷ []);
  has_data = λ mask name. true;
}

abbrev block : ℕ → String → String → Event counting
block n h p =
    Ingest.block
      (record { number = n; hash = h; parent_hash = p; timestamp = none; data_mask = 1; body = 1 })
      false

abbrev resumed : IngestGeneric counting
resumed = record {
  position = (3, some "a2");
  builder = record { builder = 0; processor = none; spill_bound_bytes = 100 };
  finalized = none;
  buffered_blocks = 0;
  parent_block_hash = "";
  first_block = 3;
  first_block_time = none;
  last_block = 0;
  last_block_hash = "";
  last_block_time = none;
  data_mask = 1;
  flush_floor = some 4;
  withholding = false;
}

-- The flush after block 3 is withheld.
abbrev stream : List (Event counting)
stream = block 3 "b3" "a2" ∷ maybe_on_head ∷ block 4 "b4" "b3" ∷ maybe_on_head ∷ []

abbrev lengths : List (Ingest.Message counting) → List (ℕ × ℕ)
lengths [] = []
lengths (Ingest.chunk c ∷ ms) = (c.first_block, c.last_block) ∷ lengths ms
lengths (Ingest.finalized h ∷ ms) = lengths ms
lengths (Ingest.fork prev answer ∷ ms) = lengths ms

one_chunk : lengths (run counting stream resumed).0 ≡ (3, 4) ∷ []
unfolding run Ingest.handle Ingest.handle_block Ingest.change_mask Ingest.push_block
    Ingest.maybe_flush Ingest.num_rows Ingest.spill Ingest.flush Ingest.withheld Ingest.emit
    Ingest.finish
one_chunk = refl

run-IsTrace_example : IsTrace counting 3 (some 4) (run counting stream resumed).0
run-IsTrace_example = run-IsTrace counting stream resumed

-- The same over a source of one client, which delivers blocks 3 and 4 and then signals a fork.
abbrev delivers : ℕ → String → String → DataSource.Answer ℕ
delivers n h p = record {
  response = DataSource.streaming none;
  item =
      DataSource.parsed (record {
        number = n;
        hash = h;
        parent_hash = p;
        timestamp = none;
        data_mask = 1;
        body = 1;
      });
  slept = false;
}

abbrev turn : List (DataSource.Answer ℕ) → Turn counting
turn polls = record {
  answers = polls ∷ [];
  elapsed = false;
  rollback =
      some (record { resume_from = 4; expected_parent_hash = some "b3"; reach_at_least = none });
}

abbrev ended : DataSource.Answer ℕ
ended = record { response = DataSource.streaming none; item = DataSource.ended; slept = false }

abbrev turns : List (Turn counting)
turns =
    turn (ended ∷ delivers 3 "b3" "a2" ∷ [])
    ∷ turn (delivers 4 "b4" "b3" ∷ [])
    ∷ turn (ended ∷ [])
    ∷ []

abbrev source : DataSource.StandardDataSource
source = record {
  endpoints = fresh_endpoint ∷ [];
  state = record {
    finalized_head = none;
    position = record { first_block = 3; parent_block_hash = some "a2" };
    position_is_canonical = false;
    max_seen_finalized_block = 0;
    timer = false;
    consensus_started = false;
  };
}

counting-IsCalm : IsCalm counting
counting-IsCalm = (λ b x q. cc, λ x q. cc, λ x p q. cc, λ x q. cc, λ p q. cc)

run_on-IsLinked_example :
    IsLinked counting (some "a2") (run_on counting turns source 0 100).0
    × ((run_on counting turns source 0 100).1 ≢ err chain_continuity_violated)
run_on-IsLinked_example = run_on-IsLinked counting counting-IsCalm turns source 0 100

sends_both : lengths (run_on counting turns source 0 100).0 ≡ (3, 4) ∷ []
unfolding Ingest.handle Ingest.handle_block Ingest.change_mask Ingest.push_block Ingest.new_ingest
    Ingest.maybe_flush Ingest.num_rows Ingest.spill Ingest.flush Ingest.withheld Ingest.emit
    Ingest.finish Fed.pump Source.poll_next_event Poll.poll_all Poll.poll_endpoint Poll.poll_once
    Poll.wake Poll.on_response Poll.on_stream Poll.on_item Poll.on_block Poll.on_end
    DataSource.on_new_finalized_head DataSource.accept_new_block DataSource.reset_fork_consensus
sends_both = refl
