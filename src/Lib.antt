-- ===== src/Lib.antt =====
-- The SQD data lake of this repository: a log-structured store of blockchain blocks (crates/storage),
-- the service that keeps a dataset in step with a live chain (crates/hotblocks), the engine that
-- answers queries over chunks of data (crates/query), and their helpers.
--
-- A dataset is a label, with the finalized head, and a sequence of chunks. A chunk covers a range of
-- block numbers; the next one starts right after it and names its last block as parent. One writer per
-- dataset appends chunks, replaces a suffix of the chunks when the chain forks, finalizes blocks and
-- trims the window from below. Each change is one RocksDB transaction that commits whole or not at all.
--
-- Files:
--   Common       tests on numbers and strings, lists over the native numbers, results
--   Storage/Kv   a RocksDB column family as a parameter: a store whose entries `put` and `delete` change
--                as documented; `list_cf` shows that the laws can hold
--   Storage/Data crates/storage/src/db/data.rs: chunks, labels
--   Storage/Failure  the error values
--   Storage/Chunks   crates/storage/src/db/read/chunk.rs: ChunkIterator; Chunks/Tiling: windows of chunks
--   Storage/Blocks   crates/storage/src/db/read/blocks_table.rs and the lookups of write/tx.rs
--   Storage/Tx   crates/storage/src/db/write/tx.rs, write/dataset_update.rs and update_dataset of db.rs;
--                Tx/Fork: insert_fork, Tx/Update: commits
--   Storage/Prefix   validate_finalized_prefix of write/tx.rs; Prefix/Exact: what it decides
--   Storage/Retry    the commit loop of Tx::run in write/tx.rs; Retry/Bounded: how it ends
--   Primitives   crates/primitives/src/types.rs: blocks; Primitives/Sid: sid.rs, short ids
--   DataSource   crates/data-source/src/standard.rs: the state of StandardDataSource and of its endpoints;
--                DataSource/Poll: poll_endpoint, DataSource/Source: poll_next_event and set_position,
--                DataSource/Linked and Stream: the blocks delivered, DataSource/Consensus: the
--                fork consensus, DataSource/Backoff: the pauses
--   Hotblocks/Finality  resolve_finality of
--                crates/hotblocks/src/dataset_controller/write_controller.rs
--   Hotblocks/Writer    WriteController of the same file; Writer/Retain, Writer/Commit (finalize and
--                new_chunk), Writer/Invariant (what it means to be in step), Writer/Rebuilt (new), Writer/NewChunk,
--                Writer/Progress, Writer/Finalize, Writer/History (finalized blocks are kept),
--                Writer/Rollback (compute_rollback), Writer/Messages (handle_ingest_msg)
--   Hotblocks/Ingest    crates/hotblocks/src/dataset_controller/ingest_generic.rs: the task that makes
--                chunks of a stream of blocks; Ingest/Trace: the messages it sends,
--                Ingest/Fed: the task on a StandardDataSource
--   Bds/Chain    crates/bds/src/chain.rs and util.rs: the blocks at the head of a chain; Chain/Linked:
--                push, Chain/ForkBase: the base of a fork, Chain/Bisect, Chain/Finalize, Chain/Clean
--   Archive/Layout   crates/archive/src/layout.rs: Layout/Listing and Layout/Reversed:
--                the chunks of a range, Layout/Tracker: ChunkTracker
--   Ranges       crates/primitives/src/range: sorted lists of ranges
--   Query/Table  crates/query/src/plan/table.rs: the tables of a data set; Query/Rows: row_list.rs
--   Query/Rel    crates/query/src/plan/rel.rs: relations; Rel/Sort, Rel/Address: the order of addresses,
--                Rel/Children and Rel/Parents: what the searches find
--   Query/Plan   crates/query/src/plan/plan.rs: the builder; Plan/Simplify: simplify, Plan/Execute: the rows
--                that a plan selects, Plan/Built and Plan/Invariant: the plans that are made,
--                Plan/Consistent: what all methods keep,
--                Plan/Marks, Grows, Renumber, Retain, Refill, Rewritten, Covered: the passes of simplify,
--                Plan/Selected: what they leave as it is, Plan/ParentBlock: check_parent_block,
--                Plan/Weights: set_output_weights and build, Weights/Rows: the
--                weight of a row, Weights/Whole: the plan that is built; Query/Exp: crates/query/src/json/exp.rs
--   Query/Writer crates/query/src/plan/result.rs and crates/query/src/json_writer.rs: the JSON of blocks;
--                Writer/Items, Writer/Blocks: one block, Writer/Lines and Writer/LineStream: a line for
--                each, Writer/Arrays and Writer/ArrayStream: one array
--   Tests        a small chain, small plans and the theorems at them
--
-- State and operations. A method of the source that takes `&mut self` is a function from the controller
-- to the result and the new controller. The view of a transaction is passed along; a method that fails
-- inside a transaction returns the error alone, because the transaction is dropped with its writes. The
-- chunks of a dataset are the entries of a column family in key order, the key being the last block.
-- The tables of a chunk are read through a function from the table's number to its rows. Block numbers
-- are natural numbers; `next_block` and `last_block + 1` do not wrap, which needs blocks below 2 ^ 64 - 1.
-- Item indexes are numbers of 32 bits, whose wrap-around is written out.
--
-- Not modelled: the byte encoding of keys and chunks, Arrow columns, metrics and log lines, the text of
-- error messages, table building, the asynchronous tasks around the writer, and the other crates as the
-- components say. Of the query engine the scans, the joins of polars and the JSON encoders are
-- left out: a chunk of data is a parameter, with what a plan relies on of it. Loops over iterators are
-- structural recursion on the list of items. Four loops run on fuel, which their
-- theorems show to be enough: the commit loop, on the number of attempts that its policy grants,
-- bisect, on the distance of its two ends, and the two loops that write blocks, on the number of
-- headers; without fuel they have no answer.
pub mod Archive
pub mod Bds
pub mod Common
pub mod DataSource
pub mod Hotblocks
pub mod Primitives
pub mod Query
pub mod Ranges
pub mod Storage
pub mod Tests
