-- ===== src/Hotblocks/Writer/NewChunk.antt =====
-- `new_chunk` of write_controller.rs: the controller afterwards.
use data_lib.Common.{
  ℕ, ◌≤◌, ◌≡◌, refl, sym, ap, subst, ◌∙◌, Option, [], ◌∷◌, ◌++◌, arith, Result, ok, err, ◌>>=◌,
  >>=-eq-ok,
}
use data_lib.Storage.Data
use data_lib.Hotblocks.Writer.{set_finalized_head}
use data_lib.Storage.Data.{last_block, Chunk, BlockRef, first_block}
use data_lib.Storage.Failure.{Failure}
use data_lib.Hotblocks.Writer.Commit.{new_chunk, publish_chunk, commit_chunk, admit}
use data_lib.Hotblocks.Writer.Invariant.{IsSynced}
use data_lib.Storage.Chunks.Tiling.{last_chunk-snoc, last_chunk, first_chunk, IsTiled}
use data_lib.Hotblocks.Writer.{
  abandon_tables, publish_lem, WriteController, set_head, chunk_entries, Dataset, Env,
  option_map_head,
}
use data_lib.Storage.Tx.Fork.{insert_fork_replaces, starting_below}
use data_lib.Storage.Tx.{delete_tables, insert_fork, update_dataset}
use data_lib.Hotblocks.Writer.Retain.{relabel}
use data_lib.Storage.Tx.Update.{update_dataset-IsCommitted}
use data_lib.Hotblocks.Writer.Admission.{
  kept_below, finalized_after-FinalizedUpTo, first_chunk-fork, admit-Admitted, Admitted,
}

module _ {env : Env} where
  -- A committed chunk: the finalized head that was admitted, and the window after the fork.
  pub record Committed (report : Option BlockRef) (chunk : Chunk) (floor : ℕ) (s db : Dataset env)
      (fin : Option BlockRef) : Type 0 where
    pub admitted :
        Admitted env.read_blocks (chunk_entries env s) s.label.finalized_head chunk floor report fin
    pub entries :
        chunk_entries env db
        ≡ starting_below (first_block chunk) (chunk_entries env s) ++ (last_block chunk, chunk) ∷ []
    pub tiled : IsTiled (chunk_entries env db)
    pub label : db.label.finalized_head ≡ fin

  commit_chunk-parts :
      (report fin : Option BlockRef) (chunk : Chunk) (floor : ℕ) (s s' : Dataset env)
      → commit_chunk chunk floor report s ≡ ok (fin, s')
      → (admit env.read_blocks (chunk_entries env s) s.label.finalized_head chunk floor report
          ≡ ok fin)
        × (insert_fork env chunk (relabel env fin s) ≡ ok s')
  unfolding commit_chunk
  commit_chunk-parts report fin chunk floor s s' h =
      let (f, admitted, rest) =
        >>=-eq-ok
          (admit env.read_blocks (chunk_entries env s) s.label.finalized_head chunk floor report)
          (λ f. insert_fork env chunk (relabel env f s) >>= λ x. ok (f, x)) h in
      let (x, inserted, same) =
        >>=-eq-ok (insert_fork env chunk (relabel env f s)) (λ x. ok (f, x)) rest in
      let ef : f ≡ fin = ground arith in
      let ex : x ≡ s' = ground arith in
      (
        admitted ∙ ap ok ef,
        subst (λ g. insert_fork env chunk (relabel env g s) ≡ ok s') ef (inserted ∙ ap ok ex),
      )

  pub commit_chunk-Committed :
      (report fin : Option BlockRef) (chunk : Chunk) (floor : ℕ) (s db : Dataset env)
      → IsTiled (chunk_entries env s)
      → first_block chunk ≤ last_block chunk
      → update_dataset env (commit_chunk chunk floor report) s ≡ ok (fin, db)
      → Committed report chunk floor s db fin
  commit_chunk-Committed report fin chunk floor s db t v h =
      let u = update_dataset-IsCommitted env (commit_chunk chunk floor report) s fin db h in
      let p = commit_chunk-parts report fin chunk floor s u.left u.body in
      let w = insert_fork_replaces env chunk (relabel env fin s) u.left t v p.1 in
      record {
        admitted = admit-Admitted _ _ _ chunk floor report fin p.0;
        entries = u.same_entries ∙ w.0;
        tiled = subst IsTiled (sym u.same_entries) w.1;
        label = u.same_finalized ∙ unfold Data.set_finalized_head in ap (λ l. l.finalized_head) w.2;
      }

  publish_chunk-IsSynced :
      (c : WriteController env) (report fin : Option BlockRef) (chunk : Chunk) (db : Dataset env)
      → first_block chunk ≤ last_block chunk
      → IsSynced c
      → Committed report chunk c.start_block c.db db fin
      → IsSynced (publish_chunk chunk fin (record c { db = db }))
  unfolding publish_chunk set_head set_finalized_head
  publish_chunk-IsSynced c report fin chunk db v y k = record {
    tiled = k.tiled;
    head_stored = sym (
        ap (λ es. option_map_head (last_chunk es)) k.entries
        ∙ ap option_map_head (
            last_chunk-snoc (starting_below (first_block chunk) (chunk_entries env c.db))
              (last_block chunk, chunk)));
    first_stored = rw y.first_stored (
        sym (
          ap (λ es. option_map_head (first_chunk es)) k.entries
          ∙ first_chunk-fork _ _ _ chunk c.start_block report fin y.tiled k.admitted));
    finalized_stored = sym k.label;
    head_published = publish_lem _ _;
    finalized_published = publish_lem _ _;
    ordered =
        finalized_after-FinalizedUpTo _ _ _ chunk c.start_block report fin
          (kept_below _ _ _ chunk v k.admitted.guarded) k.admitted.settled;
  }

  abandon_tables-IsSynced :
      (c : WriteController env) (chunk : Chunk) → IsSynced c → IsSynced (abandon_tables chunk c)
  unfolding abandon_tables delete_tables
  abandon_tables-IsSynced c chunk y = record {
    tiled = y.tiled;
    head_stored = y.head_stored;
    first_stored = y.first_stored;
    finalized_stored = y.finalized_stored;
    head_published = y.head_published;
    finalized_published = y.finalized_published;
    ordered = y.ordered;
  }

  -- Whether the chunk is committed or refused, `new_chunk` leaves a controller whose heads, channels
  -- and first chunk agree with the committed window, which is tiled, and whose finalized head is at or
  -- below its head. The chunk's range is taken to be non-empty.
  pub new_chunk-IsSynced :
      (report : Option BlockRef) (chunk : Chunk) (c : WriteController env)
      → first_block chunk ≤ last_block chunk
      → IsSynced c
      → IsSynced (new_chunk report chunk c).1
  unfolding new_chunk
  new_chunk-IsSynced report chunk c v y = at _ refl
    where
      at :
          (r : Result Failure (Option BlockRef × Dataset env))
          → update_dataset env (commit_chunk chunk c.start_block report) c.db ≡ r
          → IsSynced (new_chunk report chunk c).1
      at (err e) q = rw (q, new_chunk) (abandon_tables-IsSynced c chunk y)
      at (ok (fin, db)) q =
          rw (q, new_chunk)
            (publish_chunk-IsSynced c report fin chunk db v y
              (commit_chunk-Committed report fin chunk c.start_block c.db db y.tiled v q))
