-- ===== src/Hotblocks/Writer/Rollback/Lands.antt =====
-- `compute_rollback` of write_controller.rs against the stored window.
use data_lib.Common.{
  ℕ, ◌≤◌, ◌≡◌, refl, sym, subst, ◌∙◌, String, Option, none, some, List, [], ◌∷◌, reverse, arith,
  Result, ok, err, last?,
}
use mathlib.Core.Path.{subst₂}
use data_lib.Storage.Data.{BlockRef, Chunk, first_block, last_block, parent_block_hash}
use data_lib.Storage.Failure.{Failure}
use data_lib.Storage.Chunks.{Entries, Items, list_chunks_reversed}
use data_lib.Storage.Chunks.Tiling.{IsTiled, LeadsTo}
use data_lib.Storage.Tx.{Env, Dataset, chunk_entries, insert_fork}
use data_lib.Storage.Tx.Fork.{insert_fork_succeeds, starting_below}
use data_lib.Hotblocks.Writer.{WriteController}
use data_lib.Hotblocks.Writer.Admission.{starting_below-none, window_start-first}
use data_lib.Hotblocks.Writer.Commit.{window_start}
use data_lib.Hotblocks.Writer.Invariant.{first_stored_lem}
use data_lib.Hotblocks.Writer.Rollback.{
  Rollback, search_boundary, resume, fall_back, compute_rollback, hints_from, reach,
}
use data_lib.Hotblocks.Writer.Rollback.Boundary.{
  next_chunks-Stored, boundary-LeadsTo, Stored-reverse, up_to-Stored, search_boundary-Yielded,
  Stored-first, Yielded, Stored,
}

reach_above : (n : ℕ) (fin : BlockRef) → n ≤ fin.number → reach n (some fin) ≡ some fin.number
unfolding reach
reach_above n fin le = ground arith

-- The place where a rollback resumes: a chunk that starts there under the expected parent hash can be
-- inserted, the place is in the window, and finalized blocks from there on are to be reached.
pub record Lands {env : Env} (c : WriteController env) (r : Rollback) : Type 0 where
  pub insertable :
      (chunk : Chunk)
      → first_block chunk ≡ r.resume_from
      → r.expected_parent_hash ≡ some (parent_block_hash chunk)
      → (s' : Dataset env) × (insert_fork env chunk c.db ≡ ok s')
  pub in_window :
      (start : ℕ)
      → window_start (chunk_entries env c.db) c.start_block ≡ ok start
      → start ≤ r.resume_from
  pub reaches :
      (fin : BlockRef)
      → c.db.label.finalized_head ≡ some fin
      → r.resume_from ≤ fin.number
      → r.reach_at_least ≡ some fin.number

module _ {env : Env} (c : WriteController env) (t : IsTiled (chunk_entries env c.db)) where
  -- Where `resume` lands.
  record Placed (n : ℕ) (hash : Option String) : Type 0 where
    leads :
        (chunk : Chunk)
        → first_block chunk ≡ n
        → hash ≡ some (parent_block_hash chunk)
        → LeadsTo (starting_below (first_block chunk) (chunk_entries env c.db)) chunk
    inside :
        (start : ℕ) → window_start (chunk_entries env c.db) c.start_block ≡ ok start → start ≤ n

  fall_back-Placed : (n : ℕ) (hash : Option String) → fall_back c ≡ ok (n, hash) → Placed n hash
  unfolding fall_back
  fall_back-Placed n hash h = at (chunk_entries env c.db) refl t
    where
      at : (es : Entries) → chunk_entries env c.db ≡ es → IsTiled es → Placed n hash
      at [] e t = record {
        leads = λ chunk f p. rw e tt;
        inside = λ start w. unfold window_start in ground (arith, first_stored_lem [] tt);
      }
      at (a ∷ es) e t =
          let n' : first_block a.1 ≡ n = ground (arith, first_stored_lem (a ∷ es) t) in
          record {
            leads = λ chunk f p.
                rw (e, starting_below-none (first_block chunk) a es t (omega (arith, f, n'))) tt;
            inside = λ start w.
                omega (arith, n', window_start-first a es c.start_block start t (rw e at w));
          }

  Stored-after :
      (d : Chunk) (start : ℕ)
      → Stored d (chunk_entries env c.db)
      → window_start (chunk_entries env c.db) c.start_block ≡ ok start
      → start ≤ last_block d
  Stored-after d start s w = at (chunk_entries env c.db) refl t
    where
      at : (es : Entries) → chunk_entries env c.db ≡ es → IsTiled es → start ≤ last_block d
      at [] e t = absurd (rw e at s)
      at (a ∷ es) e t = omega (
        arith,
        window_start-first a es c.start_block start t (rw e at w),
        (Stored-first d a es t (rw e at s)).0,
        (Stored-first d a es t (rw e at s)).1,
      )

  boundary-Placed :
      (n : ℕ) (hash : String) (items : Items) (prev : List BlockRef)
      → ((d : Chunk) → Yielded d items → Stored d (chunk_entries env c.db))
      → search_boundary items prev ≡ ok (some (n, hash))
      → Placed n (some hash)
  boundary-Placed n hash items prev stored h =
      let (d, y, e, f) = search_boundary-Yielded items prev n hash h in
      record {
        leads = λ chunk q p.
            boundary-LeadsTo d chunk (chunk_entries env c.db) t (stored d y)
              (ground (arith, e, q), ground (arith, p, f));
        inside = λ start w. omega (arith, e, Stored-after d start (stored d y) w);
      }

  yielded :
      (to : ℕ) (d : Chunk)
      → Yielded d (list_chunks_reversed 0 (some to) (chunk_entries env c.db))
      → Stored d (chunk_entries env c.db)
  unfolding list_chunks_reversed
  yielded to d y =
      up_to-Stored d (some to) (chunk_entries env c.db)
        (Stored-reverse d _ (next_chunks-Stored d 0 (some to) _ y))

  resume-Placed :
      (prev : List BlockRef) (n : ℕ) (hash : Option String)
      → resume prev c ≡ ok (n, hash)
      → Placed n hash
  unfolding resume
  resume-Placed prev n hash h = at (last? prev) refl
    where
      at : (top : Option BlockRef) → last? prev ≡ top → Placed n hash
      at none e = absurd (ground arith)
      at (some top) e = found _ refl
        where
          found :
              (r : Result Failure (Option (ℕ × String)))
              → search_boundary
                  (list_chunks_reversed 0 (some top.number) (chunk_entries env c.db))
                  (reverse prev)
                ≡ r
              → Placed n hash
          found (err x) r = absurd (ground arith)
          found (ok none) r = fall_back-Placed n hash (ground arith)
          found (ok (some (m, x))) r =
              let em : m ≡ n = ground arith in
              let ex : some x ≡ hash = ground arith in
              subst₂ Placed em ex (boundary-Placed m x _ (reverse prev) (yielded top.number) r)

  -- A computed rollback lands on a boundary of the tiled window: a chunk that starts there under the
  -- expected parent hash can be inserted, the place is not below the window, and a finalized head at
  -- or above it has to be reached.
  pub compute_rollback-Lands :
      (prev : List BlockRef) (r : Rollback) → compute_rollback prev c ≡ ok r → Lands c r
  unfolding compute_rollback
  compute_rollback-Lands prev r h = at _ refl
    where
      at :
          (x : Result Failure (List BlockRef))
          → hints_from c.db.label.finalized_head prev ≡ x
          → Lands c r
      at (err x) e = absurd (ground arith)
      at (ok hints) e = placed _ refl
        where
          placed : (x : Result Failure (ℕ × Option String)) → resume hints c ≡ x → Lands c r
          placed (err x) q = absurd (ground arith)
          placed (ok (n, hash)) q =
              let p = resume-Placed hints n hash q in
              let en : n ≡ r.resume_from = ground arith in
              let eh : hash ≡ r.expected_parent_hash = ground arith in
              let er : reach n c.db.label.finalized_head ≡ r.reach_at_least = ground arith in
              record {
                insertable = λ chunk f k.
                    (insert_fork_succeeds env chunk c.db t).0 (p.leads chunk (f ∙ sym en) (eh ∙ k));
                in_window = λ start w. subst (λ m. start ≤ m) en (p.inside start w);
                reaches = λ fin f le. sym er ∙ rw f (reach_above n fin (omega (arith, en, le)));
              }
