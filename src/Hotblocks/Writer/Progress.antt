-- ===== src/Hotblocks/Writer/Progress.antt =====
-- `new_chunk` of write_controller.rs: what it commits.
use data_lib.Common.{
  ℕ, ◌≤◌, ◌<◌, ◌≡◌, ◌⊎◌, inl, inr, refl, sym, subst, Option, none, some, [], ◌∷◌, ◌++◌, arith,
  Result, ok, err, >>=-eq-ok,
}
use data_lib.Hotblocks.Writer.{set_head, WriteController, set_finalized_head}
use data_lib.Hotblocks.Writer.Commit.{
  publish_chunk, commit_chunk, settle, new_chunk, finalized_after,
}
use data_lib.Storage.Data.{last_block, first_block, Chunk, BlockRef}
use data_lib.Storage.Tx.{update_dataset, Dataset, chunk_entries, Env}
use data_lib.Hotblocks.Finality.Sound.{resolve_finality-IsApplied, Advances}
use data_lib.Storage.Blocks.{Reader}
use data_lib.Storage.Chunks.{Entries}
use data_lib.Hotblocks.Finality.{
  integrity_fault, get_chunk_head, ignored, applied, resolve_finality, Decision,
}
use data_lib.Storage.Failure.{Failure}
use data_lib.Hotblocks.Writer.Invariant.{IsSynced}
use data_lib.Storage.Tx.Fork.{starting_below}
use data_lib.Hotblocks.Writer.NewChunk.{commit_chunk-Committed}

-- The finalized head stays, or moves to a higher block.
abbrev pub Follows : Option BlockRef → Option BlockRef → Type 0
Follows none g = Unit
Follows (some f) none = ⊥
Follows (some f) (some g) = (g ≡ f) ⊎ (f.number < g.number)

pub Follows-refl : (f : Option BlockRef) → Follows f f
Follows-refl none = tt
Follows-refl (some f) = inl refl

pub Advances-Follows : (f : Option BlockRef) (g : BlockRef) → Advances f g → Follows f (some g)
Advances-Follows none g a = tt
Advances-Follows (some f) g a = inr a

finalized_after-Follows :
    (rb : Reader) (es : Entries) (current : Option BlockRef) (chunk : Chunk) (floor : ℕ)
    (report fin : Option BlockRef)
    → finalized_after rb es current chunk floor report ≡ ok fin
    → Follows current fin
unfolding finalized_after
finalized_after-Follows rb es current chunk floor none fin h =
    let e : current ≡ fin = ground arith in subst (Follows current) e (Follows-refl current)
finalized_after-Follows rb es current chunk floor (some report) fin h =
    let (d, resolved, settled) =
      >>=-eq-ok (resolve_finality rb es current (some chunk) floor report) (settle current) h in
    at d resolved settled
  where
    at :
        (d : Decision)
        → resolve_finality rb es current (some chunk) floor report ≡ ok d
        → settle current d ≡ ok fin
        → Follows current fin
    at (applied b) r s =
        let a = resolve_finality-IsApplied rb es current (some chunk) floor report b r in
        let e : some b ≡ fin = unfold settle in ground arith in
        subst (Follows current) e (Advances-Follows current b a.advances)
    at (ignored reason) r s =
        let e : current ≡ fin = unfold settle in ground arith in
        subst (Follows current) e (Follows-refl current)
    at (integrity_fault reason) r s = absurd (unfold settle in ground arith)

module _ {env : Env} where
  -- A committed chunk is the new head, all stored chunks that started at or above it are gone and the
  -- others stay; the finalized head stays or moves up. Nothing is assumed of the chunk but that its
  -- range is not empty.
  pub new_chunk_commits :
      (report : Option BlockRef) (chunk : Chunk) (c : WriteController env)
      → first_block chunk ≤ last_block chunk
      → IsSynced c
      → (new_chunk report chunk c).0 ≡ ok tt
      → let c' = (new_chunk report chunk c).1 in
        (chunk_entries env c'.db
          ≡ starting_below (first_block chunk) (chunk_entries env c.db)
            ++ (last_block chunk, chunk) ∷ [])
        × (c'.head ≡ some (get_chunk_head chunk))
        × Follows c.finalized_head c'.finalized_head
  unfolding new_chunk
  new_chunk_commits report chunk c v y h = at _ refl
    where
      at :
          (r : Result Failure (Option BlockRef × Dataset env))
          → update_dataset env (commit_chunk chunk c.start_block report) c.db ≡ r
          → let c' = (new_chunk report chunk c).1 in
            (chunk_entries env c'.db
              ≡ starting_below (first_block chunk) (chunk_entries env c.db)
                ++ (last_block chunk, chunk) ∷ [])
            × (c'.head ≡ some (get_chunk_head chunk))
            × Follows c.finalized_head c'.finalized_head
      at (err e) q = absurd (ground arith)
      at (ok (fin, db)) q =
          let k = commit_chunk-Committed report fin chunk c.start_block c.db db y.tiled v q in
          let f =
            finalized_after-Follows env.read_blocks (chunk_entries env c.db)
              c.db.label.finalized_head chunk c.start_block report fin k.admitted.settled in
          rw (q, new_chunk)
            (unfold publish_chunk set_head set_finalized_head in
              (k.entries, refl, subst (λ x. Follows x fin) (sym y.finalized_stored) f))
