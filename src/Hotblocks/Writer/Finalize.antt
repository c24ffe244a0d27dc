-- ===== src/Hotblocks/Writer/Finalize.antt =====
-- `finalize` of write_controller.rs: the controller afterwards.
use data_lib.Common.{
  ℕ, ◌≤◌, ◌≡◌, refl, sym, ap, subst, ◌∙◌, Option, none, some, arith, Result, ok, err,
}
use data_lib.Storage.Data
use data_lib.Hotblocks.Writer.{publish_lem, option_map_head, WriteController, set_finalized_head}
use data_lib.Hotblocks.Writer.Commit.{publish_finality, finalize, commit_finality, commit_decision}
use data_lib.Storage.Data.{tables, last_block, first_block, Chunk, BlockRef}
use data_lib.Storage.Tx.{update_dataset, Dataset, chunk_entries, Env}
use data_lib.Hotblocks.Finality.Sound.{resolve_finality-IsApplied}
use data_lib.Hotblocks.Finality.{
  last_stored, head_after, integrity_fault, ignored, applied, resolve_finality, Decision,
}
use data_lib.Storage.Failure.{Failure}
use data_lib.Hotblocks.Writer.Invariant.{FinalizedUpTo, last_stored_lem, IsSynced}
use data_lib.Storage.Chunks.Tiling.{first_chunk, last_chunk, IsTiled}
use data_lib.Hotblocks.Writer.Retain.{relabel}
use data_lib.Storage.Tx.Update.{update_dataset-IsCommitted}
use data_lib.Hotblocks.Writer.Progress.{Advances-Follows, Follows-refl, Follows}

module _ {env : Env} where
  commit_finality-parts :
      (head report : BlockRef) (known : Option BlockRef) (floor : ℕ) (u : Option BlockRef)
      (s s' : Dataset env)
      → commit_finality head known floor report s ≡ ok (u, s')
      → (d : Decision) × (resolve_finality env.read_blocks
            (chunk_entries env s)
            s.label.finalized_head
            none
            floor
            report
          ≡ ok d)
        × (commit_decision d s ≡ ok (u, s'))
  unfolding commit_finality
  commit_finality-parts head report known floor u s s' h = at _ refl _ refl
    where
      at :
          (l : Result Failure (Option Chunk))
          → last_stored (chunk_entries env s) ≡ l
          → (d : Result Failure Decision)
          → resolve_finality env.read_blocks
              (chunk_entries env s)
              s.label.finalized_head
              none
              floor
              report
            ≡ d
          → (d : Decision) × (resolve_finality env.read_blocks
                (chunk_entries env s)
                s.label.finalized_head
                none
                floor
                report
              ≡ ok d)
            × (commit_decision d s ≡ ok (u, s'))
      at (err x) l d q = absurd (ground arith)
      at (ok last) l (err x) q = absurd (ground arith)
      at (ok last) l (ok d) q = (d, q, ground arith)

  -- The head of a synced controller is the one that a report is clamped to.
  head_after-head :
      (c : WriteController env) (h : BlockRef)
      → IsSynced c
      → head_after (chunk_entries env c.db) none ≡ ok h
      → c.head ≡ some h
  unfolding head_after
  head_after-head c h y e = y.head_stored ∙ at (last_chunk (chunk_entries env c.db)) refl
    where
      at :
          (l : Option Chunk)
          → last_chunk (chunk_entries env c.db) ≡ l
          → option_map_head (last_chunk (chunk_entries env c.db)) ≡ some h
      at none q = absurd (ground (arith, last_stored_lem (chunk_entries env c.db) y.tiled))
      at (some chunk) q = ground (arith, last_stored_lem (chunk_entries env c.db) y.tiled)

  -- What a committed `finalize` leaves.
  pub record Finalized (c c' : WriteController env) : Type 0 where
    pub synced : IsSynced c'
    pub same_window : chunk_entries env c'.db ≡ chunk_entries env c.db
    pub same_head : c'.head ≡ c.head
    pub follows : Follows c.finalized_head c'.finalized_head

  unchanged :
      (c : WriteController env) (db : Dataset env)
      → IsSynced c
      → chunk_entries env db ≡ chunk_entries env c.db
      → db.label.finalized_head ≡ c.db.label.finalized_head
      → Finalized c (record c { db = db })
  unchanged c db y e f = record {
    synced = record {
      tiled = subst IsTiled (sym e) y.tiled;
      head_stored = y.head_stored ∙ ap (λ es. option_map_head (last_chunk es)) (sym e);
      first_stored = y.first_stored ∙ ap (λ es. option_map_head (first_chunk es)) (sym e);
      finalized_stored = y.finalized_stored ∙ sym f;
      head_published = y.head_published;
      finalized_published = y.finalized_published;
      ordered = y.ordered;
    };
    same_window = e;
    same_head = refl;
    follows = Follows-refl c.finalized_head;
  }

  advanced :
      (c : WriteController env) (db : Dataset env) (b h : BlockRef)
      → IsSynced c
      → chunk_entries env db ≡ chunk_entries env c.db
      → db.label.finalized_head ≡ some b
      → c.head ≡ some h
      → b.number ≤ h.number
      → Follows c.finalized_head (some b)
      → Finalized c (publish_finality (some b) (record c { db = db }))
  unfolding publish_finality set_finalized_head
  advanced c db b h y e f q le w = record {
    synced = record {
      tiled = subst IsTiled (sym e) y.tiled;
      head_stored = y.head_stored ∙ ap (λ es. option_map_head (last_chunk es)) (sym e);
      first_stored = y.first_stored ∙ ap (λ es. option_map_head (first_chunk es)) (sym e);
      finalized_stored = sym f;
      head_published = y.head_published;
      finalized_published = publish_lem c.finalized_channel (some b);
      ordered = subst (FinalizedUpTo (some b)) (sym q) le;
    };
    same_window = e;
    same_head = refl;
    follows = w;
  }

  settle_finality :
      (c : WriteController env) (report : BlockRef) (d : Decision) (u : Option BlockRef)
      (left db : Dataset env)
      → IsSynced c
      → resolve_finality env.read_blocks
          (chunk_entries env c.db)
          c.db.label.finalized_head
          none
          c.start_block
          report
        ≡ ok d
      → commit_decision d c.db ≡ ok (u, left)
      → chunk_entries env db ≡ chunk_entries env left
      → db.label.finalized_head ≡ left.label.finalized_head
      → Finalized c (publish_finality u (record c { db = db }))
  unfolding commit_decision
  settle_finality c report (applied b) u left db y r s e f =
      let a =
        resolve_finality-IsApplied env.read_blocks (chunk_entries env c.db)
          c.db.label.finalized_head none c.start_block report b r in
      let el : relabel env (some b) c.db ≡ left = ground arith in
      let eu : some b ≡ u = ground arith in
      subst (λ x. Finalized c (publish_finality x (record c { db = db }))) eu
        (advanced c db b a.head y (e ∙ sym (ap (chunk_entries env) el))
          (f ∙ sym (ap (λ x. x.label.finalized_head) el) ∙ unfold Data.set_finalized_head in refl)
          (head_after-head c a.head y a.is_head) a.within
          (subst (λ x. Follows x (some b)) (sym y.finalized_stored)
            (Advances-Follows c.db.label.finalized_head b a.advances)))
  settle_finality c report (ignored reason) u left db y r s e f =
      let el : c.db ≡ left = ground arith in
      let eu : none ≡ u = ground arith in
      subst (λ x. Finalized c (publish_finality x (record c { db = db }))) eu
        (unfold publish_finality in
          unchanged c db y (e ∙ sym (ap (chunk_entries env) el))
            (f ∙ sym (ap (λ x. x.label.finalized_head) el)))
  settle_finality c report (integrity_fault reason) u left db y r s e f = absurd (ground arith)

  -- A `finalize` that succeeds leaves the window and the head as they were, keeps the controller in
  -- step with the committed state, and the finalized head stays or moves up, never past the head.
  pub finalize-Finalized :
      (report : BlockRef) (c c' : WriteController env)
      → IsSynced c
      → finalize report c ≡ ok c'
      → Finalized c c'
  unfolding finalize
  finalize-Finalized report c c' y h = at c.head refl
    where
      at : (head : Option BlockRef) → c.head ≡ head → Finalized c c'
      at none q =
          let e : c ≡ c' = ground arith in subst (Finalized c) e (unchanged c c.db y refl refl)
      at (some head) q = committed head q _ refl
        where
          committed :
              (head : BlockRef)
              → c.head ≡ some head
              → (r : Result Failure (Option BlockRef × Dataset env))
              → update_dataset env (commit_finality head c.finalized_head c.start_block report) c.db
                ≡ r
              → Finalized c c'
          committed head q (err e) r = absurd (ground arith)
          committed head q (ok (u, db)) r =
              let k = update_dataset-IsCommitted env _ c.db u db r in
              let (d, resolved, out) =
                commit_finality-parts head report c.finalized_head c.start_block u c.db k.left
                  k.body in
              let e : publish_finality u (record c { db = db }) ≡ c' = ground arith in
              subst (Finalized c) e (
                settle_finality c report d u k.left db y resolved out k.same_entries
                  k.same_finalized)
