-- ===== src/Hotblocks/Writer/Retain/Synced.antt =====
-- `_retain` of write_controller.rs: the controller afterwards.
use data_lib.Common.{
  ℕ, ◌≤◌, ◌≡◌, inl, inr, refl, sym, ap, subst, ◌∙◌, String, Bool, true, false, Option, none, some,
  [], ◌∷◌, ◌++◌, map, arith, eq_iff, Result, ok, err, Bool-cases,
}
use mathlib.Core.Path.{subst₂}
use data_lib.Hotblocks.Writer.Retain.{
  check_parent, retain_chunks, retain_with, apply_status, Status, finalized_from, range, clear, gap,
  hash_mismatch,
}
use data_lib.Hotblocks.Writer.Retain.Trimmed.{
  Gone, AllBelow, retain_chunks-Outcome, Outcome, cleared, trimmed,
}
use data_lib.Hotblocks.Writer.{
  starts_at, publish_lem, option_map_head, set_head, clear_heads, WriteController, option_hash_eq,
  set_finalized_head,
}
use data_lib.Storage.Chunks.{list_chunks, Entries}
use data_lib.Storage.Tx.{update_dataset, Dataset, chunk_entries, Env}
use data_lib.Storage.Chunks.Tiling.{list_chunks_whole, item, first_chunk, last_chunk, IsTiled}
use data_lib.Storage.Data.{last_block, first_block, BlockRef, Chunk}
use data_lib.Hotblocks.Writer.Invariant.{FinalizedUpTo, IsSynced}
use data_lib.Hotblocks.Finality.{get_chunk_head}
use data_lib.Storage.Failure.{Failure}
use data_lib.Storage.Tx.Update.{update_dataset-IsCommitted}

option_hash_eq-eq : (a b : Option String) → option_hash_eq a b ≡ true → a ≡ b
option_hash_eq-eq none none h = refl
option_hash_eq-eq none (some b) h = cc
option_hash_eq-eq (some a) none h = cc
option_hash_eq-eq (some a) (some b) h = ground (arith, eq_iff a b)

-- Where retention leaves the window.
pub data Left {env : Env} (dm : Bool) (from : ℕ) (hash : Option String) (c : WriteController env)
    (kept : Bool) (c' : WriteController env) : Type 0 where
  unchanged : kept ≡ true → c' ≡ c → Left dm from hash c kept c'
  emptied :
      kept ≡ false
      → Gone env from hash dm (chunk_entries env c.db)
      → chunk_entries env c'.db ≡ []
      → c'.head ≡ none
      → Left dm from hash c kept c'
  kept_from :
      (pre : Entries) (chunk : Chunk)
      → kept ≡ true
      → chunk_entries env c.db ≡ pre ++ chunk_entries env c'.db
      → AllBelow from pre
      → first_chunk (chunk_entries env c'.db) ≡ some chunk
      → first_block chunk ≤ from
      → from ≤ last_block chunk
      → check_parent env chunk from hash ≡ ok (ok tt)
      → c'.head ≡ c.head
      → Left dm from hash c kept c'

pub record Retained {env : Env} (dm : Bool) (from : ℕ) (hash : Option String)
    (c : WriteController env) (kept : Bool) (c' : WriteController env) : Type 0 where
  pub synced : IsSynced c'
  pub floor : c'.start_block ≡ from
  pub anchor : c'.parent_hash ≡ hash
  pub left : Left dm from hash c kept c'

IsTiled-drop : (pre post : Entries) → IsTiled (pre ++ post) → IsTiled post
IsTiled-drop [] post t = t
IsTiled-drop (e ∷ pre) post t = IsTiled-drop pre post t.2

last_chunk-drop :
    (pre : Entries) (e : ℕ × Chunk) (post : Entries)
    → last_chunk (pre ++ e ∷ post) ≡ last_chunk (e ∷ post)
last_chunk-drop [] e post = refl
last_chunk-drop (a ∷ []) e post = refl
last_chunk-drop (a ∷ b ∷ pre) e post = last_chunk-drop (b ∷ pre) e post

finalized_from-FinalizedUpTo :
    (chunk : Chunk) (f h : Option BlockRef)
    → FinalizedUpTo f h
    → FinalizedUpTo (finalized_from chunk f) h
unfolding finalized_from
finalized_from-FinalizedUpTo chunk none h o = tt
finalized_from-FinalizedUpTo chunk (some f) none o = absurd o
finalized_from-FinalizedUpTo chunk (some f) (some h) o = ground arith

module _ {env : Env} (dm : Bool) (from : ℕ) (hash : Option String) (c : WriteController env) where
  abbrev outcome : Status → Dataset env → WriteController env
  outcome st db = record (apply_status st (record c { db = db })).0 {
    start_block = from;
    parent_hash = hash;
  }

  clear_heads-Retained :
      (db : Dataset env)
      → Gone env from hash dm (chunk_entries env c.db)
      → chunk_entries env db ≡ []
      → db.label.finalized_head ≡ none
      → Retained dm from hash c false
          (record (clear_heads (record c { db = db })) { start_block = from; parent_hash = hash })
  unfolding clear_heads set_head set_finalized_head
  clear_heads-Retained db g e f = record {
    synced = record {
      tiled = subst IsTiled (sym e) tt;
      head_stored = ap (λ es. option_map_head (last_chunk es)) (sym e);
      first_stored = ap (λ es. option_map_head (first_chunk es)) (sym e);
      finalized_stored = sym f;
      head_published = publish_lem c.head_channel none;
      finalized_published = publish_lem c.finalized_channel none;
      ordered = tt;
    };
    floor = refl;
    anchor = refl;
    left = emptied refl g e refl;
  }

  range-Retained :
      (pre post : Entries) (k : ℕ) (chunk head : Chunk) (db : Dataset env)
      → IsSynced c
      → chunk_entries env c.db ≡ pre ++ (k, chunk) ∷ post
      → AllBelow from pre
      → check_parent env chunk from hash ≡ ok (ok tt)
      → chunk_entries env db ≡ (k, chunk) ∷ post
      → first_block chunk ≤ from
      → from ≤ last_block chunk
      → last_chunk ((k, chunk) ∷ post) ≡ some head
      → db.label.finalized_head ≡ finalized_from chunk c.db.label.finalized_head
      → Retained dm from hash c true
          (outcome (range chunk head (finalized_from chunk c.db.label.finalized_head)) db)
  unfolding apply_status set_head set_finalized_head
  range-Retained pre post k chunk head db y a under p b low high last f = record {
    synced = record {
      tiled =
          subst IsTiled (sym b) (IsTiled-drop pre ((k, chunk) ∷ post) (subst IsTiled a y.tiled));
      head_stored = sym (ap (λ es. option_map_head (last_chunk es)) b ∙ ap option_map_head last);
      first_stored = ap (λ es. option_map_head (first_chunk es)) (sym b);
      finalized_stored = sym f;
      head_published = publish_lem c.head_channel (some (get_chunk_head head));
      finalized_published =
          publish_lem c.finalized_channel (finalized_from chunk c.db.label.finalized_head);
      ordered =
          finalized_from-FinalizedUpTo chunk c.db.label.finalized_head (some (get_chunk_head head))
            (subst₂ FinalizedUpTo y.finalized_stored same_head y.ordered);
    };
    floor = refl;
    anchor = refl;
    left =
        kept_from pre chunk refl (a ∙ ap (λ x. pre ++ x) (sym b)) under (ap first_chunk b) low high
          p (sym same_head);
  }
    where
      same_head : c.head ≡ some (get_chunk_head head)
      same_head =
          y.head_stored
          ∙ ap (λ es. option_map_head (last_chunk es)) a
          ∙ ap option_map_head (last_chunk-drop pre (k, chunk) post ∙ last)

  apply_status-Retained :
      (st : Status) (s' db : Dataset env)
      → IsSynced c
      → Outcome env from hash dm (chunk_entries env c.db) c.db st s'
      → chunk_entries env db ≡ chunk_entries env s'
      → db.label.finalized_head ≡ s'.label.finalized_head
      → Retained dm from hash c (apply_status st (record c { db = db })).1 (outcome st db)
  unfolding apply_status
  apply_status-Retained (range a b f) s' db y (cleared g p q n) e l = absurd (n a b f refl)
  apply_status-Retained hash_mismatch s' db y (cleared g p q n) e l =
      clear_heads-Retained db g (e ∙ p) (l ∙ q)
  apply_status-Retained (gap x) s' db y (cleared g p q n) e l =
      clear_heads-Retained db g (e ∙ p) (l ∙ q)
  apply_status-Retained clear s' db y (cleared g p q n) e l =
      clear_heads-Retained db g (e ∙ p) (l ∙ q)
  apply_status-Retained st s' db y (trimmed pre post k chunk head a under p b low high last r f) e
        l =
      subst (λ x. Retained dm from hash c (apply_status x (record c { db = db })).1 (outcome x db))
        (sym r) (range-Retained pre post k chunk head db y a under p (e ∙ b) low high last (l ∙ f))

  retain_body :
      (kept : Bool) (c' : WriteController env)
      → (r : Result Failure (Status × Dataset env))
      → update_dataset env
          (λ s. retain_chunks env from hash dm (list_chunks 0 none (chunk_entries env s)) clear s)
          c.db
        ≡ r
      → IsSynced c
      → starts_at from hash c ≡ false
      → retain_with dm from hash c ≡ ok (kept, c')
      → Retained dm from hash c kept c'
  unfolding retain_with
  retain_body kept c' (err x) u y s h = absurd (ground arith)
  retain_body kept c' (ok (st, db)) u y s h =
      let k = update_dataset-IsCommitted env _ c.db st db u in
      let body : retain_chunks env from hash dm (map item (chunk_entries env c.db)) clear c.db
          ≡ ok (st, k.left) =
        subst (λ x. retain_chunks env from hash dm x clear c.db ≡ ok (st, k.left))
          (list_chunks_whole (chunk_entries env c.db) y.tiled) k.body in
      let o =
        retain_chunks-Outcome env from hash dm (chunk_entries env c.db) clear st c.db k.left refl
          y.tiled (λ a b f x. cc) body in
      let q = apply_status-Retained st k.left db y o k.same_entries k.same_finalized in
      let ek : (apply_status st (record c { db = db })).1 ≡ kept = ground arith in
      let ec : outcome st db ≡ c' = ground arith in
      subst₂ (λ x z. Retained dm from hash c x z) ek ec q

-- Retention that succeeds leaves the controller in step with a window that is what it was (when the
-- floor and parent hash were the requested ones already), or its part from the chunk that holds the
-- floor on, where this chunk has the requested parent hash below the floor if one is requested, with
-- the same head; or empty. It is empty only if all chunks end below the floor, or a mismatch may be
-- deleted and the first chunk that reaches the floor starts above it or has another parent hash below
-- it. The result tells the empty window from the others. The floor and its parent hash are the
-- requested ones, so that a request without a hash leaves none.
pub retain_with-Retained :
    {env : Env} (dm : Bool) (from : ℕ) (hash : Option String) (c : WriteController env)
    (kept : Bool) (c' : WriteController env)
    → IsSynced c
    → retain_with dm from hash c ≡ ok (kept, c')
    → Retained dm from hash c kept c'
unfolding retain_with starts_at
retain_with-Retained dm from hash c kept c' y h = elim (Bool-cases (starts_at from hash c)) [
  | inl there ↦
      let ek : true ≡ kept = ground arith in
      let ec : c ≡ c' = ground arith in
      subst₂ (λ x z. Retained dm from hash c x z) ek ec
        (record {
          synced = y;
          floor = ground arith;
          anchor = option_hash_eq-eq c.parent_hash hash (ground arith);
          left = unchanged refl refl;
        })
  | inr moved ↦ retain_body dm from hash c kept c' _ refl y moved h
]
