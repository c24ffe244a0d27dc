-- ===== src/Hotblocks/Writer/Retain/Trimmed.antt =====
-- The loop of `_retain` over a tiled window.
use data_lib.Common.{
  ◌⊎◌, subst, ◌<◌, true, All, ℕ, ◌≤◌, ◌≡◌, ◌≢◌, inl, inr, refl, sym, ap, ◌∙◌, String, Bool, false,
  Option, none, some, [], ◌∷◌, ◌++◌, map, arith, ltb, Result, ok, err, Bool-cases,
}
use data_lib.Hotblocks.Writer.Retain.{
  clear, hash_mismatch, check_parent, unfinalize, relabel, after_gap, finalized_from, Status,
  retain_chunks, keep_from, range,
}
use data_lib.Storage.Data
use data_lib.Storage.Data.{last_block, first_block, BlockRef, Chunk}
use data_lib.Storage.Tx.{chunk_entries, Dataset, delete_chunk, Env}
use data_lib.Storage.Chunks.{Entries}
use data_lib.Storage.Chunks.Tiling.{last_chunk-cons, last_chunk, item, IsTiled}
use data_lib.Storage.Kv.{Above-mono, remove_first, Above}
use data_lib.Storage.Failure.{Failure}
use data_lib.Hotblocks.Finality.{last_stored}
use data_lib.Hotblocks.Writer.Invariant.{last_stored_lem}

-- In a tiled window the later chunks are above the first one.
IsTiled-Above : (e : ℕ × Chunk) (es : Entries) → IsTiled (e ∷ es) → Above (last_block e.1) es
IsTiled-Above e [] t = tt
IsTiled-Above e (e' ∷ es) t = (
  omega arith,
  Above-mono es (last_block e.1) (last_block e'.1) (omega arith) (IsTiled-Above e' es t.2),
)

abbrev pub AllBelow : ℕ → Entries → Type 0
AllBelow from = All (λ e. last_block e.1 < from)

-- A chunk that reaches the floor starts above it, or has another block below it than the given one.
abbrev pub Mismatched : Env → ℕ → Option String → Chunk → Type 0
Mismatched env from hash chunk =
    (from < first_block chunk)
    ⊎ ((first_block chunk ≤ from)
        × ((actual : String) × (check_parent env chunk from hash ≡ ok (err actual))))

-- Why nothing is left of a window: it ends below the floor, or a mismatch may be deleted and the first
-- chunk that reaches the floor is one.
pub data Gone (env : Env) (from : ℕ) (hash : Option String) (dm : Bool) (es : Entries)
    : Type 0 where
  all_below : AllBelow from es → Gone env from hash dm es
  deleted :
      (pre post : Entries) (k : ℕ) (chunk : Chunk)
      → dm ≡ true
      → es ≡ pre ++ (k, chunk) ∷ post
      → AllBelow from pre
      → from ≤ last_block chunk
      → Mismatched env from hash chunk
      → Gone env from hash dm es

-- The outcome of the loop over the entries: everything is gone, or what is left begins with the chunk
-- that holds the floor, on the given parent, and reaches to the end.
pub data Outcome (env : Env) (from : ℕ) (hash : Option String) (dm : Bool) (es : Entries)
    (s : Dataset env) (st : Status) (s' : Dataset env) : Type 0 where
  cleared :
      Gone env from hash dm es
      → chunk_entries env s' ≡ []
      → s'.label.finalized_head ≡ none
      → ((c h : Chunk) (f : Option BlockRef) → st ≢ range c h f)
      → Outcome env from hash dm es s st s'
  trimmed :
      (pre post : Entries) (k : ℕ) (chunk head : Chunk)
      → es ≡ pre ++ (k, chunk) ∷ post
      → AllBelow from pre
      → check_parent env chunk from hash ≡ ok (ok tt)
      → chunk_entries env s' ≡ (k, chunk) ∷ post
      → first_block chunk ≤ from
      → from ≤ last_block chunk
      → last_chunk ((k, chunk) ∷ post) ≡ some head
      → st ≡ range chunk head (finalized_from chunk s.label.finalized_head)
      → s'.label.finalized_head ≡ finalized_from chunk s.label.finalized_head
      → Outcome env from hash dm es s st s'

after_gap-not_range :
    (n : ℕ) (status : Status)
    → ((c h : Chunk) (f : Option BlockRef) → status ≢ range c h f)
    → (c h : Chunk) (f : Option BlockRef) → after_gap n status ≢ range c h f
unfolding after_gap
after_gap-not_range n clear k c h f = ground arith
after_gap-not_range n status k c h f = k c h f

-- In a tiled window each later chunk starts above the first one.
tiled_above :
    (a : ℕ × Chunk) (pre : Entries) (e : ℕ × Chunk) (post : Entries)
    → IsTiled (a ∷ pre ++ e ∷ post)
    → last_block a.1 < first_block e.1
tiled_above a [] e post t = omega arith
tiled_above a (b ∷ pre) e post t =
    let ih : last_block b.1 < first_block e.1 = tiled_above b pre e post t.2 in
    omega (arith, t.1, t.2.0)

module _ (env : Env) where
  entries-delete_first :
      (e : ℕ × Chunk) (es : Entries) (s : Dataset env)
      → chunk_entries env s ≡ e ∷ es
      → IsTiled (e ∷ es)
      → chunk_entries env (delete_chunk env e.1 s) ≡ es
  unfolding delete_chunk
  entries-delete_first (k, c) es s h t =
      rw (env.chunk_cf.entries-delete, h)
        (remove_first (last_block c) k c es t.0.0 (IsTiled-Above (k, c) es t))

  label-delete_chunk : (c : Chunk) (s : Dataset env) → (delete_chunk env c s).label ≡ s.label
  unfolding delete_chunk
  label-delete_chunk c s = refl

module _ (env : Env) (from : ℕ) (hash : Option String) (dm : Bool) where
  -- One more entry below the part that is left.
  below_first :
      (e : ℕ × Chunk) (es : Entries) (s : Dataset env) (st : Status) (s' : Dataset env)
      → last_block e.1 < from
      → Outcome env from hash dm es (delete_chunk env e.1 s) st s'
      → Outcome env from hash dm (e ∷ es) s st s'
  unfolding delete_chunk
  below_first e es s st s' low (cleared (all_below l) a b c) = cleared (all_below (low, l)) a b c
  below_first e es s st s' low (cleared (deleted pre post k chunk d i l r m) a b c) =
      cleared (deleted (e ∷ pre) post k chunk d (ap (λ x. e ∷ x) i) (low, l) r m) a b c
  below_first e es s st s' low (trimmed pre post k chunk head a l p b c d h r f) =
      trimmed (e ∷ pre) post k chunk head (ap (λ x. e ∷ x) a) (low, l) p b c d h r f

  -- The first chunk that reaches the floor is a mismatch that may be deleted.
  mismatch_first :
      (k : ℕ) (chunk : Chunk) (es : Entries) (s : Dataset env) (st : Status) (s' : Dataset env)
      → dm ≡ true
      → IsTiled ((k, chunk) ∷ es)
      → from ≤ last_block chunk
      → Mismatched env from hash chunk
      → Outcome env from hash dm es (delete_chunk env chunk s) st s'
      → Outcome env from hash dm ((k, chunk) ∷ es) s st s'
  mismatch_first k chunk es s st s' del t reach m (cleared g a b c) =
      cleared (deleted [] es k chunk del refl tt reach m) a b c
  mismatch_first k chunk es s st s' del t reach m (trimmed pre post j kept head a l p b c d h r f) =
      let above =
        tiled_above (k, chunk) pre (j, kept) post (subst (λ x. IsTiled ((k, chunk) ∷ x)) a t) in
      absurd (omega (arith, above))

  keep_from-trims :
      (k : ℕ) (chunk : Chunk) (es : Entries) (s : Dataset env) (st : Status) (s' : Dataset env)
      → chunk_entries env s ≡ (k, chunk) ∷ es
      → IsTiled ((k, chunk) ∷ es)
      → first_block chunk ≤ from
      → from ≤ last_block chunk
      → check_parent env chunk from hash ≡ ok (ok tt)
      → keep_from env chunk s ≡ ok (st, s')
      → Outcome env from hash dm ((k, chunk) ∷ es) s st s'
  unfolding keep_from
  keep_from-trims k chunk es s st s' h t low high p r =
      let (head, last) = last_chunk-cons (k, chunk) es in
      let stored : last_stored (chunk_entries env s) ≡ ok (some head) =
        rw h (last_stored_lem ((k, chunk) ∷ es) t ∙ ap ok last) in
      let fin = finalized_from chunk s.label.finalized_head in
      let left : unfinalize env fin s ≡ s' = ground arith in
      trimmed [] es k chunk head refl tt p (ap (chunk_entries env) (sym left) ∙ kept fin ∙ h) low
        high last (ground arith)
        (ap (λ (x : Dataset env). x.label.finalized_head) (sym left) ∙ label fin refl)
    where
      kept : (f : Option BlockRef) → chunk_entries env (unfinalize env f s) ≡ chunk_entries env s
      kept none = unfold unfinalize in refl
      kept (some b) = unfold unfinalize in refl

      label :
          (f : Option BlockRef)
          → finalized_from chunk s.label.finalized_head ≡ f
          → (unfinalize env f s).label.finalized_head ≡ f
      label none q = unfold unfinalize Data.set_finalized_head in refl
      label (some b) q = unfold unfinalize finalized_from in ground arith

  pub retain_chunks-Outcome :
      (es : Entries) (status st : Status) (s s' : Dataset env)
      → chunk_entries env s ≡ es
      → IsTiled es
      → ((c h : Chunk) (f : Option BlockRef) → status ≢ range c h f)
      → retain_chunks env from hash dm (map item es) status s ≡ ok (st, s')
      → Outcome env from hash dm es s st s'
  unfolding retain_chunks
  retain_chunks-Outcome [] status st s s' h t n r =
      let e : relabel env none s ≡ s' = ground arith in
      let q : status ≡ st = ground arith in
      cleared (all_below tt) (ap (chunk_entries env) (sym e) ∙ h)
        (ap (λ (x : Dataset env). x.label.finalized_head) (sym e)
          ∙ unfold Data.set_finalized_head in refl)
        (λ a b f x. n a b f (q ∙ x))
  retain_chunks-Outcome ((k, chunk) ∷ es) status st s s' h t n r =
      let next = delete_chunk env chunk s in
      let ih =
        λ (status' : Status) (n' : (c h : Chunk) (f : Option BlockRef) → status' ≢ range c h f)
            (r' : retain_chunks env from hash dm (map item es) status' next ≡ ok (st, s')).
          retain_chunks-Outcome es status' st next s' (entries-delete_first env (k, chunk) es s h t)
            t.2 n' r' in
      elim (Bool-cases (ltb (last_block chunk) from)) [
        | inl below ↦
            below_first (k, chunk) es s st s' (ground (arith, below)) (ih status n (ground arith))
        | inr b ↦ elim (Bool-cases (ltb from (first_block chunk))) [
          | inl above ↦ elim (Bool-cases dm) [
            | inl del ↦
                mismatch_first k chunk es s st s' del t (ground (arith, b))
                  (inl (ground (arith, above)))
                  (ih (after_gap (first_block chunk) status)
                    (after_gap-not_range (first_block chunk) status n) (ground arith))
            | inr keep ↦ absurd (ground arith)
          ]
          | inr a ↦ at (check_parent env chunk from hash) refl b a ih
        ]
      ]
    where
      at :
          (x : Result Failure (Result String (Unit {0})))
          → check_parent env chunk from hash ≡ x
          → ltb (last_block chunk) from ≡ false
          → ltb from (first_block chunk) ≡ false
          → ((status' : Status)
              → ((c h : Chunk) (f : Option BlockRef) → status' ≢ range c h f)
              → retain_chunks env from hash dm (map item es) status' (delete_chunk env chunk s)
                ≡ ok (st, s')
              → Outcome env from hash dm es (delete_chunk env chunk s) st s')
          → Outcome env from hash dm ((k, chunk) ∷ es) s st s'
      at (err e) x b a ih = absurd (ground arith)
      at (ok (err actual)) x b a ih = elim (Bool-cases dm) [
        | inl del ↦
            mismatch_first k chunk es s st s' del t (ground (arith, b))
              (inr (ground (arith, a), (actual, x)))
              (ih hash_mismatch (λ c h' f q. cc) (ground arith))
        | inr keep ↦ absurd (ground arith)
      ]
      at (ok (ok u)) x b a ih =
          keep_from-trims k chunk es s st s' h t (ground arith) (ground arith) x (ground arith)
