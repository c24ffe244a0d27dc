-- ===== src/Hotblocks/Ingest/Trace.antt =====
-- The messages that `run` of ingest_generic.rs sends, as the writer sees them.
use data_lib.Common.{
  ℕ, ◌+◌, ◌≤◌, ◌<◌, ◌≡◌, inl, inr, refl, subst, ◌∙◌, String, Bool, true, false, Option, none, some,
  List, [], ◌∷◌, ◌++◌, arith, ltb, ◌==◌, str_eq, if◌then◌else◌, Result, ok, err, ensure, ◌>>=◌,
  Bool-cases, append_assoc, append-nil,
}
use data_lib.Storage.Data.{BlockRef}
use data_lib.Storage.Failure.{data_availability_changed, chain_continuity_violated, Failure}
use data_lib.Hotblocks.Ingest.{
  ChunkBuilder, DataBuilder, Message, finalized, chunk, fork, Event, finalized_head, block, forked,
  maybe_on_head, IngestGeneric, Handled, followed_by, finish, withheld, emit, flush, spill,
  maybe_flush, push_block, open_chunk, extend, change_mask, handle_block, handle_fork,
  handle_finalized, handle, run, flush_to_processor, num_rows, row_bound,
}
use data_lib.Primitives.{Block}

abbrev pub Reaches : Option ℕ → ℕ → Type 0
Reaches none n = Unit
Reaches (some floor) n = floor ≤ n

module _ (cb : ChunkBuilder) where
  -- What the writer sees: chunks one right after the other from a block on, the first of them up to
  -- the floor; finality reports on blocks below the next chunk; after the answer to a fork, the same
  -- from the answer's block and floor.
  abbrev pub IsTrace : ℕ → Option ℕ → List (Message cb) → Type 0
  IsTrace next floor [] = Unit
  IsTrace next floor (finalized head ∷ ms) = (head.number < next) × IsTrace next floor ms
  IsTrace next floor (chunk c ∷ ms) =
      (c.first_block ≡ next) × Reaches floor c.last_block × IsTrace (c.last_block + 1) none ms
  IsTrace next floor (fork prev none ∷ ms) = IsTrace next floor ms
  IsTrace next floor (fork prev (some r) ∷ ms) = IsTrace r.resume_from r.reach_at_least ms

  -- A handler's messages, before any that go on from the state it leaves.
  abbrev Traced : IngestGeneric cb → Handled cb → Type 0
  Traced s (ms, err e) = IsTrace s.first_block s.flush_floor ms
  Traced s (ms, ok s') =
      (rest : List (Message cb))
      → IsTrace s'.first_block s'.flush_floor rest
      → IsTrace s.first_block s.flush_floor (ms ++ rest)

  followed_by-Traced :
      (s : IngestGeneric cb) (m : Handled cb) (f : IngestGeneric cb → Handled cb)
      → Traced s m
      → ((s' : IngestGeneric cb) → Traced s' (f s'))
      → Traced s (followed_by cb m f)
  followed_by-Traced s (ms, err e) f t k = t
  followed_by-Traced s (ms, ok s') f t k = at (f s') (k s')
    where
      at : (h : Handled cb) → Traced s' h → Traced s (ms ++ h.0, h.1)
      at (ns, err e) u = t ns u
      at (ns, ok s'') u = λ rest r. rw append_assoc (t (ns ++ rest) (u rest r))

  -- A handler that sends nothing and keeps the place and the floor.
  abbrev Keeps : IngestGeneric cb → Result Failure (IngestGeneric cb) → Type 0
  Keeps s (err e) = Unit
  Keeps s (ok s') = (s'.first_block ≡ s.first_block) × (s'.flush_floor ≡ s.flush_floor)

  quiet-Traced :
      (s : IngestGeneric cb) (r : Result Failure (IngestGeneric cb)) → Keeps s r → Traced s ([], r)
  quiet-Traced s (err e) k = tt
  quiet-Traced s (ok s') k = λ rest t. rw (← k.0, ← k.1) t

  if-Traced :
      (s : IngestGeneric cb) (b : Bool) (x y : Handled cb)
      → Traced s x
      → (b ≡ false → Traced s y)
      → Traced s (if b then x else y)
  if-Traced s true x y t u = t
  if-Traced s false x y t u = u refl

  bind-Keeps {ℓ} :
      {A : Type ℓ} (s : IngestGeneric cb) (m : Result Failure A)
      (f : A → Result Failure (IngestGeneric cb))
      → ((a : A) → Keeps s (f a))
      → Keeps s (m >>= f)
  bind-Keeps s (err e) f k = tt
  bind-Keeps s (ok a) f k = k a

  Keeps-trans :
      (s s' : IngestGeneric cb) (r : Result Failure (IngestGeneric cb))
      → Keeps s (ok s')
      → Keeps s' r
      → Keeps s r
  Keeps-trans s s' (err e) k h = tt
  Keeps-trans s s' (ok s'') k h = (h.0 ∙ k.0, h.1 ∙ k.1)

  -- A chunk is sent only when it reaches the floor.
  not_withheld : (s : IngestGeneric cb) → withheld cb s ≡ false → Reaches s.flush_floor s.last_block
  unfolding withheld
  not_withheld s h = at s.flush_floor refl
    where
      at : (floor : Option ℕ) → s.flush_floor ≡ floor → Reaches floor s.last_block
      at none e = tt
      at (some floor) e = ground arith

  emit-Traced : (s : IngestGeneric cb) → withheld cb s ≡ false → Traced s (emit cb s)
  unfolding emit
  emit-Traced s w = at (finish cb s.builder) refl
    where
      at :
          (r : Result Failure (DataBuilder cb × List (String × cb.Table)))
          → finish cb s.builder ≡ r
          → Traced s (emit cb s)
      at (err e) q = rw (q, emit) tt
      at (ok (d, tables)) q = rw (q, emit) (λ rest t. (refl, not_withheld s w, t))

  flush-Traced : (s : IngestGeneric cb) → Traced s (flush cb s)
  unfolding flush
  flush-Traced s =
      if-Traced s (s.buffered_blocks == 0) ([], ok s) _ (λ rest t. t)
        (λ b.
          if-Traced s (withheld cb s) ([], ok (record s { withholding = true })) (emit cb s)
            (λ rest t. t) (emit-Traced s))

  open_chunk-Keeps : (b : Block cb.Body) (s : IngestGeneric cb) → Keeps s (open_chunk cb b s)
  open_chunk-Keeps b s = elim (Bool-cases (s.buffered_blocks == 0)) [
    | inl e ↦ rw e (refl, refl)
    | inr e ↦ rw e (
        bind-Keeps s (ensure (str_eq s.last_block_hash b.parent_hash) chain_continuity_violated) _
          (λ u. (refl, refl)))
  ]

  extend-Keeps :
      (b : Block cb.Body) (is_final : Bool) (s : IngestGeneric cb)
      → Keeps s (ok (extend cb b is_final s))
  extend-Keeps b true s = (refl, refl)
  extend-Keeps b false s = (refl, refl)

  push_block-Keeps :
      (b : Block cb.Body) (is_final : Bool) (s : IngestGeneric cb)
      → Keeps s (push_block cb b is_final s)
  unfolding push_block
  push_block-Keeps b is_final s = bind-Keeps s (cb.push b s.builder.builder) _ (λ d.
      opened (record s { builder = record s.builder { builder = d } }) _ (open_chunk-Keeps b _))
    where
      opened :
          (s' : IngestGeneric cb) (r : Result Failure (IngestGeneric cb))
          → Keeps s' r
          → Keeps s' (r >>= λ x. ok (extend cb b is_final x))
      opened s' (err e) k = tt
      opened s' (ok x) k =
          Keeps-trans s' x (ok (extend cb b is_final x)) k (extend-Keeps b is_final x)

  spill-Traced : (s : IngestGeneric cb) → Traced s (spill cb s)
  unfolding spill
  spill-Traced s =
      if-Traced s (ltb s.builder.spill_bound_bytes (cb.byte_size s.builder.builder)) _ ([], ok s)
        (quiet-Traced s _ (bind-Keeps s (flush_to_processor cb s.builder) _ (λ d. (refl, refl))))
        (λ b rest t. t)

  maybe_flush-Traced : (s : IngestGeneric cb) → Traced s (maybe_flush cb s)
  unfolding maybe_flush
  maybe_flush-Traced s =
      followed_by-Traced s
        (if ltb row_bound (num_rows cb s.builder) then flush cb s else ([], ok s)) (spill cb)
        (if-Traced s (ltb row_bound (num_rows cb s.builder)) (flush cb s) ([], ok s)
          (flush-Traced s) (λ b rest t. t))
        spill-Traced

  change_mask-Traced : (b : Block cb.Body) (s : IngestGeneric cb) → Traced s (change_mask cb b s)
  unfolding change_mask
  change_mask-Traced b s =
      if-Traced s (s.data_mask == b.data_mask) ([], ok s) _ (λ rest t. t)
        (λ differs. followed_by-Traced s (flush cb s) _ (flush-Traced s) (λ s'. quiet-Traced s' _ (
          bind-Keeps s' (ensure (s'.buffered_blocks == 0) data_availability_changed) _
            (λ u. (refl, refl)))))

  handle_block-Traced :
      (b : Block cb.Body) (is_final : Bool) (s : IngestGeneric cb)
      → Traced s (handle_block cb b is_final s)
  unfolding handle_block
  handle_block-Traced b is_final s =
      followed_by-Traced s (change_mask cb b s) _ (change_mask-Traced b s) (λ s'.
        followed_by-Traced s' ([], push_block cb b is_final s') (maybe_flush cb)
          (quiet-Traced s' (push_block cb b is_final s') (push_block-Keeps b is_final s'))
          maybe_flush-Traced)

  handle_finalized-Traced :
      (head : BlockRef) (s : IngestGeneric cb) → Traced s (handle_finalized cb head s)
  unfolding handle_finalized
  handle_finalized-Traced head s = elim (Bool-cases (ltb head.number s.first_block)) [
    | inl b ↦ rw b (λ rest t. (ground arith, t))
    | inr b ↦ rw b (λ rest t. t)
  ]

  handle-Traced : (e : Event cb) (s : IngestGeneric cb) → Traced s (handle cb e s)
  unfolding handle handle_fork
  handle-Traced (finalized_head head) s = handle_finalized-Traced head s
  handle-Traced (block b is_final) s = handle_block-Traced b is_final s
  handle-Traced (forked prev none) s = tt
  handle-Traced (forked prev (some r)) s = λ rest t. t
  handle-Traced maybe_on_head s = flush-Traced s

  run-Traced : (es : List (Event cb)) (s : IngestGeneric cb) → Traced s (run cb es s)
  unfolding run
  run-Traced [] s = λ rest t. t
  run-Traced (e ∷ es) s =
      followed_by-Traced s (handle cb e s) (run cb es) (handle-Traced e s) (run-Traced es)

  -- Whatever the source delivers, and whether or not the task fails in the end, the chunks that it sends
  -- start where the one before ended, or where the answer to a fork told it to resume; the first chunk
  -- after an answer reaches the answer's floor; a finality report is sent only below the next chunk.
  pub run-IsTrace :
      (es : List (Event cb)) (s : IngestGeneric cb)
      → IsTrace s.first_block s.flush_floor (run cb es s).0
  run-IsTrace es s = at (run cb es s) (run-Traced es s)
    where
      at : (h : Handled cb) → Traced s h → IsTrace s.first_block s.flush_floor h.0
      at (ms, err e) t = t
      at (ms, ok s') t = subst (IsTrace s.first_block s.flush_floor) (append-nil ms) (t [] tt)
