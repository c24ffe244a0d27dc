-- ===== src/Hotblocks/Ingest/Fed/Pump.antt =====
-- The loop of ingest_generic.rs, from one event of the data source to the next.
use data_lib.Common.{
  ℕ, ◌+◌, ◌≤◌, ◌≡◌, ◌≢◌, inl, inr, refl, sym, ap, subst, String, Bool, true, false, Option, none,
  some, List, [], ◌∷◌, arith, ltb, ◌==◌, str_eq, eq_iff, if◌then◌else◌, Result, ok, err, ensure,
  ◌>>=◌, ◌>>◌, Bool-cases, append-nil,
}
use data_lib.Primitives.{Block}
use data_lib.Storage.Data.{BlockRef}
use data_lib.Storage.Failure.{data_availability_changed, chain_continuity_violated, Failure}
use data_lib.Hotblocks.Writer.Rollback.{Rollback}
use data_lib.Hotblocks.Ingest.{
  new_ingest, ChunkBuilder, IngestGeneric, Handled, flush, spill, maybe_flush, push_block,
  open_chunk, extend, change_mask, handle_block, handle_fork, handle_finalized, handle, num_rows,
  row_bound,
}
use data_lib.DataSource
use data_lib.DataSource.{Request, DataEvent, Answer, StandardDataSource, links}
use data_lib.DataSource.Source.{Outcome, event, nothing, panicked, poll_next_event}
use data_lib.DataSource.Linked.{after, Follows, outcome_event, poll_next_event-Follows}
use data_lib.DataSource.Stream.{set_position_position}
use data_lib.Hotblocks.Ingest.Fed.{
  Turn, handled_of, next_source, pump, run_on, IsLinked, Holds, Fed, IsCalm, Meets,
  followed_by-Meets, Calm, flush-Meets, spill-Meets,
}

suc_not_zero : (n : ℕ) → (n + 1 == 0) ≡ false
suc_not_zero n = ground arith

str_eq_sym : (a b : String) → str_eq a b ≡ true → str_eq b a ≡ true
str_eq_sym a b h = (eq_iff b a).1 (sym ((eq_iff a b).0 h))

module _ (cb : ChunkBuilder) where
  change_mask-Meets :
      IsCalm cb
      → (b : Block cb.Body) (parent : Option String) (p : Request) (s : IngestGeneric cb)
      → Fed cb parent p s
      → Meets cb parent (λ left s'. Fed cb left p s') (change_mask cb b s)
  unfolding change_mask
  change_mask-Meets calm b parent p s fed = elim (Bool-cases (s.data_mask == b.data_mask)) [
    | inl e ↦ rw e (parent, fed, λ rest t. t)
    | inr e ↦ rw e (
        followed_by-Meets cb parent (λ left s'. Fed cb left p s') (λ left s'. Fed cb left p s')
          (flush cb s) _ (flush-Meets cb calm parent p s fed) masked)
  ]
    where
      masked :
          (left : Option String) (s' : IngestGeneric cb)
          → Fed cb left p s'
          → Meets cb left
              (λ left' s''. Fed cb left' p s'')
              (
                [],
                ensure (s'.buffered_blocks == 0) data_availability_changed
                    >> ok (record s' { data_mask = b.data_mask }),
              )
      masked left s' fed' = elim (Bool-cases (s'.buffered_blocks == 0)) [
        | inl e ↦ rw e (left, fed', λ rest t. t)
        | inr e ↦ rw e (tt, λ z. cc)
      ]

  extend-Holds :
      (b : Block cb.Body) (is_final : Bool) (parent : Option String) (s : IngestGeneric cb)
      → links parent s.parent_block_hash ≡ true
      → s.first_block ≤ b.number
      → Fed cb parent (after b) (extend cb b is_final s)
  extend-Holds b true parent s l h = rw (suc_not_zero s.buffered_blocks) (l, h, refl, refl)
  extend-Holds b false parent s l h = rw (suc_not_zero s.buffered_blocks) (l, h, refl, refl)

  open_chunk-Meets :
      (b : Block cb.Body) (is_final : Bool) (parent : Option String) (p : Request)
      (s : IngestGeneric cb)
      → Fed cb parent p s
      → p.first_block ≤ b.number
      → links p.parent_block_hash b.parent_hash ≡ true
      → Meets cb parent
          (λ left s'. Fed cb left (after b) s')
          ([], open_chunk cb b s >>= λ x. ok (extend cb b is_final x))
  open_chunk-Meets b is_final parent p s fed above linked = at _ refl
    where
      at :
          (empty : Bool)
          → (s.buffered_blocks == 0) ≡ empty
          → Meets cb parent
              (λ left s'. Fed cb left (after b) s')
              ([], open_chunk cb b s >>= λ x. ok (extend cb b is_final x))
      at true e = rw e (
        parent,
        extend-Holds b is_final parent
            (record s { parent_block_hash = b.parent_hash; first_block_time = b.timestamp })
            (subst (λ h. links h b.parent_hash ≡ true) held.1 linked) (omega (arith, held.0)),
        λ rest t. t,
      )
        where
          held : Holds cb parent p s true
          held = subst (Holds cb parent p s) e fed
      at false e =
          rw (e, same)
            (
              parent,
              extend-Holds b is_final parent s held.0 (omega (arith, held.1, held.2)),
              λ rest t. t,
            )
        where
          held : Holds cb parent p s false
          held = subst (Holds cb parent p s) e fed

          same : str_eq s.last_block_hash b.parent_hash ≡ true
          same =
              str_eq_sym b.parent_hash s.last_block_hash
                (subst (λ h. links h b.parent_hash ≡ true) held.3 linked)

  maybe_flush-Meets :
      IsCalm cb
      → (parent : Option String) (p : Request) (s : IngestGeneric cb) → Fed cb parent p s
      → Meets cb parent (λ left s'. Fed cb left p s') (maybe_flush cb s)
  unfolding maybe_flush
  maybe_flush-Meets calm parent p s fed =
      followed_by-Meets cb parent ends ends
        (if ltb row_bound (num_rows cb s.builder) then flush cb s else ([], ok s)) (spill cb)
        (at _ refl) (λ left s' fed'. spill-Meets cb calm left p s' fed')
    where
      ends : Option String → IngestGeneric cb → Type 0
      ends left s' = Fed cb left p s'

      at :
          (full : Bool)
          → ltb row_bound (num_rows cb s.builder) ≡ full
          → Meets cb parent ends
              (if ltb row_bound (num_rows cb s.builder) then flush cb s else ([], ok s))
      at true e = rw e (flush-Meets cb calm parent p s fed)
      at false e = rw e (parent, fed, λ rest t. t)

  handle_block-Meets :
      IsCalm cb
      → (b : Block cb.Body) (is_final : Bool) (parent : Option String) (p : Request)
        (s : IngestGeneric cb)
      → Fed cb parent p s
      → p.first_block ≤ b.number
      → links p.parent_block_hash b.parent_hash ≡ true
      → Meets cb parent (λ left s'. Fed cb left (after b) s') (handle_block cb b is_final s)
  unfolding handle_block push_block
  handle_block-Meets calm b is_final parent p s fed above linked =
      followed_by-Meets cb parent (λ left s'. Fed cb left p s') ends (change_mask cb b s) _
        (change_mask-Meets calm b parent p s fed)
        (λ left s' fed'.
          followed_by-Meets cb left ends ends ([], push_block cb b is_final s') (maybe_flush cb)
            (pushed left s' fed') (λ left' s''. maybe_flush-Meets calm left' (after b) s''))
    where
      ends : Option String → IngestGeneric cb → Type 0
      ends left s' = Fed cb left (after b) s'

      pushed :
          (left : Option String) (s' : IngestGeneric cb)
          → Fed cb left p s'
          → Meets cb left ends ([], push_block cb b is_final s')
      pushed left s' fed' = at (cb.push b s'.builder.builder) (calm.0 b s'.builder.builder)
        where
          at :
              (r : Result Failure cb.Builder)
              → Calm cb r
              → Meets cb left ends (
                [],
                r >>= λ d.
                    open_chunk cb b (record s' { builder = record s'.builder { builder = d } })
                    >>= λ x. ok (extend cb b is_final x),
              )
          at (err e) c = (tt, λ z. c (ap err z))
          at (ok d) c =
              open_chunk-Meets b is_final left p
                (record s' { builder = record s'.builder { builder = d } }) fed' above linked

  abbrev Ends : Request → Option String → IngestGeneric cb → Type 0
  Ends p left s = Fed cb left p s

  handle_finalized-Meets :
      (head : BlockRef) (parent : Option String) (p : Request) (s : IngestGeneric cb)
      → Fed cb parent p s
      → Meets cb parent (Ends p) (handle_finalized cb head s)
  unfolding handle_finalized
  handle_finalized-Meets head parent p s fed = elim (Bool-cases (ltb head.number s.first_block)) [
    | inl e ↦ rw e (parent, fed, λ rest t. t)
    | inr e ↦ rw e (parent, fed, λ rest t. t)
  ]

  move-Meets :
      (parent : Option String) (p q : Request) (h : Handled cb)
      → q ≡ p
      → Meets cb parent (Ends p) h
      → Meets cb parent (Ends q) h
  move-Meets parent p q h e m = subst (λ r. Meets cb parent (Ends r) h) (sym e) m

  handled-Meets :
      IsCalm cb
      → (o : Outcome cb.Body) (answer : Option Rollback) (d : StandardDataSource)
        (parent : Option String) (p : Request) (s : IngestGeneric cb)
      → Fed cb parent p s
      → Follows p (outcome_event cb.Body o) d.state.position
      → Meets cb parent (Ends (next_source cb o answer d).state.position) (handled_of cb o answer s)
  unfolding handle handle_fork
  handled-Meets calm (event (DataSource.finalized_head head)) answer d parent p s fed f =
      move-Meets parent p _ (handle_finalized cb head s) f
        (handle_finalized-Meets head parent p s fed)
  handled-Meets calm (event (DataSource.block b is_final)) answer d parent p s fed f =
      move-Meets parent (after b) _ (handle_block cb b is_final s) f.2
        (handle_block-Meets calm b is_final parent p s fed f.0 f.1)
  handled-Meets calm (event (DataSource.fork prev)) none d parent p s fed f = (tt, λ z. cc)
  handled-Meets calm (event (DataSource.fork prev)) (some r) d parent p s fed f =
      rw (set_position_position r.resume_from r.expected_parent_hash d)
        (r.expected_parent_hash, (omega arith, refl), λ rest t. t)
  handled-Meets calm (event DataSource.maybe_on_head) answer d parent p s fed f =
      move-Meets parent p _ (flush cb s) f (flush-Meets cb calm parent p s fed)
  handled-Meets calm nothing answer d parent p s fed f =
      move-Meets parent p _ ([], ok s) f (parent, fed, λ rest t. t)
  handled-Meets calm panicked answer d parent p s fed f = (tt, λ z. cc)

  pump-Meets :
      IsCalm cb
      → (turns : List (Turn cb)) (d : StandardDataSource) (parent : Option String)
        (s : IngestGeneric cb)
      → Fed cb parent d.state.position s
      → Meets cb parent (λ left s'. Unit) (pump cb turns d s)
  unfolding pump
  pump-Meets calm [] d parent s fed = (parent, tt, λ rest t. t)
  pump-Meets calm (t ∷ turns) d parent s fed =
      followed_by-Meets cb parent (Ends (next_source cb o t.rollback d').state.position)
        (λ left s'. Unit) (handled_of cb o t.rollback s) _
        (handled-Meets calm o t.rollback d' parent d.state.position s fed
          (poll_next_event-Follows cb.Body t.answers t.elapsed d))
        (λ left s'. pump-Meets calm turns (next_source cb o t.rollback d') left s')
    where
      o : Outcome cb.Body
      o = (poll_next_event t.answers t.elapsed d).0

      d' : StandardDataSource
      d' = (poll_next_event t.answers t.elapsed d).1

  -- A new ingest task on a source of blocks, whatever its clients and the writer answer, sends chunks that
  -- are not empty ranges and name as their parent the last block of the chunk before, or the hash that
  -- the position of the source or the answer to a fork gives; and no block that the source delivers
  -- breaks the chain of the task, where the builder raises no such failure of its own.
  pub run_on-IsLinked :
      IsCalm cb
      → (turns : List (Turn cb)) (d : StandardDataSource) (builder : cb.Builder)
        (spill_bound_bytes : ℕ)
      → IsLinked cb d.state.position.parent_block_hash
          (run_on cb turns d builder spill_bound_bytes).0
        × ((run_on cb turns d builder spill_bound_bytes).1 ≢ err chain_continuity_violated)
  unfolding new_ingest
  run_on-IsLinked calm turns d builder spill_bound_bytes =
      at (run_on cb turns d builder spill_bound_bytes)
        (pump-Meets calm turns d p.parent_block_hash s (omega arith, refl))
    where
      p : Request
      p = d.state.position

      s : IngestGeneric cb
      s = new_ingest cb (p.first_block, p.parent_block_hash) builder spill_bound_bytes

      at :
          (h : Handled cb)
          → Meets cb p.parent_block_hash (λ left s'. Unit) h
          → IsLinked cb p.parent_block_hash h.0 × (h.1 ≢ err chain_continuity_violated)
      at (ms, err e) (linked, calm') = (linked, λ z. calm' cc)
      at (ms, ok s') (left, u, join) =
          (subst (IsLinked cb p.parent_block_hash) (append-nil ms) (join [] tt), λ z. cc)
