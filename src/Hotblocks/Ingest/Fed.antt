-- ===== src/Hotblocks/Ingest/Fed.antt =====
-- `run` of ingest_generic.rs on the events of `StandardDataSource`, which it repositions after a fork.
pub mod Pump
use data_lib.Common.{
  ℕ, zero, suc, ◌+◌, ◌-◌, ◌*◌, ◌/◌, ◌%◌, ◌^◌, ◌≤◌, ◌<◌, ◌≡◌, ◌≢◌, ◌↔◌, ◌⊎◌, inl, inr, refl, sym, ap,
  subst, ◌∙◌, String, Bool, true, false, not, ◌&&◌, ◌||◌, Option, none, some, List, [], ◌∷◌, ◌++◌,
  map, reverse, arith, ltb, leb, ◌==◌, str_eq, eq_iff, if◌then◌else◌, Result, ok, err, ensure,
  ◌>>=◌, ◌>>◌, >>=-eq-ok, All, All-append, Bool-cases, Option-cases, min, max, length, get_elem?,
  append_assoc, append-nil, head?, last?,
}
use data_lib.Primitives.{Block}
use data_lib.Storage.Data.{BlockRef}
use data_lib.Storage.Failure.{
  panicked as task_panicked, data_availability_changed, chain_continuity_violated, channel_closed,
  Failure,
}
use data_lib.Hotblocks.Writer.Rollback.{Rollback}
use data_lib.Hotblocks.Ingest.{
  new_ingest, ChunkBuilder, DataBuilder, Message, finalized, chunk, fork, Event, finalized_head,
  block, forked, maybe_on_head, IngestGeneric, Handled, followed_by, finish, withheld, emit, flush,
  spill, maybe_flush, push_block, open_chunk, extend, change_mask, handle_block, handle_fork,
  handle_finalized, handle, run, flush_to_processor, num_rows, row_bound, prepared, processor_of,
  unspilled, set_finalized,
}
use data_lib.DataSource
use data_lib.DataSource.{Request, DataEvent, Answer, StandardDataSource, links}
use data_lib.DataSource.Source
use data_lib.DataSource.Source.{Outcome, event, nothing, panicked, poll_next_event, set_position}
use data_lib.DataSource.Linked.{after, Follows, outcome_event, poll_next_event-Follows}
use data_lib.DataSource.Stream.{set_position_position}

module _ (cb : ChunkBuilder) where
  -- One turn of the loop: what the sources answer, and what the writer answers to a fork.
  pub record Turn : Type 0 where
    pub answers : List (List (Answer cb.Body))
    pub elapsed : Bool
    pub rollback : Option Rollback

  abbrev pub event_for : DataEvent cb.Body → Option Rollback → Event cb
  event_for (DataSource.finalized_head head) answer = finalized_head head
  event_for (DataSource.block b is_final) answer = block b is_final
  event_for (DataSource.fork prev) answer = forked prev answer
  event_for DataSource.maybe_on_head answer = maybe_on_head

  abbrev pub source_after :
      DataEvent cb.Body → Option Rollback → StandardDataSource → StandardDataSource
  source_after (DataSource.fork prev) (some r) d =
      set_position r.resume_from r.expected_parent_hash d
  source_after e answer d = d

  abbrev pub handled_of : Outcome cb.Body → Option Rollback → IngestGeneric cb → Handled cb
  handled_of (event e) answer s = handle cb (event_for e answer) s
  handled_of nothing answer s = ([], ok s)
  handled_of panicked answer s = ([], err task_panicked)

  abbrev pub next_source :
      Outcome cb.Body → Option Rollback → StandardDataSource → StandardDataSource
  next_source (event e) answer d = source_after e answer d
  next_source nothing answer d = d
  next_source panicked answer d = d

  -- The loop over the polls of the source; a panic of the source ends the task.
  unfoldable pub pump : List Turn → StandardDataSource → IngestGeneric cb → Handled cb
  pump [] d s = ([], ok s)
  pump (t ∷ turns) d s =
      let (o, d') = poll_next_event t.answers t.elapsed d in
      followed_by cb (handled_of o t.rollback s) (pump turns (next_source o t.rollback d'))

  -- A new task, at the position of its source.
  abbrev pub run_on : List Turn → StandardDataSource → cb.Builder → ℕ → Handled cb
  run_on turns d builder spill_bound_bytes =
      let p : Request = d.state.position in
      pump turns d (new_ingest cb (p.first_block, p.parent_block_hash) builder spill_bound_bytes)

  -- What the writer is promised: the range of a chunk is not empty, and the chunk names as its parent
  -- the last block of the chunk before, or the hash that the answer to a fork gives.
  abbrev pub IsLinked : Option String → List (Message cb) → Type 0
  IsLinked parent [] = Unit
  IsLinked parent (finalized head ∷ ms) = IsLinked parent ms
  IsLinked parent (chunk c ∷ ms) =
      (links parent c.parent_block_hash ≡ true)
      × (c.first_block ≤ c.last_block)
      × IsLinked (some c.last_block_hash) ms
  IsLinked parent (fork prev none ∷ ms) = IsLinked parent ms
  IsLinked parent (fork prev (some r) ∷ ms) = IsLinked r.expected_parent_hash ms

  -- The task between two events: the blocks that it holds go from the parent that the last chunk left
  -- right up to the position of the source.
  abbrev pub Holds : Option String → Request → IngestGeneric cb → Bool → Type 0
  Holds parent p s true = (s.first_block ≤ p.first_block) × (p.parent_block_hash ≡ parent)
  Holds parent p s false =
      (links parent s.parent_block_hash ≡ true)
      × (s.first_block ≤ s.last_block)
      × (p.first_block ≡ s.last_block + 1)
      × (p.parent_block_hash ≡ some s.last_block_hash)

  abbrev pub Fed : Option String → Request → IngestGeneric cb → Type 0
  Fed parent p s = Holds parent p s (s.buffered_blocks == 0)

  -- The failures of the builder are its own.
  abbrev pub IsCalm : Type 0
  IsCalm =
      ((b : Block cb.Body) (x : cb.Builder) → cb.push b x ≢ err chain_continuity_violated)
      × ((x : cb.Builder) → cb.new_chunk_processor x ≢ err chain_continuity_violated)
      × ((x : cb.Builder) (p : cb.Processor)
          → cb.submit_to_processor x p ≢ err chain_continuity_violated)
      × ((x : cb.Builder) → cb.prepare_in_memory x ≢ err chain_continuity_violated)
      × ((p : cb.Processor) → cb.finish p ≢ err chain_continuity_violated)

  -- Messages as promised, and no broken chain; on success, a state that meets the condition under the
  -- parent that the messages leave.
  abbrev pub Meets :
      Option String → (Option String → IngestGeneric cb → Type 0) → Handled cb → Type 0
  Meets parent Q (ms, err e) = IsLinked parent ms × (e ≢ chain_continuity_violated)
  Meets parent Q (ms, ok s) =
      (left : Option String) × Q left s
      × ((rest : List (Message cb)) → IsLinked left rest → IsLinked parent (ms ++ rest))

  pub followed_by-Meets :
      (parent : Option String) (P Q : Option String → IngestGeneric cb → Type 0) (m : Handled cb)
      (f : IngestGeneric cb → Handled cb)
      → Meets parent P m
      → ((left : Option String) (s : IngestGeneric cb) → P left s → Meets left Q (f s))
      → Meets parent Q (followed_by cb m f)
  followed_by-Meets parent P Q (ms, err e) f h k = h
  followed_by-Meets parent P Q (ms, ok s) f (left, p, join) k = at (f s) (k left s p)
    where
      at : (n : Handled cb) → Meets left Q n → Meets parent Q (ms ++ n.0, n.1)
      at (ns, err e) (linked, calm) = (join ns linked, calm)
      at (ns, ok s') (left', q, join') =
          (left', q, λ rest r. rw append_assoc (join (ns ++ rest) (join' rest r)))

  abbrev pub Calm {ℓ} : {A : Type ℓ} → Result Failure A → Type ℓ
  Calm r = r ≢ err chain_continuity_violated

  pub bind-Calm {ℓ κ} :
      {A : Type ℓ} {B : Type κ} (m : Result Failure A) (f : A → Result Failure B)
      → Calm m
      → ((a : A) → Calm (f a))
      → Calm (m >>= f)
  bind-Calm (err e) f h k = λ q. h cc
  bind-Calm (ok a) f h k = k a

  pub ok-Calm {ℓ} : {A : Type ℓ} (a : A) → Calm (ok a)
  ok-Calm a = λ q. cc

  pub flush_to_processor-Calm : IsCalm → (d : DataBuilder cb) → Calm (flush_to_processor cb d)
  unfolding flush_to_processor
  flush_to_processor-Calm calm d =
      bind-Calm (processor_of cb d) _ (at d.processor refl) (λ p.
        bind-Calm (cb.submit_to_processor d.builder p) _ (calm.2 d.builder p) (λ r. ok-Calm _))
    where
      at : (o : Option cb.Processor) → d.processor ≡ o → Calm (processor_of cb d)
      at none q = rw q (calm.1 d.builder)
      at (some p) q = rw q (ok-Calm p)

  finish-Calm : IsCalm → (d : DataBuilder cb) → Calm (finish cb d)
  unfolding finish
  finish-Calm calm d = elim (Bool-cases (unspilled cb d)) [
    | inl q ↦
        rw q (bind-Calm (cb.prepare_in_memory d.builder) _ (calm.3 d.builder) (λ r. ok-Calm _))
    | inr q ↦ rw q (
        bind-Calm (flush_to_processor cb d) _ (flush_to_processor-Calm calm d) (λ d'.
          bind-Calm (processor_of cb d') _ (at d' d'.processor refl)
            (λ p. bind-Calm (cb.finish p) _ (calm.4 p) (λ tables. ok-Calm _))))
  ]
    where
      at :
          (d' : DataBuilder cb) (o : Option cb.Processor)
          → d'.processor ≡ o
          → Calm (processor_of cb d')
      at d' none q = rw q (calm.1 d'.builder)
      at d' (some p) q = rw q (ok-Calm p)

  emit-Meets :
      IsCalm
      → (parent : Option String) (p : Request) (s : IngestGeneric cb) → Holds parent p s false
      → Meets parent (λ left s'. Fed left p s') (emit cb s)
  unfolding emit
  emit-Meets calm parent p s h = at (finish cb s.builder) refl (finish-Calm calm s.builder)
    where
      at :
          (r : Result Failure (DataBuilder cb × List (String × cb.Table)))
          → finish cb s.builder ≡ r
          → Calm r
          → Meets parent (λ left s'. Fed left p s') (emit cb s)
      at (err e) q c = rw (q, emit) (tt, λ z. c (ap err z))
      at (ok (d, tables)) q c =
          rw (q, emit) (some s.last_block_hash, (omega (arith, h.2), h.3), λ rest t. (h.0, h.1, t))

  pub flush-Meets :
      IsCalm
      → (parent : Option String) (p : Request) (s : IngestGeneric cb) → Fed parent p s
      → Meets parent (λ left s'. Fed left p s') (flush cb s)
  unfolding flush
  flush-Meets calm parent p s fed = at _ refl _ refl
    where
      at :
          (empty : Bool)
          → (s.buffered_blocks == 0) ≡ empty
          → (held : Bool) → withheld cb s ≡ held
          → Meets parent (λ left s'. Fed left p s') (flush cb s)
      at true e held w = rw (e, flush) (parent, fed, λ rest t. t)
      at false e true w = rw (e, flush, w) (parent, fed, λ rest t. t)
      at false e false w =
          rw (e, flush, w) (emit-Meets calm parent p s (subst (Holds parent p s) e fed))

  pub spill-Meets :
      IsCalm
      → (parent : Option String) (p : Request) (s : IngestGeneric cb) → Fed parent p s
      → Meets parent (λ left s'. Fed left p s') (spill cb s)
  unfolding spill
  spill-Meets calm parent p s fed =
      elim (Bool-cases (ltb s.builder.spill_bound_bytes (cb.byte_size s.builder.builder))) [
        | inl e ↦ rw e (at _ (flush_to_processor-Calm calm s.builder))
        | inr e ↦ rw e (parent, fed, λ rest t. t)
      ]
    where
      at :
          (r : Result Failure (DataBuilder cb))
          → Calm r
          → Meets parent (λ left s'. Fed left p s') ([], r >>= λ d. ok (record s { builder = d }))
      at (err e) c = (tt, λ z. c (ap err z))
      at (ok d) c = (parent, fed, λ rest t. t)
