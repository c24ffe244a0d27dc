-- ===== src/DataSource/Consensus.antt =====
-- The fork consensus of `poll_next_event` in crates/data-source/src/standard.rs, and what its `expect`
-- and `assert!` rely on.
pub mod Rounds
pub mod Survives
use data_lib.Common.{
  ℕ, zero, suc, ◌+◌, ◌-◌, ◌*◌, ◌/◌, ◌%◌, ◌^◌, ◌≤◌, ◌<◌, ◌≡◌, ◌≢◌, ◌↔◌, ◌⊎◌, inl, inr, refl, sym, ap,
  subst, ◌∙◌, String, Bool, true, false, not, ◌&&◌, ◌||◌, Option, none, some, List, [], ◌∷◌, ◌++◌,
  map, reverse, arith, ltb, leb, ◌==◌, str_eq, eq_iff, if◌then◌else◌, Result, ok, err, ensure,
  ◌>>=◌, ◌>>◌, >>=-eq-ok, All, All-append, Bool-cases, Option-cases, min, max, length, get_elem?,
  append_assoc, append-nil, head?, last?,
}
use data_lib.Primitives.{Block}
use data_lib.Storage.Data.{BlockRef}
use data_lib.DataSource.{
  Request, same_hash, same_request, DataEvent, finalized_head, block, fork, maybe_on_head, Response,
  streaming, forking, refused, response_pending, Item, parsed, unparsed, broken, ended,
  item_pending, Answer, EndpointState, ready, requesting, receiving, forked, backoff, Endpoint,
  DataSourceState, StandardDataSource, backoff_rungs, backoff_ms, pause_for, on_error, on_reject,
  reset_fork_consensus, links, moved_past, accept_new_block, is_behind, move_finalized,
  on_new_finalized_head,
}
use data_lib.DataSource.Poll.{
  wake, Round, ready_with, pending, again, Polled, on_stream, on_response, on_end, committed,
  on_block, on_item, poll_once, event_of, poll_endpoint, first_answers, later_answers, poll_all,
}
use data_lib.DataSource.Source.{
  Outcome, event, nothing, panicked, is_on_fork, is_active, count, forgive, forgive_others,
  longest_hints, make_ready, fork_event, extract_fork, reach_consensus, resolve_fork, after_event,
  poll_next_event, repositioned, set_position, new_source, fresh_endpoint,
}
use data_lib.DataSource.Linked.{on_new_finalized_head_position}

-- A request is for the position, or for a place that the position has passed.
abbrev pub IsCurrent : Request → Request → Type 0
IsCurrent p req = (req ≡ p) ⊎ (req.first_block < p.first_block)

abbrev pub StateOk : DataSourceState → EndpointState → Type 0
StateOk s ready = Unit
StateOk s (requesting req) = IsCurrent s.position req
StateOk s (receiving head) = Unit
StateOk s (forked req prev) =
    (prev ≢ [])
    × (((req ≡ s.position) × (s.consensus_started ≡ true))
        ⊎ (req.first_block < s.position.first_block))
StateOk s (backoff pause) = Unit

-- The same, once a fork signal for a passed position is dropped.
abbrev pub Settled : DataSourceState → EndpointState → Type 0
Settled s ready = Unit
Settled s (requesting req) = IsCurrent s.position req
Settled s (receiving head) = Unit
Settled s (forked req prev) = (prev ≢ []) × (req ≡ s.position) × (s.consensus_started ≡ true)
Settled s (backoff pause) = Unit

pub Settled-StateOk : (s : DataSourceState) (st : EndpointState) → Settled s st → StateOk s st
Settled-StateOk s ready h = tt
Settled-StateOk s (requesting req) h = h
Settled-StateOk s (receiving head) h = tt
Settled-StateOk s (forked req prev) h = (h.0, inl (h.1, h.2))
Settled-StateOk s (backoff pause) h = tt

same_hash_eq : (a b : Option String) → same_hash a b ≡ true → a ≡ b
same_hash_eq none none h = refl
same_hash_eq none (some b) h = ground arith
same_hash_eq (some a) none h = ground arith
same_hash_eq (some a) (some b) h = ap some ((eq_iff a b).0 h)

same_request_eq : (a b : Request) → same_request a b ≡ true → a ≡ b
same_request_eq a b h = ground (arith, same_hash_eq a.parent_block_hash b.parent_block_hash)

same_request_refl : (a : Request) → same_request a a ≡ true
same_request_refl a = at a.parent_block_hash
  where
    at : (h : Option String) → ((a.first_block == a.first_block) && same_hash h h) ≡ true
    at none = ground arith
    at (some hash) = ground (arith, eq_iff hash hash)

pub wake-Settled :
    (s : DataSourceState) (ep : Endpoint) → StateOk s ep.state → Settled s (wake s ep).state
unfolding wake
wake-Settled s ep h = at ep.state refl h
  where
    current :
        (req : Request)
        → same_request req s.position ≡ true
        → ((req ≡ s.position) × (s.consensus_started ≡ true))
          ⊎ (req.first_block < s.position.first_block)
        → (req ≡ s.position) × (s.consensus_started ≡ true)
    current req q (inl h) = h
    current req q (inr h) = ground (arith, same_request_eq req s.position q)

    woken :
        (req : Request) (prev : List BlockRef)
        → ep.state ≡ forked req prev
        → StateOk s (forked req prev)
        → (same : Bool) → same_request req s.position ≡ same
        → Settled s (wake s ep).state
    woken req prev e h true q =
        rw (e, wake, q) (rw e (h.0, (current _ q h.1).0, (current _ q h.1).1))
    woken req prev e h false q = rw (e, wake, q) (inl refl)

    at : (st : EndpointState) → ep.state ≡ st → StateOk s st → Settled s (wake s ep).state
    at ready e h = rw (e, wake) (inl refl)
    at (requesting req) e h = rw (e, wake) (rw e h)
    at (receiving head) e h = rw (e, wake) (rw e tt)
    at (forked req prev) e h = woken req prev e h _ refl
    at (backoff pause) e h = rw (e, wake) (rw e tt)

-- A fork answer carries at least one hint, as the client makes sure
-- (crates/data-client/src/reqwest/client.rs).
abbrev pub HasHints : {Body : Type 0} → Answer Body → Type 0
HasHints a = (prev : List BlockRef) → a.response ≡ forking prev → prev ≢ []

abbrev pub Stays : DataSourceState → DataSourceState → Type 0
Stays s s' = (s'.position ≡ s.position) × (s.consensus_started ≡ true → s'.consensus_started ≡ true)

pub on_new_finalized_head-Stays :
    (head : Option BlockRef) (s : DataSourceState) → Stays s (on_new_finalized_head head s).1
unfolding on_new_finalized_head
on_new_finalized_head-Stays none s = (refl, λ h. h)
on_new_finalized_head-Stays (some new_head) s =
    (on_new_finalized_head_position (some new_head) s, λ h. ground arith)

-- Past a block the position is further on; else it stays, and a consensus that is on stays on.
abbrev pub Moves :
    {Body : Type 0} → Option (DataEvent Body) → DataSourceState → DataSourceState → Type 0
Moves none s s' = Stays s s'
Moves (some (block b is_final)) s s' = s.position.first_block < s'.position.first_block
Moves (some (finalized_head head)) s s' = Stays s s'
Moves (some (fork prev)) s s' = Stays s s'
Moves (some maybe_on_head) s s' = Stays s s'

Stays-StateOk :
    (s s' : DataSourceState) (st : EndpointState) → Stays s s' → StateOk s st → StateOk s' st
Stays-StateOk s s' ready m h = tt
Stays-StateOk s s' (requesting req) m h = subst (λ p. IsCurrent p req) (sym m.0) h
Stays-StateOk s s' (receiving head) m h = tt
Stays-StateOk s s' (forked req prev) m (hints, inl h) = (hints, inl (h.0 ∙ sym m.0, m.1 h.1))
Stays-StateOk s s' (forked req prev) m (hints, inr h) =
    (hints, inr (subst (λ p. req.first_block < p.first_block) (sym m.0) h))
Stays-StateOk s s' (backoff pause) m h = tt

pub Moves-StateOk :
    {Body : Type 0} (e : Option (DataEvent Body)) (s s' : DataSourceState) (st : EndpointState)
    → Moves e s s'
    → StateOk s st
    → StateOk s' st
Moves-StateOk none s s' st m h = Stays-StateOk s s' st m h
Moves-StateOk (some (finalized_head head)) s s' st m h = Stays-StateOk s s' st m h
Moves-StateOk (some (fork prev)) s s' st m h = Stays-StateOk s s' st m h
Moves-StateOk (some maybe_on_head) s s' st m h = Stays-StateOk s s' st m h
Moves-StateOk (some (block b is_final)) s s' ready m h = tt
Moves-StateOk (some (block b is_final)) s s' (requesting req) m (inl h) =
    inr (subst (λ p. p.first_block < s'.position.first_block) (sym h) m)
Moves-StateOk (some (block b is_final)) s s' (requesting req) m (inr h) = inr (omega arith)
Moves-StateOk (some (block b is_final)) s s' (receiving head) m h = tt
Moves-StateOk (some (block b is_final)) s s' (forked req prev) m (hints, inl h) =
    (hints, inr (subst (λ p. p.first_block < s'.position.first_block) (sym h.0) m))
Moves-StateOk (some (block b is_final)) s s' (forked req prev) m (hints, inr h) =
    (hints, inr (omega arith))
Moves-StateOk (some (block b is_final)) s s' (backoff pause) m h = tt

pub pause_for-StateOk : (s : DataSourceState) (pause : Option ℕ) → StateOk s (pause_for pause)
pause_for-StateOk s none = tt
pause_for-StateOk s (some pause) = ground arith
