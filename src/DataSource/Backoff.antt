-- ===== src/DataSource/Backoff.antt =====
-- The backoff ladder of crates/data-source/src/standard.rs, and how it bounds the loop of `poll_endpoint`.
pub mod Flaky
use data_lib.Common.{
  le→leb, lt→ltb, leb→le, ℕ, zero, suc, ◌+◌, ◌-◌, ◌*◌, ◌/◌, ◌%◌, ◌^◌, ◌≤◌, ◌<◌, ◌≡◌, ◌≢◌, ◌↔◌, ◌⊎◌,
  inl, inr, refl, sym, ap, subst, ◌∙◌, String, Bool, true, false, not, ◌&&◌, ◌||◌, Option, none,
  some, List, [], ◌∷◌, ◌++◌, map, reverse, arith, ltb, leb, ◌==◌, str_eq, eq_iff, if◌then◌else◌,
  Result, ok, err, ensure, ◌>>=◌, ◌>>◌, >>=-eq-ok, All, All-append, Bool-cases, Option-cases, min,
  max, length, get_elem?, append_assoc, append-nil, head?, last?,
}
use data_lib.Primitives.{Block}
use data_lib.DataSource.{
  Request, same_hash, same_request, DataEvent, finalized_head, block, fork, maybe_on_head, Response,
  streaming, forking, refused, response_pending, Item, parsed, unparsed, broken, ended,
  item_pending, Answer, EndpointState, ready, requesting, receiving, forked, backoff, Endpoint,
  DataSourceState, StandardDataSource, backoff_rungs, backoff_ms, pause_for, on_error, on_reject,
  reset_fork_consensus, links, moved_past, accept_new_block, is_behind, move_finalized,
  on_new_finalized_head,
}
use data_lib.DataSource.Poll.{
  wake, Round, ready_with, pending, again, Polled, on_stream, on_response, on_end, committed,
  on_block, on_item, poll_once, event_of, poll_endpoint, first_answers, later_answers, poll_all,
}
use data_lib.DataSource.Source.{
  Outcome, event, nothing, panicked, is_on_fork, is_active, count, forgive, forgive_others,
  longest_hints, make_ready, fork_event, extract_fork, reach_consensus, resolve_fork, after_event,
  poll_next_event, repositioned, set_position, new_source, fresh_endpoint,
}

rung :
    (k : ℕ)
    → k ≤ 6
    → (p : ℕ) × (q : ℕ) × (get_elem? backoff_rungs k ≡ some p)
      × (get_elem? backoff_rungs (suc k) ≡ some q)
      × (p ≤ q)
      × (0 < q)
      × (q ≤ 10000)
rung zero h = (0, 100, refl, refl, omega arith, omega arith, omega arith)
rung (suc zero) h = (100, 200, refl, refl, omega arith, omega arith, omega arith)
rung (suc (suc zero)) h = (200, 500, refl, refl, omega arith, omega arith, omega arith)
rung (suc (suc (suc zero))) h = (500, 1000, refl, refl, omega arith, omega arith, omega arith)
rung (suc (suc (suc (suc zero)))) h =
    (1000, 2000, refl, refl, omega arith, omega arith, omega arith)
rung (suc (suc (suc (suc (suc zero))))) h =
    (2000, 5000, refl, refl, omega arith, omega arith, omega arith)
rung (suc (suc (suc (suc (suc (suc zero)))))) h =
    (5000, 10000, refl, refl, omega arith, omega arith, omega arith)
rung (suc (suc (suc (suc (suc (suc (suc k))))))) h = ground arith

-- The ladder never runs out: each fault is answered by a pause of at most ten seconds, every one but the
-- first by one that is not zero, and the next consecutive fault by one that is no shorter.
pub backoff_ms_climbs :
    (faults : ℕ)
    → (p : ℕ) × (q : ℕ) × (backoff_ms faults ≡ some p)
      × (backoff_ms (faults + 1) ≡ some q)
      × (p ≤ q)
      × (0 < q)
      × (q ≤ 10000)
unfolding backoff_ms
backoff_ms_climbs faults = elim (Bool-cases (leb faults 6)) [
  | inl e ↦ rw (below e, next e) (rung faults (leb→le faults 6 e))
  | inr e ↦
      rw (above faults e, above (faults + 1) (ground arith))
        (10000, 10000, refl, refl, omega arith, omega arith, omega arith)
]
  where
    below : leb faults 6 ≡ true → min faults 7 ≡ faults
    below e = ground arith

    next : leb faults 6 ≡ true → min (faults + 1) 7 ≡ suc faults
    next e = ground arith

    above : (n : ℕ) → leb n 6 ≡ false → min n 7 ≡ 7
    above n e = ground arith

module _ {Body : Type 0} where
  -- The timer is not over yet, and the source refuses, or streams a block that does not link.
  abbrev pub IsFaulty : DataSourceState → Answer Body → Type 0
  IsFaulty s a =
      (a.slept ≡ false)
      × ((a.response ≡ refused) ⊎ (a.response ≡ streaming none))
      × ((b : Block Body) × (a.item ≡ parsed b)
          × (s.position.first_block ≤ b.number)
          × (links s.position.parent_block_hash b.parent_hash ≡ false))

abbrev by_counters : ℕ → ℕ → ℕ
by_counters reject_counter error_counter =
    if reject_counter == 0
    then (if error_counter == 0 then 7 else 6)
    else if error_counter == 0
    then 4
    else 3

-- The rounds that faults leave to an endpoint before it sleeps.
abbrev rounds_left : Endpoint → ℕ
rounds_left ep = elim ep.state [
  | ready ↦ by_counters ep.reject_counter ep.error_counter
  | requesting req ↦ by_counters ep.reject_counter ep.error_counter
  | receiving head ↦ if ep.reject_counter == 0 then 5 else 2
  | forked req prev ↦ 0
  | backoff pause ↦ 1
]

abbrev pub is_asleep : Endpoint → Bool
is_asleep ep = elim ep.state [ backoff pause ↦ true | _ ↦ false ]

abbrev pub IsPause : EndpointState → Type 0
IsPause st = (pause : ℕ) × (st ≡ backoff pause) × (0 < pause) × (pause ≤ 10000)

pause_for-backoff_ms :
    (faults : ℕ)
    → ((faults ≡ 0) × (pause_for (backoff_ms faults) ≡ ready))
      ⊎ ((0 < faults) × IsPause (pause_for (backoff_ms faults)))
unfolding backoff_ms
pause_for-backoff_ms zero = inl (refl, refl)
pause_for-backoff_ms (suc n) = at (backoff_ms_climbs n)
  where
    at :
        ((p : ℕ) × (q : ℕ) × (backoff_ms n ≡ some p)
          × (backoff_ms (n + 1) ≡ some q)
          × (p ≤ q)
          × (0 < q)
          × (q ≤ 10000))
        → ((suc n ≡ 0) × (pause_for (backoff_ms (suc n)) ≡ ready))
          ⊎ ((0 < suc n) × IsPause (pause_for (backoff_ms (suc n))))
    at (p, q, e, f, order, positive, bound) = inr (
      omega arith,
      (q, ap (λ k. pause_for (backoff_ms k)) next ∙ ap pause_for f ∙ slept, positive, bound),
    )
      where
        next : suc n ≡ n + 1
        next = omega arith

        slept : pause_for (some q) ≡ backoff q
        slept = rw (lt→ltb 0 q positive) refl

abbrev pub IsAwake : EndpointState → Type 0
IsAwake (forked req prev) = ⊥
IsAwake (backoff pause) = (0 < pause) × (pause ≤ 10000)
IsAwake ready = Unit
IsAwake (requesting req) = Unit
IsAwake (receiving head) = Unit

-- Left ready with fewer rounds than a bound, or asleep.
abbrev Closer : Endpoint → ℕ → Type 0
Closer ep n =
    ((ep.state ≡ ready) × (by_counters ep.reject_counter ep.error_counter < n)) ⊎ IsPause ep.state

-- A first fault of its kind leaves the endpoint ready, another in a row puts it to sleep.
on_error-Closer :
    (ep : Endpoint) → Closer (on_error ep) (by_counters ep.reject_counter ep.error_counter)
unfolding on_error
on_error-Closer ep = elim (pause_for-backoff_ms ep.error_counter) [
  | inl h ↦ inl (h.1, ground arith)
  | inr h ↦ inr h.1
]

on_reject-Closer : (ep : Endpoint) → Closer (on_reject ep) (if ep.reject_counter == 0 then 5 else 2)
unfolding on_reject
on_reject-Closer ep = elim (pause_for-backoff_ms ep.reject_counter) [
  | inl h ↦ inl (h.1, ground arith)
  | inr h ↦ inr h.1
]

Closer-rounds_left :
    (ep : Endpoint) (n : ℕ) → Closer ep n → 1 < n → IsAwake ep.state × (rounds_left ep < n)
Closer-rounds_left ep n (inl h) more = rw h.0 (tt, h.1)
Closer-rounds_left ep n (inr (pause, e, positive, bound)) more = rw e ((positive, bound), more)

rounds_left_bounds :
    (ep : Endpoint) → IsAwake ep.state → (0 < rounds_left ep) × (rounds_left ep ≤ 7)
rounds_left_bounds ep h = at ep.state h
  where
    at :
        (st : EndpointState)
        → IsAwake st
        → (0 < rounds_left (record ep { state = st }))
          × (rounds_left (record ep { state = st }) ≤ 7)
    at ready h = ground arith
    at (requesting req) h = ground arith
    at (receiving head) h = ground arith
    at (forked req prev) h = elim h [ ]
    at (backoff pause) h = ground arith

module _ {Body : Type 0} where
  -- A round that fails leaves fewer of them, until one finds the endpoint asleep.
  abbrev Fails : Answer Body → DataSourceState → Endpoint → Type 0
  Fails a s ep =
      ((next : Endpoint) × (poll_once a s (wake s ep) ≡ (again, s, next))
        × (IsAwake next.state × (rounds_left next < rounds_left ep)))
      ⊎ ((poll_once a s (wake s ep) ≡ (pending, s, ep)) × IsPause ep.state)

  respond-Fails :
      (a : Answer Body) (s : DataSourceState) (ep : Endpoint) (req : Request)
      → (a.response ≡ refused) ⊎ (a.response ≡ streaming none)
      → (next : Endpoint) × (on_response {Body = Body} a.response req s ep ≡ (again, s, next))
        × (IsAwake next.state × (rounds_left next < by_counters ep.reject_counter ep.error_counter))
  unfolding on_response on_stream on_new_finalized_head
  respond-Fails a s ep req (inl e) =
      rw e
        (on_error ep, refl, Closer-rounds_left (on_error ep) _ (on_error-Closer ep) (ground arith))
  respond-Fails a s ep req (inr e) =
      rw e (record ep { error_counter = 0; state = receiving 0 }, refl, (tt, ground arith))

  reject-Fails :
      (a : Answer Body) (s : DataSourceState) (ep : Endpoint) (head : ℕ) (b : Block Body)
      → a.item ≡ parsed b
      → s.position.first_block ≤ b.number
      → links s.position.parent_block_hash b.parent_hash ≡ false
      → (next : Endpoint) × (on_item a.item head s ep ≡ (again, s, next))
        × (IsAwake next.state × (rounds_left next < (if ep.reject_counter == 0 then 5 else 2)))
  unfolding on_item on_block accept_new_block
  reject-Fails a s ep head b e above unlinked =
      rw (e, le→leb _ _ above, unlinked)
        (
          on_reject heard,
          refl,
          Closer-rounds_left (on_reject heard) _ (on_reject-Closer heard) (ground arith),
        )
    where
      heard : Endpoint
      heard = record ep { error_counter = 0 }

  poll_once-Fails :
      (a : Answer Body) (s : DataSourceState) (ep : Endpoint)
      → IsFaulty s a
      → IsAwake ep.state
      → Fails a s ep
  unfolding poll_once wake
  poll_once-Fails a s ep (slept, response, (b, item, above, unlinked)) h = at ep.state h
    where
      at : (st : EndpointState) → IsAwake st → Fails a s (record ep { state = st })
      at ready h =
          inl (respond-Fails a s (record ep { state = requesting s.position }) s.position response)
      at (requesting req) h =
          inl (respond-Fails a s (record ep { state = requesting req }) req response)
      at (receiving head) h =
          inl (reject-Fails a s (record ep { state = receiving head }) head b item above unlinked)
      at (forked req prev) h = elim h [ ]
      at (backoff pause) h = rw slept (inr (refl, (pause, refl, h.0, h.1)))

  -- `poll_endpoint`, from the end of a round on.
  abbrev pub resumed :
      List (Answer Body) → Polled Body → Option (DataEvent Body) × DataSourceState × Endpoint
  resumed more (round, s, ep) = elim round [
    | again ↦ poll_endpoint more s ep
    | ready_with e ↦ (some e, s, ep)
    | pending ↦ (none, s, ep)
  ]

  abbrev pub Parks : List (Answer Body) → DataSourceState → Endpoint → Type 0
  Parks answers s ep =
      (asleep : Endpoint) × (poll_endpoint answers s ep ≡ (none, s, asleep)) × IsPause asleep.state

  parks :
      (answers : List (Answer Body)) (s : DataSourceState) (ep : Endpoint)
      → All (IsFaulty s) answers
      → IsAwake ep.state
      → rounds_left ep ≤ length answers
      → Parks answers s ep
  unfolding poll_endpoint
  parks [] s ep faulty h enough = ground (arith, rounds_left_bounds ep h)
  parks (a ∷ more) s ep faulty h enough =
      at (poll_once-Fails a s ep faulty.0 h)
        (λ next awake left. parks more s next faulty.1 awake (omega (arith, left, enough)))
    where
      at :
          Fails a s ep
          → ((next : Endpoint)
              → IsAwake next.state
              → rounds_left next < rounds_left ep
              → Parks more s next)
          → Parks (a ∷ more) s ep
      at (inr (q, pause)) ih = (ep, ap (resumed more) q, pause)
      at (inl (next, q, (awake, left))) ih = (
        (ih next awake left).0,
        ap (resumed more) q ∙ (ih next awake left).1,
        (ih next awake left).2,
      )

  -- A source that only refuses requests, or streams blocks that do not link without a finalized head, is
  -- asked a bounded number of times: an endpoint that is not on a fork, and not asleep for more than ten
  -- seconds, is left asleep for at most ten seconds within seven rounds of the loop, while the timer is
  -- not over, and the state stays as it was.
  pub poll_endpoint-Parks :
      (answers : List (Answer Body)) (s : DataSourceState) (ep : Endpoint)
      → All (IsFaulty s) answers
      → 7 ≤ length answers
      → IsAwake ep.state
      → Parks answers s ep
  poll_endpoint-Parks answers s ep faulty enough h =
      parks answers s ep faulty h (ground (arith, rounds_left_bounds ep h))
