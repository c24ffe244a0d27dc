-- ===== src/DataSource/Stream.antt =====
-- The stream that a user of `StandardDataSource` sees: `poll_next` and `set_position` of
-- crates/data-source/src/standard.rs, called in any order.
pub mod Alive
use data_lib.Common.{
  ℕ, zero, suc, ◌+◌, ◌-◌, ◌*◌, ◌/◌, ◌%◌, ◌^◌, ◌≤◌, ◌<◌, ◌≡◌, ◌≢◌, ◌↔◌, ◌⊎◌, inl, inr, refl, sym, ap,
  subst, ◌∙◌, String, Bool, true, false, not, ◌&&◌, ◌||◌, Option, none, some, List, [], ◌∷◌, ◌++◌,
  map, reverse, arith, ltb, leb, ◌==◌, str_eq, eq_iff, if◌then◌else◌, Result, ok, err, ensure,
  ◌>>=◌, ◌>>◌, >>=-eq-ok, All, All-append, Bool-cases, Option-cases, min, max, length, get_elem?,
  append_assoc, append-nil, head?, last?,
}
use data_lib.Primitives.{Block}
use data_lib.Storage.Data.{BlockRef}
use data_lib.DataSource.{
  Request, same_hash, same_request, DataEvent, finalized_head, block, fork, maybe_on_head, Response,
  streaming, forking, refused, response_pending, Item, parsed, unparsed, broken, ended,
  item_pending, Answer, EndpointState, ready, requesting, receiving, forked, backoff, Endpoint,
  DataSourceState, StandardDataSource, backoff_rungs, backoff_ms, pause_for, on_error, on_reject,
  reset_fork_consensus, links, moved_past, accept_new_block, is_behind, move_finalized,
  on_new_finalized_head,
}
use data_lib.DataSource.Poll.{
  wake, Round, ready_with, pending, again, Polled, on_stream, on_response, on_end, committed,
  on_block, on_item, poll_once, event_of, poll_endpoint, first_answers, later_answers, poll_all,
}
use data_lib.DataSource.Source.{
  Outcome, event, nothing, panicked, is_on_fork, is_active, count, forgive, forgive_others,
  longest_hints, make_ready, fork_event, extract_fork, reach_consensus, resolve_fork, after_event,
  poll_next_event, repositioned, set_position, new_source, fresh_endpoint,
}
use data_lib.DataSource.Linked.{after, Follows, outcome_event, poll_next_event-Follows}

pub set_position_position :
    (n : ℕ) (hash : Option String) (d : StandardDataSource)
    → (set_position n hash d).state.position ≡ record { first_block = n; parent_block_hash = hash }
unfolding set_position reset_fork_consensus
set_position_position n hash d = refl

pub data Call (Body : Type 0) : Type 0 where
  poll_next : List (List (Answer Body)) → Bool → Call Body
  reposition : ℕ → Option String → Call Body

pub data Entry (Body : Type 0) : Type 0 where
  delivered : DataEvent Body → Entry Body
  moved : Request → Entry Body
  died : Entry Body

module _ {Body : Type 0} where
  abbrev entries_of : Outcome Body → List (Entry Body)
  entries_of (event e) = delivered e ∷ []
  entries_of nothing = []
  entries_of panicked = died ∷ []

  abbrev is_panic : Outcome Body → Bool
  is_panic panicked = true
  is_panic (event e) = false
  is_panic nothing = false

  -- A poll that panics is the last call.
  unfoldable pub make_calls :
      List (Call Body) → StandardDataSource → List (Entry Body) × StandardDataSource
  make_calls [] d = ([], d)
  make_calls (poll_next answers elapsed ∷ calls) d =
      let (o, d') = poll_next_event answers elapsed d in
      let (more, d'') = make_calls calls d' in
      (if is_panic o then died ∷ [] else entries_of o ++ more, d'')
  make_calls (reposition n hash ∷ calls) d =
      let (more, d') = make_calls calls (set_position n hash d) in
      (moved (record { first_block = n; parent_block_hash = hash }) ∷ more, d')

  -- Each block is at or above the place where the last one, or the last reposition, left the stream, and
  -- names as its parent the block or the hash that stands there.
  abbrev pub IsChain : Request → List (Entry Body) → Type 0
  IsChain p [] = Unit
  IsChain p (delivered (block b is_final) ∷ rest) =
      (p.first_block ≤ b.number)
      × (links p.parent_block_hash b.parent_hash ≡ true)
      × IsChain (after b) rest
  IsChain p (delivered (finalized_head head) ∷ rest) = IsChain p rest
  IsChain p (delivered (fork prev) ∷ rest) = IsChain p rest
  IsChain p (delivered maybe_on_head ∷ rest) = IsChain p rest
  IsChain p (moved q ∷ rest) = IsChain q rest
  IsChain p (died ∷ rest) = IsChain p rest

  entries_of-IsChain :
      (o : Outcome Body) (p q : Request) (rest : List (Entry Body))
      → Follows p (outcome_event Body o) q
      → IsChain q rest
      → IsChain p (entries_of o ++ rest)
  entries_of-IsChain (event (block b is_final)) p q rest f t =
      (f.0, f.1, subst (λ r. IsChain r rest) f.2 t)
  entries_of-IsChain (event (finalized_head head)) p q rest f t = subst (λ r. IsChain r rest) f t
  entries_of-IsChain (event (fork prev)) p q rest f t = subst (λ r. IsChain r rest) f t
  entries_of-IsChain (event maybe_on_head) p q rest f t = subst (λ r. IsChain r rest) f t
  entries_of-IsChain nothing p q rest f t = subst (λ r. IsChain r rest) f t
  entries_of-IsChain panicked p q rest f t = subst (λ r. IsChain r rest) f t

  -- Whatever the sources answer, over any sequence of polls and repositions, each block that is delivered is
  -- at or above the place where the last delivered block, or the last reposition, left the stream, and
  -- names as its parent the block or the hash that stands there, where one is known.
  pub make_calls-IsChain :
      (calls : List (Call Body)) (d : StandardDataSource)
      → IsChain d.state.position (make_calls calls d).0
  unfolding make_calls
  make_calls-IsChain [] d = tt
  make_calls-IsChain (poll_next answers elapsed ∷ calls) d = elim (Bool-cases (is_panic r.0)) [
    | inl q ↦ rw q tt
    | inr q ↦ rw q (
        entries_of-IsChain r.0 _ _ _ (poll_next_event-Follows Body answers elapsed d)
          (make_calls-IsChain calls r.1))
  ]
    where
      r : Outcome Body × StandardDataSource
      r = poll_next_event answers elapsed d
  make_calls-IsChain (reposition n hash ∷ calls) d =
      subst (λ p. IsChain p (make_calls calls (set_position n hash d)).0)
        (set_position_position n hash d) (make_calls-IsChain calls (set_position n hash d))
