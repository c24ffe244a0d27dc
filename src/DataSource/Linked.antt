-- ===== src/DataSource/Linked.antt =====
-- The position of `StandardDataSource` and the blocks that it delivers, over any sequence of polls and
-- repositions.
use data_lib.Common.{
  leb→le, ℕ, ◌+◌, ◌/◌, ◌≤◌, ◌≡◌, inl, inr, refl, subst, Bool, true, false, Option, none, some, List,
  [], ◌∷◌, arith, ltb, leb, ◌==◌, if◌then◌else◌, Bool-cases, length,
}
use data_lib.Primitives.{Block}
use data_lib.Storage.Data.{BlockRef}
use data_lib.DataSource.{
  Request, DataEvent, finalized_head, block, fork, maybe_on_head, Response, streaming, forking,
  refused, response_pending, Item, parsed, unparsed, broken, ended, item_pending, Answer,
  EndpointState, ready, requesting, receiving, forked, backoff, Endpoint, DataSourceState,
  StandardDataSource, reset_fork_consensus, links, accept_new_block, on_new_finalized_head,
}
use data_lib.DataSource.Poll.{
  wake, Round, ready_with, pending, again, Polled, on_stream, on_response, on_end, on_block,
  on_item, poll_once, event_of, poll_endpoint, first_answers, later_answers, poll_all,
}
use data_lib.DataSource.Source.{
  Outcome, event, nothing, panicked, is_on_fork, is_active, count, longest_hints, fork_event,
  extract_fork, reach_consensus, resolve_fork, poll_next_event,
}

abbrev pub after : {Body : Type 0} → Block Body → Request
after b = record { first_block = b.number + 1; parent_block_hash = some b.hash }

pub on_new_finalized_head_position :
    (head : Option BlockRef) (s : DataSourceState)
    → (on_new_finalized_head head s).1.position ≡ s.position
unfolding on_new_finalized_head
on_new_finalized_head_position none s = refl
on_new_finalized_head_position (some new_head) s = ground arith

module _ {Body : Type 0} where
  -- A block is at or above the position and carries its parent hash, where there is one, and the
  -- position moves right past it; without a block it stays.
  abbrev pub Follows : Request → Option (DataEvent Body) → Request → Type 0
  Follows p none q = q ≡ p
  Follows p (some (finalized_head head)) q = q ≡ p
  Follows p (some (fork prev)) q = q ≡ p
  Follows p (some maybe_on_head) q = q ≡ p
  Follows p (some (block b is_final)) q =
      (p.first_block ≤ b.number) × (links p.parent_block_hash b.parent_hash ≡ true) × (q ≡ after b)

  abbrev FollowsRound : DataSourceState → Polled Body → Type 0
  FollowsRound s r = Follows s.position (event_of r.0) r.1.position

module _ (Body : Type 0) where
  on_stream-Follows :
      (head : Option BlockRef) (s : DataSourceState) (ep : Endpoint)
      → FollowsRound {Body = Body} s (on_stream head s ep)
  unfolding on_stream
  on_stream-Follows none s ep = elim (Bool-cases (on_new_finalized_head none s).0) [
    | inl e ↦ rw e (on_new_finalized_head_position none s)
    | inr e ↦ rw e (on_new_finalized_head_position none s)
  ]
  on_stream-Follows (some b) s ep = elim (Bool-cases (on_new_finalized_head (some b) s).0) [
    | inl e ↦ rw e (on_new_finalized_head_position (some b) s)
    | inr e ↦ rw e (on_new_finalized_head_position (some b) s)
  ]

  on_response-Follows :
      (response : Response) (req : Request) (s : DataSourceState) (ep : Endpoint)
      → FollowsRound {Body = Body} s (on_response response req s ep)
  unfolding on_response
  on_response-Follows (streaming head) req s ep = on_stream-Follows head s ep
  on_response-Follows (forking prev_blocks) req s ep = refl
  on_response-Follows refused req s ep = refl
  on_response-Follows response_pending req s ep = refl

  on_end-Follows :
      (s : DataSourceState) (ep : Endpoint) → FollowsRound {Body = Body} s (on_end s ep)
  unfolding on_end
  on_end-Follows s ep = ground arith

  on_block-Follows :
      (b : Block Body) (head : ℕ) (s : DataSourceState) (ep : Endpoint)
      → FollowsRound s (on_block b head s ep)
  unfolding on_block accept_new_block reset_fork_consensus
  on_block-Follows b head s ep = at _ refl _ refl _ refl
    where
      at :
          (over : Bool)
          → leb s.position.first_block b.number ≡ over
          → (linked : Bool) → links s.position.parent_block_hash b.parent_hash ≡ linked
          → (is_final : Bool) → leb b.number head ≡ is_final
          → FollowsRound s (on_block b head s ep)
      at false o l e f g = rw (o, on_block) refl
      at true o false e f g = rw (o, on_block, e) refl
      at true o true e true g = rw (o, on_block, e, g) (leb→le _ _ o, e, refl)
      at true o true e false g = rw (o, on_block, e, g) (leb→le _ _ o, e, refl)

  on_item-Follows :
      (item : Item Body) (head : ℕ) (s : DataSourceState) (ep : Endpoint)
      → FollowsRound s (on_item item head s ep)
  unfolding on_item
  on_item-Follows (parsed b) head s ep = on_block-Follows b head s ep
  on_item-Follows unparsed head s ep = refl
  on_item-Follows broken head s ep = refl
  on_item-Follows ended head s ep = on_end-Follows s ep
  on_item-Follows item_pending head s ep = refl

  poll_once-Follows :
      (a : Answer Body) (s : DataSourceState) (ep : Endpoint) → FollowsRound s (poll_once a s ep)
  unfolding poll_once
  poll_once-Follows a s ep = at ep.state refl
    where
      at : (st : EndpointState) → ep.state ≡ st → FollowsRound s (poll_once a s ep)
      at ready e = rw (e, poll_once) refl
      at (requesting req) e = rw (e, poll_once) (on_response-Follows a.response req s ep)
      at (receiving head) e = rw (e, poll_once) (on_item-Follows a.item head s ep)
      at (forked req prev) e = rw (e, poll_once) refl
      at (backoff pause) e = ground arith

  poll_endpoint-Follows :
      (answers : List (Answer Body)) (s : DataSourceState) (ep : Endpoint)
      → Follows s.position (poll_endpoint answers s ep).0 (poll_endpoint answers s ep).1.position
  unfolding poll_endpoint
  poll_endpoint-Follows [] s ep = refl
  poll_endpoint-Follows (a ∷ more) s ep =
      at _ refl (poll_once-Follows a s (wake s ep)) (poll_endpoint-Follows more r.1 r.2)
    where
      r : Polled Body
      r = poll_once a s (wake s ep)

      at :
          (round : Round Body)
          → r.0 ≡ round
          → Follows s.position (event_of round) r.1.position
          → Follows r.1.position
              (poll_endpoint more r.1 r.2).0
              (poll_endpoint more r.1 r.2).1.position
          → Follows s.position
              (poll_endpoint (a ∷ more) s ep).0
              (poll_endpoint (a ∷ more) s ep).1.position
      at (ready_with e) q f ih = rw (q, poll_endpoint) f
      at pending q f ih = rw (q, poll_endpoint) f
      at again q f ih =
          rw (q, poll_endpoint)
            (subst
              (λ p.
                Follows p (poll_endpoint more r.1 r.2).0 (poll_endpoint more r.1 r.2).1.position)
              f ih)

  abbrev event_at : Option (ℕ × DataEvent Body) → Option (DataEvent Body)
  event_at none = none
  event_at (some (i, e)) = some e

  poll_all-Follows :
      (answers : List (List (Answer Body))) (i : ℕ) (s : DataSourceState) (eps : List Endpoint)
      → Follows s.position
          (event_at (poll_all answers i s eps).0)
          (poll_all answers i s eps).1.position
  unfolding poll_all
  poll_all-Follows answers i s [] = refl
  poll_all-Follows answers i s (ep ∷ eps) =
      at _ refl (poll_endpoint-Follows (first_answers answers) s ep)
        (poll_all-Follows (later_answers answers) (i + 1) r.1 eps)
    where
      r : Option (DataEvent Body) × DataSourceState × Endpoint
      r = poll_endpoint (first_answers answers) s ep

      rest : Option (ℕ × DataEvent Body) × DataSourceState × List Endpoint
      rest = poll_all (later_answers answers) (i + 1) r.1 eps

      at :
          (e : Option (DataEvent Body))
          → r.0 ≡ e
          → Follows s.position e r.1.position
          → Follows r.1.position (event_at rest.0) rest.1.position
          → Follows s.position
              (event_at (poll_all answers i s (ep ∷ eps)).0)
              (poll_all answers i s (ep ∷ eps)).1.position
      at (some e) q f ih = rw (q, poll_all) f
      at none q f ih =
          rw (q, poll_all) (subst (λ p. Follows p (event_at rest.0) rest.1.position) f ih)

  abbrev pub outcome_event : Outcome Body → Option (DataEvent Body)
  outcome_event (event e) = some e
  outcome_event nothing = none
  outcome_event panicked = none

  fork_event-Follows :
      (p : Request) (chain : List BlockRef) → Follows p (outcome_event (fork_event chain)) p
  fork_event-Follows p [] = refl
  fork_event-Follows p (b ∷ rest) = refl

  abbrev Stays : Request → Outcome Body × StandardDataSource → Type 0
  Stays p r = Follows p (outcome_event r.0) r.1.state.position

  if-Stays :
      (p : Request) (b : Bool) (x y : Outcome Body × StandardDataSource)
      → Stays p x
      → Stays p y
      → Stays p (if b then x else y)
  if-Stays p true x y hx hy = hx
  if-Stays p false x y hx hy = hy

  reach_consensus-Stays : (d : StandardDataSource) → Stays d.state.position (reach_consensus d)
  unfolding extract_fork reset_fork_consensus
  reach_consensus-Stays d =
      if-Stays d.state.position d.state.consensus_started (extract_fork d) (panicked, d)
        (fork_event-Follows d.state.position (longest_hints [] d.endpoints)) refl

  resolve_fork-Stays :
      (elapsed : Bool) (d : StandardDataSource) → Stays d.state.position (resolve_fork elapsed d)
  unfolding resolve_fork reset_fork_consensus
  resolve_fork-Stays elapsed d = if-Stays p (forks == 0) _ _ refl (
      if-Stays p (ltb (length d.endpoints / 2) forks) _ _ (reach_consensus-Stays d) (
        if-Stays p (forks == count is_active d.endpoints) _ _ (reach_consensus-Stays d)
          (if-Stays p elapsed _ _ (reach_consensus-Stays timed_out) refl)))
    where
      p : Request
      p = d.state.position

      forks : ℕ
      forks = count is_on_fork d.endpoints

      timed_out : StandardDataSource
      timed_out = record d { state = record d.state { timer = false } }

  pub poll_next_event-Follows :
      (answers : List (List (Answer Body))) (elapsed : Bool) (d : StandardDataSource)
      → Follows d.state.position
          (outcome_event (poll_next_event answers elapsed d).0)
          (poll_next_event answers elapsed d).1.state.position
  unfolding poll_next_event
  poll_next_event-Follows answers elapsed d =
      at _ refl (poll_all-Follows answers 0 d.state d.endpoints)
    where
      r : Option (ℕ × DataEvent Body) × DataSourceState × List Endpoint
      r = poll_all answers 0 d.state d.endpoints

      left : StandardDataSource
      left = record { endpoints = r.2; state = r.1 }

      at :
          (e : Option (ℕ × DataEvent Body))
          → r.0 ≡ e
          → Follows d.state.position (event_at e) r.1.position
          → Stays d.state.position (poll_next_event answers elapsed d)
      at (some (i, block b is_final)) q f = rw (q, poll_next_event) f
      at (some (i, finalized_head h)) q f = rw (q, poll_next_event) f
      at (some (i, fork prev)) q f = rw (q, poll_next_event) f
      at (some (i, maybe_on_head)) q f = rw (q, poll_next_event) f
      at none q f =
          rw (q, poll_next_event)
            (subst (λ p. Stays p (resolve_fork elapsed left)) f (resolve_fork-Stays elapsed left))
