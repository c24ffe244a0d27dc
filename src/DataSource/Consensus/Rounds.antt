-- ===== src/DataSource/Consensus/Rounds.antt =====
-- The rounds of `poll_endpoint` in crates/data-source/src/standard.rs and the fork signals they leave.
use data_lib.Common.{
  ℕ, ◌+◌, ◌-◌, ◌<◌, ◌≡◌, ◌≢◌, inl, inr, refl, sym, subst, ◌∙◌, Bool, true, false, ◌&&◌, Option,
  none, some, List, [], ◌∷◌, arith, leb, ◌==◌, All, Bool-cases,
}
use data_lib.Primitives.{Block}
use data_lib.Storage.Data.{BlockRef}
use data_lib.DataSource.{
  Request, DataEvent, finalized_head, block, fork, maybe_on_head, Response, streaming, forking,
  refused, response_pending, Item, parsed, unparsed, broken, ended, item_pending, Answer,
  EndpointState, ready, requesting, receiving, forked, backoff, Endpoint, DataSourceState,
  backoff_ms, on_error, on_reject, reset_fork_consensus, links, accept_new_block,
  on_new_finalized_head,
}
use data_lib.DataSource.Poll.{
  wake, Round, ready_with, pending, again, Polled, on_stream, on_response, on_end, on_block,
  on_item, poll_once, event_of, poll_endpoint, first_answers, later_answers, poll_all,
}
use data_lib.DataSource.Consensus.{
  IsCurrent, StateOk, Settled, Settled-StateOk, wake-Settled, HasHints, Stays,
  on_new_finalized_head-Stays, Moves, Moves-StateOk, pause_for-StateOk,
}

leb_suc : (a b : ℕ) → leb a b ≡ true → a < b + 1
leb_suc a b h = ground arith

abbrev pub AllOk : DataSourceState → List Endpoint → Type 0
AllOk s eps = All (λ ep. StateOk s ep.state) eps

abbrev pub AllSettled : DataSourceState → List Endpoint → Type 0
AllSettled s eps = All (λ ep. Settled s ep.state) eps

module _ (Body : Type 0) where
  -- Of a round: how the state moves, what the endpoint is left in, and that a pending one changes nothing.
  abbrev RoundOk : DataSourceState → Endpoint → Polled Body → Type 0
  RoundOk s ep r =
      Moves (event_of r.0) s r.1 × StateOk r.1 r.2.state × (r.0 ≡ pending → Settled r.1 r.2.state)

  on_response-RoundOk :
      (response : Response) (req : Request) (s : DataSourceState) (ep : Endpoint)
      → ((prev : List BlockRef) → response ≡ forking prev → prev ≢ [])
      → IsCurrent s.position req
      → ep.state ≡ requesting req
      → RoundOk s ep (on_response response req s ep)
  unfolding on_response on_stream on_error
  on_response-RoundOk (streaming none) req s ep hints h e =
      elim (Bool-cases (on_new_finalized_head none s).0) [
        | inl q ↦ rw q (on_new_finalized_head-Stays none s, tt, λ r. tt)
        | inr q ↦ rw q (on_new_finalized_head-Stays none s, tt, λ r. tt)
      ]
  on_response-RoundOk (streaming (some head)) req s ep hints h e =
      elim (Bool-cases (on_new_finalized_head (some head) s).0) [
        | inl q ↦ rw q (on_new_finalized_head-Stays (some head) s, tt, λ r. tt)
        | inr q ↦ rw q (on_new_finalized_head-Stays (some head) s, tt, λ r. tt)
      ]
  on_response-RoundOk (forking prev) req s ep hints (inl h) e =
      ((refl, λ c. refl), (hints prev refl, inl (h, refl)), λ q. cc)
  on_response-RoundOk (forking prev) req s ep hints (inr h) e =
      ((refl, λ c. refl), (hints prev refl, inr h), λ q. cc)
  on_response-RoundOk refused req s ep hints h e =
      ((refl, λ c. c), pause_for-StateOk s (backoff_ms ep.error_counter), λ q. cc)
  on_response-RoundOk response_pending req s ep hints h e = ((refl, λ c. c), rw e h, λ q. rw e h)

  on_end-RoundOk : (s : DataSourceState) (ep : Endpoint) → RoundOk s ep (on_end s ep)
  unfolding on_end
  on_end-RoundOk s ep = at _ refl
    where
      at :
          (home : Bool)
          → (leb s.max_seen_finalized_block (s.position.first_block - 1)
              && elim ep.last_committed_block [
                | none ↦ false
                | some n ↦ n == (s.position.first_block - 1)
              ])
            ≡ home
          → RoundOk s ep (on_end s ep)
      at true q = rw (on_end, q) ((refl, λ c. c), tt, λ r. tt)
      at false q = rw (on_end, q) ((refl, λ c. c), tt, λ r. tt)

  on_block-RoundOk :
      (b : Block Body) (head : ℕ) (s : DataSourceState) (ep : Endpoint)
      → ep.state ≡ receiving head
      → RoundOk s ep (on_block b head s ep)
  unfolding on_block accept_new_block on_reject reset_fork_consensus
  on_block-RoundOk b head s ep r = at _ refl _ refl _ refl
    where
      at :
          (over : Bool)
          → leb s.position.first_block b.number ≡ over
          → (linked : Bool) → links s.position.parent_block_hash b.parent_hash ≡ linked
          → (is_final : Bool) → leb b.number head ≡ is_final
          → RoundOk s ep (on_block b head s ep)
      at false o l e f g = rw (on_block, o) ((refl, λ c. c), rw r tt, λ q. cc)
      at true o false e f g =
          rw (on_block, o, e)
            ((refl, λ c. c), pause_for-StateOk s (backoff_ms ep.reject_counter), λ q. cc)
      at true o true e true g = rw (on_block, o, e, g) (leb_suc _ b.number o, rw r tt, λ q. cc)
      at true o true e false g = rw (on_block, o, e, g) (leb_suc _ b.number o, rw r tt, λ q. cc)

  on_item-RoundOk :
      (item : Item Body) (head : ℕ) (s : DataSourceState) (ep : Endpoint)
      → ep.state ≡ receiving head
      → RoundOk s ep (on_item item head s ep)
  unfolding on_item on_error
  on_item-RoundOk (parsed b) head s ep e = on_block-RoundOk b head s ep e
  on_item-RoundOk unparsed head s ep e =
      ((refl, λ c. c), pause_for-StateOk s (backoff_ms ep.error_counter), λ q. cc)
  on_item-RoundOk broken head s ep e =
      ((refl, λ c. c), pause_for-StateOk s (backoff_ms ep.error_counter), λ q. cc)
  on_item-RoundOk ended head s ep e = on_end-RoundOk s ep
  on_item-RoundOk item_pending head s ep e = ((refl, λ c. c), rw e tt, λ q. rw e tt)

  poll_once-RoundOk :
      (a : Answer Body) (s : DataSourceState) (ep : Endpoint)
      → HasHints a
      → Settled s ep.state
      → RoundOk s ep (poll_once a s ep)
  unfolding poll_once
  poll_once-RoundOk a s ep hints h = at ep.state refl h
    where
      at : (st : EndpointState) → ep.state ≡ st → Settled s st → RoundOk s ep (poll_once a s ep)
      at ready e h = rw (e, poll_once) ((refl, λ c. c), rw e tt, λ q. cc)
      at (requesting req) e h =
          rw (e, poll_once) (on_response-RoundOk a.response req s ep hints h e)
      at (receiving head) e h = rw (e, poll_once) (on_item-RoundOk a.item head s ep e)
      at (forked req prev) e h =
          rw (e, poll_once) ((refl, λ c. c), rw e (h.0, inl (h.1, h.2)), λ q. rw e h)
      at (backoff pause) e h = elim (Bool-cases a.slept) [
        | inl w ↦ rw (e, poll_once, w) ((refl, λ c. c), tt, λ q. cc)
        | inr w ↦ rw (e, poll_once, w) ((refl, λ c. c), rw e tt, λ q. rw e tt)
      ]

  Stays-Moves :
      (e : Option (DataEvent Body)) (s s' s'' : DataSourceState)
      → Stays s s'
      → Moves e s' s''
      → Moves e s s''
  Stays-Moves none s s' s'' h m = (m.0 ∙ h.0, λ c. m.1 (h.1 c))
  Stays-Moves (some (finalized_head head)) s s' s'' h m = (m.0 ∙ h.0, λ c. m.1 (h.1 c))
  Stays-Moves (some (fork prev)) s s' s'' h m = (m.0 ∙ h.0, λ c. m.1 (h.1 c))
  Stays-Moves (some maybe_on_head) s s' s'' h m = (m.0 ∙ h.0, λ c. m.1 (h.1 c))
  Stays-Moves (some (block b is_final)) s s' s'' h m =
      subst (λ p. p.first_block < s''.position.first_block) h.0 m

  -- The same of a whole poll of an endpoint.
  abbrev PolledOk : DataSourceState → Option (DataEvent Body) × DataSourceState × Endpoint → Type 0
  PolledOk s r = Moves r.0 s r.1 × StateOk r.1 r.2.state × (r.0 ≡ none → Settled r.1 r.2.state)

  poll_endpoint-PolledOk :
      (answers : List (Answer Body)) (s : DataSourceState) (ep : Endpoint)
      → All HasHints answers
      → StateOk s ep.state
      → PolledOk s (poll_endpoint answers s ep)
  unfolding poll_endpoint
  poll_endpoint-PolledOk [] s ep hints h =
      ((refl, λ c. c), Settled-StateOk s _ (wake-Settled s ep h), λ q. wake-Settled s ep h)
  poll_endpoint-PolledOk (a ∷ more) s ep hints h =
      at _ refl (poll_once-RoundOk a s (wake s ep) hints.0 (wake-Settled s ep h))
        (λ h'. poll_endpoint-PolledOk more r.1 r.2 hints.1 h')
    where
      r : Polled Body
      r = poll_once a s (wake s ep)

      at :
          (round : Round Body)
          → r.0 ≡ round
          → Moves (event_of round) s r.1
            × StateOk r.1 r.2.state
            × (round ≡ pending → Settled r.1 r.2.state)
          → (StateOk r.1 r.2.state → PolledOk r.1 (poll_endpoint more r.1 r.2))
          → PolledOk s (poll_endpoint (a ∷ more) s ep)
      at (ready_with e) q f ih = rw (q, poll_endpoint) (f.0, f.1, λ z. cc)
      at pending q f ih = rw (q, poll_endpoint) (f.0, f.1, λ z. f.2 refl)
      at again q f ih =
          rw (q, poll_endpoint)
            (
              Stays-Moves (poll_endpoint more r.1 r.2).0 s r.1 _ f.0 (ih f.1).0,
              (ih f.1).1,
              (ih f.1).2,
            )

  abbrev pub event_at : Option (ℕ × DataEvent Body) → Option (DataEvent Body)
  event_at none = none
  event_at (some (i, e)) = some e

  Moves-AllOk :
      (e : Option (DataEvent Body)) (s s' : DataSourceState) (eps : List Endpoint)
      → Moves e s s'
      → AllOk s eps
      → AllOk s' eps
  Moves-AllOk e s s' [] m h = tt
  Moves-AllOk e s s' (ep ∷ eps) m h =
      (Moves-StateOk e s s' ep.state m h.0, Moves-AllOk e s s' eps m h.1)

  abbrev pub AllPolledOk :
      DataSourceState → Option (ℕ × DataEvent Body) × DataSourceState × List Endpoint → Type 0
  AllPolledOk s r = Moves (event_at r.0) s r.1 × AllOk r.1 r.2 × (r.0 ≡ none → AllSettled r.1 r.2)

  Stays-Settled :
      (s s' : DataSourceState) (st : EndpointState) → Stays s s' → Settled s st → Settled s' st
  Stays-Settled s s' ready m h = tt
  Stays-Settled s s' (requesting req) m h = subst (λ p. IsCurrent p req) (sym m.0) h
  Stays-Settled s s' (receiving head) m h = tt
  Stays-Settled s s' (forked req prev) m h = (h.0, h.1 ∙ sym m.0, m.1 h.2)
  Stays-Settled s s' (backoff pause) m h = tt

  pub poll_all-AllPolledOk :
      (answers : List (List (Answer Body))) (i : ℕ) (s : DataSourceState) (eps : List Endpoint)
      → All (All HasHints) answers
      → AllOk s eps
      → AllPolledOk s (poll_all answers i s eps)
  unfolding poll_all
  poll_all-AllPolledOk answers i s [] hints h = ((refl, λ c. c), tt, λ q. tt)
  poll_all-AllPolledOk answers i s (ep ∷ eps) hints h =
      at _ refl (poll_endpoint-PolledOk (first_answers answers) s ep (first_ok answers hints) h.0)
        (λ h'.
          poll_all-AllPolledOk (later_answers answers) (i + 1) r.1 eps (later_ok answers hints) h')
    where
      r : Option (DataEvent Body) × DataSourceState × Endpoint
      r = poll_endpoint (first_answers answers) s ep

      rest : Option (ℕ × DataEvent Body) × DataSourceState × List Endpoint
      rest = poll_all (later_answers answers) (i + 1) r.1 eps

      first_ok :
          (answers : List (List (Answer Body)))
          → All (All HasHints) answers
          → All HasHints (first_answers answers)
      first_ok [] hints = tt
      first_ok (a ∷ later) hints = hints.0

      later_ok :
          (answers : List (List (Answer Body)))
          → All (All HasHints) answers
          → All (All HasHints) (later_answers answers)
      later_ok [] hints = tt
      later_ok (a ∷ later) hints = hints.1

      at :
          (e : Option (DataEvent Body))
          → r.0 ≡ e
          → Moves e s r.1 × StateOk r.1 r.2.state × (e ≡ none → Settled r.1 r.2.state)
          → (AllOk r.1 eps → AllPolledOk r.1 rest)
          → AllPolledOk s (poll_all answers i s (ep ∷ eps))
      at (some e) q f ih =
          rw (q, poll_all) (f.0, (f.1, Moves-AllOk (some e) s r.1 eps f.0 h.1), λ z. cc)
      at none q f ih =
          rw (q, poll_all)
            (
              Stays-Moves (event_at rest.0) s r.1 rest.1 f.0 polled.0,
              (Moves-StateOk (event_at rest.0) r.1 rest.1 r.2.state polled.0 f.1, polled.1),
              λ z. (
                Stays-Settled r.1 rest.1 r.2.state
                    (subst (λ o. Moves (event_at o) r.1 rest.1) z polled.0) (f.2 refl),
                polled.2 z,
              ),
            )
        where
          polled : AllPolledOk r.1 rest
          polled = ih (Moves-AllOk none s r.1 eps f.0 h.1)
