-- ===== src/DataSource/Poll.antt =====
-- `poll_endpoint` of crates/data-source/src/standard.rs: one endpoint and its rounds.
use data_lib.Common.{
  ℕ, ◌+◌, ◌-◌, Bool, true, false, ◌&&◌, Option, none, some, List, [], ◌∷◌, leb, ◌==◌, if◌then◌else◌,
}
use data_lib.Primitives.{Block}
use data_lib.Storage.Data.{BlockRef}
use data_lib.DataSource.{
  Request, same_request, DataEvent, finalized_head, block, maybe_on_head, Response, streaming,
  forking, refused, response_pending, Item, parsed, unparsed, broken, ended, item_pending, Answer,
  ready, requesting, receiving, forked, backoff, Endpoint, DataSourceState, on_error, on_reject,
  accept_new_block, on_new_finalized_head,
}

-- Up to the next poll of a client, stream or timer: a request is sent, and a fork signal for a
-- position that has passed is dropped.
unfoldable pub wake : DataSourceState → Endpoint → Endpoint
wake s ep = elim ep.state [
  | ready ↦ record ep { state = requesting s.position }
  | forked req prev_blocks ↦
      if same_request req s.position then ep else record ep { state = requesting s.position }
  | other ↦ ep
]

-- What one round of the loop of `poll_endpoint` comes to.
pub data Round (Body : Type 0) : Type 0 where
  ready_with : DataEvent Body → Round Body
  pending : Round Body
  again : Round Body

abbrev pub Polled : Type 0 → Type 0
Polled Body = Round Body × DataSourceState × Endpoint

module _ {Body : Type 0} where
  unfoldable pub on_stream : Option BlockRef → DataSourceState → Endpoint → Polled Body
  on_stream head s ep =
      let (updated, s') = on_new_finalized_head head s in
      let ep' : Endpoint = record ep {
        error_counter = 0;
        state = receiving (elim head as (λ _. ℕ) [ none ↦ 0 | some b ↦ b.number ]);
      } in
      -- `finalized_head.unwrap()`: only a head that is there updates.
      (
        if updated
            then elim head [ none ↦ again | some b ↦ ready_with (finalized_head b) ]
            else again,
        s',
        ep',
      )

  unfoldable pub on_response : Response → Request → DataSourceState → Endpoint → Polled Body
  on_response (streaming head) req s ep = on_stream head s ep
  on_response (forking prev_blocks) req s ep = (
    again,
    record s { consensus_started = true },
    record ep { error_counter = 0; state = forked req prev_blocks },
  )
  on_response refused req s ep = (again, s, on_error ep)
  on_response response_pending req s ep = (pending, s, ep)

  unfoldable pub on_end : DataSourceState → Endpoint → Polled Body
  on_end s ep =
      let ep' : Endpoint = record ep { error_counter = 0; state = ready } in
      let prev_block = s.position.first_block - 1 in
      (
        if leb s.max_seen_finalized_block prev_block
              && elim ep.last_committed_block [ none ↦ false | some n ↦ n == prev_block ]
            then ready_with maybe_on_head
            else again,
        s,
        ep',
      )

  abbrev pub committed : Block Body → Bool → Bool × DataSourceState → Endpoint → Polled Body
  committed b is_final (true, s) ep = (
    ready_with (block b is_final),
    s,
    record ep { reject_counter = 0; last_committed_block = some b.number },
  )
  committed b is_final (false, s) ep = (again, s, on_reject ep)

  unfoldable pub on_block : Block Body → ℕ → DataSourceState → Endpoint → Polled Body
  on_block b head s ep =
      let ep' : Endpoint = record ep { error_counter = 0 } in
      if leb s.position.first_block b.number
      then committed b (leb b.number head) (accept_new_block b (leb b.number head) s) ep'
      else (again, s, ep')

  unfoldable pub on_item : Item Body → ℕ → DataSourceState → Endpoint → Polled Body
  on_item (parsed b) head s ep = on_block b head s ep
  on_item unparsed head s ep = (again, s, on_error ep)
  on_item broken head s ep = (again, s, on_error ep)
  on_item ended head s ep = on_end s ep
  on_item item_pending head s ep = (pending, s, ep)

  -- One round, of an endpoint that is awake.
  unfoldable pub poll_once : Answer Body → DataSourceState → Endpoint → Polled Body
  poll_once a s ep = elim ep.state [
    | ready ↦ (again, s, ep)
    | requesting req ↦ on_response a.response req s ep
    | receiving head ↦ on_item a.item head s ep
    | forked req prev_blocks ↦ (pending, s, ep)
    | backoff pause ↦ if a.slept then (again, s, record ep { state = ready }) else (pending, s, ep)
  ]

  abbrev pub event_of : Round Body → Option (DataEvent Body)
  event_of (ready_with e) = some e
  event_of _ = none

  -- The loop, over the answers of the polls until the client, the stream or the timer is pending.
  unfoldable pub poll_endpoint :
      List (Answer Body)
      → DataSourceState
      → Endpoint
      → Option (DataEvent Body) × DataSourceState × Endpoint
  poll_endpoint [] s ep = (none, s, wake s ep)
  poll_endpoint (a ∷ more) s ep =
      let (round, s', ep') = poll_once a s (wake s ep) in
      let rest = poll_endpoint more s' ep' in
      elim round [ again ↦ rest | ready_with e ↦ (some e, s', ep') | pending ↦ (none, s', ep') ]

  abbrev pub first_answers : List (List (Answer Body)) → List (Answer Body)
  first_answers [] = []
  first_answers (a ∷ rest) = a

  abbrev pub later_answers : List (List (Answer Body)) → List (List (Answer Body))
  later_answers [] = []
  later_answers (a ∷ rest) = rest

  -- The endpoints in turn, up to the first event; it comes with its endpoint's index.
  unfoldable pub poll_all :
      List (List (Answer Body))
      → ℕ
      → DataSourceState
      → List Endpoint
      → Option (ℕ × DataEvent Body) × DataSourceState × List Endpoint
  poll_all answers i s [] = (none, s, [])
  poll_all answers i s (ep ∷ eps) =
      let (e, s', ep') = poll_endpoint (first_answers answers) s ep in
      let (r, s'', eps') = poll_all (later_answers answers) (i + 1) s' eps in
      elim e [ some event ↦ (some (i, event), s', ep' ∷ eps) | none ↦ (r, s'', ep' ∷ eps') ]
