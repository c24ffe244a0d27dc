-- ===== src/DataSource/Source.antt =====
-- `poll_next_event` and `set_position` of crates/data-source/src/standard.rs: all endpoints together.
use data_lib.Common.{
  ℕ, zero, suc, ◌/◌, String, Bool, true, false, ◌&&◌, Option, none, some, List, [], ◌∷◌, map, ltb,
  ◌==◌, if◌then◌else◌, length,
}
use data_lib.Storage.Data.{BlockRef}
use data_lib.DataSource.{
  DataEvent, block, fork, Answer, ready, forked, backoff, Endpoint, DataSourceState,
  StandardDataSource, reset_fork_consensus,
}
use data_lib.DataSource.Poll.{poll_all}

-- An event, or nothing yet, or an `assert!` or `expect` that does not hold.
pub data Outcome (Body : Type 0) : Type 0 where
  event : DataEvent Body → Outcome Body
  nothing : Outcome Body
  panicked : Outcome Body

abbrev pub is_on_fork : Endpoint → Bool
is_on_fork ep = elim ep.state [ forked req prev_blocks ↦ true | _ ↦ false ]

abbrev pub is_active : Endpoint → Bool
is_active ep = elim ep.state [ backoff pause ↦ false | _ ↦ true ]

abbrev pub count : (Endpoint → Bool) → List Endpoint → ℕ
count p [] = 0
count p (ep ∷ eps) = if p ep then suc (count p eps) else count p eps

-- The strikes of the endpoints other than the one that committed a block.
unfoldable pub forgive : Endpoint → Endpoint
forgive ep =
    let ep' : Endpoint = record ep { reject_counter = 0 } in
    elim ep.state [
      | backoff pause ↦
          if ltb 0 ep.reject_counter && (ep.error_counter == 0)
          then record ep' { state = ready }
          else ep'
      | _ ↦ ep'
    ]

abbrev pub forgive_others : ℕ → List Endpoint → List Endpoint
forgive_others i [] = []
forgive_others zero (ep ∷ eps) = ep ∷ map forgive eps
forgive_others (suc i) (ep ∷ eps) = forgive ep ∷ forgive_others i eps

-- The longest list of hints, the first one of equal length.
abbrev pub longest_hints : List BlockRef → List Endpoint → List BlockRef
longest_hints chain [] = chain
longest_hints chain (ep ∷ eps) =
    longest_hints
      (elim ep.state [
        | forked req prev_blocks ↦
            if ltb (length chain) (length prev_blocks) then prev_blocks else chain
        | _ ↦ chain
      ])
      eps

abbrev pub make_ready : Endpoint → Endpoint
make_ready ep = record ep { state = ready }

module _ {Body : Type 0} where
  abbrev pub fork_event : List BlockRef → Outcome Body
  fork_event [] = panicked
  fork_event (b ∷ rest) = event (fork (b ∷ rest))

  -- `extract_fork`, and the event that its hints become.
  unfoldable pub extract_fork : StandardDataSource → Outcome Body × StandardDataSource
  extract_fork d = (
    fork_event (longest_hints [] d.endpoints),
    record { endpoints = map make_ready d.endpoints; state = reset_fork_consensus d.state },
  )

  abbrev pub reach_consensus : StandardDataSource → Outcome Body × StandardDataSource
  reach_consensus d = if d.state.consensus_started then extract_fork d else (panicked, d)

  -- The end of a poll without an event; `elapsed` is what the timer answers.
  unfoldable pub resolve_fork : Bool → StandardDataSource → Outcome Body × StandardDataSource
  resolve_fork elapsed d =
      let forks = count is_on_fork d.endpoints in
      let timed_out : StandardDataSource = record d { state = record d.state { timer = false } } in
      let waiting : StandardDataSource = record d { state = record d.state { timer = true } } in
      if forks == 0
      then (nothing, record d { state = reset_fork_consensus d.state })
      else if ltb (length d.endpoints / 2) forks
      then reach_consensus d
      else if forks == count is_active d.endpoints
      then reach_consensus d
      else if elapsed
      then reach_consensus timed_out
      else (nothing, waiting)

  abbrev pub after_event : ℕ → DataEvent Body → DataSourceState → List Endpoint → StandardDataSource
  after_event i (block b is_final) s eps = record { endpoints = forgive_others i eps; state = s }
  after_event i _ s eps = record { endpoints = eps; state = s }

  unfoldable pub poll_next_event :
      List (List (Answer Body)) → Bool → StandardDataSource → Outcome Body × StandardDataSource
  poll_next_event answers elapsed d =
      let (r, s, eps) = poll_all answers 0 d.state d.endpoints in
      elim r [
        | some (i, e) ↦ (event e, after_event i e s eps)
        | none ↦ resolve_fork elapsed (record { endpoints = eps; state = s })
      ]

abbrev pub repositioned : Endpoint → Endpoint
repositioned ep = record ep { state = ready; last_committed_block = none; reject_counter = 0 }

unfoldable pub set_position : ℕ → Option String → StandardDataSource → StandardDataSource
set_position next_block parent_block_hash d = record {
  endpoints = map repositioned d.endpoints;
  state = record (reset_fork_consensus d.state) {
    position = record { first_block = next_block; parent_block_hash = parent_block_hash };
    position_is_canonical = false;
    finalized_head = none;
  };
}

abbrev pub fresh_endpoint : Endpoint
fresh_endpoint = record {
  state = ready;
  error_counter = 0;
  reject_counter = 0;
  last_committed_block = none;
}

abbrev pub replicate : ℕ → List Endpoint
replicate zero = []
replicate (suc n) = fresh_endpoint ∷ replicate n

-- `StandardDataSource::new`, over a number of clients.
unfoldable pub new_source : ℕ → StandardDataSource
new_source clients = record {
  endpoints = replicate clients;
  state = record {
    finalized_head = none;
    position = record { first_block = 0; parent_block_hash = none };
    position_is_canonical = false;
    max_seen_finalized_block = 0;
    timer = false;
    consensus_started = false;
  };
}
