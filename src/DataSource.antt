-- ===== src/DataSource.antt =====
-- `StandardDataSource` of crates/data-source/src/standard.rs: one stream of events from several sources
-- of blocks. What a client, its stream of blocks and a timer answer to a poll is an input; `Pending` is
-- the end of a poll. Metrics and log lines are left out, and of a timer whether it is set.
pub mod Poll
pub mod Source
pub mod Linked
pub mod Stream
pub mod Consensus
pub mod Backoff
use data_lib.Common.{
  ℕ, zero, suc, ◌+◌, ◌-◌, ◌*◌, ◌/◌, ◌%◌, ◌^◌, ◌≤◌, ◌<◌, ◌≡◌, ◌≢◌, ◌↔◌, ◌⊎◌, inl, inr, refl, sym, ap,
  subst, ◌∙◌, String, Bool, true, false, not, ◌&&◌, ◌||◌, Option, none, some, List, [], ◌∷◌, ◌++◌,
  map, reverse, arith, ltb, leb, ◌==◌, str_eq, eq_iff, if◌then◌else◌, Result, ok, err, ensure,
  ◌>>=◌, ◌>>◌, >>=-eq-ok, All, All-append, Bool-cases, Option-cases, min, max, length, get_elem?,
  append_assoc, append-nil, head?, last?,
}
use data_lib.Primitives.{Block}
use data_lib.Storage.Data.{BlockRef}

-- `BlockStreamRequest` of crates/data-client/src/types.rs.
pub record Request : Type 0 where
  pub first_block : ℕ
  pub parent_block_hash : Option String

abbrev pub same_hash : Option String → Option String → Bool
same_hash none none = true
same_hash (some a) (some b) = str_eq a b
same_hash _ _ = false

abbrev pub same_request : Request → Request → Bool
same_request a b =
    (a.first_block == b.first_block) && same_hash a.parent_block_hash b.parent_block_hash

pub data DataEvent (Body : Type 0) : Type 0 where
  finalized_head : BlockRef → DataEvent Body
  block : Block Body → Bool → DataEvent Body
  fork : List BlockRef → DataEvent Body
  maybe_on_head : DataEvent Body

-- The outcome of a request, and the next item of a stream of blocks, once they are there. An item that
-- `parse` refuses is `unparsed`.
pub data Response : Type 0 where
  streaming : Option BlockRef → Response
  forking : List BlockRef → Response
  refused : Response
  response_pending : Response

pub data Item (Body : Type 0) : Type 0 where
  parsed : Block Body → Item Body
  unparsed : Item Body
  broken : Item Body
  ended : Item Body
  item_pending : Item Body

-- What one poll would be answered, whichever of its parts is asked.
pub record Answer (Body : Type 0) : Type 0 where
  pub response : Response
  pub item : Item Body
  pub slept : Bool

pub data EndpointState : Type 0 where
  ready : EndpointState
  requesting : Request → EndpointState
  receiving : ℕ → EndpointState
  forked : Request → List BlockRef → EndpointState
  backoff : ℕ → EndpointState

pub record Endpoint : Type 0 where
  pub state : EndpointState
  pub error_counter : ℕ
  pub reject_counter : ℕ
  pub last_committed_block : Option ℕ

-- `consensus_started` and `timer` tell whether `fork_consensus_started_at` and
-- `fork_consensus_timeout` are set.
pub record DataSourceState : Type 0 where
  pub finalized_head : Option BlockRef
  pub position : Request
  pub position_is_canonical : Bool
  pub max_seen_finalized_block : ℕ
  pub timer : Bool
  pub consensus_started : Bool

pub record StandardDataSource : Type 0 where
  pub endpoints : List Endpoint
  pub state : DataSourceState

abbrev pub backoff_rungs : List ℕ
backoff_rungs = 0 ∷ 100 ∷ 200 ∷ 500 ∷ 1000 ∷ 2000 ∷ 5000 ∷ 10000 ∷ []

-- `none` stands for an index out of range.
unfoldable pub backoff_ms : ℕ → Option ℕ
backoff_ms consecutive = get_elem? backoff_rungs (min consecutive (length backoff_rungs - 1))

abbrev pub pause_for : Option ℕ → EndpointState
pause_for none = ready
pause_for (some pause) = if ltb 0 pause then backoff pause else ready

unfoldable pub on_error : Endpoint → Endpoint
on_error ep = record ep {
  state = pause_for (backoff_ms ep.error_counter);
  error_counter = ep.error_counter + 1;
}

unfoldable pub on_reject : Endpoint → Endpoint
on_reject ep = record ep {
  state = pause_for (backoff_ms ep.reject_counter);
  reject_counter = ep.reject_counter + 1;
}

unfoldable pub reset_fork_consensus : DataSourceState → DataSourceState
reset_fork_consensus s = record s { timer = false; consensus_started = false }

abbrev pub links : Option String → String → Bool
links none parent = true
links (some hash) parent = str_eq parent hash

-- `accept_new_block`, behind its `assert!`: the test, and the state after a block that passes it.
abbrev pub moved_past : {Body : Type 0} → Block Body → Bool → DataSourceState → DataSourceState
moved_past b is_final s =
    let s' : DataSourceState = record (reset_fork_consensus s) {
      position = record { first_block = b.number + 1; parent_block_hash = some b.hash };
      position_is_canonical = true;
    } in
    if is_final
    then record s' { finalized_head = some (record { number = b.number; hash = b.hash }) }
    else s'

unfoldable pub accept_new_block :
    {Body : Type 0} → Block Body → Bool → DataSourceState → Bool × DataSourceState
accept_new_block b is_final s =
    if links s.position.parent_block_hash b.parent_hash
    then (true, moved_past b is_final s)
    else (false, s)

abbrev pub is_behind : Option BlockRef → BlockRef → Bool
is_behind none new_head = false
is_behind (some c) new_head = leb new_head.number c.number

-- The part of `on_new_finalized_head` after the tests of the position's shape.
abbrev pub move_finalized : BlockRef → String → DataSourceState → Bool × DataSourceState
move_finalized new_head current_parent s =
    if is_behind s.finalized_head new_head
    then (false, s)
    else if leb s.position.first_block new_head.number
    then (if s.position_is_canonical
        then (
          true,
          record s {
            finalized_head =
                some (record { number = s.position.first_block - 1; hash = current_parent });
          },
        )
        else (false, s))
    else (true, record s { finalized_head = some new_head })

unfoldable pub on_new_finalized_head : Option BlockRef → DataSourceState → Bool × DataSourceState
on_new_finalized_head none s = (false, s)
on_new_finalized_head (some new_head) s =
    let s' : DataSourceState = record s {
      max_seen_finalized_block = max s.max_seen_finalized_block new_head.number;
    } in
    if s.position.first_block == 0 then (false, s') else elim s.position.parent_block_hash [
      | none ↦ (false, s')
      | some hash ↦ move_finalized new_head hash s'
    ]
