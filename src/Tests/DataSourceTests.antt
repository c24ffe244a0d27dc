-- ===== src/Tests/DataSourceTests.antt =====
-- The theorems on the data source at one or two clients and a few blocks.
use data_lib.Common.{ℕ, ◌≡◌, inr, refl, String, false, none, some, List, [], ◌∷◌, arith, All}
use data_lib.DataSource.{
  block, streaming, forking, Item, parsed, item_pending, Answer, DataSourceState, backoff_ms,
  on_error, on_reject, reset_fork_consensus, accept_new_block, on_new_finalized_head,
}
use data_lib.DataSource.Poll.{
  wake, on_stream, on_response, on_end, on_block, on_item, poll_once, poll_endpoint, poll_all,
}
use data_lib.DataSource.Source.{
  forgive, extract_fork, resolve_fork, poll_next_event, set_position, new_source, fresh_endpoint,
}
use data_lib.Primitives.{Block}
use data_lib.DataSource.Stream.{
  Call, poll_next, reposition, Entry, delivered, IsChain, make_calls, make_calls-IsChain,
}
use data_lib.DataSource.Stream.Alive.{IsAlive, make_calls-IsAlive}
use data_lib.DataSource.Backoff.{IsFaulty, Parks, poll_endpoint-Parks, is_asleep}
use data_lib.DataSource.Backoff.Flaky.{flaky_never_sleeps, rounds_of_flaky}
use data_lib.DataSource.Consensus.{HasHints}

abbrev block_of : ℕ → String → String → Block ℕ
block_of n h p = record {
  number = n;
  hash = h;
  parent_hash = p;
  timestamp = none;
  data_mask = 1;
  body = 1;
}

abbrev answer : Item ℕ → Answer ℕ
answer i = record { response = streaming none; item = i; slept = false }

abbrev forks : Answer ℕ
forks = record {
  response = forking (record { number = 10; hash = "b10" } ∷ []);
  item = item_pending;
  slept = false;
}

-- Block 10 is delivered, block 11 is not linked to it, and then one of two sources answers with a fork.
abbrev calls : List (Call ℕ)
calls =
    reposition 10 (some "a9")
    ∷ poll_next ((answer item_pending ∷ answer (parsed (block_of 10 "a10" "a9")) ∷ []) ∷ []) false
    ∷ poll_next ((answer (parsed (block_of 11 "b11" "b10")) ∷ []) ∷ (forks ∷ []) ∷ []) false
    ∷ poll_next ((forks ∷ []) ∷ []) false
    ∷ []

abbrev numbers : List (Entry ℕ) → List ℕ
numbers [] = []
numbers (delivered (block b f) ∷ es) = b.number ∷ numbers es
numbers (e ∷ es) = numbers es

one_block : numbers (make_calls calls (new_source 2)).0 ≡ 10 ∷ []
unfolding make_calls poll_next_event poll_all poll_endpoint poll_once on_response on_stream on_item
    on_block on_reject on_new_finalized_head accept_new_block reset_fork_consensus backoff_ms wake
    resolve_fork extract_fork forgive set_position new_source on_end on_error
one_block = refl

streams : (i : Item ℕ) → HasHints (answer i)
streams i = λ prev e z. cc

hints : HasHints forks
hints = λ prev e z. cc

make_calls-IsChain_example :
    IsChain
      (record { first_block = 0; parent_block_hash = none })
      (make_calls calls (new_source 2)).0
unfolding new_source
make_calls-IsChain_example = make_calls-IsChain calls (new_source 2)

make_calls-IsAlive_example : All IsAlive (make_calls calls (new_source 2)).0
make_calls-IsAlive_example = make_calls-IsAlive 2 calls (
  tt,
  (
    ((streams item_pending, (streams (parsed (block_of 10 "a10" "a9")), tt)), tt),
    (
      ((streams (parsed (block_of 11 "b11" "b10")), tt), ((hints, tt), tt)),
      (((hints, tt), tt), tt),
    ),
  ),
)

abbrev at_ten : DataSourceState
at_ten = record {
  finalized_head = none;
  position = record { first_block = 10; parent_block_hash = some "a9" };
  position_is_canonical = false;
  max_seen_finalized_block = 0;
  timer = false;
  consensus_started = false;
}

abbrev unlinked : Answer ℕ
unlinked = answer (parsed (block_of 10 "b10" "b9"))

abbrev six : List (Answer ℕ) → List (Answer ℕ)
six more = unlinked ∷ unlinked ∷ unlinked ∷ unlinked ∷ unlinked ∷ unlinked ∷ more

unlinked-IsFaulty : IsFaulty at_ten unlinked
unlinked-IsFaulty = (refl, inr refl, (block_of 10 "b10" "b9", refl, omega arith, refl))

poll_endpoint-Parks_example : Parks (six (unlinked ∷ [])) at_ten fresh_endpoint
poll_endpoint-Parks_example =
    poll_endpoint-Parks (six (unlinked ∷ [])) at_ten fresh_endpoint
      (f, (f, (f, (f, (f, (f, (f, tt))))))) (omega arith) tt
  where
    f : IsFaulty at_ten unlinked
    f = unlinked-IsFaulty

flaky_never_sleeps_example :
    is_asleep (poll_endpoint (rounds_of_flaky ℕ 100) at_ten fresh_endpoint).2 ≡ false
flaky_never_sleeps_example = flaky_never_sleeps ℕ 100 at_ten fresh_endpoint tt
