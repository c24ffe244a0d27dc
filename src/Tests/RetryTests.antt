-- ===== src/Tests/RetryTests.antt =====
-- The theorems on the commit loop at a counter as the store, and one conflict.
use data_lib.Common.{ℕ, zero, suc, ◌+◌, ◌≤◌, ◌<◌, ◌≡◌, refl, String, some, Result, ok, All, max}
use data_lib.Storage.Failure.{Failure}
use data_lib.Storage.Retry.{
  RetryPolicy, committed, conflict, Attempt, Outcome, done, run_transaction, jitter, next_state,
  backoff, on_commit, on_conflict, run_from,
}
use data_lib.Storage.Retry.Bounded.{
  run_transaction_ends, run_transaction_commits, run_transaction-IsBounded, IsBounded,
}

abbrev bump : ℕ → Result Failure (String × ℕ)
bump n = ok ("bumped", n + 1)

-- The policy's default, in nanoseconds.
abbrev policy : RetryPolicy
policy = record {
  max_attempts = 8;
  deadline = 30000000000;
  base_backoff = 10000000;
  max_backoff = 1000000000;
}

abbrev meets : ℕ → Attempt ℕ
meets (suc zero) = record {
  snapshot = 5;
  commit = conflict;
  conflict_at = 1000;
  backoff_at = 1000;
  woken_at = 9000000;
  jitter_state = 0;
}
meets n = record {
  snapshot = 6;
  commit = committed;
  conflict_at = 0;
  backoff_at = 0;
  woken_at = 0;
  jitter_state = 1;
}

second_commits : (run_transaction bump policy meets).outcome ≡ some (done "bumped" 7)
unfolding run_transaction run_from on_commit on_conflict backoff jitter next_state
second_commits = refl

run_transaction_ends_example :
    (o : Outcome ℕ String) × ((run_transaction bump policy meets).outcome ≡ some o)
    × ((run_transaction bump policy meets).attempts ≤ max 1 8)
run_transaction_ends_example = run_transaction_ends bump policy meets

run_transaction_commits_example :
    (0 < (run_transaction bump policy meets).attempts)
    × ((meets (run_transaction bump policy meets).attempts).commit ≡ committed)
    × (bump (meets (run_transaction bump policy meets).attempts).snapshot ≡ ok ("bumped", 7))
    × ((k : ℕ)
        → 0 < k
        → k < (run_transaction bump policy meets).attempts
        → (meets k).commit ≡ conflict)
run_transaction_commits_example =
    run_transaction_commits bump policy meets "bumped" 7 second_commits

run_transaction-IsBounded_example :
    All (IsBounded bump policy meets) (run_transaction bump policy meets).sleeps
run_transaction-IsBounded_example = run_transaction-IsBounded bump policy meets
