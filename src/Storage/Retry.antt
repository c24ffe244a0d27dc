-- ===== src/Storage/Retry.antt =====
-- The commit loop of `Tx::run` in crates/storage/src/db/write/tx.rs and its `RetryPolicy`. Durations are
-- nanoseconds. What an attempt meets is an input: the snapshot it reads, how its commit ends, and what
-- the clock and the shared jitter state read at each place. Telemetry is left out.
pub mod Bounded
use Prim.Native.Nat.{bit_xor}
use data_lib.Common.{
  ℕ, zero, suc, ◌+◌, ◌-◌, ◌*◌, ◌/◌, ◌%◌, ◌^◌, ◌≤◌, ◌<◌, ◌≡◌, ◌≢◌, ◌↔◌, ◌⊎◌, inl, inr, refl, sym, ap,
  subst, ◌∙◌, String, Bool, true, false, not, ◌&&◌, ◌||◌, Option, none, some, List, [], ◌∷◌, ◌++◌,
  map, reverse, arith, ltb, leb, ◌==◌, str_eq, eq_iff, if◌then◌else◌, Result, ok, err, ensure,
  ◌>>=◌, ◌>>◌, >>=-eq-ok, All, All-append, Bool-cases, Option-cases, min, max, length, get_elem?,
  append_assoc, append-nil, head?, last?,
}
use data_lib.Storage.Failure.{Failure}

pub record RetryPolicy : Type 0 where
  pub max_attempts : ℕ
  pub deadline : ℕ
  pub base_backoff : ℕ
  pub max_backoff : ℕ

abbrev u32_max : ℕ
u32_max = 2 ^ 32 - 1

abbrev u64_max : ℕ
u64_max = 2 ^ 64 - 1

-- `Duration::MAX`
abbrev pub duration_max : ℕ
duration_max = u64_max * 1000000000 + 999999999

-- One step of xorshift64*; the state never stays at 0.
unfoldable pub next_state : ℕ → ℕ
next_state state =
    if state == 0
    then 11400714819323198485
    else let x = bit_xor state (state / 2 ^ 12) in
      let y = bit_xor x (x * 2 ^ 25 % 2 ^ 64) in
      let z = bit_xor y (y / 2 ^ 27) in z * 2685821657736338717 % 2 ^ 64

unfoldable pub jitter : ℕ → ℕ → ℕ
jitter bound state =
    let bound_ns = min bound u64_max in if bound_ns == 0 then 0 else next_state state % bound_ns

-- `1u32.checked_shl(retry)`, or its saturation.
abbrev pub factor : ℕ → ℕ
factor retry = if ltb retry 32 then 2 ^ retry else u32_max

unfoldable pub backoff : RetryPolicy → ℕ → ℕ → ℕ
backoff policy retry state =
    jitter (min (min (policy.base_backoff * factor retry) duration_max) policy.max_backoff) state

-- Busy and TryAgain are conflicts.
pub data CommitResult : Type 0 where
  committed : CommitResult
  conflict : CommitResult
  commit_failed : CommitResult

pub data Exhaustion : Type 0 where
  deadline_before_backoff : Exhaustion
  attempts_spent : Exhaustion
  deadline_after_backoff : Exhaustion

-- `conflict_at`, `backoff_at` and `woken_at` are what `started.elapsed()` reads when the conflict is seen, before
-- the sleep and after it.
pub record Attempt (Store : Type 0) : Type 0 where
  pub snapshot : Store
  pub commit : CommitResult
  pub conflict_at : ℕ
  pub backoff_at : ℕ
  pub woken_at : ℕ
  pub jitter_state : ℕ

pub data Outcome (Store Value : Type 0) : Type 0 where
  done : Value → Store → Outcome Store Value
  rejected : Failure → Outcome Store Value
  broken : Outcome Store Value
  exhausted : ℕ → Exhaustion → Outcome Store Value

-- An outcome is missing only where the fuel ran out; `sleeps` are by attempt.
pub record Run (Store Value : Type 0) : Type 0 where
  pub outcome : Option (Outcome Store Value)
  pub attempts : ℕ
  pub sleeps : List (ℕ × ℕ)

module _ {Store Value : Type 0} (cb : Store → Result Failure (Value × Store)) where
  abbrev pub ended : Outcome Store Value → ℕ → List (ℕ × ℕ) → Run Store Value
  ended o attempt sleeps = record { outcome = some o; attempts = attempt; sleeps = sleeps }

  abbrev pub sleep_of : RetryPolicy → ℕ → Attempt Store → ℕ
  sleep_of policy attempt a =
      min (backoff policy (attempt - 1) a.jitter_state) (policy.deadline - a.backoff_at)

  -- A conflict: give up, or sleep and go on as the rest of the run does.
  unfoldable pub on_conflict : RetryPolicy → ℕ → Attempt Store → Run Store Value → Run Store Value
  on_conflict policy attempt a rest =
      let deadline_hit = leb policy.deadline a.conflict_at in
      let slept : ℕ × ℕ = (attempt, sleep_of policy attempt a) in
      if ltb attempt policy.max_attempts && not deadline_hit
      then (if leb policy.deadline a.woken_at
          then ended (exhausted attempt deadline_after_backoff) attempt (slept ∷ [])
          else record rest { sleeps = slept ∷ rest.sleeps })
      else ended
          (exhausted attempt (if deadline_hit then deadline_before_backoff else attempts_spent))
          attempt []

  unfoldable pub on_commit :
      RetryPolicy
      → ℕ
      → Attempt Store
      → Result Failure (Value × Store)
      → Run Store Value
      → Run Store Value
  on_commit policy attempt a (err e) rest = ended (rejected e) attempt []
  on_commit policy attempt a (ok (value, staged)) rest = elim a.commit [
    | committed ↦ ended (done value staged) attempt []
    | conflict ↦ on_conflict policy attempt a rest
    | commit_failed ↦ ended broken attempt []
  ]

  -- The loop after `attempt` attempts; each one is a new transaction on the snapshot it meets.
  unfoldable pub run_from : ℕ → RetryPolicy → (ℕ → Attempt Store) → ℕ → Run Store Value
  run_from zero policy world attempt = record { outcome = none; attempts = attempt; sleeps = [] }
  run_from (suc fuel) policy world attempt =
      let a = world (attempt + 1) in
      let rest = run_from fuel policy world (attempt + 1) in
      on_commit policy (attempt + 1) a (cb a.snapshot) rest

  unfoldable pub run_transaction : RetryPolicy → (ℕ → Attempt Store) → Run Store Value
  run_transaction policy world = run_from (max 1 policy.max_attempts) policy world 0
