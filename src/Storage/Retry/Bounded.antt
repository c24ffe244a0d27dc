-- ===== src/Storage/Retry/Bounded.antt =====
-- How `Tx::run` of crates/storage/src/db/write/tx.rs ends, and how long it sleeps.
use data_lib.Common.{
  ==_iff, ℕ, zero, suc, ◌+◌, ◌-◌, ◌*◌, ◌%◌, ◌^◌, ◌≤◌, ◌<◌, ◌≡◌, inl, inr, refl, sym, subst, Bool,
  true, false, not, ◌&&◌, some, [], ◌∷◌, arith, ltb, leb, ◌==◌, Result, ok, err, All, Bool-cases,
  min, max,
}
use native.Mathlib.Nat.{mod-lt}
use data_lib.Storage.Failure.{Failure}
use data_lib.Storage.Retry.{
  duration_max, ended, RetryPolicy, jitter, factor, backoff, next_state, CommitResult, committed,
  conflict, commit_failed, Exhaustion, Attempt, Outcome, done, rejected, broken, exhausted, Run,
  sleep_of, on_conflict, on_commit, run_from, run_transaction,
}

rest_le : (x bound : ℕ) → (bound == 0) ≡ false → x % bound ≤ bound
rest_le x bound h = omega (arith, mod-lt x positive)
  where
    positive : 0 < bound
    positive = ground arith

jitter_le : (bound state : ℕ) → jitter bound state ≤ bound
unfolding jitter
jitter_le bound state = elim (Bool-cases (min bound (2 ^ 64 - 1) == 0)) [
  | inl e ↦ rw e (omega arith)
  | inr e ↦ rw e (omega (arith, rest_le (next_state state) (min bound (2 ^ 64 - 1)) e))
]

module _ {Store Value : Type 0} (cb : Store → Result Failure (Value × Store)) where
  -- Every way for a run to go on after an attempt.
  on_commit-cases :
      (P : Run Store Value → Type 0) (policy : RetryPolicy) (attempt : ℕ) (a : Attempt Store)
      (x : Result Failure (Value × Store)) (rest : Run Store Value)
      → ((e : Failure) → P (ended cb (rejected e) attempt []))
      → P (ended cb broken attempt [])
      → ((value : Value) (staged : Store)
          → x ≡ ok (value, staged)
          → a.commit ≡ committed
          → P (ended cb (done value staged) attempt []))
      → ((e : Exhaustion) → P (ended cb (exhausted attempt e) attempt []))
      → ((e : Exhaustion)
          → P (
              ended cb
                (exhausted attempt e)
                attempt
                ((attempt, sleep_of cb policy attempt a) ∷ [])))
      → (attempt < policy.max_attempts
          → a.commit ≡ conflict
          → P (record rest { sleeps = (attempt, sleep_of cb policy attempt a) ∷ rest.sleeps }))
      → P (on_commit cb policy attempt a x rest)
  unfolding on_commit on_conflict
  on_commit-cases P policy attempt a (err e) rest r b d e₁ e₂ g = r e
  on_commit-cases P policy attempt a (ok (value, staged)) rest r b d e₁ e₂ g = at a.commit refl
    where
      at :
          (c : CommitResult)
          → a.commit ≡ c
          → P (on_commit cb policy attempt a (ok (value, staged)) rest)
      at committed q = rw (on_commit, q) (d value staged refl q)
      at commit_failed q = rw (on_commit, q) b
      at conflict q = rw (on_commit, q, on_conflict) (retry _ refl _ refl)
        where
          retry :
              (left : Bool)
              → (ltb attempt policy.max_attempts && not (leb policy.deadline a.conflict_at)) ≡ left
              → (late : Bool) → leb policy.deadline a.woken_at ≡ late
              → P (on_conflict cb policy attempt a rest)
          retry false h late l = rw (on_conflict, h) (e₁ _)
          retry true h true l = rw (on_conflict, h, l) (e₂ _)
          retry true h false l = rw (on_conflict, h, l) (g (ground arith) q)

  abbrev EndsBy : ℕ → Run Store Value → Type 0
  EndsBy bound r = (o : Outcome Store Value) × (r.outcome ≡ some o) × (r.attempts ≤ bound)

  run_from-EndsBy :
      (fuel : ℕ) (policy : RetryPolicy) (world : ℕ → Attempt Store) (attempt : ℕ)
      → attempt < max 1 policy.max_attempts
      → max 1 policy.max_attempts ≤ fuel + attempt
      → EndsBy (max 1 policy.max_attempts) (run_from cb fuel policy world attempt)
  unfolding run_from
  run_from-EndsBy zero policy world attempt below enough = ground arith
  run_from-EndsBy (suc fuel) policy world attempt below enough =
      on_commit-cases (EndsBy (max 1 policy.max_attempts)) policy (attempt + 1) a (cb a.snapshot)
        (run_from cb fuel policy world (attempt + 1))
        (λ e. (rejected e, refl, omega (arith, below))) (broken, refl, omega (arith, below))
        (λ value staged q c. (done value staged, refl, omega (arith, below)))
        (λ e. (exhausted (attempt + 1) e, refl, omega (arith, below)))
        (λ e. (exhausted (attempt + 1) e, refl, omega (arith, below)))
        (λ left c.
          run_from-EndsBy fuel policy world (attempt + 1) (omega (arith, left))
            (omega (arith, enough)))
    where
      a : Attempt Store
      a = world (attempt + 1)

  -- Whatever the attempts meet, a run ends, after no more attempts than the policy grants, and one where it
  -- grants none.
  pub run_transaction_ends :
      (policy : RetryPolicy) (world : ℕ → Attempt Store)
      → (o : Outcome Store Value) × ((run_transaction cb policy world).outcome ≡ some o)
        × ((run_transaction cb policy world).attempts ≤ max 1 policy.max_attempts)
  unfolding run_transaction
  run_transaction_ends policy world =
      run_from-EndsBy (max 1 policy.max_attempts) policy world 0 (omega arith) (omega arith)

  abbrev Explained : (ℕ → Attempt Store) → ℕ → Run Store Value → Type 0
  Explained world before r =
      (value : Value) (staged : Store)
      → r.outcome ≡ some (done value staged)
      → (before < r.attempts)
        × ((world r.attempts).commit ≡ committed)
        × (cb (world r.attempts).snapshot ≡ ok (value, staged))
        × ((k : ℕ) → before < k → k < r.attempts → (world k).commit ≡ conflict)

  run_from-Explained :
      (fuel : ℕ) (policy : RetryPolicy) (world : ℕ → Attempt Store) (attempt : ℕ)
      → Explained world attempt (run_from cb fuel policy world attempt)
  unfolding run_from
  run_from-Explained zero policy world attempt = λ value staged q. cc
  run_from-Explained (suc fuel) policy world attempt =
      on_commit-cases (Explained world attempt) policy (attempt + 1) a (cb a.snapshot) rest
        (λ e value staged q. cc) (λ value staged q. cc)
        (λ value staged q c value' staged' q'.
          (omega arith, c, cc, λ k above below. ground (arith, above, below)))
        (λ e value staged q. cc) (λ e value staged q. cc)
        (λ left c. first_too c (run_from-Explained fuel policy world (attempt + 1)))
    where
      a : Attempt Store
      a = world (attempt + 1)

      rest : Run Store Value
      rest = run_from cb fuel policy world (attempt + 1)

      -- The attempt before the rest of them met a conflict too.
      first_too :
          a.commit ≡ conflict → Explained world (attempt + 1) rest → Explained world attempt rest
      first_too c h value staged q = (
        omega (arith, (h value staged q).0),
        (h value staged q).1,
        (h value staged q).2,
        conflicts,
      )
        where
          conflicts : (k : ℕ) → attempt < k → k < rest.attempts → (world k).commit ≡ conflict
          conflicts k above below = elim (Bool-cases (k == attempt + 1)) [
            | inl e ↦
                subst (λ n. (world n).commit ≡ conflict) (sym ((==_iff k (attempt + 1)).0 e)) c
            | inr e ↦ (h value staged q).3 k (ground (arith, above)) below
          ]

  -- A run that reports success has committed, in its last attempt, what the callback staged on the
  -- snapshot of that attempt; every attempt before met a conflict.
  pub run_transaction_commits :
      (policy : RetryPolicy) (world : ℕ → Attempt Store) (value : Value) (staged : Store)
      → (run_transaction cb policy world).outcome ≡ some (done value staged)
      → (0 < (run_transaction cb policy world).attempts)
        × ((world (run_transaction cb policy world).attempts).commit ≡ committed)
        × (cb (world (run_transaction cb policy world).attempts).snapshot ≡ ok (value, staged))
        × ((k : ℕ)
            → 0 < k
            → k < (run_transaction cb policy world).attempts
            → (world k).commit ≡ conflict)
  unfolding run_transaction
  run_transaction_commits policy world =
      run_from-Explained (max 1 policy.max_attempts) policy world 0

  -- A sleep is within the cap of the policy and within what is left of its deadline.
  abbrev pub IsBounded : RetryPolicy → (ℕ → Attempt Store) → ℕ × ℕ → Type 0
  IsBounded policy world (attempt, slept) =
      (slept ≤ policy.max_backoff) × (slept ≤ policy.deadline - (world attempt).backoff_at)

  sleep_of-IsBounded :
      (policy : RetryPolicy) (world : ℕ → Attempt Store) (attempt : ℕ)
      → IsBounded policy world (attempt, sleep_of cb policy attempt (world attempt))
  unfolding backoff
  sleep_of-IsBounded policy world attempt = (
    omega (
      arith,
      jitter_le
          (min (min (policy.base_backoff * factor (attempt - 1)) duration_max) policy.max_backoff)
          (world attempt).jitter_state,
    ),
    omega arith,
  )

  run_from-IsBounded :
      (fuel : ℕ) (policy : RetryPolicy) (world : ℕ → Attempt Store) (attempt : ℕ)
      → All (IsBounded policy world) (run_from cb fuel policy world attempt).sleeps
  unfolding run_from
  run_from-IsBounded zero policy world attempt = tt
  run_from-IsBounded (suc fuel) policy world attempt =
      on_commit-cases (λ r. All (IsBounded policy world) r.sleeps) policy (attempt + 1)
        (world (attempt + 1)) (cb (world (attempt + 1)).snapshot)
        (run_from cb fuel policy world (attempt + 1)) (λ e. tt) tt (λ value staged q c. tt)
        (λ e. tt) (λ e. (sleep_of-IsBounded policy world (attempt + 1), tt))
        (λ left c. (
          sleep_of-IsBounded policy world (attempt + 1),
          run_from-IsBounded fuel policy world (attempt + 1),
        ))

  -- Every sleep of a run is within the cap of the policy, and within what was left of the deadline when it
  -- started.
  pub run_transaction-IsBounded :
      (policy : RetryPolicy) (world : ℕ → Attempt Store)
      → All (IsBounded policy world) (run_transaction cb policy world).sleeps
  unfolding run_transaction
  run_transaction-IsBounded policy world =
      run_from-IsBounded (max 1 policy.max_attempts) policy world 0
