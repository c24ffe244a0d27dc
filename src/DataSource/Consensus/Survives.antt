-- ===== src/DataSource/Consensus/Survives.antt =====
-- `poll_next_event` and `set_position` of crates/data-source/src/standard.rs, and the panics of the
-- fork consensus.
use data_lib.Common.{
  ℕ, zero, suc, ◌/◌, ◌≡◌, ◌≢◌, ◌⊎◌, inl, inr, refl, String, Bool, true, false, ◌&&◌, Option, none,
  some, List, [], ◌∷◌, map, arith, ltb, ◌==◌, if◌then◌else◌, All, Bool-cases, length,
}
use data_lib.Storage.Data.{BlockRef}
use data_lib.DataSource.{
  DataEvent, finalized_head, block, fork, maybe_on_head, Answer, EndpointState, ready, requesting,
  receiving, forked, backoff, Endpoint, DataSourceState, StandardDataSource, reset_fork_consensus,
}
use data_lib.DataSource.Poll.{poll_all}
use data_lib.DataSource.Source.{
  replicate, Outcome, panicked, is_on_fork, is_active, count, forgive, forgive_others,
  longest_hints, make_ready, fork_event, extract_fork, reach_consensus, resolve_fork,
  poll_next_event, repositioned, set_position, new_source,
}
use data_lib.DataSource.Consensus.{StateOk, Settled, Settled-StateOk, HasHints}
use data_lib.DataSource.Consensus.Rounds.{AllOk, AllSettled, AllPolledOk, poll_all-AllPolledOk}

-- Either some endpoint is on a fork, or none is.
abbrev HasFork : List Endpoint → Type 0
HasFork [] = ⊥
HasFork (ep ∷ eps) = (is_on_fork ep ≡ true) ⊎ HasFork eps

count-HasFork : (eps : List Endpoint) → (count is_on_fork eps == 0) ≡ false → HasFork eps
count-HasFork [] h = ground arith
count-HasFork (ep ∷ eps) h = elim (Bool-cases (is_on_fork ep)) [
  | inl e ↦ inl e
  | inr e ↦ inr (count-HasFork eps (rw e at h))
]

abbrev hints_of : List BlockRef → EndpointState → List BlockRef
hints_of chain st = elim st [
  | forked req prev_blocks ↦ if ltb (length chain) (length prev_blocks) then prev_blocks else chain
  | _ ↦ chain
]

hints_of-filled :
    (s : DataSourceState) (chain : List BlockRef) (st : EndpointState)
    → Settled s st
    → chain ≢ []
    → hints_of chain st ≢ []
hints_of-filled s chain ready h c = c
hints_of-filled s chain (requesting req) h c = c
hints_of-filled s chain (receiving head) h c = c
hints_of-filled s chain (backoff pause) h c = c
hints_of-filled s chain (forked req prev) h c = ground arith

hints_of-forked :
    (s : DataSourceState) (chain : List BlockRef) (st : EndpointState)
    → Settled s st
    → elim st [ forked req prev_blocks ↦ true | _ ↦ false ] ≡ true
    → (hints_of chain st ≢ []) × (s.consensus_started ≡ true)
hints_of-forked s chain (forked req []) h f = ground arith
hints_of-forked s [] (forked req (b ∷ prev)) h f = (ground arith, h.2)
hints_of-forked s (c ∷ chain) (forked req (b ∷ prev)) h f = (ground arith, h.2)
hints_of-forked s chain ready h f = ground arith
hints_of-forked s chain (requesting req) h f = ground arith
hints_of-forked s chain (receiving head) h f = ground arith
hints_of-forked s chain (backoff pause) h f = ground arith

longest_hints-filled :
    (s : DataSourceState) (chain : List BlockRef) (eps : List Endpoint)
    → AllSettled s eps
    → (chain ≢ []) ⊎ HasFork eps
    → longest_hints chain eps ≢ []
longest_hints-filled s chain [] h (inl c) = c
longest_hints-filled s chain [] h (inr f) = ground arith
longest_hints-filled s chain (ep ∷ eps) h (inl c) =
    longest_hints-filled s (hints_of chain ep.state) eps h.1
      (inl (hints_of-filled s chain ep.state h.0 c))
longest_hints-filled s chain (ep ∷ eps) h (inr (inl f)) =
    longest_hints-filled s (hints_of chain ep.state) eps h.1
      (inl (hints_of-forked s chain ep.state h.0 f).0)
longest_hints-filled s chain (ep ∷ eps) h (inr (inr f)) =
    longest_hints-filled s (hints_of chain ep.state) eps h.1 (inr f)

HasFork-consensus_started :
    (s : DataSourceState) (eps : List Endpoint)
    → AllSettled s eps
    → HasFork eps
    → s.consensus_started ≡ true
HasFork-consensus_started s [] h f = elim f [ ]
HasFork-consensus_started s (ep ∷ eps) h (inl f) = (hints_of-forked s [] ep.state h.0 f).1
HasFork-consensus_started s (ep ∷ eps) h (inr f) = HasFork-consensus_started s eps h.1 f

-- Without forks, the consensus may be off.
reset-StateOk :
    (s : DataSourceState) (st : EndpointState)
    → elim st [ forked req prev_blocks ↦ true | _ ↦ false ] ≡ false
    → Settled s st
    → StateOk (reset_fork_consensus s) st
unfolding reset_fork_consensus
reset-StateOk s ready f h = tt
reset-StateOk s (requesting req) f h = h
reset-StateOk s (receiving head) f h = tt
reset-StateOk s (forked req prev) f h = ground arith
reset-StateOk s (backoff pause) f h = tt

reset-AllOk :
    (s : DataSourceState) (eps : List Endpoint)
    → (count is_on_fork eps == 0) ≡ true
    → AllSettled s eps
    → All (λ ep. StateOk (reset_fork_consensus s) ep.state) eps
reset-AllOk s [] f h = tt
reset-AllOk s (ep ∷ eps) f h = elim (Bool-cases (is_on_fork ep)) [
  | inl e ↦ ground arith
  | inr e ↦ (reset-StateOk s ep.state e h.0, reset-AllOk s eps (rw e at f) h.1)
]

map-AllOk :
    (s s' : DataSourceState) (f : Endpoint → Endpoint) (eps : List Endpoint)
    → ((ep : Endpoint) → StateOk s ep.state → StateOk s' (f ep).state)
    → AllOk s eps
    → AllOk s' (map f eps)
map-AllOk s s' f [] k h = tt
map-AllOk s s' f (ep ∷ eps) k h = (k ep h.0, map-AllOk s s' f eps k h.1)

AllSettled-AllOk : (s : DataSourceState) (eps : List Endpoint) → AllSettled s eps → AllOk s eps
AllSettled-AllOk s [] h = tt
AllSettled-AllOk s (ep ∷ eps) h = (Settled-StateOk s ep.state h.0, AllSettled-AllOk s eps h.1)

-- The timer plays no part.
AllOk-timer :
    (s : DataSourceState) (on : Bool) (eps : List Endpoint)
    → AllSettled s eps
    → AllSettled (record s { timer = on }) eps
AllOk-timer s on [] h = tt
AllOk-timer s on (ep ∷ eps) h = (at ep.state h.0, AllOk-timer s on eps h.1)
  where
    at : (st : EndpointState) → Settled s st → Settled (record s { timer = on }) st
    at ready h = tt
    at (requesting req) h = h
    at (receiving head) h = tt
    at (forked req prev) h = h
    at (backoff pause) h = tt

module _ (Body : Type 0) where
  abbrev pub Survives : Outcome Body × StandardDataSource → Type 0
  Survives r = (r.0 ≢ panicked) × AllOk r.1.state r.1.endpoints

  if-Survives :
      (b : Bool) (x y : Outcome Body × StandardDataSource)
      → (b ≡ true → Survives x)
      → (b ≡ false → Survives y)
      → Survives (if b then x else y)
  if-Survives true x y hx hy = hx refl
  if-Survives false x y hx hy = hy refl

  fork_event-Survives :
      (chain : List BlockRef) → chain ≢ [] → fork_event {Body = Body} chain ≢ panicked
  fork_event-Survives [] h = λ z. h refl
  fork_event-Survives (b ∷ rest) h = λ z. cc

  reach_consensus-Survives :
      (d : StandardDataSource)
      → AllSettled d.state d.endpoints
      → HasFork d.endpoints
      → Survives (reach_consensus d)
  unfolding extract_fork reset_fork_consensus
  reach_consensus-Survives d h f = rw (HasFork-consensus_started d.state d.endpoints h f) (
    fork_event-Survives (longest_hints [] d.endpoints)
        (longest_hints-filled d.state [] d.endpoints h (inr f)),
    map-AllOk d.state (reset_fork_consensus d.state) make_ready d.endpoints (λ ep k. tt)
        (AllSettled-AllOk d.state d.endpoints h),
  )

  resolve_fork-Survives :
      (elapsed : Bool) (d : StandardDataSource)
      → AllSettled d.state d.endpoints
      → Survives (resolve_fork elapsed d)
  unfolding resolve_fork
  resolve_fork-Survives elapsed d h =
      if-Survives (count is_on_fork d.endpoints == 0) _ _
        (λ none. (λ z. cc, reset-AllOk d.state d.endpoints none h))
        (λ some_fork.
          if-Survives (ltb (length d.endpoints / 2) (count is_on_fork d.endpoints)) _ _
            (λ majority. reach_consensus-Survives d h (count-HasFork d.endpoints some_fork))
            (λ minority.
              if-Survives (count is_on_fork d.endpoints == count is_active d.endpoints) _ _
                (λ all_active. reach_consensus-Survives d h (count-HasFork d.endpoints some_fork))
                (λ waits.
                  if-Survives elapsed _ _
                    (λ e.
                      reach_consensus-Survives
                        (record d { state = record d.state { timer = false } })
                        (AllOk-timer d.state false d.endpoints h)
                        (count-HasFork d.endpoints some_fork))
                    (λ e. (
                      λ z. cc,
                      AllSettled-AllOk (record d.state { timer = true }) d.endpoints
                          (AllOk-timer d.state true d.endpoints h),
                    )))))

  forgive-StateOk :
      (s : DataSourceState) (ep : Endpoint) → StateOk s ep.state → StateOk s (forgive ep).state
  unfolding forgive
  forgive-StateOk s ep h = at ep.state refl
    where
      at : (st : EndpointState) → ep.state ≡ st → StateOk s (forgive ep).state
      at ready e = rw (forgive, e) h
      at (requesting req) e = rw (forgive, e) h
      at (receiving head) e = rw (forgive, e) h
      at (forked req prev) e = rw (forgive, e) h
      at (backoff pause) e =
          elim (Bool-cases (ltb 0 ep.reject_counter && (ep.error_counter == 0))) [
            | inl q ↦ rw (forgive, e, q) tt
            | inr q ↦ rw (forgive, e, q) h
          ]

  forgive_others-AllOk :
      (s : DataSourceState) (i : ℕ) (eps : List Endpoint)
      → AllOk s eps
      → AllOk s (forgive_others i eps)
  forgive_others-AllOk s i [] h = tt
  forgive_others-AllOk s zero (ep ∷ eps) h =
      (h.0, map-AllOk s s forgive eps (forgive-StateOk s) h.1)
  forgive_others-AllOk s (suc i) (ep ∷ eps) h =
      (forgive-StateOk s ep h.0, forgive_others-AllOk s i eps h.1)

  pub poll_next_event-Survives :
      (answers : List (List (Answer Body))) (elapsed : Bool) (d : StandardDataSource)
      → All (All HasHints) answers
      → AllOk d.state d.endpoints
      → Survives (poll_next_event answers elapsed d)
  unfolding poll_next_event
  poll_next_event-Survives answers elapsed d hints h =
      at r.0 refl (poll_all-AllPolledOk Body answers 0 d.state d.endpoints hints h)
    where
      r : Option (ℕ × DataEvent Body) × DataSourceState × List Endpoint
      r = poll_all answers 0 d.state d.endpoints

      at :
          (e : Option (ℕ × DataEvent Body))
          → r.0 ≡ e
          → AllPolledOk Body d.state r
          → Survives (poll_next_event answers elapsed d)
      at (some (i, block b is_final)) q f =
          rw (q, poll_next_event) (λ z. cc, forgive_others-AllOk r.1 i r.2 f.1)
      at (some (i, finalized_head head)) q f = rw (q, poll_next_event) (λ z. cc, f.1)
      at (some (i, fork prev)) q f = rw (q, poll_next_event) (λ z. cc, f.1)
      at (some (i, maybe_on_head)) q f = rw (q, poll_next_event) (λ z. cc, f.1)
      at none q f =
          rw (q, poll_next_event)
            (resolve_fork-Survives elapsed (record { endpoints = r.2; state = r.1 }) (f.2 q))

pub set_position-AllOk :
    (n : ℕ) (hash : Option String) (d : StandardDataSource)
    → AllOk (set_position n hash d).state (set_position n hash d).endpoints
unfolding set_position
set_position-AllOk n hash d = at d.endpoints
  where
    at : (eps : List Endpoint) → AllOk (set_position n hash d).state (map repositioned eps)
    at [] = tt
    at (ep ∷ eps) = (tt, at eps)

pub new_source-AllOk : (n : ℕ) → AllOk (new_source n).state (new_source n).endpoints
unfolding new_source
new_source-AllOk n = at n
  where
    at : (m : ℕ) → AllOk (new_source n).state (replicate m)
    at zero = tt
    at (suc m) = (tt, at m)
