-- ===== src/DataSource/Backoff/Flaky.antt =====
-- The error counter of crates/data-source/src/standard.rs against a source whose streams break off.
use data_lib.Common.{ℕ, zero, suc, ◌≡◌, refl, ap, ◌∙◌, false, none, List, [], ◌∷◌}
use data_lib.DataSource.{
  streaming, broken, Answer, EndpointState, ready, requesting, receiving, forked, backoff, Endpoint,
  DataSourceState, backoff_ms, on_error, on_new_finalized_head,
}
use data_lib.DataSource.Poll.{
  wake, again, on_stream, on_response, on_item, poll_once, poll_endpoint,
}
use data_lib.DataSource.Backoff.{is_asleep, resumed}

abbrev pub Restless : Endpoint → Type 0
Restless ep = elim ep.state [
  | ready ↦ Unit
  | requesting req ↦ Unit
  | receiving head ↦ ep.error_counter ≡ 0
  | forked req prev ↦ ⊥
  | backoff pause ↦ ⊥
]

Restless-is_asleep : (ep : Endpoint) → Restless ep → is_asleep ep ≡ false
Restless-is_asleep ep h = at ep.state h
  where
    at :
        (st : EndpointState)
        → Restless (record ep { state = st })
        → is_asleep (record ep { state = st }) ≡ false
    at ready h = refl
    at (requesting req) h = refl
    at (receiving head) h = refl
    at (forked req prev) h = elim h [ ]
    at (backoff pause) h = elim h [ ]

module _ (Body : Type 0) where
  -- Each request is answered by a stream, and each stream breaks off at once.
  abbrev flaky : Answer Body
  flaky = record { response = streaming none; item = broken; slept = false }

  abbrev pub rounds_of_flaky : ℕ → List (Answer Body)
  rounds_of_flaky zero = []
  rounds_of_flaky (suc n) = flaky ∷ rounds_of_flaky n

  poll_once-Restless :
      (s : DataSourceState) (ep : Endpoint)
      → Restless ep
      → (next : Endpoint) × (poll_once flaky s (wake s ep) ≡ (again, s, next)) × Restless next
  unfolding poll_once wake on_response on_stream on_new_finalized_head on_item on_error backoff_ms
  poll_once-Restless s ep h = at ep.state h
    where
      at :
          (st : EndpointState)
          → Restless (record ep { state = st })
          → (next : Endpoint) × (poll_once flaky s (wake s (record ep { state = st }))
              ≡ (again, s, next))
            × Restless next
      at ready h = (record ep { error_counter = 0; state = receiving 0 }, refl, refl)
      at (requesting req) h = (record ep { error_counter = 0; state = receiving 0 }, refl, refl)
      at (receiving head) h =
          (on_error (record ep { state = receiving head }), refl, rw (h, on_error, backoff_ms) tt)
      at (forked req prev) h = elim h [ ]
      at (backoff pause) h = elim h [ ]

  wake-Restless : (s : DataSourceState) (ep : Endpoint) → Restless ep → Restless (wake s ep)
  unfolding wake
  wake-Restless s ep h = at ep.state h
    where
      at :
          (st : EndpointState)
          → Restless (record ep { state = st })
          → Restless (wake s (record ep { state = st }))
      at ready h = tt
      at (requesting req) h = tt
      at (receiving head) h = h
      at (forked req prev) h = elim h [ ]
      at (backoff pause) h = elim h [ ]

  -- A source that answers requests, but whose streams break off at once, is asked again without a pause,
  -- for as many rounds as it keeps answering: an endpoint that is ready or has sent a request, or that
  -- receives with no error counted, is not asleep after any number of them.
  pub flaky_never_sleeps :
      (rounds : ℕ) (s : DataSourceState) (ep : Endpoint)
      → Restless ep
      → is_asleep (poll_endpoint (rounds_of_flaky rounds) s ep).2 ≡ false
  unfolding poll_endpoint
  flaky_never_sleeps zero s ep h = Restless-is_asleep (wake s ep) (wake-Restless s ep h)
  flaky_never_sleeps (suc n) s ep h = at (poll_once-Restless s ep h) (flaky_never_sleeps n s)
    where
      at :
          (next : Endpoint) × (poll_once flaky s (wake s ep) ≡ (again, s, next)) × Restless next
          → ((next : Endpoint)
              → Restless next
              → is_asleep (poll_endpoint (rounds_of_flaky n) s next).2 ≡ false)
          → is_asleep (poll_endpoint (rounds_of_flaky (suc n)) s ep).2 ≡ false
      at (next, q, h') ih = ap (λ r. is_asleep (resumed (rounds_of_flaky n) r).2) q ∙ ih next h'
