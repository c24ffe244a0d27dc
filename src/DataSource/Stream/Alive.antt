-- ===== src/DataSource/Stream/Alive.antt =====
-- What a user of `StandardDataSource` relies on: that polling it does not panic.
use data_lib.Common.{ℕ, ◌≡◌, refl, List, [], ◌∷◌, All}
use data_lib.DataSource.{StandardDataSource}
use data_lib.DataSource.Source.{
  Outcome, event, nothing, panicked, poll_next_event, set_position, new_source,
}
use data_lib.DataSource.Consensus.{HasHints}
use data_lib.DataSource.Consensus.Rounds.{AllOk}
use data_lib.DataSource.Consensus.Survives.{
  poll_next_event-Survives, set_position-AllOk, new_source-AllOk, Survives,
}
use data_lib.DataSource.Stream.{
  Call, poll_next, reposition, Entry, delivered, moved, died, make_calls,
}

module _ {Body : Type 0} where
  abbrev pub HasCallHints : Call Body → Type 0
  HasCallHints (poll_next answers elapsed) = All (All HasHints) answers
  HasCallHints (reposition n hash) = Unit

  abbrev pub IsAlive : Entry Body → Type 0
  IsAlive (delivered e) = Unit
  IsAlive (moved p) = Unit
  IsAlive died = ⊥

  survives :
      (calls : List (Call Body)) (d : StandardDataSource)
      → AllOk d.state d.endpoints
      → All HasCallHints calls
      → All IsAlive (make_calls calls d).0
  unfolding make_calls
  survives [] d h hints = tt
  survives (poll_next answers elapsed ∷ calls) d h hints =
      at r.0 refl (poll_next_event-Survives Body answers elapsed d hints.0 h)
        (λ h'. survives calls r.1 h' hints.1)
    where
      r : Outcome Body × StandardDataSource
      r = poll_next_event answers elapsed d

      at :
          (o : Outcome Body)
          → r.0 ≡ o
          → Survives Body r
          → (AllOk r.1.state r.1.endpoints → All IsAlive (make_calls calls r.1).0)
          → All IsAlive (make_calls (poll_next answers elapsed ∷ calls) d).0
      at (event e) q f ih = rw (make_calls, q) (tt, ih f.1)
      at nothing q f ih = rw (make_calls, q) (ih f.1)
      at panicked q f ih = elim (f.0 q) [ ]
  survives (reposition n hash ∷ calls) d h hints =
      (tt, survives calls (set_position n hash d) (set_position-AllOk n hash d) hints.1)

  -- From a fresh data source over any number of clients, as long as every fork answer carries at least one
  -- hint, no sequence of polls and repositions meets the `expect` of the fork consensus or the `assert!`
  -- on its hints.
  pub make_calls-IsAlive :
      (clients : ℕ) (calls : List (Call Body))
      → All HasCallHints calls
      → All IsAlive (make_calls calls (new_source clients)).0
  make_calls-IsAlive clients calls hints =
      survives calls (new_source clients) (new_source-AllOk clients) hints
