-- ===== src/Chain/Events.antt =====
-- The mock events of pkg/chain/solana.go in the pipeline of realtime-etl/event_processors.go.
use margin_offer_system.Base.{ℕ, ◌+◌, ◌*◌, length, ◌≡◌, refl, ap, List, [], ◌∷◌, arith}
use margin_offer_system.Types.Time.{Time}
use margin_offer_system.Etl.Events.{MarginOfferEvent}
use margin_offer_system.Etl.Handlers.{memory}
use margin_offer_system.Store.Memory.{MemoryStore, Env}
use margin_offer_system.Etl.Retries.{Pipeline, Steps}
use margin_offer_system.Chain.{mock_margin_offer_event}
use margin_offer_system.Chain.Hollow.{
  AllHollow, attempts, mock-IsHollow, hollow-emptied, Steps-hollow,
}

abbrev pub mock_events : List Time → List MarginOfferEvent
mock_events [] = []
mock_events (now ∷ times) = mock_margin_offer_event now ∷ mock_events times

-- The pipeline over the memory store when the callback has been given mock events.
abbrev pub mocked : List Time → ℕ → MemoryStore → Pipeline MemoryStore
mocked times errors ms = record {
  store = ms;
  queue = mock_events times;
  sleeping = [];
  error_count = errors;
}

mock_events-AllHollow : (times : List Time) → AllHollow (mock_events times)
mock_events-AllHollow [] = tt
mock_events-AllHollow (now ∷ times) = (mock-IsHollow now, mock_events-AllHollow times)

attempts-mock_events : (times : List Time) → attempts (mock_events times) ≡ 4 * length times
unfolding mock_margin_offer_event
attempts-mock_events [] = refl
attempts-mock_events (now ∷ times) = omega (arith, attempts-mock_events times)

mock_events_done :
    (env : Env) (times : List Time) (errors : ℕ) (ms : MemoryStore)
    → {n : ℕ} {q : Pipeline MemoryStore} → Steps (memory env) (mocked times errors ms) n q
    → q.queue ≡ []
    → q.sleeping ≡ []
    → (q.store ≡ ms) × (q.error_count ≡ errors + 4 * length times)
mock_events_done env times errors ms {q = q} run drained rested =
    let (_, kept, due) = Steps-hollow (memory env) run (mock_events-AllHollow times, tt) in
    (kept, omega (arith, due, ap attempts drained, ap attempts rested, attempts-mock_events times))

-- Where the pipeline over any memory store, one that NewMemoryStore makes included, holds the
-- mock events of a list of times and nothing else, there is a run that ends with no event queued
-- or sleeping, and every run that ends so leaves the store as it was and counts four errors for
-- each mock event.
pub mock_events-failed :
    (env : Env) (times : List Time) (errors : ℕ) (ms : MemoryStore)
    → ((n : ℕ) × (q : Pipeline MemoryStore) × Steps (memory env) (mocked times errors ms) n q
        × (q.queue ≡ [])
        × (q.sleeping ≡ []))
      × ((n : ℕ) (q : Pipeline MemoryStore)
          → Steps (memory env) (mocked times errors ms) n q
          → q.queue ≡ []
          → q.sleeping ≡ []
          → (q.store ≡ ms) × (q.error_count ≡ errors + 4 * length times))
mock_events-failed env times errors ms =
    let (n, q, run, queue, sleeping, _) =
      hollow-emptied (memory env) (mocked times errors ms) (mock_events-AllHollow times, tt) in
    (
      (n, q, run, queue, sleeping),
      λ n q run empty rested. mock_events_done env times errors ms run empty rested,
    )
