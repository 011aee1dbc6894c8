-- ===== src/Tests/Chain.antt =====
-- Runs of the chain's client, of the metrics and of the health check.
use margin_offer_system.Base.{ℕ, ◌+◌, ◌*◌, ◌≡◌, String, none, List, [], ◌∷◌, length}
use margin_offer_system.Base.Int.{pos}
use margin_offer_system.Base.GoMap.{get}
use margin_offer_system.Base.Run.{done}
use margin_offer_system.Types.Time.{Time}
use margin_offer_system.Store.Memory.{MemoryStore, new_memory_store}
use margin_offer_system.Store.Memory.Invariant.{IsConsistent, table}
use margin_offer_system.Etl.Handlers.{memory}
use margin_offer_system.Etl.Retries.{Pipeline, Steps}
use margin_offer_system.Backfill.Sync.{sync_pools_to_store, sync_pools_with_positions}
use margin_offer_system.Chain.{new_solana_client, chain_client}
use margin_offer_system.Chain.Sync.{
  memory_overwrite_by_filter, unless_leverage, sync_pools_with_positions-empties,
}
use margin_offer_system.Chain.Events.{mocked, mock_events-failed}
use margin_offer_system.Metrics.{
  MetricsCollector, new_metrics_collector, get_counters, get_gauges, get_health,
}
use margin_offer_system.Metrics.History.{
  Call, adds, sets, healthy, unhealthy, counter_of, gauge_of, health_of, under, sum_of, last_of,
  perform_all, perform_all-reads,
}
use margin_offer_system.Tests.Data.{two_stored, two_stored-IsConsistent, env}
use margin_offer_system.Tests.Accounts.{solana}

sync_pools_with_positions-empties_example :
    (sync_pools_to_store solana
        (chain_client "wss" new_solana_client)
        env.now
        (memory_overwrite_by_filter env)
        two_stored
      ≡ done (two_stored, none))
    × ((left : MemoryStore) × (sync_pools_with_positions solana
            (chain_client "wss" new_solana_client)
            env.now
            (memory_overwrite_by_filter env)
            two_stored
          ≡ done (left, none))
        × IsConsistent left
        × ((x : String) → table left x ≡ unless_leverage (table two_stored x)))
sync_pools_with_positions-empties_example =
    sync_pools_with_positions-empties solana "wss" new_solana_client env.now env two_stored
      two_stored-IsConsistent

abbrev two_times : List Time
two_times = pos 1 ∷ pos 2 ∷ []

mock_events-failed_example :
    ((n : ℕ) × (q : Pipeline MemoryStore) × Steps
        (memory env)
        (mocked two_times 0 new_memory_store)
        n
        q
      × (q.queue ≡ [])
      × (q.sleeping ≡ []))
    × ((n : ℕ) (q : Pipeline MemoryStore)
        → Steps (memory env) (mocked two_times 0 new_memory_store) n q
        → q.queue ≡ []
        → q.sleeping ≡ []
        → (q.store ≡ new_memory_store) × (q.error_count ≡ 0 + 4 * length two_times))
mock_events-failed_example = mock_events-failed env two_times 0 new_memory_store

abbrev some_calls : List (Call ℕ)
some_calls =
    adds "events" 2 (("type", "liquidity") ∷ [])
    ∷ adds "events" 3 (("type", "liquidity") ∷ [])
    ∷ sets "jobs" 7 []
    ∷ unhealthy (pos 1) "store" "lost"
    ∷ healthy (pos 2) "store"
    ∷ []

abbrev plus : ℕ → ℕ → ℕ
plus a b = a + b

perform_all-reads_example :
    (m : MetricsCollector ℕ) × (perform_all 0 plus some_calls new_metrics_collector ≡ done m)
    × ((key : String)
        → get key (get_counters m) ≡ sum_of 0 plus none (under counter_of key some_calls))
    × ((key : String) → get key (get_gauges m) ≡ last_of none (under gauge_of key some_calls))
    × ((key : String) → get key (get_health m) ≡ last_of none (under health_of key some_calls))
perform_all-reads_example = perform_all-reads 0 plus some_calls

abbrev no_metrics : MetricsCollector ℕ
no_metrics = new_metrics_collector
