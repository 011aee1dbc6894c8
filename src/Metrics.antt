-- ===== src/Metrics.antt =====
-- pkg/metrics/metrics.go: the collector, each operation as one step under its lock. Values are of
-- any type, with the zero and the sum of float64 as arguments; tags are in the order in which a range over
-- their map gives them.
pub mod History
use Prim.Native.String
use margin_offer_system.Base.{String, Bool, true, false, Option, none, some, List, [], ◌∷◌}
use margin_offer_system.Base.GoMap.{GoMap, Assoc, made, get, put, entries, copy_into}
use margin_offer_system.Base.Run.{Run, done, ◌>>=◌}
use margin_offer_system.Types.Time.{Time}

pub record HealthStatus : Type 0 where
  pub healthy : Bool
  pub reason : String
  pub updated : Time

pub record MetricsCollector (V : Type 0) : Type 0 where
  pub counters : GoMap V
  pub gauges : GoMap V
  pub health : GoMap HealthStatus

-- `NewMetricsCollector`
abbrev pub new_metrics_collector : {V : Type 0} → MetricsCollector V
new_metrics_collector = record { counters = made []; gauges = made []; health = made [] }

-- `buildKey`, from the name.
unfoldable pub build_key : String → Assoc String → String
build_key key [] = key
build_key key ((k, v) ∷ tags) =
    build_key (String.◌++◌ key (String.◌++◌ (String.◌++◌ (String.◌++◌ "|" k) ":") v)) tags

-- A value that is read from a map, or the zero.
abbrev pub value_or : {V : Type 0} → V → Option V → V
value_or zero none = zero
value_or zero (some v) = v

module _ {V : Type 0} (zero : V) (add : V → V → V) where
  -- `AddCounter`
  unfoldable pub add_counter :
      String → V → Assoc String → MetricsCollector V → Run (MetricsCollector V)
  unfolding build_key
  add_counter name value tags m =
      let key = build_key name tags in
      do
        counters ← put key (add (value_or zero (get key m.counters)) value) m.counters
        done (record m { counters = counters })

  -- `IncCounter`, with the float64 of 1.
  unfoldable pub inc_counter :
      V → String → Assoc String → MetricsCollector V → Run (MetricsCollector V)
  unfolding add_counter
  inc_counter one name tags m = add_counter name one tags m

module _ {V : Type 0} where
  -- `SetGauge`
  unfoldable pub set_gauge :
      String → V → Assoc String → MetricsCollector V → Run (MetricsCollector V)
  unfolding build_key
  set_gauge name value tags m = do
    gauges ← put (build_key name tags) value m.gauges
    done (record m { gauges = gauges })

  -- `RecordDuration`, from the milliseconds as a float64.
  unfoldable pub record_duration :
      String → V → Assoc String → MetricsCollector V → Run (MetricsCollector V)
  unfolding set_gauge
  record_duration name milliseconds tags m =
      set_gauge (String.◌++◌ name "_duration_ms") milliseconds tags m

  -- `RecordValue`
  unfoldable pub record_value :
      String → V → Assoc String → MetricsCollector V → Run (MetricsCollector V)
  unfolding set_gauge
  record_value name value tags m = set_gauge name value tags m

  -- `SetHealthy`
  unfoldable pub set_healthy : Time → String → MetricsCollector V → Run (MetricsCollector V)
  set_healthy now service m = do
    health ← put service (record { healthy = true; reason = ""; updated = now }) m.health
    done (record m { health = health })

  -- `SetUnhealthy`
  unfoldable pub set_unhealthy :
      Time → String → String → MetricsCollector V → Run (MetricsCollector V)
  set_unhealthy now service reason m = do
    health ← put service (record { healthy = false; reason = reason; updated = now }) m.health
    done (record m { health = health })

  -- `GetCounters`, `GetGauges` and `GetHealth`
  unfoldable pub get_counters : MetricsCollector V → GoMap V
  unfolding copy_into
  get_counters m = made (copy_into (entries m.counters) [])

  unfoldable pub get_gauges : MetricsCollector V → GoMap V
  unfolding copy_into
  get_gauges m = made (copy_into (entries m.gauges) [])

  unfoldable pub get_health : MetricsCollector V → GoMap HealthStatus
  unfolding copy_into
  get_health m = made (copy_into (entries m.health) [])
