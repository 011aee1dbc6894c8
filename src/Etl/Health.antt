-- ===== src/Etl/Health.antt =====
-- realtime-etl/processor.go: the connection to the chain, the subscriptions and the health check,
-- with what they write to the metrics. The readings of the clock are arguments.
pub mod Checked
use margin_offer_system.Base.{ℕ, ◌*◌, ◌^◌, String, Bool, Option, none, some, if◌then◌else◌}
use margin_offer_system.Base.Run.{Run, done, ◌>>=◌}
use margin_offer_system.Base.Int.{ℤ, pos, sub_ℕ, pos_part, neg_part, ◌+ℤ◌}
use margin_offer_system.Types.Time.{Time}
use margin_offer_system.Metrics.{MetricsCollector, set_healthy, set_unhealthy}

-- `types.ChainClient` as the processor calls it: its state, and the error of each call.
pub record ChainLink : Type 1 where
  pub State : Type 0
  pub is_connected : State → Bool
  pub connect : String → State → State × Option String
  pub disconnect : State → State × Option String
  pub subscribe_to_margin_offer_events : State → Option String
  pub subscribe_to_liquidity_events : State → Option String

-- A metric of health from an error or none.
unfoldable pub report :
    {V : Type 0} → Time → String → Option String → MetricsCollector V → Run (MetricsCollector V)
unfolding set_healthy set_unhealthy
report now service none m = set_healthy now service m
report now service (some e) m = set_unhealthy now service e m

module _ (link : ChainLink) {V : Type 0} where
  open link use {State}

  -- `connectToChain`
  unfoldable pub connect_to_chain :
      Time → State → MetricsCollector V → Run (State × MetricsCollector V × Option String)
  unfolding report
  connect_to_chain now c m =
      let dialled = link.connect "wss://api.mainnet-beta.solana.com" c in
      do reported ← report now "chain_connection" dialled.1 m; done (dialled.0, reported, dialled.1)

  -- `subscribeToEvents`
  unfoldable pub subscribe_to_events :
      Time → Time → State → MetricsCollector V → Run (MetricsCollector V)
  unfolding report
  subscribe_to_events now now' c m = do
    offers ← report now "margin_offer_subscription" (link.subscribe_to_margin_offer_events c) m
    report now' "liquidity_subscription" (link.subscribe_to_liquidity_events c) offers

  -- The first half of `performHealthCheck`: a lost connection is tried again.
  unfoldable pub reconnect :
      Time → Time → State → MetricsCollector V → Run (State × MetricsCollector V)
  unfolding connect_to_chain set_unhealthy
  reconnect now now' c m = if link.is_connected c then done (c, m) else do
    lost ← set_unhealthy now "chain_connection" "connection lost" m
    dialled ← connect_to_chain now' c lost
    done (dialled.0, dialled.1)

  -- `performHealthCheck`, where the store's health check gives an error or none.
  unfoldable pub perform_health_check :
      (ℕ → Time) → Option String → State → MetricsCollector V → Run (State × MetricsCollector V)
  unfolding reconnect report
  perform_health_check now store_health c m = do
    connected ← reconnect (now 0) (now 1) c m
    checked ← report (now 2) "store" store_health connected.1
    done (connected.0, checked)

-- `ETLMetrics`, without its rates, which are 0. The lag is in nanoseconds.
pub record EtlMetrics : Type 0 where
  pub events_processed : ℕ
  pub average_processing_time : ℤ
  pub last_event_timestamp : Time
  pub lag : ℤ
  pub active_subscriptions : ℕ
  pub connection_status : String

-- `GetMetrics`, at two readings of the clock: the time since the last event, where there was one.
unfoldable pub get_metrics : Bool → Time → Time → Option Time → EtlMetrics
unfolding ◌+ℤ◌
get_metrics connected now now' last_event_time = record {
  events_processed = 0;
  average_processing_time = pos (100 * 10 ^ 6);
  last_event_timestamp = now';
  lag = elim last_event_time [ none ↦ pos 0 | some t ↦ now +ℤ sub_ℕ (neg_part t) (pos_part t) ];
  active_subscriptions = 3;
  connection_status = if connected then "connected" else "disconnected";
}
