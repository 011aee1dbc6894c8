-- ===== src/Etl/Health/Checked.antt =====
-- realtime-etl/processor.go: what a health check leaves in the metrics.
use margin_offer_system.Base.{
  ℕ, ◌≡◌, refl, ◌∙◌, String, true, false, Option, none, some, ◌==◌, if◌then◌else◌, arith, ap,
  Bool-cases, inl, inr,
}
use margin_offer_system.Base.GoMap.{Assoc, made, put, lookup, insert, lookup-insert}
use margin_offer_system.Base.Run.{done}
use margin_offer_system.Types.Time.{Time}
use margin_offer_system.Metrics.{HealthStatus, MetricsCollector, set_healthy, set_unhealthy}
use margin_offer_system.Etl.Health.{
  ChainLink, report, connect_to_chain, reconnect, perform_health_check,
}

-- The status that an error or none is reported as.
abbrev pub status_of : Time → Option String → HealthStatus
status_of now none = record { healthy = true; reason = ""; updated = now }
status_of now (some e) = record { healthy = false; reason = e; updated = now }

-- A collector after a report: the health of one service is new, all else is the same.
report_lem :
    {V : Type 0} (now : Time) (service : String) (e : Option String) (m : MetricsCollector V)
    (hs : Assoc HealthStatus)
    → m.health ≡ made hs
    → report now service e m
      ≡ done (record m { health = made (insert service (status_of now e) hs) })
unfolding report set_healthy set_unhealthy put
report_lem now service none m hs held = rw held refl
report_lem now service (some e) m hs held = rw held refl

-- The health of the chain's connection after a check.
abbrev pub connection_after :
    (link : ChainLink) → Time → link.State → Option HealthStatus → Option HealthStatus
connection_after link now c before =
    if link.is_connected c
    then before
    else some (status_of now (link.connect "wss://api.mainnet-beta.solana.com" c).1)

module _ (link : ChainLink) {V : Type 0} where
  open link use {State}

  abbrev Reconnects : Time → Time → State → MetricsCollector V → Assoc HealthStatus → Type 0
  Reconnects now now' c m hs =
      (hs' : Assoc HealthStatus) × (reconnect link now now' c m
        ≡ done (
          (if link.is_connected c
              then c
              else (link.connect "wss://api.mainnet-beta.solana.com" c).0),
          record m { health = made hs' },
        ))
      × ((service : String)
          → lookup service hs' ≡ (
              if "chain_connection" == service
              then connection_after link now' c (lookup service hs)
              else lookup service hs))

  reconnect-Reconnects :
      (now now' : Time) (c : State) (m : MetricsCollector V) (hs : Assoc HealthStatus)
      → m.health ≡ made hs
      → Reconnects now now' c m hs
  unfolding reconnect connect_to_chain
  reconnect-Reconnects now now' c m hs held = elim (Bool-cases (link.is_connected c)) [
    | inl up ↦ (
      hs,
      rw (reconnect, up) (ap (λ h. done (c, record m { health = h })) held),
      λ service. rw up (ground arith),
    )
    | inr down ↦
        let lost : HealthStatus = status_of now (some "connection lost") in
        let tried = (link.connect "wss://api.mainnet-beta.solana.com" c).1 in
        let hs1 = insert "chain_connection" lost hs in
        (
          insert "chain_connection" (status_of now' tried) hs1,
          rw
              (
                reconnect,
                down,
                report_lem now "chain_connection" (some "connection lost") m hs held,
                report_lem now' "chain_connection" tried (record m { health = made hs1 }) hs1 refl,
              )
              refl,
          λ service. rw down (
              ground (
                arith,
                lookup-insert "chain_connection" service (status_of now' tried) hs1,
                lookup-insert "chain_connection" service lost hs,
              )),
        )
  ]

  -- A health check over a collector whose health map is allocated ends without a panic. The
  -- connection to the chain is tried again exactly if it was lost, and then its health is that of
  -- the attempt, else it stays; the health of the store is that of the store's check; no other
  -- health, no counter and no gauge changes.
  pub perform_health_check-reports :
      (now : ℕ → Time) (store_health : Option String) (c : State) (m : MetricsCollector V)
      (hs : Assoc HealthStatus)
      → m.health ≡ made hs
      → (hs' : Assoc HealthStatus) × (perform_health_check link now store_health c m
          ≡ done (
            (if link.is_connected c
                then c
                else (link.connect "wss://api.mainnet-beta.solana.com" c).0),
            record m { health = made hs' },
          ))
        × ((service : String)
            → lookup service hs' ≡ (
                if "store" == service
                then some (status_of (now 2) store_health)
                else if "chain_connection" == service
                then connection_after link (now 1) c (lookup service hs)
                else lookup service hs))
  unfolding perform_health_check reconnect connect_to_chain
  perform_health_check-reports now store_health c m hs held =
      let (hs1, ran, looks) = reconnect-Reconnects (now 0) (now 1) c m hs held in
      (
        insert "store" (status_of (now 2) store_health) hs1,
        rw
            (
              perform_health_check,
              ran,
              report_lem (now 2) "store" store_health (record m { health = made hs1 }) hs1 refl,
            )
            refl,
        λ service.
            lookup-insert "store" service (status_of (now 2) store_health) hs1
            ∙ ground (arith, looks service),
      )
