-- ===== src/Tests/Etl.antt =====
-- Runs of the processor of events.
use margin_offer_system.Base.{◌+◌, ◌≤◌, ◌≡◌, ◌↔◌, refl, false, none, some, List, [], ◌∷◌, arith}
use margin_offer_system.Base.Int.{pos}
use margin_offer_system.Base.Run.{done, panic}
use margin_offer_system.Types.Float.{finite}
use margin_offer_system.Store.Memory.{MemoryStore}
use margin_offer_system.Store.Memory.Invariant.{table}
use margin_offer_system.Etl.Events.{
  MarginOfferEvent, LiquidityEvent, ProcessingResult, validate_event, get_event_key, event_key,
}
use margin_offer_system.Etl.Handlers.{
  memory, result_of, process_margin_offer_event, process_liquidity_event, handle_kind,
  handle_margin_offer_created_or_updated,
}
use margin_offer_system.Etl.Liquidity.{
  Processes, spec_change, kind_refusal, process_liquidity_event-Processes,
}
use margin_offer_system.Etl.Retries.{
  Pipeline, weight, after_result, process, Steps, here, next, Steps-bounded,
}
use margin_offer_system.Etl.Loops.{Loops, new_loops, offer_step, offer_arrives, Reach, fresh, later}
use margin_offer_system.Etl.Lifecycle.{
  OwnerCall, start_call, stop_call, new_processor, run_calls, effective_stops, run_calls-panic,
}
use margin_offer_system.Tests.Data.{two_stored, two_stored-IsConsistent, env}

-- An event without the data of its offer, which fails.
abbrev hollow : MarginOfferEvent
hollow = record {
  event_type = "margin_offer_created";
  offer_id = "a";
  transaction_hash = "tx";
  timestamp = pos 40;
  lender_address = "alice";
  offer_data = none;
  retry_count = pos 0;
}

abbrev one_queued : Pipeline MemoryStore
one_queued = record { store = two_stored; queue = hollow ∷ []; sleeping = []; error_count = 0 }

abbrev hollow_out : MemoryStore × MarginOfferEvent × ProcessingResult
hollow_out = (two_stored, hollow, result_of "tx_a" (some "invalid event data received"))

hollow_lem : process_margin_offer_event (memory env) hollow two_stored ≡ done hollow_out
unfolding process_margin_offer_event validate_event get_event_key handle_kind
    handle_margin_offer_created_or_updated
hollow_lem = refl

abbrev failed_once : Pipeline MemoryStore
failed_once = after_result one_queued [] hollow_out

one_step : Steps (memory env) one_queued 1 failed_once
one_step = next here (process hollow [] hollow_out refl hollow_lem)

Steps-bounded_example : 1 + weight failed_once ≤ weight one_queued
Steps-bounded_example = Steps-bounded (memory env) one_step

abbrev topped_up : LiquidityEvent
topped_up = record {
  event_type = "liquidity_added";
  offer_id = "a";
  transaction_hash = "tx";
  timestamp = pos 40;
  lender_address = "alice";
  amount = finite (pos 500);
  token = "USDC";
  new_total_amount = finite (pos 1500);
}

process_liquidity_event-Processes_example :
    Processes (process_liquidity_event (memory env) topped_up two_stored) (event_key "tx" "a") (
      spec_change
        (env.now 0)
        "a"
        (kind_refusal "liquidity_added")
        (λ o. record o { available_borrow_amount = finite (pos 1500) })
        (table two_stored))
process_liquidity_event-Processes_example =
    process_liquidity_event-Processes env topped_up two_stored two_stored-IsConsistent

-- A processor that is started and stopped twice.
abbrev twice : List OwnerCall
twice =
    start_call none (pos 1)
    ∷ stop_call
    ∷ start_call (some "refused") (pos 2)
    ∷ start_call none (pos 3)
    ∷ stop_call
    ∷ []

run_calls-panic_example :
    (run_calls twice new_processor ≡ panic) ↔ (2 ≤ effective_stops false twice)
run_calls-panic_example = run_calls-panic twice

-- A failed event that was queued and processed.
abbrev failed_loops : Loops MemoryStore
failed_loops = record (new_loops two_stored) { offers = failed_once }

failed_loops_reached : Reach (memory env) two_stored failed_loops
failed_loops_reached =
    later (later fresh (offer_arrives hollow (omega arith)))
      (offer_step (process hollow [] hollow_out refl hollow_lem))
