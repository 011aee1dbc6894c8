-- ===== src/Etl/Loops.antt =====
-- realtime-etl: the three event loops of the processor over one store, with the events that arrive.
-- The steps come in any order that the code allows.
use margin_offer_system.Base.{ℕ, suc, ◌<◌, ◌≡◌, List, [], ◌∷◌, ◌++◌, length, if◌then◌else◌}
use margin_offer_system.Base.Run.{done}
use margin_offer_system.Etl.Events.{
  MarginOfferEvent, LiquidityEvent, InterestRateEvent, ProcessingResult,
}
use margin_offer_system.Etl.Handlers.{
  OfferStore, process_liquidity_event, process_interest_rate_event,
}
use margin_offer_system.Etl.Retries
use margin_offer_system.Etl.Retries.{Pipeline}

-- `make(chan ..., 1000)`, for each kind of event.
abbrev pub event_channel_capacity : ℕ
event_channel_capacity = 1000

-- The part of the processor that the loops use. Nothing in the program sends to the channel of the
-- interest rate events.
pub record Loops (S : Type 0) : Type 0 where
  pub offers : Pipeline S
  pub liquidity_events : List LiquidityEvent
  pub interest_events : List InterestRateEvent

abbrev pub new_loops : {S : Type 0} → S → Loops S
new_loops s = record {
  offers = record { store = s; queue = []; sleeping = []; error_count = 0 };
  liquidity_events = [];
  interest_events = [];
}

-- What the loops over liquidity and interest rate events make of a result: a failure is counted.
unfoldable pub counted : {S : Type 0} → S × ProcessingResult → Pipeline S → Pipeline S
counted (s, result) p =
    if result.success
    then record p { store = s }
    else record p { store = s; error_count = suc p.error_count }

module _ (store : OfferStore) where
  open store use {State}

  pub data Step (p : Loops State) : Loops State → Type 0 where
    offer_step :
        {q : Pipeline State} → Retries.Step store p.offers q → Step p (record p { offers = q })
    liquidity_step :
        (event : LiquidityEvent) (rest : List LiquidityEvent) (out : State × ProcessingResult)
        → p.liquidity_events ≡ event ∷ rest
        → process_liquidity_event store event p.offers.store ≡ done out
        → Step p (record p { offers = counted out p.offers; liquidity_events = rest })
    interest_step :
        (event : InterestRateEvent) (rest : List InterestRateEvent) (out : State × ProcessingResult)
        → p.interest_events ≡ event ∷ rest
        → process_interest_rate_event store event p.offers.store ≡ done out
        → Step p (record p { offers = counted out p.offers; interest_events = rest })
    offer_arrives :
        (event : MarginOfferEvent)
        → length p.offers.queue < event_channel_capacity
        → Step p (record p { offers = record p.offers { queue = p.offers.queue ++ event ∷ [] } })
    liquidity_arrives :
        (event : LiquidityEvent)
        → length p.liquidity_events < event_channel_capacity
        → Step p (record p { liquidity_events = p.liquidity_events ++ event ∷ [] })

  -- What the loops over the store `s` can come to.
  pub data Reach (s : State) : Loops State → Type 0 where
    fresh : Reach s (new_loops s)
    later : {p q : Loops State} → Reach s p → Step p q → Reach s q
