-- ===== src/Etl/Handlers.antt =====
-- realtime-etl/event_processors.go: what an event does to the store, which the processor knows by
-- its interface.
use margin_offer_system.Base.{String, true, false, Option, none, some, ◌==◌, ◌||◌, if◌then◌else◌}
use margin_offer_system.Base.Run.{Run, done, ◌>>=◌}
use margin_offer_system.Types.Time.{is_zero}
use margin_offer_system.Types.Error.{error_text, invalid_event_data, text_of}
use margin_offer_system.Types.Offer.{MarginOffer}
use margin_offer_system.Store.Memory.{
  MemoryStore, Env, delete_offer, get_by_id, Found, found, failed,
}
use margin_offer_system.Store.Upsert.{create_or_update}
use margin_offer_system.Etl.Events.{
  MarginOfferEvent, LiquidityEvent, InterestRateEvent, ProcessingResult, validate_event,
  get_event_key, event_key,
}

-- What `GetByID` of the interface gives.
pub data Looked : Type 0 where
  missed : String → Looked
  seen : MarginOffer → Looked

-- The operations of `MarginOfferStore` that the processor calls. A write gives the store, the offer
-- as it stands behind the caller's pointer afterwards, and the text of its error.
pub record OfferStore : Type 1 where
  pub State : Type 0
  pub upsert : MarginOffer → State → Run (State × MarginOffer × Option String)
  pub remove : String → State → Run (State × Option String)
  pub look : String → State → Looked

abbrev pub offer_or : Option MarginOffer → MarginOffer → MarginOffer
offer_or none default = default
offer_or (some o) default = o

abbrev pub looked_of : Found → Looked
looked_of (found o) = seen o
looked_of (failed e) = missed (error_text e)

-- The memory store behind the interface.
abbrev pub memory : Env → OfferStore
memory env = record {
  State = MemoryStore;
  upsert = λ o ms. (do
    r ← create_or_update env (some o) ms
    done (r.store, offer_or r.offer o, text_of r.error));
  remove = λ id ms. (do r ← delete_offer env id ms; done (r.store, text_of r.error));
  look = λ id ms. looked_of (get_by_id id ms);
}

-- The result of an event whose processing gave an error or none.
abbrev pub result_of : String → Option String → ProcessingResult
result_of key none = record { success = true; event_id = key; error = "" }
result_of key (some text) = record { success = false; event_id = key; error = text }

-- The offer of an event as it is written.
unfoldable pub prepared : MarginOfferEvent → MarginOffer → MarginOffer
prepared event o = record o {
  id = if o.id == "" then event.offer_id else o.id;
  created_timestamp = if is_zero o.created_timestamp then event.timestamp else o.created_timestamp;
  updated_timestamp = event.timestamp;
}

module _ (store : OfferStore) where
  open store use {State, upsert, remove, look}

  -- `handleMarginOfferCreatedOrUpdated`, with the event as it is left.
  unfoldable pub handle_margin_offer_created_or_updated :
      MarginOfferEvent → State → Run (State × MarginOfferEvent × Option String)
  unfolding prepared
  handle_margin_offer_created_or_updated event s = elim event.offer_data [
    | none ↦ done (s, event, some (error_text invalid_event_data))
    | some o ↦ do
      written ← upsert (prepared event o) s
      done (written.0, record event { offer_data = some written.1 }, written.2)
  ]

  -- `handleMarginOfferDeleted`
  unfoldable pub handle_margin_offer_deleted :
      MarginOfferEvent → State → Run (State × MarginOfferEvent × Option String)
  handle_margin_offer_deleted event s = do
    removed ← remove event.offer_id s
    done (removed.0, event, removed.1)

  -- The switch of `ProcessMarginOfferEvent` over the kinds of event.
  unfoldable pub handle_kind :
      MarginOfferEvent → State → Run (State × MarginOfferEvent × Option String)
  unfolding handle_margin_offer_created_or_updated handle_margin_offer_deleted
  handle_kind event s =
      if event.event_type == "margin_offer_created" || event.event_type == "margin_offer_updated"
      then handle_margin_offer_created_or_updated event s
      else if event.event_type == "margin_offer_deleted"
      then handle_margin_offer_deleted event s
      else done (s, event, some (error_text invalid_event_data))

  -- `ProcessMarginOfferEvent`
  unfoldable pub process_margin_offer_event :
      MarginOfferEvent → State → Run (State × MarginOfferEvent × ProcessingResult)
  unfolding validate_event get_event_key handle_kind
  process_margin_offer_event event s = elim (validate_event event) [
    | some e ↦ done (s, event, result_of (get_event_key event) (some (error_text e)))
    | none ↦ do
      handled ← handle_kind event s
      done (handled.0, handled.1, result_of (get_event_key event) handled.2)
  ]

  -- The write of a changed offer that was looked up.
  unfoldable pub write_looked : String → MarginOffer → State → Run (State × ProcessingResult)
  write_looked key o s = do written ← upsert o s; done (written.0, result_of key written.2)

  -- `ProcessLiquidityEvent`
  unfoldable pub process_liquidity_event : LiquidityEvent → State → Run (State × ProcessingResult)
  unfolding write_looked
  process_liquidity_event event s =
      let key = event_key event.transaction_hash event.offer_id in
      elim (look event.offer_id s) [
        | missed text ↦ done (s, result_of key (some text))
        | seen offer ↦
            if event.event_type == "liquidity_added" || event.event_type == "liquidity_removed"
            then write_looked key
                (record offer { available_borrow_amount = event.new_total_amount }) s
            else done (s, result_of key (some "unknown liquidity event type"))
      ]

  -- `ProcessInterestRateEvent`
  unfoldable pub process_interest_rate_event :
      InterestRateEvent → State → Run (State × ProcessingResult)
  unfolding write_looked
  process_interest_rate_event event s =
      let key = event_key event.transaction_hash event.offer_id in
      elim (look event.offer_id s) [
        | missed text ↦ done (s, result_of key (some text))
        | seen offer ↦
            write_looked key
              (record offer { interest_rate = event.new_rate; interest_model = event.rate_model }) s
      ]
