-- ===== src/Etl/Liquidity.antt =====
-- realtime-etl/event_processors.go: what the liquidity events and the interest rate events do to the
-- memory store.
use margin_offer_system.Base.{
  String, ◌≡◌, refl, true, Option, none, some, ◌==◌, ◌||◌, if◌then◌else◌, Option-cases, Bool-cases,
  inl, inr, ap,
}
use margin_offer_system.Base.Run.{Run, done}
use margin_offer_system.Types.Time.{Time}
use margin_offer_system.Types.Error.{Error, error_text, missing_id, offer_not_found, text_of}
use margin_offer_system.Types.Offer.{MarginOffer}
use margin_offer_system.Store.Memory.{MemoryStore, Env, get_by_id, failed}
use margin_offer_system.Store.Memory.Invariant.{Table, table, IsConsistent}
use margin_offer_system.Store.Memory.Spec.{spec_checked}
use margin_offer_system.Store.Memory.Roundtrip.{get_by_id_lem}
use margin_offer_system.Store.Upsert.Refine.{spec_upsert, create_or_update-Refines}
use margin_offer_system.Etl.Events.{LiquidityEvent, InterestRateEvent, ProcessingResult, event_key}
use margin_offer_system.Etl.Handlers.{
  memory, result_of, write_looked, process_liquidity_event, process_interest_rate_event,
}

-- What an event comes to on the table: the text of its error, and the table.
abbrev pub EventOutcome : Type 0
EventOutcome = Option String × Table

-- The offer under an ID, changed and written back, or, where `refusal` is a text, left with it.
abbrev pub spec_change :
    Time → String → Option String → (MarginOffer → MarginOffer) → Table → EventOutcome
spec_change now id refusal change t =
    if id == "" then (some (error_text missing_id), t) else elim (t id) [
      | none ↦ (some (error_text offer_not_found), t)
      | some o ↦ elim refusal [
        | some text ↦ (some text, t)
        | none ↦
            let out = spec_checked (λ x u. (none, spec_upsert now x u)) (some (change o)) t in
            (text_of (out.0), out.1)
      ]
    ]

-- The kinds of event that the processor knows.
abbrev pub kind_refusal : String → Option String
kind_refusal kind =
    if kind == "liquidity_added" || kind == "liquidity_removed"
    then none
    else some "unknown liquidity event type"

-- An event that ends with a contract's error and table, and in a consistent store.
abbrev pub Processes : Run (MemoryStore × ProcessingResult) → String → EventOutcome → Type 0
Processes run key spec =
    (ms : MemoryStore) × (run ≡ done (ms, result_of key (spec.0)))
    × IsConsistent ms
    × ((id : String) → table ms id ≡ spec.1 id)

blank_lem :
    (id : String) (ms : MemoryStore) → (id == "") ≡ true → get_by_id id ms ≡ failed missing_id
unfolding get_by_id
blank_lem id ms h = rw h refl

module _ (env : Env) where
  write_looked-Processes :
      (key : String) (o : MarginOffer) (ms : MemoryStore)
      → IsConsistent ms
      → (let out = spec_checked (λ x u. (none, spec_upsert (env.now 0) x u)) (some o) (table ms) in
          Processes (write_looked (memory env) key o ms) key (text_of (out.0), out.1))
  unfolding write_looked
  write_looked-Processes key o ms c =
      let (r, ran, kept, fails, written) = create_or_update-Refines env (some o) ms c in
      rw ran (
        r.store,
        ap (λ (e : Option Error). done (r.store, result_of key (text_of e))) fails,
        kept,
        written,
      )

  -- The same for an interest rate event, which sets the rate and the model and has one kind.
  pub process_interest_rate_event-Processes :
      (event : InterestRateEvent) (ms : MemoryStore)
      → IsConsistent ms
      → Processes
          (process_interest_rate_event (memory env) event ms)
          (event_key event.transaction_hash event.offer_id)
          (spec_change
            (env.now 0)
            event.offer_id
            none
            (λ o. record o { interest_rate = event.new_rate; interest_model = event.rate_model })
            (table ms))
  unfolding process_interest_rate_event
  process_interest_rate_event-Processes event ms c = elim (Bool-cases (event.offer_id == "")) [
    | inl blank ↦
        rw (process_interest_rate_event, blank_lem event.offer_id ms blank, blank)
          (ms, refl, c, λ id. refl)
    | inr given ↦ elim (Option-cases (table ms event.offer_id)) [
      | inl absent ↦
          rw (process_interest_rate_event, get_by_id_lem event.offer_id ms given, given, absent)
            (ms, refl, c, λ id. refl)
      | inr (o, there) ↦
          rw (process_interest_rate_event, get_by_id_lem event.offer_id ms given, given, there)
            (write_looked-Processes _ _ ms c)
    ]
  ]

  -- On a consistent memory store, ProcessLiquidityEvent ends without a panic in a consistent
  -- store, for every event. For an empty ID, one under which no offer stands, or a kind of event
  -- that it does not know, the result has the error and the table stays; else the result and the
  -- table are those of CreateOrUpdate's contract for the stored offer with the event's new
  -- amount.
  pub process_liquidity_event-Processes :
      (event : LiquidityEvent) (ms : MemoryStore)
      → IsConsistent ms
      → Processes
          (process_liquidity_event (memory env) event ms)
          (event_key event.transaction_hash event.offer_id)
          (spec_change
            (env.now 0)
            event.offer_id
            (kind_refusal event.event_type)
            (λ o. record o { available_borrow_amount = event.new_total_amount })
            (table ms))
  unfolding process_liquidity_event
  process_liquidity_event-Processes event ms c = elim (Bool-cases (event.offer_id == "")) [
    | inl blank ↦
        rw (process_liquidity_event, blank_lem event.offer_id ms blank, blank)
          (ms, refl, c, λ id. refl)
    | inr given ↦ elim (Option-cases (table ms event.offer_id)) [
      | inl absent ↦
          rw (process_liquidity_event, get_by_id_lem event.offer_id ms given, given, absent)
            (ms, refl, c, λ id. refl)
      | inr (o, there) ↦
          elim (Bool-cases
            (event.event_type == "liquidity_added" || event.event_type == "liquidity_removed")) [
              | inl known ↦
                  rw
                    (
                      process_liquidity_event,
                      get_by_id_lem event.offer_id ms given,
                      given,
                      there,
                      known,
                    )
                    (write_looked-Processes _ _ ms c)
              | inr unknown ↦
                  rw
                    (
                      process_liquidity_event,
                      get_by_id_lem event.offer_id ms given,
                      given,
                      there,
                      unknown,
                    )
                    (ms, refl, c, λ id. refl)
            ]
    ]
  ]
