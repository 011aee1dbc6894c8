-- ===== src/Etl/Drained.antt =====
-- realtime-etl/event_processors.go: where the store does not panic, the loop gets to the end of its
-- events.
use margin_offer_system.Base.{
  ℕ, zero, suc, ◌<◌, ◌≡◌, refl, some, List, [], ◌∷◌, ◌++◌, arith, inl, inr, Bool-cases,
  Option-cases, List-cases, ◌==◌, ◌||◌,
}
use margin_offer_system.Base.Run.{Run, done, transported}
use margin_offer_system.Store.Memory.{MemoryStore, Env}
use margin_offer_system.Store.Memory.Invariant.{IsConsistent}
use margin_offer_system.Store.Memory.Refine.{delete_offer-Refines}
use margin_offer_system.Store.Upsert.Refine.{create_or_update-Refines}
use margin_offer_system.Etl.Events.{MarginOfferEvent, ProcessingResult, validate_event}
use margin_offer_system.Etl.Handlers.{
  OfferStore, memory, prepared, handle_margin_offer_created_or_updated, handle_margin_offer_deleted,
  handle_kind, process_margin_offer_event,
}
use margin_offer_system.Etl.Retries.{
  Pipeline, after_result, weight, Step, process, wake, Steps, here, next, Step-lighter,
}

pub after_result-store :
    {S : Type 0} (p : Pipeline S) (rest : List MarginOfferEvent)
    (out : S × MarginOfferEvent × ProcessingResult)
    → (after_result p rest out).store ≡ out.0
unfolding after_result
after_result-store p rest (s, event, result) = ground arith

module _ (store : OfferStore) where
  open store use {State}

  before_steps :
      {p q : Pipeline State}
      → Step store p q
      → {n : ℕ} {r : Pipeline State} → Steps store q n r
      → Steps store p (suc n) r
  before_steps step here = next here step
  before_steps step (next run last) = next (before_steps step run) last

  -- An invariant of the store under which the processing of an event ends, and which it keeps.
  abbrev pub Returns : (State → Type 0) → Type 0
  Returns Holds =
      (event : MarginOfferEvent) (s : State)
      → Holds s
      → (out : State × MarginOfferEvent × ProcessingResult) × (process_margin_offer_event store
            event s
          ≡ done out)
        × Holds (out.0)

  -- A run to a pipeline in which no event is left, and of which `Inv` holds.
  abbrev pub Empties : (Pipeline State → Type 0) → Pipeline State → Type 0
  Empties Inv p =
      (n : ℕ) × (q : Pipeline State) × Steps store p n q
      × (q.queue ≡ [])
      × (q.sleeping ≡ [])
      × Inv q

  Empties-Step :
      (Inv : Pipeline State → Type 0) {p q : Pipeline State}
      → Step store p q
      → Empties Inv q
      → Empties Inv p
  Empties-Step Inv step (n, r, run, queue, sleeping, holds) =
      (suc n, r, before_steps step run, queue, sleeping, holds)

  module _ (Inv : Pipeline State → Type 0)
      (keeps : (p q : Pipeline State) → Step store p q → Inv p → Inv q)
      (moves : (p : Pipeline State) (event : MarginOfferEvent) (rest : List MarginOfferEvent)
        → Inv p
        → p.queue ≡ event ∷ rest
        → (out : State × MarginOfferEvent × ProcessingResult) × (process_margin_offer_event store
              event p.store
            ≡ done out)) where
    drain : (fuel : ℕ) (p : Pipeline State) → weight p < fuel → Inv p → Empties Inv p
    drain zero p enough holds = absurd (omega arith)
    drain (suc fuel) p enough holds = elim (List-cases p.queue) [
      | inr (event, rest, at) ↦
          let (out, ran) = moves p event rest holds at in
          let step : Step store p (after_result p rest out) = process event rest out at ran in
          Empties-Step Inv step (
            drain fuel (after_result p rest out) (omega (arith, Step-lighter store step))
              (keeps p _ step holds))
      | inl idle ↦ elim (List-cases p.sleeping) [
        | inl rested ↦ (0, p, here, idle, rested, holds)
        | inr (event, rest, at) ↦
            let woken : Pipeline State = record p {
              queue = p.queue ++ event ∷ [];
              sleeping = rest;
            } in
            let step : Step store p woken = wake [] rest event at (rw idle (omega arith)) in
            Empties-Step Inv step
              (drain fuel woken (omega (arith, Step-lighter store step)) (keeps p _ step holds))
      ]
    ]

    -- If every step keeps `Inv`, and under it the processing of the first queued event ends
    -- without a panic, then the pipeline can come to the end of its events.
    pub emptied : (p : Pipeline State) → Inv p → Empties Inv p
    emptied p holds = drain (suc (weight p)) p (omega arith) holds

  -- A run to a pipeline in which no event is left, and of whose store `Holds` holds.
  abbrev pub Drains : (State → Type 0) → Pipeline State → Type 0
  Drains Holds p = Empties (λ q. Holds q.store) p

  Step-Holds :
      (Holds : State → Type 0)
      → Returns Holds
      → {p q : Pipeline State} → Step store p q
      → Holds p.store
      → Holds q.store
  Step-Holds Holds returns {p} (process event rest out at ran) holds =
      let (out', ran', kept) = returns event p.store holds in
      rw (after_result-store p rest out) (transported (λ o. Holds (o.0)) out' out ran' ran kept)
  Step-Holds Holds returns (wake before after event at room) holds = holds

  -- If the store keeps an invariant under which processing an event ends without a panic, then
  -- from every pipeline whose store has the invariant there is a run to one without queued or
  -- sleeping events, whose store has it.
  pub drained :
      (Holds : State → Type 0)
      → Returns Holds
      → (p : Pipeline State) → Holds p.store
      → Drains Holds p
  drained Holds returns =
      emptied (λ q. Holds q.store) (λ p q step. Step-Holds Holds returns step)
        λ p event rest holds at. let (out, ran, _) = returns event p.store holds in (out, ran)

-- The memory store.
module _ (env : Env) where
  abbrev Ends {ℓ} : {A : Type ℓ} → Run (MemoryStore × MarginOfferEvent × A) → Type ℓ
  Ends {A = A} run =
      (out : MemoryStore × MarginOfferEvent × A) × (run ≡ done out) × IsConsistent (out.0)

  written-Ends :
      (event : MarginOfferEvent) (ms : MemoryStore)
      → IsConsistent ms
      → Ends (handle_margin_offer_created_or_updated (memory env) event ms)
  unfolding handle_margin_offer_created_or_updated
  written-Ends event ms c = elim (Option-cases event.offer_data) [
    | inl absent ↦ rw absent (_, refl, c)
    | inr (o, there) ↦
        let (r, ran, kept, _, _) = create_or_update-Refines env (some (prepared event o)) ms c in
        rw (there, ran) (_, refl, kept)
  ]

  removed-Ends :
      (event : MarginOfferEvent) (ms : MemoryStore)
      → IsConsistent ms
      → Ends (handle_margin_offer_deleted (memory env) event ms)
  unfolding handle_margin_offer_deleted
  removed-Ends event ms c =
      let (r, ran, kept, _, _) = delete_offer-Refines env event.offer_id ms c in
      rw ran (_, refl, kept)

  kind-Ends :
      (event : MarginOfferEvent) (ms : MemoryStore)
      → IsConsistent ms
      → Ends (handle_kind (memory env) event ms)
  unfolding handle_kind
  kind-Ends event ms c =
      elim (Bool-cases (
        event.event_type == "margin_offer_created" || event.event_type == "margin_offer_updated")) [
          | inl written ↦ rw written (written-Ends event ms c)
          | inr other ↦ elim (Bool-cases (event.event_type == "margin_offer_deleted")) [
            | inl removed ↦ rw (other, removed) (removed-Ends event ms c)
            | inr unknown ↦ rw (other, unknown) (_, refl, c)
          ]
        ]

  -- An event leaves a consistent memory store consistent, and does not panic.
  pub memory-Returns : Returns (memory env) IsConsistent
  unfolding process_margin_offer_event
  memory-Returns event ms c = elim (Option-cases (validate_event event)) [
    | inr (e, bad) ↦ rw (process_margin_offer_event, bad) (_, refl, c)
    | inl fine ↦
        let (handled, ran, kept) = kind-Ends event ms c in
        rw (process_margin_offer_event, fine, ran) (_, refl, kept)
  ]
