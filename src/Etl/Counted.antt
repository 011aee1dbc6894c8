-- ===== src/Etl/Counted.antt =====
-- An event is left with the count of its retries.
use margin_offer_system.Base.{◌≡◌, arith, Option-cases, inl, inr}
use margin_offer_system.Base.Run.{Run, done, Run-cases}
use margin_offer_system.Etl.Events.{MarginOfferEvent, validate_event}
use margin_offer_system.Etl.Handlers.{
  OfferStore, prepared, handle_margin_offer_created_or_updated, handle_margin_offer_deleted,
  handle_kind, process_margin_offer_event,
}

module _ (store : OfferStore) where
  open store use {State, upsert, remove}

  abbrev KeepsCount {ℓ} :
      {A : Type ℓ} → MarginOfferEvent → Run (State × MarginOfferEvent × A) → Type ℓ
  KeepsCount {A = A} event run =
      (out : State × MarginOfferEvent × A)
      → run ≡ done out
      → (out.1).retry_count ≡ event.retry_count

  written-KeepsCount :
      (event : MarginOfferEvent) (s : State)
      → KeepsCount event (handle_margin_offer_created_or_updated store event s)
  unfolding handle_margin_offer_created_or_updated
  written-KeepsCount event s out h = elim (Option-cases event.offer_data) [
    | inl absent ↦ ground (arith, h, absent)
    | inr (o, there) ↦ elim (Run-cases (upsert (prepared event o) s)) [
      | inl (written, ran) ↦ ground (arith, h, there, ran)
      | inr stop ↦ ground (arith, h, there, stop)
    ]
  ]

  removed-KeepsCount :
      (event : MarginOfferEvent) (s : State)
      → KeepsCount event (handle_margin_offer_deleted store event s)
  unfolding handle_margin_offer_deleted
  removed-KeepsCount event s out h = elim (Run-cases (remove event.offer_id s)) [
    | inl (written, ran) ↦ ground (arith, h, ran)
    | inr stop ↦ ground (arith, h, stop)
  ]

  kind-KeepsCount :
      (event : MarginOfferEvent) (s : State) → KeepsCount event (handle_kind store event s)
  unfolding handle_kind
  kind-KeepsCount event s out h =
      ground (arith, h, written-KeepsCount event s out, removed-KeepsCount event s out)

  pub process-KeepsCount :
      (event : MarginOfferEvent) (s : State)
      → KeepsCount event (process_margin_offer_event store event s)
  unfolding process_margin_offer_event
  process-KeepsCount event s out h = elim (Option-cases (validate_event event)) [
    | inr (e, bad) ↦ ground (arith, h, bad)
    | inl fine ↦ elim (Run-cases (handle_kind store event s)) [
      | inr stop ↦ ground (arith, h, fine, stop)
      | inl (handled, ran) ↦ ground (arith, h, fine, ran, kind-KeepsCount event s handled ran)
    ]
  ]
