-- ===== src/Grpc/Server.antt =====
-- store/grpc_server.go: the handlers of the service over the memory store. A handler that looks at
-- the store twice is given the store at each look, since other calls can come between.
pub mod Bulk
pub mod Listing
pub mod Refine
pub mod Pages
use margin_offer_system.Base.{
  ℕ, suc, String, Bool, true, false, Option, none, some, List, [], ◌∷◌, ◌==◌, if◌then◌else◌, length,
}
use margin_offer_system.Base.Int.{ℤ, pos, int32_of}
use margin_offer_system.Base.Run.{Run, done, panic, ◌>>=◌}
use margin_offer_system.Types.Error.{
  Error, error_text, offer_not_found, offer_already_exists, missing_id, invalid_event_data,
}
use margin_offer_system.Types.Offer.{MarginOffer}
use margin_offer_system.Types.Pool.Bytes.{Decoded, ok, err}
use margin_offer_system.Store.Memory.{
  MemoryStore, Env, Reply, create, update, delete_offer, get_by_id, Found, found, failed,
}
use margin_offer_system.Grpc.Messages.{
  Timestamps, OfferMessage, UpsertResponse, Code, invalid_argument, not_found, already_exists,
  internal, StatusOr, reply, refused,
}
use margin_offer_system.Grpc.Converters.{proto_to_margin_offer, margin_offer_to_proto}

-- The store after a handler, and the response or the status.
abbrev pub Answer : Type 0 → Type 0
Answer A = MemoryStore × StatusOr A

-- `handleStoreError`
abbrev pub store_code : Error → Code
store_code offer_not_found = not_found
store_code offer_already_exists = already_exists
store_code missing_id = invalid_argument
store_code invalid_event_data = invalid_argument
store_code _ = internal

unfoldable pub handle_store_error {ℓ} : {A : Type ℓ} → Error → StatusOr A
handle_store_error e = refused (store_code e) (error_text e)

module _ (ts : Timestamps) where
  open ts use {Stamp}

  -- The response with an offer.
  unfoldable pub offer_reply : Option MarginOffer → StatusOr (OfferMessage Stamp)
  offer_reply offer = elim (margin_offer_to_proto ts offer) [
    | ok m ↦ reply m
    | err _ ↦ refused internal "failed to convert offer"
  ]

  -- What a handler makes of the reply of a store operation on an offer.
  unfoldable pub after_write : Reply → Answer (OfferMessage Stamp)
  unfolding offer_reply handle_store_error
  after_write r = elim r.error [
    | some e ↦ (r.store, handle_store_error e)
    | none ↦ (r.store, offer_reply r.offer)
  ]

  -- A handler that converts an offer and gives it to the store.
  unfoldable pub write_offer :
      (Option MarginOffer → MemoryStore → Run Reply)
      → Option (OfferMessage Stamp)
      → MemoryStore
      → Run (Answer (OfferMessage Stamp))
  unfolding after_write
  write_offer operation none ms = done (ms, refused invalid_argument "offer is required")
  write_offer operation (some m) ms = elim (proto_to_margin_offer ts (some m)) [
    | err e ↦ done (ms, refused invalid_argument e)
    | ok offer ↦ do r ← operation (some offer) ms; done (after_write r)
  ]

  -- `CreateMarginOffer`
  unfoldable pub create_margin_offer :
      Env → Option (OfferMessage Stamp) → MemoryStore → Run (Answer (OfferMessage Stamp))
  unfolding write_offer
  create_margin_offer env = write_offer (create env)

  -- `UpdateMarginOffer`
  unfoldable pub update_margin_offer :
      Env → Option (OfferMessage Stamp) → MemoryStore → Run (Answer (OfferMessage Stamp))
  unfolding write_offer
  update_margin_offer env = write_offer (update env)

  -- `GetMarginOffer`
  unfoldable pub get_margin_offer : String → MemoryStore → StatusOr (OfferMessage Stamp)
  unfolding offer_reply handle_store_error
  get_margin_offer id ms =
      if id == "" then refused invalid_argument "id is required" else elim (get_by_id id ms) [
        | failed e ↦ handle_store_error e
        | found offer ↦ offer_reply (some offer)
      ]

  -- `DeleteMarginOffer`
  unfoldable pub delete_margin_offer : Env → String → MemoryStore → Run (Answer (Unit {0}))
  unfolding handle_store_error
  delete_margin_offer env id ms =
      if id == "" then done (ms, refused invalid_argument "id is required") else do
        r ← delete_offer env id ms
        done
            (elim r.error [ some e ↦ (r.store, handle_store_error e) | none ↦ (r.store, reply tt) ])

  -- The end of `CreateOrUpdateMarginOffer`.
  unfoldable pub after_upsert : Bool → Reply → Answer (UpsertResponse Stamp)
  unfolding handle_store_error
  after_upsert was_created r = elim r.error [
    | some e ↦ (r.store, handle_store_error e)
    | none ↦ elim (margin_offer_to_proto ts r.offer) [
      | ok m ↦ (r.store, reply (record { offer = m; was_created = was_created }))
      | err _ ↦ (r.store, refused internal "failed to convert offer")
    ]
  ]

  -- Whether `GetByID` found the offer decides whether it is created or updated.
  unfoldable pub upsert_found :
      Env → MarginOffer → Found → MemoryStore → Run (Answer (UpsertResponse Stamp))
  unfolding after_upsert handle_store_error
  upsert_found env offer (found _) ms = do
    r ← update env (some offer) ms
    done (after_upsert false r)
  upsert_found env offer (failed offer_not_found) ms = do
    r ← create env (some offer) ms
    done (after_upsert true r)
  upsert_found env offer (failed e) ms = done (ms, handle_store_error e)

  -- `CreateOrUpdateMarginOffer`: `seen` is the store at the lookup, and `ms` at the write.
  unfoldable pub create_or_update_margin_offer :
      Env
      → Option (OfferMessage Stamp)
      → MemoryStore
      → MemoryStore
      → Run (Answer (UpsertResponse Stamp))
  unfolding upsert_found
  create_or_update_margin_offer env none seen ms =
      done (ms, refused invalid_argument "offer is required")
  create_or_update_margin_offer env (some m) seen ms = elim (proto_to_margin_offer ts (some m)) [
    | err e ↦ done (ms, refused invalid_argument e)
    | ok offer ↦ upsert_found env offer (get_by_id offer.id seen) ms
  ]
