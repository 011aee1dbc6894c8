-- ===== src/Store/Memory.antt =====
-- store/memory_store.go: the state of the in-memory store and its single-offer operations. An
-- operation holds the lock from its first look at the state to its end, so it is one step.
pub mod Index
pub mod Invariant
pub mod Spec
pub mod Refine
pub mod Roundtrip
pub mod Handed
use Prim.Native.String
use mathlib.Core.Option
use margin_offer_system.Base.{String, Option, none, some, [], ◌∷◌, if◌then◌else◌, ◌==◌, ℕ}
use margin_offer_system.Base.GoMap.{GoMap, nil_map, made, get, put, delete}
use margin_offer_system.Base.Run.{Run, done, ◌>>=◌}
use margin_offer_system.Types.Time.{Time, zero_time}
use margin_offer_system.Types.Error.{
  Error, missing_id, offer_not_found, offer_already_exists, invalid_event_data,
  store_not_initialized,
}
use margin_offer_system.Types.Offer.{MarginOffer, validate, update_timestamp, clone}
use margin_offer_system.Store.Notification.{
  NotificationService, ChangeType, ChangeEvent, created, updated, notify_change,
  new_notification_service,
}
use Index.{IdIndex, append_id, append_opt, drop_id, drop_opt}

pub record MemoryStore : Type 0 where
  pub offers : GoMap MarginOffer
  pub lender_index : IdIndex
  pub token_index : IdIndex
  pub offer_type_index : IdIndex
  pub created_at : Time
  pub last_update : Time
  pub notification_service : Option NotificationService

-- What an operation reads from outside: its readings of the clock, in order, a fresh UUID, and the
-- pointers to the offers that it is given, by their places in the call.
pub record Env : Type 0 where
  pub now : ℕ → Time
  pub pointers : ℕ → ℕ
  pub operation_id : String

-- The store after an operation, the caller's offer as the operation left it, and the error.
pub record Reply : Type 0 where
  pub store : MemoryStore
  pub offer : Option MarginOffer
  pub error : Option Error

-- `NewMemoryStore`: only the table of offers is allocated.
unfoldable pub new_memory_store : MemoryStore
unfolding new_notification_service
new_memory_store = record {
  offers = made [];
  lender_index = nil_map;
  token_index = nil_map;
  offer_type_index = nil_map;
  created_at = zero_time;
  last_update = zero_time;
  notification_service = some new_notification_service;
}

unfoldable pub token_key : String → String → String
token_key collateral borrow = String.◌++◌ collateral (String.◌++◌ "|" borrow)

unfoldable pub token_pair : MarginOffer → String
unfolding token_key
token_pair offer = token_key offer.collateral_token offer.borrow_token

-- `addToIndexes`
unfoldable pub add_to_indexes : MarginOffer → MemoryStore → Run MemoryStore
add_to_indexes offer ms = do
  lenders ← append_opt offer.lender_address offer.id ms.lender_index
  tokens ← append_id (token_pair offer) offer.id ms.token_index
  types ← append_id offer.offer_type offer.id ms.offer_type_index
  done (record ms { lender_index = lenders; token_index = tokens; offer_type_index = types })

-- `removeFromIndexes`
unfoldable pub remove_from_indexes : MarginOffer → MemoryStore → Run MemoryStore
remove_from_indexes offer ms = do
  lenders ← drop_opt offer.lender_address offer.id ms.lender_index
  tokens ← drop_id (token_pair offer) offer.id ms.token_index
  types ← drop_id offer.offer_type offer.id ms.offer_type_index
  done (record ms { lender_index = lenders; token_index = tokens; offer_type_index = types })

-- `ms.offers[offer.ID] = offer.Clone(); ms.addToIndexes(offer)`, as every write of an offer does.
unfoldable pub store_offer : MarginOffer → MemoryStore → Run MemoryStore
store_offer offer ms = do
  offers ← put offer.id (clone offer) ms.offers
  add_to_indexes offer (record ms { offers = offers })

-- `if ms.notificationService != nil { ms.notificationService.NotifyChange(...) }`
unfoldable pub notify : ChangeEvent → MemoryStore → MemoryStore
notify event ms = record ms {
  notification_service = Option.map (notify_change event) ms.notification_service;
}

-- `Create` of a valid offer, from what stands under its ID.
create_at : Env → MarginOffer → MemoryStore → Option MarginOffer → Run Reply
create_at env offer ms (some _) =
    done (record { store = ms; offer = some offer; error = some offer_already_exists })
create_at env offer ms none =
    let now = env.now 0 in
    let stamped = record offer { created_timestamp = now; updated_timestamp = now } in
    do
      stored ← store_offer stamped ms
      done (record {
        store =
            notify
              (record {
                change_type = created;
                pointer = env.pointers 0;
                offer = stamped;
                timestamp = now;
                source = "api";
                operation_id = env.operation_id;
                metadata = ("method", "Create") ∷ [];
              })
              (record stored { last_update = now });
        offer = some stamped;
        error = none;
      })

-- `Update` of a valid offer, from what stands under its ID.
update_at : Env → MarginOffer → MemoryStore → Option MarginOffer → Run Reply
update_at env offer ms none =
    done (record { store = ms; offer = some offer; error = some offer_not_found })
update_at env offer ms (some old_offer) =
    let stamped = update_timestamp (env.now 0) offer in
    do
      removed ← remove_from_indexes old_offer ms
      stored ← store_offer stamped removed
      done (record {
        store =
            notify
              (record {
                change_type = updated;
                pointer = env.pointers 0;
                offer = stamped;
                timestamp = env.now 2;
                source = "api";
                operation_id = env.operation_id;
                metadata = ("method", "Update") ∷ [];
              })
              (record stored { last_update = env.now 1 });
        offer = some stamped;
        error = none;
      })

-- The rest of an operation on `offer`, which runs if validation gives no error.
unfoldable pub after_validation : Option Error → MarginOffer → MemoryStore → Run Reply → Run Reply
after_validation (some e) offer ms rest =
    done (record { store = ms; offer = some offer; error = some e })
after_validation none offer ms rest = rest

-- The checks on the argument that come before the lock: it is there and it is valid.
unfoldable pub checked :
    (MarginOffer → MemoryStore → Run Reply) → Option MarginOffer → MemoryStore → Run Reply
unfolding after_validation
checked body none ms = done (record { store = ms; offer = none; error = some invalid_event_data })
checked body (some offer) ms = after_validation (validate offer) offer ms (body offer ms)

-- `Create`
unfoldable pub create : Env → Option MarginOffer → MemoryStore → Run Reply
unfolding checked create_at
create env offer ms = checked (λ o s. create_at env o s (get o.id s.offers)) offer ms

-- `Update`
unfoldable pub update : Env → Option MarginOffer → MemoryStore → Run Reply
unfolding checked update_at update_timestamp
update env offer ms = checked (λ o s. update_at env o s (get o.id s.offers)) offer ms

-- The result of a read: an offer, or the error.
pub data Found : Type 0 where
  found : MarginOffer → Found
  failed : Error → Found

unfoldable pub found_at : Option MarginOffer → Found
found_at none = failed offer_not_found
found_at (some offer) = found (clone offer)

-- `GetByID`
unfoldable pub get_by_id : String → MemoryStore → Found
unfolding found_at
get_by_id id ms = if id == "" then failed missing_id else found_at (get id ms.offers)

delete_at : Env → String → MemoryStore → Option MarginOffer → Run Reply
delete_at env id ms none = done (record { store = ms; offer = none; error = some offer_not_found })
delete_at env id ms (some offer) = do
  removed ← remove_from_indexes offer ms
  done (record {
    store = record removed { offers = delete id removed.offers; last_update = env.now 0 };
    offer = none;
    error = none;
  })

-- `Delete`, which sends no notification. It has no offer of the caller's.
unfoldable pub delete_offer : Env → String → MemoryStore → Run Reply
unfolding delete_at
delete_offer env id ms =
    if id == ""
    then done (record { store = ms; offer = none; error = some missing_id })
    else delete_at env id ms (get id ms.offers)

-- `HealthCheck`
unfoldable pub health_check : MemoryStore → Option Error
health_check ms = elim ms.offers [ nil_map ↦ some store_not_initialized | made _ ↦ none ]

-- `Close`
unfoldable pub close : MemoryStore → MemoryStore
close ms = record ms {
  offers = nil_map;
  lender_index = nil_map;
  token_index = nil_map;
  offer_type_index = nil_map;
}
