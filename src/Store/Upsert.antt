-- ===== src/Store/Upsert.antt =====
-- store/memory_store_upsert.go: create-or-update of one offer and of a batch, and the overwrite of
-- the offers that a filter selects.
pub mod Batch
pub mod Refine
use margin_offer_system.Base.{
  ℕ, suc, ◌+◌, String, Bool, true, false, not, ◌&&◌, ◌||◌, Option, none, some, List, [], ◌∷◌, map,
  length, if◌then◌else◌, ◌==◌,
}
use margin_offer_system.Base.GoMap.{Assoc, get, put, delete, entries}
use margin_offer_system.Base.Run.{Run, done, panic, ◌>>=◌}
use margin_offer_system.Types.Time.{Time, is_zero, before, after}
use margin_offer_system.Types.Error.{Error, invalid_event_data}
use margin_offer_system.Types.Offer.{MarginOffer, validate}
use margin_offer_system.Types.Filter.{OverwriteFilter, no_criteria}
use margin_offer_system.Store.Notification.{ChangeEvent, overwritten}
use margin_offer_system.Store.Memory.{
  MemoryStore, Env, Reply, checked, remove_from_indexes, store_offer, notify,
}

-- The store after an operation on a batch, the caller's offers as it left them, and the error.
pub record BatchReply : Type 0 where
  pub store : MemoryStore
  pub offers : List (Option MarginOffer)
  pub error : Option Error

-- The write of `createOrUpdateInternal`, from what stands under the ID: the offer as it is stored,
-- and the store.
upsert_at : Time → MarginOffer → MemoryStore → Option MarginOffer → Run (MarginOffer × MemoryStore)
upsert_at now offer ms (some existing) =
    let stamped = record offer {
      created_timestamp = existing.created_timestamp;
      updated_timestamp = now;
    } in
    do
      removed ← remove_from_indexes existing ms
      stored ← store_offer stamped removed
      done (stamped, record stored { last_update = now })
upsert_at now offer ms none =
    let stamped = record offer {
      created_timestamp = if is_zero offer.created_timestamp then now else offer.created_timestamp;
      updated_timestamp = now;
    } in
    do stored ← store_offer stamped ms; done (stamped, record stored { last_update = now })

-- `createOrUpdateInternal`, which returns no error.
unfoldable pub create_or_update_internal :
    Time → MarginOffer → MemoryStore → Run (MarginOffer × MemoryStore)
unfolding upsert_at
create_or_update_internal now offer ms = upsert_at now offer ms (get offer.id ms.offers)

-- `CreateOrUpdate`
unfoldable pub create_or_update : Env → Option MarginOffer → MemoryStore → Run Reply
unfolding checked create_or_update_internal
create_or_update env offer ms =
    checked
      (λ o s. do
        (stamped, stored) ← create_or_update_internal (env.now 0) o s
        done (record { store = stored; offer = some stamped; error = none }))
      offer ms

-- The validation loop over a batch: the first offer that is nil or not valid gives the error.
first_error : Option Error → Option Error → Option Error
first_error (some e) rest = some e
first_error none rest = rest

unfoldable pub validate_all : List (Option MarginOffer) → Option Error
unfolding first_error
validate_all [] = none
validate_all (none ∷ offers) = some invalid_event_data
validate_all (some offer ∷ offers) = first_error (validate offer) (validate_all offers)

-- The rest of an operation on a batch, which runs if validation gives no error.
unfoldable pub after_batch_validation :
    Option Error → List (Option MarginOffer) → MemoryStore → Run BatchReply → Run BatchReply
after_batch_validation (some e) offers ms rest =
    done (record { store = ms; offers = offers; error = some e })
after_batch_validation none offers ms rest = rest

-- The loop of `BulkCreateOrUpdate`, from the `i`-th reading of the clock. A nil offer would be
-- dereferenced.
unfoldable pub upsert_all :
    Env
    → ℕ
    → List (Option MarginOffer)
    → MemoryStore
    → Run (List (Option MarginOffer) × MemoryStore)
upsert_all env i [] ms = done ([], ms)
upsert_all env i (none ∷ offers) ms = panic
upsert_all env i (some offer ∷ offers) ms = do
  (stamped, stored) ← create_or_update_internal (env.now i) offer ms
  (others, final) ← upsert_all env (suc i) offers stored
  done (some stamped ∷ others, final)

-- `BulkCreateOrUpdate`
unfoldable pub bulk_create_or_update :
    Env → List (Option MarginOffer) → MemoryStore → Run BatchReply
unfolding after_batch_validation
bulk_create_or_update env [] ms = done (record { store = ms; offers = []; error = none })
bulk_create_or_update env (first ∷ rest) ms =
    let offers = first ∷ rest in
    after_batch_validation (validate_all offers) offers ms (do
      (stamped, stored) ← upsert_all env 0 offers ms
      done (record {
        store = record stored { last_update = env.now (length offers) };
        offers = stamped;
        error = none;
      }))

-- A loop that stamps and stores each offer of a batch.
unfoldable pub insert_all :
    (MarginOffer → MarginOffer)
    → List (Option MarginOffer)
    → MemoryStore
    → Run (List (Option MarginOffer) × MemoryStore)
insert_all stamp [] ms = done ([], ms)
insert_all stamp (none ∷ offers) ms = panic
insert_all stamp (some offer ∷ offers) ms = do
  stored ← store_offer (stamp offer) ms
  (others, final) ← insert_all stamp offers stored
  done (some (stamp offer) ∷ others, final)
