-- ===== src/Store/Start.antt =====
-- The store as `NewMemoryStore` makes it: three of its maps are nil.
pub mod Calls
use margin_offer_system.Base.{◌≡◌, refl, none, some, inl, inr}
use margin_offer_system.Base.GoMap.{nil_map, get, put, lookup}
use margin_offer_system.Base.Run.{panic, Run-cases}
use margin_offer_system.Types.Offer.{MarginOffer, validate, clone}
use margin_offer_system.Store.Memory.{
  MemoryStore, Env, new_memory_store, create, add_to_indexes, store_offer,
}
use margin_offer_system.Store.Memory.Index.{append_id, append_opt}
use margin_offer_system.Store.Memory.Spec.{stamp_created}
use margin_offer_system.Store.Upsert.Refine.{stamp_upserted}
use margin_offer_system.Store.Upsert.{create_or_update}

-- Every offer goes into the token index, which is nil.
add_to_indexes-panic :
    (o : MarginOffer) (ms : MemoryStore) → ms.token_index ≡ nil_map → add_to_indexes o ms ≡ panic
unfolding add_to_indexes append_id put
add_to_indexes-panic o ms h =
    rw h (elim (Run-cases (append_opt o.lender_address o.id ms.lender_index)) [
      | inl (m, e) ↦ rw e refl
      | inr e ↦ rw e refl
    ])

pub store_offer-panic :
    (o : MarginOffer) (ms : MemoryStore) → ms.token_index ≡ nil_map → store_offer o ms ≡ panic
unfolding store_offer
store_offer-panic o ms h = elim (Run-cases (put o.id (clone o) ms.offers)) [
  | inl (m, e) ↦ rw e (add_to_indexes-panic o (record ms { offers = m }) h)
  | inr e ↦ rw e refl
]

-- Create and CreateOrUpdate of any valid offer panic on the store that NewMemoryStore makes.
pub new_memory_store-panic :
    (env : Env) (o : MarginOffer)
    → validate o ≡ none
    → (create env (some o) new_memory_store ≡ panic)
      × (create_or_update env (some o) new_memory_store ≡ panic)
unfolding create create_or_update new_memory_store get lookup
new_memory_store-panic env o v = (
  rw v (rw (store_offer-panic (stamp_created (env.now 0) o) new_memory_store refl) refl),
  rw v (rw (store_offer-panic (stamp_upserted (env.now 0) none o) new_memory_store refl) refl),
)
