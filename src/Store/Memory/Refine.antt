-- ===== src/Store/Memory/Refine.antt =====
-- The single-offer operations implement their contract: on a consistent store each returns, with
-- the contract's error and table, and leaves a consistent store.
use margin_offer_system.Base.{
  String, ◌≡◌, refl, Option, none, some, arith, ◌==◌, eq_iff, ap, ◌∙◌, sym, Option-cases,
  Bool-cases, inl, inr,
}
use margin_offer_system.Base.GoMap.{GoMap, get, delete}
use margin_offer_system.Base.Run.{Run, done}
use margin_offer_system.Types.Time.{Time}
use margin_offer_system.Types.Offer.{MarginOffer, validate, update_timestamp}
use margin_offer_system.Store.Notification.{NotificationService}
use margin_offer_system.Store.Memory.{
  MemoryStore, Env, Reply, checked, create, create_at, update, update_at, delete_at, delete_offer,
  notify, store_offer, remove_from_indexes,
}
use margin_offer_system.Store.Memory.Index.Tracks.{updated, Tracks-ext}
use margin_offer_system.Store.Memory.Invariant.{
  Table, table, lender_of, pair_of, type_of, IsConsistent, store_offer_lem, remove_from_indexes_lem,
  Writes, get-delete,
}
use margin_offer_system.Store.Memory.Spec.{
  Outcome, spec_checked, spec_create, spec_update, spec_delete, stamp_created, stamp_updated,
  if_absent, if_present,
}

abbrev pub Refines : Run Reply → Outcome → Type 0
Refines run spec =
    (r : Reply) × (run ≡ done r)
    × IsConsistent r.store
    × (r.error ≡ spec.0)
    × ((id : String) → table r.store id ≡ spec.1 id)

-- The invariant does not mention the time of the last update nor the notifications.
pub IsConsistent-touch :
    (ms : MemoryStore) (t : Time) (n : Option NotificationService)
    → IsConsistent ms
    → IsConsistent (record ms { last_update = t; notification_service = n })
IsConsistent-touch ms t n c = record {
  is_table = c.is_table;
  own_id = c.own_id;
  indexed = record {
    lenders = c.indexed.lenders;
    tokens = c.indexed.tokens;
    types = c.indexed.types;
  };
}

-- A write of an offer whose ID is new.
pub store_new_lem :
    (o : MarginOffer) (ms : MemoryStore)
    → IsConsistent ms
    → table ms o.id ≡ none
    → (ms' : MemoryStore) × (store_offer o ms ≡ done ms') × Writes o ms ms'
store_new_lem o ms c h =
    store_offer_lem o ms (table ms) c.is_table c.own_id c.indexed h (λ id. refl)

-- A stored offer is taken out of the indexes and another is written under its ID.
pub replace_lem :
    (old o : MarginOffer) (ms : MemoryStore)
    → IsConsistent ms
    → table ms o.id ≡ some old
    → (removed : MemoryStore) × (remove_from_indexes old ms ≡ done removed)
      × (ms' : MemoryStore) × (store_offer o removed ≡ done ms')
      × Writes o ms ms'
replace_lem old o ms c h =
    let own : old.id ≡ o.id = c.own_id o.id old h in
    let (m1, e1, ix, rest) =
      remove_from_indexes_lem (table ms) old ms c.indexed (ap (table ms) own ∙ h) in
    let same : (id : String) → table m1 id ≡ table ms id =
      λ id. ap (λ (m : GoMap MarginOffer). get id m) rest.offers in
    let (m2, e2, w) =
      store_offer_lem o m1 (updated old.id none (table ms)) (rw rest.offers c.is_table)
        (λ id x p. c.own_id id x (sym (same id) ∙ p)) ix (ground (arith, eq_iff old.id o.id))
        (λ id. ground (arith, same id, eq_iff old.id id, eq_iff o.id id)) in
    (
      m1,
      e1,
      m2,
      e2,
      record {
        consistent = w.consistent;
        written = λ id. ground (arith, w.written id, same id);
        created_at = w.created_at ∙ rest.created_at;
        last_update = w.last_update ∙ rest.last_update;
        notification_service = w.notification_service ∙ rest.notification_service;
      },
    )

-- A stored offer is taken out of the indexes and out of the table.
pub erase_lem :
    (old : MarginOffer) (id : String) (ms : MemoryStore)
    → IsConsistent ms
    → table ms id ≡ some old
    → (removed : MemoryStore) × (remove_from_indexes old ms ≡ done removed)
      × IsConsistent (record removed { offers = delete id removed.offers })
      × ((x : String) → get x (delete id removed.offers) ≡ updated id none (table ms) x)
      × (removed.notification_service ≡ ms.notification_service)
erase_lem old id ms c h =
    let own : old.id ≡ id = c.own_id id old h in
    let (m1, e1, ix, rest) =
      remove_from_indexes_lem (table ms) old ms c.indexed (ap (table ms) own ∙ h) in
    let (tab, look) = get-delete id m1.offers (rw rest.offers c.is_table) in
    let same : (x : String) → get x (delete id m1.offers) ≡ updated id none (table ms) x = λ x.
      ground (arith, look x, ap (λ (m : GoMap MarginOffer). get x m) rest.offers, eq_iff id x) in
    let ext : (x : String) → updated old.id none (table ms) x ≡ get x (delete id m1.offers) =
      λ x. ground (arith, same x, eq_iff id x, eq_iff old.id x) in
    (
      m1,
      e1,
      record {
        is_table = tab;
        own_id = λ x o p. ground (arith, same x, c.own_id x o, eq_iff id x);
        indexed = record {
          lenders = Tracks-ext lender_of ext ix.lenders;
          tokens = Tracks-ext pair_of ext ix.tokens;
          types = Tracks-ext type_of ext ix.types;
        };
      },
      same,
      rest.notification_service,
    )

pub checked-Refines :
    (body : MarginOffer → MemoryStore → Run Reply) (spec : MarginOffer → Table → Outcome)
    → (ms : MemoryStore) → IsConsistent ms
    → ((o : MarginOffer) → Refines (body o ms) (spec o (table ms)))
    → (offer : Option MarginOffer)
    → Refines (checked body offer ms) (spec_checked spec offer (table ms))
unfolding checked
checked-Refines body spec ms c h none = (_, refl, c, refl, λ id. refl)
checked-Refines body spec ms c h (some o) = elim (Option-cases (validate o)) [
  | inl e ↦ rw e (h o)
  | inr (x, e) ↦ rw e (_, refl, c, refl, λ id. refl)
]

create_at-Refines :
    (env : Env) (o : MarginOffer) (ms : MemoryStore)
    → IsConsistent ms
    → Refines (create_at env o ms (table ms o.id)) (
        if_absent
          (table ms o.id)
          (table ms)
          (updated o.id (some (stamp_created (env.now 0) o)) (table ms)))
unfolding create_at notify
create_at-Refines env o ms c = elim (Option-cases (table ms o.id)) [
  | inr (x, e) ↦ rw e (_, refl, c, refl, λ id. refl)
  | inl e ↦
      let (stored, s, w) = store_new_lem (stamp_created (env.now 0) o) ms c e in
      rw (e, s) (_, refl, IsConsistent-touch stored _ _ w.consistent, refl, w.written)
]

update_at-Refines :
    (env : Env) (o : MarginOffer) (ms : MemoryStore)
    → IsConsistent ms
    → Refines (update_at env o ms (table ms o.id)) (
        if_present
          (table ms o.id)
          (table ms)
          (updated o.id (some (stamp_updated (env.now 0) o)) (table ms)))
unfolding update_at update_timestamp notify
update_at-Refines env o ms c = elim (Option-cases (table ms o.id)) [
  | inl e ↦ rw e (_, refl, c, refl, λ id. refl)
  | inr (old, e) ↦
      let (removed, r, stored, s, w) = replace_lem old (stamp_updated (env.now 0) o) ms c e in
      rw (e, r, s) (_, refl, IsConsistent-touch stored _ _ w.consistent, refl, w.written)
]

delete_at-Refines :
    (env : Env) (id : String) (ms : MemoryStore)
    → IsConsistent ms
    → Refines
        (delete_at env id ms (table ms id))
        (if_present (table ms id) (table ms) (updated id none (table ms)))
unfolding delete_at
delete_at-Refines env id ms c = elim (Option-cases (table ms id)) [
  | inl e ↦ rw e (_, refl, c, refl, λ x. refl)
  | inr (old, e) ↦
      let (removed, r, consistent, written, _) = erase_lem old id ms c e in
      rw (e, r) (_, refl, IsConsistent-touch _ _ _ consistent, refl, written)
]

-- On a consistent store, Create ends without a panic, with the error and the table that its
-- contract gives, and leaves a consistent store, for every argument, nil and invalid offers
-- included.
pub create-Refines :
    (env : Env) (offer : Option MarginOffer) (ms : MemoryStore)
    → IsConsistent ms
    → Refines (create env offer ms) (spec_create (env.now 0) offer (table ms))
unfolding create
create-Refines env offer ms c = checked-Refines _ _ ms c (λ o. create_at-Refines env o ms c) offer

-- On a consistent store, Update ends without a panic, with the error and the table that its
-- contract gives, and leaves a consistent store, for every argument, nil and invalid offers
-- included.
pub update-Refines :
    (env : Env) (offer : Option MarginOffer) (ms : MemoryStore)
    → IsConsistent ms
    → Refines (update env offer ms) (spec_update (env.now 0) offer (table ms))
unfolding update
update-Refines env offer ms c = checked-Refines _ _ ms c (λ o. update_at-Refines env o ms c) offer

-- On a consistent store, Delete ends without a panic, with the error and the table that its
-- contract gives, and leaves a consistent store, for every ID.
pub delete_offer-Refines :
    (env : Env) (id : String) (ms : MemoryStore)
    → IsConsistent ms
    → Refines (delete_offer env id ms) (spec_delete id (table ms))
unfolding delete_offer
delete_offer-Refines env id ms c = elim (Bool-cases (id == "")) [
  | inl e ↦ rw e (_, refl, c, refl, λ x. refl)
  | inr e ↦ rw e (delete_at-Refines env id ms c)
]
