-- ===== src/Store/Memory/Invariant.antt =====
-- The invariant of a store whose maps are allocated, and what the shared steps of the operations
-- (index updates, the write of an offer) do to it.
use margin_offer_system.Base.{
  String, ◌≡◌, refl, Option, none, some, arith, ◌==◌, eq_iff, if◌then◌else◌, ap, ◌∙◌,
}
use margin_offer_system.Base.GoMap.{
  IsDistinct, insert-IsDistinct, erase-IsDistinct, GoMap, nil_map, made, get, put, delete, insert,
  lookup-insert, lookup-erase,
}
use margin_offer_system.Base.Run.{done}
use margin_offer_system.Types.Offer.{MarginOffer, clone-id}
use margin_offer_system.Store.Memory.{
  MemoryStore, token_pair, add_to_indexes, remove_from_indexes, store_offer,
}
use margin_offer_system.Store.Memory.Index.{append_opt, drop_opt}
use margin_offer_system.Store.Memory.Index.Tracks.{
  Key, Tracks, updated, Tracks-append, Tracks-drop, Tracks-ext,
}

abbrev pub lender_of : Key
lender_of offer = offer.lender_address

abbrev pub pair_of : Key
pair_of offer = some (token_pair offer)

abbrev pub type_of : Key
type_of offer = some offer.offer_type

abbrev pub Table : Type 0
Table = String → Option MarginOffer

abbrev pub table : MemoryStore → Table
table ms id = get id ms.offers

-- The three indexes list what `t` holds.
pub record IsIndexed (t : Table) (ms : MemoryStore) : Type 0 where
  pub lenders : Tracks lender_of t ms.lender_index
  pub tokens : Tracks pair_of t ms.token_index
  pub types : Tracks type_of t ms.offer_type_index

-- The table of offers is a map that holds each offer under its ID.
abbrev pub IsTable : GoMap MarginOffer → Type 0
IsTable nil_map = ⊥
IsTable (made m) = IsDistinct m

pub record IsConsistent (ms : MemoryStore) : Type 0 where
  pub is_table : IsTable ms.offers
  pub own_id : (id : String) (o : MarginOffer) → table ms id ≡ some o → o.id ≡ id
  pub indexed : IsIndexed (table ms) ms

-- Two stores that differ in their indexes alone.
pub record SameRest (ms ms' : MemoryStore) : Type 0 where
  pub offers : ms'.offers ≡ ms.offers
  pub created_at : ms'.created_at ≡ ms.created_at
  pub last_update : ms'.last_update ≡ ms.last_update
  pub notification_service : ms'.notification_service ≡ ms.notification_service

module _ (t : Table) (o : MarginOffer) (ms : MemoryStore) (ix : IsIndexed t ms) where
  pub add_to_indexes_lem :
      t o.id ≡ none
      → (ms' : MemoryStore) × (add_to_indexes o ms ≡ done ms')
        × IsIndexed (updated o.id (some o) t) ms'
        × SameRest ms ms'
  unfolding add_to_indexes append_opt
  add_to_indexes_lem h =
      let (lenders, e1, t1) = Tracks-append lender_of o t ix.lenders h in
      let (tokens, e2, t2) = Tracks-append pair_of o t ix.tokens h in
      let (types, e3, t3) = Tracks-append type_of o t ix.types h in
      (
        record ms { lender_index = lenders; token_index = tokens; offer_type_index = types },
        rw (e1, e2, e3) refl,
        record { lenders = t1; tokens = t2; types = t3 },
        record {
          offers = refl;
          created_at = refl;
          last_update = refl;
          notification_service = refl;
        },
      )

  pub remove_from_indexes_lem :
      t o.id ≡ some o
      → (ms' : MemoryStore) × (remove_from_indexes o ms ≡ done ms')
        × IsIndexed (updated o.id none t) ms'
        × SameRest ms ms'
  unfolding remove_from_indexes drop_opt
  remove_from_indexes_lem h =
      let (lenders, e1, t1) = Tracks-drop lender_of o t ix.lenders h in
      let (tokens, e2, t2) = Tracks-drop pair_of o t ix.tokens h in
      let (types, e3, t3) = Tracks-drop type_of o t ix.types h in
      (
        record ms { lender_index = lenders; token_index = tokens; offer_type_index = types },
        rw (e1, e2, e3) refl,
        record { lenders = t1; tokens = t2; types = t3 },
        record {
          offers = refl;
          created_at = refl;
          last_update = refl;
          notification_service = refl;
        },
      )

pub get-put :
    (k : String) (v : MarginOffer) (m : GoMap MarginOffer)
    → IsTable m
    → (m' : GoMap MarginOffer) × (put k v m ≡ done m')
      × IsTable m'
      × ((j : String) → get j m' ≡ (if k == j then some v else get j m))
unfolding get put
get-put k v nil_map h = elim h [ ]
get-put k v (made m) h =
    (made (insert k v m), refl, insert-IsDistinct k v m h, λ j. lookup-insert k j v m)

pub get-delete :
    (k : String) (m : GoMap MarginOffer)
    → IsTable m
    → IsTable (delete k m)
      × ((j : String) → get j (delete k m) ≡ (if k == j then none else get j m))
unfolding get delete
get-delete k nil_map h = elim h [ ]
get-delete k (made m) h = (erase-IsDistinct k m h, λ j. lookup-erase k j m)

-- The store after a write of `o`: `o` stands under its ID, and the rest is as before.
pub record Writes (o : MarginOffer) (ms ms' : MemoryStore) : Type 0 where
  pub consistent : IsConsistent ms'
  pub written : (id : String) → table ms' id ≡ (if o.id == id then some o else table ms id)
  pub created_at : ms'.created_at ≡ ms.created_at
  pub last_update : ms'.last_update ≡ ms.last_update
  pub notification_service : ms'.notification_service ≡ ms.notification_service

-- A write into a table whose indexes do not list the offer's ID.
pub store_offer_lem :
    (o : MarginOffer) (ms : MemoryStore) (t : Table)
    → IsTable ms.offers
    → ((id : String) (x : MarginOffer) → table ms id ≡ some x → x.id ≡ id)
    → IsIndexed t ms
    → t o.id ≡ none
    → ((id : String) → updated o.id (some o) t id ≡ updated o.id (some o) (table ms) id)
    → (ms' : MemoryStore) × (store_offer o ms ≡ done ms') × Writes o ms ms'
unfolding store_offer
store_offer_lem o ms t tab own ix absent same =
    let (offers, e1, tab', look) = get-put o.id o ms.offers tab in
    let (ms', e2, ix', rest) =
      add_to_indexes_lem t o (record ms { offers = offers })
        (record { lenders = ix.lenders; tokens = ix.tokens; types = ix.types }) absent in
    let written : (id : String) → table ms' id ≡ (if o.id == id then some o else table ms id) =
      λ id. ap (λ (m : GoMap MarginOffer). get id m) rest.offers ∙ look id in
    let ext : (id : String) → updated o.id (some o) t id ≡ table ms' id =
      λ id. ground (arith, same id, written id) in
    (
      ms',
      rw (clone-id o, e1) e2,
      record {
        consistent = record {
          is_table = rw rest.offers tab';
          own_id = λ id x p. ground (arith, written id, own id x, eq_iff o.id id);
          indexed = record {
            lenders = Tracks-ext lender_of ext ix'.lenders;
            tokens = Tracks-ext pair_of ext ix'.tokens;
            types = Tracks-ext type_of ext ix'.types;
          };
        };
        written = written;
        created_at = rest.created_at;
        last_update = rest.last_update;
        notification_service = rest.notification_service;
      },
    )
