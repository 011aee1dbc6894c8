-- ===== src/Store/Upsert/Batch.antt =====
-- Batches of offers with different IDs, and the loop that stores one.
use margin_offer_system.Base.{
  String, ◌≡◌, refl, Option, none, some, List, [], ◌∷◌, arith, ◌==◌, eq_iff, if◌then◌else◌, ◌∙◌,
}
use margin_offer_system.Base.Run.{done}
use margin_offer_system.Types.Offer.{MarginOffer}
use margin_offer_system.Store.Memory.{MemoryStore}
use margin_offer_system.Store.Memory.Invariant.{table, IsConsistent}
use margin_offer_system.Store.Memory.Refine.{store_new_lem}
use margin_offer_system.Store.Upsert.{insert_all}

-- The first offer of a batch with the ID.
unfoldable pub find_id : String → List (Option MarginOffer) → Option MarginOffer
find_id x [] = none
find_id x (none ∷ offers) = find_id x offers
find_id x (some o ∷ offers) = if o.id == x then some o else find_id x offers

-- No offer is nil, and no two have one ID.
abbrev pub IsBatch : List (Option MarginOffer) → Type 0
IsBatch [] = Unit
IsBatch (none ∷ offers) = ⊥
IsBatch (some o ∷ offers) = (find_id o.id offers ≡ none) × IsBatch offers

-- What stands under an ID, once the offer of the batch with that ID, if any, has been written.
abbrev pub placed :
    (MarginOffer → MarginOffer) → Option MarginOffer → Option MarginOffer → Option MarginOffer
placed stamp none before = before
placed stamp (some o) before = some (stamp o)

-- The caller's offers after the loop.
abbrev pub stamped_all :
    (MarginOffer → MarginOffer) → List (Option MarginOffer) → List (Option MarginOffer)
stamped_all stamp [] = []
stamped_all stamp (none ∷ offers) = none ∷ stamped_all stamp offers
stamped_all stamp (some o ∷ offers) = some (stamp o) ∷ stamped_all stamp offers

pub record Inserts (stamp : MarginOffer → MarginOffer) (offers : List (Option MarginOffer))
    (ms ms' : MemoryStore) : Type 0 where
  pub consistent : IsConsistent ms'
  pub written : (x : String) → table ms' x ≡ placed stamp (find_id x offers) (table ms x)
  pub notification_service : ms'.notification_service ≡ ms.notification_service

-- A batch of new offers is stored whole.
pub insert_all_lem :
    (stamp : MarginOffer → MarginOffer)
    → ((o : MarginOffer) → (stamp o).id ≡ o.id)
    → (offers : List (Option MarginOffer)) (ms : MemoryStore) → IsConsistent ms
    → IsBatch offers
    → ((x : String) (o : MarginOffer) → find_id x offers ≡ some o → table ms x ≡ none)
    → (ms' : MemoryStore) × (insert_all stamp offers ms ≡ done (stamped_all stamp offers, ms'))
      × Inserts stamp offers ms ms'
unfolding insert_all find_id
insert_all_lem stamp keeps [] ms c b new =
    (ms, refl, record { consistent = c; written = λ x. refl; notification_service = refl })
insert_all_lem stamp keeps (none ∷ offers) ms c b new = elim b [ ]
insert_all_lem stamp keeps (some o ∷ offers) ms c b new =
    let (stored, s, w) =
      store_new_lem (stamp o) ms c (ground (arith, new o.id o, keeps o, eq_iff o.id o.id)) in
    let (final, e, i) =
      insert_all_lem stamp keeps offers stored w.consistent b.1
        (λ x p q. ground (arith, w.written x, keeps o, new x p, eq_iff o.id x, b.0)) in
    (
      final,
      rw (s, e) refl,
      record {
        consistent = i.consistent;
        written = λ x. ground (arith, i.written x, w.written x, keeps o, eq_iff o.id x, b.0);
        notification_service = i.notification_service ∙ w.notification_service;
      },
    )
