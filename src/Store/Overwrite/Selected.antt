-- ===== src/Store/Overwrite/Selected.antt =====
-- store/memory_store_upsert.go: the offers that an overwrite selects, and the loop that takes them
-- out.
use margin_offer_system.Base.{
  String, ◌≡◌, refl, Bool, true, false, Option, none, some, List, [], ◌∷◌, arith, ◌==◌, eq_iff,
  if◌then◌else◌, ◌∙◌, Bool-cases, inl, inr,
}
use margin_offer_system.Base.GoMap.{GoMap, nil_map, made, Assoc, lookup, get, entries, IsDistinct}
use margin_offer_system.Base.Run.{done}
use margin_offer_system.Types.Offer.{MarginOffer}
use margin_offer_system.Types.Filter.{OverwriteFilter}
use margin_offer_system.Store.Memory.{MemoryStore}
use margin_offer_system.Store.Memory.Index.Tracks.{updated}
use margin_offer_system.Store.Memory.Invariant.{Table, table, IsConsistent, IsTable}
use margin_offer_system.Store.Memory.Refine.{erase_lem}
use margin_offer_system.Store.Overwrite.{is_selected, select, identify_offers_to_delete, delete_all}

-- Whether one of the offers has the ID.
abbrev pub has_id : String → List MarginOffer → Bool
has_id x [] = false
has_id x (o ∷ offers) = if o.id == x then true else has_id x offers

-- Offers that the table holds, each once.
abbrev pub AreStored : Table → List MarginOffer → Type 0
AreStored t [] = Unit
AreStored t (o ∷ offers) = (t o.id ≡ some o) × (has_id o.id offers ≡ false) × AreStored t offers

AreStored-erase :
    (id : String) (t t' : Table) (offers : List MarginOffer)
    → ((x : String) → t' x ≡ updated id none t x)
    → has_id id offers ≡ false
    → AreStored t offers
    → AreStored t' offers
AreStored-erase id t t' [] w f h = tt
AreStored-erase id t t' (o ∷ offers) w f h = (
  ground (arith, w o.id, eq_iff o.id id, eq_iff id o.id, h.0),
  h.1,
  AreStored-erase id t t' offers w (ground arith) h.2,
)

-- The loop takes out the offers that it is given, and nothing else.
pub delete_all_lem :
    (offers : List MarginOffer) (ms : MemoryStore)
    → IsConsistent ms
    → AreStored (table ms) offers
    → (ms' : MemoryStore) × (delete_all offers ms ≡ done ms')
      × IsConsistent ms'
      × ((x : String) → table ms' x ≡ (if has_id x offers then none else table ms x))
      × (ms'.notification_service ≡ ms.notification_service)
unfolding delete_all
delete_all_lem [] ms c h = (ms, refl, c, λ x. refl, refl)
delete_all_lem (o ∷ offers) ms c h =
    let (removed, r, k, w, n) = erase_lem o o.id ms c h.0 in
    let (final, e, kf, wf, nf) =
      delete_all_lem offers _ k (AreStored-erase o.id (table ms) _ offers w h.1 h.2) in
    (final, rw r e, kf, λ x. ground (arith, wf x, w x), nf ∙ n)

abbrev pub chosen : Option OverwriteFilter → Option MarginOffer → Bool
chosen filter none = false
chosen filter (some o) = is_selected filter o

-- What is left under an ID when the selected offers are gone.
abbrev pub kept : Option OverwriteFilter → Option MarginOffer → Option MarginOffer
kept filter none = none
kept filter (some o) = if is_selected filter o then none else some o

abbrev OwnIds : Assoc MarginOffer → Type 0
OwnIds [] = Unit
OwnIds ((k, o) ∷ m) = (o.id ≡ k) × OwnIds m

OwnIds-of :
    (m : Assoc MarginOffer)
    → IsDistinct m
    → ((x : String) (o : MarginOffer) → lookup x m ≡ some o → o.id ≡ x)
    → OwnIds m
unfolding lookup
OwnIds-of [] d own = tt
OwnIds-of ((k, o) ∷ m) d own = (
  own k o (ground (arith, eq_iff k k)),
  OwnIds-of m d.1 (λ x p h. own x p (ground (arith, eq_iff k x, d.0))),
)

-- An ID is among those of the selected offers exactly when the offer under it is selected.
has_id-select :
    (filter : Option OverwriteFilter) (m : Assoc MarginOffer)
    → IsDistinct m
    → OwnIds m
    → (x : String) → has_id x (select filter m) ≡ chosen filter (lookup x m)
unfolding select lookup
has_id-select filter [] d own x = refl
has_id-select filter ((k, o) ∷ m) d own x =
    ground (arith, has_id-select filter m d.1 own.1 x, eq_iff k x, eq_iff o.id x, own.0, d.0)

AreStored-cons :
    (k : String) (v : MarginOffer) (m : Assoc MarginOffer) (offers : List MarginOffer)
    → lookup k m ≡ none
    → AreStored (λ x. lookup x m) offers
    → AreStored (λ x. lookup x ((k, v) ∷ m)) offers
unfolding lookup
AreStored-cons k v m [] h s = tt
AreStored-cons k v m (o ∷ offers) h s =
    (ground (arith, eq_iff k o.id, s.0, h), s.1, AreStored-cons k v m offers h s.2)

select-AreStored :
    (filter : Option OverwriteFilter) (m : Assoc MarginOffer)
    → IsDistinct m
    → OwnIds m
    → AreStored (λ x. lookup x m) (select filter m)
unfolding select
select-AreStored filter [] d own = tt
select-AreStored filter ((k, o) ∷ m) d own =
    let rest = AreStored-cons k o m (select filter m) d.0 (select-AreStored filter m d.1 own.1) in
    elim (Bool-cases (is_selected filter o)) [
      | inr e ↦ rw e rest
      | inl e ↦ rw e (
        unfold lookup in ground (arith, own.0, eq_iff k o.id),
        ground (arith, has_id-select filter m d.1 own.1 o.id, d.0, own.0),
        rest,
      )
    ]

-- The offers identified for deletion are stored, each once, and are those that are selected.
pub identified :
    (filter : Option OverwriteFilter) (ms : MemoryStore)
    → IsConsistent ms
    → AreStored (table ms) (identify_offers_to_delete filter ms)
      × ((x : String) → has_id x (identify_offers_to_delete filter ms) ≡ chosen filter (table ms x))
unfolding lookup get entries identify_offers_to_delete
identified filter ms c = by_map ms.offers c.is_table c.own_id
  where
    by_map :
        (m : GoMap MarginOffer)
        → IsTable m
        → ((x : String) (o : MarginOffer) → get x m ≡ some o → o.id ≡ x)
        → AreStored (λ x. get x m) (select filter (entries m))
          × ((x : String) → has_id x (select filter (entries m)) ≡ chosen filter (get x m))
    by_map nil_map d own = elim d [ ]
    by_map (made m) d own =
        let ids = OwnIds-of m d own in
        (select-AreStored filter m d ids, has_id-select filter m d ids)
