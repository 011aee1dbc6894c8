-- ===== src/Store/Memory/Index/Absent.antt =====
-- The removal of an ID that an index does not list changes nothing that a query can see.
use margin_offer_system.Base.{
  String, ◌≡◌, ◌≢◌, refl, Option, none, some, List, [], ◌∷◌, arith, eq_iff, ◌∙◌, ap,
}
use margin_offer_system.Base.GoMap.{nil_map, made, get}
use margin_offer_system.Base.Run.{done}
use margin_offer_system.Types.Offer.{MarginOffer}
use margin_offer_system.Store.Memory.Index.{
  IdIndex, ids_at, drop_id, drop_opt, count, remove_from_slice,
}
use margin_offer_system.Store.Memory.Index.Tracks.{
  Key, IsMade, Tracks, delete_if_empty_removed, drop_id_lem,
}

remove_from_slice_absent :
    (item : String) (slice : List String)
    → count item slice ≡ 0
    → remove_from_slice slice item ≡ slice
unfolding count remove_from_slice
remove_from_slice_absent item [] h = refl
remove_from_slice_absent item (v ∷ slice) h = ground (arith, remove_from_slice_absent item slice)

-- Two indexes that answer every query alike.
record SameIds (ix ix' : IdIndex) : Type 0 where
  allocated : IsMade ix'
  ids : (j : String) → ids_at j ix' ≡ ids_at j ix
  no_empty : (j : String) → get j ix ≢ some [] → get j ix' ≢ some []

drop_id_absent :
    (k id : String) (ix : IdIndex)
    → IsMade ix
    → count id (ids_at k ix) ≡ 0
    → (ix' : IdIndex) × (drop_id k id ix ≡ done ix') × SameIds ix ix'
drop_id_absent k id nil_map h c = elim h [ ]
drop_id_absent k id (made m) h c =
    let rest = remove_from_slice (ids_at k (made m)) id in
    let (m', e, at, keeps) = delete_if_empty_removed k rest m in
    (
      made m',
      drop_id_lem k id m ∙ ap done e,
      record {
        allocated = tt;
        ids =
            λ j. ground (arith, at j, remove_from_slice_absent id (ids_at k (made m)), eq_iff k j);
        no_empty = keeps;
      },
    )

drop_opt_absent :
    (key : Option String) (id : String) (ix : IdIndex)
    → IsMade ix
    → ((k : String) → count id (ids_at k ix) ≡ 0)
    → (ix' : IdIndex) × (drop_opt key id ix ≡ done ix') × SameIds ix ix'
unfolding drop_opt
drop_opt_absent none id ix h c =
    (ix, refl, record { allocated = h; ids = λ j. refl; no_empty = λ j n. n })
drop_opt_absent (some k) id ix h c = drop_id_absent k id ix h (c k)

pub Tracks-drop_absent :
    (key : Key) (o : MarginOffer) (table : String → Option MarginOffer) {ix : IdIndex}
    → Tracks key table ix
    → table o.id ≡ none
    → (ix' : IdIndex) × (drop_opt (key o) o.id ix ≡ done ix') × Tracks key table ix'
Tracks-drop_absent key o table {ix} t h =
    let (ix', e, s) =
      drop_opt_absent (key o) o.id ix t.allocated (λ k. ground (arith, t.counted k o.id)) in
    (
      ix',
      e,
      record {
        allocated = s.allocated;
        counted = λ k x. ap (count x) (s.ids k) ∙ t.counted k x;
        no_empty = λ k. s.no_empty k (t.no_empty k);
      },
    )
