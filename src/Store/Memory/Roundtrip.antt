-- ===== src/Store/Memory/Roundtrip.antt =====
-- What `GetByID` sees of the writes.
use margin_offer_system.Base.{
  String, ◌≡◌, ◌≢◌, refl, false, Option, none, some, arith, ◌==◌, eq_iff, eq_refl, if◌then◌else◌,
  ◌∙◌, ap, sym,
}
use margin_offer_system.Base.Run.{done}
use margin_offer_system.Types.Error.{offer_not_found, missing_id}
use margin_offer_system.Types.Offer.{MarginOffer, validate, clone-id}
use margin_offer_system.Types.Offer.Laws.{id_of_validate}
use margin_offer_system.Store.Memory.{
  MemoryStore, Env, Reply, create, delete_offer, get_by_id, Found, found, failed, found_at,
}
use margin_offer_system.Store.Memory.Index.Tracks.{updated}
use margin_offer_system.Store.Memory.Invariant.{Table, table, IsConsistent}
use margin_offer_system.Store.Memory.Spec.{Outcome, stamp_created, spec_create, spec_delete}
use margin_offer_system.Store.Memory.Refine.{create-Refines, delete_offer-Refines}

-- The answer for an ID that is not empty, from what stands under it.
abbrev pub answered : Option MarginOffer → Found
answered none = failed offer_not_found
answered (some o) = found o

found_at-answered : (stored : Option MarginOffer) → found_at stored ≡ answered stored
unfolding found_at
found_at-answered none = refl
found_at-answered (some o) = ap found (clone-id o)

pub get_by_id_lem :
    (id : String) (ms : MemoryStore) → (id == "") ≡ false → get_by_id id ms ≡ answered (table ms id)
unfolding get_by_id
get_by_id_lem id ms ne = rw ne (found_at-answered (table ms id))

-- The answer depends on what stands under the ID alone.
get_by_id-agree :
    (id : String) (ms ms' : MemoryStore)
    → table ms id ≡ table ms' id
    → get_by_id id ms ≡ get_by_id id ms'
unfolding get_by_id
get_by_id-agree id ms ms' same =
    ap (λ (o : Option MarginOffer). if id == "" then failed missing_id else found_at o) same

absent_of_answered :
    (stored : Option MarginOffer) → answered stored ≡ failed offer_not_found → stored ≡ none
absent_of_answered none h = refl
absent_of_answered (some o) h = ground arith

present_of_answered :
    (stored : Option MarginOffer) {o : MarginOffer} → answered stored ≡ found o → stored ≡ some o
present_of_answered none h = ground arith
present_of_answered (some x) h = ground arith

-- What is left under the other IDs by a change under one.
updated_other :
    (id x : String) (o : Option MarginOffer) (t : Table) → x ≢ id → updated id o t x ≡ t x
updated_other id x o t ne = ground (arith, eq_iff id x)

updated_same : (id : String) (o : Option MarginOffer) (t : Table) → updated id o t id ≡ o
updated_same id o t = rw (eq_refl id) refl

-- On a consistent store without an offer under its ID, Create of a valid offer gives no error;
-- afterwards GetByID of that ID returns the offer with its two times set, and GetByID of every
-- other ID returns what it did before.
pub create-get_by_id :
    (env : Env) (o : MarginOffer) (ms : MemoryStore)
    → IsConsistent ms
    → validate o ≡ none
    → get_by_id o.id ms ≡ failed offer_not_found
    → (r : Reply) × (create env (some o) ms ≡ done r)
      × (r.error ≡ none)
      × (get_by_id o.id r.store ≡ found (stamp_created (env.now 0) o))
      × ((id : String) → id ≢ o.id → get_by_id id r.store ≡ get_by_id id ms)
create-get_by_id env o ms c v absent =
    let ne = id_of_validate o v in
    let empty : table ms o.id ≡ none =
      absent_of_answered (table ms o.id) (sym (get_by_id_lem o.id ms ne) ∙ absent) in
    let does : spec_create (env.now 0) (some o) (table ms)
        ≡ (none, updated o.id (some (stamp_created (env.now 0) o)) (table ms)) =
      rw (v, empty) refl in
    let (r, ran, _, e, t) = create-Refines env (some o) ms c in
    let t' : (x : String)
        → table r.store x ≡ updated o.id (some (stamp_created (env.now 0) o)) (table ms) x =
      λ x. t x ∙ ap (λ (out : Outcome). out.1 x) does in
    (
      r,
      ran,
      e ∙ ap (λ (out : Outcome). out.0) does,
      get_by_id_lem o.id r.store ne ∙ ap answered (t' o.id ∙ updated_same o.id _ (table ms)),
      λ x other. get_by_id-agree x r.store ms (t' x ∙ updated_other o.id x _ (table ms) other),
    )

-- On a consistent store, Delete of an ID that is not empty and under which GetByID finds an offer
-- gives no error; afterwards GetByID of that ID does not find it, and GetByID of every other ID
-- returns what it did before.
pub delete_offer-get_by_id :
    (env : Env) (id : String) (o : MarginOffer) (ms : MemoryStore)
    → IsConsistent ms
    → (id == "") ≡ false
    → get_by_id id ms ≡ found o
    → (r : Reply) × (delete_offer env id ms ≡ done r)
      × (r.error ≡ none)
      × (get_by_id id r.store ≡ failed offer_not_found)
      × ((x : String) → x ≢ id → get_by_id x r.store ≡ get_by_id x ms)
delete_offer-get_by_id env id o ms c ne there =
    let held : table ms id ≡ some o =
      present_of_answered (table ms id) (sym (get_by_id_lem id ms ne) ∙ there) in
    let does : spec_delete id (table ms) ≡ (none, updated id none (table ms)) =
      rw (ne, held) refl in
    let (r, ran, _, e, t) = delete_offer-Refines env id ms c in
    let t' : (x : String) → table r.store x ≡ updated id none (table ms) x =
      λ x. t x ∙ ap (λ (out : Outcome). out.1 x) does in
    (
      r,
      ran,
      e ∙ ap (λ (out : Outcome). out.0) does,
      get_by_id_lem id r.store ne ∙ ap answered (t' id ∙ updated_same id none (table ms)),
      λ x other. get_by_id-agree x r.store ms (t' x ∙ updated_other id x none (table ms) other),
    )
