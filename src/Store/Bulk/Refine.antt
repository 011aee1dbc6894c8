-- ===== src/Store/Bulk/Refine.antt =====
-- `BulkCreate` and `BulkUpdate` implement their contracts: a batch is written whole, or an error
-- leaves the store as it was.
use margin_offer_system.Base.{
  String, ◌≡◌, refl, false, Option, none, some, List, [], ◌∷◌, arith, ◌==◌, eq_iff, Option-cases,
  inl, inr,
}
use margin_offer_system.Base.Run.{done}
use margin_offer_system.Types.Time.{Time}
use margin_offer_system.Types.Error.{Error, offer_already_exists, offer_not_found}
use margin_offer_system.Types.Offer.{MarginOffer}
use margin_offer_system.Store.Memory.{MemoryStore, Env}
use margin_offer_system.Store.Memory.Invariant.{Table, table, IsConsistent}
use margin_offer_system.Store.Memory.Spec.{spec_after}
use margin_offer_system.Store.Memory.Refine.{IsConsistent-touch, replace_lem}
use margin_offer_system.Store.Upsert.{validate_all}
use margin_offer_system.Store.Upsert.Batch.{find_id, IsBatch, placed, insert_all_lem}
use margin_offer_system.Store.Upsert.Refine.{
  RefinesBatch, after_batch_validation-Refines, stamp_upserted,
}
use margin_offer_system.Store.Bulk.{
  has_duplicate, validate_new, check_absent, stamp_new, bulk_create, collected, missing,
  collect_old, update_all, bulk_update,
}

-- The error of the first offer of a batch whose ID is stored.
abbrev pub conflict : List (Option MarginOffer) → Table → Option Error
conflict [] t = none
conflict (none ∷ offers) t = conflict offers t
conflict (some o ∷ offers) t = elim (t o.id) [
  | some _ ↦ some offer_already_exists
  | none ↦ conflict offers t
]

find_id_of_has_duplicate :
    (id : String) (offers : List (Option MarginOffer))
    → has_duplicate id offers ≡ false
    → find_id id offers ≡ none
unfolding has_duplicate find_id
find_id_of_has_duplicate id [] h = refl
find_id_of_has_duplicate id (none ∷ offers) h = find_id_of_has_duplicate id offers h
find_id_of_has_duplicate id (some o ∷ offers) h =
    ground (arith, find_id_of_has_duplicate id offers, eq_iff id o.id, eq_iff o.id id)

-- The validation of `BulkCreate` leaves only batches with different IDs.
pub validate_new-IsBatch :
    (offers : List (Option MarginOffer)) → validate_new offers ≡ none → IsBatch offers
unfolding validate_new
validate_new-IsBatch [] h = tt
validate_new-IsBatch (none ∷ offers) h = cc
validate_new-IsBatch (some o ∷ offers) h = (
  ground (arith, find_id_of_has_duplicate o.id offers),
  validate_new-IsBatch offers (ground arith),
)

pub check_absent_lem :
    (offers : List (Option MarginOffer)) (ms : MemoryStore)
    → IsBatch offers
    → check_absent offers ms ≡ done (conflict offers (table ms))
unfolding check_absent
check_absent_lem [] ms b = refl
check_absent_lem (none ∷ offers) ms b = elim b [ ]
check_absent_lem (some o ∷ offers) ms b = ground (arith, check_absent_lem offers ms b.1)

conflict-none :
    (offers : List (Option MarginOffer)) (t : Table)
    → conflict offers t ≡ none
    → (x : String) (o : MarginOffer) → find_id x offers ≡ some o
    → t x ≡ none
unfolding find_id
conflict-none [] t h x o p = cc
conflict-none (none ∷ offers) t h x o p = conflict-none offers t h x o p
conflict-none (some a ∷ offers) t h x o p =
    ground (arith, conflict-none offers t (ground arith) x o, eq_iff a.id x)

-- On a consistent store, BulkCreate either ends with the error of its validation, or with that of
-- an ID that is stored, and leaves the table, or it puts the whole batch into the table, stamped
-- with one time. It leaves a consistent store.
pub bulk_create-Refines :
    (env : Env) (offers : List (Option MarginOffer)) (ms : MemoryStore)
    → IsConsistent ms
    → RefinesBatch (bulk_create env offers ms) (
        spec_after (validate_new offers) (table ms) (
          spec_after
            (conflict offers (table ms))
            (table ms)
            (none, λ x. placed (stamp_new (env.now 0)) (find_id x offers) (table ms x))))
unfolding bulk_create
bulk_create-Refines env [] ms c =
    (_, refl, c, unfold validate_new in refl, λ x. unfold validate_new find_id in refl)
bulk_create-Refines env (o ∷ offers) ms c =
    after_batch_validation-Refines (validate_new (o ∷ offers)) (o ∷ offers) ms _ _ c (λ v.
      let b = validate_new-IsBatch (o ∷ offers) v in
      rw (check_absent_lem (o ∷ offers) ms b) (
        after_batch_validation-Refines (conflict (o ∷ offers) (table ms)) (o ∷ offers) ms _ _ c
          (λ free.
            let (final, e, i) =
              insert_all_lem (stamp_new (env.now 0)) (λ x. unfold stamp_new in refl) (o ∷ offers) ms
                c b (conflict-none (o ∷ offers) (table ms) free) in
            rw e (_, refl, IsConsistent-touch final _ _ i.consistent, refl, i.written))))

-- The error of the first offer of a batch whose ID is not stored.
abbrev pub absence : List (Option MarginOffer) → Table → Option Error
absence [] t = none
absence (none ∷ offers) t = absence offers t
absence (some o ∷ offers) t = elim (t o.id) [
  | none ↦ some offer_not_found
  | some _ ↦ absence offers t
]

-- The stored offers that the batch replaces, in its order.
abbrev AreOld : Table → List (Option MarginOffer) → List MarginOffer → Type 0
AreOld t [] [] = Unit
AreOld t (some o ∷ offers) (old ∷ olds) = (t o.id ≡ some old) × AreOld t offers olds
AreOld t _ _ = ⊥

collect_old_missing :
    (offers : List (Option MarginOffer)) (ms : MemoryStore) {e : Error}
    → IsBatch offers
    → absence offers (table ms) ≡ some e
    → collect_old offers ms ≡ done (missing e)
unfolding collect_old
collect_old_missing [] ms b h = cc
collect_old_missing (none ∷ offers) ms b h = elim b [ ]
collect_old_missing (some o ∷ offers) ms {e} b h =
    ground (arith, collect_old_missing offers ms {e = e} b.1)

collect_old_collected :
    (offers : List (Option MarginOffer)) (ms : MemoryStore)
    → IsBatch offers
    → absence offers (table ms) ≡ none
    → (olds : List MarginOffer) × (collect_old offers ms ≡ done (collected olds))
      × AreOld (table ms) offers olds
unfolding collect_old
collect_old_collected [] ms b h = ([], refl, tt)
collect_old_collected (none ∷ offers) ms b h = elim b [ ]
collect_old_collected (some o ∷ offers) ms b h = elim (Option-cases (table ms o.id)) [
  | inl e ↦ ground arith
  | inr (old, e) ↦
      let (olds, s, a) = collect_old_collected offers ms b.1 (ground arith) in
      (old ∷ olds, rw (e, s) refl, (e, a))
]

-- An update of the batch, where one of its offers has the ID; the creation time of the stored
-- offer stays.
abbrev pub rewritten : Time → Option MarginOffer → Option MarginOffer → Option MarginOffer
rewritten now none before = before
rewritten now (some o) before = some (stamp_upserted now before o)

AreOld-ext :
    (id : String) (t t' : Table) (offers : List (Option MarginOffer)) (olds : List MarginOffer)
    → ((x : String) → ((id == x) ≡ false) → t' x ≡ t x)
    → find_id id offers ≡ none
    → AreOld t offers olds
    → AreOld t' offers olds
unfolding find_id
AreOld-ext id t t' [] [] w f h = tt
AreOld-ext id t t' [] (old ∷ olds) w f h = elim h [ ]
AreOld-ext id t t' (none ∷ offers) olds w f h = elim h [ ]
AreOld-ext id t t' (some o ∷ offers) [] w f h = elim h [ ]
AreOld-ext id t t' (some o ∷ offers) (old ∷ olds) w f h = (
  ground (arith, w o.id, eq_iff o.id id, eq_iff id o.id, h.0),
  AreOld-ext id t t' offers olds w (ground arith) h.1,
)

update_all_lem :
    (now : Time) (offers : List (Option MarginOffer)) (olds : List MarginOffer) (ms : MemoryStore)
    → IsConsistent ms
    → IsBatch offers
    → AreOld (table ms) offers olds
    → (stamped : List (Option MarginOffer)) × (ms' : MemoryStore) × (update_all now offers olds ms
        ≡ done (stamped, ms'))
      × IsConsistent ms'
      × ((x : String) → table ms' x ≡ rewritten now (find_id x offers) (table ms x))
unfolding update_all find_id
update_all_lem now [] olds ms c b h = ([], ms, refl, c, λ x. refl)
update_all_lem now (none ∷ offers) olds ms c b h = elim b [ ]
update_all_lem now (some o ∷ offers) [] ms c b h = elim h [ ]
update_all_lem now (some o ∷ offers) (old ∷ olds) ms c b h =
    let new = stamp_upserted now (some old) o in
    let (removed, r, stored, s, w) = replace_lem old new ms c h.0 in
    let (stamped, final, e, k, wf) = update_all_lem now offers olds stored w.consistent b.1 (
      AreOld-ext o.id (table ms) (table stored) offers olds (λ x n. ground (arith, w.written x)) b.0
        h.1) in
    (
      some new ∷ stamped,
      final,
      rw (r, s, e) refl,
      k,
      λ x. ground (arith, wf x, w.written x, eq_iff o.id x, b.0, h.0),
    )

-- On a consistent store and for a batch without nil offers and with different IDs, BulkUpdate
-- either ends with the error of its validation, or with that of an ID that is not stored, and
-- leaves the table, or it rewrites the whole batch, each offer with the creation time that is
-- stored. It leaves a consistent store.
pub bulk_update-Refines :
    (env : Env) (offers : List (Option MarginOffer)) (ms : MemoryStore)
    → IsConsistent ms
    → IsBatch offers
    → RefinesBatch (bulk_update env offers ms) (
        spec_after (validate_all offers) (table ms) (
          spec_after
            (absence offers (table ms))
            (table ms)
            (none, λ x. rewritten (env.now 0) (find_id x offers) (table ms x))))
unfolding bulk_update
bulk_update-Refines env [] ms c b =
    (_, refl, c, unfold validate_all in refl, λ x. unfold validate_all find_id in refl)
bulk_update-Refines env (o ∷ offers) ms c b =
    after_batch_validation-Refines (validate_all (o ∷ offers)) (o ∷ offers) ms _ _ c (λ v.
      elim (Option-cases (absence (o ∷ offers) (table ms))) [
        | inr (x, e) ↦ rw (collect_old_missing (o ∷ offers) ms b e, e) (_, refl, c, refl, λ y. refl)
        | inl e ↦
            let (olds, s, a) = collect_old_collected (o ∷ offers) ms b e in
            let (stamped, final, u, k, w) = update_all_lem (env.now 0) (o ∷ offers) olds ms c b a in
            rw (e, s) (rw u (_, refl, IsConsistent-touch final _ _ k, refl, w))
      ])
