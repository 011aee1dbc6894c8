-- ===== src/Store/Upsert/Refine.antt =====
-- The upserts implement their contract, for one offer and for a batch in its order.
use margin_offer_system.Base.{
  ℕ, suc, String, ◌≡◌, refl, Option, none, some, List, [], ◌∷◌, arith, ◌==◌, if◌then◌else◌, ◌∙◌,
  Option-cases, inl, inr, ap,
}
use margin_offer_system.Base.Run.{Run, done}
use margin_offer_system.Types.Time.{Time, is_zero}
use margin_offer_system.Types.Error.{Error}
use margin_offer_system.Types.Offer.{MarginOffer, validate}
use margin_offer_system.Store.Memory.{MemoryStore, Env}
use margin_offer_system.Store.Memory.Index.Tracks.{updated}
use margin_offer_system.Store.Memory.Invariant.{Table, table, IsConsistent}
use margin_offer_system.Store.Memory.Spec.{Outcome, spec_checked, spec_after}
use margin_offer_system.Store.Memory.Refine.{
  Refines, IsConsistent-touch, store_new_lem, replace_lem, checked-Refines,
}
use margin_offer_system.Store.Upsert.{
  BatchReply, create_or_update_internal, create_or_update, validate_all, after_batch_validation,
  upsert_all, bulk_create_or_update,
}

-- The offer that an upsert stores: the creation time of the stored offer stays, and a new offer
-- keeps one that is set.
abbrev pub stamp_upserted : Time → Option MarginOffer → MarginOffer → MarginOffer
stamp_upserted now (some old) o = record o {
  created_timestamp = old.created_timestamp;
  updated_timestamp = now;
}
stamp_upserted now none o = record o {
  created_timestamp = if is_zero o.created_timestamp then now else o.created_timestamp;
  updated_timestamp = now;
}

abbrev pub spec_upsert : Time → MarginOffer → Table → Table
spec_upsert now o t = updated o.id (some (stamp_upserted now (t o.id) o)) t

-- A batch is upserted in its order, each offer at its own reading of the clock.
abbrev pub spec_upsert_all : Env → ℕ → List (Option MarginOffer) → Table → Table
spec_upsert_all env i [] t = t
spec_upsert_all env i (none ∷ offers) t = spec_upsert_all env (suc i) offers t
spec_upsert_all env i (some o ∷ offers) t =
    spec_upsert_all env (suc i) offers (spec_upsert (env.now i) o t)

internal_lem :
    (now : Time) (o : MarginOffer) (ms : MemoryStore)
    → IsConsistent ms
    → (ms' : MemoryStore) × (create_or_update_internal now o ms
        ≡ done (stamp_upserted now (table ms o.id) o, ms'))
      × IsConsistent ms'
      × ((x : String) → table ms' x ≡ spec_upsert now o (table ms) x)
      × (ms'.notification_service ≡ ms.notification_service)
unfolding create_or_update_internal
internal_lem now o ms c = elim (Option-cases (table ms o.id)) [
  | inr (old, e) ↦
      let (removed, r, stored, s, w) = replace_lem old (stamp_upserted now (some old) o) ms c e in
      rw (e, r, s)
        (_, refl, IsConsistent-touch stored _ _ w.consistent, w.written, w.notification_service)
  | inl e ↦
      let (stored, s, w) = store_new_lem (stamp_upserted now none o) ms c e in
      rw (e, s)
        (_, refl, IsConsistent-touch stored _ _ w.consistent, w.written, w.notification_service)
]

-- On a consistent store, CreateOrUpdate ends without a panic, with the error and the table that
-- its contract gives, and leaves a consistent store, for every argument, nil and invalid offers
-- included.
pub create_or_update-Refines :
    (env : Env) (offer : Option MarginOffer) (ms : MemoryStore)
    → IsConsistent ms
    → Refines
        (create_or_update env offer ms)
        (spec_checked (λ o t. (none, spec_upsert (env.now 0) o t)) offer (table ms))
unfolding create_or_update
create_or_update-Refines env offer ms c =
    checked-Refines _ _ ms c
      (λ o.
        let (stored, s, k, w, _) = internal_lem (env.now 0) o ms c in rw s (_, refl, k, refl, w))
      offer

spec_upsert_all-ext :
    (env : Env) (i : ℕ) (offers : List (Option MarginOffer)) {t t' : Table}
    → ((x : String) → t x ≡ t' x)
    → (x : String) → spec_upsert_all env i offers t x ≡ spec_upsert_all env i offers t' x
spec_upsert_all-ext env i [] h x = h x
spec_upsert_all-ext env i (none ∷ offers) h x = spec_upsert_all-ext env (suc i) offers h x
spec_upsert_all-ext env i (some o ∷ offers) {t} {t'} h x =
    spec_upsert_all-ext env (suc i) offers
      (λ y.
        ap
          (λ (z : Option MarginOffer).
            if o.id == y then some (stamp_upserted (env.now i) z o) else t y)
          (h o.id)
        ∙ ap
            (λ (z : Option MarginOffer).
              if o.id == y then some (stamp_upserted (env.now i) (t' o.id) o) else z)
            (h y))
      x

-- A batch without errors has a valid head and a tail without errors.
pub validate_all-cons :
    (o : MarginOffer) (offers : List (Option MarginOffer))
    → validate_all (some o ∷ offers) ≡ none
    → (validate o ≡ none) × (validate_all offers ≡ none)
unfolding validate_all
validate_all-cons o offers h = ground arith

upsert_all_lem :
    (env : Env) (i : ℕ) (offers : List (Option MarginOffer)) (ms : MemoryStore)
    → IsConsistent ms
    → validate_all offers ≡ none
    → (stamped : List (Option MarginOffer)) × (ms' : MemoryStore) × (upsert_all env i offers ms
        ≡ done (stamped, ms'))
      × IsConsistent ms'
      × ((x : String) → table ms' x ≡ spec_upsert_all env i offers (table ms) x)
      × (ms'.notification_service ≡ ms.notification_service)
unfolding upsert_all
upsert_all_lem env i [] ms c v = ([], ms, refl, c, λ x. refl, refl)
upsert_all_lem env i (none ∷ offers) ms c v = unfold validate_all in cc
upsert_all_lem env i (some o ∷ offers) ms c v =
    let (stored, s, k, w, n) = internal_lem (env.now i) o ms c in
    let (stamped, final, e, kf, wf, nf) =
      upsert_all_lem env (suc i) offers stored k (validate_all-cons o offers v).1 in
    (
      some (stamp_upserted (env.now i) (table ms o.id) o) ∷ stamped,
      final,
      rw (s, e) refl,
      kf,
      λ x. wf x ∙ spec_upsert_all-ext env (suc i) offers w x,
      nf ∙ n,
    )

abbrev pub RefinesBatch : Run BatchReply → Outcome → Type 0
RefinesBatch run spec =
    (r : BatchReply) × (run ≡ done r)
    × IsConsistent r.store
    × (r.error ≡ spec.0)
    × ((id : String) → table r.store id ≡ spec.1 id)

pub after_batch_validation-Refines :
    (e : Option Error) (offers : List (Option MarginOffer)) (ms : MemoryStore)
    → (rest : Run BatchReply) (spec : Outcome) → IsConsistent ms
    → (e ≡ none → RefinesBatch rest spec)
    → RefinesBatch (after_batch_validation e offers ms rest) (spec_after e (table ms) spec)
unfolding after_batch_validation
after_batch_validation-Refines none offers ms rest spec c h = h refl
after_batch_validation-Refines (some e) offers ms rest spec c h = (_, refl, c, refl, λ x. refl)

-- On a consistent store, BulkCreateOrUpdate refuses a batch with a nil or invalid offer as a
-- whole and leaves the table; else it upserts the offers in their order, IDs that repeat
-- included. It leaves a consistent store.
pub bulk_create_or_update-Refines :
    (env : Env) (offers : List (Option MarginOffer)) (ms : MemoryStore)
    → IsConsistent ms
    → RefinesBatch (bulk_create_or_update env offers ms) (
        spec_after (validate_all offers) (table ms) (none, spec_upsert_all env 0 offers (table ms)))
unfolding bulk_create_or_update
bulk_create_or_update-Refines env [] ms c =
    (_, refl, c, unfold validate_all in refl, λ x. unfold validate_all in refl)
bulk_create_or_update-Refines env (o ∷ offers) ms c =
    after_batch_validation-Refines (validate_all (o ∷ offers)) (o ∷ offers) ms _ _ c (λ v.
      let (stamped, final, e, k, w, _) = upsert_all_lem env 0 (o ∷ offers) ms c v in
      rw e (_, refl, IsConsistent-touch final _ _ k, refl, w))
