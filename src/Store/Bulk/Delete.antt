-- ===== src/Store/Bulk/Delete.antt =====
-- `BulkDelete` implements its contract for any list of IDs, also one that names an ID twice.
use margin_offer_system.Base.{
  String, ◌≡◌, refl, Bool, true, false, Option, none, some, List, [], ◌∷◌, arith, ◌==◌, eq_iff,
  if◌then◌else◌, ◌∙◌, sym, ap, Option-cases, Bool-cases, inl, inr, ◌⊎◌,
}
use margin_offer_system.Base.GoMap.{get, delete}
use margin_offer_system.Base.Run.{done}
use margin_offer_system.Types.Error.{Error, missing_id, offer_not_found}
use margin_offer_system.Types.Offer.{MarginOffer}
use margin_offer_system.Store.Memory.{MemoryStore, Env, remove_from_indexes}
use margin_offer_system.Store.Memory.Index.{drop_opt}
use margin_offer_system.Store.Memory.Index.Tracks.{updated, Tracks-ext}
use margin_offer_system.Store.Memory.Index.Absent.{Tracks-drop_absent}
use margin_offer_system.Store.Memory.Invariant.{
  Table, table, IsConsistent, lender_of, pair_of, type_of, get-delete,
}
use margin_offer_system.Store.Memory.Spec.{spec_after}
use margin_offer_system.Store.Memory.Refine.{Refines, IsConsistent-touch, erase_lem}
use margin_offer_system.Store.Bulk.{collected, missing, collect_ids, delete_ids, bulk_delete}

-- The error of the first ID of the list that is empty or not stored.
abbrev pub bad_id : List String → Table → Option Error
bad_id [] t = none
bad_id (id ∷ ids) t =
    if id == ""
    then some missing_id
    else elim (t id) [ none ↦ some offer_not_found | some _ ↦ bad_id ids t ]

abbrev pub is_listed : String → List String → Bool
is_listed x [] = false
is_listed x (id ∷ ids) = if id == x then true else is_listed x ids

abbrev AreOld : Table → List String → List MarginOffer → Type 0
AreOld t [] [] = Unit
AreOld t (id ∷ ids) (old ∷ olds) = (t id ≡ some old) × AreOld t ids olds
AreOld t _ _ = ⊥

collect_ids_missing :
    (ids : List String) (ms : MemoryStore) {e : Error}
    → bad_id ids (table ms) ≡ some e
    → collect_ids ids ms ≡ missing e
unfolding collect_ids
collect_ids_missing [] ms h = cc
collect_ids_missing (id ∷ ids) ms {e} h = ground (arith, collect_ids_missing ids ms {e = e})

collect_ids_collected :
    (ids : List String) (ms : MemoryStore)
    → bad_id ids (table ms) ≡ none
    → (olds : List MarginOffer) × (collect_ids ids ms ≡ collected olds) × AreOld (table ms) ids olds
unfolding collect_ids
collect_ids_collected [] ms h = ([], refl, tt)
collect_ids_collected (id ∷ ids) ms h = elim (Option-cases (table ms id)) [
  | inl e ↦ ground arith
  | inr (old, e) ↦
      let (olds, s, a) = collect_ids_collected ids ms (ground arith) in
      elim (Bool-cases (id == "")) [
        | inl bad ↦ ground arith
        | inr good ↦ (old ∷ olds, rw (good, e, s) refl, (e, a))
      ]
]

-- The indexes of an offer that is gone already.
erase_absent :
    (old : MarginOffer) (id : String) (ms : MemoryStore)
    → IsConsistent ms
    → old.id ≡ id
    → table ms id ≡ none
    → (removed : MemoryStore) × (remove_from_indexes old ms ≡ done removed)
      × IsConsistent (record removed { offers = delete id removed.offers })
      × ((x : String) → get x (delete id removed.offers) ≡ table ms x)
unfolding remove_from_indexes drop_opt
erase_absent old id ms c own h =
    let gone : table ms old.id ≡ none = ap (table ms) own ∙ h in
    let (lenders, e1, t1) = Tracks-drop_absent lender_of old (table ms) c.indexed.lenders gone in
    let (tokens, e2, t2) = Tracks-drop_absent pair_of old (table ms) c.indexed.tokens gone in
    let (types, e3, t3) = Tracks-drop_absent type_of old (table ms) c.indexed.types gone in
    let (tab, look) = get-delete id ms.offers c.is_table in
    let same : (x : String) → get x (delete id ms.offers) ≡ table ms x =
      λ x. ground (arith, look x, eq_iff id x) in
    (
      record ms { lender_index = lenders; token_index = tokens; offer_type_index = types },
      rw (e1, e2, e3) refl,
      record {
        is_table = tab;
        own_id = λ x o p. c.own_id x o (sym (same x) ∙ p);
        indexed = record {
          lenders = Tracks-ext lender_of (λ x. sym (same x)) t1;
          tokens = Tracks-ext pair_of (λ x. sym (same x)) t2;
          types = Tracks-ext type_of (λ x. sym (same x)) t3;
        };
      },
      same,
    )

-- One round of the loop, whether or not an earlier round took the same ID out.
erase_again :
    (old : MarginOffer) (id : String) (ms : MemoryStore)
    → IsConsistent ms
    → old.id ≡ id
    → (table ms id ≡ some old) ⊎ (table ms id ≡ none)
    → (removed : MemoryStore) × (remove_from_indexes old ms ≡ done removed)
      × IsConsistent (record removed { offers = delete id removed.offers })
      × ((x : String) → get x (delete id removed.offers) ≡ updated id none (table ms) x)
erase_again old id ms c own (inl h) = let (m, e, k, w, _) = erase_lem old id ms c h in (m, e, k, w)
erase_again old id ms c own (inr h) =
    let (m, e, k, w) = erase_absent old id ms c own h in
    (m, e, k, λ x. ground (arith, w x, eq_iff id x))

delete_ids_lem :
    (t : Table) (ids : List String) (olds : List MarginOffer) (ms : MemoryStore)
    → IsConsistent ms
    → ((x : String) (o : MarginOffer) → t x ≡ some o → o.id ≡ x)
    → ((x : String) → (table ms x ≡ t x) ⊎ (table ms x ≡ none))
    → AreOld t ids olds
    → (ms' : MemoryStore) × (delete_ids ids olds ms ≡ done ms')
      × IsConsistent ms'
      × ((x : String) → table ms' x ≡ (if is_listed x ids then none else table ms x))
unfolding delete_ids
delete_ids_lem t [] olds ms c own at h = (ms, refl, c, λ x. refl)
delete_ids_lem t (id ∷ ids) [] ms c own at h = elim h [ ]
delete_ids_lem t (id ∷ ids) (old ∷ olds) ms c own at h =
    let e : old.id ≡ id = own id old h.0 in
    let (removed, r, k, w) = erase_again old id ms c e (still (at id) h.0) in
    let (final, d, kf, wf) =
      delete_ids_lem t ids olds _ k own (λ x. ground (arith, w x, at x)) h.1 in
    (final, rw r d, kf, λ x. ground (arith, wf x, w x))
  where
    still :
        (table ms id ≡ t id) ⊎ (table ms id ≡ none)
        → t id ≡ some old
        → (table ms id ≡ some old) ⊎ (table ms id ≡ none)
    still (inl a) b = inl (a ∙ b)
    still (inr a) b = inr a

-- On a consistent store and for any list of IDs, also one that names an ID twice, BulkDelete
-- either ends with the error of the first ID that is empty or not stored and leaves the table, or
-- it takes exactly the listed IDs out of it. It leaves a consistent store.
pub bulk_delete-Refines :
    (env : Env) (ids : List String) (ms : MemoryStore)
    → IsConsistent ms
    → Refines (bulk_delete env ids ms) (
        spec_after
          (bad_id ids (table ms))
          (table ms)
          (none, λ x. if is_listed x ids then none else table ms x))
unfolding bulk_delete
bulk_delete-Refines env [] ms c = (_, refl, c, refl, λ x. refl)
bulk_delete-Refines env (id ∷ ids) ms c = elim (Option-cases (bad_id (id ∷ ids) (table ms))) [
  | inr (x, e) ↦ rw (collect_ids_missing (id ∷ ids) ms e, e) (_, refl, c, refl, λ y. refl)
  | inl e ↦
      let (olds, s, a) = collect_ids_collected (id ∷ ids) ms e in
      let (final, d, k, w) =
        delete_ids_lem (table ms) (id ∷ ids) olds ms c c.own_id (λ x. inl refl) a in
      rw (e, s) (rw d (_, refl, IsConsistent-touch final _ _ k, refl, w))
]
