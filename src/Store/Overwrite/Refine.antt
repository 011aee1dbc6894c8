-- ===== src/Store/Overwrite/Refine.antt =====
-- The overwrite implements its contract: what the filter selects goes, and the batch comes.
use margin_offer_system.Base.{
  ℕ, suc, String, ◌≡◌, refl, Option, none, some, List, [], ◌∷◌, if◌then◌else◌, ◌∙◌, ap, length,
  subst,
}
use mathlib.Core.Path.{fun_ext}
use margin_offer_system.Base.GoMap.{Assoc, entries}
use margin_offer_system.Types.Time.{Time}
use margin_offer_system.Types.Offer.{MarginOffer}
use margin_offer_system.Types.Filter.{OverwriteFilter, no_criteria}
use margin_offer_system.Store.Memory.{MemoryStore, Env, notify}
use margin_offer_system.Store.Memory.Invariant.{Table, table, IsConsistent}
use margin_offer_system.Store.Memory.Spec.{spec_after}
use margin_offer_system.Store.Memory.Refine.{IsConsistent-touch}
use margin_offer_system.Store.Upsert.{validate_all}
use margin_offer_system.Store.Upsert.Batch.{find_id, IsBatch, placed, stamped_all, insert_all_lem}
use margin_offer_system.Store.Upsert.Refine.{RefinesBatch, after_batch_validation-Refines}
use margin_offer_system.Store.Overwrite.{
  is_selected, select, identify_offers_to_delete, stamp_overwritten, notify_all,
  bulk_overwrite_by_filter, bulk_overwrite, matches_overwrite_filter,
}
use margin_offer_system.Store.Overwrite.Selected.{delete_all_lem, chosen, kept, identified}

kept_lem :
    (filter : Option OverwriteFilter) (o : Option MarginOffer)
    → (if chosen filter o then none else o) ≡ kept filter o
kept_lem filter none = refl
kept_lem filter (some o) = refl

kept-none : (o : Option MarginOffer) → kept none o ≡ none
unfolding is_selected
kept-none none = refl
kept-none (some o) = refl

-- Notifications change no offer.
notify_all-IsConsistent :
    (env : Env) (i : ℕ) (total : String) (offers : List (Option MarginOffer)) (ms : MemoryStore)
    → IsConsistent ms
    → IsConsistent (notify_all env i total offers ms)
      × ((x : String) → table (notify_all env i total offers ms) x ≡ table ms x)
unfolding notify_all notify
notify_all-IsConsistent env i total [] ms c = (c, λ x. refl)
notify_all-IsConsistent env i total (none ∷ offers) ms c =
    notify_all-IsConsistent env (suc i) total offers ms c
notify_all-IsConsistent env i total (some o ∷ offers) ms c =
    notify_all-IsConsistent env (suc i) total offers _ (IsConsistent-touch ms _ _ c)

abbrev pub spec_overwrite :
    Time → List (Option MarginOffer) → Option OverwriteFilter → Table → Table
spec_overwrite now offers filter t x =
    placed (stamp_overwritten now) (find_id x offers) (kept filter (t x))

-- On a consistent store and for a batch without nil offers and with different IDs, none of which
-- belongs to a stored offer that the filter leaves in place, BulkOverwriteByFilter either refuses
-- the batch with the error of its validation and leaves the table, or it takes out exactly the
-- offers that the filter selects and puts in the batch. It leaves a consistent store.
pub bulk_overwrite_by_filter-Refines :
    (print : ℕ → String) (env : Env) (offers : List (Option MarginOffer))
    → (filter : Option OverwriteFilter) (ms : MemoryStore) → IsConsistent ms
    → IsBatch offers
    → ((x : String) (o : MarginOffer) → find_id x offers ≡ some o → kept filter (table ms x) ≡ none)
    → RefinesBatch (bulk_overwrite_by_filter print env offers filter ms) (
        spec_after
          (validate_all offers)
          (table ms)
          (none, spec_overwrite (env.now 0) offers filter (table ms)))
unfolding bulk_overwrite_by_filter
bulk_overwrite_by_filter-Refines print env offers filter ms c b free =
    let (stored, ids) = identified filter ms c in
    let (cleared, e1, k1, w1, _) =
      delete_all_lem (identify_offers_to_delete filter ms) ms c stored in
    let left : (x : String) → table cleared x ≡ kept filter (table ms x) =
      λ x. w1 x ∙ rw (ids x) (kept_lem filter (table ms x)) in
    let (final, e2, i) =
      insert_all_lem (stamp_overwritten (env.now 0)) (λ o. unfold stamp_overwritten in refl) offers
        cleared k1 b (λ x o p. left x ∙ free x o p) in
    after_batch_validation-Refines (validate_all offers) offers ms _ _ c (λ v.
      let (k, same) =
        notify_all-IsConsistent env 0 (print (length offers))
          (stamped_all (stamp_overwritten (env.now 0)) offers) final i.consistent in
      rw (e1, e2)
        (
          _,
          refl,
          IsConsistent-touch _ _ _ k,
          refl,
          λ x.
              same x
              ∙ i.written x
              ∙ ap (placed (stamp_overwritten (env.now 0)) (find_id x offers)) (left x),
        ))

-- On a consistent store and for a batch without nil offers and with different IDs, BulkOverwrite
-- either refuses the batch with the error of its validation and leaves the table, or it leaves
-- exactly the batch in the table. It leaves a consistent store.
pub bulk_overwrite-Refines :
    (print : ℕ → String) (env : Env) (offers : List (Option MarginOffer)) (ms : MemoryStore)
    → IsConsistent ms
    → IsBatch offers
    → RefinesBatch (bulk_overwrite print env offers ms) (
        spec_after
          (validate_all offers)
          (table ms)
          (none, λ x. placed (stamp_overwritten (env.now 0)) (find_id x offers) none))
unfolding bulk_overwrite
bulk_overwrite-Refines print env offers ms c b =
    subst
      (λ (t : Table).
        RefinesBatch (bulk_overwrite_by_filter print env offers none ms)
          (spec_after (validate_all offers) (table ms) (none, t)))
      (fun_ext λ x.
        ap (placed (stamp_overwritten (env.now 0)) (find_id x offers)) (kept-none (table ms x)))
      (bulk_overwrite_by_filter-Refines print env offers none ms c b
        (λ x o p. kept-none (table ms x)))

-- The criterion `source` of a filter is never read.
pub matches_overwrite_filter-source :
    (offer : MarginOffer) (filter : OverwriteFilter) (s : Option String)
    → matches_overwrite_filter offer (record filter { source = s })
      ≡ matches_overwrite_filter offer filter
unfolding matches_overwrite_filter
matches_overwrite_filter-source offer filter s = refl

select-source :
    (s : Option String) (m : Assoc MarginOffer)
    → select (some (record no_criteria { source = s })) m ≡ select none m
unfolding select matches_overwrite_filter
select-source s [] = refl
select-source s ((k, o) ∷ m) = ap (◌∷◌ o) (select-source s m)

-- BulkOverwriteByFilter with a source as the only criterion does what BulkOverwrite does.
pub bulk_overwrite_by_source :
    (print : ℕ → String) (env : Env) (offers : List (Option MarginOffer))
    → (s : Option String) (ms : MemoryStore)
    → bulk_overwrite_by_filter print env offers (some (record no_criteria { source = s })) ms
      ≡ bulk_overwrite print env offers ms
unfolding bulk_overwrite bulk_overwrite_by_filter
bulk_overwrite_by_source print env offers s ms = rw (select-source s (entries ms.offers))
