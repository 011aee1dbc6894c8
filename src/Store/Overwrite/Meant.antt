-- ===== src/Store/Overwrite/Meant.antt =====
-- store/memory_store_upsert.go: an overwrite against what the criteria of its filter mean.
use mathlib.Core.Path.{fun_ext}
use margin_offer_system.Base.{
  ℕ, String, Bool, true, false, not, ◌&&◌, Option, none, some, List, ◌≡◌, refl, ◌∙◌, sym, ap, subst,
  if◌then◌else◌,
}
use margin_offer_system.Types.Time.{Time}
use margin_offer_system.Types.Offer.{MarginOffer}
use margin_offer_system.Types.Filter.{OverwriteFilter}
use margin_offer_system.Store.Memory.{MemoryStore, Env}
use margin_offer_system.Store.Memory.Invariant.{Table, table, IsConsistent}
use margin_offer_system.Store.Memory.Spec.{spec_after}
use margin_offer_system.Store.Upsert.{validate_all}
use margin_offer_system.Store.Upsert.Batch.{find_id, IsBatch, placed}
use margin_offer_system.Store.Upsert.Refine.{RefinesBatch}
use margin_offer_system.Store.Criteria.{agrees, agrees_opt, since, until, is_meant, guarded}
use margin_offer_system.Store.Overwrite.{
  differs, differs_opt, too_early, too_late, matches_overwrite_filter, is_selected,
  stamp_overwritten, bulk_overwrite_by_filter,
}
use margin_offer_system.Store.Overwrite.Selected.{kept}
use margin_offer_system.Store.Overwrite.Refine.{bulk_overwrite_by_filter-Refines}

-- The tests refuse what does not agree.
pub differs_lem :
    (wanted : Option String) (value : String) → differs wanted value ≡ not (agrees wanted value)
differs_lem none value = refl
differs_lem (some wanted) value = refl

pub differs_opt_lem :
    (wanted value : Option String) → differs_opt wanted value ≡ not (agrees_opt wanted value)
differs_opt_lem none value = refl
differs_opt_lem (some wanted) none = refl
differs_opt_lem (some wanted) (some value) = refl

pub not-not : (b : Bool) → b ≡ not (not b)
not-not true = refl
not-not false = refl

pub too_early_lem : (bound : Option Time) (t : Time) → too_early bound t ≡ not (since bound t)
too_early_lem none t = refl
too_early_lem (some bound) t = not-not _

pub too_late_lem : (bound : Option Time) (t : Time) → too_late bound t ≡ not (until bound t)
too_late_lem none t = refl
too_late_lem (some bound) t = not-not _

matches_overwrite_filter_lem :
    (offer : MarginOffer) (filter : OverwriteFilter)
    → filter.source ≡ none
    → matches_overwrite_filter offer filter ≡ is_meant filter offer
unfolding matches_overwrite_filter is_meant
matches_overwrite_filter_lem offer filter any =
    guarded _ (differs_lem filter.offer_type offer.offer_type) (
      guarded _ (differs_lem filter.collateral_token offer.collateral_token) (
        guarded _ (differs_lem filter.borrow_token offer.borrow_token) (
          guarded _ (differs_opt_lem filter.lender_address offer.lender_address) (
            guarded _ (differs_lem filter.liquidity_source offer.liquidity_source) (
              guarded _ (too_early_lem filter.created_after offer.created_timestamp) (
                guarded _ (too_late_lem filter.created_before offer.created_timestamp) (
                  guarded _ (too_early_lem filter.updated_after offer.updated_timestamp) (
                    guarded _ (too_late_lem filter.updated_before offer.updated_timestamp)
                      (sym (ap (λ s. agrees_opt s offer.source && true) any))))))))))

-- No filter, or one that does not ask for a source.
abbrev pub AsksNoSource : Option OverwriteFilter → Type 0
AsksNoSource none = Unit
AsksNoSource (some filter) = filter.source ≡ none

-- What is left under an ID when the offers that the filter means are gone: all go without a filter.
abbrev pub left_by : Option OverwriteFilter → Option MarginOffer → Option MarginOffer
left_by none o = none
left_by (some filter) none = none
left_by (some filter) (some o) = if is_meant filter o then none else some o

kept_left :
    (filter : Option OverwriteFilter)
    → AsksNoSource filter
    → (o : Option MarginOffer) → kept filter o ≡ left_by filter o
unfolding is_selected
kept_left none any none = refl
kept_left none any (some o) = refl
kept_left (some filter) any none = refl
kept_left (some filter) any (some o) = rw (matches_overwrite_filter_lem o filter any) refl

abbrev pub spec_replace : Time → List (Option MarginOffer) → Option OverwriteFilter → Table → Table
spec_replace now offers filter t x =
    placed (stamp_overwritten now) (find_id x offers) (left_by filter (t x))

-- On a consistent store, for a batch without nil offers and with different IDs, none of which
-- belongs to a stored offer that stays, and without a filter or with one that asks for no source,
-- BulkOverwriteByFilter either refuses the batch with the error of its validation and leaves the
-- table, or it takes out every offer, where there is no filter, or exactly those that meet all
-- criteria of the filter, the type, the two tokens, the lender, the liquidity source and the four
-- bounds of time, and puts in the batch. It leaves a consistent store.
pub bulk_overwrite_by_filter-Replaces :
    (print : ℕ → String) (env : Env) (offers : List (Option MarginOffer))
    → (filter : Option OverwriteFilter) (ms : MemoryStore) → IsConsistent ms
    → IsBatch offers
    → AsksNoSource filter
    → ((x : String) (o : MarginOffer)
        → find_id x offers ≡ some o
        → left_by filter (table ms x) ≡ none)
    → RefinesBatch (bulk_overwrite_by_filter print env offers filter ms) (
        spec_after
          (validate_all offers)
          (table ms)
          (none, spec_replace (env.now 0) offers filter (table ms)))
bulk_overwrite_by_filter-Replaces print env offers filter ms c b any free =
    subst
      (λ (t : Table).
        RefinesBatch (bulk_overwrite_by_filter print env offers filter ms)
          (spec_after (validate_all offers) (table ms) (none, t)))
      (fun_ext λ x.
        ap (placed (stamp_overwritten (env.now 0)) (find_id x offers))
          (kept_left filter any (table ms x)))
      (bulk_overwrite_by_filter-Refines print env offers filter ms c b
        (λ x o p. kept_left filter any (table ms x) ∙ free x o p))
