-- ===== src/Store/Overwrite.antt =====
-- store/memory_store_upsert.go: the overwrite of the offers that a filter selects, its count and
-- its preview.
pub mod Selected
pub mod Refine
pub mod Meant
use margin_offer_system.Base.{
  ℕ, suc, String, Bool, true, false, not, Option, none, some, List, [], ◌∷◌, map, length,
  if◌then◌else◌, ◌==◌,
}
use margin_offer_system.Base.GoMap.{Assoc, delete, entries}
use margin_offer_system.Base.Run.{Run, done, ◌>>=◌}
use margin_offer_system.Types.Time.{Time, is_zero, before, after}
use margin_offer_system.Types.Offer.{MarginOffer}
use margin_offer_system.Types.Filter.{OverwriteFilter}
use margin_offer_system.Store.Notification.{ChangeEvent, overwritten}
use margin_offer_system.Store.Memory.{MemoryStore, Env, remove_from_indexes, notify}
use margin_offer_system.Store.Upsert.{BatchReply, validate_all, after_batch_validation, insert_all}

-- `filter.X != nil && offer.X != *filter.X`
abbrev pub differs : Option String → String → Bool
differs none value = false
differs (some wanted) value = not (value == wanted)

-- `filter.X != nil && (offer.X == nil || *offer.X != *filter.X)`
abbrev pub differs_opt : Option String → Option String → Bool
differs_opt none value = false
differs_opt (some wanted) none = true
differs_opt (some wanted) (some value) = not (value == wanted)

-- `filter.XAfter != nil && offer.X.Before(*filter.XAfter)`
abbrev pub too_early : Option Time → Time → Bool
too_early none t = false
too_early (some bound) t = before t bound

-- `filter.XBefore != nil && offer.X.After(*filter.XBefore)`
abbrev pub too_late : Option Time → Time → Bool
too_late none t = false
too_late (some bound) t = after t bound

-- `matchesOverwriteFilter`
unfoldable pub matches_overwrite_filter : MarginOffer → OverwriteFilter → Bool
matches_overwrite_filter offer filter =
    if differs filter.offer_type offer.offer_type
    then false
    else if differs filter.collateral_token offer.collateral_token
    then false
    else if differs filter.borrow_token offer.borrow_token
    then false
    else if differs_opt filter.lender_address offer.lender_address
    then false
    else if differs filter.liquidity_source offer.liquidity_source
    then false
    else if too_early filter.created_after offer.created_timestamp
    then false
    else if too_late filter.created_before offer.created_timestamp
    then false
    else if too_early filter.updated_after offer.updated_timestamp
    then false
    else if too_late filter.updated_before offer.updated_timestamp
    then false
    else true

-- Whether an offer is to be deleted: every one is, where there is no filter.
unfoldable pub is_selected : Option OverwriteFilter → MarginOffer → Bool
is_selected none offer = true
is_selected (some filter) offer = matches_overwrite_filter offer filter

unfoldable pub select : Option OverwriteFilter → Assoc MarginOffer → List MarginOffer
unfolding is_selected
select filter [] = []
select filter ((_, offer) ∷ m) =
    if is_selected filter offer then offer ∷ select filter m else select filter m

-- `identifyOffersToDelete`: the two loops over the map differ in `is_selected` alone.
unfoldable pub identify_offers_to_delete : Option OverwriteFilter → MemoryStore → List MarginOffer
unfolding select
identify_offers_to_delete filter ms = select filter (entries ms.offers)

-- The loop that takes the identified offers out.
unfoldable pub delete_all : List MarginOffer → MemoryStore → Run MemoryStore
delete_all [] ms = done ms
delete_all (offer ∷ offers) ms = do
  removed ← remove_from_indexes offer ms
  delete_all offers (record removed { offers = delete offer.id removed.offers })

-- The timestamps of a new offer: a creation time that is set is kept.
unfoldable pub stamp_overwritten : Time → MarginOffer → MarginOffer
stamp_overwritten now offer = record offer {
  created_timestamp = if is_zero offer.created_timestamp then now else offer.created_timestamp;
  updated_timestamp = now;
}

-- The notifications, one for each offer of the batch. `total` is the size of the batch as text,
-- and `i` the place of the first offer in it.
unfoldable pub notify_all : Env → ℕ → String → List (Option MarginOffer) → MemoryStore → MemoryStore
notify_all env i total [] ms = ms
notify_all env i total (none ∷ offers) ms = notify_all env (suc i) total offers ms
notify_all env i total (some offer ∷ offers) ms = notify_all env (suc i) total offers (
    notify
      (record {
        change_type = overwritten;
        pointer = env.pointers i;
        offer = offer;
        timestamp = env.now 0;
        source = "backfiller";
        operation_id = env.operation_id;
        metadata = ("method", "BulkOverwriteByFilter") ∷ ("total_offers", total) ∷ [];
      })
      ms)

-- `BulkOverwriteByFilter`. `print` is `fmt.Sprintf("%d", _)`.
unfoldable pub bulk_overwrite_by_filter :
    (ℕ → String)
    → Env
    → List (Option MarginOffer)
    → Option OverwriteFilter
    → MemoryStore
    → Run BatchReply
unfolding after_batch_validation identify_offers_to_delete
bulk_overwrite_by_filter print env offers filter ms =
    after_batch_validation (validate_all offers) offers ms (do
      cleared ← delete_all (identify_offers_to_delete filter ms) ms
      (stamped, stored) ← insert_all (stamp_overwritten (env.now 0)) offers cleared
      done (record {
        store = record (notify_all env 0 (print (length offers)) stamped stored) {
          last_update = env.now 0;
        };
        offers = stamped;
        error = none;
      }))

-- `BulkOverwrite`
unfoldable pub bulk_overwrite :
    (ℕ → String) → Env → List (Option MarginOffer) → MemoryStore → Run BatchReply
unfolding bulk_overwrite_by_filter
bulk_overwrite print env offers ms = bulk_overwrite_by_filter print env offers none ms

-- `GetOverwriteStats`
unfoldable pub get_overwrite_stats : Option OverwriteFilter → MemoryStore → ℕ
unfolding identify_offers_to_delete
get_overwrite_stats filter ms = length (identify_offers_to_delete filter ms)

-- `PreviewOverwrite`
unfoldable pub preview_overwrite : Option OverwriteFilter → MemoryStore → List String
unfolding identify_offers_to_delete
preview_overwrite filter ms = map (λ (o : MarginOffer). o.id) (identify_offers_to_delete filter ms)
