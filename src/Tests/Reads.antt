-- ===== src/Tests/Reads.antt =====
-- Runs of the operations that read.
use mathlib.Core.List.{Perm}
use mathlib.Core.List.Perm
use margin_offer_system.Base.{◌≡◌, refl, Bool, List, [], ◌∷◌, length, if◌then◌else◌}
use margin_offer_system.Base.Int.{◌+ℤ◌, scale}
use margin_offer_system.Base.GoMap.{entries}
use margin_offer_system.Types.Offer.{MarginOffer, clone, is_expired}
use margin_offer_system.Types.Time.{add_days}
use margin_offer_system.Types.Filter.{default_request}
use margin_offer_system.Store.Memory.Invariant.{lender_of}
use margin_offer_system.Store.Filters.{
  Library, comparison, matching, sort_offers, less_by, matches_filters,
}
use margin_offer_system.Store.Filters.Listing.{in_order}
use margin_offer_system.Store.Queries.{get_offers_by_lender_from_index}
use margin_offer_system.Store.Queries.Exact.{IsAnswer, get_offers_by_lender_from_index-IsAnswer}
use margin_offer_system.Tests.Data.{two_stored, two_stored-IsConsistent, env}

get_offers_by_lender_from_index-IsAnswer_example :
    IsAnswer lender_of "alice" two_stored (get_offers_by_lender_from_index "alice" two_stored)
get_offers_by_lender_from_index-IsAnswer_example =
    get_offers_by_lender_from_index-IsAnswer "alice" two_stored two_stored-IsConsistent

-- A sort that puts each offer before the first one it is less than.
place : (MarginOffer → MarginOffer → Bool) → MarginOffer → List MarginOffer → List MarginOffer
place less o [] = o ∷ []
place less o (p ∷ offers) =
    let rest = place less o offers in if less o p then o ∷ p ∷ offers else p ∷ rest

pub sort_slice : (MarginOffer → MarginOffer → Bool) → List MarginOffer → List MarginOffer
unfolding place
sort_slice less [] = []
sort_slice less (o ∷ offers) = place less o (sort_slice less offers)

-- Texts of the runs are in lower case already.
abbrev pub library : Library
library = record { to_lower = λ s. s; sort_slice = sort_slice }

two_listed : length (in_order library env.now default_request two_stored) ≡ 2
unfolding sort_offers comparison sort_slice place less_by matching entries matches_filters
    is_expired add_days clone ◌+ℤ◌ scale
two_listed = refl
