-- ===== src/Store/Filters.antt =====
-- store/memory_store_filters.go and `List` of store/memory_store.go: which offers a request selects,
-- in which order, and which page of them is returned.
pub mod Listing
pub mod Shown
use Prim.Native.Nat.{Ordering}
use Prim.Native.String.{compare}
use margin_offer_system.Base.{
  ℕ, ◌+◌, ◌-◌, ◌*◌, suc, String, Bool, true, false, not, ◌&&◌, ◌||◌, Option, none, some, List, [],
  ◌∷◌, length, take, drop, if◌then◌else◌, ◌==◌, leb,
}
use margin_offer_system.Base.Int.{ℤ, pos, negsuc, ltb_ℤ, ◌+ℤ◌}
use margin_offer_system.Base.GoMap.{Assoc, entries}
use margin_offer_system.Base.Run.{Run, done, panic}
use margin_offer_system.Types.Float.{Float64, lt, le, zero_float}
use margin_offer_system.Types.Time.{Time, before}
use margin_offer_system.Types.Offer.{MarginOffer, is_expired, clone}
use margin_offer_system.Types.Filter.{ListRequest, default_request}
use margin_offer_system.Store.Memory.{MemoryStore}
use margin_offer_system.Store.Overwrite.{differs, differs_opt, too_early, too_late}

-- `req.MinX != nil && offer.X < *req.MinX`
abbrev pub too_small : Option Float64 → Float64 → Bool
too_small none x = false
too_small (some bound) x = lt x bound

-- `req.MaxX != nil && offer.X > *req.MaxX`
abbrev pub too_large : Option Float64 → Float64 → Bool
too_large none x = false
too_large (some bound) x = lt bound x

-- `matchesFilters`, with the two readings of the clock that its status checks make.
unfoldable pub matches_filters : Time → Time → MarginOffer → ListRequest → Bool
matches_filters now now' offer req =
    if differs req.offer_type offer.offer_type
    then false
    else if differs req.collateral_token offer.collateral_token
    then false
    else if differs req.borrow_token offer.borrow_token
    then false
    else if differs req.interest_model offer.interest_model
    then false
    else if differs req.liquidity_source offer.liquidity_source
    then false
    else if differs_opt req.lender_address offer.lender_address
    then false
    else if too_small req.min_borrow_amount offer.available_borrow_amount
    then false
    else if too_large req.max_borrow_amount offer.available_borrow_amount
    then false
    else if too_small req.min_interest_rate offer.interest_rate
    then false
    else if too_large req.max_interest_rate offer.interest_rate
    then false
    else if too_small req.min_max_open_ltv offer.max_open_ltv
    then false
    else if too_large req.max_max_open_ltv offer.max_open_ltv
    then false
    else if too_early req.created_after offer.created_timestamp
    then false
    else if too_late req.created_before offer.created_timestamp
    then false
    else if too_early req.updated_after offer.updated_timestamp
    then false
    else if too_late req.updated_before offer.updated_timestamp
    then false
    else if not req.include_expired && is_expired now offer
    then false
    else if req.active_only
        && (le offer.available_borrow_amount zero_float || is_expired now' offer)
    then false
    else true

-- `a < b` on texts, byte by byte.
abbrev pub text_lt : String → String → Bool
text_lt a b = elim (compare a b) [ Ordering.lt ↦ true | _ ↦ false ]

-- The `switch` of `sortOffers`.
unfoldable pub less_by : String → MarginOffer → MarginOffer → Bool
less_by sort_by a b =
    if sort_by == "created_timestamp"
    then before a.created_timestamp b.created_timestamp
    else if sort_by == "updated_timestamp"
    then before a.updated_timestamp b.updated_timestamp
    else if sort_by == "interest_rate"
    then lt a.interest_rate b.interest_rate
    else if sort_by == "available_borrow_amount"
    then lt a.available_borrow_amount b.available_borrow_amount
    else if sort_by == "max_open_ltv"
    then lt a.max_open_ltv b.max_open_ltv
    else if sort_by == "liquidation_ltv"
    then lt a.liquidation_ltv b.liquidation_ltv
    else if sort_by == "offer_type"
    then text_lt a.offer_type b.offer_type
    else if sort_by == "collateral_token"
    then text_lt a.collateral_token b.collateral_token
    else if sort_by == "borrow_token"
    then text_lt a.borrow_token b.borrow_token
    else text_lt a.id b.id

-- What the store takes from Go's library here: `strings.ToLower` and `sort.Slice`.
pub record Library : Type 0 where
  pub to_lower : String → String
  pub sort_slice : (MarginOffer → MarginOffer → Bool) → List MarginOffer → List MarginOffer

abbrev pub or_default : String → String → String
or_default text default = if text == "" then default else text

-- The comparison that `sortOffers` gives to `sort.Slice`.
unfoldable pub comparison : Library → String → String → MarginOffer → MarginOffer → Bool
unfolding less_by
comparison lib sort_by sort_order a b =
    let less = less_by (lib.to_lower (or_default sort_by "created_timestamp")) a b in
    if lib.to_lower (or_default sort_order "desc") == "asc" then less else not less

-- `sortOffers`
unfoldable pub sort_offers : Library → List MarginOffer → String → String → List MarginOffer
unfolding comparison
sort_offers lib offers sort_by sort_order =
    lib.sort_slice (comparison lib sort_by sort_order) offers

-- The loop of `List`: copies of the offers that match, each checked at its own two readings.
unfoldable pub matching : (ℕ → Time) → ℕ → ListRequest → Assoc MarginOffer → List MarginOffer
matching now i req [] = []
matching now i req ((_, offer) ∷ m) =
    let rest = matching now (i + 2) req m in
    if matches_filters (now i) (now (i + 1)) offer req then clone offer ∷ rest else rest

-- `offers[start:end]`, which panics out of range.
unfoldable pub slice : ℤ → ℤ → List MarginOffer → Run (List MarginOffer)
slice (negsuc a) end offers = panic
slice (pos a) (negsuc b) offers = panic
slice (pos a) (pos b) offers =
    if leb a b && leb b (length offers) then done (take (b - a) (drop a offers)) else panic

-- The pagination of `List`.
unfoldable pub page : ℤ → ℤ → List MarginOffer → Run (List MarginOffer)
unfolding slice ◌+ℤ◌
page offset limit offers =
    let end = offset +ℤ limit in
    if not (ltb_ℤ offset (pos (length offers)))
    then done []
    else slice offset (if ltb_ℤ (pos (length offers)) end then pos (length offers) else end) offers

-- `List` of a request that is there.
unfoldable pub list_request :
    Library → (ℕ → Time) → ListRequest → MemoryStore → Run (List MarginOffer)
unfolding sort_offers matching page
list_request lib now req ms =
    page req.offset req.limit
      (sort_offers lib (matching now 0 req (entries ms.offers)) req.sort_by req.sort_order)

abbrev pub request_or_default : Option ListRequest → ListRequest
request_or_default none = default_request
request_or_default (some req) = req

-- `List`
unfoldable pub list :
    Library → (ℕ → Time) → Option ListRequest → MemoryStore → Run (List MarginOffer)
unfolding list_request
list lib now req ms = list_request lib now (request_or_default req) ms
