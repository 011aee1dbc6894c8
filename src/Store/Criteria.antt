-- ===== src/Store/Criteria.antt =====
-- What the criteria of a filter, of a listing and of a subscription ask for, each as
-- docs/source_field_usage.md and the names of the fields say it, apart from the code that checks them.
use margin_offer_system.Base.{
  String, Bool, true, false, not, ◌&&◌, ◌||◌, Option, none, some, List, [], ◌∷◌, ◌≡◌, refl, ◌==◌,
  if◌then◌else◌,
}
use margin_offer_system.Types.Float.{Float64, lt, le, zero_float}
use margin_offer_system.Types.Time.{Time, before, after}
use margin_offer_system.Types.Offer.{MarginOffer, is_expired}
use margin_offer_system.Types.Filter.{OverwriteFilter, ListRequest}

-- A text is the one that is asked for, if one is.
abbrev pub agrees : Option String → String → Bool
agrees none value = true
agrees (some wanted) value = value == wanted

-- The same for a text that need not be there.
abbrev pub agrees_opt : Option String → Option String → Bool
agrees_opt none value = true
agrees_opt (some wanted) none = false
agrees_opt (some wanted) (some value) = value == wanted

-- Not before, not after, not below and not above a bound, if one is asked for.
abbrev pub since : Option Time → Time → Bool
since none t = true
since (some bound) t = not (before t bound)

abbrev pub until : Option Time → Time → Bool
until none t = true
until (some bound) t = not (after t bound)

abbrev pub at_least : Option Float64 → Float64 → Bool
at_least none x = true
at_least (some bound) x = not (lt x bound)

abbrev pub at_most : Option Float64 → Float64 → Bool
at_most none x = true
at_most (some bound) x = not (lt bound x)

abbrev pub all_hold : List Bool → Bool
all_hold [] = true
all_hold (b ∷ bs) = b && all_hold bs

-- The offers that an overwrite with a filter is to replace.
unfoldable pub is_meant : OverwriteFilter → MarginOffer → Bool
is_meant filter offer = all_hold (
    agrees filter.offer_type offer.offer_type
    ∷ agrees filter.collateral_token offer.collateral_token
    ∷ agrees filter.borrow_token offer.borrow_token
    ∷ agrees_opt filter.lender_address offer.lender_address
    ∷ agrees filter.liquidity_source offer.liquidity_source
    ∷ since filter.created_after offer.created_timestamp
    ∷ until filter.created_before offer.created_timestamp
    ∷ since filter.updated_after offer.updated_timestamp
    ∷ until filter.updated_before offer.updated_timestamp
    ∷ agrees_opt filter.source offer.source
    ∷ [])

-- The offers that a listing is to show, at the two readings of the clock that are made for one.
unfoldable pub is_listed : Time → Time → ListRequest → MarginOffer → Bool
is_listed now now' req offer = all_hold (
    agrees req.offer_type offer.offer_type
    ∷ agrees req.collateral_token offer.collateral_token
    ∷ agrees req.borrow_token offer.borrow_token
    ∷ agrees req.interest_model offer.interest_model
    ∷ agrees req.liquidity_source offer.liquidity_source
    ∷ agrees_opt req.lender_address offer.lender_address
    ∷ at_least req.min_borrow_amount offer.available_borrow_amount
    ∷ at_most req.max_borrow_amount offer.available_borrow_amount
    ∷ at_least req.min_interest_rate offer.interest_rate
    ∷ at_most req.max_interest_rate offer.interest_rate
    ∷ at_least req.min_max_open_ltv offer.max_open_ltv
    ∷ at_most req.max_max_open_ltv offer.max_open_ltv
    ∷ since req.created_after offer.created_timestamp
    ∷ until req.created_before offer.created_timestamp
    ∷ since req.updated_after offer.updated_timestamp
    ∷ until req.updated_before offer.updated_timestamp
    ∷ (req.include_expired || not (is_expired now offer))
    ∷ (not req.active_only
        || (not (le offer.available_borrow_amount zero_float) && not (is_expired now' offer)))
    ∷ agrees_opt req.source offer.source
    ∷ [])

-- A test that refuses what does not agree, before the others.
pub guarded :
    {d x : Bool} (a : Bool) {y : Bool} → d ≡ not a → x ≡ y → (if d then false else x) ≡ (a && y)
guarded true e h = rw e h
guarded false e h = rw e refl
