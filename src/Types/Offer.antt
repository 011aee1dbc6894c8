-- ===== src/Types/Offer.antt =====
-- types/margin_offer.go: the offer, its validation, expiry and copy.
pub mod Laws
use margin_offer_system.Base.{
  String, ◌≡◌, refl, Bool, false, ◌||◌, Option, none, some, ◌==◌, if◌then◌else◌,
}
use margin_offer_system.Base.Int.{ℤ}
use margin_offer_system.Types.Float.{Float64, lt, le, zero_float, one_float}
use margin_offer_system.Types.Time.{Time, after, add_days}
use margin_offer_system.Types.Error.{
  Error, missing_id, missing_collateral_token, missing_borrow_token, invalid_borrow_amount,
  invalid_max_open_ltv, invalid_liquidation_ltv, invalid_ltv_ratio, invalid_interest_rate,
  missing_liquidity_source,
}

-- A pointer to a value is an `Option`: no two offers of the model share what they point to.
pub record MarginOffer : Type 0 where
  pub id : String
  pub offer_type : String
  pub collateral_token : String
  pub borrow_token : String
  pub available_borrow_amount : Float64
  pub max_open_ltv : Float64
  pub liquidation_ltv : Float64
  pub interest_rate : Float64
  pub interest_model : String
  pub term_days : Option ℤ
  pub liquidity_source : String
  pub lender_address : Option String
  pub last_borrowed_timestamp : Option Time
  pub created_timestamp : Time
  pub updated_timestamp : Time
  pub source : Option String

-- `Validate`: the first check that fails gives the error.
unfoldable pub validate : MarginOffer → Option Error
validate mo =
    if mo.id == ""
    then some missing_id
    else if mo.collateral_token == ""
    then some missing_collateral_token
    else if mo.borrow_token == ""
    then some missing_borrow_token
    else if lt mo.available_borrow_amount zero_float
    then some invalid_borrow_amount
    else if lt mo.max_open_ltv zero_float || lt one_float mo.max_open_ltv
    then some invalid_max_open_ltv
    else if lt mo.liquidation_ltv zero_float || lt one_float mo.liquidation_ltv
    then some invalid_liquidation_ltv
    else if le mo.liquidation_ltv mo.max_open_ltv
    then some invalid_ltv_ratio
    else if lt mo.interest_rate zero_float
    then some invalid_interest_rate
    else if mo.liquidity_source == ""
    then some missing_liquidity_source
    else none

-- `UpdateTimestamp`, with the clock's reading.
unfoldable pub update_timestamp : Time → MarginOffer → MarginOffer
update_timestamp now mo = record mo { updated_timestamp = now }

-- `IsExpired`, with the clock's reading.
unfoldable pub is_expired : Time → MarginOffer → Bool
is_expired now mo = elim mo.term_days [
  | none ↦ false
  | some days ↦ after now (add_days mo.created_timestamp days)
]

-- `GetEffectiveLTV`
unfoldable pub get_effective_ltv : MarginOffer → Float64
get_effective_ltv mo = mo.max_open_ltv

-- A new variable with the value that the pointer points to.
copy_pointee : {A : Type 0} → Option A → Option A
copy_pointee none = none
copy_pointee (some a) = some a

-- `Clone`
unfoldable pub clone : MarginOffer → MarginOffer
unfolding copy_pointee
clone mo = record mo {
  term_days = copy_pointee mo.term_days;
  lender_address = copy_pointee mo.lender_address;
  last_borrowed_timestamp = copy_pointee mo.last_borrowed_timestamp;
  source = copy_pointee mo.source;
}

copy_pointee-id : {A : Type 0} (o : Option A) → copy_pointee o ≡ o
unfolding copy_pointee
copy_pointee-id none = refl
copy_pointee-id (some a) = refl

-- A copy has the value of its original.
pub clone-id : (mo : MarginOffer) → clone mo ≡ mo
unfolding clone
clone-id mo = λ i. record mo {
  term_days = copy_pointee-id mo.term_days i;
  lender_address = copy_pointee-id mo.lender_address i;
  last_borrowed_timestamp = copy_pointee-id mo.last_borrowed_timestamp i;
  source = copy_pointee-id mo.source i;
}
