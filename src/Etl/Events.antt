-- ===== src/Etl/Events.antt =====
-- types/events.go: the events, with the fields that the processor reads, and their checks.
use Prim.Native.String
use margin_offer_system.Base.{String, Bool, Option, none, some, ◌==◌, if◌then◌else◌}
use margin_offer_system.Base.Int.{ℤ, pos, ltb_ℤ}
use margin_offer_system.Types.Float.{Float64}
use margin_offer_system.Types.Time.{Time}
use margin_offer_system.Types.Error.{Error, missing_id, invalid_event_data}
use margin_offer_system.Types.Offer.{MarginOffer}

-- The event's data about an offer is a pointer that the handler writes through.
pub record MarginOfferEvent : Type 0 where
  pub event_type : String
  pub offer_id : String
  pub transaction_hash : String
  pub timestamp : Time
  pub lender_address : String
  pub offer_data : Option MarginOffer
  pub retry_count : ℤ  -- int32

pub record LiquidityEvent : Type 0 where
  pub event_type : String
  pub offer_id : String
  pub transaction_hash : String
  pub timestamp : Time
  pub lender_address : String
  pub amount : Float64
  pub token : String
  pub new_total_amount : Float64

pub record InterestRateEvent : Type 0 where
  pub event_type : String
  pub offer_id : String
  pub transaction_hash : String
  pub timestamp : Time
  pub lender_address : String
  pub old_rate : Float64
  pub new_rate : Float64
  pub rate_model : String

-- The outcome of an event: the fields that are not times.
pub record ProcessingResult : Type 0 where
  pub success : Bool
  pub event_id : String
  pub error : String

-- `Validate`
unfoldable pub validate_event : MarginOfferEvent → Option Error
validate_event e =
    if e.offer_id == ""
    then some missing_id
    else if e.transaction_hash == ""
    then some invalid_event_data
    else if e.lender_address == ""
    then some invalid_event_data
    else none

abbrev pub event_key : String → String → String
event_key hash offer_id = String.◌++◌ hash (String.◌++◌ "_" offer_id)

-- `GetEventKey`
unfoldable pub get_event_key : MarginOfferEvent → String
get_event_key e = event_key e.transaction_hash e.offer_id

-- `IsRetryable`
unfoldable pub is_retryable : MarginOfferEvent → Bool
is_retryable e = ltb_ℤ e.retry_count (pos 3)
