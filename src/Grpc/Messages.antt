-- ===== src/Grpc/Messages.antt =====
-- proto/margin_offer.proto: the messages that the store's service takes and gives. A message holds
-- its times as timestamppb's values, which are a parameter; a pointer to a message is an option.
use margin_offer_system.Base.{ℕ, String, Bool, Option, some, List, ◌≡◌}
use margin_offer_system.Base.Int.{ℤ}
use margin_offer_system.Types.Float.{Float64}
use margin_offer_system.Types.Time.{Time}

-- timestamppb: `New`, and `AsTime`, which a nil pointer has, too.
pub record Timestamps : Type 1 where
  pub Stamp : Type 0
  pub stamp : Time → Stamp
  pub as_time : Option Stamp → Time

-- A time that is sent arrives as it was.
abbrev pub KeepsTimes : Timestamps → Type 0
KeepsTimes ts = (t : Time) → ts.as_time (some (ts.stamp t)) ≡ t

pub record OfferMessage (Stamp : Type 0) : Type 0 where
  pub id : String
  pub offer_type : String
  pub collateral_token : String
  pub borrow_token : String
  pub available_borrow_amount : Float64
  pub max_open_ltv : Float64
  pub liquidation_ltv : Float64
  pub interest_rate : Float64
  pub interest_model : String
  pub term_days : Option ℤ
  pub liquidity_source : String
  pub lender_address : Option String
  pub last_borrowed_timestamp : Option Stamp
  pub created_timestamp : Option Stamp
  pub updated_timestamp : Option Stamp
  pub source : Option String

pub record FilterMessage (Stamp : Type 0) : Type 0 where
  pub offer_type : Option String
  pub collateral_token : Option String
  pub borrow_token : Option String
  pub lender_address : Option String
  pub liquidity_source : Option String
  pub source : Option String
  pub created_after : Option Stamp
  pub created_before : Option Stamp
  pub updated_after : Option Stamp
  pub updated_before : Option Stamp

-- `ListMarginOffersRequest`
pub record ListMessage (Stamp : Type 0) : Type 0 where
  pub limit : ℤ  -- int32
  pub offset : ℤ  -- int32
  pub sort_by : Option String
  pub sort_order : Option String
  pub offer_type : Option String
  pub collateral_token : Option String
  pub borrow_token : Option String
  pub interest_model : Option String
  pub liquidity_source : Option String
  pub lender_address : Option String
  pub source : Option String
  pub min_borrow_amount : Option Float64
  pub max_borrow_amount : Option Float64
  pub min_interest_rate : Option Float64
  pub max_interest_rate : Option Float64
  pub created_after : Option Stamp
  pub created_before : Option Stamp
  pub include_expired : Bool
  pub active_only : Bool

-- `BulkOverwriteMarginOffersRequest`
pub record OverwriteMessage (Stamp : Type 0) : Type 0 where
  pub offers : List (Option (OfferMessage Stamp))
  pub filter : Option (FilterMessage Stamp)
  pub validate_all : Bool
  pub dry_run : Bool

-- `ListMarginOffersResponse`
pub record ListResponse (Stamp : Type 0) : Type 0 where
  pub offers : List (OfferMessage Stamp)
  pub total : ℕ  -- int64
  pub limit : ℤ  -- int32
  pub offset : ℤ  -- int32
  pub has_more : Bool
  pub next_offset : Option ℤ  -- int32

pub record UpsertResponse (Stamp : Type 0) : Type 0 where
  pub offer : OfferMessage Stamp
  pub was_created : Bool

pub record BulkError : Type 0 where
  pub index : ℤ  -- int32
  pub error : String

-- `BulkOperationResponse`
pub record BulkResponse : Type 0 where
  pub success_count : ℤ  -- int32
  pub failure_count : ℤ  -- int32
  pub errors : List BulkError
  pub processed_ids : List String

-- `BulkOverwriteResponse`
pub record OverwriteResponse : Type 0 where
  pub deleted_count : ℤ  -- int32
  pub created_count : ℤ  -- int32
  pub deleted_ids : List String
  pub created_ids : List String

-- `OverwritePreviewResponse`
pub record PreviewResponse : Type 0 where
  pub affected_count : ℤ  -- int32
  pub affected_ids : List String

-- The status that an operation ends with in place of a response.
pub data Code : Type 0 where
  invalid_argument not_found already_exists internal : Code

pub data StatusOr {ℓ} (A : Type ℓ) : Type ℓ where
  reply : A → StatusOr A
  refused : Code → String → StatusOr A
