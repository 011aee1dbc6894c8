-- ===== src/Types/Filter.antt =====
-- `ListRequest` of types/requests.go and `OverwriteFilter` of types/interfaces.go.
use margin_offer_system.Base.{String, Bool, Option, none, false}
use margin_offer_system.Base.Int.{ℤ, pos}
use margin_offer_system.Types.Float.{Float64}
use margin_offer_system.Types.Time.{Time}

-- `offer_type` and `interest_model` have string types, so any text is a value of theirs. `limit`
-- and `offset` are of type int32.
pub record ListRequest : Type 0 where
  pub limit : ℤ
  pub offset : ℤ
  pub sort_by : String
  pub sort_order : String
  pub offer_type : Option String
  pub collateral_token : Option String
  pub borrow_token : Option String
  pub interest_model : Option String
  pub liquidity_source : Option String
  pub lender_address : Option String
  pub source : Option String
  pub min_borrow_amount : Option Float64
  pub max_borrow_amount : Option Float64
  pub min_interest_rate : Option Float64
  pub max_interest_rate : Option Float64
  pub min_max_open_ltv : Option Float64
  pub max_max_open_ltv : Option Float64
  pub created_after : Option Time
  pub created_before : Option Time
  pub updated_after : Option Time
  pub updated_before : Option Time
  pub include_expired : Bool
  pub active_only : Bool

pub record OverwriteFilter : Type 0 where
  pub offer_type : Option String
  pub collateral_token : Option String
  pub borrow_token : Option String
  pub lender_address : Option String
  pub liquidity_source : Option String
  pub source : Option String
  pub created_after : Option Time
  pub created_before : Option Time
  pub updated_after : Option Time
  pub updated_before : Option Time

-- The request that a handler uses when it is given none.
abbrev pub default_request : ListRequest
default_request = record {
  limit = pos 100;
  offset = pos 0;
  sort_by = "";
  sort_order = "";
  offer_type = none;
  collateral_token = none;
  borrow_token = none;
  interest_model = none;
  liquidity_source = none;
  lender_address = none;
  source = none;
  min_borrow_amount = none;
  max_borrow_amount = none;
  min_interest_rate = none;
  max_interest_rate = none;
  min_max_open_ltv = none;
  max_max_open_ltv = none;
  created_after = none;
  created_before = none;
  updated_after = none;
  updated_before = none;
  include_expired = false;
  active_only = false;
}

abbrev pub no_criteria : OverwriteFilter
no_criteria = record {
  offer_type = none;
  collateral_token = none;
  borrow_token = none;
  lender_address = none;
  liquidity_source = none;
  source = none;
  created_after = none;
  created_before = none;
  updated_after = none;
  updated_before = none;
}
