-- ===== src/Types/Error.antt =====
-- The sentinel errors of types/errors.go.
use margin_offer_system.Base.{String, Option, none, some}

pub data Error : Type 0 where
  missing_id missing_collateral_token missing_borrow_token invalid_borrow_amount : Error
  invalid_max_open_ltv invalid_liquidation_ltv invalid_ltv_ratio invalid_interest_rate : Error
  missing_liquidity_source offer_not_found offer_already_exists invalid_offer_type : Error
  invalid_interest_model offer_expired insufficient_liquidity unauthorized_access : Error
  invalid_pagination_params internal_server_error service_unavailable : Error
  store_not_initialized store_connection_lost concurrent_modification : Error
  bulk_operation_failed chain_connection_failed event_processing_failed : Error
  invalid_event_data etl_pipeline_stopped backfill_source_unavailable : Error
  backfill_data_corrupted backfill_timeout invalid_backfill_range : Error

-- The text that `Error` gives for a sentinel.
abbrev pub error_text : Error → String
error_text missing_id = "missing margin offer ID"
error_text missing_collateral_token = "missing collateral token"
error_text missing_borrow_token = "missing borrow token"
error_text invalid_borrow_amount = "invalid borrow amount: must be non-negative"
error_text invalid_max_open_ltv = "invalid max open LTV: must be between 0 and 1"
error_text invalid_liquidation_ltv = "invalid liquidation LTV: must be between 0 and 1"
error_text invalid_ltv_ratio =
    "invalid LTV ratio: liquidation LTV must be greater than max open LTV"
error_text invalid_interest_rate = "invalid interest rate: must be non-negative"
error_text missing_liquidity_source = "missing liquidity source"
error_text offer_not_found = "margin offer not found"
error_text offer_already_exists = "margin offer already exists"
error_text invalid_offer_type = "invalid offer type"
error_text invalid_interest_model = "invalid interest model"
error_text offer_expired = "margin offer has expired"
error_text insufficient_liquidity = "insufficient liquidity available"
error_text unauthorized_access = "unauthorized access to margin offer"
error_text invalid_pagination_params = "invalid pagination parameters"
error_text internal_server_error = "internal server error"
error_text service_unavailable = "service temporarily unavailable"
error_text store_not_initialized = "store not initialized"
error_text store_connection_lost = "store connection lost"
error_text concurrent_modification = "concurrent modification detected"
error_text bulk_operation_failed = "bulk operation failed"
error_text chain_connection_failed = "failed to connect to blockchain"
error_text event_processing_failed = "failed to process blockchain event"
error_text invalid_event_data = "invalid event data received"
error_text etl_pipeline_stopped = "ETL pipeline has stopped"
error_text backfill_source_unavailable = "backfill data source unavailable"
error_text backfill_data_corrupted = "backfill data is corrupted"
error_text backfill_timeout = "backfill operation timed out"
error_text invalid_backfill_range = "invalid backfill time range"

-- The text of an error, where there is one.
abbrev pub text_of : Option Error → Option String
text_of none = none
text_of (some e) = some (error_text e)
