-- ===== src/Backfill/Requests.antt =====
-- backfillers/backfiller.go: the requests, and their check.
use margin_offer_system.Base.{
  ℕ, String, Bool, true, false, Option, none, some, List, [], ◌∷◌, ◌==◌, if◌then◌else◌,
}
use margin_offer_system.Base.Int.{ℤ, pos, ltb_ℤ}
use margin_offer_system.Types.Time.{Time, after}

pub record ChainParams : Type 0 where
  pub start_block : ℕ  -- uint64
  pub end_block : ℕ  -- uint64
  pub programs : List String
  pub network : String

pub record GlacierParams : Type 0 where
  pub vault_name : String
  pub archive_id : String
  pub job_id : String
  pub retrieval : Bool

pub record OffChainParams : Type 0 where
  pub api_endpoint : String
  pub headers : List (String × String)
  pub query_params : List (String × String)
  pub auth_token : String

pub record BackfillRequest : Type 0 where
  pub source : String
  pub start_time : Time
  pub end_time : Time
  pub batch_size : ℤ  -- int32
  pub dry_run : Bool
  pub chain_params : Option ChainParams
  pub glacier_params : Option GlacierParams
  pub off_chain_params : Option OffChainParams

abbrev pub default_batch_size : ℤ
default_batch_size = pos 1000

-- `validateBackfillRequest`, with the request as it is left.
unfoldable pub validate_backfill_request : BackfillRequest → BackfillRequest × Option String
validate_backfill_request req =
    if req.source == ""
    then (req, some "source is required")
    else if after req.start_time req.end_time
    then (req, some "start time must be before end time")
    else if ltb_ℤ (pos 0) req.batch_size
    then (req, none)
    else (record req { batch_size = default_batch_size }, none)

-- The request of `BackfillLatest` for a source, without its parameters.
abbrev pub latest : String → Time → Time → ℤ → BackfillRequest
latest source start_time end_time batch_size = record {
  source = source;
  start_time = start_time;
  end_time = end_time;
  batch_size = batch_size;
  dry_run = false;
  chain_params = none;
  glacier_params = none;
  off_chain_params = none;
}

abbrev pub on_mainnet : List String → ChainParams
on_mainnet programs = record {
  start_block = 0;
  end_block = 0;
  programs = programs;
  network = "mainnet";
}

-- The requests that `BackfillLatest` makes.
unfoldable pub latest_requests : Time → Time → List BackfillRequest
latest_requests start_time end_time =
    record (latest "chain" start_time end_time (pos 1000)) {
      chain_params = some (on_mainnet ("marginfi" ∷ "leverage" ∷ []));
    }
    ∷ record (latest "glacier" start_time end_time (pos 500)) {
      glacier_params = some (record {
        vault_name = "margin-offers-archive";
        archive_id = "";
        job_id = "";
        retrieval = true;
      });
    }
    ∷ record (latest "off-chain" start_time end_time (pos 1000)) {
      off_chain_params = some (record {
        api_endpoint = "https://api.example.com/margin-offers";
        headers = ("Authorization", "Bearer ${API_TOKEN}") ∷ [];
        query_params = [];
        auth_token = "";
      });
    }
    ∷ record (latest "chain" start_time end_time (pos 1000)) {
      chain_params = some (on_mainnet ("CRSeeBqjDnm3UPefJ9gxrtngTsnQRhEJiTA345Q83X3v" ∷ []));
    }
    ∷ []

-- `BackfillScheduleRequest`; the timeout is in nanoseconds.
pub record ScheduleRequest : Type 0 where
  pub name : String
  pub description : String
  pub schedule : String
  pub request : Option BackfillRequest
  pub enabled : Bool
  pub max_retries : ℤ
  pub timeout : ℤ
