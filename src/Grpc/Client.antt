-- ===== src/Grpc/Client.antt =====
-- store/grpc_client.go: the store's client. The call that a method makes is an argument: it takes
-- the request and the server's state `S`, and gives the state and the answer.
pub mod Methods
pub mod Listings
pub mod Laws
pub mod Contract
use mathlib.Core.Option
use mathlib.Core.List.{map}
use margin_offer_system.Base.{
  ℕ, String, Bool, false, Option, none, some, List, [], ◌∷◌, ◌==◌, if◌then◌else◌,
}
use margin_offer_system.Base.Int.{ℤ, pos}
use margin_offer_system.Base.Run.{Run, done, panic, ◌>>=◌}
use margin_offer_system.Types.Float.{Float64, zero_float}
use margin_offer_system.Types.Offer.{MarginOffer}
use margin_offer_system.Types.Filter.{ListRequest, OverwriteFilter}
use margin_offer_system.Grpc.Messages.{
  Timestamps, OfferMessage, FilterMessage, ListMessage, OverwriteMessage, ListResponse,
  UpsertResponse, BulkResponse, OverwriteResponse, PreviewResponse, Code, StatusOr, reply, refused,
}

-- The status that a call ended with, where it is not OK.
abbrev pub Failure : Type 0
Failure = Code × String

abbrev pub Call : Type 0 → Type 0 → Type 0 → Type 0
Call S Request Response = Request → S → Run (S × StatusOr Response)

abbrev pub failure_of {ℓ} : {A : Type ℓ} → StatusOr A → Option Failure
failure_of (reply _) = none
failure_of (refused c text) = some (c, text)

-- A method that reads the error of its call alone.
unfoldable pub error_of_call :
    {S Request Response : Type 0} → Call S Request Response → Request → S → Run (S × Option Failure)
error_of_call call request s = do
  answered ← call request s
  done (answered.0, failure_of answered.1)

-- `Delete`
unfoldable pub remote_delete :
    {S : Type 0} → Call S String (Unit {0}) → String → S → Run (S × Option Failure)
unfolding error_of_call
remote_delete call = error_of_call call

-- `BulkDelete`
unfoldable pub remote_bulk_delete :
    {S : Type 0} → Call S (List String) BulkResponse → List String → S → Run (S × Option Failure)
unfolding error_of_call
remote_bulk_delete call = error_of_call call

module _ (ts : Timestamps) where
  open ts use {Stamp, stamp, as_time}

  -- `convertToProtoMarginOffer`, of a pointer that it dereferences. The source is left out.
  unfoldable pub convert_to_proto_margin_offer : Option MarginOffer → Run (OfferMessage Stamp)
  convert_to_proto_margin_offer none = panic
  convert_to_proto_margin_offer (some offer) = done (record {
    id = offer.id;
    offer_type = offer.offer_type;
    collateral_token = offer.collateral_token;
    borrow_token = offer.borrow_token;
    available_borrow_amount = offer.available_borrow_amount;
    max_open_ltv = offer.max_open_ltv;
    liquidation_ltv = offer.liquidation_ltv;
    interest_rate = offer.interest_rate;
    interest_model = offer.interest_model;
    term_days = offer.term_days;
    liquidity_source = offer.liquidity_source;
    lender_address = offer.lender_address;
    last_borrowed_timestamp = Option.map stamp offer.last_borrowed_timestamp;
    created_timestamp = some (stamp offer.created_timestamp);
    updated_timestamp = some (stamp offer.updated_timestamp);
    source = none;
  })

  -- `convertFromProtoMarginOffer`
  unfoldable pub convert_from_proto_margin_offer : OfferMessage Stamp → MarginOffer
  convert_from_proto_margin_offer m = record {
    id = m.id;
    offer_type = m.offer_type;
    collateral_token = m.collateral_token;
    borrow_token = m.borrow_token;
    available_borrow_amount = m.available_borrow_amount;
    max_open_ltv = m.max_open_ltv;
    liquidation_ltv = m.liquidation_ltv;
    interest_rate = m.interest_rate;
    interest_model = m.interest_model;
    term_days = m.term_days;
    liquidity_source = m.liquidity_source;
    lender_address = m.lender_address;
    last_borrowed_timestamp =
        Option.map (λ (s : Stamp). as_time (some s)) m.last_borrowed_timestamp;
    created_timestamp = as_time m.created_timestamp;
    updated_timestamp = as_time m.updated_timestamp;
    source = none;
  }

  -- `convertToProtoOverwriteFilter`. The source is left out.
  unfoldable pub convert_to_proto_overwrite_filter : OverwriteFilter → FilterMessage Stamp
  convert_to_proto_overwrite_filter filter = record {
    offer_type = filter.offer_type;
    collateral_token = filter.collateral_token;
    borrow_token = filter.borrow_token;
    lender_address = filter.lender_address;
    liquidity_source = filter.liquidity_source;
    source = none;
    created_after = Option.map stamp filter.created_after;
    created_before = Option.map stamp filter.created_before;
    updated_after = Option.map stamp filter.updated_after;
    updated_before = Option.map stamp filter.updated_before;
  }

  -- The loops that convert the offers of a batch.
  unfoldable pub convert_offers :
      List (Option MarginOffer) → Run (List (Option (OfferMessage Stamp)))
  unfolding convert_to_proto_margin_offer
  convert_offers [] = done []
  convert_offers (o ∷ offers) = do
    m ← convert_to_proto_margin_offer o
    rest ← convert_offers offers
    done (some m ∷ rest)

  -- What `List` asks for; the other list methods add to it.
  unfoldable pub page_of : ListRequest → ListMessage Stamp
  page_of req = record {
    limit = req.limit;
    offset = req.offset;
    sort_by = if req.sort_by == "" then none else some req.sort_by;
    sort_order = if req.sort_order == "" then none else some req.sort_order;
    offer_type = none;
    collateral_token = none;
    borrow_token = none;
    interest_model = none;
    liquidity_source = none;
    lender_address = none;
    source = none;
    min_borrow_amount = none;
    max_borrow_amount = none;
    min_interest_rate = none;
    max_interest_rate = none;
    created_after = none;
    created_before = none;
    include_expired = false;
    active_only = false;
  }
