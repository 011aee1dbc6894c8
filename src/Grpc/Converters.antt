-- ===== src/Grpc/Converters.antt =====
-- store/grpc_converters.go: the conversions of the server.
pub mod Laws
use Prim.Native.String
use mathlib.Core.Option
use margin_offer_system.Base.{ℕ, String, Bool, true, false, Option, none, some, ◌==◌, if◌then◌else◌}
use margin_offer_system.Base.Int.{ℤ, pos, ltb_ℤ}
use margin_offer_system.Types.Time.{Time, zero_time}
use margin_offer_system.Types.Offer.{MarginOffer}
use margin_offer_system.Types.Filter.{ListRequest, OverwriteFilter, default_request}
use margin_offer_system.Types.Pool.Bytes.{Decoded, ok, err, ◌>>=◌}
use margin_offer_system.Grpc.Messages.{Timestamps, OfferMessage, FilterMessage, ListMessage}

-- The switches over the two enumerations: a known text is kept.
unfoldable pub offer_type_of : String → Decoded String
offer_type_of text =
    if text == "V1"
    then ok "V1"
    else if text == "BP"
    then ok "BP"
    else if text == "LV"
    then ok "LV"
    else err (String.◌++◌ "invalid offer type: " text)

unfoldable pub interest_model_of : String → Decoded String
interest_model_of text =
    if text == "fixed"
    then ok "fixed"
    else if text == "floating"
    then ok "floating"
    else err (String.◌++◌ "invalid interest model: " text)

-- The same behind a nil check.
abbrev pub optional : (String → Decoded String) → Option String → Decoded (Option String)
optional check none = ok none
optional check (some text) = do known ← check text; ok (some known)

abbrev pub text_or_empty : Option String → String
text_or_empty none = ""
text_or_empty (some text) = text

-- The bounds that `protoToListRequest` puts on a limit.
unfoldable pub page_limit : ℤ → ℤ
page_limit limit =
    let positive = if ltb_ℤ (pos 0) limit then limit else pos 100 in
    if ltb_ℤ (pos 1000) positive then pos 1000 else positive

module _ (ts : Timestamps) where
  open ts use {Stamp, stamp, as_time}

  -- `if x != nil { t := x.AsTime(); y = &t }`
  abbrev pub optional_time : Option Stamp → Option Time
  optional_time none = none
  optional_time (some s) = some (as_time (some s))

  abbrev pub time_or_zero : Option Stamp → Time
  time_or_zero none = zero_time
  time_or_zero (some s) = as_time (some s)

  -- `protoToMarginOffer`
  unfoldable pub proto_to_margin_offer : Option (OfferMessage Stamp) → Decoded MarginOffer
  unfolding offer_type_of interest_model_of
  proto_to_margin_offer none = err "proto offer is nil"
  proto_to_margin_offer (some proto) = do
    offer_type ← offer_type_of proto.offer_type
    interest_model ← interest_model_of proto.interest_model
    ok (record {
      id = proto.id;
      offer_type = offer_type;
      collateral_token = proto.collateral_token;
      borrow_token = proto.borrow_token;
      available_borrow_amount = proto.available_borrow_amount;
      max_open_ltv = proto.max_open_ltv;
      liquidation_ltv = proto.liquidation_ltv;
      interest_rate = proto.interest_rate;
      interest_model = interest_model;
      term_days = proto.term_days;
      liquidity_source = proto.liquidity_source;
      lender_address = proto.lender_address;
      last_borrowed_timestamp = optional_time proto.last_borrowed_timestamp;
      created_timestamp = time_or_zero proto.created_timestamp;
      updated_timestamp = time_or_zero proto.updated_timestamp;
      source = proto.source;
    })

  -- `marginOfferToProto`
  unfoldable pub margin_offer_to_proto : Option MarginOffer → Decoded (OfferMessage Stamp)
  margin_offer_to_proto none = err "offer is nil"
  margin_offer_to_proto (some offer) = ok (record {
    id = offer.id;
    offer_type = offer.offer_type;
    collateral_token = offer.collateral_token;
    borrow_token = offer.borrow_token;
    available_borrow_amount = offer.available_borrow_amount;
    max_open_ltv = offer.max_open_ltv;
    liquidation_ltv = offer.liquidation_ltv;
    interest_rate = offer.interest_rate;
    interest_model = offer.interest_model;
    term_days = offer.term_days;
    liquidity_source = offer.liquidity_source;
    lender_address = offer.lender_address;
    last_borrowed_timestamp = Option.map stamp offer.last_borrowed_timestamp;
    created_timestamp = some (stamp offer.created_timestamp);
    updated_timestamp = some (stamp offer.updated_timestamp);
    source = offer.source;
  })

  -- `protoToOverwriteFilter`
  unfoldable pub proto_to_overwrite_filter :
      Option (FilterMessage Stamp) → Decoded (Option OverwriteFilter)
  unfolding offer_type_of
  proto_to_overwrite_filter none = ok none
  proto_to_overwrite_filter (some proto) = do
    offer_type ← optional offer_type_of proto.offer_type
    ok (
        some (record {
          offer_type = offer_type;
          collateral_token = proto.collateral_token;
          borrow_token = proto.borrow_token;
          lender_address = proto.lender_address;
          liquidity_source = proto.liquidity_source;
          source = proto.source;
          created_after = optional_time proto.created_after;
          created_before = optional_time proto.created_before;
          updated_after = optional_time proto.updated_after;
          updated_before = optional_time proto.updated_before;
        }))

  -- `protoToListRequest`
  unfoldable pub proto_to_list_request : Option (ListMessage Stamp) → Decoded ListRequest
  unfolding offer_type_of interest_model_of page_limit
  proto_to_list_request none = ok default_request
  proto_to_list_request (some proto) = do
    offer_type ← optional offer_type_of proto.offer_type
    interest_model ← optional interest_model_of proto.interest_model
    ok (record {
      limit = page_limit proto.limit;
      offset = proto.offset;
      sort_by = text_or_empty proto.sort_by;
      sort_order = text_or_empty proto.sort_order;
      offer_type = offer_type;
      collateral_token = proto.collateral_token;
      borrow_token = proto.borrow_token;
      interest_model = interest_model;
      liquidity_source = proto.liquidity_source;
      lender_address = proto.lender_address;
      source = proto.source;
      min_borrow_amount = proto.min_borrow_amount;
      max_borrow_amount = proto.max_borrow_amount;
      min_interest_rate = proto.min_interest_rate;
      max_interest_rate = proto.max_interest_rate;
      min_max_open_ltv = none;
      max_max_open_ltv = none;
      created_after = optional_time proto.created_after;
      created_before = optional_time proto.created_before;
      updated_after = none;
      updated_before = none;
      include_expired = proto.include_expired;
      active_only = proto.active_only;
    })
