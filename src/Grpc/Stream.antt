-- ===== src/Grpc/Stream.antt =====
-- `SubscribeMarginOffers` of store/grpc_server.go and `convertToProtobufEvent` of
-- store/notification_service.go: what a subscriber is sent, over the subscription's object.
pub mod Steps
pub mod Ordered
pub mod Asked
pub mod Closed
use mathlib.Core.Option
use margin_offer_system.Base.{
  ℕ, String, Bool, true, false, Option, none, some, List, [], ◌∷◌, ◌++◌, if◌then◌else◌,
}
use margin_offer_system.Base.GoMap.{Assoc}
use margin_offer_system.Base.Run.{Run, done, ◌>>=◌}
use margin_offer_system.Types.Time.{Time}
use margin_offer_system.Types.Offer.{MarginOffer}
use margin_offer_system.Grpc.Messages.{Timestamps, OfferMessage}
use margin_offer_system.Store.Notification.{
  ChangeType, ChangeEvent, unknown, created, updated, deleted, overwritten,
}
use margin_offer_system.Store.Subscriptions.{
  Message, change, heartbeat, Subscription, close_channel, deliver, send,
}

-- `MarginOfferChange_ChangeType`, by its numbers.
abbrev pub change_number : ChangeType → ℕ
change_number created = 1
change_number updated = 2
change_number deleted = 3
change_number overwritten = 4
change_number unknown = 0

-- `MarginOfferChange`
pub record ChangeMessage (Stamp : Type 0) : Type 0 where
  pub change_type : ℕ
  pub offer : Option (OfferMessage Stamp)
  pub timestamp : Stamp
  pub source : String
  pub operation_id : String
  pub metadata : Assoc String

-- `SubscribeMarginOffersResponse`; nothing is the nil pointer, which is sent as an empty message.
pub data Response (Stamp : Type 0) : Type 0 where
  change_response : ChangeMessage Stamp → Response Stamp
  heartbeat_response : Stamp → String → String → Response Stamp

-- What can happen to a subscription while its handler runs; an event is as its round sees it. The
-- handler receives when it is asked to and has something to receive.
pub data Happening : Type 0 where
  event : Time → ChangeEvent → Happening
  beat : Time → Happening
  close : Happening
  receive : Happening

-- The subscription, and what its handler has taken from the channel: a closed channel that is
-- empty gives nil.
pub record Streaming : Type 0 where
  pub subscription : Subscription
  pub taken : List (Option Message)

-- A round of the handler's loop, which waits where the channel is open and empty.
unfoldable pub take_next : List Message → Streaming → Streaming
take_next (m ∷ rest) p = record {
  subscription = record p.subscription { channel = rest };
  taken = p.taken ++ some m ∷ [];
}
take_next [] p = if p.subscription.closed then record p { taken = p.taken ++ none ∷ [] } else p

unfoldable pub happen : Happening → Streaming → Run Streaming
unfolding deliver send close_channel take_next
happen (event now e) p = do s ← deliver now e p.subscription; done (record p { subscription = s })
happen (beat now) p = do
  s ← send now (heartbeat now p.subscription.client_id p.subscription.session_id) p.subscription
  done (record p { subscription = s })
happen close p = do s ← close_channel p.subscription; done (record p { subscription = s })
happen receive p = done (take_next p.subscription.channel p)

unfoldable pub happen_all : List Happening → Streaming → Run Streaming
unfolding happen
happen_all [] p = done p
happen_all (h ∷ hs) p = do next ← happen h p; happen_all hs next

module _ (ts : Timestamps) where
  open ts use {Stamp, stamp}

  -- The offer of `convertToProtobufEvent`, without its source.
  unfoldable pub event_offer : MarginOffer → OfferMessage Stamp
  event_offer offer = record {
    id = offer.id;
    offer_type = offer.offer_type;
    collateral_token = offer.collateral_token;
    borrow_token = offer.borrow_token;
    available_borrow_amount = offer.available_borrow_amount;
    max_open_ltv = offer.max_open_ltv;
    liquidation_ltv = offer.liquidation_ltv;
    interest_rate = offer.interest_rate;
    interest_model = offer.interest_model;
    term_days = offer.term_days;
    liquidity_source = offer.liquidity_source;
    lender_address = offer.lender_address;
    last_borrowed_timestamp = Option.map stamp offer.last_borrowed_timestamp;
    created_timestamp = some (stamp offer.created_timestamp);
    updated_timestamp = some (stamp offer.updated_timestamp);
    source = none;
  }

  -- `convertToProtobufEvent`
  unfoldable pub convert_to_protobuf_event : ChangeEvent → ChangeMessage Stamp
  unfolding event_offer
  convert_to_protobuf_event e = record {
    change_type = change_number e.change_type;
    offer = some (event_offer e.offer);
    timestamp = stamp e.timestamp;
    source = e.source;
    operation_id = e.operation_id;
    metadata = e.metadata;
  }

  -- A message as it is sent.
  unfoldable pub response_of : Message → Response Stamp
  unfolding convert_to_protobuf_event
  response_of (change e) = change_response (convert_to_protobuf_event e)
  response_of (heartbeat now client_id session_id) =
      heartbeat_response (stamp now) client_id session_id

  -- The confirmation that comes first, at the reading `now` of the clock.
  unfoldable pub initial_response : Time → Subscription → Response Stamp
  initial_response now s = change_response (record {
    change_type = 0;
    offer = none;
    timestamp = stamp now;
    source = "subscription_service";
    operation_id = s.id;
    metadata = ("message", "subscription_established") ∷ ("client_id", s.client_id) ∷ [];
  })

  unfoldable pub responses_of : List (Option Message) → List (Option (Response Stamp))
  unfolding response_of
  responses_of [] = []
  responses_of (m ∷ ms) = Option.map response_of m ∷ responses_of ms

  -- What the handler has sent: every `stream.Send` went through.
  unfoldable pub sent : Time → Streaming → List (Option (Response Stamp))
  unfolding initial_response responses_of
  sent now p = some (initial_response now p.subscription) ∷ responses_of p.taken
