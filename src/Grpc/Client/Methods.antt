-- ===== src/Grpc/Client/Methods.antt =====
-- store/grpc_client.go: the methods of the client that write, `GetByID` and `GetOverwriteStats`.

use margin_offer_system.Base.{false, String, Option, none, some, List}
use margin_offer_system.Base.Int.{ℤ}
use margin_offer_system.Base.Run.{Run, done, ◌>>=◌}
use margin_offer_system.Types.Offer.{MarginOffer}
use margin_offer_system.Types.Filter.{OverwriteFilter}
use margin_offer_system.Grpc.Messages.{
  Timestamps, OfferMessage, FilterMessage, OverwriteMessage, UpsertResponse, BulkResponse,
  OverwriteResponse, PreviewResponse, StatusOr, reply, refused,
}
use margin_offer_system.Grpc.Client.{
  Failure, Call, error_of_call, convert_to_proto_margin_offer, convert_from_proto_margin_offer,
  convert_to_proto_overwrite_filter, convert_offers,
}

module _ (ts : Timestamps) where
  open ts use {Stamp}

  -- What `GetByID` makes of an answer.
  unfoldable pub received_offer : StatusOr (OfferMessage Stamp) → StatusOr MarginOffer
  unfolding convert_from_proto_margin_offer
  received_offer (refused c text) = refused c text
  received_offer (reply m) = reply (convert_from_proto_margin_offer ts m)

  -- The filter of a request, where one is given.
  abbrev pub sent_filter : Option OverwriteFilter → Option (FilterMessage Stamp)
  sent_filter none = none
  sent_filter (some filter) = some (convert_to_proto_overwrite_filter ts filter)

module _ (ts : Timestamps) {S : Type 0} where
  open ts use {Stamp}

  -- A method that converts an offer and reads the error of its call alone.
  unfoldable pub remote_write :
      {Response : Type 0}
      → Call S (Option (OfferMessage Stamp)) Response
      → Option MarginOffer
      → S
      → Run (S × Option Failure)
  unfolding convert_to_proto_margin_offer error_of_call
  remote_write call offer s = do
    m ← convert_to_proto_margin_offer ts offer
    error_of_call call (some m) s

  -- `Create`
  unfoldable pub remote_create :
      Call S (Option (OfferMessage Stamp)) (OfferMessage Stamp)
      → Option MarginOffer
      → S
      → Run (S × Option Failure)
  unfolding remote_write
  remote_create call = remote_write call

  -- `Update`
  unfoldable pub remote_update :
      Call S (Option (OfferMessage Stamp)) (OfferMessage Stamp)
      → Option MarginOffer
      → S
      → Run (S × Option Failure)
  unfolding remote_write
  remote_update call = remote_write call

  -- `CreateOrUpdate`
  unfoldable pub remote_create_or_update :
      Call S (Option (OfferMessage Stamp)) (UpsertResponse Stamp)
      → Option MarginOffer
      → S
      → Run (S × Option Failure)
  unfolding remote_write
  remote_create_or_update call = remote_write call

  -- `GetByID`
  unfoldable pub remote_get_by_id :
      Call S String (OfferMessage Stamp) → String → S → Run (S × StatusOr MarginOffer)
  unfolding received_offer
  remote_get_by_id call id s = do
    answered ← call id s
    done (answered.0, received_offer ts answered.1)

  -- A method that converts a batch and reads the error of its call alone.
  unfoldable pub remote_batch :
      Call S (List (Option (OfferMessage Stamp))) BulkResponse
      → List (Option MarginOffer)
      → S
      → Run (S × Option Failure)
  unfolding convert_offers error_of_call
  remote_batch call offers s = do ms ← convert_offers ts offers; error_of_call call ms s

  -- `BulkCreate`
  unfoldable pub remote_bulk_create :
      Call S (List (Option (OfferMessage Stamp))) BulkResponse
      → List (Option MarginOffer)
      → S
      → Run (S × Option Failure)
  unfolding remote_batch
  remote_bulk_create call = remote_batch call

  -- `BulkUpdate`
  unfoldable pub remote_bulk_update :
      Call S (List (Option (OfferMessage Stamp))) BulkResponse
      → List (Option MarginOffer)
      → S
      → Run (S × Option Failure)
  unfolding remote_batch
  remote_bulk_update call = remote_batch call

  -- `BulkCreateOrUpdate`
  unfoldable pub remote_bulk_create_or_update :
      Call S (List (Option (OfferMessage Stamp))) BulkResponse
      → List (Option MarginOffer)
      → S
      → Run (S × Option Failure)
  unfolding remote_batch
  remote_bulk_create_or_update call = remote_batch call

  -- `BulkOverwriteByFilter`
  unfoldable pub remote_bulk_overwrite_by_filter :
      Call S (OverwriteMessage Stamp) OverwriteResponse
      → List (Option MarginOffer)
      → Option OverwriteFilter
      → S
      → Run (S × Option Failure)
  unfolding convert_offers convert_to_proto_overwrite_filter error_of_call
  remote_bulk_overwrite_by_filter call offers filter s = do
    ms ← convert_offers ts offers
    error_of_call call
        (record {
          offers = ms;
          filter = sent_filter ts filter;
          validate_all = false;
          dry_run = false;
        })
        s

  -- `BulkOverwrite`
  unfoldable pub remote_bulk_overwrite :
      Call S (OverwriteMessage Stamp) OverwriteResponse
      → List (Option MarginOffer)
      → S
      → Run (S × Option Failure)
  unfolding convert_offers error_of_call
  remote_bulk_overwrite call offers s = do
    ms ← convert_offers ts offers
    error_of_call call
        (record { offers = ms; filter = none; validate_all = false; dry_run = false }) s

  -- `GetOverwriteStats`
  unfoldable pub remote_get_overwrite_stats :
      Call S (Option (FilterMessage Stamp)) PreviewResponse
      → Option OverwriteFilter
      → S
      → Run (S × StatusOr ℤ)
  unfolding convert_to_proto_overwrite_filter
  remote_get_overwrite_stats call filter s = do
    answered ← call (sent_filter ts filter) s
    done (
      answered.0,
      (elim answered.1 [ refused c text ↦ refused c text | reply r ↦ reply r.affected_count ]),
    )
