-- ===== src/Grpc/Server/Listing.antt =====
-- store/grpc_server.go: `ListMarginOffers`.
use margin_offer_system.Base.{ℕ, Option, none, some, List, [], ◌∷◌, if◌then◌else◌}
use margin_offer_system.Base.Int.{ℤ, pos, ltb_ℤ, ◌+ℤ◌, wrap_int32}
use margin_offer_system.Base.Run.{Run, done, ◌>>=◌}
use margin_offer_system.Types.Time.{Time}
use margin_offer_system.Types.Offer.{MarginOffer}
use margin_offer_system.Types.Filter.{ListRequest}
use margin_offer_system.Types.Pool.Bytes.{Decoded, ok, err}
use margin_offer_system.Store.Memory.{MemoryStore}
use margin_offer_system.Store.Bulk.{count_offers}
use margin_offer_system.Store.Filters.{Library, list}
use margin_offer_system.Grpc.Messages.{
  Timestamps, OfferMessage, ListMessage, ListResponse, StatusOr, reply, refused, invalid_argument,
  internal,
}
use margin_offer_system.Grpc.Converters.{margin_offer_to_proto, proto_to_list_request}

-- `listReq.Offset + listReq.Limit`, an int32.
unfoldable pub page_end : ListRequest → ℤ
page_end req = wrap_int32 (req.offset +ℤ req.limit)

module _ (ts : Timestamps) where
  open ts use {Stamp}

  -- The loop that converts the offers of a page.
  unfoldable pub convert_page : List MarginOffer → Decoded (List (OfferMessage Stamp))
  convert_page [] = ok []
  convert_page (o ∷ offers) =
      let rest = convert_page offers in
      elim (margin_offer_to_proto ts (some o)) [
        | err e ↦ err e
        | ok m ↦ elim rest [ err e ↦ err e | ok ms ↦ ok (m ∷ ms) ]
      ]

  -- The response with a page, where the store holds `total` offers.
  unfoldable pub list_response : ListRequest → ℕ → List MarginOffer → StatusOr (ListResponse Stamp)
  unfolding page_end convert_page
  list_response req total offers = elim (convert_page offers) [
    | err _ ↦ refused internal "failed to convert offer"
    | ok ms ↦
        let has_more = ltb_ℤ (page_end req) (pos total) in
        reply (record {
          offers = ms;
          total = total;
          limit = req.limit;
          offset = req.offset;
          has_more = has_more;
          next_offset = if has_more then some (page_end req) else none;
        })
  ]

  -- `ListMarginOffers`: `ms` is the store at the listing, and `counted` at the count.
  unfoldable pub list_margin_offers :
      Library
      → (ℕ → Time)
      → Option (ListMessage Stamp)
      → MemoryStore
      → MemoryStore
      → Run (StatusOr (ListResponse Stamp))
  unfolding list_response
  list_margin_offers lib now m ms counted = elim (proto_to_list_request ts m) [
    | err e ↦ done (refused invalid_argument e)
    | ok req ↦ do
      offers ← list lib now (some req) ms
      done (list_response req (count_offers counted) offers)
  ]
