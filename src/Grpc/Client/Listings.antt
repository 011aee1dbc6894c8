-- ===== src/Grpc/Client/Listings.antt =====
-- store/grpc_client.go: the methods of the client that read listings.

use mathlib.Core.List.{map}
use margin_offer_system.Base.{ℕ, false, String, Option, none, some, List, [], ◌∷◌}
use margin_offer_system.Base.Int.{ℤ, pos}
use margin_offer_system.Base.Run.{Run, done, panic, ◌>>=◌}
use margin_offer_system.Types.Float.{Float64, zero_float}
use margin_offer_system.Types.Offer.{MarginOffer}
use margin_offer_system.Types.Filter.{ListRequest}
use margin_offer_system.Grpc.Messages.{
  Timestamps, OfferMessage, ListMessage, ListResponse, StatusOr, reply, refused,
}
use margin_offer_system.Grpc.Client.{Call, convert_from_proto_margin_offer, page_of}

module _ (ts : Timestamps) where
  open ts use {Stamp}

  -- The offers of a page.
  unfoldable pub received_offers : ListResponse Stamp → List MarginOffer
  received_offers r = map (convert_from_proto_margin_offer ts) r.offers

  -- A request for `limit` offers from the first.
  abbrev pub first_page : ℤ → ListMessage Stamp
  first_page limit = record {
    limit = limit;
    offset = pos 0;
    sort_by = none;
    sort_order = none;
    offer_type = none;
    collateral_token = none;
    borrow_token = none;
    interest_model = none;
    liquidity_source = none;
    lender_address = none;
    source = none;
    min_borrow_amount = none;
    max_borrow_amount = none;
    min_interest_rate = none;
    max_interest_rate = none;
    created_after = none;
    created_before = none;
    include_expired = false;
    active_only = false;
  }

  -- The loop of `GetTotalLiquidity`: `add` is the addition of float64.
  unfoldable pub liquidity_of :
      (Float64 → Float64 → Float64) → Float64 → List (OfferMessage Stamp) → Float64
  liquidity_of add total [] = total
  liquidity_of add total (m ∷ ms) = liquidity_of add (add total m.available_borrow_amount) ms

module _ (ts : Timestamps) {S : Type 0} where
  open ts use {Stamp}

  -- A method that reads the response of `ListMarginOffers`.
  unfoldable pub read_listing {ℓ} :
      {A : Type ℓ}
      → (ListResponse Stamp → A)
      → Call S (ListMessage Stamp) (ListResponse Stamp)
      → ListMessage Stamp
      → S
      → Run (S × StatusOr A)
  read_listing read call m s = do
    answered ← call m s
    done (
      answered.0,
      (elim answered.1 [ refused c text ↦ refused c text | reply r ↦ reply (read r) ]),
    )

  -- The end of the four list methods: `narrow` sets what is asked for besides the page. A nil
  -- request is dereferenced.
  unfoldable pub remote_listing :
      (ListMessage Stamp → ListMessage Stamp)
      → Call S (ListMessage Stamp) (ListResponse Stamp)
      → Option ListRequest
      → S
      → Run (S × StatusOr (List MarginOffer))
  unfolding read_listing received_offers page_of
  remote_listing narrow call none s = panic
  remote_listing narrow call (some req) s =
      read_listing (received_offers ts) call (narrow (page_of ts req)) s

  -- `List`: of the request it sends the page and the order, and nothing else.
  unfoldable pub remote_list :
      Call S (ListMessage Stamp) (ListResponse Stamp)
      → Option ListRequest
      → S
      → Run (S × StatusOr (List MarginOffer))
  unfolding remote_listing
  remote_list = remote_listing (λ m. m)

  -- `ListByLender`
  unfoldable pub remote_list_by_lender :
      String
      → Call S (ListMessage Stamp) (ListResponse Stamp)
      → Option ListRequest
      → S
      → Run (S × StatusOr (List MarginOffer))
  unfolding remote_listing
  remote_list_by_lender lender = remote_listing (λ m. record m { lender_address = some lender })

  -- `ListByToken`
  unfoldable pub remote_list_by_token :
      String
      → String
      → Call S (ListMessage Stamp) (ListResponse Stamp)
      → Option ListRequest
      → S
      → Run (S × StatusOr (List MarginOffer))
  unfolding remote_listing
  remote_list_by_token collateral borrow =
      remote_listing
        (λ m. record m { collateral_token = some collateral; borrow_token = some borrow })

  -- `ListByOfferType`
  unfoldable pub remote_list_by_offer_type :
      String
      → Call S (ListMessage Stamp) (ListResponse Stamp)
      → Option ListRequest
      → S
      → Run (S × StatusOr (List MarginOffer))
  unfolding remote_listing
  remote_list_by_offer_type kind = remote_listing (λ m. record m { offer_type = some kind })

  -- `Count`
  unfoldable pub remote_count :
      Call S (ListMessage Stamp) (ListResponse Stamp) → S → Run (S × StatusOr ℕ)
  unfolding read_listing
  remote_count call = read_listing (λ r. r.total) call (first_page ts (pos 1))

  -- `CountByOfferType`
  unfoldable pub remote_count_by_offer_type :
      String → Call S (ListMessage Stamp) (ListResponse Stamp) → S → Run (S × StatusOr ℕ)
  unfolding read_listing
  remote_count_by_offer_type kind call =
      read_listing (λ r. r.total) call (record (first_page ts (pos 1)) { offer_type = some kind })

  -- `GetTotalLiquidity`
  unfoldable pub remote_get_total_liquidity :
      (Float64 → Float64 → Float64)
      → String
      → Call S (ListMessage Stamp) (ListResponse Stamp)
      → S
      → Run (S × StatusOr Float64)
  unfolding read_listing liquidity_of
  remote_get_total_liquidity add token call =
      read_listing (λ r. liquidity_of ts add zero_float r.offers) call
        (record (first_page ts (pos 10000)) { borrow_token = some token })
