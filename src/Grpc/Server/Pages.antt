-- ===== src/Grpc/Server/Pages.antt =====
-- store/grpc_server.go: the pages that `ListMarginOffers` gives, and a client that goes through them.
use mathlib.Core.List.{map}
use margin_offer_system.Base.{
  ℕ, String, zero, suc, ◌+◌, ◌<◌, ◌≤◌, ◌≡◌, refl, Option, none, some, List, [], ◌∷◌, arith, ◌∙◌,
  Bool-cases, inl, inr, if◌then◌else◌, take, drop,
}
use margin_offer_system.Base.Int.{ℤ, pos, ltb_ℤ, ◌+ℤ◌, wrap_int32, int32_of}
use margin_offer_system.Base.Run.{done, panic}
use margin_offer_system.Types.Time.{Time}
use margin_offer_system.Types.Offer.{MarginOffer}
use margin_offer_system.Types.Filter.{ListRequest}
use margin_offer_system.Types.Pool.Bytes.{ok, err, Decoded-cases}
use margin_offer_system.Store.Memory.{MemoryStore}
use margin_offer_system.Store.Bulk.{count_offers}
use margin_offer_system.Store.Filters.{Library, list}
use margin_offer_system.Store.Filters.Listing.{in_order, list_request_lem}
use margin_offer_system.Grpc.Messages.{Timestamps, ListMessage, ListResponse, reply, refused}
use margin_offer_system.Grpc.Converters.{margin_offer_to_proto, proto_to_list_request}
use margin_offer_system.Grpc.Converters.Laws.{message_of, proto_to_list_request_bounds}
use margin_offer_system.Grpc.Server.Listing.{
  page_end, convert_page, list_response, list_margin_offers,
}

int32_of_small : (n : ℕ) → n < 2147483648 → int32_of n ≡ pos n
unfolding int32_of
int32_of_small n h = ground arith

pos_add : (k n : ℕ) → pos k +ℤ pos n ≡ pos (k + n)
unfolding ◌+ℤ◌
pos_add k n = ground arith

page_end_lem :
    (req : ListRequest) {k n : ℕ}
    → req.offset ≡ pos k
    → req.limit ≡ pos n
    → k + n < 2147483648
    → page_end req ≡ pos (k + n)
unfolding page_end wrap_int32
page_end_lem req {k} {n} ho hl h = rw (ho, hl, pos_add k n) (int32_of_small (k + n) h)

module _ (ts : Timestamps) where
  open ts use {Stamp}

  convert_page_lem : (os : List MarginOffer) → convert_page ts os ≡ ok (map (message_of ts) os)
  unfolding convert_page margin_offer_to_proto
  convert_page_lem [] = refl
  convert_page_lem (o ∷ os) = rw (convert_page_lem os) refl

  -- The response with a page from the offset `k` of at most `n` offers, where `total` are counted.
  abbrev pub page_response : ℕ → ℕ → ℕ → List MarginOffer → ListResponse Stamp
  page_response k n total offers = record {
    offers = map (message_of ts) (take n (drop k offers));
    total = total;
    limit = pos n;
    offset = pos k;
    has_more = ltb_ℤ (pos (k + n)) (pos total);
    next_offset = if ltb_ℤ (pos (k + n)) (pos total) then some (pos (k + n)) else none;
  }

  list_response_lem :
      (req : ListRequest) {k n : ℕ} (total : ℕ) (offers : List MarginOffer)
      → req.offset ≡ pos k
      → req.limit ≡ pos n
      → k + n < 2147483648
      → list_response ts req total (take n (drop k offers)) ≡ reply (page_response k n total offers)
  unfolding list_response
  list_response_lem req {k} {n} total offers ho hl h =
      rw
        (list_response, convert_page_lem (take n (drop k offers)), page_end_lem req ho hl h, ho, hl)
        refl

  -- For a message that is converted to a request, with an offset that is not negative and 1000
  -- below 2^31, ListMarginOffers does not panic and replies with the messages of a page of the
  -- offers that match, in their order, with at most as many as the request's limit, which is from
  -- 1 to 1000; it has a next offset, the end of the page, exactly where this is below the count
  -- of all offers.
  pub list_margin_offers-page :
      (lib : Library) (now : ℕ → Time) (m : ListMessage Stamp) (ms counted : MemoryStore)
      → {req : ListRequest} {k : ℕ} → proto_to_list_request ts (some m) ≡ ok req
      → m.offset ≡ pos k
      → k + 1000 < 2147483648
      → (n : ℕ) × (req.limit ≡ pos n)
        × (0 < n)
        × (n ≤ 1000)
        × (list_margin_offers ts lib now (some m) ms counted
            ≡ done (reply (page_response k n (count_offers counted) (in_order lib now req ms))))
  unfolding list list_margin_offers
  list_margin_offers-page lib now m ms counted {req} {k} h at small =
      let (n, limited, low, high, kept) = proto_to_list_request_bounds ts m h in
      (
        n,
        limited,
        low,
        high,
        rw
            (
              list_margin_offers,
              h,
              list_request_lem lib now req ms (kept ∙ at) limited,
              list_response_lem req (count_offers counted) (in_order lib now req ms) (kept ∙ at)
                  limited (omega arith),
            )
            refl,
      )

  -- The request for the page from an offset.
  abbrev pub from_offset : ListMessage Stamp → ℤ → ListMessage Stamp
  from_offset m offset = record m { offset = offset }

  module _ (lib : Library) (clocks : ℕ → ℕ → Time) (listed counted : ℕ → MemoryStore) where
    -- A client that asks for the next page until there is none: the `i`-th request finds its own two
    -- stores. It gives the number of requests, or none where the fuel or the server gives out.
    unfoldable pub crawl : ℕ → ℕ → ListMessage Stamp → Option ℕ
    crawl zero i m = none
    crawl (suc fuel) i m =
        elim (list_margin_offers ts lib (clocks i) (some m) (listed i) (counted i)) [
          | panic ↦ none
          | done (refused _ _) ↦ some (suc i)
          | done (reply r) ↦ elim r.next_offset [
            | none ↦ some (suc i)
            | some offset ↦ crawl fuel (suc i) (from_offset m offset)
          ]
        ]

    crawl_more :
        (fuel i : ℕ) (m : ListMessage Stamp) (r : ListResponse Stamp) (offset : ℤ)
        → list_margin_offers ts lib (clocks i) (some m) (listed i) (counted i) ≡ done (reply r)
        → r.next_offset ≡ some offset
        → crawl (suc fuel) i m ≡ crawl fuel (suc i) (from_offset m offset)
    unfolding crawl
    crawl_more fuel i m r offset ran next = rw (crawl, ran, next) refl

    crawl_last :
        (fuel i : ℕ) (m : ListMessage Stamp) (r : ListResponse Stamp)
        → list_margin_offers ts lib (clocks i) (some m) (listed i) (counted i) ≡ done (reply r)
        → r.next_offset ≡ none
        → crawl (suc fuel) i m ≡ some (suc i)
    unfolding crawl
    crawl_last fuel i m r ran next = rw (crawl, ran, next) refl

    crawl_refused :
        (fuel i : ℕ) (m : ListMessage Stamp) (e : String)
        → proto_to_list_request ts (some m) ≡ err e
        → crawl (suc fuel) i m ≡ some (suc i)
    unfolding crawl list_margin_offers
    crawl_refused fuel i m e bad = rw (crawl, list_margin_offers, bad) refl

    -- A client that asks ListMarginOffers for the next offset until there is none, from an offset
    -- that is not negative, comes to an end without a panic, though each request may find other
    -- offers in the store and another clock: if no count is above a bound, and bound and offset
    -- are 1000 below 2^31, then a number of requests that is positive and takes the offset past
    -- the bound is enough.
    pub crawl_terminates :
        (fuel i : ℕ) (m : ListMessage Stamp) {k : ℕ} (largest : ℕ)
        → m.offset ≡ pos k
        → ((j : ℕ) → count_offers (counted j) ≤ largest)
        → k + 1000 < 2147483648
        → largest + 1000 < 2147483648
        → largest < k + fuel
        → 0 < fuel
        → (requests : ℕ) × (crawl fuel i m ≡ some requests) × (requests ≤ i + fuel)
    crawl_terminates zero i m largest at bound small fits enough some_fuel = absurd (omega arith)
    crawl_terminates (suc fuel) i m {k} largest at bound small fits enough some_fuel =
        elim (Decoded-cases (proto_to_list_request ts (some m))) [
          | inr (e, bad) ↦ (suc i, crawl_refused fuel i m e bad, omega arith)
          | inl (req, h) ↦
              let (n, _, low, high, ran) =
                list_margin_offers-page lib (clocks i) m (listed i) (counted i) h at small in
              elim (Bool-cases (ltb_ℤ (pos (k + n)) (pos (count_offers (counted i))))) [
                | inr last ↦ (suc i, crawl_last fuel i m _ ran (rw last refl), omega arith)
                | inl more ↦
                    let follows : k + n < count_offers (counted i) = ground arith in
                    let (requests, rest, within) =
                      crawl_terminates fuel (suc i) (from_offset m (pos (k + n))) largest refl bound
                        (omega (arith, bound i)) fits (omega arith) (omega (arith, bound i)) in
                    (
                      requests,
                      crawl_more fuel i m _ (pos (k + n)) ran (rw more refl) ∙ rest,
                      omega arith,
                    )
              ]
        ]
