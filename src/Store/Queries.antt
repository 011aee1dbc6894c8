-- ===== src/Store/Queries.antt =====
-- store/memory_store_queries.go: the lists by one criterion, and the reads through an index.
pub mod Exact
use margin_offer_system.Base.{
  String, Option, none, some, List, [], ◌∷◌, if◌then◌else◌, ◌==◌, ◌||◌, ℕ,
}
use margin_offer_system.Base.GoMap.{GoMap, get}
use margin_offer_system.Base.Run.{Run, done, ◌>>=◌}
use margin_offer_system.Types.Time.{Time}
use margin_offer_system.Types.Error.{Error, invalid_event_data}
use margin_offer_system.Types.Offer.{MarginOffer, clone}
use margin_offer_system.Types.Filter.{ListRequest}
use margin_offer_system.Store.Memory.{MemoryStore, token_key}
use margin_offer_system.Store.Memory.Index.{IdIndex, ids_at}
use margin_offer_system.Store.Filters.{Library, list_request, request_or_default}

-- The result of a list: offers, or the error.
pub data Listed : Type 0 where
  listed : List MarginOffer → Listed
  refused : Error → Listed

as_listed : Run (List MarginOffer) → Run Listed
as_listed run = do offers ← run; done (listed offers)

-- `ListByLender`. The caller's request, which gets the criterion too, is not part of the result.
unfoldable pub list_by_lender :
    Library → (ℕ → Time) → String → Option ListRequest → MemoryStore → Run Listed
unfolding as_listed
list_by_lender lib now lender req ms =
    if lender == ""
    then done (refused invalid_event_data)
    else as_listed
        (list_request lib now (record (request_or_default req) { lender_address = some lender }) ms)

-- `ListByToken`
unfoldable pub list_by_token :
    Library → (ℕ → Time) → String → String → Option ListRequest → MemoryStore → Run Listed
unfolding as_listed
list_by_token lib now collateral borrow req ms =
    if collateral == "" || borrow == ""
    then done (refused invalid_event_data)
    else as_listed (
        list_request lib now
          (record (request_or_default req) {
            collateral_token = some collateral;
            borrow_token = some borrow;
          })
          ms)

-- `ListByOfferType`
unfoldable pub list_by_offer_type :
    Library → (ℕ → Time) → String → Option ListRequest → MemoryStore → Run Listed
unfolding as_listed
list_by_offer_type lib now offer_type req ms =
    as_listed
      (list_request lib now (record (request_or_default req) { offer_type = some offer_type }) ms)

with_stored : Option MarginOffer → List MarginOffer → List MarginOffer
with_stored none rest = rest
with_stored (some offer) rest = clone offer ∷ rest

-- The loop over the IDs of an index: copies of the offers that are stored.
unfoldable pub fetch : List String → GoMap MarginOffer → List MarginOffer
unfolding with_stored
fetch [] offers = []
fetch (id ∷ ids) offers = with_stored (get id offers) (fetch ids offers)

-- `GetOffersByLenderFromIndex`: a missing key gives no offers, as its nil slice does.
unfoldable pub get_offers_by_lender_from_index : String → MemoryStore → List MarginOffer
unfolding fetch
get_offers_by_lender_from_index lender ms = fetch (ids_at lender ms.lender_index) ms.offers

-- `GetOffersByTokenFromIndex`
unfoldable pub get_offers_by_token_from_index : String → String → MemoryStore → List MarginOffer
unfolding fetch token_key
get_offers_by_token_from_index collateral borrow ms =
    fetch (ids_at (token_key collateral borrow) ms.token_index) ms.offers

-- `GetOffersByTypeFromIndex`
unfoldable pub get_offers_by_type_from_index : String → MemoryStore → List MarginOffer
unfolding fetch
get_offers_by_type_from_index offer_type ms =
    fetch (ids_at offer_type ms.offer_type_index) ms.offers
