-- ===== src/Store/Filters/Listing.antt =====
-- What `List` returns: a page of the sorted offers that match, or a panic on a negative bound.
use mathlib.Core.List.{Perm}
use margin_offer_system.Base.{
  ℕ, ◌+◌, ◌-◌, ◌≤◌, String, ◌≡◌, refl, Bool, true, false, not, List, [], ◌∷◌, ◌++◌, arith, ◌==◌,
  if◌then◌else◌, ◌∙◌, ap, length, take, drop, drop_of_length-le, take_of_length-le, length-drop,
  take-append-drop, sym, eq_refl,
}
use margin_offer_system.Base.Int.{ℤ, pos, negsuc}
use margin_offer_system.Base.GoMap.{Assoc, entries}
use margin_offer_system.Base.Run.{done, panic}
use margin_offer_system.Types.Float.{Float64, lt}
use margin_offer_system.Types.Time.{Time, before}
use margin_offer_system.Types.Offer.{MarginOffer, clone}
use margin_offer_system.Types.Filter.{ListRequest}
use margin_offer_system.Store.Memory.{MemoryStore}
use margin_offer_system.Store.Filters.{
  matches_filters, less_by, Library, or_default, comparison, sort_offers, matching, slice, page,
  list_request, text_lt,
}

-- The part of `sort.Slice` that holds for any comparison: it rearranges the slice.
abbrev pub IsRearranging : Library → Type 0
IsRearranging lib =
    (less : MarginOffer → MarginOffer → Bool) (offers : List MarginOffer)
    → Perm (lib.sort_slice less offers) offers

-- `page` at bounds that are not negative.
page_lem :
    (offset limit : ℕ) (offers : List MarginOffer)
    → page (pos offset) (pos limit) offers ≡ done (take limit (drop offset offers))
unfolding page
page_lem offset limit offers = ground (
  arith,
  drop_of_length-le offset offers,
  length-drop offset offers,
  take_of_length-le limit (drop offset offers),
  take_of_length-le (length offers - offset) (drop offset offers),
)

module _ (lib : Library) (now : ℕ → Time) (req : ListRequest) (ms : MemoryStore) where
  -- The offers that match, in the order of the request.
  abbrev pub in_order : List MarginOffer
  in_order = sort_offers lib (matching now 0 req (entries ms.offers)) req.sort_by req.sort_order

  pub list_request_lem :
      {offset limit : ℕ}
      → req.offset ≡ pos offset
      → req.limit ≡ pos limit
      → list_request lib now req ms ≡ done (take limit (drop offset in_order))
  unfolding list_request
  list_request_lem {offset} {limit} eo el =
      ap (λ (z : ℤ). page z req.limit in_order) eo
      ∙ ap (λ (z : ℤ). page (pos offset) z in_order) el
      ∙ page_lem offset limit in_order

  -- List with a negative offset panics, on every store.
  pub list_request-negative : {k : ℕ} → req.offset ≡ negsuc k → list_request lib now req ms ≡ panic
  unfolding list_request page slice
  list_request-negative {k} e = ap (λ (z : ℤ). page z req.limit in_order) e ∙ ground arith

-- If the sort rearranges its slice, List from offset 0 with a limit that is not below the number
-- of matches does not panic and returns a rearrangement of the offers that match.
pub list_request-all :
    (lib : Library) (now : ℕ → Time) (req : ListRequest) (ms : MemoryStore) {limit : ℕ}
    → IsRearranging lib
    → req.offset ≡ pos 0
    → req.limit ≡ pos limit
    → length (in_order lib now req ms) ≤ limit
    → (offers : List MarginOffer) × (list_request lib now req ms ≡ done offers)
      × Perm offers (matching now 0 req (entries ms.offers))
unfolding sort_offers
list_request-all lib now req ms {limit} r eo el h = (
  in_order lib now req ms,
  list_request_lem lib now req ms eo el
      ∙ ap done (take_of_length-le limit (in_order lib now req ms) h),
  r _ _,
)

-- The page that is asked for plays no part in what matches.
matching-page :
    (now : ℕ → Time) (i : ℕ) (req : ListRequest) (offset limit : ℤ) (m : Assoc MarginOffer)
    → matching now i (record req { offset = offset; limit = limit }) m ≡ matching now i req m
unfolding matching matches_filters
matching-page now i req offset limit [] = refl
matching-page now i req offset limit ((k, o) ∷ m) =
    ap
      (λ (rest : List MarginOffer).
        if matches_filters (now i) (now (i + 1)) o req then clone o ∷ rest else rest)
      (matching-page now (i + 2) req offset limit m)

pub paged_lem :
    (lib : Library) (now : ℕ → Time) (req : ListRequest) (ms : MemoryStore) (offset limit : ℕ)
    → list_request lib now (record req { offset = pos offset; limit = pos limit }) ms
      ≡ done (take limit (drop offset (in_order lib now req ms)))
paged_lem lib now req ms offset limit =
    list_request_lem lib now (record req { offset = pos offset; limit = pos limit }) ms refl refl
    ∙ ap
        (λ (offers : List MarginOffer).
          done (take limit (drop offset (sort_offers lib offers req.sort_by req.sort_order))))
        (matching-page now 0 req (pos offset) (pos limit) (entries ms.offers))

-- A page of List and the page that follows it are, joined, the page of their joint limit, for
-- every sort and any bounds that are not negative.
pub list_request-pages :
    (lib : Library) (now : ℕ → Time) (req : ListRequest) (ms : MemoryStore) (offset n m : ℕ)
    → (first : List MarginOffer) × (second : List MarginOffer) × (list_request lib now
          (record req { offset = pos offset; limit = pos n })
          ms
        ≡ done first)
      × (list_request lib now (record req { offset = pos (offset + n); limit = pos m }) ms
          ≡ done second)
      × (list_request lib now (record req { offset = pos offset; limit = pos (n + m) }) ms
          ≡ done (first ++ second))
list_request-pages lib now req ms offset n m = (
  take n (drop offset (in_order lib now req ms)),
  take m (drop (offset + n) (in_order lib now req ms)),
  paged_lem lib now req ms offset n,
  paged_lem lib now req ms (offset + n) m,
  paged_lem lib now req ms offset (n + m)
      ∙ ap done (sym (take-append-drop n m offset (in_order lib now req ms))),
)

text_lt_irrefl : (s : String) → text_lt s s ≡ false
text_lt_irrefl s = ground (arith, eq_refl s)

time_lt_irrefl : (t : Time) → before t t ≡ false
time_lt_irrefl t = ground arith

lt_irrefl : (x : Float64) → lt x x ≡ false
lt_irrefl x = ground arith

less_by_irrefl : (sort_by : String) (o : MarginOffer) → less_by sort_by o o ≡ false
unfolding less_by
less_by_irrefl sort_by o = ground (
  arith,
  time_lt_irrefl o.created_timestamp,
  time_lt_irrefl o.updated_timestamp,
  lt_irrefl o.interest_rate,
  lt_irrefl o.available_borrow_amount,
  lt_irrefl o.max_open_ltv,
  lt_irrefl o.liquidation_ltv,
  text_lt_irrefl o.offer_type,
  text_lt_irrefl o.collateral_token,
  text_lt_irrefl o.borrow_token,
  text_lt_irrefl o.id,
)

-- The comparison that List sorts by puts an offer before itself exactly when the order is not
-- ascending.
pub comparison_self :
    (lib : Library) (sort_by sort_order : String) (o : MarginOffer)
    → comparison lib sort_by sort_order o o
      ≡ not (lib.to_lower (or_default sort_order "desc") == "asc")
unfolding comparison
comparison_self lib sort_by sort_order o =
    rw (less_by_irrefl (lib.to_lower (or_default sort_by "created_timestamp")) o)
      (by_order (lib.to_lower (or_default sort_order "desc") == "asc"))
  where
    by_order : (b : Bool) → (if b then false else not false) ≡ not b
    by_order true = refl
    by_order false = refl
