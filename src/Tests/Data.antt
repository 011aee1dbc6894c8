-- ===== src/Tests/Data.antt =====
-- Stores and offers for the runs.
use margin_offer_system.Base.{
  String, ◌≡◌, refl, Option, none, some, [], ◌∷◌, arith, ap, sym, ◌∙◌, subst,
}
use margin_offer_system.Base.Int.{pos}
use margin_offer_system.Base.GoMap.{made, get, put, lookup, insert}
use margin_offer_system.Base.Run.{Run, done, panic}
use margin_offer_system.Types.Float.{finite}
use margin_offer_system.Types.Time.{Time, zero_time}
use margin_offer_system.Types.Offer.{MarginOffer, clone}
use margin_offer_system.Store.Notification.{new_notification_service}
use margin_offer_system.Store.Memory.{
  MemoryStore, Env, store_offer, add_to_indexes, token_pair, token_key,
}
use margin_offer_system.Store.Memory.Index.{append_id, append_opt, ids_at, count}
use margin_offer_system.Store.Memory.Index.Tracks.{Tracks, Key}
use margin_offer_system.Store.Memory.Invariant.{IsConsistent, table, lender_of, pair_of, type_of}
use margin_offer_system.Store.Memory.Refine.{store_new_lem}

-- A store with nothing in it, its maps allocated.
abbrev pub empty_store : MemoryStore
empty_store = record {
  offers = made [];
  lender_index = made [];
  token_index = made [];
  offer_type_index = made [];
  created_at = zero_time;
  last_update = zero_time;
  notification_service = some new_notification_service;
}

Tracks-empty : (key : Key) → Tracks key (table empty_store) (made [])
unfolding ids_at get lookup count
Tracks-empty key = record { allocated = tt; counted = λ k id. refl; no_empty = λ k h. ground arith }

pub empty_store-IsConsistent : IsConsistent empty_store
unfolding get lookup
empty_store-IsConsistent = record {
  is_table = tt;
  own_id = λ id o h. ground arith;
  indexed = record {
    lenders = Tracks-empty lender_of;
    tokens = Tracks-empty pair_of;
    types = Tracks-empty type_of;
  };
}

-- An offer at the clock's reading `t`, with the amount in steps of the float type.
abbrev pub offer_of : String → String → Option String → Time → MarginOffer
offer_of id offer_type lender t = record {
  id = id;
  offer_type = offer_type;
  collateral_token = "SOL";
  borrow_token = "USDC";
  available_borrow_amount = finite (pos 1000);
  max_open_ltv = finite (pos 750);
  liquidation_ltv = finite (pos 850);
  interest_rate = finite (pos 5);
  interest_model = "fixed";
  term_days = some (pos 30);
  liquidity_source = "marginfi";
  lender_address = lender;
  last_borrowed_timestamp = none;
  created_timestamp = t;
  updated_timestamp = t;
  source = none;
}

abbrev pub first_offer : MarginOffer
first_offer = offer_of "a" "V1" (some "alice") (pos 10)

abbrev pub second_offer : MarginOffer
second_offer = offer_of "b" "BNPL" none (pos 20)

abbrev pub third_offer : MarginOffer
third_offer = offer_of "c" "V1" (some "alice") (pos 30)

-- A clock that moves on by one at each reading.
abbrev pub env : Env
env = record { now = λ i. pos i; pointers = λ i. i; operation_id = "op" }

-- The store with the first offer in it, and then the second.
abbrev pub one_stored : MemoryStore
one_stored = record empty_store {
  offers = made (("a", first_offer) ∷ []);
  lender_index = made (("alice", "a" ∷ []) ∷ []);
  token_index = made (("SOL|USDC", "a" ∷ []) ∷ []);
  offer_type_index = made (("V1", "a" ∷ []) ∷ []);
}

abbrev pub two_stored : MemoryStore
two_stored = record empty_store {
  offers = made (("a", first_offer) ∷ ("b", second_offer) ∷ []);
  lender_index = made (("alice", "a" ∷ []) ∷ []);
  token_index = made (("SOL|USDC", "a" ∷ "b" ∷ []) ∷ []);
  offer_type_index = made (("V1", "a" ∷ []) ∷ ("BNPL", "b" ∷ []) ∷ []);
}

value_or : Run MemoryStore → MemoryStore → MemoryStore
value_or (done ms) default = ms
value_or panic default = default

-- A store that a write of a new offer gives is consistent.
written-IsConsistent :
    (o : MarginOffer) (ms ms' : MemoryStore)
    → IsConsistent ms
    → table ms o.id ≡ none
    → store_offer o ms ≡ done ms'
    → IsConsistent ms'
unfolding value_or
written-IsConsistent o ms ms' c absent e =
    let (ms'', e', w) = store_new_lem o ms c absent in
    subst IsConsistent (ap (λ r. value_or r ms) (sym e' ∙ e)) w.consistent

pub one_stored-IsConsistent : IsConsistent one_stored
one_stored-IsConsistent =
    written-IsConsistent first_offer empty_store one_stored empty_store-IsConsistent
      (unfold get lookup in refl)
      (unfold store_offer add_to_indexes append_id append_opt put get lookup insert clone token_pair
          token_key ids_at in
        refl)

pub two_stored-IsConsistent : IsConsistent two_stored
two_stored-IsConsistent =
    written-IsConsistent second_offer one_stored two_stored one_stored-IsConsistent
      (unfold get lookup in refl)
      (unfold store_offer add_to_indexes append_id append_opt put get lookup insert clone token_pair
          token_key ids_at in
        refl)
