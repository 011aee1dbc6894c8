-- ===== src/Tests/Grpc.antt =====
-- Runs of the service and of its client.
use margin_offer_system.Base.{
  ℕ, ◌+◌, ◌≤◌, ◌↔◌, ◌≡◌, refl, inl, false, none, some, [], ◌∷◌, map, arith,
}
use margin_offer_system.Base.GoMap.{get, lookup, entries}
use margin_offer_system.Base.Int.{pos}
use margin_offer_system.Base.Run.{done}
use margin_offer_system.Types.Float.{one_float}
use margin_offer_system.Types.Time.{Time, zero_time}
use margin_offer_system.Types.Error.{offer_already_exists}
use margin_offer_system.Types.Offer.{validate}
use margin_offer_system.Types.Filter.{ListRequest}
use margin_offer_system.Types.Pool.Bytes.{ok}
use margin_offer_system.Store.Memory.{MemoryStore, get_by_id, found_at}
use margin_offer_system.Store.Memory.Invariant.{table}
use margin_offer_system.Store.Memory.Spec.{spec_create, stamp_created}
use margin_offer_system.Store.Upsert.{BatchReply, after_batch_validation}
use margin_offer_system.Store.Bulk.{
  bulk_create, validate_new, check_absent, has_duplicate, count_offers,
}
use margin_offer_system.Grpc.Messages.{Timestamps, KeepsTimes, OfferMessage, ListMessage, reply}
use margin_offer_system.Grpc.Converters.{
  proto_to_margin_offer, margin_offer_to_proto, proto_to_list_request, page_limit,
}
use margin_offer_system.Grpc.Converters.Laws.{
  IsCarried, message_of, message_of-received, margin_offer_to_proto-proto_to_margin_offer,
}
use margin_offer_system.Grpc.Server.{create_or_update_margin_offer, create_margin_offer}
use margin_offer_system.Grpc.Server.Bulk.{write_batch, is_none}
use margin_offer_system.Grpc.Server.Pages.{crawl, crawl_terminates}
use margin_offer_system.Grpc.Server.Refine.{
  Serves, upsert_contract, create_or_update_margin_offer-Serves,
}
use margin_offer_system.Grpc.Client.Methods.{remote_batch, remote_create, remote_get_by_id}
use margin_offer_system.Grpc.Client.Listings.{first_page}
use margin_offer_system.Grpc.Client.Laws.{sent, remote_batch-silent}
use margin_offer_system.Grpc.Client.Contract.{
  RemotelyRefines, get_call, remote_create-RemotelyRefines, remote_create-remote_get_by_id,
}
use margin_offer_system.Tests.Data.{
  first_offer, third_offer, two_stored, two_stored-IsConsistent, env,
}
use margin_offer_system.Tests.Reads.{library}

-- Stamps that are the times themselves.
abbrev pub plain : Timestamps
plain = record {
  Stamp = Time;
  stamp = λ t. t;
  as_time = λ s. elim s [ none ↦ zero_time | some t ↦ t ];
}

plain-KeepsTimes : KeepsTimes plain
plain-KeepsTimes t = refl

first-IsCarried : IsCarried first_offer
first-IsCarried = record { type_known = inl refl; model_known = inl refl }

third-IsCarried : IsCarried third_offer
third-IsCarried = record { type_known = inl refl; model_known = inl refl }

margin_offer_to_proto-proto_to_margin_offer_example :
    (m : OfferMessage Time) × (margin_offer_to_proto plain (some first_offer) ≡ ok m)
    × ((proto_to_margin_offer plain (some m) ≡ ok first_offer) ↔ IsCarried first_offer)
margin_offer_to_proto-proto_to_margin_offer_example =
    margin_offer_to_proto-proto_to_margin_offer plain first_offer plain-KeepsTimes

-- The third offer comes between the two looks of the handler.
create_or_update_margin_offer-Serves_example :
    Serves plain
      (create_or_update_margin_offer plain env
        (some (message_of plain third_offer))
        two_stored
        two_stored)
      (is_none (table two_stored "c"))
      (upsert_contract (env.now 0) (table two_stored "c") third_offer (table two_stored))
create_or_update_margin_offer-Serves_example =
    create_or_update_margin_offer-Serves plain env (message_of plain third_offer) third_offer
      two_stored two_stored (message_of-received plain third_offer plain-KeepsTimes third-IsCarried)
      two_stored-IsConsistent

-- The request for a page of one offer.
abbrev ones : ListMessage Time
ones = first_page plain (pos 1)

abbrev ones_received : ListRequest
ones_received = record {
  limit = pos 1;
  offset = pos 0;
  sort_by = "";
  sort_order = "";
  offer_type = none;
  collateral_token = none;
  borrow_token = none;
  interest_model = none;
  liquidity_source = none;
  lender_address = none;
  source = none;
  min_borrow_amount = none;
  max_borrow_amount = none;
  min_interest_rate = none;
  max_interest_rate = none;
  min_max_open_ltv = none;
  max_max_open_ltv = none;
  created_after = none;
  created_before = none;
  updated_after = none;
  updated_before = none;
  include_expired = false;
  active_only = false;
}

ones_lem : proto_to_list_request plain (some ones) ≡ ok ones_received
unfolding proto_to_list_request page_limit
ones_lem = refl

two_counted : count_offers two_stored ≤ 2
unfolding count_offers entries
two_counted = omega arith

crawl_terminates_example :
    (requests : ℕ) × (crawl plain library
        (λ i. env.now)
        (λ i. two_stored)
        (λ i. two_stored)
        3
        0
        ones
      ≡ some requests)
    × (requests ≤ 0 + 3)
crawl_terminates_example =
    crawl_terminates plain library (λ i. env.now) (λ i. two_stored) (λ i. two_stored) 3 0 ones 2
      refl (λ j. two_counted) (omega arith) (omega arith) (omega arith) (omega arith)

-- The store refuses a batch with an offer that it has.
abbrev refused_batch : BatchReply
refused_batch = record {
  store = two_stored;
  offers = some (sent first_offer) ∷ [];
  error = some offer_already_exists;
}

refused_batch_lem :
    bulk_create env (map (λ x. some (sent x)) (first_offer ∷ [])) two_stored ≡ done refused_batch
unfolding bulk_create validate_new validate after_batch_validation check_absent get lookup
    has_duplicate one_float
refused_batch_lem = refl

remote_batch-silent_example :
    remote_batch plain
      (write_batch plain (bulk_create env))
      (map some (first_offer ∷ []))
      two_stored
    ≡ done (two_stored, none)
remote_batch-silent_example =
    remote_batch-silent plain plain-KeepsTimes (bulk_create env) first_offer [] two_stored
      refused_batch (first-IsCarried, tt) refused_batch_lem

remote_create-RemotelyRefines_example :
    RemotelyRefines
      (remote_create plain (create_margin_offer plain env) (some third_offer) two_stored)
      (spec_create (env.now 0) (some (sent third_offer)) (table two_stored))
remote_create-RemotelyRefines_example =
    remote_create-RemotelyRefines plain plain-KeepsTimes env third_offer two_stored third-IsCarried
      two_stored-IsConsistent

remote_create-remote_get_by_id_example :
    (ms : MemoryStore) × (remote_create plain
        (create_margin_offer plain env)
        (some third_offer)
        two_stored
      ≡ done (ms, none))
    × (remote_get_by_id plain (get_call plain) "c" ms
        ≡ done (ms, reply (stamp_created (env.now 0) (sent third_offer))))
remote_create-remote_get_by_id_example =
    remote_create-remote_get_by_id plain plain-KeepsTimes env third_offer two_stored third-IsCarried
      two_stored-IsConsistent (unfold validate one_float in refl)
      (unfold get_by_id found_at get lookup in refl)
