-- ===== src/Tests/Histories.antt =====
-- Runs of several operations.
use margin_offer_system.Base.{◌≡◌, refl, none, some, List, [], ◌∷◌}
use margin_offer_system.Base.GoMap.{get, lookup}
use margin_offer_system.Base.Run.{done}
use margin_offer_system.Types.Error.{offer_not_found}
use margin_offer_system.Types.Float.{one_float}
use margin_offer_system.Types.Offer.{validate, clone}
use margin_offer_system.Store.Memory.{MemoryStore, Env, get_by_id, found, failed, found_at}
use margin_offer_system.Store.Memory.Invariant.{table, IsConsistent}
use margin_offer_system.Store.Histories.{
  Call, creation, modification, deletion, bulk_upsertion, perform_all, contract_all,
  perform_all_lem,
}
use margin_offer_system.Tests.Data.{
  env, first_offer, second_offer, third_offer, two_stored, empty_store, empty_store-IsConsistent,
}

-- An offer is added, changed, joined by others and taken out; the last call fails.
abbrev pub a_day : List (Env × Call)
a_day =
    (env, creation (some first_offer))
    ∷ (env, modification (some first_offer))
    ∷ (env, bulk_upsertion (some first_offer ∷ some second_offer ∷ []))
    ∷ (env, deletion "a")
    ∷ (env, deletion "a")
    ∷ []

perform_all_lem_example :
    (ms' : MemoryStore) × (perform_all a_day empty_store ≡ done ms')
    × IsConsistent ms'
    × (table ms' ≡ contract_all a_day (table empty_store))
perform_all_lem_example = perform_all_lem a_day empty_store empty_store-IsConsistent

third_offer-valid : validate third_offer ≡ none
unfolding validate one_float
third_offer-valid = refl

no_third : get_by_id "c" two_stored ≡ failed offer_not_found
unfolding get_by_id found_at get lookup
no_third = refl

first_there : get_by_id "a" two_stored ≡ found first_offer
unfolding get_by_id found_at get lookup clone
first_there = refl
