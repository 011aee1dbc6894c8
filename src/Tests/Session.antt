-- ===== src/Tests/Session.antt =====
-- A session of two subscribers.
use margin_offer_system.Base.{◌≡◌, refl, List, [], ◌∷◌, arith}
use margin_offer_system.Base.Int.{pos, ◌+ℤ◌}
use margin_offer_system.Base.GoMap.{lookup, insert}
use margin_offer_system.Base.Run.{done}
use margin_offer_system.Store.Announced.Mirror.{everything}
use margin_offer_system.Store.Subscriptions.{
  Subscriptions, contains, at_pointer, matches_subscription, close_channel, without,
}
use margin_offer_system.Store.Subscriptions.Histories.{
  Occurrence, subscription, unsubscription, announcement, heartbeats, cleaning, receipt, occur_all,
  IsInForce, occur_all-IsInForce,
}
use margin_offer_system.Tests.Events.{creation}

abbrev no_one : Subscriptions
no_one = record { heap = []; live = [] }

no_one-IsInForce : IsInForce no_one
unfolding contains
no_one-IsInForce = record {
  sound = λ id inside. absurd (ground (arith, inside));
  distinct = tt;
  bound = omega arith;
}

-- Two subscribers, events, heartbeats, receives and cleanups; one subscriber goes, and an unknown
-- one too.
abbrev a_session : List Occurrence
a_session =
    subscription "f" (pos 1) (pos 1) (everything "client" "session")
    ∷ subscription "g" (pos 2) (pos 2) (everything "other" "session")
    ∷ announcement (λ i. pos 3) creation
    ∷ heartbeats (pos 4)
    ∷ receipt "f"
    ∷ unsubscription "f"
    ∷ unsubscription "h"
    ∷ announcement (λ i. pos 5) creation
    ∷ cleaning (pos 9000000000000)
    ∷ receipt "g"
    ∷ []

occur_all-IsInForce_example :
    (ns' : Subscriptions) × (occur_all a_session no_one ≡ done ns') × IsInForce ns'
occur_all-IsInForce_example =
    occur_all-IsInForce a_session no_one no_one-IsInForce (unfold contains in (refl, (refl, tt)))
      (λ id _. unfold contains in refl)

-- The cleanup drops the second subscriber.
a_session_empties :
    (ns' : Subscriptions) × (occur_all a_session no_one ≡ done ns') × (ns'.live ≡ [])
unfolding occur_all contains at_pointer lookup insert matches_subscription close_channel without
    ◌+ℤ◌
a_session_empties = (_, refl, refl)
