-- ===== src/Tests/Stream.antt =====
-- Runs of the subscriptions' stream.
use margin_offer_system.Base.{
  ℕ, ap, sym, Option, String, Bool-cases, inl, inr, ◌==◌, none, arith, ◌≡◌, refl, true, some, List,
  [], ◌∷◌, ◌++◌, map,
}
use margin_offer_system.Base.Int.{pos}
use margin_offer_system.Base.Run.{done}
use margin_offer_system.Store.Subscriptions.{Message, change, Subscription, Subscriptions, contains}
use margin_offer_system.Store.Subscriptions.Account.{AreDistinct}
use margin_offer_system.Store.Subscriptions.Processor.{event_processor, seen_all}
use margin_offer_system.Store.Subscriptions.Asked.{AsksNoSource, IsTold, event_processor-IsTold}
use margin_offer_system.Types.Offer.{MarginOffer}
use margin_offer_system.Base.GoMap.{lookup}
use margin_offer_system.Tests.Data.{second_offer}
use margin_offer_system.Grpc.Stream.{
  Happening, event, beat, receive, Streaming, happen_all, sent, initial_response, response_of,
}
use margin_offer_system.Grpc.Stream.Asked.{asked_in, happen_all-asked}
use margin_offer_system.Tests.Grpc.{plain}
use margin_offer_system.Tests.Events.{
  first_subscription, one_subscribed, one_subscribed-IsSound, creation, clock,
}

abbrev some_happenings : List Happening
some_happenings =
    event (pos 6) creation ∷ receive ∷ receive ∷ beat (pos 7) ∷ event (pos 8) creation ∷ []

happen_all-asked_example :
    (q : Streaming) × (got : List Message) × (happen_all some_happenings
        (record { subscription = first_subscription; taken = [] })
      ≡ done q)
    × (sent plain (pos 5) q
        ≡ some (initial_response plain (pos 5) first_subscription)
          ∷ map (λ m. some (response_of plain m)) got)
    × (got ++ q.subscription.channel
        ≡ asked_in first_subscription.filters "client" "session" 0 some_happenings)
happen_all-asked_example =
    happen_all-asked plain some_happenings first_subscription (pos 5) tt refl refl refl

abbrev given_up : Subscription
given_up = record first_subscription { channel = change creation ∷ []; closed = true }

one_subscribed-AreDistinct : AreDistinct one_subscribed.live
unfolding contains
one_subscribed-AreDistinct = (refl, tt)

-- What the caller's object holds when the event is delivered: another amount than before.
abbrev changed_offers : ℕ → ℕ → MarginOffer
changed_offers i pointer = second_offer

source_of : Option Subscription → Option String
source_of none = none
source_of (some s) = s.filters.source

one_subscribed-AsksNoSource : AsksNoSource one_subscribed
unfolding lookup source_of
one_subscribed-AsksNoSource id s held = elim (Bool-cases ("s" == id)) [
  | inl e ↦ sym (ap source_of (rw e at held))
  | inr e ↦ absurd (ground (arith, e, held))
]

event_processor-IsTold_example :
    (ns' : Subscriptions) × (event_processor
        (λ i. clock)
        changed_offers
        0
        (creation ∷ creation ∷ [])
        one_subscribed
      ≡ done ns')
    × IsTold (seen_all changed_offers 0 (creation ∷ creation ∷ [])) one_subscribed ns'
event_processor-IsTold_example =
    event_processor-IsTold (λ i. clock) changed_offers (creation ∷ creation ∷ []) one_subscribed
      one_subscribed-AreDistinct one_subscribed-IsSound one_subscribed-AsksNoSource
