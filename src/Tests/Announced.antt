-- ===== src/Tests/Announced.antt =====
-- Runs of the change events, and of the store as it is made.
use mathlib.Core.Option
use margin_offer_system.Base.{
  ℕ, zero, suc, ◌≡◌, refl, true, false, none, some, List, [], ◌∷◌, arith, eq_iff, subst, String,
}
use margin_offer_system.Base.Int.{pos}
use margin_offer_system.Base.GoMap.{lookup, get}
use margin_offer_system.Base.Run.{done, panic}
use margin_offer_system.Types.Float.{one_float}
use margin_offer_system.Types.Offer.{MarginOffer, validate}
use margin_offer_system.Store.Notification.{NotificationService}
use margin_offer_system.Store.Memory.{MemoryStore, Env, new_memory_store}
use margin_offer_system.Store.Memory.Invariant.{table}
use margin_offer_system.Store.Histories.{Call, creation, modification, perform_all}
use margin_offer_system.Store.Announced.{announced_all, queued}
use margin_offer_system.Store.Announced.Queue.{perform_all-queued}
use margin_offer_system.Store.Announced.Mirror.{
  AreLeft, IsFollower, everything, follow_messages, perform_all-mirrored,
}
use margin_offer_system.Store.Memory.Spec.{stamp_created, stamp_updated}
use margin_offer_system.Store.Start.Calls.{some_writes, perform_all-bare}
use margin_offer_system.Store.Subscriptions.{Subscription, Subscriptions, contains}
use margin_offer_system.Store.Subscriptions.Delivery.{IsSound}
use margin_offer_system.Store.Subscriptions.Processor.{event_processor}
use margin_offer_system.Tests.Data.{
  env, first_offer, second_offer, empty_store, empty_store-IsConsistent,
}
use margin_offer_system.Tests.Histories.{a_day}
use margin_offer_system.Tests.Events.{clock}

perform_all-queued_example :
    (ms' : MemoryStore) × (perform_all a_day empty_store ≡ done ms')
    × (ms'.notification_service
        ≡ Option.map
            (queued (announced_all a_day (table empty_store)))
            empty_store.notification_service)
perform_all-queued_example = perform_all-queued a_day empty_store empty_store-IsConsistent

abbrev follower : Subscription
follower = record {
  id = "f";
  client_id = "client";
  session_id = "session";
  filters = everything "client" "session";
  channel = [];
  closed = false;
  created_at = pos 1;
  last_activity = pos 1;
}

abbrev one_follower : Subscriptions
one_follower = record { heap = ("f", follower) ∷ []; live = "f" ∷ [] }

following : lookup "f" one_follower.heap ≡ some follower
unfolding lookup
following = refl

one_follower-IsSound : IsSound one_follower
unfolding contains
one_follower-IsSound id inside =
    let is_f : "f" ≡ id = ground (arith, eq_iff "f" id, inside) in
    (
      follower,
      subst (λ (x : String). lookup x one_follower.heap ≡ some follower) is_f following,
      record { not_closed = refl; fits = omega arith },
    )

follower-IsFollower : IsFollower "f" follower one_follower
unfolding contains
follower-IsFollower = record { inside = refl; held = following; filters = refl; channel = refl }

-- A call with an object of its own.
abbrev with_pointer : ℕ → Env
with_pointer p = record env { pointers = λ i. p }

-- Two offers are added, and one of them is changed.
abbrev a_morning : List (Env × Call)
a_morning =
    (with_pointer 0, creation (some first_offer))
    ∷ (with_pointer 1, creation (some second_offer))
    ∷ (with_pointer 2, modification (some first_offer))
    ∷ []

-- What the callers' objects hold when the events are delivered.
abbrev as_given : ℕ → ℕ → MarginOffer
as_given i pointer = elim pointer [
  | zero ↦ stamp_created (pos 0) first_offer
  | suc zero ↦ stamp_created (pos 0) second_offer
  | _ ↦ stamp_updated (pos 0) first_offer
]

as_given-AreLeft : AreLeft as_given 0 (announced_all a_morning (table empty_store))
unfolding announced_all validate one_float get lookup
as_given-AreLeft = (refl, (refl, (refl, tt)))

perform_all-mirrored_example :
    (ms' : MemoryStore) × (service : NotificationService) × (ns' : Subscriptions)
    × (s' : Subscription) × (perform_all a_morning empty_store ≡ done ms')
    × (ms'.notification_service ≡ some service)
    × (event_processor (λ i. clock) as_given 0 service.event_chan one_follower ≡ done ns')
    × (lookup "f" ns'.heap ≡ some s')
    × (follow_messages s'.channel (table empty_store) ≡ table ms')
perform_all-mirrored_example =
    perform_all-mirrored a_morning empty_store (λ i. clock) as_given one_follower "f" follower
      empty_store-IsConsistent refl (tt, (tt, (tt, tt))) (omega arith) as_given-AreLeft
      (unfold contains in (refl, tt)) one_follower-IsSound follower-IsFollower

perform_all-bare_example :
    (some_writes a_morning ≡ true → perform_all a_morning new_memory_store ≡ panic)
    × (some_writes a_morning ≡ false
        → (ms : MemoryStore) × (perform_all a_morning new_memory_store ≡ done ms)
          × ((id : String) → table ms id ≡ none))
perform_all-bare_example = perform_all-bare a_morning

-- The same calls on the store as it is made.
morning-panics : perform_all a_morning new_memory_store ≡ panic
morning-panics = (perform_all-bare a_morning).0 (unfold some_writes validate one_float in refl)
