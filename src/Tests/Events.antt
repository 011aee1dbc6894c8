-- ===== src/Tests/Events.antt =====
-- Runs of the notification service.
use margin_offer_system.Base.{
  ℕ, String, ◌≡◌, refl, true, false, none, some, [], ◌∷◌, arith, eq_iff, subst,
}
use margin_offer_system.Base.Int.{pos}
use margin_offer_system.Base.GoMap.{lookup}
use margin_offer_system.Base.Run.{done, panic}
use margin_offer_system.Types.Time.{Time}
use margin_offer_system.Store.Notification.{ChangeEvent, created}
use margin_offer_system.Store.Subscriptions.{
  Subscription, Subscriptions, SubscribeRequest, contains, unsubscribe, matches_subscription,
  deliver_to,
}
use margin_offer_system.Store.Subscriptions.Delivery.{IsSound}
use margin_offer_system.Store.Subscriptions.Race.{deliver_to-closed}
use margin_offer_system.Tests.Data.{first_offer}

abbrev created_only : SubscribeRequest
created_only = record {
  offer_type = some "V1";
  collateral_token = none;
  borrow_token = none;
  liquidity_source = none;
  lender_address = some "";
  source = none;
  subscribe_created = true;
  subscribe_updated = false;
  subscribe_deleted = false;
  subscribe_overwritten = false;
  client_id = "client";
  session_id = "session";
}

abbrev pub first_subscription : Subscription
first_subscription = record {
  id = "s";
  client_id = "client";
  session_id = "session";
  filters = created_only;
  channel = [];
  closed = false;
  created_at = pos 1;
  last_activity = pos 1;
}

abbrev pub one_subscribed : Subscriptions
one_subscribed = record { heap = ("s", first_subscription) ∷ []; live = "s" ∷ [] }

abbrev pub creation : ChangeEvent
creation = record {
  change_type = created;
  pointer = 0;
  offer = first_offer;
  timestamp = pos 5;
  source = "api";
  operation_id = "op";
  metadata = [];
}

abbrev pub clock : ℕ → Time
clock i = pos i

subscribed : lookup "s" one_subscribed.heap ≡ some first_subscription
unfolding lookup
subscribed = refl

pub one_subscribed-IsSound : IsSound one_subscribed
unfolding contains
one_subscribed-IsSound id inside =
    let is_s : "s" ≡ id = ground (arith, eq_iff "s" id, inside) in
    (
      first_subscription,
      subst (λ (x : String). lookup x one_subscribed.heap ≡ some first_subscription) is_s
          subscribed,
      record { not_closed = refl; fits = omega arith },
    )

inside_s : contains "s" one_subscribed.live ≡ true
unfolding contains
inside_s = refl

creation-matches : matches_subscription creation first_subscription.filters ≡ true
unfolding matches_subscription
creation-matches = refl

deliver_to-closed_example :
    (ns' : Subscriptions) × (unsubscribe "s" one_subscribed ≡ done (some ns'))
    × (deliver_to clock creation one_subscribed.live ns' ≡ panic)
deliver_to-closed_example =
    deliver_to-closed clock creation "s" one_subscribed first_subscription one_subscribed-IsSound
      inside_s subscribed creation-matches
