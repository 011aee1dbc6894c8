-- ===== src/Store/Subscriptions.antt =====
-- store/notification_service.go: the subscriptions and the delivery of change events to them. A
-- subscription is a shared object, which stays on the heap when the map lets go of it; its ID
-- stands for the pointer. A message is given by what it is made from.
pub mod Delivery
pub mod Race
pub mod Account
pub mod Processor
pub mod Cleanup
pub mod Histories
pub mod Asked
use margin_offer_system.Base.{
  ℕ, suc, ◌-◌, String, Bool, true, false, not, ◌&&◌, Option, none, some, List, [], ◌∷◌, ◌++◌, ◌==◌,
  if◌then◌else◌, length, ltb, leb,
}
use margin_offer_system.Base.GoMap.{Assoc, lookup, insert}
use margin_offer_system.Base.Run.{Run, done, panic, ◌>>=◌}
use margin_offer_system.Base.Int.{negsuc, ◌+ℤ◌}
use margin_offer_system.Types.Time.{Time, before, nanoseconds_per_hour}
use margin_offer_system.Types.Offer.{MarginOffer}
use margin_offer_system.Store.Notification.{
  ChangeType, ChangeEvent, unknown, created, updated, deleted, overwritten,
}

-- The message `SubscribeMarginOffersRequest`.
pub record SubscribeRequest : Type 0 where
  pub offer_type : Option String
  pub collateral_token : Option String
  pub borrow_token : Option String
  pub liquidity_source : Option String
  pub lender_address : Option String
  pub source : Option String
  pub subscribe_created : Bool
  pub subscribe_updated : Bool
  pub subscribe_deleted : Bool
  pub subscribe_overwritten : Bool
  pub client_id : String
  pub session_id : String

-- What a message on a subscription's channel carries: an event, or a heartbeat with its time,
-- client and session.
pub data Message : Type 0 where
  change : ChangeEvent → Message
  heartbeat : Time → String → String → Message

pub record Subscription : Type 0 where
  pub id : String
  pub client_id : String
  pub session_id : String
  pub filters : SubscribeRequest
  pub channel : List Message
  pub closed : Bool
  pub created_at : Time
  pub last_activity : Time

-- The subscriptions that were ever made, by ID, and the keys of the map of those in force.
pub record Subscriptions : Type 0 where
  pub heap : Assoc Subscription
  pub live : List String

abbrev pub max_subscriptions : ℕ
max_subscriptions = 1000

abbrev pub channel_capacity : ℕ
channel_capacity = 100

-- Whether a key is in the map, and the map without it.
unfoldable pub contains : String → List String → Bool
contains id [] = false
contains id (key ∷ keys) = let rest = contains id keys in if key == id then true else rest

unfoldable pub without : String → List String → List String
without id [] = []
without id (key ∷ keys) = let rest = without id keys in if key == id then rest else key ∷ rest

-- `Subscribe`, with the fresh UUID and the two readings of the clock; nothing where the limit is
-- reached, which is an error.
unfoldable pub subscribe :
    String → Time → Time → SubscribeRequest → Subscriptions → Option (Subscription × Subscriptions)
subscribe fresh now now' req ns =
    if leb max_subscriptions (length ns.live)
    then none
    else let subscription : Subscription = record {
      id = fresh;
      client_id = req.client_id;
      session_id = req.session_id;
      filters = req;
      channel = [];
      closed = false;
      created_at = now;
      last_activity = now';
    } in
      some
        (subscription, record { heap = insert fresh subscription ns.heap; live = fresh ∷ ns.live })

-- `close(subscription.Channel)`
unfoldable pub close_channel : Subscription → Run Subscription
close_channel s = if s.closed then panic else done (record s { closed = true })

-- What becomes of the object that an ID points to.
unfoldable pub on_object :
    (Subscription → Run Subscription)
    → String
    → Assoc Subscription
    → Option Subscription
    → Run (Assoc Subscription)
on_object act id heap none = panic
on_object act id heap (some s) = do s' ← act s; done (insert id s' heap)

unfoldable pub at_pointer :
    (Subscription → Run Subscription) → String → Assoc Subscription → Run (Assoc Subscription)
unfolding on_object
at_pointer act id heap = on_object act id heap (lookup id heap)

-- The channel is closed, and the map lets go of the subscription.
unfoldable pub drop_subscription : String → Subscriptions → Run Subscriptions
drop_subscription id ns = do
  heap ← at_pointer close_channel id ns.heap
  done (record { heap = heap; live = without id ns.live })

-- `Unsubscribe`; nothing where there is no such subscription, which is an error.
unfoldable pub unsubscribe : String → Subscriptions → Run (Option Subscriptions)
unfolding drop_subscription
unsubscribe id ns =
    if contains id ns.live then (do rest ← drop_subscription id ns; done (some rest)) else done none

-- `filters.X != nil && *filters.X != "" && event.Offer.X != *filters.X`
abbrev pub refuses : Option String → String → Bool
refuses none value = false
refuses (some wanted) value = not (wanted == "") && not (value == wanted)

-- The same for the lender's address, which an offer may not have.
abbrev pub refuses_opt : Option String → Option String → Bool
refuses_opt none value = false
refuses_opt (some wanted) none = not (wanted == "")
refuses_opt (some wanted) (some value) = not (wanted == "") && not (value == wanted)

-- Whether the kind of change is subscribed to; an unknown one always is.
abbrev pub wants_type : ChangeType → SubscribeRequest → Bool
wants_type unknown filters = true
wants_type created filters = filters.subscribe_created
wants_type updated filters = filters.subscribe_updated
wants_type deleted filters = filters.subscribe_deleted
wants_type overwritten filters = filters.subscribe_overwritten

-- `matchesSubscription`
unfoldable pub matches_subscription : ChangeEvent → SubscribeRequest → Bool
matches_subscription event filters =
    if not (wants_type event.change_type filters)
    then false
    else if refuses filters.offer_type event.offer.offer_type
    then false
    else if refuses filters.collateral_token event.offer.collateral_token
    then false
    else if refuses filters.borrow_token event.offer.borrow_token
    then false
    else if refuses filters.liquidity_source event.offer.liquidity_source
    then false
    else if refuses_opt filters.lender_address event.offer.lender_address
    then false
    else true

-- A send that does not wait: a full channel drops the message, a closed one panics.
unfoldable pub send : Time → Message → Subscription → Run Subscription
send now message s =
    if s.closed
    then panic
    else if ltb (length s.channel) channel_capacity
    then done (record s { channel = s.channel ++ message ∷ []; last_activity = now })
    else done s

-- One round of the loop of `processChangeEvent`.
unfoldable pub deliver : Time → ChangeEvent → Subscription → Run Subscription
unfolding send
deliver now event s =
    if matches_subscription event s.filters then send now (change event) s else done s

-- A loop over the pointers that were read from the map.
unfoldable pub for_each :
    (ℕ → Subscription → Run Subscription)
    → ℕ
    → List String
    → Assoc Subscription
    → Run (Assoc Subscription)
for_each act i [] heap = done heap
for_each act i (id ∷ ids) heap = do
  heap' ← at_pointer (act i) id heap
  for_each act (suc i) ids heap'

-- The second half of `processChangeEvent`, from the pointers that its first half read under the
-- lock. The lock is free by now.
unfoldable pub deliver_to :
    (ℕ → Time) → ChangeEvent → List String → Subscriptions → Run Subscriptions
unfolding deliver
deliver_to now event ids ns = do
  heap ← for_each (λ i. deliver (now i) event) 0 ids ns.heap
  done (record ns { heap = heap })

-- `processChangeEvent`, if nothing comes between its halves.
unfoldable pub process_change_event : (ℕ → Time) → ChangeEvent → Subscriptions → Run Subscriptions
unfolding deliver_to
process_change_event now event ns = deliver_to now event ns.live ns

-- `sendHeartbeats`, likewise.
unfoldable pub send_heartbeats : Time → Subscriptions → Run Subscriptions
unfolding for_each
send_heartbeats now ns = do
  heap ← for_each (λ i s. send now (heartbeat now s.client_id s.session_id) s) 0 ns.live ns.heap
  done (record ns { heap = heap })

-- `cleanupInactiveSubscriptions`, over the keys that the map has at its start: one subscription is
-- dropped if it was last active before the cutoff.
unfoldable pub cleanup : Time → List String → Subscriptions → Run Subscriptions
unfolding drop_subscription
cleanup cutoff [] ns = done ns
cleanup cutoff (id ∷ ids) ns = elim (lookup id ns.heap) [
  | none ↦ panic
  | some s ↦ do
    rest ← (if before s.last_activity cutoff then drop_subscription id ns else done ns)
    cleanup cutoff ids rest
]

-- `cleanupInactiveSubscriptions`: an hour without activity is the limit.
unfoldable pub cleanup_inactive : Time → Subscriptions → Run Subscriptions
unfolding cleanup
cleanup_inactive now ns = cleanup (now +ℤ negsuc (nanoseconds_per_hour - 1)) ns.live ns

-- `GetSubscriptionCount`
unfoldable pub get_subscription_count : Subscriptions → ℕ
get_subscription_count ns = length ns.live
