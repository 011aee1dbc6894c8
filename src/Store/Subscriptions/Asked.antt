-- ===== src/Store/Subscriptions/Asked.antt =====
-- store/notification_service.go: the delivery of change events against what the criteria of a
-- subscription mean.
use margin_offer_system.Base.{
  ℕ, String, Bool, true, false, not, ◌&&◌, ◌||◌, Option, none, some, List, [], ◌∷◌, ◌++◌, ◌≡◌, refl,
  ◌∙◌, sym, ap, length, ltb, if◌then◌else◌, ◌==◌,
}
use margin_offer_system.Base.GoMap.{lookup}
use margin_offer_system.Base.Run.{done}
use margin_offer_system.Types.Time.{Time}
use margin_offer_system.Types.Offer.{MarginOffer}
use margin_offer_system.Store.Criteria.{guarded, all_hold}
use margin_offer_system.Store.Notification.{
  ChangeType, ChangeEvent, unknown, created, updated, deleted, overwritten,
}
use margin_offer_system.Store.Subscriptions.{
  Message, Subscription, Subscriptions, SubscribeRequest, change, contains, refuses, refuses_opt,
  wants_type, matches_subscription, channel_capacity,
}
use margin_offer_system.Store.Subscriptions.Delivery.{IsSound}
use margin_offer_system.Store.Subscriptions.Account.{AreDistinct}
use margin_offer_system.Store.Subscriptions.Processor.{
  event_processor, event_processor-IsServed, admitted, seen_all,
}

-- A kind of change that is asked for. A change of no known kind concerns everyone.
abbrev pub asks_kind : SubscribeRequest → ChangeType → Bool
asks_kind filters unknown = true
asks_kind filters created = filters.subscribe_created
asks_kind filters updated = filters.subscribe_updated
asks_kind filters deleted = filters.subscribe_deleted
asks_kind filters overwritten = filters.subscribe_overwritten

-- A text is the one that is asked for, if one is: the empty text asks for none.
abbrev pub accords : Option String → String → Bool
accords none value = true
accords (some wanted) value = wanted == "" || value == wanted

abbrev pub accords_opt : Option String → Option String → Bool
accords_opt none value = true
accords_opt (some wanted) none = wanted == ""
accords_opt (some wanted) (some value) = wanted == "" || value == wanted

-- The changes that a subscription is to be told of.
unfoldable pub is_asked : SubscribeRequest → ChangeEvent → Bool
is_asked filters event = all_hold (
    asks_kind filters event.change_type
    ∷ accords filters.offer_type event.offer.offer_type
    ∷ accords filters.collateral_token event.offer.collateral_token
    ∷ accords filters.borrow_token event.offer.borrow_token
    ∷ accords filters.liquidity_source event.offer.liquidity_source
    ∷ accords_opt filters.lender_address event.offer.lender_address
    ∷ accords_opt filters.source event.offer.source
    ∷ [])

wants_type_lem :
    (kind : ChangeType) (filters : SubscribeRequest)
    → wants_type kind filters ≡ asks_kind filters kind
wants_type_lem unknown filters = refl
wants_type_lem created filters = refl
wants_type_lem updated filters = refl
wants_type_lem deleted filters = refl
wants_type_lem overwritten filters = refl

neither : (a b : Bool) → (not a && not b) ≡ not (a || b)
neither true b = refl
neither false b = refl

refuses_lem :
    (wanted : Option String) (value : String) → refuses wanted value ≡ not (accords wanted value)
refuses_lem none value = refl
refuses_lem (some wanted) value = neither _ _

refuses_opt_lem :
    (wanted value : Option String) → refuses_opt wanted value ≡ not (accords_opt wanted value)
refuses_opt_lem none value = refl
refuses_opt_lem (some wanted) none = refl
refuses_opt_lem (some wanted) (some value) = neither _ _

-- Where no source is asked for, matchesSubscription keeps to the criteria.
pub matches_subscription_lem :
    (event : ChangeEvent) (filters : SubscribeRequest)
    → filters.source ≡ none
    → matches_subscription event filters ≡ is_asked filters event
unfolding matches_subscription is_asked
matches_subscription_lem event filters any =
    guarded _ (ap not (wants_type_lem event.change_type filters)) (
      guarded _ (refuses_lem filters.offer_type event.offer.offer_type) (
        guarded _ (refuses_lem filters.collateral_token event.offer.collateral_token) (
          guarded _ (refuses_lem filters.borrow_token event.offer.borrow_token) (
            guarded _ (refuses_lem filters.liquidity_source event.offer.liquidity_source) (
              guarded _ (refuses_opt_lem filters.lender_address event.offer.lender_address)
                (sym (ap (λ s. accords_opt s event.offer.source && true) any)))))))

-- A channel after events that nothing receives from: it takes those that are asked for while fewer
-- than 100 messages wait in it.
abbrev pub filled : SubscribeRequest → List Message → List ChangeEvent → List Message
filled filters channel [] = channel
filled filters channel (event ∷ events) =
    let takes = is_asked filters event && ltb (length channel) channel_capacity in
    filled filters (if takes then channel ++ change event ∷ [] else channel) events

admitted-filled :
    (filters : SubscribeRequest) (channel : List Message) (events : List ChangeEvent)
    → filters.source ≡ none
    → admitted filters channel events ≡ filled filters channel events
admitted-filled filters channel [] any = refl
admitted-filled filters channel (event ∷ events) any =
    rw (matches_subscription_lem event filters any) (
      admitted-filled filters
        (if is_asked filters event && ltb (length channel) channel_capacity
          then channel ++ change event ∷ []
          else channel)
        events any)

-- No subscription was made with a source to filter by.
abbrev pub AsksNoSource : Subscriptions → Type 0
AsksNoSource ns =
    (id : String) (s : Subscription) → lookup id ns.heap ≡ some s → s.filters.source ≡ none

-- Every object afterwards: the channel of one of the map is filled, another channel is as it was.
abbrev pub IsTold : List ChangeEvent → Subscriptions → Subscriptions → Type 0
IsTold events ns ns' =
    (id : String) (s : Subscription)
    → lookup id ns.heap ≡ some s
    → (s' : Subscription) × (lookup id ns'.heap ≡ some s')
      × (s'.channel
          ≡ (if contains id ns.live then filled s.filters s.channel events else s.channel))
      × (s'.filters ≡ s.filters)

-- Where no key of the map stands twice, every subscription of the map has an open channel that is
-- not over its capacity, and none was made with a source, the event processor takes any queue of
-- events to its end without a panic, if nothing comes between; then the channel of each
-- subscription of the map has got, in the order of the queue, the events whose kind and whose
-- offer, as the caller's object holds it by then, it asks for by the type, the tokens, the
-- liquidity source and the lender, each only while fewer than 100 messages were waiting in it,
-- and every other subscription object has the channel that it had. No filters change.
pub event_processor-IsTold :
    (now : ℕ → ℕ → Time) (objects : ℕ → ℕ → MarginOffer) (events : List ChangeEvent)
    (ns : Subscriptions)
    → AreDistinct ns.live
    → IsSound ns
    → AsksNoSource ns
    → (ns' : Subscriptions) × (event_processor now objects 0 events ns ≡ done ns')
      × IsTold (seen_all objects 0 events) ns ns'
event_processor-IsTold now objects events ns distinct sound any =
    let (ns', ran, served) = event_processor-IsServed now objects 0 events ns distinct sound in
    (
      ns',
      ran,
      λ id s held.
          let (s', held', got, filters) = served id s held in
          let told =
            admitted-filled s.filters s.channel (seen_all objects 0 events) (any id s held) in
          (s', held', got ∙ ap (λ c. if contains id ns.live then c else s.channel) told, filters),
    )
