-- ===== src/Store/Announced/Mirror.antt =====
-- A subscriber that follows the change events: what it knows of the store after a history of
-- `Create` and `Update` calls and a run of the event processor.
use margin_offer_system.Base.{
  ℕ, suc, ◌+◌, ◌≤◌, String, true, ◌≡◌, refl, ◌∙◌, ap, sym, none, some, List, [], ◌∷◌, ◌++◌, length,
  take, take_of_length-le, length-append, ltb, arith,
}
use margin_offer_system.Base.GoMap.{lookup}
use margin_offer_system.Base.Run.{done, transported}
use margin_offer_system.Types.Time.{Time}
use margin_offer_system.Types.Offer.{MarginOffer}
use margin_offer_system.Store.Notification.{
  NotificationService, ChangeEvent, new_notification_service, event_capacity,
}
use margin_offer_system.Store.Memory.{MemoryStore, Env}
use margin_offer_system.Store.Memory.Invariant.{Table, table, IsConsistent}
use margin_offer_system.Store.Histories.{Call, perform_all, contract_all, perform_all_lem}
use margin_offer_system.Store.Announced.{announced_all}
use margin_offer_system.Store.Subscriptions.{
  Message, Subscription, Subscriptions, SubscribeRequest, change, heartbeat, contains,
  matches_subscription, channel_capacity,
}
use margin_offer_system.Store.Subscriptions.Delivery.{IsSound}
use margin_offer_system.Store.Subscriptions.Account.{AreDistinct}
use margin_offer_system.Store.Subscriptions.Processor.{
  event_processor, event_processor-IsServed, admitted, seen_all,
}
use margin_offer_system.Store.Announced.Queue.{perform_all-queued}
use margin_offer_system.Store.Announced.Followed.{
  follow, follow_all, AreAnnounced, contract_all-followed, length-announced_all,
}

-- A request for every change: all four kinds, and no other criterion.
abbrev pub everything : String → String → SubscribeRequest
everything client session = record {
  offer_type = none;
  collateral_token = none;
  borrow_token = none;
  liquidity_source = none;
  lender_address = none;
  source = none;
  subscribe_created = true;
  subscribe_updated = true;
  subscribe_deleted = true;
  subscribe_overwritten = true;
  client_id = client;
  session_id = session;
}

everything-matches :
    (client session : String) (event : ChangeEvent)
    → matches_subscription event (everything client session) ≡ true
unfolding matches_subscription
everything-matches client session event = ground arith

-- What a reader makes of the messages of a channel; heartbeats say nothing of the table.
unfoldable pub follow_messages : List Message → Table → Table
follow_messages [] t = t
follow_messages (change event ∷ messages) t = follow_messages messages (follow event t)
follow_messages (heartbeat _ _ _ ∷ messages) t = follow_messages messages t

follow_messages-append :
    (messages : List Message) (event : ChangeEvent) (t : Table)
    → follow_messages (messages ++ change event ∷ []) t ≡ follow event (follow_messages messages t)
unfolding follow_messages
follow_messages-append [] event t = refl
follow_messages-append (change e ∷ messages) event t =
    follow_messages-append messages event (follow e t)
follow_messages-append (heartbeat _ _ _ ∷ messages) event t =
    follow_messages-append messages event t

-- A channel with room for all of the events takes them all.
admitted-followed :
    (client session : String) (channel : List Message) (events : List ChangeEvent) (t : Table)
    → length channel + length events ≤ channel_capacity
    → follow_messages (admitted (everything client session) channel events) t
      ≡ follow_all events (follow_messages channel t)
unfolding follow_all
admitted-followed client session channel [] t room = refl
admitted-followed client session channel (event ∷ events) t room =
    let free : ltb (length channel) channel_capacity ≡ true = ground arith in
    rw (everything-matches client session event, free)
      (admitted-followed client session (channel ++ change event ∷ []) events t
          (omega (arith, length-append channel (change event ∷ [])))
        ∙ ap (follow_all events) (follow_messages-append channel event t))

-- A subscription of the map to everything, with nothing in its channel yet.
pub record IsFollower (id : String) (s : Subscription) (ns : Subscriptions) : Type 0 where
  pub inside : contains id ns.live ≡ true
  pub held : lookup id ns.heap ≡ some s
  pub filters : s.filters ≡ everything s.client_id s.session_id
  pub channel : s.channel ≡ []

-- When the rounds look at the events, the callers' objects still hold what the events were made of.
abbrev pub AreLeft : (ℕ → ℕ → MarginOffer) → ℕ → List ChangeEvent → Type 0
AreLeft objects i [] = Unit
AreLeft objects i (event ∷ events) =
    (objects i event.pointer ≡ event.offer) × AreLeft objects (suc i) events

seen_all-left :
    (objects : ℕ → ℕ → MarginOffer) (i : ℕ) (events : List ChangeEvent)
    → AreLeft objects i events
    → seen_all objects i events ≡ events
seen_all-left objects i [] h = refl
seen_all-left objects i (event ∷ events) h =
    ap (λ o. record event { offer = o } ∷ seen_all objects (suc i) events) h.0
    ∙ ap (◌∷◌ event) (seen_all-left objects (suc i) events h.1)

-- After a history of at most 100 Create and Update calls, with any arguments, on a consistent
-- store whose queue is empty, and then a run of the event processor over subscriptions of which
-- no key stands twice and all have an open channel that is not over its capacity, a subscription
-- to everything whose channel was empty has got messages that, applied in order to the table at
-- the start, give the table of the store, if the object that each accepted call was given still
-- holds, when the event processor looks at it, the offer as that call stamped it; nothing panics.
pub perform_all-mirrored :
    (calls : List (Env × Call)) (ms : MemoryStore)
    → (now : ℕ → ℕ → Time) (objects : ℕ → ℕ → MarginOffer) (ns : Subscriptions)
    → (id : String) (s : Subscription) → IsConsistent ms
    → ms.notification_service ≡ some new_notification_service
    → AreAnnounced calls
    → length calls ≤ channel_capacity
    → AreLeft objects 0 (announced_all calls (table ms))
    → AreDistinct ns.live
    → IsSound ns
    → IsFollower id s ns
    → (ms' : MemoryStore) × (service : NotificationService) × (ns' : Subscriptions)
      × (s' : Subscription) × (perform_all calls ms ≡ done ms')
      × (ms'.notification_service ≡ some service)
      × (event_processor now objects 0 service.event_chan ns ≡ done ns')
      × (lookup id ns'.heap ≡ some s')
      × (follow_messages s'.channel (table ms) ≡ table ms')
unfolding new_notification_service
perform_all-mirrored calls ms now objects ns id s c fresh said few left distinct sound f =
    let (ms', ran, queue) = perform_all-queued calls ms c in
    let (ms'', ran', _, tab) = perform_all_lem calls ms c in
    let events = announced_all calls (table ms) in
    let short = length-announced_all calls (table ms) in
    let whole : take event_capacity events ≡ events =
      take_of_length-le event_capacity events (omega (arith, short, few)) in
    let (ns', processed, served) =
      event_processor-IsServed now objects 0 events ns distinct sound in
    let (s', held', got, _) = served id s f.held in
    let channel : s'.channel ≡ admitted (everything s.client_id s.session_id) [] events =
      got
      ∙ rw (f.inside, f.filters, f.channel)
          (ap (admitted (everything s.client_id s.session_id) [])
            (seen_all-left objects 0 events left)) in
    (
      ms',
      record { event_chan = events },
      ns',
      s',
      ran,
      queue ∙ rw fresh (ap (λ es. some (record { event_chan = es })) whole),
      processed,
      held',
      ap (λ m. follow_messages m (table ms)) channel
          ∙ admitted-followed s.client_id s.session_id [] events (table ms)
              (omega (arith, short, few))
          ∙ unfold follow_messages in
            sym (contract_all-followed calls (table ms) said)
            ∙ sym
                (transported (λ m. table m ≡ contract_all calls (table ms)) ms'' ms' ran' ran tab),
    )
