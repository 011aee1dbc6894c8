-- ===== src/Store/Subscriptions/Processor.antt =====
-- store/notification_service.go: the goroutine that takes the queued events to the subscriptions, and
-- the end of the service.
use margin_offer_system.Base.{
  ℕ, suc, String, ◌≡◌, refl, ◌∙◌, ap, Bool, true, false, ◌&&◌, some, List, [], ◌∷◌, ◌++◌,
  if◌then◌else◌, length, ltb, subst, sym, arith,
}
use margin_offer_system.Base.GoMap.{lookup}
use margin_offer_system.Base.Run.{Run, done, panic, ◌>>=◌, transported}
use margin_offer_system.Types.Time.{Time}
use margin_offer_system.Types.Offer.{MarginOffer}
use margin_offer_system.Store.Notification.{ChangeEvent, as_seen}
use margin_offer_system.Store.Subscriptions.{
  Message, Subscription, Subscriptions, SubscribeRequest, change, contains, matches_subscription,
  process_change_event, channel_capacity,
}
use margin_offer_system.Store.Subscriptions.Delivery.{IsSound, process_change_event-IsSound}
use margin_offer_system.Store.Subscriptions.Account.{
  AreDistinct, IsAfter, process_change_event-delivers,
}

-- `Stop`, from whether the stop channel is closed: to close it again panics.
unfoldable pub stop_notifications : Bool → Run Bool
stop_notifications stop_closed = if stop_closed then panic else done true

-- Rounds of `eventProcessor` over the events that wait, with the clock of each round, and with what
-- the callers' objects hold by then.
unfoldable pub event_processor :
    (ℕ → ℕ → Time)
    → (ℕ → ℕ → MarginOffer)
    → ℕ
    → List ChangeEvent
    → Subscriptions
    → Run Subscriptions
unfolding process_change_event
event_processor now objects i [] ns = done ns
event_processor now objects i (event ∷ events) ns = do
  next ← process_change_event (now i) (as_seen (objects i) event) ns
  event_processor now objects (suc i) events next

-- The events as the rounds see them.
abbrev pub seen_all : (ℕ → ℕ → MarginOffer) → ℕ → List ChangeEvent → List ChangeEvent
seen_all objects i [] = []
seen_all objects i (event ∷ events) = as_seen (objects i) event ∷ seen_all objects (suc i) events

-- A channel after events that nothing receives from: it takes those that match while it has room.
abbrev pub admitted : SubscribeRequest → List Message → List ChangeEvent → List Message
admitted filters channel [] = channel
admitted filters channel (event ∷ events) =
    let takes = matches_subscription event filters && ltb (length channel) channel_capacity in
    admitted filters (if takes then channel ++ change event ∷ [] else channel) events

-- Every object afterwards: one of the map has what was admitted, and another what it had.
abbrev pub IsServed : List ChangeEvent → Subscriptions → Subscriptions → Type 0
IsServed events ns ns' =
    (id : String) (s : Subscription)
    → lookup id ns.heap ≡ some s
    → (s' : Subscription) × (lookup id ns'.heap ≡ some s')
      × (s'.channel
          ≡ (if contains id ns.live then admitted s.filters s.channel events else s.channel))
      × (s'.filters ≡ s.filters)

-- The channel of an object of the map, or of another, after events.
abbrev served : Bool → Subscription → List ChangeEvent → List Message
served inside s events = if inside then admitted s.filters s.channel events else s.channel

served-step :
    (inside : Bool) (event : ChangeEvent) (events : List ChangeEvent) (s s1 : Subscription)
    → IsAfter inside event s s1
    → served inside s1 events ≡ served inside s (event ∷ events)
served-step true event events s s1 step = rw (step.filters, step.channel) refl
served-step false event events s s1 step = step.channel

-- An event changes the map's keys in nothing, and leaves it sound.
kept :
    (now : ℕ → Time) (event : ChangeEvent) (ns next : Subscriptions)
    → IsSound ns
    → process_change_event now event ns ≡ done next
    → IsSound next × (next.live ≡ ns.live)
kept now event ns next sound ran =
    let (ns', ran', sound', same) = process_change_event-IsSound now event ns sound in
    transported (λ r. IsSound r × (r.live ≡ ns.live)) ns' next ran' ran (sound', same)

-- Where no key of the map stands twice and every subscription of the map has an open channel that
-- is not over its capacity, the event processor takes any queue of events to its end without a
-- panic, if nothing comes between; then the channel of each subscription of the map has got, in
-- the order of the queue, the events that matchesSubscription accepts, as its rounds see them, each
-- only while fewer than 100 messages were waiting in it, and every other subscription object has the
-- channel that it had. No filters change.
pub event_processor-IsServed :
    (now : ℕ → ℕ → Time) (objects : ℕ → ℕ → MarginOffer) (i : ℕ) (events : List ChangeEvent)
    (ns : Subscriptions)
    → AreDistinct ns.live
    → IsSound ns
    → (ns' : Subscriptions) × (event_processor now objects i events ns ≡ done ns')
      × IsServed (seen_all objects i events) ns ns'
unfolding event_processor
event_processor-IsServed now objects i [] ns distinct sound =
    (ns, refl, λ id s held. (s, held, ground arith, refl))
event_processor-IsServed now objects i (queued ∷ later) ns distinct sound =
    let event = as_seen (objects i) queued in
    let events = seen_all objects (suc i) later in
    let (next, ran, first) = process_change_event-delivers (now i) event ns distinct sound in
    let (sound', same) = kept (now i) event ns next sound ran in
    let (ns', rest, after) =
      event_processor-IsServed now objects (suc i) later next
        (subst AreDistinct (sym same) distinct) sound' in
    (
      ns',
      rw ran rest,
      λ id s held.
          let (s1, held1, step) = first id s held in
          let (s', held', got, filters) = after id s1 held1 in
          (
            s',
            held',
            got
                ∙ ap (λ live. served (contains id live) s1 events) same
                ∙ served-step (contains id ns.live) event events s s1 step,
            filters ∙ step.filters,
          ),
    )
