-- ===== src/Store/Notification.antt =====
-- store/notification_service.go: the change events, and the queue that the store writes them to.
-- A channel is the list of what waits in it, oldest first, with its capacity written at the send.
use margin_offer_system.Base.{ℕ, String, List, [], ◌∷◌, ◌++◌, length, ltb, if◌then◌else◌}
use margin_offer_system.Base.GoMap.{Assoc}
use margin_offer_system.Types.Time.{Time}
use margin_offer_system.Types.Offer.{MarginOffer}

pub data ChangeType : Type 0 where
  unknown created updated deleted overwritten : ChangeType

-- The offer of an event is the caller's own object, which `pointer` stands for; `offer` is what the
-- object holds when it is looked at: first when the event is made, and later `as_seen`.
pub record ChangeEvent : Type 0 where
  pub change_type : ChangeType
  pub pointer : ℕ
  pub offer : MarginOffer
  pub timestamp : Time
  pub source : String
  pub operation_id : String
  pub metadata : Assoc String

-- The event with what the callers' objects hold by now.
abbrev pub as_seen : (ℕ → MarginOffer) → ChangeEvent → ChangeEvent
as_seen objects event = record event { offer = objects event.pointer }

-- The part of the service that a store operation reaches: the buffer of `eventChan`.
pub record NotificationService : Type 0 where
  pub event_chan : List ChangeEvent

-- `make(chan *ChangeEvent, 1000)`
abbrev pub event_capacity : ℕ
event_capacity = 1000

-- `NotifyChange`: an event that finds the channel full is dropped.
unfoldable pub notify_change : ChangeEvent → NotificationService → NotificationService
notify_change event ns =
    if ltb (length ns.event_chan) event_capacity
    then record ns { event_chan = ns.event_chan ++ event ∷ [] }
    else ns

unfoldable pub new_notification_service : NotificationService
new_notification_service = record { event_chan = [] }
