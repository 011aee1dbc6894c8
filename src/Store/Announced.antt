-- ===== src/Store/Announced.antt =====
-- store/memory_store.go and store/notification_service.go: the change events that the calls of a
-- store queue. `Create` and `Update` queue one each; the other calls of a history queue none.
mod Quiet
mod Leaves
mod Calls
mod Followed
pub mod Queue
pub mod Mirror
use mathlib.Core.Option
use margin_offer_system.Base.{◌-◌, ◌≡◌, refl, Option, none, some, List, [], ◌∷◌, ◌++◌, length, take}
use margin_offer_system.Types.Offer.{MarginOffer, validate}
use margin_offer_system.Store.Notification.{
  NotificationService, ChangeEvent, created, updated, notify_change, event_capacity,
}
use margin_offer_system.Store.Memory.{Env}
use margin_offer_system.Store.Memory.Invariant.{Table}
use margin_offer_system.Store.Memory.Spec.{stamp_created, stamp_updated}
use margin_offer_system.Store.Histories.{Call, creation, modification, contract}

-- The event of an accepted `Create` and of an accepted `Update`.
abbrev pub creation_event : Env → MarginOffer → ChangeEvent
creation_event env o = record {
  change_type = created;
  pointer = env.pointers 0;
  offer = stamp_created (env.now 0) o;
  timestamp = env.now 0;
  source = "api";
  operation_id = env.operation_id;
  metadata = ("method", "Create") ∷ [];
}

abbrev pub modification_event : Env → MarginOffer → ChangeEvent
modification_event env o = record {
  change_type = updated;
  pointer = env.pointers 0;
  offer = stamp_updated (env.now 0) o;
  timestamp = env.now 2;
  source = "api";
  operation_id = env.operation_id;
  metadata = ("method", "Update") ∷ [];
}

-- What a call announces, from the table that it finds.
abbrev pub announced : Env → Call → Table → List ChangeEvent
announced env (creation (some o)) t = elim (validate o) [
  | some _ ↦ []
  | none ↦ elim (t o.id) [ some _ ↦ [] | none ↦ creation_event env o ∷ [] ]
]
announced env (modification (some o)) t = elim (validate o) [
  | some _ ↦ []
  | none ↦ elim (t o.id) [ none ↦ [] | some _ ↦ modification_event env o ∷ [] ]
]
announced env _ t = []

-- What a history announces, from the table at its start.
unfoldable pub announced_all : List (Env × Call) → Table → List ChangeEvent
announced_all [] t = []
announced_all ((env, call) ∷ calls) t =
    announced env call t ++ announced_all calls ((contract env call t).1)

-- Events one after another, each queued if there is room.
abbrev pub notified : List ChangeEvent → Option NotificationService → Option NotificationService
notified [] n = n
notified (e ∷ es) n = notified es (Option.map (notify_change e) n)

pub notified-append :
    (xs ys : List ChangeEvent) (n : Option NotificationService)
    → notified (xs ++ ys) n ≡ notified ys (notified xs n)
notified-append [] ys n = refl
notified-append (x ∷ xs) ys n = notified-append xs ys (Option.map (notify_change x) n)

-- A queue with as many of the events as it has room for.
abbrev pub queued : List ChangeEvent → NotificationService → NotificationService
queued events ns = record ns {
  event_chan = ns.event_chan ++ take (event_capacity - length ns.event_chan) events;
}
