-- ===== src/Store/Announced/Queue.antt =====
-- The queue of change events after a history of calls.
use mathlib.Core.Option
use mathlib.Core.List.{append_assoc, append-nil}
use margin_offer_system.Base.{
  ℕ, suc, zero, ◌-◌, ◌<◌, ◌≡◌, refl, ◌∙◌, ap, sym, Option, none, some, List, [], ◌∷◌, ◌++◌, length,
  take, Bool-cases, inl, inr, arith, length-append, ltb, false,
}
use margin_offer_system.Base.Run.{done}
use margin_offer_system.Store.Notification.{
  NotificationService, ChangeEvent, notify_change, event_capacity,
}
use margin_offer_system.Store.Memory.{MemoryStore, Env}
use margin_offer_system.Store.Memory.Invariant.{table, IsConsistent}
use margin_offer_system.Store.Histories.{Call, contract, perform_all, perform_lem}
use margin_offer_system.Store.Announced.{
  announced_all, announced, notified, notified-append, queued,
}
use margin_offer_system.Store.Announced.Leaves.{Leaves-ran, service_of}
use margin_offer_system.Store.Announced.Calls.{perform-Leaves}

take-none : (k : ℕ) → take {A = ChangeEvent} k [] ≡ []
take-none zero = refl
take-none (suc k) = refl

-- One more item in a list that has room for it, and in one that is full.
module _ (c : ℕ) (xs : List ChangeEvent) (y : ChangeEvent) (ys : List ChangeEvent) where
  filled-room :
      length xs < c
      → (xs ++ y ∷ []) ++ take (c - length (xs ++ y ∷ [])) ys ≡ xs ++ take (c - length xs) (y ∷ ys)
  filled-room h =
      let one : c - length xs ≡ suc (c - length (xs ++ y ∷ [])) =
        omega (arith, length-append xs (y ∷ [])) in
      rw one (append_assoc xs (y ∷ []) (take (c - length (xs ++ y ∷ [])) ys))

  filled-full : ltb (length xs) c ≡ false → take (c - length xs) (y ∷ ys) ≡ take (c - length xs) ys
  filled-full h = let no_room : c - length xs ≡ 0 = ground arith in rw no_room refl

queued-cons :
    (e : ChangeEvent) (es : List ChangeEvent) (ns : NotificationService)
    → queued es (notify_change e ns) ≡ queued (e ∷ es) ns
unfolding notify_change
queued-cons e es ns = elim (Bool-cases (ltb (length ns.event_chan) event_capacity)) [
  | inl room ↦ rw room (
      ap (λ q. record ns { event_chan = q })
        (filled-room event_capacity ns.event_chan e es (ground arith)))
  | inr full ↦ rw full (
      ap (λ q. record ns { event_chan = ns.event_chan ++ q })
        (sym (filled-full event_capacity ns.event_chan e es full)))
]

notified-queued :
    (es : List ChangeEvent) (n : Option NotificationService)
    → notified es n ≡ Option.map (queued es) n
notified-queued [] none = refl
notified-queued [] (some ns) =
    ap (λ q. some (record ns { event_chan = q }))
      (sym (ap (◌++◌ ns.event_chan) (take-none _) ∙ append-nil ns.event_chan))
notified-queued (e ∷ es) none = notified-queued es none
notified-queued (e ∷ es) (some ns) =
    notified-queued es (some (notify_change e ns)) ∙ ap some (queued-cons e es ns)

perform_all-notified :
    (calls : List (Env × Call)) (ms : MemoryStore)
    → IsConsistent ms
    → (ms' : MemoryStore) × (perform_all calls ms ≡ done ms')
      × (service_of ms' ≡ notified (announced_all calls (table ms)) (service_of ms))
unfolding perform_all announced_all
perform_all-notified [] ms c = (ms, refl, refl)
perform_all-notified ((env, call) ∷ calls) ms c =
    let (next, ran, c', here) = perform_lem env call ms c in
    let (final, rest, there) = perform_all-notified calls next c' in
    let now = Leaves-ran service_of _ next (perform-Leaves env call ms) ran in
    (
      final,
      rw ran rest,
      there
          ∙ ap (λ t. notified (announced_all calls t) (service_of next)) here
          ∙ ap (notified (announced_all calls ((contract env call (table ms)).1))) now
          ∙ sym (notified-append (announced env call (table ms)) _ (service_of ms)),
    )

-- A history of Create, Update, CreateOrUpdate, Delete, BulkCreate, BulkCreateOrUpdate and
-- BulkDelete, with any arguments, from a consistent store ends without a panic, and its queue of
-- change events then has, behind what waited in it, one event for each Create and each Update
-- that its contract accepts, in order, as far as 1000 places go; the other calls queue nothing.
-- An event has the pointer that its call was given, whose object holds the stored offer when the
-- event is queued; what callers write to the object later is not told here.
pub perform_all-queued :
    (calls : List (Env × Call)) (ms : MemoryStore)
    → IsConsistent ms
    → (ms' : MemoryStore) × (perform_all calls ms ≡ done ms')
      × (ms'.notification_service
          ≡ Option.map (queued (announced_all calls (table ms))) ms.notification_service)
perform_all-queued calls ms c =
    let (final, ran, same) = perform_all-notified calls ms c in
    (final, ran, same ∙ notified-queued (announced_all calls (table ms)) ms.notification_service)
