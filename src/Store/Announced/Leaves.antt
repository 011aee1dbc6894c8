-- ===== src/Store/Announced/Leaves.antt =====
-- Runs that leave the notification service as it was.
use margin_offer_system.Base.{◌≡◌, refl, Option, List, inl, inr, ◌⊎◌, subst}
use margin_offer_system.Base.Run.{Run, done, panic, ◌>>=◌}
use margin_offer_system.Types.Error.{Error}
use margin_offer_system.Types.Offer.{MarginOffer}
use margin_offer_system.Store.Notification.{NotificationService}
use margin_offer_system.Store.Memory.{MemoryStore, Reply}
use margin_offer_system.Store.Upsert.{BatchReply}
use margin_offer_system.Store.Bulk.{Collected, collected, missing}

-- A result of a run, if there is one, that has the service `n` in it.
unfoldable pub Leaves :
    {A : Type 0} → (A → Option NotificationService) → Option NotificationService → Run A → Type 0
Leaves service n (done a) = service a ≡ n
Leaves service n panic = Unit

abbrev pub service_of : MemoryStore → Option NotificationService
service_of ms = ms.notification_service

abbrev pub service_of_reply : Reply → Option NotificationService
service_of_reply r = r.store.notification_service

abbrev pub service_of_batch : BatchReply → Option NotificationService
service_of_batch r = r.store.notification_service

abbrev pub service_beside : {A : Type 0} → A × MemoryStore → Option NotificationService
service_beside (_, ms) = ms.notification_service

-- What follows a step without a service, and a step that leaves one.
pub Leaves-then :
    {A B : Type 0} (service : B → Option NotificationService) (n : Option NotificationService)
    → (run : Run A) (rest : A → Run B) → ((a : A) → Leaves service n (rest a))
    → Leaves service n (run >>= rest)
unfolding Leaves
Leaves-then service n (done a) rest h = h a
Leaves-then service n panic rest h = tt

pub Leaves-bind :
    {A B : Type 0} (service : A → Option NotificationService)
    → (service' : B → Option NotificationService) (n n' : Option NotificationService)
    → (run : Run A) (rest : A → Run B) → Leaves service n run
    → ((a : A) → service a ≡ n → Leaves service' n' (rest a))
    → Leaves service' n' (run >>= rest)
unfolding Leaves
Leaves-bind service service' n n' (done a) rest h k = k a h
Leaves-bind service service' n n' panic rest h k = tt

pub Leaves-done :
    {A : Type 0} (service : A → Option NotificationService) (n : Option NotificationService) (a : A)
    → service a ≡ n
    → Leaves service n (done a)
unfolding Leaves
Leaves-done service n a h = h

-- A run that ended left the service.
pub Leaves-ran :
    {A : Type 0} (service : A → Option NotificationService) (n : Option NotificationService)
    → {run : Run A} (a : A) → Leaves service n run
    → run ≡ done a
    → service a ≡ n
unfolding Leaves
Leaves-ran service n a h e = subst (Leaves service n) e h

pub Collected-cases :
    (c : Collected)
    → ((e : Error) × (c ≡ missing e)) ⊎ ((olds : List MarginOffer) × (c ≡ collected olds))
Collected-cases (missing e) = inl (e, refl)
Collected-cases (collected olds) = inr (olds, refl)
