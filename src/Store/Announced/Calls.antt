-- ===== src/Store/Announced/Calls.antt =====
-- What each call of a history leaves of the notification service.
use mathlib.Core.Option
use margin_offer_system.Base.{
  ◌≡◌, refl, ap, Option, none, some, [], ◌∷◌, Option-cases, inl, inr, arith,
}
use margin_offer_system.Base.Run.{Run}
use margin_offer_system.Types.Error.{Error}
use margin_offer_system.Types.Offer.{MarginOffer, validate, update_timestamp}
use margin_offer_system.Store.Notification.{NotificationService, notify_change}
use margin_offer_system.Store.Memory.{
  MemoryStore, Env, Reply, create, update, checked, after_validation, notify,
}
use margin_offer_system.Store.Memory.Invariant.{Table, table}
use margin_offer_system.Store.Histories.{
  Call, creation, modification, upsertion, deletion, bulk_creation, bulk_upsertion, bulk_deletion,
  perform, kept_store, kept_batch_store,
}
use margin_offer_system.Store.Upsert.{BatchReply}
use margin_offer_system.Store.Announced.{announced, notified, creation_event, modification_event}
use margin_offer_system.Store.Announced.Leaves.{
  Leaves, Leaves-bind, Leaves-done, service_of, service_of_reply, service_of_batch,
}
use margin_offer_system.Store.Announced.Quiet.{
  store_offer-Leaves, remove_from_indexes-Leaves, create_or_update-Leaves, delete_offer-Leaves,
  bulk_create-Leaves, bulk_create_or_update-Leaves, bulk_delete-Leaves,
}

module _ (env : Env) (o : MarginOffer) (t : Table) where
  creation-refused : (e : Error) → validate o ≡ some e → announced env (creation (some o)) t ≡ []
  creation-refused e h = ground arith

  creation-taken :
      (old : MarginOffer) → t o.id ≡ some old → announced env (creation (some o)) t ≡ []
  creation-taken old h = ground arith

  creation-accepted :
      validate o ≡ none
      → t o.id ≡ none
      → announced env (creation (some o)) t ≡ creation_event env o ∷ []
  creation-accepted v h = ground arith

  modification-refused :
      (e : Error) → validate o ≡ some e → announced env (modification (some o)) t ≡ []
  modification-refused e h = ground arith

  modification-absent : t o.id ≡ none → announced env (modification (some o)) t ≡ []
  modification-absent h = ground arith

  modification-accepted :
      (old : MarginOffer)
      → validate o ≡ none
      → t o.id ≡ some old
      → announced env (modification (some o)) t ≡ modification_event env o ∷ []
  modification-accepted old v h = ground arith

create-Leaves :
    (env : Env) (offer : Option MarginOffer) (ms : MemoryStore)
    → Leaves service_of_reply
        (notified (announced env (creation offer) (table ms)) (service_of ms))
        (create env offer ms)
unfolding create checked after_validation notify
create-Leaves env none ms = Leaves-done _ _ _ refl
create-Leaves env (some o) ms = elim (Option-cases (validate o)) [
  | inr (x, e) ↦ rw (creation-refused env o (table ms) x e, e) (Leaves-done _ _ _ refl)
  | inl e ↦ elim (Option-cases (table ms o.id)) [
    | inr (old, there) ↦
        rw (creation-taken env o (table ms) old there, e, there) (Leaves-done _ _ _ refl)
    | inl absent ↦
        rw (creation-accepted env o (table ms) e absent, e, absent)
          (Leaves-bind service_of service_of_reply (service_of ms) _ _ _
            (store_offer-Leaves _ _ ms refl)
            λ s k.
              Leaves-done service_of_reply _ _
                (ap (Option.map (notify_change (creation_event env o))) k))
  ]
]

update-Leaves :
    (env : Env) (offer : Option MarginOffer) (ms : MemoryStore)
    → Leaves service_of_reply
        (notified (announced env (modification offer) (table ms)) (service_of ms))
        (update env offer ms)
unfolding update checked after_validation notify update_timestamp
update-Leaves env none ms = Leaves-done _ _ _ refl
update-Leaves env (some o) ms = elim (Option-cases (validate o)) [
  | inr (x, e) ↦ rw (modification-refused env o (table ms) x e, e) (Leaves-done _ _ _ refl)
  | inl e ↦ elim (Option-cases (table ms o.id)) [
    | inl absent ↦
        rw (modification-absent env o (table ms) absent, e, absent) (Leaves-done _ _ _ refl)
    | inr (old, there) ↦
        rw (modification-accepted env o (table ms) old e there, e, there)
          (Leaves-bind service_of service_of_reply (service_of ms) _ _ _
            (remove_from_indexes-Leaves _ old ms refl)
            λ removed h.
              Leaves-bind service_of service_of_reply (service_of ms) _ _ _
                (store_offer-Leaves _ _ removed h)
                λ s k.
                  Leaves-done service_of_reply _ _
                    (ap (Option.map (notify_change (modification_event env o))) k))
  ]
]

-- What a call that ends leaves of the service.
kept-Leaves :
    (n : Option NotificationService) (run : Run Reply)
    → Leaves service_of_reply n run
    → Leaves service_of n (kept_store run)
kept-Leaves n run h = Leaves-bind service_of_reply service_of n n run _ h λ r k. Leaves-done _ _ _ k

kept_batch-Leaves :
    (n : Option NotificationService) (run : Run BatchReply)
    → Leaves service_of_batch n run
    → Leaves service_of n (kept_batch_store run)
kept_batch-Leaves n run h =
    Leaves-bind service_of_batch service_of n n run _ h λ r k. Leaves-done _ _ _ k

pub perform-Leaves :
    (env : Env) (call : Call) (ms : MemoryStore)
    → Leaves service_of
        (notified (announced env call (table ms)) (service_of ms))
        (perform env call ms)
perform-Leaves env (creation o) ms = kept-Leaves _ _ (create-Leaves env o ms)
perform-Leaves env (modification o) ms = kept-Leaves _ _ (update-Leaves env o ms)
perform-Leaves env (upsertion o) ms = kept-Leaves _ _ (create_or_update-Leaves _ env o ms refl)
perform-Leaves env (deletion id) ms = kept-Leaves _ _ (delete_offer-Leaves _ env id ms refl)
perform-Leaves env (bulk_creation os) ms =
    kept_batch-Leaves _ _ (bulk_create-Leaves _ env os ms refl)
perform-Leaves env (bulk_upsertion os) ms =
    kept_batch-Leaves _ _ (bulk_create_or_update-Leaves _ env os ms refl)
perform-Leaves env (bulk_deletion ids) ms = kept-Leaves _ _ (bulk_delete-Leaves _ env ids ms refl)
