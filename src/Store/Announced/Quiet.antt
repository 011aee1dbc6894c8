-- ===== src/Store/Announced/Quiet.antt =====
-- The parts of the store's operations that queue no change event.
use margin_offer_system.Base.{
  ℕ, suc, String, ◌≡◌, Option, none, some, List, [], ◌∷◌, Option-cases, inl, inr, ◌==◌, arith,
  Bool-cases,
}
use margin_offer_system.Base.GoMap.{get, put}
use margin_offer_system.Base.Run.{Run}
use margin_offer_system.Types.Time.{Time}
use margin_offer_system.Types.Error.{Error}
use margin_offer_system.Types.Offer.{MarginOffer, validate, clone}
use margin_offer_system.Store.Notification.{NotificationService}
use margin_offer_system.Store.Memory.{
  MemoryStore, Env, add_to_indexes, remove_from_indexes, store_offer, checked, after_validation,
  delete_offer,
}
use margin_offer_system.Store.Upsert.{
  BatchReply, create_or_update_internal, create_or_update, after_batch_validation, upsert_all,
  bulk_create_or_update, insert_all,
}
use margin_offer_system.Store.Bulk.{
  bulk_create, bulk_delete, delete_ids, stamp_new, check_absent, collect_ids, validate_new,
}
use margin_offer_system.Store.Announced.Leaves.{
  Leaves, service_of, service_of_reply, service_of_batch, service_beside, Leaves-then, Leaves-bind,
  Leaves-done, Collected-cases,
}

module _ (n : Option NotificationService) where
  add_to_indexes-Leaves :
      (o : MarginOffer) (ms : MemoryStore)
      → service_of ms ≡ n
      → Leaves service_of n (add_to_indexes o ms)
  unfolding add_to_indexes Leaves
  add_to_indexes-Leaves o ms h = ground arith

  pub remove_from_indexes-Leaves :
      (o : MarginOffer) (ms : MemoryStore)
      → service_of ms ≡ n
      → Leaves service_of n (remove_from_indexes o ms)
  unfolding remove_from_indexes Leaves
  remove_from_indexes-Leaves o ms h = ground arith

  pub store_offer-Leaves :
      (o : MarginOffer) (ms : MemoryStore)
      → service_of ms ≡ n
      → Leaves service_of n (store_offer o ms)
  unfolding store_offer
  store_offer-Leaves o ms h =
      Leaves-then service_of n (put o.id (clone o) ms.offers) _
        λ offers. add_to_indexes-Leaves o (record ms { offers = offers }) h

  internal-Leaves :
      (now : Time) (o : MarginOffer) (ms : MemoryStore)
      → service_of ms ≡ n
      → Leaves service_beside n (create_or_update_internal now o ms)
  unfolding create_or_update_internal
  internal-Leaves now o ms h = elim (Option-cases (get o.id ms.offers)) [
    | inl e ↦ rw e (
        Leaves-bind service_of service_beside n n _ _ (store_offer-Leaves _ ms h)
          λ s k. Leaves-done _ n _ k)
    | inr (old, e) ↦ rw e (
        Leaves-bind service_of service_beside n n _ _ (remove_from_indexes-Leaves old ms h)
          λ removed k.
            Leaves-bind service_of service_beside n n _ _ (store_offer-Leaves _ removed k)
              λ s l. Leaves-done _ n _ l)
  ]

  pub create_or_update-Leaves :
      (env : Env) (offer : Option MarginOffer) (ms : MemoryStore)
      → service_of ms ≡ n
      → Leaves service_of_reply n (create_or_update env offer ms)
  unfolding create_or_update checked after_validation
  create_or_update-Leaves env none ms h = Leaves-done _ n _ h
  create_or_update-Leaves env (some o) ms h = elim (Option-cases (validate o)) [
    | inr (x, e) ↦ rw e (Leaves-done _ n _ h)
    | inl e ↦ rw e (
        Leaves-bind service_beside _ n n _ _ (internal-Leaves (env.now 0) o ms h)
          λ r k. Leaves-done service_of_reply n _ k)
  ]

  upsert_all-Leaves :
      (env : Env) (i : ℕ) (offers : List (Option MarginOffer)) (ms : MemoryStore)
      → service_of ms ≡ n
      → Leaves service_beside n (upsert_all env i offers ms)
  unfolding upsert_all
  upsert_all-Leaves env i [] ms h = Leaves-done _ n _ h
  upsert_all-Leaves env i (none ∷ offers) ms h = unfold Leaves in tt
  upsert_all-Leaves env i (some o ∷ offers) ms h =
      Leaves-bind service_beside service_beside n n _ _ (internal-Leaves (env.now i) o ms h) λ r k.
        Leaves-bind service_beside service_beside n n _ _
          (upsert_all-Leaves env (suc i) offers (r.1) k) λ q l. Leaves-done _ n _ l

  insert_all-Leaves :
      (stamp : MarginOffer → MarginOffer) (offers : List (Option MarginOffer)) (ms : MemoryStore)
      → service_of ms ≡ n
      → Leaves service_beside n (insert_all stamp offers ms)
  unfolding insert_all
  insert_all-Leaves stamp [] ms h = Leaves-done _ n _ h
  insert_all-Leaves stamp (none ∷ offers) ms h = unfold Leaves in tt
  insert_all-Leaves stamp (some o ∷ offers) ms h =
      Leaves-bind service_of service_beside n n _ _ (store_offer-Leaves (stamp o) ms h) λ s k.
        Leaves-bind service_beside service_beside n n _ _ (insert_all-Leaves stamp offers s k)
          λ q l. Leaves-done _ n _ l

  delete_ids-Leaves :
      (ids : List String) (olds : List MarginOffer) (ms : MemoryStore)
      → service_of ms ≡ n
      → Leaves service_of n (delete_ids ids olds ms)
  unfolding delete_ids
  delete_ids-Leaves [] olds ms h = Leaves-done _ n _ h
  delete_ids-Leaves (id ∷ ids) [] ms h = unfold Leaves in tt
  delete_ids-Leaves (id ∷ ids) (old ∷ olds) ms h =
      Leaves-bind service_of service_of n n _ _ (remove_from_indexes-Leaves old ms h)
        λ removed k. delete_ids-Leaves ids olds _ k

  -- The rest of an operation on a batch, behind an error.
  after_batch-Leaves :
      (e : Option Error) (offers : List (Option MarginOffer)) (ms : MemoryStore)
      (rest : Run BatchReply)
      → service_of ms ≡ n
      → Leaves service_of_batch n rest
      → Leaves service_of_batch n (after_batch_validation e offers ms rest)
  unfolding after_batch_validation
  after_batch-Leaves (some e) offers ms rest h k = Leaves-done _ n _ h
  after_batch-Leaves none offers ms rest h k = k

  pub bulk_create_or_update-Leaves :
      (env : Env) (offers : List (Option MarginOffer)) (ms : MemoryStore)
      → service_of ms ≡ n
      → Leaves service_of_batch n (bulk_create_or_update env offers ms)
  unfolding bulk_create_or_update
  bulk_create_or_update-Leaves env [] ms h = Leaves-done _ n _ h
  bulk_create_or_update-Leaves env (o ∷ offers) ms h = after_batch-Leaves _ _ ms _ h (
      Leaves-bind service_beside _ n n _ _ (upsert_all-Leaves env 0 (o ∷ offers) ms h)
        λ q l. Leaves-done service_of_batch n _ l)

  pub bulk_create-Leaves :
      (env : Env) (offers : List (Option MarginOffer)) (ms : MemoryStore)
      → service_of ms ≡ n
      → Leaves service_of_batch n (bulk_create env offers ms)
  unfolding bulk_create
  bulk_create-Leaves env [] ms h = Leaves-done _ n _ h
  bulk_create-Leaves env (o ∷ offers) ms h =
      after_batch-Leaves (validate_new (o ∷ offers)) (o ∷ offers) ms _ h (
        Leaves-then service_of_batch n (check_absent (o ∷ offers) ms) _ λ conflict.
          after_batch-Leaves conflict (o ∷ offers) ms _ h (
            Leaves-bind service_beside _ n n _ _
              (insert_all-Leaves (stamp_new (env.now 0)) (o ∷ offers) ms h)
              λ q l. Leaves-done service_of_batch n _ l))

  pub bulk_delete-Leaves :
      (env : Env) (ids : List String) (ms : MemoryStore)
      → service_of ms ≡ n
      → Leaves service_of_reply n (bulk_delete env ids ms)
  unfolding bulk_delete
  bulk_delete-Leaves env [] ms h = Leaves-done _ n _ h
  bulk_delete-Leaves env (id ∷ ids) ms h = elim (Collected-cases (collect_ids (id ∷ ids) ms)) [
    | inl (x, e) ↦ rw e (Leaves-done _ n _ h)
    | inr (olds, e) ↦ rw e (
        Leaves-bind service_of _ n n _ _ (delete_ids-Leaves (id ∷ ids) olds ms h)
          λ s k. Leaves-done service_of_reply n _ k)
  ]

  pub delete_offer-Leaves :
      (env : Env) (id : String) (ms : MemoryStore)
      → service_of ms ≡ n
      → Leaves service_of_reply n (delete_offer env id ms)
  unfolding delete_offer
  delete_offer-Leaves env id ms h = elim (Bool-cases (id == "")) [
    | inl e ↦ rw e (Leaves-done _ n _ h)
    | inr e ↦ rw e (elim (Option-cases (get id ms.offers)) [
      | inl absent ↦ rw absent (Leaves-done _ n _ h)
      | inr (old, there) ↦ rw there (
          Leaves-bind service_of _ n n _ _ (remove_from_indexes-Leaves old ms h)
            λ s k. Leaves-done service_of_reply n _ k)
    ])
  ]
