-- ===== src/Store/Memory/Handed.antt =====
-- An operation on an offer hands the caller's offer back, whatever its error.
use margin_offer_system.Base.{◌≡◌, Option, none, some, arith, inl, inr}
use margin_offer_system.Base.Run.{Run, done, Run-cases}
use margin_offer_system.Types.Error.{Error}
use margin_offer_system.Types.Offer.{MarginOffer, validate, update_timestamp}
use margin_offer_system.Store.Memory.{
  MemoryStore, Env, Reply, create, create_at, update, update_at, after_validation, store_offer,
  remove_from_indexes,
}
use margin_offer_system.Store.Memory.Spec.{stamp_created}
use margin_offer_system.Base.GoMap.{get}

abbrev pub HandsBack : Run Reply → Type 0
HandsBack run = (r : Reply) → run ≡ done r → (o : MarginOffer) × (r.offer ≡ some o)

after_validation-HandsBack :
    (e : Option Error) (o : MarginOffer) (ms : MemoryStore) (rest : Run Reply)
    → HandsBack rest
    → HandsBack (after_validation e o ms rest)
unfolding after_validation
after_validation-HandsBack none o ms rest k r h = k r h
after_validation-HandsBack (some e) o ms rest k r h = (o, ground arith)

create_at-HandsBack :
    (env : Env) (o : MarginOffer) (ms : MemoryStore) (stored : Option MarginOffer)
    → HandsBack (create_at env o ms stored)
unfolding create_at
create_at-HandsBack env o ms (some x) r h = (o, ground arith)
create_at-HandsBack env o ms none r h =
    elim (Run-cases (store_offer (stamp_created (env.now 0) o) ms)) [
      | inl (ms', ran) ↦ (stamp_created (env.now 0) o, ground (arith, h, ran))
      | inr stop ↦ ground (arith, h, stop)
    ]

update_at-HandsBack :
    (env : Env) (o : MarginOffer) (ms : MemoryStore) (stored : Option MarginOffer)
    → HandsBack (update_at env o ms stored)
unfolding update_at
update_at-HandsBack env o ms none r h = (o, ground arith)
update_at-HandsBack env o ms (some old) r h = elim (Run-cases (remove_from_indexes old ms)) [
  | inr stop ↦ ground (arith, h, stop)
  | inl (removed, ran) ↦ elim (Run-cases (store_offer (update_timestamp (env.now 0) o) removed)) [
    | inl (ms', ran') ↦ (update_timestamp (env.now 0) o, ground (arith, h, ran, ran'))
    | inr stop ↦ ground (arith, h, ran, stop)
  ]
]

pub create-HandsBack :
    (env : Env) (o : MarginOffer) (ms : MemoryStore) → HandsBack (create env (some o) ms)
unfolding create
create-HandsBack env o ms =
    after_validation-HandsBack (validate o) o ms _
      (create_at-HandsBack env o ms (get o.id ms.offers))

pub update-HandsBack :
    (env : Env) (o : MarginOffer) (ms : MemoryStore) → HandsBack (update env (some o) ms)
unfolding update
update-HandsBack env o ms =
    after_validation-HandsBack (validate o) o ms _
      (update_at-HandsBack env o ms (get o.id ms.offers))
