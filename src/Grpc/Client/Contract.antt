-- ===== src/Grpc/Client/Contract.antt =====
-- What the writes of the store's client come to, through the server, on the memory store.
use mathlib.Core.Option
use margin_offer_system.Base.{String, ◌≡◌, refl, false, Option, none, some, ◌==◌, ap, ◌∙◌}
use margin_offer_system.Base.Run.{Run, done}
use margin_offer_system.Types.Error.{Error, offer_not_found}
use margin_offer_system.Types.Offer.{MarginOffer, validate}
use margin_offer_system.Types.Offer.Laws.{id_of_validate}
use margin_offer_system.Store.Memory.{
  MemoryStore, Env, Reply, create, update, get_by_id, found, failed,
}
use margin_offer_system.Store.Memory.Handed.{HandsBack, create-HandsBack, update-HandsBack}
use margin_offer_system.Store.Memory.Invariant.{table, IsConsistent}
use margin_offer_system.Store.Memory.Spec.{Outcome, spec_create, spec_update, stamp_created}
use margin_offer_system.Store.Memory.Refine.{Refines, create-Refines, update-Refines}
use margin_offer_system.Store.Memory.Roundtrip.{create-get_by_id}
use margin_offer_system.Grpc.Messages.{Timestamps, KeepsTimes, OfferMessage, reply}
use margin_offer_system.Grpc.Converters.{margin_offer_to_proto}
use margin_offer_system.Grpc.Converters.Laws.{IsCarried, message_of}
use margin_offer_system.Grpc.Server.{
  write_offer, create_margin_offer, update_margin_offer, get_margin_offer, offer_reply,
}
use margin_offer_system.Grpc.Client.{Failure, Call}
use margin_offer_system.Grpc.Client.Methods.{
  remote_write, remote_create, remote_update, remote_get_by_id, received_offer,
}
use margin_offer_system.Grpc.Client.Laws.{sent, status_of, remote_write-write_offer, received_lem}

-- A remote write that ends with the contract's table and, as a status, with its error.
abbrev pub RemotelyRefines : Run (MemoryStore × Option Failure) → Outcome → Type 0
RemotelyRefines run spec =
    (ms : MemoryStore) × (run ≡ done (ms, Option.map status_of (spec.0)))
    × IsConsistent ms
    × ((id : String) → table ms id ≡ spec.1 id)

module _ (ts : Timestamps) where
  open ts use {Stamp}

  -- `GetMarginOffer` as a call, which leaves the store alone.
  abbrev pub get_call : Call MemoryStore String (OfferMessage Stamp)
  get_call id ms = done (ms, get_margin_offer ts id ms)

module _ (ts : Timestamps) (keeps : KeepsTimes ts) where
  open ts use {Stamp}

  write-RemotelyRefines :
      (operation : Option MarginOffer → MemoryStore → Run Reply) (o : MarginOffer)
      (ms : MemoryStore) (spec : Outcome)
      → IsCarried o
      → HandsBack (operation (some (sent o)) ms)
      → Refines (operation (some (sent o)) ms) spec
      → RemotelyRefines (remote_write ts (write_offer ts operation) (some o) ms) spec
  write-RemotelyRefines operation o ms spec c hands (r, ran, consistent, e, t) = (
    r.store,
    remote_write-write_offer ts keeps operation o ms r c hands ran
        ∙ ap (λ (x : Option Error). done (r.store, Option.map status_of x)) e,
    consistent,
    t,
  )

  -- If times arrive as they were sent, then for an offer whose type and interest model the
  -- service knows and on a consistent store, Create of the client over CreateMarginOffer of the
  -- server ends without a panic in a consistent store, with the table that Create's contract
  -- gives for the offer without its source, and fails with the code and the text of the
  -- contract's error exactly where there is one.
  pub remote_create-RemotelyRefines :
      (env : Env) (o : MarginOffer) (ms : MemoryStore)
      → IsCarried o
      → IsConsistent ms
      → RemotelyRefines
          (remote_create ts (create_margin_offer ts env) (some o) ms)
          (spec_create (env.now 0) (some (sent o)) (table ms))
  unfolding remote_create create_margin_offer
  remote_create-RemotelyRefines env o ms c consistent =
      write-RemotelyRefines (create env) o ms _ c (create-HandsBack env (sent o) ms)
        (create-Refines env (some (sent o)) ms consistent)

  -- The same for Update.
  remote_update-RemotelyRefines :
      (env : Env) (o : MarginOffer) (ms : MemoryStore)
      → IsCarried o
      → IsConsistent ms
      → RemotelyRefines
          (remote_update ts (update_margin_offer ts env) (some o) ms)
          (spec_update (env.now 0) (some (sent o)) (table ms))
  unfolding remote_update update_margin_offer
  remote_update-RemotelyRefines env o ms c consistent =
      write-RemotelyRefines (update env) o ms _ c (update-HandsBack env (sent o) ms)
        (update-Refines env (some (sent o)) ms consistent)

  got_lem :
      (id : String) (o : MarginOffer) (ms : MemoryStore)
      → (id == "") ≡ false
      → get_by_id id ms ≡ found o
      → get_margin_offer ts id ms ≡ reply (message_of ts o)
  unfolding get_margin_offer offer_reply margin_offer_to_proto
  got_lem id o ms given there = rw (given, there) refl

  remote_get_lem :
      (id : String) (o : MarginOffer) (ms : MemoryStore)
      → (id == "") ≡ false
      → get_by_id id ms ≡ found o
      → remote_get_by_id ts (get_call ts) id ms ≡ done (ms, reply (sent o))
  unfolding remote_get_by_id received_offer
  remote_get_lem id o ms given there =
      rw (got_lem id o ms given there, received_lem ts keeps o) refl

  -- If times arrive as they were sent, then for a valid offer whose type and interest model the
  -- service knows, on a consistent store without an offer under its ID, Create of the client over
  -- the server reports no error, and GetByID of the client then returns the offer with its two
  -- times set and without its source.
  pub remote_create-remote_get_by_id :
      (env : Env) (o : MarginOffer) (ms : MemoryStore)
      → IsCarried o
      → IsConsistent ms
      → validate o ≡ none
      → get_by_id o.id ms ≡ failed offer_not_found
      → (ms' : MemoryStore) × (remote_create ts (create_margin_offer ts env) (some o) ms
          ≡ done (ms', none))
        × (remote_get_by_id ts (get_call ts) o.id ms'
            ≡ done (ms', reply (stamp_created (env.now 0) (sent o))))
  unfolding remote_create create_margin_offer validate
  remote_create-remote_get_by_id env o ms c consistent v absent =
      let (r, ran, fine, there, _) = create-get_by_id env (sent o) ms consistent v absent in
      (
        r.store,
        remote_write-write_offer ts keeps (create env) o ms r c (create-HandsBack env (sent o) ms)
              ran
            ∙ ap (λ (x : Option Error). done (r.store, Option.map status_of x)) fine,
        remote_get_lem o.id (stamp_created (env.now 0) (sent o)) r.store (id_of_validate o v) there,
      )
