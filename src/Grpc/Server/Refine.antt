-- ===== src/Grpc/Server/Refine.antt =====
-- The handler of upserts implements its contract, whatever comes between its two looks at the store.
use margin_offer_system.Base.{
  String, ◌≡◌, refl, Bool, true, false, Option, none, some, ◌==◌, inl, inr, ap, Option-cases,
  Bool-cases,
}
use margin_offer_system.Base.Run.{Run, done, ◌>>=◌}
use margin_offer_system.Types.Time.{Time}
use margin_offer_system.Types.Error.{Error, error_text, missing_id}
use margin_offer_system.Types.Offer.{MarginOffer, validate}
use margin_offer_system.Types.Pool.Bytes.{ok}
use margin_offer_system.Store.Memory.{MemoryStore, Env, Reply, create, update, get_by_id, failed}
use margin_offer_system.Store.Memory.Handed.{HandsBack, create-HandsBack, update-HandsBack}
use margin_offer_system.Store.Memory.Invariant.{Table, table, IsConsistent}
use margin_offer_system.Store.Memory.Roundtrip.{get_by_id_lem}
use margin_offer_system.Store.Memory.Spec.{Outcome, spec_create, spec_update, refuse}
use margin_offer_system.Store.Memory.Refine.{Refines, create-Refines, update-Refines}
use margin_offer_system.Grpc.Messages.{
  Timestamps, OfferMessage, UpsertResponse, StatusOr, reply, refused,
}
use margin_offer_system.Grpc.Converters.{proto_to_margin_offer, margin_offer_to_proto}
use margin_offer_system.Grpc.Converters.Laws.{message_of}
use margin_offer_system.Grpc.Server.Bulk.{is_none}
use margin_offer_system.Grpc.Server.{
  Answer, store_code, handle_store_error, after_upsert, upsert_found, create_or_update_margin_offer,
}

-- The contract: what was seen under the ID decides whether it is a creation or an update.
abbrev pub upsert_contract : Time → Option MarginOffer → MarginOffer → Table → Outcome
upsert_contract now none o t = spec_create now (some o) t
upsert_contract now (some _) o t = spec_update now (some o) t

module _ (ts : Timestamps) where
  open ts use {Stamp}

  -- The response for an error, and for none, where `created` says whether an offer is new.
  abbrev pub Gives : Option Error → Bool → StatusOr (UpsertResponse Stamp) → Type 0
  Gives (some e) created (refused c text) = (c ≡ store_code e) × (text ≡ error_text e)
  Gives (some e) created (reply r) = ⊥
  Gives none created (refused c text) = ⊥
  Gives none created (reply r) = r.was_created ≡ created

  -- A handler that ends with the contract's error and table, and in a consistent store.
  abbrev pub Serves : Run (Answer (UpsertResponse Stamp)) → Bool → Outcome → Type 0
  Serves run created spec =
      (ms : MemoryStore) × (answer : StatusOr (UpsertResponse Stamp)) × (run ≡ done (ms, answer))
      × IsConsistent ms
      × ((id : String) → table ms id ≡ spec.1 id)
      × Gives (spec.0) created answer

  after_upsert-Gives :
      (created : Bool) (r : Reply) (e : Option Error) (o : MarginOffer)
      → r.error ≡ e
      → r.offer ≡ some o
      → (answer : StatusOr (UpsertResponse Stamp)) × (after_upsert ts created r ≡ (r.store, answer))
        × Gives e created answer
  unfolding after_upsert margin_offer_to_proto handle_store_error
  after_upsert-Gives created r none o he ho =
      (reply (record { offer = message_of ts o; was_created = created }), rw (he, ho) refl, refl)
  after_upsert-Gives created r (some e) o he ho =
      (refused (store_code e) (error_text e), rw he refl, (refl, refl))

  serve :
      (created : Bool) (run : Run Reply) (spec : Outcome)
      → Refines run spec
      → HandsBack run
      → Serves (do r ← run; done (after_upsert ts created r)) created spec
  serve created run spec (r, ran, c, e, t) hands =
      let (o, handed) = hands r ran in
      let (answer, after, gives) = after_upsert-Gives created r (spec.0) o e handed in
      (r.store, answer, rw ran (ap done after), c, t, gives)

  blank_id :
      (o : MarginOffer) (seen : MemoryStore)
      → (o.id == "") ≡ true
      → (validate o ≡ some missing_id) × (get_by_id o.id seen ≡ failed missing_id)
  unfolding validate get_by_id
  blank_id o seen h = (rw h refl, rw h refl)

  contract_blank :
      (now : Time) (stored : Option MarginOffer) (o : MarginOffer) (t : Table)
      → validate o ≡ some missing_id
      → upsert_contract now stored o t ≡ refuse missing_id t
  contract_blank now none o t h = rw h refl
  contract_blank now (some _) o t h = rw h refl

  -- For every store that was seen and every consistent store at the write.
  upsert_found-Serves :
      (env : Env) (o : MarginOffer) (seen ms : MemoryStore)
      → IsConsistent ms
      → Serves
          (upsert_found ts env o (get_by_id o.id seen) ms)
          (is_none (table seen o.id))
          (upsert_contract (env.now 0) (table seen o.id) o (table ms))
  unfolding upsert_found handle_store_error
  upsert_found-Serves env o seen ms c = elim (Bool-cases (o.id == "")) [
    | inl blank ↦
        let (invalid, unseen) = blank_id o seen blank in
        rw (unseen, contract_blank (env.now 0) (table seen o.id) o (table ms) invalid)
          (
            ms,
            refused (store_code missing_id) (error_text missing_id),
            refl,
            c,
            (λ id. refl),
            (refl, refl),
          )
    | inr given ↦ elim (Option-cases (table seen o.id)) [
      | inl absent ↦
          rw (get_by_id_lem o.id seen given, absent)
            (serve true (create env (some o) ms) _ (create-Refines env (some o) ms c)
              (create-HandsBack env o ms))
      | inr (old, there) ↦
          rw (get_by_id_lem o.id seen given, there)
            (serve false (update env (some o) ms) _ (update-Refines env (some o) ms c)
              (update-HandsBack env o ms))
    ]
  ]

  -- For a message that is converted to an offer, any store at the lookup and any consistent store
  -- at the write, CreateOrUpdateMarginOffer ends without a panic in a consistent store, with the
  -- table of Create's contract where the lookup found nothing under the ID and of Update's where
  -- it did; it answers with the code and the text of the contract's error, or, where there is
  -- none, with whether the lookup found nothing.
  pub create_or_update_margin_offer-Serves :
      (env : Env) (m : OfferMessage Stamp) (o : MarginOffer) (seen ms : MemoryStore)
      → proto_to_margin_offer ts (some m) ≡ ok o
      → IsConsistent ms
      → Serves
          (create_or_update_margin_offer ts env (some m) seen ms)
          (is_none (table seen o.id))
          (upsert_contract (env.now 0) (table seen o.id) o (table ms))
  unfolding create_or_update_margin_offer
  create_or_update_margin_offer-Serves env m o seen ms h c =
      rw (h, create_or_update_margin_offer) (upsert_found-Serves env o seen ms c)
