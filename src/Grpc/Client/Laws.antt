-- ===== src/Grpc/Client/Laws.antt =====
-- The store's client together with its server.
use mathlib.Core.List.{map}
use mathlib.Core.Option
use margin_offer_system.Base.{
  ℕ, suc, String, ◌≡◌, refl, Option, none, some, List, [], ◌∷◌, All, ap, ◌∙◌, length,
}
use margin_offer_system.Base.Run.{Run, done}
use margin_offer_system.Types.Error.{Error, error_text}
use margin_offer_system.Types.Time.{Time}
use margin_offer_system.Types.Offer.{MarginOffer}
use margin_offer_system.Types.Pool.Bytes.{ok}
use margin_offer_system.Store.Memory.{MemoryStore, Reply}
use margin_offer_system.Store.Upsert.{BatchReply}
use margin_offer_system.Store.Memory.Handed.{HandsBack}
use margin_offer_system.Grpc.Messages.{
  Timestamps, KeepsTimes, OfferMessage, BulkResponse, StatusOr, reply, refused,
}
use margin_offer_system.Grpc.Converters.{margin_offer_to_proto}
use margin_offer_system.Grpc.Converters.Laws.{IsCarried, message_of, message_of-received}
use margin_offer_system.Grpc.Server.{
  store_code, handle_store_error, after_write, write_offer, get_margin_offer, offer_reply,
}
use margin_offer_system.Grpc.Server.Bulk.{convert_all, write_batch, bulk_response, ids_of}
use margin_offer_system.Grpc.Client.{
  Failure, failure_of, Call, convert_to_proto_margin_offer, convert_from_proto_margin_offer,
  convert_offers, error_of_call,
}
use margin_offer_system.Grpc.Client.Methods.{remote_write, remote_batch}

-- An offer as it is sent: the client does not send its source.
abbrev pub sent : MarginOffer → MarginOffer
sent o = record o { source = none }

sent-IsCarried : (o : MarginOffer) → IsCarried o → IsCarried (sent o)
sent-IsCarried o c = record { type_known = c.type_known; model_known = c.model_known }

-- The status that stands for an error of the store.
abbrev pub status_of : Error → Failure
status_of e = (store_code e, error_text e)

module _ (ts : Timestamps) (keeps : KeepsTimes ts) where
  open ts use {Stamp}

  sent_lem :
      (o : MarginOffer) → convert_to_proto_margin_offer ts (some o) ≡ done (message_of ts (sent o))
  unfolding convert_to_proto_margin_offer
  sent_lem o = refl

  convert_offers_lem :
      (os : List MarginOffer)
      → convert_offers ts (map some os) ≡ done (map (λ o. some (message_of ts (sent o))) os)
  unfolding convert_offers convert_to_proto_margin_offer
  convert_offers_lem [] = refl
  convert_offers_lem (o ∷ os) = rw (convert_offers_lem os) refl

  convert_all_lem :
      (i : ℕ) (os : List MarginOffer)
      → All IsCarried os
      → convert_all ts i (map (λ o. some (message_of ts (sent o))) os)
        ≡ ok (map (λ o. some (sent o)) os)
  unfolding convert_all
  convert_all_lem i [] carried = refl
  convert_all_lem i (o ∷ os) (c, carried) =
      rw
        (
          convert_all,
          message_of-received ts (sent o) keeps (sent-IsCarried o c),
          convert_all_lem (suc i) os carried,
        )
        refl

  write_batch_lem :
      (operation : List (Option MarginOffer) → MemoryStore → Run BatchReply)
      (m : Option (OfferMessage Stamp)) (rest : List (Option (OfferMessage Stamp)))
      (offers : List (Option MarginOffer)) (ms : MemoryStore) (r : BatchReply)
      → convert_all ts 0 (m ∷ rest) ≡ ok offers
      → operation offers ms ≡ done r
      → write_batch ts operation (m ∷ rest) ms
        ≡ done (r.store, reply (bulk_response r.error (length offers) (ids_of r.offers)))
  unfolding write_batch
  write_batch_lem operation m rest offers ms r converted ran = rw (write_batch, converted, ran) refl

  remote_batch_lem :
      {S : Type 0} (call : Call S (List (Option (OfferMessage Stamp))) BulkResponse)
      (offers : List (Option MarginOffer)) (messages : List (Option (OfferMessage Stamp)))
      (s s' : S) (b : BulkResponse)
      → convert_offers ts offers ≡ done messages
      → call messages s ≡ done (s', reply b)
      → remote_batch ts call offers s ≡ done (s', none)
  unfolding remote_batch error_of_call
  remote_batch_lem call offers messages s s' b converted called = rw (converted, called) refl

  -- If times arrive as they were sent, then for a batch that is not empty and whose types and
  -- interest models the service knows, a bulk method of the client over a bulk handler of the
  -- server, for any store operation on the batch that does not panic, reports no error, whatever
  -- error the operation gave.
  pub remote_batch-silent :
      (operation : List (Option MarginOffer) → MemoryStore → Run BatchReply) (o : MarginOffer)
      (os : List MarginOffer) (ms : MemoryStore) (r : BatchReply)
      → All IsCarried (o ∷ os)
      → operation (map (λ x. some (sent x)) (o ∷ os)) ms ≡ done r
      → remote_batch ts (write_batch ts operation) (map some (o ∷ os)) ms ≡ done (r.store, none)
  remote_batch-silent operation o os ms r carried ran =
      remote_batch_lem (write_batch ts operation) (map some (o ∷ os)) _ ms r.store _
        (convert_offers_lem (o ∷ os))
        (write_batch_lem operation _ _ _ ms r (convert_all_lem 0 (o ∷ os) carried) ran)

  -- What `get_margin_offer` is to a client: a call that leaves the store alone.
  abbrev pub get_call : String → MemoryStore → Run (MemoryStore × StatusOr (OfferMessage Stamp))
  get_call id ms = done (ms, get_margin_offer ts id ms)

  received_time :
      (t : Option Time)
      → Option.map (λ (s : Stamp). ts.as_time (some s)) (Option.map ts.stamp t) ≡ t
  received_time none = refl
  received_time (some t) = ap some (keeps t)

  pub received_lem :
      (o : MarginOffer) → convert_from_proto_margin_offer ts (message_of ts o) ≡ sent o
  unfolding convert_from_proto_margin_offer
  received_lem o =
      rw
        (
          received_time o.last_borrowed_timestamp,
          keeps o.created_timestamp,
          keeps o.updated_timestamp,
        )
        refl

  remote_write_lem :
      {S Response : Type 0} (call : Call S (Option (OfferMessage Stamp)) Response) (o : MarginOffer)
      (s s' : S) (answer : StatusOr Response)
      → call (some (message_of ts (sent o))) s ≡ done (s', answer)
      → remote_write ts call (some o) s ≡ done (s', failure_of answer)
  unfolding remote_write error_of_call convert_to_proto_margin_offer
  remote_write_lem call o s s' answer called = rw called refl

  after_write_lem :
      (r : Reply) (e : Option Error) (o : MarginOffer)
      → r.error ≡ e
      → r.offer ≡ some o
      → (answer : StatusOr (OfferMessage Stamp)) × (after_write ts r ≡ (r.store, answer))
        × (failure_of answer ≡ Option.map status_of e)
  unfolding after_write offer_reply margin_offer_to_proto handle_store_error
  after_write_lem r none o he ho = (reply (message_of ts o), rw (he, ho) refl, refl)
  after_write_lem r (some e) o he ho = (refused (store_code e) (error_text e), rw he refl, refl)

  write_offer_lem :
      (operation : Option MarginOffer → MemoryStore → Run Reply) (o : MarginOffer)
      (ms : MemoryStore) (r : Reply)
      → IsCarried o
      → operation (some (sent o)) ms ≡ done r
      → write_offer ts operation (some (message_of ts (sent o))) ms ≡ done (after_write ts r)
  unfolding write_offer
  write_offer_lem operation o ms r c ran =
      rw (write_offer, message_of-received ts (sent o) keeps (sent-IsCarried o c), ran) refl

  -- A write through the client is the write of the offer without its source, whose error arrives
  -- as a status.
  pub remote_write-write_offer :
      (operation : Option MarginOffer → MemoryStore → Run Reply) (o : MarginOffer)
      (ms : MemoryStore) (r : Reply)
      → IsCarried o
      → HandsBack (operation (some (sent o)) ms)
      → operation (some (sent o)) ms ≡ done r
      → remote_write ts (write_offer ts operation) (some o) ms
        ≡ done (r.store, Option.map status_of r.error)
  remote_write-write_offer operation o ms r c hands ran =
      let (given, handed) = hands r ran in
      let (answer, after, fails) = after_write_lem r r.error given refl handed in
      remote_write_lem (write_offer ts operation) o ms r.store answer
        (write_offer_lem operation o ms r c ran ∙ ap done after)
      ∙ ap (λ (f : Option Failure). done (r.store, f)) fails
