-- ===== src/Grpc/Server/Bulk.antt =====
-- store/grpc_server.go: the handlers for batches, and the overwrite with its preview.
use Prim.Native.String
use margin_offer_system.Base.{
  ℕ, suc, String, Bool, true, false, ◌&&◌, Option, none, some, List, [], ◌∷◌, length, eqb,
  if◌then◌else◌,
}
use margin_offer_system.Base.Decimal.{decimal}
use margin_offer_system.Base.Int.{pos, int32_of}
use margin_offer_system.Base.Run.{Run, done, ◌>>=◌}
use margin_offer_system.Types.Error.{Error, error_text}
use margin_offer_system.Types.Offer.{MarginOffer}
use margin_offer_system.Types.Filter.{OverwriteFilter}
use margin_offer_system.Types.Pool.Bytes.{Decoded, ok, err}
use margin_offer_system.Store.Memory.{MemoryStore, Env, health_check}
use margin_offer_system.Store.Upsert.{BatchReply, bulk_create_or_update}
use margin_offer_system.Store.Bulk.{bulk_create, bulk_update, bulk_delete}
use margin_offer_system.Store.Overwrite.{
  bulk_overwrite, bulk_overwrite_by_filter, get_overwrite_stats,
}
use margin_offer_system.Grpc.Server.{handle_store_error}
use margin_offer_system.Grpc.Messages.{
  Timestamps, OfferMessage, FilterMessage, OverwriteMessage, BulkResponse, OverwriteResponse,
  PreviewResponse, StatusOr, reply, refused, invalid_argument,
}
use margin_offer_system.Grpc.Converters.{proto_to_margin_offer, proto_to_overwrite_filter}

-- The IDs of a batch; a nil offer, which a conversion does not give, would be dereferenced.
abbrev pub ids_of : List (Option MarginOffer) → List String
ids_of [] = []
ids_of (none ∷ offers) = ids_of offers
ids_of (some o ∷ offers) = o.id ∷ ids_of offers

abbrev pub is_none {ℓ} : {A : Type ℓ} → Option A → Bool
is_none none = true
is_none (some _) = false

-- The response to a batch, for `count` items with the given IDs.
unfoldable pub bulk_response : Option Error → ℕ → List String → BulkResponse
bulk_response (some e) count ids = record {
  success_count = pos 0;
  failure_count = int32_of count;
  errors = record { index = pos 0; error = error_text e } ∷ [];
  processed_ids = [];
}
bulk_response none count ids = record {
  success_count = int32_of count;
  failure_count = pos 0;
  errors = [];
  processed_ids = ids;
}

module _ (ts : Timestamps) where
  open ts use {Stamp}

  -- The loop that converts a batch, from the index `i`.
  unfoldable pub convert_all :
      ℕ → List (Option (OfferMessage Stamp)) → Decoded (List (Option MarginOffer))
  convert_all i [] = ok []
  convert_all i (m ∷ ms) =
      let rest = convert_all (suc i) ms in
      elim (proto_to_margin_offer ts m) [
        | err e ↦
            err
              (String.◌++◌ "invalid offer at index " (String.◌++◌ (decimal i) (String.◌++◌ ": " e)))
        | ok offer ↦ elim rest [ err e ↦ err e | ok offers ↦ ok (some offer ∷ offers) ]
      ]

  -- A handler that converts a batch and gives it to the store: an error of the store is a response,
  -- not a status.
  unfoldable pub write_batch :
      (List (Option MarginOffer) → MemoryStore → Run BatchReply)
      → List (Option (OfferMessage Stamp))
      → MemoryStore
      → Run (MemoryStore × StatusOr BulkResponse)
  unfolding bulk_response
  write_batch operation [] ms = done (ms, refused invalid_argument "offers are required")
  write_batch operation (m ∷ rest) ms = elim (convert_all 0 (m ∷ rest)) [
    | err e ↦ done (ms, refused invalid_argument e)
    | ok offers ↦ do
      r ← operation offers ms
      done (r.store, reply (bulk_response r.error (length offers) (ids_of r.offers)))
  ]

  -- `BulkCreateMarginOffers`
  unfoldable pub bulk_create_margin_offers :
      Env
      → List (Option (OfferMessage Stamp))
      → MemoryStore
      → Run (MemoryStore × StatusOr BulkResponse)
  unfolding write_batch
  bulk_create_margin_offers env = write_batch (bulk_create env)

  -- `BulkUpdateMarginOffers`
  unfoldable pub bulk_update_margin_offers :
      Env
      → List (Option (OfferMessage Stamp))
      → MemoryStore
      → Run (MemoryStore × StatusOr BulkResponse)
  unfolding write_batch
  bulk_update_margin_offers env = write_batch (bulk_update env)

  -- `BulkCreateOrUpdateMarginOffers`
  unfoldable pub bulk_create_or_update_margin_offers :
      Env
      → List (Option (OfferMessage Stamp))
      → MemoryStore
      → Run (MemoryStore × StatusOr BulkResponse)
  unfolding write_batch
  bulk_create_or_update_margin_offers env = write_batch (bulk_create_or_update env)

  -- What the overwrite handler does with a filter: the count of what goes is read at `seen`.
  unfoldable pub overwrite_converted :
      Env
      → List (Option MarginOffer)
      → Option OverwriteFilter
      → MemoryStore
      → MemoryStore
      → Run (MemoryStore × ℕ × Option Error)
  overwrite_converted env offers none seen ms = do
    r ← bulk_overwrite decimal env offers ms
    done (r.store, 0, r.error)
  overwrite_converted env offers (some filter) seen ms = do
    r ← bulk_overwrite_by_filter decimal env offers (some filter) ms
    done (r.store, get_overwrite_stats (some filter) seen, r.error)

  -- `if req.Filter != nil { ... }`
  unfoldable pub convert_filter : Option (FilterMessage Stamp) → Decoded (Option OverwriteFilter)
  convert_filter none = ok none
  convert_filter (some f) = elim (proto_to_overwrite_filter ts (some f)) [
    | err e ↦ err (String.◌++◌ "invalid filter: " e)
    | ok filter ↦ ok filter
  ]

  -- The response of `BulkOverwriteMarginOffers`.
  unfoldable pub overwrite_response :
      List String → MemoryStore × ℕ × Option Error → MemoryStore × StatusOr OverwriteResponse
  unfolding handle_store_error
  overwrite_response ids (ms, deleted, some e) = (ms, handle_store_error e)
  overwrite_response ids (ms, deleted, none) = (
    ms,
    reply (record {
      deleted_count = int32_of deleted;
      created_count = int32_of (length ids);
      deleted_ids = [];
      created_ids = ids;
    }),
  )

  -- The part of the handler behind the conversions.
  unfoldable pub overwrite_with :
      Env
      → List (Option MarginOffer)
      → Decoded (Option OverwriteFilter)
      → MemoryStore
      → MemoryStore
      → Run (MemoryStore × StatusOr OverwriteResponse)
  unfolding overwrite_converted overwrite_response
  overwrite_with env offers (err e) seen ms = done (ms, refused invalid_argument e)
  overwrite_with env offers (ok filter) seen ms = do
    result ← overwrite_converted env offers filter seen ms
    done (overwrite_response (ids_of offers) result)

  -- Neither offers nor a filter.
  abbrev pub is_blank : OverwriteMessage Stamp → Bool
  is_blank req = is_none req.filter && eqb (length req.offers) 0

  -- `BulkOverwriteMarginOffers`. The dry run that a request can ask for is not looked at.
  unfoldable pub bulk_overwrite_margin_offers :
      Env
      → OverwriteMessage Stamp
      → MemoryStore
      → MemoryStore
      → Run (MemoryStore × StatusOr OverwriteResponse)
  unfolding overwrite_with convert_filter
  bulk_overwrite_margin_offers env req seen ms =
      if is_blank req
      then done (ms, refused invalid_argument "either offers or filter must be provided")
      else elim (convert_all 0 req.offers) [
        | err e ↦ done (ms, refused invalid_argument e)
        | ok offers ↦ overwrite_with env offers (convert_filter req.filter) seen ms
      ]

  -- `OverwritePreview`
  unfoldable pub overwrite_preview :
      Option (FilterMessage Stamp) → MemoryStore → StatusOr PreviewResponse
  unfolding convert_filter
  overwrite_preview filter ms = elim (convert_filter filter) [
    | err e ↦ refused invalid_argument e
    | ok f ↦
        reply (record { affected_count = int32_of (get_overwrite_stats f ms); affected_ids = [] })
  ]

-- `BulkDeleteMarginOffers`
unfoldable pub bulk_delete_margin_offers :
    Env → List String → MemoryStore → Run (MemoryStore × StatusOr BulkResponse)
unfolding bulk_response
bulk_delete_margin_offers env [] ms = done (ms, refused invalid_argument "ids are required")
bulk_delete_margin_offers env (id ∷ rest) ms = do
  r ← bulk_delete env (id ∷ rest) ms
  done (r.store, reply (bulk_response r.error (length (id ∷ rest)) (id ∷ rest)))

-- The status and the check of `HealthCheck`; the handler fails in no case.
unfoldable pub grpc_health_check : MemoryStore → String × String
grpc_health_check ms = elim (health_check ms) [
  | some e ↦ ("unhealthy", error_text e)
  | none ↦ ("healthy", "healthy")
]
