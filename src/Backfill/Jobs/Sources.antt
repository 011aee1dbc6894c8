-- ===== src/Backfill/Jobs/Sources.antt =====
-- backfillers/workers.go: the jobs that `processJob` does not call. The store is known by its
-- `BulkOverwrite`, `BulkOverwriteByFilter` and `GetOverwriteStats`.
use margin_offer_system.Base.{
  ℕ, String, Bool, ◌||◌, Option, none, some, List, [], ◌==◌, map, length, eqb, if◌then◌else◌,
}
use margin_offer_system.Base.Run.{Run, done, ◌>>=◌}
use margin_offer_system.Types.Time.{Time}
use margin_offer_system.Types.Error.{
  error_text, invalid_backfill_range, backfill_source_unavailable,
}
use margin_offer_system.Types.Offer.{MarginOffer}
use margin_offer_system.Types.Filter.{OverwriteFilter}
use margin_offer_system.Backfill.Requests.{BackfillRequest}
use margin_offer_system.Backfill.Jobs.{Progress, Overwrite}

-- `FetchFromGlacier` and `FetchFromOffChain`, which find nothing.
unfoldable pub fetch_from_glacier : Time → Time → List MarginOffer × Option String
fetch_from_glacier start end = ([], none)

unfoldable pub fetch_from_off_chain : String → List MarginOffer × Option String
fetch_from_off_chain source = ([], none)

-- The progress of a job that wrote all of its records.
abbrev pub all_written : ℕ → Progress → Progress
all_written n p = record p { total_records = n; processed_records = n; success_records = n }

module _ {S : Type 0} (overwrite : Overwrite S) where
  -- The end of a job whose offers are fetched, and overwrite the store.
  unfoldable pub overwrite_fetched :
      Bool → Progress → List MarginOffer × Option String → S → Run (S × Progress × Option String)
  overwrite_fetched dry_run p (offers, some e) s = done (s, p, some e)
  overwrite_fetched dry_run p (offers, none) s =
      if dry_run || eqb (length offers) 0 then done (s, all_written (length offers) p, none) else do
        written ← overwrite (map some offers) s
        elim written.1 [
          | some e ↦ done (written.0, record p { total_records = length offers }, some e)
          | none ↦ done (written.0, all_written (length offers) p, none)
        ]

  -- `processGlacierBackfill`
  unfoldable pub process_glacier_backfill :
      BackfillRequest → Progress → S → Run (S × Progress × Option String)
  unfolding overwrite_fetched fetch_from_glacier
  process_glacier_backfill req p s = elim req.glacier_params [
    | none ↦ done (s, p, some (error_text invalid_backfill_range))
    | some _ ↦ overwrite_fetched req.dry_run p (fetch_from_glacier req.start_time req.end_time) s
  ]

  -- `processOffChainBackfill`
  unfoldable pub process_off_chain_backfill :
      BackfillRequest → Progress → S → Run (S × Progress × Option String)
  unfolding overwrite_fetched fetch_from_off_chain
  process_off_chain_backfill req p s = elim req.off_chain_params [
    | none ↦ done (s, p, some (error_text invalid_backfill_range))
    | some params ↦ overwrite_fetched req.dry_run p (fetch_from_off_chain params.api_endpoint) s
  ]

-- The switch of `processOverwriteBackfill`: `from_chain` is `FetchFromChain` of the two blocks.
unfoldable pub fetch_source :
    (ℕ → ℕ → List MarginOffer × Option String) → BackfillRequest → List MarginOffer × Option String
unfolding fetch_from_glacier fetch_from_off_chain
fetch_source from_chain req =
    if req.source == "chain"
    then elim req.chain_params [
      | none ↦ ([], some (error_text invalid_backfill_range))
      | some params ↦ from_chain params.start_block params.end_block
    ]
    else if req.source == "glacier"
    then fetch_from_glacier req.start_time req.end_time
    else if req.source == "off-chain"
    then elim req.off_chain_params [
      | none ↦ ([], some (error_text invalid_backfill_range))
      | some params ↦ fetch_from_off_chain params.api_endpoint
    ]
    else ([], some (error_text backfill_source_unavailable))

-- The part behind the fetch: `affected` is the error of `GetOverwriteStats`.
unfoldable pub overwrite_filtered :
    {S : Type 0}
    → (List (Option MarginOffer) → Option OverwriteFilter → S → Run (S × Option String))
    → (Option OverwriteFilter → S → Option String)
    → Bool
    → Option OverwriteFilter
    → Progress
    → List MarginOffer × Option String
    → S
    → Run (S × Progress × Option String)
overwrite_filtered overwrite affected dry_run filter p (offers, some e) s = done (s, p, some e)
overwrite_filtered overwrite affected dry_run filter p (offers, none) s = elim (affected filter s) [
  | some e ↦ done (s, record p { total_records = length offers }, some e)
  | none ↦ if dry_run then done (s, all_written (length offers) p, none) else do
    written ← overwrite (map some offers) filter s
    elim written.1 [
      | some e ↦ done (written.0, record p { total_records = length offers }, some e)
      | none ↦ done (written.0, all_written (length offers) p, none)
    ]
]

-- `processOverwriteBackfill`
unfoldable pub process_overwrite_backfill :
    {S : Type 0}
    → (List (Option MarginOffer) → Option OverwriteFilter → S → Run (S × Option String))
    → (Option OverwriteFilter → S → Option String)
    → (ℕ → ℕ → List MarginOffer × Option String)
    → BackfillRequest
    → Option OverwriteFilter
    → Progress
    → S
    → Run (S × Progress × Option String)
unfolding fetch_source overwrite_filtered
process_overwrite_backfill overwrite affected from_chain req filter p s =
    overwrite_filtered overwrite affected req.dry_run filter p (fetch_source from_chain req) s
