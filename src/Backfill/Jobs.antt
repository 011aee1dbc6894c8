-- ===== src/Backfill/Jobs.antt =====
-- backfillers/workers.go: what a job does. The store is known by its `BulkOverwrite`, and the
-- context by the error that it has after each batch.
pub mod Refused
pub mod Chain
pub mod Sources
use Prim.Native.String
use margin_offer_system.Base.{
  ℕ, zero, suc, ◌+◌, String, Bool, true, false, Option, none, some, List, [], ◌∷◌, ◌++◌, ◌==◌, map,
  length, take, drop, if◌then◌else◌,
}
use margin_offer_system.Base.Int.{ℤ, pos_part}
use margin_offer_system.Base.GoMap.{GoMap, put, delete}
use margin_offer_system.Base.Run.{Run, done, panic, ◌>>=◌}
use margin_offer_system.Types.Time.{Time}
use margin_offer_system.Types.Error.{
  error_text, invalid_backfill_range, backfill_source_unavailable,
}
use margin_offer_system.Types.Offer.{MarginOffer}
use margin_offer_system.Types.Pool.{Solana, Pool}
use margin_offer_system.Types.Pool.Bytes.{Decoded, ok, err}
use margin_offer_system.Backfill.Requests.{BackfillRequest, ScheduleRequest}
use margin_offer_system.Backfill.Fetch.{ChainClient, fetch_all_pools, offers_of}

-- `BackfillProgress`, without its estimates and its end.
pub record Progress : Type 0 where
  pub job_id : String
  pub status : String
  pub start_time : Time
  pub total_records : ℕ
  pub processed_records : ℕ
  pub success_records : ℕ
  pub failed_records : ℕ
  pub current_batch : ℕ
  pub errors : List String

-- The state of the backfiller. The stop channel is made once.
pub record Backfiller : Type 0 where
  pub is_running : Bool
  pub active_jobs : GoMap Progress
  pub scheduled_jobs : GoMap ScheduleRequest
  pub completed_jobs : ℕ
  pub failed_jobs : ℕ
  pub last_backfill_time : Option Time
  pub next_backfill_time : Option Time
  pub backfill_interval : ℤ
  pub stop_closed : Bool

-- `offers[i:end]` for i = 0, size, 2 * size and so on, where the size is not zero. As much fuel as
-- there are offers is enough.
unfoldable pub batches {ℓ} : {A : Type ℓ} → ℕ → ℕ → List A → List (List A)
batches zero size xs = []
batches (suc fuel) size [] = []
batches (suc fuel) size (x ∷ xs) = take size (x ∷ xs) ∷ batches fuel size (drop size (x ∷ xs))

-- The counts after a batch of `n` offers that was written, and after one that was not.
abbrev pub batch_written : ℕ → Progress → Progress
batch_written n p = record p {
  processed_records = p.processed_records + n;
  success_records = p.success_records + n;
  current_batch = suc p.current_batch;
}

abbrev pub batch_failed : ℕ → Progress → Progress
batch_failed n p = record p { failed_records = p.failed_records + n }

-- The progress of a job that begins.
abbrev pub begin : String → Time → Progress
begin id start = record {
  job_id = id;
  status = "running";
  start_time = start;
  total_records = 0;
  processed_records = 0;
  success_records = 0;
  failed_records = 0;
  current_batch = 0;
  errors = [];
}

-- `BulkOverwrite` of the interface, with the text of its error.
abbrev pub Overwrite : Type 0 → Type 0
Overwrite S = List (Option MarginOffer) → S → Run (S × Option String)

module _ {S : Type 0} (overwrite : Overwrite S) (cancelled : ℕ → Option String) where
  -- The write of a batch, which a dry run leaves out.
  unfoldable pub write_unless_dry : Bool → List MarginOffer → S → Run (S × Option String)
  write_unless_dry dry_run batch s =
      if dry_run then done (s, none) else overwrite (map some batch) s

  -- The loop over the batches.
  unfoldable pub process_batches :
      Bool → ℕ → List (List MarginOffer) → Progress → S → Run (S × Progress × Option String)
  unfolding write_unless_dry
  process_batches dry_run i [] p s = done (s, p, none)
  process_batches dry_run i (batch ∷ rest) p s = do
    written ← write_unless_dry dry_run batch s
    elim written.1 [
      | some _ ↦ process_batches dry_run (suc i) rest (batch_failed (length batch) p) written.0
      | none ↦ elim (cancelled i) [
        | some e ↦ done (written.0, batch_written (length batch) p, some e)
        | none ↦ process_batches dry_run (suc i) rest (batch_written (length batch) p) written.0
      ]
    ]

  module _ (lib : Solana) (chain : ChainClient) (now : ℕ → Time) where
    -- `processChainBackfill`. The batch size of a validated request is positive.
    unfoldable pub process_chain_backfill :
        BackfillRequest → Progress → S → Run (S × Progress × Option String)
    unfolding fetch_all_pools offers_of batches process_batches
    process_chain_backfill req p s = elim req.chain_params [
      | none ↦ done (s, p, some (error_text invalid_backfill_range))
      | some _ ↦ do
        fetched ← fetch_all_pools lib chain
        elim fetched [
          | err e ↦ done (s, p, some e)
          | ok pools ↦
              let offers = offers_of lib chain now 0 pools in
              process_batches req.dry_run 0
                (batches (length offers) (pos_part req.batch_size) offers)
                (record p { total_records = length offers }) s
        ]
    ]

    -- The switch of `processJob`: the other sources are not available.
    unfoldable pub process_source :
        BackfillRequest → Progress → S → Run (S × Progress × Option String)
    unfolding process_chain_backfill
    process_source req p s =
        if req.source == "chain"
        then process_chain_backfill req p s
        else done (s, p, some (error_text backfill_source_unavailable))

    -- The end of `processJob`: the counts, and the progress as it is left.
    unfoldable pub finish_job :
        S × Progress × Option String → Backfiller → S × Backfiller × Progress × Option String
    finish_job (s, p, some e) b = (
      s,
      record b { failed_jobs = suc b.failed_jobs },
      record p { status = "failed"; errors = p.errors ++ e ∷ [] },
      some e,
    )
    finish_job (s, p, none) b = (
      s,
      record b { completed_jobs = suc b.completed_jobs },
      record p { status = "completed" },
      none,
    )

    -- `processJob`: the job stands among the active ones while it runs.
    unfoldable pub process_job :
        String
        → Time
        → BackfillRequest
        → Backfiller
        → S
        → Run (S × Backfiller × Progress × Option String)
    unfolding process_source finish_job
    process_job id start req b s =
        let progress = begin id start in
        do
          active ← put id progress b.active_jobs
          ended ← process_source req progress s
          done (finish_job ended (record b { active_jobs = delete id active }))
