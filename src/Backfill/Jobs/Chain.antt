-- ===== src/Backfill/Jobs/Chain.antt =====
-- backfillers/workers.go: what a job of the chain comes to on the memory store.
use margin_offer_system.Base.{
  ℕ, suc, ◌+◌, ◌≡◌, ◌≢◌, refl, ap, ◌∙◌, String, false, Option, none, some, List, [], ◌∷◌, length,
  All, arith,
}
use margin_offer_system.Base.Int.{pos}
use margin_offer_system.Base.GoMap.{Assoc, made, insert, put, delete}
use margin_offer_system.Base.Run.{done}
use margin_offer_system.Types.Time.{Time}
use margin_offer_system.Types.Offer.{validate}
use margin_offer_system.Types.Pool.{Solana, Pool}
use margin_offer_system.Types.Pool.Bytes.{ok}
use margin_offer_system.Types.Pool.Offer.{to_margin_offer-refused}
use margin_offer_system.Store.Memory.{MemoryStore, Env}
use margin_offer_system.Backfill.Requests.{BackfillRequest, ChainParams}
use margin_offer_system.Backfill.Fetch.{ChainClient, fetch_all_pools, offers_of}
use margin_offer_system.Backfill.Jobs.{
  Progress, Backfiller, batches, process_batches, process_chain_backfill, process_source,
  finish_job, begin, process_job,
}
use margin_offer_system.Backfill.Jobs.Refused.{
  memory_overwrite, ended, total-batches, batches-IsRefused, process_batches-refused,
}

module _ (lib : Solana) (chain : ChainClient) (now : ℕ → Time) where
  open lib use {PublicKey}

  pub offers_of-invalid :
      (i : ℕ) (pools : List (Pool PublicKey))
      → All (λ o. validate o ≢ none) (offers_of lib chain now i pools)
  unfolding offers_of
  offers_of-invalid i [] = tt
  offers_of-invalid i (p ∷ pools) =
      (to_margin_offer-refused lib (now i) (now (suc i)) p, offers_of-invalid (i + 2) pools)

  length-offers_of :
      (i : ℕ) (pools : List (Pool PublicKey))
      → length (offers_of lib chain now i pools) ≡ length pools
  unfolding offers_of
  length-offers_of i [] = refl
  length-offers_of i (p ∷ pools) = ap (λ (n : ℕ). suc n) (length-offers_of (i + 2) pools)

  module _ (env : Env) (cancelled : ℕ → Option String) where
    chain_backfill_step :
        (req : BackfillRequest) (params : ChainParams) (size : ℕ) (pools : List (Pool PublicKey))
        (p : Progress) (ms : MemoryStore)
        → req.chain_params ≡ some params
        → req.dry_run ≡ false
        → req.batch_size ≡ pos (suc size)
        → fetch_all_pools lib chain ≡ done (ok pools)
        → process_chain_backfill (memory_overwrite env) cancelled lib chain now req p ms ≡ (
            let offers = offers_of lib chain now 0 pools in
            process_batches
              (memory_overwrite env)
              cancelled
              false
              0
              (batches (length offers) (suc size) offers)
              (record p { total_records = length offers })
              ms)
    unfolding process_chain_backfill
    chain_backfill_step req params size pools p ms given wet sized fetched =
        rw (process_chain_backfill, given, fetched, wet, sized) refl

    chain_backfill_lem :
        (req : BackfillRequest) (params : ChainParams) (size : ℕ) (pools : List (Pool PublicKey))
        (p : Progress) (ms : MemoryStore)
        → req.chain_params ≡ some params
        → req.dry_run ≡ false
        → req.batch_size ≡ pos (suc size)
        → fetch_all_pools lib chain ≡ done (ok pools)
        → process_chain_backfill (memory_overwrite env) cancelled lib chain now req p ms
          ≡ ended ms (record p { total_records = length pools }) (p.failed_records + length pools)
    chain_backfill_lem req params size pools p ms given wet sized fetched =
        let offers = offers_of lib chain now 0 pools in
        let same : length offers ≡ length pools = length-offers_of 0 pools in
        chain_backfill_step req params size pools p ms given wet sized fetched
        ∙ process_batches-refused env cancelled 0 _ _ ms
            (batches-IsRefused (length offers) size offers (offers_of-invalid 0 pools))
        ∙ ap
            (λ (n : ℕ).
              ended ms (record p { total_records = length offers }) (p.failed_records + n))
            (total-batches (length offers) size offers (omega arith))
        ∙ ap (λ (n : ℕ). ended ms (record p { total_records = n }) (p.failed_records + n)) same

    -- For a request of the source chain that has its parameters, is no dry run and has a positive
    -- batch size, where the pools are fetched and the map of active jobs is allocated, processJob
    -- on the memory store gives no error and leaves the store as it was, counts a completed job
    -- and no failed one, and its progress is completed with as many failed records as there are
    -- pools and no success, however the context is cancelled.
    pub process_job-chain :
        (id : String) (start : Time) (req : BackfillRequest) (params : ChainParams) (size : ℕ)
        (pools : List (Pool PublicKey)) (b : Backfiller) (jobs : Assoc Progress) (ms : MemoryStore)
        → req.source ≡ "chain"
        → req.chain_params ≡ some params
        → req.dry_run ≡ false
        → req.batch_size ≡ pos (suc size)
        → fetch_all_pools lib chain ≡ done (ok pools)
        → b.active_jobs ≡ made jobs
        → (left : Backfiller) × (p : Progress) × (process_job
              (memory_overwrite env)
              cancelled
              lib
              chain
              now
              id
              start
              req
              b
              ms
            ≡ done (ms, left, p, none))
          × (left.completed_jobs ≡ suc b.completed_jobs)
          × (left.failed_jobs ≡ b.failed_jobs)
          × (p.status ≡ "completed")
          × (p.failed_records ≡ length pools)
          × (p.success_records ≡ 0)
    unfolding process_job process_source finish_job put
    process_job-chain id start req params size pools b jobs ms named given wet sized fetched kept =
        let begun = begin id start in
        (
          record b {
            active_jobs = delete id (made (insert id begun jobs));
            completed_jobs = suc b.completed_jobs;
          },
          record begun {
            total_records = length pools;
            failed_records = 0 + length pools;
            status = "completed";
          },
          rw
              (
                process_job,
                kept,
                named,
                chain_backfill_lem req params size pools begun ms given wet sized fetched,
              )
              refl,
          refl,
          refl,
          refl,
          omega arith,
          refl,
        )
