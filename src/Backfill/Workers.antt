-- ===== src/Backfill/Workers.antt =====
-- backfillers/backfiller.go and workers.go: the queue of jobs and the workers that empty it. The
-- steps come in any order that the code allows. What a worker does for a job is one step, at the end
-- of the job, so what jobs that run at once do to each other is left out.
pub mod Accounts
pub mod Silent
pub mod Liveness
use margin_offer_system.Base.{
  ℕ, suc, ◌+◌, ◌<◌, ◌≡◌, String, Bool, true, false, ◌||◌, Option, none, some, List, [], ◌∷◌, ◌++◌,
  length,
}
use margin_offer_system.Base.Run.{Run, done}
use margin_offer_system.Types.Time.{Time}
use margin_offer_system.Types.Offer.{MarginOffer}
use margin_offer_system.Types.Filter.{OverwriteFilter}
use margin_offer_system.Types.Pool.{Solana}
use margin_offer_system.Types.Pool.Bytes.{ok}
use margin_offer_system.Backfill.Requests.{BackfillRequest}
use margin_offer_system.Backfill.Fetch.{ChainClient}
use margin_offer_system.Backfill.Jobs.{Progress, Backfiller, Overwrite, process_job}
use margin_offer_system.Backfill.Sync.{sync_pools_to_store, sync_pools_with_positions}
use margin_offer_system.Backfill.Service.{
  new_backfiller, accept_request, start_service, stop_service,
}

abbrev pub max_concurrent_jobs : ℕ
max_concurrent_jobs = 5

-- `make(chan *backfillJob, 100)`
abbrev pub job_queue_capacity : ℕ
job_queue_capacity = 100

-- `backfillJob`. Its result channel is an entry of `answered` below.
pub record BackfillJob : Type 0 where
  pub id : String
  pub request : BackfillRequest

-- The backfiller with its goroutines: the workers that wait, the jobs of those that are busy, and
-- the results that the callers were sent. `submitted` is every job that was ever queued.
pub record BackfillService (S : Type 0) : Type 0 where
  pub store : S
  pub backfiller : Backfiller
  pub cancelled : Bool
  pub job_queue : List BackfillJob
  pub waiting : ℕ
  pub running : List BackfillJob
  pub answered : List (BackfillJob × Option String)
  pub submitted : List BackfillJob

abbrev pub new_service : {S : Type 0} → S → BackfillService S
new_service s = record {
  store = s;
  backfiller = new_backfiller;
  cancelled = false;
  job_queue = [];
  waiting = 0;
  running = [];
  answered = [];
  submitted = [];
}

module _ {S : Type 0} (overwrite : Overwrite S) (lib : Solana) where
  -- A step: a call of `Start` or `Stop` that goes through, the end of the context, the part of
  -- `BackfillRange` that queues a job, a call of `SyncPoolsToStore` or `SyncPoolsWithPositions` over
  -- any `BulkOverwriteByFilter` of the store, or a round of a worker. A worker that waits leaves when the
  -- stop channel is closed or the context has ended; `select` may still give it a job then.
  pub data Step : BackfillService S → BackfillService S → Type 0 where
    starts :
        {s : BackfillService S} (b : Backfiller)
        → start_service s.backfiller ≡ (b, none)
        → Step s (record s { backfiller = b; waiting = s.waiting + max_concurrent_jobs })
    stops :
        {s : BackfillService S} (b : Backfiller)
        → stop_service s.backfiller ≡ done (b, none)
        → Step s (record s { backfiller = b })
    cancels : {s : BackfillService S} → Step s (record s { cancelled = true })
    submits :
        {s : BackfillService S} (given : Option BackfillRequest) (job : BackfillJob)
        → accept_request given ≡ ok job.request
        → length s.job_queue < job_queue_capacity
        → Step s
            (record s { job_queue = s.job_queue ++ job ∷ []; submitted = s.submitted ++ job ∷ [] })
    takes :
        {s : BackfillService S} (n : ℕ) (job : BackfillJob) (rest : List BackfillJob)
        → s.waiting ≡ suc n
        → s.job_queue ≡ job ∷ rest
        → Step s (record s { waiting = n; job_queue = rest; running = job ∷ s.running })
    finishes :
        {s : BackfillService S} (before after : List BackfillJob) (job : BackfillJob)
        (chain : ChainClient) (cancelled : ℕ → Option String) (now : ℕ → Time) (start : Time)
        (out : S × Backfiller × Progress × Option String)
        → s.running ≡ before ++ job ∷ after
        → process_job overwrite cancelled lib chain now job.id start job.request s.backfiller
            s.store
          ≡ done out
        → Step s (record s {
          store = out.0;
          backfiller = out.1;
          waiting = suc s.waiting;
          running = before ++ after;
          answered = s.answered ++ (job, out.3) ∷ [];
        })
    syncs_pools :
        {s : BackfillService S}
        (replace : List (Option MarginOffer) → Option OverwriteFilter → S → Run (S × Option String))
        (chain : ChainClient) (now : ℕ → Time) (out : S × Option String)
        → sync_pools_to_store lib chain now replace s.store ≡ done out
        → Step s (record s { store = out.0 })
    syncs_positions :
        {s : BackfillService S}
        (replace : List (Option MarginOffer) → Option OverwriteFilter → S → Run (S × Option String))
        (chain : ChainClient) (now : ℕ → Time) (out : S × Option String)
        → sync_pools_with_positions lib chain now replace s.store ≡ done out
        → Step s (record s { store = out.0 })
    quits :
        {s : BackfillService S} (n : ℕ)
        → s.backfiller.stop_closed || s.cancelled ≡ true
        → s.waiting ≡ suc n
        → Step s (record s { waiting = n })

  -- What a backfiller over the store `s` can come to.
  pub data Reach (s : S) : BackfillService S → Type 0 where
    fresh : Reach s (new_service s)
    later : {p q : BackfillService S} → Reach s p → Step p q → Reach s q

  -- A state and one that it can come to.
  pub data Onward : BackfillService S → BackfillService S → Type 0 where
    here : {p : BackfillService S} → Onward p p
    onward : {p q r : BackfillService S} → Step p q → Onward q r → Onward p r
