-- ===== src/Chain/Jobs.antt =====
-- The client of pkg/chain/solana.go under the workers of backfillers/workers.go.
use margin_offer_system.Base.{
  ℕ, ◌≡◌, refl, String, Bool-cases, inl, inr, Option, none, some, Option-cases, ◌==◌,
}
use margin_offer_system.Base.GoMap.{Assoc, made, put, delete}
use margin_offer_system.Base.Run.{Run, done}
use margin_offer_system.Types.Time.{Time}
use margin_offer_system.Types.Pool.{Solana}
use margin_offer_system.Backfill.Requests.{BackfillRequest}
use margin_offer_system.Backfill.Fetch.{fetch_all_pools, offers_of}
use margin_offer_system.Backfill.Jobs.{
  Progress, Backfiller, Overwrite, begin, batches, process_batches, process_chain_backfill,
  process_source, finish_job, process_job,
}
use margin_offer_system.Backfill.Workers.Liveness.{Returns}
use margin_offer_system.Chain.{SolanaClient, chain_client}
use margin_offer_system.Chain.Sync.{fetch_all-empty}

abbrev pub HasJobs : Backfiller → Type 0
HasJobs b = (jobs : Assoc Progress) × (b.active_jobs ≡ made jobs)

module _ {S : Type 0} (overwrite : Overwrite S) (lib : Solana) (endpoint : String)
    (c : SolanaClient) (cancelled : ℕ → Option String) (now : ℕ → Time) where
  abbrev Ends : Run (S × Progress × Option String) → Type 0
  Ends run = (out : S × Progress × Option String) × (run ≡ done out)

  chain-Ends :
      (req : BackfillRequest) (p : Progress) (s : S)
      → Ends (process_chain_backfill overwrite cancelled lib (chain_client endpoint c) now req p s)
  unfolding process_chain_backfill fetch_all_pools offers_of batches process_batches
  chain-Ends req p s = elim (Option-cases req.chain_params) [
    | inl absent ↦ rw (process_chain_backfill, absent) (_, refl)
    | inr (params, given) ↦
        rw (process_chain_backfill, given, fetch_all_pools, fetch_all-empty endpoint c 105)
          (_, refl)
  ]

  source-Ends :
      (req : BackfillRequest) (p : Progress) (s : S)
      → Ends (process_source overwrite cancelled lib (chain_client endpoint c) now req p s)
  unfolding process_source
  source-Ends req p s = elim (Bool-cases (req.source == "chain")) [
    | inl named ↦ rw (process_source, named) (chain-Ends req p s)
    | inr other ↦ rw (process_source, other) (_, refl)
  ]

  finish_job-HasJobs :
      (ended : S × Progress × Option String) (b : Backfiller)
      → HasJobs b
      → HasJobs (finish_job overwrite cancelled lib (chain_client endpoint c) now ended b).1
  unfolding finish_job
  finish_job-HasJobs (s, p, some e) b h = h
  finish_job-HasJobs (s, p, none) b h = h

  -- A job over this client ends, and leaves the map of the active jobs allocated.
  pub job-Returns : Returns overwrite lib (chain_client endpoint c) cancelled now (λ b s. HasJobs b)
  unfolding process_job put delete
  job-Returns job b s (jobs, kept) =
      let (ended, ran) = source-Ends job.request (begin job.id (now 0)) s in
      rw (process_job, kept, ran)
        (_, refl, finish_job-HasJobs ended (record b { active_jobs = made _ }) (_, refl))
