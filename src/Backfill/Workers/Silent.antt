-- ===== src/Backfill/Workers/Silent.antt =====
-- backfillers/workers.go: what the jobs write to the memory store, which is nothing.
use margin_offer_system.Base.{
  ℕ, zero, suc, ◌≡◌, ◌≢◌, refl, ◌∙◌, subst, Bool, true, false, Option, none, some, List, [], ◌∷◌,
  ◌++◌, length, arith, All, inl, inr, String, Bool-cases, Option-cases, ◌==◌,
}
use margin_offer_system.Base.Int.{ℤ, pos, negsuc, ltb_ℤ, pos_part}
use margin_offer_system.Base.GoMap.{put, delete}
use margin_offer_system.Base.Run.{Run, done, Run-cases}
use margin_offer_system.Types.Time.{Time}
use margin_offer_system.Types.Offer.{MarginOffer, validate}
use margin_offer_system.Types.Pool.{Solana}
use margin_offer_system.Types.Pool.Bytes.{ok, err}
use margin_offer_system.Store.Memory.{MemoryStore, Env}
use margin_offer_system.Backfill.Requests.{BackfillRequest, validate_backfill_request}
use margin_offer_system.Backfill.Fetch.{ChainClient, fetch_all_pools}
use margin_offer_system.Backfill.Service.{accept_request}
use margin_offer_system.Backfill.Jobs.{
  Progress, Backfiller, begin, write_unless_dry, process_batches, batch_written, batches,
  process_chain_backfill, process_source, finish_job, process_job,
}
use margin_offer_system.Backfill.Jobs.Refused.{
  memory_overwrite, process_batches-refused, batches-IsRefused,
}
use margin_offer_system.Backfill.Jobs.Chain.{offers_of-invalid}
use margin_offer_system.Backfill.Workers.{
  BackfillJob, BackfillService, Step, starts, stops, cancels, submits, takes, finishes, quits,
  syncs_pools, syncs_positions, Reach, fresh, later,
}

-- A request whose batch size is positive.
abbrev pub IsSized : BackfillRequest → Type 0
IsSized req = ltb_ℤ (pos 0) req.batch_size ≡ true

accept_request-IsSized :
    (given : Option BackfillRequest) (req : BackfillRequest)
    → accept_request given ≡ ok req
    → IsSized req
unfolding accept_request validate_backfill_request
accept_request-IsSized none req h = ground (arith, h)
accept_request-IsSized (some given) req h = ground (arith, h)

positive : (z : ℤ) → ltb_ℤ (pos 0) z ≡ true → (n : ℕ) × (pos_part z ≡ suc n)
positive (pos zero) h = absurd (ground (arith, h))
positive (pos (suc n)) h = (n, refl)
positive (negsuc n) h = absurd (ground (arith, h))

-- The store is left as it was.
abbrev pub Spares : MemoryStore → Run (MemoryStore × Progress × Option String) → Type 0
Spares ms run = (out : MemoryStore × Progress × Option String) → run ≡ done out → out.0 ≡ ms

done-Spares : (ms : MemoryStore) (p : Progress) (e : Option String) → Spares ms (done (ms, p, e))
done-Spares ms p e out ran = ground (arith, ran)

module _ (env : Env) (cancelled : ℕ → Option String) where
  dry-Spares :
      (i : ℕ) (bs : List (List MarginOffer)) (p : Progress) (ms : MemoryStore)
      → Spares ms (process_batches (memory_overwrite env) cancelled true i bs p ms)
  unfolding process_batches write_unless_dry
  dry-Spares i [] p ms = done-Spares ms p none
  dry-Spares i (b ∷ bs) p ms = elim (Option-cases (cancelled i)) [
    | inr (e, ended) ↦ rw ended (done-Spares ms _ (some e))
    | inl open_yet ↦ rw open_yet (dry-Spares (suc i) bs (batch_written (length b) p) ms)
  ]

  batches-Spares :
      (dry_run : Bool) (fuel size : ℕ) (xs : List MarginOffer) (p : Progress) (ms : MemoryStore)
      → All (λ o. validate o ≢ none) xs
      → Spares ms (
          process_batches
            (memory_overwrite env)
            cancelled
            dry_run
            0
            (batches fuel (suc size) xs)
            p
            ms)
  batches-Spares true fuel size xs p ms bad = dry-Spares 0 _ p ms
  batches-Spares false fuel size xs p ms bad =
      rw (process_batches-refused env cancelled 0 _ p ms (batches-IsRefused fuel size xs bad))
        (done-Spares ms _ none)

  module _ (lib : Solana) (chain : ChainClient) (now : ℕ → Time) where
    chain-Spares :
        (req : BackfillRequest) (p : Progress) (ms : MemoryStore)
        → IsSized req
        → Spares ms (process_chain_backfill (memory_overwrite env) cancelled lib chain now req p ms)
    unfolding process_chain_backfill
    chain-Spares req p ms sized = elim (Option-cases req.chain_params) [
      | inl absent ↦ rw (process_chain_backfill, absent) (done-Spares ms p _)
      | inr (params, given) ↦ elim (Run-cases (fetch_all_pools lib chain)) [
        | inr stop ↦ rw (process_chain_backfill, given, stop) (λ out ran. ground (arith, ran))
        | inl (err e, fetched) ↦ rw (process_chain_backfill, given, fetched) (done-Spares ms p _)
        | inl (ok pools, fetched) ↦
            let (size, e) = positive req.batch_size sized in
            rw (process_chain_backfill, given, fetched, e)
              (batches-Spares req.dry_run _ size _ _ ms (offers_of-invalid lib chain now 0 pools))
      ]
    ]

    source-Spares :
        (req : BackfillRequest) (p : Progress) (ms : MemoryStore)
        → IsSized req
        → Spares ms (process_source (memory_overwrite env) cancelled lib chain now req p ms)
    unfolding process_source
    source-Spares req p ms sized = elim (Bool-cases (req.source == "chain")) [
      | inl named ↦ rw (process_source, named) (chain-Spares req p ms sized)
      | inr other ↦ rw (process_source, other) (done-Spares ms p _)
    ]

    finish_job-store :
        (ended : MemoryStore × Progress × Option String) (b : Backfiller)
        → (finish_job (memory_overwrite env) cancelled lib chain now ended b).0 ≡ ended.0
    unfolding finish_job
    finish_job-store (s, p, some e) b = refl
    finish_job-store (s, p, none) b = refl

    job-Spares :
        (id : String) (start : Time) (req : BackfillRequest) (b : Backfiller) (ms : MemoryStore)
        (out : MemoryStore × Backfiller × Progress × Option String)
        → IsSized req
        → process_job (memory_overwrite env) cancelled lib chain now id start req b ms ≡ done out
        → out.0 ≡ ms
    unfolding process_job
    job-Spares id start req b ms out sized ran =
        let begun = begin id start in
        elim (Run-cases (put id begun b.active_jobs)) [
          | inr stop ↦ ground (arith, ran, stop)
          | inl (active, kept) ↦
              elim (Run-cases
                (process_source (memory_overwrite env) cancelled lib chain now req begun ms)) [
                  | inr stop ↦ ground (arith, ran, kept, stop)
                  | inl (ended, did) ↦
                      let spared = source-Spares req begun ms sized ended did in
                      ground (
                        arith,
                        ran,
                        kept,
                        did,
                        spared,
                        finish_job-store ended (record b { active_jobs = delete id active }),
                      )
                ]
        ]

-- Jobs that went through the check of their request.
abbrev pub AllSized : List BackfillJob → Type 0
AllSized jobs = All (λ job. IsSized job.request) jobs

All-append : {A : Type 0} (P : A → Type 0) (xs ys : List A) → All P xs → All P ys → All P (xs ++ ys)
All-append P [] ys h k = k
All-append P (x ∷ xs) ys h k = (h.0, All-append P xs ys h.1 k)

All-split : {A : Type 0} (P : A → Type 0) (xs ys : List A) → All P (xs ++ ys) → All P xs × All P ys
All-split P [] ys h = (tt, h)
All-split P (x ∷ xs) ys h = let (l, r) = All-split P xs ys h.1 in ((h.0, l), r)

module _ (env : Env) (lib : Solana) where
  AreSized : BackfillService MemoryStore → Type 0
  AreSized s = AllSized s.job_queue × AllSized s.running

  -- The steps but for the two syncs of pools, which are no jobs.
  abbrev pub IsOfJobs :
      {p q : BackfillService MemoryStore} → Step (memory_overwrite env) lib p q → Type 0
  IsOfJobs (syncs_pools replace chain now out ran) = ⊥
  IsOfJobs (syncs_positions replace chain now out ran) = ⊥
  IsOfJobs _ = Unit

  abbrev pub AreOfJobs :
      {ms : MemoryStore} {q : BackfillService MemoryStore}
      → Reach (memory_overwrite env) lib ms q
      → Type 0
  AreOfJobs fresh = Unit
  AreOfJobs (later run step) = AreOfJobs run × IsOfJobs step

  Step-Spares :
      {p q : BackfillService MemoryStore} (step : Step (memory_overwrite env) lib p q)
      → IsOfJobs step
      → AreSized p
      → AreSized q × (q.store ≡ p.store)
  unfolding AreSized
  Step-Spares (starts b ran) of_jobs h = (h, refl)
  Step-Spares (stops b ran) of_jobs h = (h, refl)
  Step-Spares cancels of_jobs h = (h, refl)
  Step-Spares {p} (submits given job accepted room) of_jobs h = (
    (
      All-append _ p.job_queue (job ∷ []) h.0
          (accept_request-IsSized given job.request accepted, tt),
      h.1,
    ),
    refl,
  )
  Step-Spares {p} (takes n job rest idle at) of_jobs h =
      let queued = subst AllSized at h.0 in ((queued.1, (queued.0, h.1)), refl)
  Step-Spares {p} (finishes before after job chain cancelled now start out at ran) of_jobs h =
      let (left, sized_right) = All-split _ before (job ∷ after) (subst AllSized at h.1) in
      (
        (h.0, All-append _ before after left sized_right.1),
        job-Spares env cancelled lib chain now job.id start job.request p.backfiller p.store out
            sized_right.0 ran,
      )
  Step-Spares (syncs_pools replace chain now out ran) of_jobs h = absurd of_jobs
  Step-Spares (syncs_positions replace chain now out ran) of_jobs h = absurd of_jobs
  Step-Spares (quits n told idle) of_jobs h = (h, refl)

  reach_lem :
      {ms : MemoryStore} {q : BackfillService MemoryStore}
      (run : Reach (memory_overwrite env) lib ms q)
      → AreOfJobs run
      → AreSized q × (q.store ≡ ms)
  unfolding AreSized
  reach_lem fresh of_jobs = ((tt, tt), refl)
  reach_lem (later run step) of_jobs =
      let (sized, same) = reach_lem run of_jobs.0 in
      let (sized', kept) = Step-Spares step of_jobs.1 sized in (sized', kept ∙ same)

  -- Whatever calls of Start, Stop and BackfillRange come to a backfiller over the memory store,
  -- and whatever its workers and the chain do, in every state that it comes to without a call of
  -- SyncPoolsToStore or SyncPoolsWithPositions the store is as it was at the start.
  pub Reach-Spares :
      {ms : MemoryStore} {q : BackfillService MemoryStore}
      (run : Reach (memory_overwrite env) lib ms q)
      → AreOfJobs run
      → q.store ≡ ms
  Reach-Spares run of_jobs = (reach_lem run of_jobs).1
