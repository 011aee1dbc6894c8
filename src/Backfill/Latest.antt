-- ===== src/Backfill/Latest.antt =====
-- backfillers/backfiller.go: `BackfillLatest`, `GetStatus` and `GetProgress`.
use margin_offer_system.Base.{
  ℕ, ◌≡◌, ◌≢◌, refl, String, Bool, false, Option, none, some, List, [], ◌∷◌, ◌++◌, ◌==◌, length,
  arith, All, inl, inr,
}
use margin_offer_system.Base.Int.{sub_ℕ, pos_part, neg_part, ◌+ℤ◌}
use margin_offer_system.Base.GoMap.{GoMap, made, entries, copy_into, put}
use margin_offer_system.Base.Run.{done, Run-cases}
use margin_offer_system.Types.Time.{Time, zero_time}
use margin_offer_system.Types.Error.{error_text, backfill_source_unavailable}
use margin_offer_system.Types.Pool.{Solana}
use margin_offer_system.Backfill.Requests.{BackfillRequest, latest_requests}
use margin_offer_system.Backfill.Fetch.{ChainClient}
use margin_offer_system.Backfill.Jobs.{
  Progress, Backfiller, Overwrite, begin, process_source, finish_job, process_job,
}

-- The requests of `BackfillLatest` at the reading `now` of the clock.
unfoldable pub requests_now : Time → Backfiller → List BackfillRequest
unfolding latest_requests ◌+ℤ◌
requests_now now b =
    let start = now +ℤ sub_ℕ (neg_part b.backfill_interval) (pos_part b.backfill_interval) in
    latest_requests start now

-- The loop that collects the results in the order of their arrival: the last error stays.
unfoldable pub collect_results : Option String → List (Option String) → Option String
collect_results last_err [] = last_err
collect_results last_err (none ∷ results) = collect_results last_err results
collect_results last_err (some e ∷ results) = collect_results (some e) results

-- What `BackfillLatest` does when the results of its requests have arrived.
unfoldable pub finish_latest : Time → List (Option String) → Backfiller → Backfiller × Option String
unfolding collect_results ◌+ℤ◌
finish_latest now results b = (
  record b {
    last_backfill_time = some now;
    next_backfill_time = some (now +ℤ b.backfill_interval);
  },
  collect_results none results,
)

-- `BackfillStatus`
pub record BackfillStatus : Type 0 where
  pub is_running : Bool
  pub active_jobs : GoMap Progress
  pub completed_jobs : ℕ
  pub failed_jobs : ℕ
  pub scheduled_jobs : ℕ
  pub last_backfill_time : Option Time
  pub next_backfill_time : Option Time

-- `copyActiveJobs`
unfoldable pub copy_active_jobs : Backfiller → GoMap Progress
unfolding copy_into
copy_active_jobs b = made (copy_into (entries b.active_jobs) [])

-- `GetStatus`
unfoldable pub get_status : Backfiller → BackfillStatus
unfolding copy_active_jobs
get_status b = record {
  is_running = b.is_running;
  active_jobs = copy_active_jobs b;
  completed_jobs = b.completed_jobs;
  failed_jobs = b.failed_jobs;
  scheduled_jobs = length (entries b.scheduled_jobs);
  last_backfill_time = b.last_backfill_time;
  next_backfill_time = b.next_backfill_time;
}

-- `GetProgress`: a job that the range over the map gives first.
unfoldable pub get_progress : Backfiller → Progress
get_progress b = elim (entries b.active_jobs) [
  | [] ↦ record (begin "" zero_time) { status = "idle" }
  | (_, progress) ∷ _ ↦ progress
]

-- An error stays an error.
collect_results-some :
    (e : String) (results : List (Option String)) → collect_results (some e) results ≢ none
unfolding collect_results
collect_results-some e [] = λ h. cc
collect_results-some e (none ∷ results) = collect_results-some e results
collect_results-some e (some f ∷ results) = collect_results-some f results

collect_results-among :
    (last : Option String) (before after : List (Option String)) (e : String)
    → collect_results last (before ++ some e ∷ after) ≢ none
unfolding collect_results
collect_results-among last [] after e = collect_results-some e after
collect_results-among last (none ∷ before) after e = collect_results-among last before after e
collect_results-among last (some f ∷ before) after e = collect_results-among (some f) before after e

module _ {S : Type 0} (overwrite : Overwrite S) (cancelled : ℕ → Option String) (lib : Solana)
    (chain : ChainClient) (now : ℕ → Time) where
  -- A job of another source than the chain ends with the error that its source is not available.
  unavailable :
      (id : String) (start : Time) (req : BackfillRequest) (b : Backfiller) (s : S)
      (out : S × Backfiller × Progress × Option String)
      → (req.source == "chain") ≡ false
      → process_job overwrite cancelled lib chain now id start req b s ≡ done out
      → out.3 ≡ some (error_text backfill_source_unavailable)
  unfolding process_job process_source finish_job
  unavailable id start req b s out other ran =
      elim (Run-cases (put id (begin id start) b.active_jobs)) [
        | inl (active, kept) ↦ ground (arith, ran, other, kept)
        | inr stop ↦ ground (arith, ran, stop)
      ]

  -- A job of the request has ended, at any time and from any state, and its result is among those
  -- that were collected.
  pub record IsAnswered (results : List (Option String)) (req : BackfillRequest) : Type 0 where
    pub id : String
    pub start : Time
    pub found : Backfiller
    pub store : S
    pub out : S × Backfiller × Progress × Option String
    pub ran : process_job overwrite cancelled lib chain now id start req found store ≡ done out
    pub before : List (Option String)
    pub after : List (Option String)
    pub among : results ≡ before ++ out.3 ∷ after

  answered_elsewhere :
      (results : List (Option String)) (req : BackfillRequest)
      → (req.source == "chain") ≡ false
      → IsAnswered results req
      → collect_results none results ≢ none
  answered_elsewhere results req other h =
      let failed = unavailable h.id h.start req h.found h.store h.out other h.ran in
      rw (h.among, failed) (collect_results-among none h.before h.after _)

  -- Where jobs of all requests of BackfillLatest have ended, each from any state, and their
  -- results are among those that were collected, in any order, BackfillLatest gives an error,
  -- whatever the store and the chain are.
  pub finish_latest-fails :
      (time later : Time) (b : Backfiller) (results : List (Option String))
      → All (IsAnswered results) (requests_now time b)
      → (finish_latest later results b).1 ≢ none
  unfolding finish_latest requests_now latest_requests
  finish_latest-fails time later b results (first, others) =
      answered_elsewhere results _ refl others.0
