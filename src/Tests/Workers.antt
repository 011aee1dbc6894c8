-- ===== src/Tests/Workers.antt =====
-- Runs of the backfiller's service.
use margin_offer_system.Base.{
  ◌≡◌, ◌≢◌, refl, String, Bool, true, Option, none, some, List, [], ◌∷◌, ◌++◌, arith, All, subst,
}
use mathlib.Core.List.{append_assoc}
use margin_offer_system.Base.Int.{ℤ, pos}
use margin_offer_system.Base.GoMap.{Assoc, made, lookup}
use margin_offer_system.Base.Run.{done}
use margin_offer_system.Types.Pool.Bytes.{ok}
use margin_offer_system.Store.Memory.{MemoryStore}
use margin_offer_system.Backfill.Requests.{
  BackfillRequest, ScheduleRequest, latest, on_mainnet, validate_backfill_request,
}
use margin_offer_system.Backfill.Fetch.{ChainClient}
use margin_offer_system.Backfill.Jobs.{Backfiller, Progress, process_job}
use margin_offer_system.Backfill.Jobs.Refused.{memory_overwrite}
use margin_offer_system.Backfill.Service.{new_backfiller, start_service, accept_request}
use margin_offer_system.Backfill.Latest.{
  IsAnswered, requests_now, finish_latest, finish_latest-fails,
}
use margin_offer_system.Backfill.Command.{Settings, set_up}
use margin_offer_system.Backfill.Command.SetUp.{built_in}
use margin_offer_system.Backfill.Command.Scheduled.{expected, set_up-scheduled}
use margin_offer_system.Backfill.Workers.{
  BackfillJob, BackfillService, new_service, Reach, fresh, later, starts, submits, takes, finishes,
  Onward,
}
use margin_offer_system.Backfill.Workers.Accounts.{
  passing, passing_answers, IsAccounted, Reach-IsAccounted,
}
use margin_offer_system.Backfill.Workers.Silent.{Reach-Spares}
use margin_offer_system.Backfill.Workers.Liveness.{emptied}
use margin_offer_system.Chain.{new_solana_client, chain_client}
use margin_offer_system.Chain.Jobs.{HasJobs, job-Returns}
use margin_offer_system.Tests.Data.{two_stored, env}
use margin_offer_system.Tests.Accounts.{solana}

abbrev a_request : BackfillRequest
a_request = record (latest "chain" (pos 1) (pos 2) (pos 1000)) {
  chain_params = some (on_mainnet []);
}

abbrev a_job : BackfillJob
a_job = record { id = "job"; request = a_request }

abbrev client : ChainClient
client = chain_client "wss" new_solana_client

abbrev started : BackfillService MemoryStore
started = record (new_service two_stored) {
  backfiller = record new_backfiller { is_running = true };
  waiting = 5;
}

abbrev queued : BackfillService MemoryStore
queued = record started { job_queue = a_job ∷ []; submitted = a_job ∷ [] }

abbrev busy : BackfillService MemoryStore
busy = record queued { waiting = 4; job_queue = []; running = a_job ∷ [] }

accepted : accept_request (some a_request) ≡ ok a_request
unfolding accept_request validate_backfill_request
accepted = refl

busy_reached : Reach (memory_overwrite env) solana two_stored busy
unfolding start_service
busy_reached =
    later
      (later (later fresh (starts started.backfiller refl))
        (submits (some a_request) a_job accepted (omega arith)))
      (takes 4 a_job [] refl refl)

Reach-IsAccounted_example : IsAccounted busy
Reach-IsAccounted_example = Reach-IsAccounted (memory_overwrite env) solana busy_reached

emptied_example :
    (q : BackfillService MemoryStore) × Onward (memory_overwrite env) solana busy q
    × (q.job_queue ≡ [])
    × (q.running ≡ [])
    × (q.submitted ≡ a_job ∷ [])
    × ((test : BackfillJob → Bool) → passing_answers test q.answered ≡ passing test (a_job ∷ []))
emptied_example =
    emptied (memory_overwrite env) solana client (λ i. none) env.now (λ b s. HasJobs b)
      (job-Returns (memory_overwrite env) solana "wss" new_solana_client (λ i. none) env.now)
      two_stored busy busy_reached ([], refl) (omega arith)

-- The worker ends its job.
ended :
    (out : MemoryStore × Backfiller × Progress × Option String) × (process_job
        (memory_overwrite env)
        (λ i. none)
        solana
        client
        env.now
        "job"
        (env.now 0)
        a_request
        busy.backfiller
        two_stored
      ≡ done out)
ended =
    let (out, ran, _) =
      job-Returns (memory_overwrite env) solana "wss" new_solana_client (λ i. none) env.now a_job
        busy.backfiller two_stored ([], refl) in
    (out, ran)

abbrev idle : BackfillService MemoryStore
idle = record busy {
  store = ended.0.0;
  backfiller = ended.0.1;
  waiting = 5;
  running = [];
  answered = (a_job, ended.0.3) ∷ [];
}

idle_reached : Reach (memory_overwrite env) solana two_stored idle
idle_reached =
    later busy_reached
      (finishes [] [] a_job client (λ i. none) env.now (env.now 0) ended.0 refl ended.1)

Reach-Spares_example : idle.store ≡ two_stored
unfolding idle_reached busy_reached
Reach-Spares_example = Reach-Spares env solana idle_reached ((((tt, tt), tt), tt), tt)

-- What a job of a request comes to.
abbrev Outcome : BackfillRequest → Type 0
Outcome req =
    (out : MemoryStore × Backfiller × Progress × Option String) × (process_job
        (memory_overwrite env) (λ i. none) solana client env.now "job" (env.now 0) req
        new_backfiller two_stored
      ≡ done out)
    × HasJobs out.1

outcome : (req : BackfillRequest) → Outcome req
outcome req =
    job-Returns (memory_overwrite env) solana "wss" new_solana_client (λ i. none) env.now
      (record { id = "job"; request = req }) new_backfiller two_stored ([], refl)

abbrev results_of : List BackfillRequest → List (Option String)
results_of [] = []
results_of (req ∷ reqs) = (outcome req).0.3 ∷ results_of reqs

abbrev Answered : List (Option String) → BackfillRequest → Type 0
Answered = IsAnswered (memory_overwrite env) (λ i. none) solana client env.now

All-Answered :
    (before : List (Option String)) (reqs : List BackfillRequest)
    → All (Answered (before ++ results_of reqs)) reqs
All-Answered before [] = tt
All-Answered before (req ∷ reqs) =
    let result = (outcome req).0.3 in
    (
      record {
        id = "job";
        start = env.now 0;
        found = new_backfiller;
        store = two_stored;
        out = (outcome req).0;
        ran = (outcome req).1;
        before = before;
        after = results_of reqs;
        among = refl;
      },
      subst (λ rs. All (Answered rs) reqs) (append_assoc before (result ∷ []) (results_of reqs))
          (All-Answered (before ++ result ∷ []) reqs),
    )

finish_latest-fails_example :
    (finish_latest (pos 10) (results_of (requests_now (pos 9) new_backfiller)) new_backfiller).1
    ≢ none
finish_latest-fails_example =
    finish_latest-fails (memory_overwrite env) (λ i. none) solana client env.now (pos 9) (pos 10)
      new_backfiller (results_of (requests_now (pos 9) new_backfiller))
      (All-Answered [] (requests_now (pos 9) new_backfiller))

-- A file with one job, and an environment that gives one of its name again.
abbrev some_settings : Settings
some_settings = record {
  config_file = "jobs.json";
  file = ok "{}";
  unmarshal_file = λ text.
      ok
        (record { default_interval = pos 7; jobs = built_in "nightly" "0 2 * * *" a_request ∷ [] });
  backfill_jobs = "[]";
  unmarshal_jobs = λ text. ok (built_in "nightly" "0 4 * * *" a_request ∷ []);
}

set_up-scheduled_example :
    (m : Assoc ScheduleRequest) × (interval : ℤ) × (set_up some_settings new_backfiller
      ≡ done (record new_backfiller { scheduled_jobs = made m; backfill_interval = interval }))
    × ((name : String) → lookup name m ≡ expected some_settings name)
set_up-scheduled_example = set_up-scheduled some_settings (refl, tt) (refl, tt)
