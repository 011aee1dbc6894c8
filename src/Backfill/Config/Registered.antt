-- ===== src/Backfill/Config/Registered.antt =====
-- backfillers/job_config.go: what the configured jobs leave in the map of scheduled jobs.
use Prim.Native.String
use margin_offer_system.Base.{
  ◌≡◌, refl, ◌∙◌, ap, String, Bool, true, false, not, ◌&&◌, Option, none, some, Option-cases, List,
  [], ◌∷◌, ◌==◌, if◌then◌else◌, arith, Bool-cases, inl, inr,
}
use margin_offer_system.Base.Int.{pos}
use margin_offer_system.Base.GoMap.{Assoc, made, lookup, insert, put, lookup-insert}
use margin_offer_system.Base.Run.{done}
use margin_offer_system.Types.Time.{nanoseconds_per_hour}
use margin_offer_system.Backfill.Requests.{BackfillRequest, ScheduleRequest}
use margin_offer_system.Backfill.Jobs.{Backfiller}
use margin_offer_system.Backfill.Service.{
  schedule_backfill, register_custom_job, register_scheduled_job,
}
use margin_offer_system.Backfill.Config.{JobConfig, load_job, load_jobs}

-- The schedule that a job is registered with: its description, retries and timeout are not its own.
abbrev pub schedule_of : JobConfig → ScheduleRequest
schedule_of job = record {
  name = job.name;
  description = String.◌++◌ "Scheduled job: " job.name;
  schedule = job.schedule;
  request = job.request;
  enabled = true;
  max_retries = pos 3;
  timeout = pos nanoseconds_per_hour;
}

abbrev pub has_request : Option BackfillRequest → Bool
has_request none = false
has_request (some _) = true

-- Whether a configured job is registered under a name.
abbrev pub is_registered : String → JobConfig → Bool
is_registered name job =
    job.enabled
    && not (job.schedule == "")
    && not (job.name == "")
    && has_request job.request
    && job.name == name

-- The last job of the list that is registered under a name.
abbrev pub last_registered : String → List JobConfig → Option JobConfig
last_registered name [] = none
last_registered name (job ∷ jobs) = elim (last_registered name jobs) [
  | some later ↦ some later
  | none ↦ if is_registered name job then some job else none
]

-- What stands under a name after the configuration.
abbrev pub configured : Option JobConfig → Option ScheduleRequest → Option ScheduleRequest
configured none before = before
configured (some job) before = some (schedule_of job)

-- What a job is registered as under a name.
abbrev registered_as : JobConfig → String → Option JobConfig
registered_as job name = if is_registered name job then some job else none

LoadsOne : JobConfig → Backfiller → Assoc ScheduleRequest → Type 0
LoadsOne job b m =
    (m' : Assoc ScheduleRequest) × (load_job job b ≡ done (record b { scheduled_jobs = made m' }))
    × ((name : String) → lookup name m' ≡ configured (registered_as job name) (lookup name m))

skipped :
    (job : JobConfig) (b : Backfiller) (m : Assoc ScheduleRequest)
    → b.scheduled_jobs ≡ made m
    → load_job job b ≡ done b
    → ((name : String) → is_registered name job ≡ false)
    → LoadsOne job b m
unfolding LoadsOne
skipped job b m held ran never = (
  m,
  ran ∙ ap (λ jobs. done (record b { scheduled_jobs = jobs })) held,
  λ name. rw (never name) refl,
)

scheduled :
    (job : JobConfig) (b : Backfiller) (m : Assoc ScheduleRequest)
    → b.scheduled_jobs ≡ made m
    → job.enabled ≡ true
    → (job.schedule == "") ≡ false
    → LoadsOne job b m
unfolding LoadsOne load_job register_scheduled_job schedule_backfill put
scheduled job b m held on timed = elim (Option-cases job.request) [
  | inl absent ↦
      skipped job b m held (rw (load_job, on, timed, absent) refl) (λ name. ground (arith, absent))
  | inr (req, given) ↦ elim (Bool-cases (job.name == "")) [
    | inl bare ↦
        skipped job b m held (rw (load_job, on, timed, given, bare) refl)
          (λ name. ground (arith, bare))
    | inr named ↦ (
      insert job.name (schedule_of job) m,
      rw (load_job, on, timed, given, named, timed, held) refl,
      λ name.
          ground (arith, on, timed, given, named, lookup-insert job.name name (schedule_of job) m),
    )
  ]
]

load_job-LoadsOne :
    (job : JobConfig) (b : Backfiller) (m : Assoc ScheduleRequest)
    → b.scheduled_jobs ≡ made m
    → LoadsOne job b m
unfolding load_job
load_job-LoadsOne job b m held = elim (Bool-cases job.enabled) [
  | inr off ↦ skipped job b m held (rw (load_job, off) refl) (λ name. ground (arith, off))
  | inl on ↦ elim (Bool-cases (job.schedule == "")) [
    | inr timed ↦ scheduled job b m held on timed
    | inl custom ↦
        skipped job b m held
          (elim (Option-cases (register_custom_job job.request)) [
            | inl fine ↦ rw (load_job, on, custom, fine) refl
            | inr (e, refused) ↦ rw (load_job, on, custom, refused) refl
          ])
          (λ name. ground (arith, custom))
  ]
]

-- Where the map of scheduled jobs is allocated, the loop over configured jobs ends and changes
-- nothing of the backfiller but this map. Afterwards a name that some enabled job with a schedule
-- and a request has, and that is not empty, stands for the last such job, with a description made
-- from the name, three retries and an hour; every other name stands for what it did before.
pub load_jobs-registered :
    (jobs : List JobConfig) (b : Backfiller) (m : Assoc ScheduleRequest)
    → b.scheduled_jobs ≡ made m
    → (m' : Assoc ScheduleRequest) × (load_jobs jobs b
        ≡ done (record b { scheduled_jobs = made m' }))
      × ((name : String) → lookup name m' ≡ configured (last_registered name jobs) (lookup name m))
unfolding load_jobs LoadsOne
load_jobs-registered [] b m held =
    (m, ap (λ jobs. done (record b { scheduled_jobs = jobs })) held, λ name. refl)
load_jobs-registered (job ∷ jobs) b m held =
    let (m1, ran, one) = load_job-LoadsOne job b m held in
    let (m2, rest, all) =
      load_jobs-registered jobs (record b { scheduled_jobs = made m1 }) m1 refl in
    (m2, rw (ran, rest) refl, λ name. ground (arith, all name, one name))
