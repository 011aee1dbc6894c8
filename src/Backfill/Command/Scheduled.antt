-- ===== src/Backfill/Command/Scheduled.antt =====
-- cmd/backfillers/main.go: the jobs that the backfiller starts with, where all configured jobs have a
-- schedule.
use margin_offer_system.Base.{
  String, Bool, true, false, not, ◌&&◌, Option, none, some, List, [], ◌∷◌, All, ◌≡◌, refl, ◌∙◌, ap,
  sym, Option-cases, inl, inr, ◌==◌, if◌then◌else◌, arith,
}
use margin_offer_system.Base.Int.{ℤ}
use margin_offer_system.Base.GoMap.{Assoc, made, lookup}
use margin_offer_system.Base.Run.{done}
use margin_offer_system.Backfill.Requests.{ScheduleRequest}
use margin_offer_system.Backfill.Service.{new_backfiller}
use margin_offer_system.Backfill.Config.{JobConfig, weekly_sync_req, hourly_sync_req}
use margin_offer_system.Backfill.Config.Registered.{
  last_registered, is_registered, configured, schedule_of, has_request,
}
use margin_offer_system.Backfill.Command.{Settings, set_up}
use margin_offer_system.Backfill.Command.SetUp.{
  file_jobs, env_jobs, built_in, standing, set_up-registered,
}

abbrev pub HasSchedule : JobConfig → Type 0
HasSchedule job = (job.schedule == "") ≡ false

-- A job under a name that is enabled and has something to do.
abbrev pub is_named : String → JobConfig → Bool
is_named name job =
    job.enabled && not (job.name == "") && has_request job.request && job.name == name

-- The last such job of a list, or else what comes before.
abbrev pub last_named : String → List JobConfig → Option ScheduleRequest → Option ScheduleRequest
last_named name [] before = before
last_named name (job ∷ jobs) before =
    last_named name jobs (if is_named name job then some (schedule_of job) else before)

-- The jobs of the command itself, and behind them the last of the environment, and of the file.
abbrev pub expected : Settings → String → Option ScheduleRequest
expected settings name =
    if "hourly-quick-sync" == name
    then some (schedule_of (built_in "hourly-quick-sync" "0 * * * *" hourly_sync_req))
    else if "weekly-full-sync" == name
    then some (schedule_of (built_in "weekly-full-sync" "0 3 * * 0" weekly_sync_req))
    else last_named name (env_jobs settings) (last_named name (file_jobs settings) none)

registered_named :
    (name : String) (job : JobConfig) → HasSchedule job → is_registered name job ≡ is_named name job
registered_named name job h = ground (arith, h)

configured_if :
    (b : Bool) (job : JobConfig) (before : Option ScheduleRequest)
    → configured (if b then some job else none) before
      ≡ (if b then some (schedule_of job) else before)
configured_if true job before = refl
configured_if false job before = refl

configured-named :
    (name : String) (jobs : List JobConfig) (before : Option ScheduleRequest)
    → All HasSchedule jobs
    → configured (last_registered name jobs) before ≡ last_named name jobs before
configured-named name [] before h = refl
configured-named name (job ∷ jobs) before h =
    let chosen = if is_named name job then some (schedule_of job) else before in
    let rest = configured-named name jobs chosen h.1 in
    elim (Option-cases (last_registered name jobs)) [
      | inr (later, e) ↦ rw e (ap (λ o. configured o chosen) (sym e) ∙ rest)
      | inl e ↦ rw e (
          ap (λ b. configured (if b then some job else none) before) (registered_named name job h.0)
          ∙ configured_if (is_named name job) job before
          ∙ ap (λ o. configured o chosen) (sym e)
          ∙ rest)
    ]

standing-expected :
    (settings : Settings) (name : String)
    → All HasSchedule (file_jobs settings)
    → All HasSchedule (env_jobs settings)
    → standing settings name ≡ expected settings name
standing-expected settings name of_file of_env =
    rw
      (
        configured-named name (file_jobs settings) none of_file,
        configured-named name (env_jobs settings) (last_named name (file_jobs settings) none)
            of_env,
      )
      refl

-- Where every job of the configuration file and of BACKFILL_JOBS has a schedule, and whatever
-- else these give, what the backfiller's command does between NewBackfiller and its start ends
-- without a panic and changes nothing of the new backfiller but its scheduled jobs and its
-- interval; then each of the two names that registerCustomJobs gives stands for its job, and any
-- other for the last job of the environment, or else of the file, that is enabled and has this
-- name and a request, and for nothing where there is none. What stands there has the name, the
-- schedule and the request of the job, but always three retries, an hour and a description made
-- from the name, whatever the job says of these.
pub set_up-scheduled :
    (settings : Settings)
    → All HasSchedule (file_jobs settings)
    → All HasSchedule (env_jobs settings)
    → (m : Assoc ScheduleRequest) × (interval : ℤ) × (set_up settings new_backfiller
        ≡ done (record new_backfiller { scheduled_jobs = made m; backfill_interval = interval }))
      × ((name : String) → lookup name m ≡ expected settings name)
set_up-scheduled settings of_file of_env =
    let (m, interval, ran, looks) = set_up-registered settings in
    (m, interval, ran, λ name. looks name ∙ standing-expected settings name of_file of_env)
