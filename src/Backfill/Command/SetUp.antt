-- ===== src/Backfill/Command/SetUp.antt =====
-- cmd/backfillers/main.go: the jobs that the backfiller starts with.
use margin_offer_system.Base.{
  ◌≡◌, refl, ◌∙◌, ap, String, true, Option, none, some, List, [], ◌==◌, if◌then◌else◌, Bool-cases,
  inl, inr,
}
use margin_offer_system.Base.Int.{ℤ, pos, ltb_ℤ}
use margin_offer_system.Base.GoMap.{Assoc, made, lookup, insert, put, lookup-insert}
use margin_offer_system.Base.Run.{done}
use margin_offer_system.Types.Pool.Bytes.{Decoded, ok, err, Decoded-cases}
use margin_offer_system.Backfill.Requests.{BackfillRequest, ScheduleRequest}
use margin_offer_system.Backfill.Jobs.{Backfiller}
use margin_offer_system.Backfill.Service.{new_backfiller, register_scheduled_job, schedule_backfill}
use margin_offer_system.Backfill.Config.{
  JobConfig, JobConfigFile, load_jobs, with_interval, load_jobs_from_file, load_jobs_from_env,
  register_custom_jobs, weekly_sync_req, hourly_sync_req,
}
use margin_offer_system.Backfill.Config.Registered.{
  last_registered, configured, schedule_of, load_jobs-registered,
}
use margin_offer_system.Backfill.Command.{Settings, load_config, set_up}

-- The jobs that the file gives, and those of the environment: none, where it cannot be read or parsed.
abbrev pub jobs_of : {A : Type 0} → (A → List JobConfig) → Decoded A → List JobConfig
jobs_of jobs (err e) = []
jobs_of jobs (ok parsed) = jobs parsed

abbrev pub read_jobs : Decoded String → (String → Decoded JobConfigFile) → List JobConfig
read_jobs (err e) unmarshal = []
read_jobs (ok text) unmarshal = jobs_of (λ (c : JobConfigFile). c.jobs) (unmarshal text)

abbrev pub file_jobs : Settings → List JobConfig
file_jobs settings =
    if settings.config_file == "" then [] else read_jobs settings.file settings.unmarshal_file

abbrev pub env_jobs : Settings → List JobConfig
env_jobs settings =
    if settings.backfill_jobs == ""
    then []
    else jobs_of (λ jobs. jobs) (settings.unmarshal_jobs settings.backfill_jobs)

-- A job that main.go registers.
abbrev pub built_in : String → String → BackfillRequest → JobConfig
built_in name schedule req = record {
  name = name;
  description = "";
  enabled = true;
  schedule = schedule;
  request = some req;
  max_retries = pos 0;
  timeout = pos 0;
}

-- A backfiller but for its scheduled jobs and its interval.
abbrev with_jobs : Backfiller → Assoc ScheduleRequest → ℤ → Backfiller
with_jobs b m interval = record b { scheduled_jobs = made m; backfill_interval = interval }

register_custom_jobs_lem :
    (b : Backfiller) (m : Assoc ScheduleRequest)
    → b.scheduled_jobs ≡ made m
    → register_custom_jobs b
      ≡ done (
        record b {
          scheduled_jobs = made (
              insert "hourly-quick-sync"
                (schedule_of (built_in "hourly-quick-sync" "0 * * * *" hourly_sync_req))
                (insert "weekly-full-sync"
                  (schedule_of (built_in "weekly-full-sync" "0 3 * * 0" weekly_sync_req))
                  m));
        },
        none,
      )
unfolding register_custom_jobs register_scheduled_job schedule_backfill put
register_custom_jobs_lem b m held = rw held refl

-- What a source of jobs leaves.
Leaves : List JobConfig → Assoc ScheduleRequest → Backfiller → Backfiller → Type 0
Leaves jobs m b b' =
    (m' : Assoc ScheduleRequest) × (interval : ℤ) × (b' ≡ with_jobs b m' interval)
    × ((name : String) → lookup name m' ≡ configured (last_registered name jobs) (lookup name m))

nothing_left :
    (b : Backfiller) (m : Assoc ScheduleRequest) → b.scheduled_jobs ≡ made m → Leaves [] m b b
unfolding Leaves
nothing_left b m held =
    (m, b.backfill_interval, ap (λ jobs. record b { scheduled_jobs = jobs }) held, λ name. refl)

interval_lem :
    (given : ℤ) (b : Backfiller)
    → (interval : ℤ) × (with_interval given b ≡ record b { backfill_interval = interval })
unfolding with_interval
interval_lem given b = elim (Bool-cases (ltb_ℤ (pos 0) given)) [
  | inl e ↦ (given, rw e refl)
  | inr e ↦ (b.backfill_interval, rw e refl)
]

loaded :
    (jobs : List JobConfig) (interval : ℤ) (b : Backfiller) (m : Assoc ScheduleRequest)
    → b.scheduled_jobs ≡ made m
    → (b' : Backfiller) × (load_jobs jobs (record b { backfill_interval = interval }) ≡ done b')
      × Leaves jobs m b b'
unfolding Leaves
loaded jobs interval b m held =
    let (m', ran, looks) =
      load_jobs-registered jobs (record b { backfill_interval = interval }) m held in
    (with_jobs b m' interval, ran, (m', interval, refl, looks))

load_jobs_from_file-Leaves :
    (file : Decoded String) (unmarshal : String → Decoded JobConfigFile)
    → (b : Backfiller) (m : Assoc ScheduleRequest) → b.scheduled_jobs ≡ made m
    → (b' : Backfiller) × (e : Option String) × (load_jobs_from_file file unmarshal b
        ≡ done (b', e))
      × Leaves (read_jobs file unmarshal) m b b'
unfolding load_jobs_from_file
load_jobs_from_file-Leaves (err e) unmarshal b m held = (b, _, refl, nothing_left b m held)
load_jobs_from_file-Leaves (ok text) unmarshal b m held = elim (Decoded-cases (unmarshal text)) [
  | inr (e, bad) ↦ rw (load_jobs_from_file, bad) (b, _, refl, nothing_left b m held)
  | inl (config, good) ↦
      let (interval, set) = interval_lem config.default_interval b in
      let (b', ran, left) = loaded config.jobs interval b m held in
      rw (load_jobs_from_file, good, set, ran) (b', none, refl, left)
]

load_config-Leaves :
    (settings : Settings) (b : Backfiller) (m : Assoc ScheduleRequest)
    → b.scheduled_jobs ≡ made m
    → (b' : Backfiller) × (load_config settings b ≡ done b') × Leaves (file_jobs settings) m b b'
unfolding load_config
load_config-Leaves settings b m held = elim (Bool-cases (settings.config_file == "")) [
  | inl e ↦ rw (load_config, e) (b, refl, nothing_left b m held)
  | inr e ↦
      let (b', error, ran, left) =
        load_jobs_from_file-Leaves settings.file settings.unmarshal_file b m held in
      rw (load_config, e, ran) (b', refl, left)
]

load_jobs_from_env-Leaves :
    (settings : Settings) (b : Backfiller) (m : Assoc ScheduleRequest)
    → b.scheduled_jobs ≡ made m
    → (b' : Backfiller) × (e : Option String) × (load_jobs_from_env settings.backfill_jobs
          settings.unmarshal_jobs b
        ≡ done (b', e))
      × Leaves (env_jobs settings) m b b'
unfolding load_jobs_from_env
load_jobs_from_env-Leaves settings b m held = elim (Bool-cases (settings.backfill_jobs == "")) [
  | inl e ↦ rw (load_jobs_from_env, e) (b, none, refl, nothing_left b m held)
  | inr e ↦ elim (Decoded-cases (settings.unmarshal_jobs settings.backfill_jobs)) [
    | inr (text, bad) ↦ rw (load_jobs_from_env, e, bad) (b, _, refl, nothing_left b m held)
    | inl (jobs, good) ↦
        let (b', ran, left) = loaded jobs b.backfill_interval b m held in
        rw (load_jobs_from_env, e, good, ran) (b', none, refl, left)
  ]
]

-- What stands under a name when the backfiller is started.
abbrev pub standing : Settings → String → Option ScheduleRequest
standing settings name =
    if "hourly-quick-sync" == name
    then some (schedule_of (built_in "hourly-quick-sync" "0 * * * *" hourly_sync_req))
    else if "weekly-full-sync" == name
    then some (schedule_of (built_in "weekly-full-sync" "0 3 * * 0" weekly_sync_req))
    else configured (last_registered name (env_jobs settings))
        (configured (last_registered name (file_jobs settings)) none)

-- Whatever the configuration file, BACKFILL_JOBS and the parses of their JSON give, what the
-- backfiller's command does between NewBackfiller and its start ends without a panic and changes
-- nothing of the new backfiller but its scheduled jobs and its interval; then the two names that
-- registerCustomJobs gives have the schedules of its jobs, and any other that of the last job of
-- the environment, or else of the file, that is enabled, has a schedule, a name and a request,
-- and for nothing where there is none.
pub set_up-registered :
    (settings : Settings)
    → (m : Assoc ScheduleRequest) × (interval : ℤ) × (set_up settings new_backfiller
        ≡ done (record new_backfiller { scheduled_jobs = made m; backfill_interval = interval }))
      × ((name : String) → lookup name m ≡ standing settings name)
unfolding set_up Leaves lookup
set_up-registered settings =
    let (b1, ran1, (m1, i1, is1, looks1)) = load_config-Leaves settings new_backfiller [] refl in
    let (b2, e2, ran2, (m2, i2, is2, looks2)) =
      load_jobs_from_env-Leaves settings b1 m1 (rw is1 refl) in
    let last = register_custom_jobs_lem b2 m2 (rw is2 refl) in
    let weekly = schedule_of (built_in "weekly-full-sync" "0 3 * * 0" weekly_sync_req) in
    let hourly = schedule_of (built_in "hourly-quick-sync" "0 * * * *" hourly_sync_req) in
    let m3 = insert "weekly-full-sync" weekly m2 in
    let m4 = insert "hourly-quick-sync" hourly m3 in
    (
      m4,
      i2,
      rw (ran1, ran2, last)
          (ap (λ (b : Backfiller). done (record b { scheduled_jobs = made m4 }))
            (is2 ∙ ap (λ b. with_jobs b m2 i2) is1)),
      λ name.
          lookup-insert "hourly-quick-sync" name hourly m3
          ∙ (rw (lookup-insert "weekly-full-sync" name weekly m2, looks2 name, looks1 name) refl),
    )
