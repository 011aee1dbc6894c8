-- ===== src/Backfill/Service.antt =====
-- backfillers/backfiller.go and workers.go: the life of the service, its schedule and its cleanup.
use Prim.Native.String
use margin_offer_system.Base.{
  ℕ, ◌*◌, ◌%◌, String, Bool, true, false, not, ◌&&◌, ◌||◌, Option, none, some, List, [], ◌∷◌, ◌==◌,
  ltb, eqb, if◌then◌else◌,
}
use margin_offer_system.Base.Int.{pos, ◌+ℤ◌}
use margin_offer_system.Base.GoMap.{GoMap, Assoc, made, entries, put, delete}
use margin_offer_system.Base.Run.{Run, done, panic, ◌>>=◌}
use margin_offer_system.Types.Time.{Time, nanoseconds_per_hour, before}
use margin_offer_system.Types.Pool.Bytes.{Decoded, ok, err}
use margin_offer_system.Backfill.Requests.{
  BackfillRequest, ScheduleRequest, validate_backfill_request,
}
use margin_offer_system.Backfill.Jobs.{Backfiller, Progress}

-- `NewBackfiller`
abbrev pub new_backfiller : Backfiller
new_backfiller = record {
  is_running = false;
  active_jobs = made [];
  scheduled_jobs = made [];
  completed_jobs = 0;
  failed_jobs = 0;
  last_backfill_time = none;
  next_backfill_time = none;
  backfill_interval = pos (6 * nanoseconds_per_hour);
  stop_closed = false;
}

-- `Start`
unfoldable pub start_service : Backfiller → Backfiller × Option String
start_service b =
    if b.is_running
    then (b, some "backfiller is already running")
    else (record b { is_running = true }, none)

-- `Stop`: to close a channel that is closed panics.
unfoldable pub stop_service : Backfiller → Run (Backfiller × Option String)
stop_service b =
    if not b.is_running
    then done (b, some "backfiller is not running")
    else if b.stop_closed
    then panic
    else done (record b { is_running = false; stop_closed = true }, none)

-- The part of `BackfillRange` before the job is queued: the request as the job has it, or an error.
unfoldable pub accept_request : Option BackfillRequest → Decoded BackfillRequest
unfolding validate_backfill_request
accept_request none = err "backfill request is required"
accept_request (some req) =
    let checked = validate_backfill_request req in
    elim checked.1 [
      | some e ↦ err (String.◌++◌ "invalid backfill request: " e)
      | none ↦ ok checked.0
    ]

-- `ScheduleBackfill`
unfoldable pub schedule_backfill :
    Option ScheduleRequest → Backfiller → Run (Backfiller × Option String)
schedule_backfill none b = done (b, some "invalid schedule request")
schedule_backfill (some req) b =
    if req.name == "" then done (b, some "invalid schedule request") else do
      jobs ← put req.name req b.scheduled_jobs
      done (record b { scheduled_jobs = jobs }, none)

-- `RegisterCustomJob`, which keeps nothing of the request.
unfoldable pub register_custom_job : Option BackfillRequest → Option String
unfolding accept_request
register_custom_job req = elim (accept_request req) [ err e ↦ some e | ok _ ↦ none ]

-- `RegisterScheduledJob`
unfoldable pub register_scheduled_job :
    String → String → Option BackfillRequest → Backfiller → Run (Backfiller × Option String)
unfolding schedule_backfill
register_scheduled_job name schedule none b =
    done (b, some "name, schedule, and request are required")
register_scheduled_job name schedule (some req) b =
    if name == "" || schedule == ""
    then done (b, some "name, schedule, and request are required")
    else schedule_backfill
        (some (record {
          name = name;
          description = String.◌++◌ "Scheduled job: " name;
          schedule = schedule;
          request = some req;
          enabled = true;
          max_retries = pos 3;
          timeout = pos nanoseconds_per_hour;
        }))
        b

-- `shouldRunScheduledJob`, from the hour and the minute of the clock.
unfoldable pub should_run_scheduled_job : ℕ → ℕ → Bool
should_run_scheduled_job hour minute = eqb (hour % 6) 0 && ltb minute 5

-- The loop of `checkScheduledJobs`: the requests that are run.
unfoldable pub check_scheduled_jobs : ℕ → ℕ → Assoc ScheduleRequest → List (Option BackfillRequest)
unfolding should_run_scheduled_job
check_scheduled_jobs hour minute [] = []
check_scheduled_jobs hour minute ((_, job) ∷ jobs) =
    let rest = check_scheduled_jobs hour minute jobs in
    if job.enabled && should_run_scheduled_job hour minute then job.request ∷ rest else rest

-- The loop of `performCleanup`: jobs that are older than the timeout of an hour go.
unfoldable pub drop_stale : Time → Assoc Progress → GoMap Progress → GoMap Progress
drop_stale now [] active = active
drop_stale now ((id, progress) ∷ jobs) active =
    if before (progress.start_time +ℤ pos nanoseconds_per_hour) now
    then drop_stale now jobs (delete id active)
    else drop_stale now jobs active

-- `performCleanup`
unfoldable pub perform_cleanup : Time → Backfiller → Backfiller
unfolding drop_stale
perform_cleanup now b = record b {
  active_jobs = drop_stale now (entries b.active_jobs) b.active_jobs;
}
