-- ===== src/Backfill/Config.antt =====
-- backfillers/job_config.go: the jobs that a file or the environment configures, and the jobs that
-- cmd/backfillers/main.go registers. Reading and parsing the text are parameters.
pub mod Registered
use Prim.Native.String
use margin_offer_system.Base.{
  ℕ, ◌*◌, String, Bool, true, false, not, Option, none, some, List, [], ◌∷◌, ◌==◌, if◌then◌else◌,
}
use margin_offer_system.Base.Int.{ℤ, pos, negsuc, ltb_ℤ, ◌+ℤ◌, scale}
use margin_offer_system.Base.Run.{Run, done, ◌>>=◌}
use margin_offer_system.Types.Time.{Time, zero_time, nanoseconds_per_hour}
use margin_offer_system.Types.Pool.Bytes.{Decoded, ok, err}
use margin_offer_system.Backfill.Requests.{BackfillRequest, ChainParams, latest, on_mainnet}
use margin_offer_system.Backfill.Jobs.{Backfiller}
use margin_offer_system.Backfill.Service.{register_custom_job, register_scheduled_job}

pub record JobConfig : Type 0 where
  pub name : String
  pub description : String
  pub enabled : Bool
  pub schedule : String
  pub request : Option BackfillRequest
  pub max_retries : ℤ  -- int32
  pub timeout : ℤ

pub record JobConfigFile : Type 0 where
  pub default_interval : ℤ
  pub jobs : List JobConfig

-- One round of the loops over the jobs: an error is logged and passed over.
unfoldable pub load_job : JobConfig → Backfiller → Run Backfiller
unfolding register_custom_job register_scheduled_job
load_job job b =
    if not job.enabled
    then done b
    else if not (job.schedule == "")
    then (do
      registered ← register_scheduled_job job.name job.schedule job.request b
      done registered.0)
    else elim (register_custom_job job.request) [ some _ ↦ done b | none ↦ done b ]

unfoldable pub load_jobs : List JobConfig → Backfiller → Run Backfiller
unfolding load_job
load_jobs [] b = done b
load_jobs (job ∷ jobs) b = do loaded ← load_job job b; load_jobs jobs loaded

-- The default interval of a file, where it has one.
unfoldable pub with_interval : ℤ → Backfiller → Backfiller
with_interval interval b =
    if ltb_ℤ (pos 0) interval then record b { backfill_interval = interval } else b

-- `LoadJobsFromFile`: `data` is what the file gives, and `unmarshal` parses it.
unfoldable pub load_jobs_from_file :
    Decoded String
    → (String → Decoded JobConfigFile)
    → Backfiller
    → Run (Backfiller × Option String)
unfolding load_jobs with_interval
load_jobs_from_file (err e) unmarshal b =
    done (b, some (String.◌++◌ "failed to read config file: " e))
load_jobs_from_file (ok text) unmarshal b = elim (unmarshal text) [
  | err e ↦ done (b, some (String.◌++◌ "failed to parse config file: " e))
  | ok config ↦ do
    loaded ← load_jobs config.jobs (with_interval config.default_interval b)
    done (loaded, none)
]

-- `LoadJobsFromEnv`, from the value of BACKFILL_JOBS.
unfoldable pub load_jobs_from_env :
    String → (String → Decoded (List JobConfig)) → Backfiller → Run (Backfiller × Option String)
unfolding load_jobs
load_jobs_from_env value unmarshal b =
    if value == "" then done (b, none) else elim (unmarshal value) [
      | err e ↦ done (b, some (String.◌++◌ "failed to parse BACKFILL_JOBS env var: " e))
      | ok jobs ↦ do loaded ← load_jobs jobs b; done (loaded, none)
    ]

-- `GetDefaultJobConfig`. Its requests have no times.
unfoldable pub get_default_job_config : JobConfigFile
get_default_job_config = record {
  default_interval = pos (6 * nanoseconds_per_hour);
  jobs =
      record {
        name = "chain-backfill";
        description = "Default blockchain backfill";
        enabled = true;
        schedule = "";
        request = some (record (latest "chain" zero_time zero_time (pos 1000)) {
          chain_params = some (on_mainnet ("marginfi" ∷ "leverage" ∷ []));
        });
        max_retries = pos 3;
        timeout = pos nanoseconds_per_hour;
      }
      ∷ record {
        name = "glacier-backfill";
        description = "Default Glacier backfill";
        enabled = true;
        schedule = "";
        request = some (record (latest "glacier" zero_time zero_time (pos 500)) {
          glacier_params = some (record {
            vault_name = "margin-offers-archive";
            archive_id = "";
            job_id = "";
            retrieval = true;
          });
        });
        max_retries = pos 3;
        timeout = pos nanoseconds_per_hour;
      }
      ∷ record {
        name = "daily-leverage-sync";
        description = "Daily leverage program sync";
        enabled = true;
        schedule = "0 2 * * *";
        request = some (record (latest "chain" zero_time zero_time (pos 1000)) {
          chain_params = some (on_mainnet ("CRSeeBqjDnm3UPefJ9gxrtngTsnQRhEJiTA345Q83X3v" ∷ []));
        });
        max_retries = pos 3;
        timeout = pos nanoseconds_per_hour;
      }
      ∷ [];
}

-- The requests of `registerCustomJobs` in main.go.
unfoldable pub weekly_sync_req : BackfillRequest
weekly_sync_req = record (latest "chain" zero_time zero_time (pos 2000)) {
  chain_params =
      some (
        on_mainnet ("marginfi" ∷ "leverage" ∷ "CRSeeBqjDnm3UPefJ9gxrtngTsnQRhEJiTA345Q83X3v" ∷ []));
}

unfoldable pub hourly_sync_req : BackfillRequest
hourly_sync_req = record (latest "chain" zero_time zero_time (pos 500)) {
  chain_params = some (on_mainnet ("leverage" ∷ []));
}

-- `registerCustomJobs`
unfoldable pub register_custom_jobs : Backfiller → Run (Backfiller × Option String)
unfolding register_scheduled_job weekly_sync_req hourly_sync_req
register_custom_jobs b = do
  weekly ← register_scheduled_job "weekly-full-sync" "0 3 * * 0" (some weekly_sync_req) b
  elim weekly.1 [
    | some e ↦ done (weekly.0, some (String.◌++◌ "failed to register weekly sync job: " e))
    | none ↦ do
      hourly ←
          register_scheduled_job "hourly-quick-sync" "0 * * * *" (some hourly_sync_req) weekly.0
      elim hourly.1 [
        | some e ↦ done (hourly.0, some (String.◌++◌ "failed to register hourly sync job: " e))
        | none ↦ done (hourly.0, none)
      ]
  ]

-- The request that main.go makes when it runs once: the hours before `now`, where the flag is not
-- negative and its hours fit in a duration.
unfoldable pub run_once_request : String → ℕ → Time → BackfillRequest
unfolding ◌+ℤ◌ scale
run_once_request source hours now =
    let req =
      latest source (now +ℤ scale (hours * nanoseconds_per_hour) (negsuc 0)) now (pos 1000) in
    if source == "chain"
    then record req {
      chain_params = some (record {
        start_block = 0;
        end_block = 1000000;
        programs = "marginfi" ∷ "leverage" ∷ [];
        network = "mainnet";
      });
    }
    else req
