-- ===== src/Backfill/Command.antt =====
-- cmd/backfillers/main.go: what the command makes of its flags and its environment before the
-- backfiller is started. What is logged as a warning goes on.
pub mod SetUp
pub mod Scheduled
use margin_offer_system.Base.{String, List, [], ◌==◌, if◌then◌else◌}
use margin_offer_system.Base.Run.{Run, done, ◌>>=◌}
use margin_offer_system.Types.Pool.Bytes.{Decoded, ok, err}
use margin_offer_system.Backfill.Jobs.{Backfiller}
use margin_offer_system.Backfill.Config.{
  JobConfig, JobConfigFile, load_jobs_from_file, load_jobs_from_env, register_custom_jobs,
}

-- What the command reads: the flag for the configuration file, what the file gives, the value of
-- BACKFILL_JOBS, and the two parses of JSON.
pub record Settings : Type 0 where
  pub config_file : String
  pub file : Decoded String
  pub unmarshal_file : String → Decoded JobConfigFile
  pub backfill_jobs : String
  pub unmarshal_jobs : String → Decoded (List JobConfig)

-- The jobs of the file, if one is named.
unfoldable pub load_config : Settings → Backfiller → Run Backfiller
unfolding load_jobs_from_file
load_config settings b =
    if settings.config_file == ""
    then done b
    else do loaded ← load_jobs_from_file settings.file settings.unmarshal_file b; done loaded.0

-- `main`, from the new backfiller to its start.
unfoldable pub set_up : Settings → Backfiller → Run Backfiller
unfolding load_config load_jobs_from_env register_custom_jobs
set_up settings b = do
  from_file ← load_config settings b
  from_env ← load_jobs_from_env settings.backfill_jobs settings.unmarshal_jobs from_file
  registered ← register_custom_jobs from_env.0
  done registered.0
