-- ===== src/Triggers.antt =====
-- server/src/jobs/monitoringJob.ts and server/src/controllers/monitor.controller.ts: what starts sweeps
-- and checks.
pub mod Behaviour
pub mod Secret
use pulse_keeper.Prelude.{Bool, Option, Text, codes, if◌then◌else◌, none, not, some, ℕ}
use pulse_keeper.Domain.{cron, external}
use pulse_keeper.Errors.{Thrown, app_error, internal}
use pulse_keeper.Async.{ret, throw, try_catch, ◌>>=◌, ◌>>◌}
use pulse_keeper.Store.{Config, World}
use pulse_keeper.Store.Calls.{App, validate}
use pulse_keeper.Monitoring.{SiteCheckResult}
use pulse_keeper.Monitoring.Running.{SweepSummary, run_manual_check, run_monitoring_sweep}
use pulse_keeper.Sites.{PublicSite}
use pulse_keeper.Sites.Service.{get_site_by_id}

-- The promise that a tick fires: the sweep, with its error caught.
unfoldable pub fired_sweep : Config → App (Unit {0})
fired_sweep config =
    try_catch (run_monitoring_sweep config cron >>= λ summary. ret tt) (λ e. ret tt)

-- A callback of `cron.schedule`: what it fires of a world. It returns at once and waits for nothing,
-- and what it has fired acts beside all else.
unfoldable pub tick : Config → World → Option (App (Unit {0}))
tick config w = if w.in_progress then none else some (fired_sweep config)

-- What `startMonitoringJob` does: it is disabled, its expression is invalid, or it has a schedule of
-- this expression with this callback.
pub data Job : Type 0 where
  disabled invalid : Job
  scheduled : Text → (World → Option (App (Unit {0}))) → Job

-- The `MONITOR_ENABLED` and `MONITOR_CRON` of the environment, and `cron.validate`.
unfoldable pub start_monitoring_job : Config → Bool → Text → (Text → Bool) → Job
unfolding tick
start_monitoring_job config is_enabled expression validate =
    if not is_enabled
    then disabled
    else if not (validate expression)
    then invalid
    else scheduled expression (tick config)

unfoldable pub trigger_sweep : Config → App SweepSummary
trigger_sweep config = run_monitoring_sweep config external

abbrev pub not_completed : Thrown
not_completed = app_error (internal (codes "The health check could not be completed"))

-- What `checkNow` does with the result of the check.
unfoldable pub after_check : ℕ → ℕ → SiteCheckResult → App PublicSite
after_check user_id id result =
    if result.threw
    then (get_site_by_id user_id id >>= λ site. throw not_completed)
    else get_site_by_id user_id id

unfoldable pub check_now : Config → ℕ → ℕ → App PublicSite
check_now config user_id id = do
  result ← run_manual_check config user_id id
  after_check user_id id result
