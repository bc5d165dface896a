-- ===== src/Monitoring/Running.antt =====
-- server/src/services/monitoring.service.ts: the sweep over all due sites, and the manual check.
use pulse_keeper.Prelude.{
  Bool, List, Option, [], count, false, find, if◌then◌else◌, length, map, none, some, suc, true,
  update_first, ℕ, ◌&&◌, ◌++◌, ◌==◌, ◌∷◌,
}
use pulse_keeper.Prelude.Int.{sub_ℕ, ℤ}
use pulse_keeper.Domain.{CheckSource, SiteStatus, is_cron, manual, offline, online, slow, status_eq}
use pulse_keeper.Async.{act, ret, try_finally, ◌>>=◌, ◌>>◌}
use pulse_keeper.Store.{Config, Db, Site, World}
use pulse_keeper.Store.Calls.{App, db_call, pass_time, query, read_clock, write}
use pulse_keeper.Concurrency.{run_with_concurrency}
use pulse_keeper.Monitoring.{SiteCheckResult, check_site, find_due_sites, threw_result}

-- `SweepSummary`; `run_id` is missing where the source has an empty text.
pub record SweepSummary : Type 0 where
  pub run_id : Option ℕ
  pub checked : ℕ
  pub online_count : ℕ
  pub slow_count : ℕ
  pub offline_count : ℕ
  pub errors : ℕ
  pub incidents_opened : ℕ
  pub incidents_resolved : ℕ
  pub duration_ms : ℤ

-- The results that are there: `filter` skips the holes of an array.
abbrev pub present {ℓ} : {A : Type ℓ} → List (Option A) → List A
present [] = []
present (none ∷ rs) = present rs
present (some r ∷ rs) = r ∷ present rs

abbrev pub has_status : SiteStatus → SiteCheckResult → Bool
has_status s r = status_eq r.status s

unfoldable pub summarise : Option ℕ → List (Option SiteCheckResult) → ℤ → SweepSummary
summarise run_id results duration_ms =
    let rs = present results in
    record {
      run_id = run_id;
      checked = length results;
      online_count = count (has_status online) rs;
      slow_count = count (has_status slow) rs;
      offline_count = count (has_status offline) rs;
      errors = count (λ r. r.threw) rs;
      incidents_opened = count (λ r. r.incident_opened) rs;
      incidents_resolved = count (λ r. r.incident_resolved) rs;
      duration_ms = duration_ms;
    }

-- `MonitorRun.create`
unfoldable pub insert_run : ℕ → CheckSource → Db → Db
insert_run started_at trigger d = record d {
  runs =
      d.runs
      ++ record {
        id = d.next_id;
        started_at = started_at;
        finished_at = none;
        duration_ms = none;
        trigger = trigger;
        checked = 0;
        online_count = 0;
        slow_count = 0;
        offline_count = 0;
        error_count = 0;
        incidents_opened = 0;
        incidents_resolved = 0;
      }
        ∷ [];
  next_id = suc d.next_id;
}

unfoldable pub finish_run : ℕ → ℕ → SweepSummary → Db → Db
finish_run run_id finished_at s d = record d {
  runs =
      update_first (λ r. r.id == run_id)
        (λ r. record r {
          finished_at = some finished_at;
          duration_ms = some s.duration_ms;
          checked = s.checked;
          online_count = s.online_count;
          slow_count = s.slow_count;
          offline_count = s.offline_count;
          error_count = s.errors;
          incidents_opened = s.incidents_opened;
          incidents_resolved = s.incidents_resolved;
        })
        d.runs;
}

abbrev pub is_nil {ℓ} : {A : Type ℓ} → List A → Bool
is_nil [] = true
is_nil (a ∷ more) = false

abbrev pub pick_first : ℕ → World → Bool
pick_first depth w = w.env.first_runs w.moment depth

-- The sweep of some sites, with its record.
unfoldable pub sweep_sites : Config → CheckSource → ℕ → List Site → App SweepSummary
sweep_sites config trigger started_at sites = do
  run_id ← db_call (insert_run started_at trigger) (λ d. ret d.next_id)
  results ←
      run_with_concurrency pass_time (map (check_site config trigger) sites) pick_first
        config.monitor_concurrency
  finished_at ← read_clock
  let summary = summarise (some run_id) results (sub_ℕ finished_at started_at)
  write (finish_run run_id finished_at summary)
  ret summary

-- The `try` block of `runMonitoringSweep`.
unfoldable pub sweep_due : Config → CheckSource → ℕ → App SweepSummary
sweep_due config trigger started_at = do
  sites ← find_due_sites started_at
  (if is_nil sites && is_cron trigger
      then (do at ← read_clock; ret (summarise none [] (sub_ℕ at started_at)))
      else sweep_sites config trigger started_at sites)

abbrev pub set_progress : Bool → World → World
set_progress b w = record w { moment = suc w.moment; in_progress = b }

unfoldable pub run_monitoring_sweep : Config → CheckSource → App SweepSummary
run_monitoring_sweep config trigger = do
  started_at ← read_clock
  act (set_progress true)
      (λ _. try_finally (sweep_due config trigger started_at) (set_progress false))

abbrev pub site_of_user : ℕ → ℕ → Db → Option Site
site_of_user user_id site_id d = find (λ s. s.id == site_id && s.user_id == user_id) d.sites

-- What follows the search for the site of `runManualCheck`.
unfoldable pub check_found : Config → Option Site → App SiteCheckResult
check_found config none = ret threw_result
check_found config (some site) = check_site config manual site

unfoldable pub run_manual_check : Config → ℕ → ℕ → App SiteCheckResult
run_manual_check config user_id site_id = do
  site ← query (site_of_user user_id site_id)
  check_found config site
