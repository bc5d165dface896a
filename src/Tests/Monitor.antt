-- ===== src/Tests/Monitor.antt =====
-- The theorems on incidents, certificates, tasks and the monitor on the small world.
use pulse_keeper.Prelude.{
  List, Option, [], arith, codes, count, false, get_elem?, length, none, refl, some, suc, true,
  zero, ℕ, ◌+◌, ◌<◌, ◌∷◌, ◌≡◌,
}
use pulse_keeper.Prelude.Int.{negsuc, pos}
use pulse_keeper.Domain.{cron, external, timeout}
use pulse_keeper.Async.{Async, act, ret, returned, run}
use pulse_keeper.Async.Rules.{NoThrow}
use pulse_keeper.Store.{Incident, Site, World}
use pulse_keeper.Store.Calls.{IsReliable, pass_time}
use pulse_keeper.Guard.Contacts.{OnlyAllowed}
use pulse_keeper.Notify.{preference_for}
use pulse_keeper.Ssl.{certificate_event, handle_certificate}
use pulse_keeper.Incidents.{
  count_or_open, find_active, handle_failed_check, handle_successful_check, is_active_of,
  new_incident,
}
use pulse_keeper.Incidents.OneActive.{IncidentsValid}
use pulse_keeper.Incidents.Opening.{handle_failed_check-opens}
use pulse_keeper.Incidents.Recovery.{
  DistinctIds, handle_successful_check-closes, lost_race_reported,
}
use pulse_keeper.Concurrency.{run_with_concurrency}
use pulse_keeper.Concurrency.Results.{Promised, run_with_concurrency_complete}
use pulse_keeper.Monitoring.{SiteCheckResult, check_site}
use pulse_keeper.Monitoring.Running.{pick_first, summarise}
use pulse_keeper.Monitoring.Contained.{check_site-NoThrow}
use pulse_keeper.Monitoring.Warned.{first_warning}
use pulse_keeper.Notify.Counted.{feed_size}
use pulse_keeper.HealthCheck.Request.{TlsCertificateInfo}
use mathlib.Core.List.{map}
use pulse_keeper.Monitoring.Invariants.{race, race-IncidentsValid, race-OnlyAllowed}
use pulse_keeper.Monitoring.Sweep.{sweep_counts_each}
use pulse_keeper.Tests.{
  expired_certificate, sample_config, sample_db, sample_incident, sample_site, sample_web,
  sample_world,
}

sample_IncidentsValid : IncidentsValid (sample_db (sample_incident ∷ []))
sample_IncidentsValid = record { one_active = λ s. ground arith; consistent = ((refl, refl), tt) }

empty_IncidentsValid : IncidentsValid (sample_db [])
empty_IncidentsValid = record { one_active = λ s. omega arith; consistent = tt }

race-IncidentsValid_example :
    IncidentsValid
      (run (race sample_config external 7 1) (sample_world (sample_incident ∷ []))).1.db
race-IncidentsValid_example =
    race-IncidentsValid sample_config external 7 1 (sample_world (sample_incident ∷ []))
      sample_IncidentsValid

race-OnlyAllowed_example :
    OnlyAllowed sample_web
      (run (race sample_config external 7 1) (sample_world (sample_incident ∷ []))).1
race-OnlyAllowed_example =
    race-OnlyAllowed sample_config external 7 1 (sample_world (sample_incident ∷ []))
      sample_IncidentsValid tt

check_site-NoThrow_example : NoThrow (check_site sample_config cron sample_site)
check_site-NoThrow_example = check_site-NoThrow sample_config cron sample_site

-- Two tasks, of which the second takes an act.
abbrev two_tasks : List (Async World ℕ)
two_tasks = ret 5 ∷ act pass_time (λ w. ret 6) ∷ []

abbrev IsExpected : ℕ → ℕ → Type 0
IsExpected i a = a ≡ 5 + i

two_tasks-Promised : Promised pass_time two_tasks IsExpected
two_tasks-Promised zero task h = let same : ret 5 ≡ task = cc in rw (← same) refl
two_tasks-Promised (suc zero) task h =
    let same : act pass_time (λ w. ret 6) ≡ task = cc in rw (← same) (λ w. refl)
two_tasks-Promised (suc (suc i)) task h = cc

run_with_concurrency_complete_example :
    (rs : List (Option ℕ)) × ((run
        (run_with_concurrency pass_time two_tasks pick_first 2)
        (sample_world [])).0
      ≡ returned rs)
    × (length rs ≡ 2)
    × ((i : ℕ) → i < 2 → (a : ℕ) × (get_elem? rs i ≡ some (some a)) × IsExpected i a)
run_with_concurrency_complete_example =
    run_with_concurrency_complete pass_time pick_first two_tasks 2 (sample_world []) IsExpected
      (tt, (λ w. tt, tt)) (omega arith) two_tasks-Promised

sweep_counts_each_example :
    (rs : List (Option SiteCheckResult)) × ((run
        (run_with_concurrency pass_time
          (map (check_site sample_config cron) (sample_site ∷ []))
          pick_first
          2)
        (sample_world [])).0
      ≡ returned rs)
    × ((summarise (some 3) rs (pos 0)).checked ≡ 1)
    × ((summarise (some 3) rs (pos 0)).online_count
          + (summarise (some 3) rs (pos 0)).slow_count
          + (summarise (some 3) rs (pos 0)).offline_count
          + (summarise (some 3) rs (pos 0)).errors
        ≡ 1)
sweep_counts_each_example =
    sweep_counts_each sample_config cron (sample_site ∷ []) (sample_world []) (some 3) (pos 0)
      (omega arith)

sample-IsReliable : (incidents : List Incident) → IsReliable (sample_world incidents)
sample-IsReliable incidents n = refl

handle_failed_check-opens_example :
    (run
      (handle_failed_check sample_config sample_site (codes "down") (some timeout) none)
      (sample_world [])).1.db.incidents
    ≡ new_incident sample_site (codes "down") (some timeout) none 1000001000 9 ∷ []
unfolding find_active
handle_failed_check-opens_example =
    handle_failed_check-opens sample_config sample_site (sample_world []) (codes "down")
      (some timeout) none (sample-IsReliable []) (omega arith) (omega arith) refl refl

sample_DistinctIds : DistinctIds (sample_incident ∷ [])
sample_DistinctIds id = ground arith

handle_successful_check-closes_example :
    count
      (is_active_of 1)
      (run
        (handle_successful_check sample_config sample_site)
        (sample_world (sample_incident ∷ []))).1.db.incidents
    ≡ 0
handle_successful_check-closes_example =
    handle_successful_check-closes sample_config sample_site (sample_world (sample_incident ∷ []))
      (sample-IsReliable (sample_incident ∷ [])) sample_IncidentsValid sample_DistinctIds

lost_race_reported_example :
    run
      (count_or_open sample_config sample_site (codes "down") (some timeout) none none)
      (sample_world (sample_incident ∷ []))
    ≡ (
      returned (record { opened = true; resolved_one = false; incident_id = some 4 }),
      record (sample_world (sample_incident ∷ [])) { moment = 4 },
    )
unfolding find_active preference_for
lost_race_reported_example =
    lost_race_reported sample_config sample_site (sample_world (sample_incident ∷ []))
      (codes "down") (some timeout) none sample_incident (sample-IsReliable (sample_incident ∷ []))
      (omega arith) refl refl refl

-- Certificates that come closer to their end, and one that has expired.
abbrev row : List TlsCertificateInfo
row =
    map (λ d. record expired_certificate { days_remaining = d })
      (pos 20 ∷ pos 12 ∷ pos 12 ∷ pos 6 ∷ pos 1 ∷ negsuc 0 ∷ [])

-- The site with no warning remembered, of a user who has switched nothing off.
abbrev unwarned : Site
unwarned = record sample_site { ssl_warned_at_days = none }

abbrev open_world : World
open_world = record (sample_world []) { db = record (sample_db []) { settings = [] } }

first_warning_example :
    feed_size (run (handle_certificate sample_config unwarned expired_certificate) open_world).1
    ≡ 0 + 1
unfolding certificate_event
first_warning_example =
    first_warning sample_config unwarned expired_certificate open_world (λ n. refl) refl refl refl
      refl
