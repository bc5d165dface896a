-- ===== src/Tests/Tenants.antt =====
-- The theorems on a user's sites, channels and old checks on the small world.
use pulse_keeper.Prelude.{[], arith, codes, count, false, keep, none, refl, some, true, ℕ, ◌∷◌, ◌≡◌}
use pulse_keeper.Async.{run, thrown}
use pulse_keeper.Async.Rules.{Holds}
use pulse_keeper.Store.{HealthCheck, World}
use pulse_keeper.Store.Calls.{Anything, OnDb, pass_time}
use pulse_keeper.Domain.{cron}
use pulse_keeper.Retention.{run_retention_cleanup}
use pulse_keeper.Retention.Kept.{cleanup_spares, is_safe}
use pulse_keeper.Retention.Deleted.{cleanup_deletes, is_outdated}
use pulse_keeper.Sites.{CreateSiteInput, UpdateSiteInput}
use pulse_keeper.Sites.Service.{create_site, delete_site, get_site_by_id, update_site}
use pulse_keeper.Sites.Tenants.{delete_site-others, foreign_site_refused, no_site, others}
use pulse_keeper.Sites.Guarded.{SitesGuarded}
use pulse_keeper.Sites.Edited.{site_calls-SitesGuarded}
use pulse_keeper.Tests.{sample_db, sample_env, sample_incident, sample_web, sample_world}

-- Renames a site and pauses it.
abbrev rename : UpdateSiteInput
rename = record {
  name = some (codes "B");
  url = none;
  health_endpoint = none;
  description = none;
  tags = none;
  monitoring_enabled = some false;
  interval_minutes = none;
  timeout_seconds = none;
  slow_threshold_ms = none;
  failure_threshold = none;
}

abbrev creation : CreateSiteInput
creation = record {
  name = codes "C";
  url = codes "https://a.com";
  health_endpoint = none;
  description = none;
  tags = none;
  monitoring_enabled = none;
  interval_minutes = none;
  timeout_seconds = some 20;
  slow_threshold_ms = none;
  failure_threshold = none;
}

-- User 8 asks for the site of user 7.
foreign_site_refused_example :
    (run (get_site_by_id 8 1) (sample_world []) ≡ (thrown no_site, pass_time (sample_world [])))
    × (run (update_site sample_web 8 1 rename) (sample_world [])
        ≡ (thrown no_site, pass_time (sample_world [])))
    × (run (delete_site 8 1) (sample_world []) ≡ (thrown no_site, pass_time (sample_world [])))
foreign_site_refused_example =
    foreign_site_refused sample_web 8 1 rename (sample_world []) (λ n. refl) refl

delete_site-others_example :
    others 2 (run (delete_site 7 2) (sample_world (sample_incident ∷ []))).1.db
    ≡ others 2 (sample_db (sample_incident ∷ []))
delete_site-others_example = delete_site-others 7 2 (sample_world (sample_incident ∷ []))

site_calls-SitesGuarded_example :
    Holds
      (OnDb (SitesGuarded sample_web) Anything)
      (λ _. Unit {0})
      (create_site sample_web 7 creation)
    × Holds
        (OnDb (SitesGuarded sample_web) Anything)
        (λ _. Unit {0})
        (update_site sample_web 7 1 rename)
    × Holds (OnDb (SitesGuarded sample_web) Anything) (λ _. Unit {0}) (delete_site 7 1)
site_calls-SitesGuarded_example = site_calls-SitesGuarded sample_web 7 1 creation rename

-- A check of user 7 that succeeded at this time.
abbrev check_at : ℕ → HealthCheck
check_at time = record {
  site_id = 1;
  user_id = 7;
  checked_at = time;
  success = true;
  status_code = some 200;
  response_time_ms = some 5;
  error_type = none;
  error_message = none;
  source = cron;
}

-- A world with one check that is old and one that is not.
abbrev aged_world : World
aged_world = record (sample_world []) {
  env = record sample_env { clock = λ n. 5000000000 };
  db = record (sample_db []) { checks = check_at 1000000000 ∷ check_at 4000000000 ∷ [] };
}

cleanup_spares_example :
    keep (is_safe 7 5000000000 30) (run run_retention_cleanup aged_world).1.db.checks
    ≡ check_at 4000000000 ∷ []
cleanup_spares_example =
    cleanup_spares 7 5000000000 30 aged_world (λ n. omega arith) ((λ e. omega arith), tt)

cleanup_deletes_example :
    count (is_outdated 7 30 5000000000) (run run_retention_cleanup aged_world).1.db.checks ≡ 0
cleanup_deletes_example =
    cleanup_deletes 7 30 5000000000 aged_world (λ n. refl) (λ n. omega arith) refl
