-- ===== src/Monitoring.antt =====
-- server/src/services/monitoring.service.ts: which sites are due, and the check of one site with
-- all that follows from it.
pub mod Running
pub mod Due
pub mod Uptime
pub mod Contained
pub mod Invariants
pub mod Sweep
pub mod Starting
pub mod Warned
use pulse_keeper.Prelude.{
  Bool, List, Option, Text, [], codes, count, false, if◌then◌else◌, keep, leb, length, none, not,
  or_else, or_option, some, trim, true, ℕ, ◌&&◌, ◌*◌, ◌++◌, ◌+◌, ◌-◌, ◌/◌, ◌==◌, ◌∷◌,
}
use pulse_keeper.Domain.{CheckSource, SiteStatus, incident_opened, incident_resolved, unknown}
use pulse_keeper.Async.{ret, try_catch, ◌>>=◌, ◌>>◌}
use pulse_keeper.Store.{Config, Db, HealthCheck, Site}
use pulse_keeper.Store.Calls.{App, query, read_clock, validate, write}
use pulse_keeper.HealthCheck.{HealthCheckOptions, HealthCheckOutcome, run_health_check}
use pulse_keeper.HealthCheck.Request.{TlsCertificateInfo}
use pulse_keeper.Ssl.{SslUpdate, handle_certificate, update_site_by_id}
use pulse_keeper.Incidents.{IncidentTransition, handle_failed_check, handle_successful_check}

-- The filter of `findDueSites`: enabled, no demo, and never checked or checked an interval ago.
unfoldable pub is_due : ℕ → Site → Bool
is_due at site = site.monitoring_enabled && not site.is_demo && elim site.last_checked_at [
  | none ↦ true
  | some last ↦ leb (last + site.interval_minutes * 60000) at
]

-- The order of `{ lastCheckedAt: 1 }`, where a missing time comes first.
abbrev pub checked_before : Option ℕ → Option ℕ → Bool
checked_before none b = true
checked_before (some a) none = false
checked_before (some a) (some b) = leb a b

unfoldable pub insert_by_check : Site → List Site → List Site
insert_by_check s [] = s ∷ []
insert_by_check s (t ∷ ts) =
    if checked_before s.last_checked_at t.last_checked_at
    then s ∷ t ∷ ts
    else t ∷ insert_by_check s ts

unfoldable pub sort_by_check : List Site → List Site
unfolding insert_by_check
sort_by_check [] = []
sort_by_check (s ∷ ss) = insert_by_check s (sort_by_check ss)

unfoldable pub due_sites : ℕ → Db → List Site
due_sites at d = sort_by_check (keep (is_due at) d.sites)

unfoldable pub find_due_sites : ℕ → App (List Site)
find_due_sites at = query (due_sites at)

-- `SiteCheckResult`
pub record SiteCheckResult : Type 0 where
  pub status : SiteStatus
  pub incident_opened : Bool
  pub incident_resolved : Bool
  pub threw : Bool

abbrev pub threw_result : SiteCheckResult
threw_result = record {
  status = unknown;
  incident_opened = false;
  incident_resolved = false;
  threw = true;
}

-- `text || fallback`, of a text that may be missing.
abbrev nonempty_or : Text → Text → Text
nonempty_or [] fallback = fallback
nonempty_or (c ∷ s) fallback = c ∷ s

-- `site.healthEndpoint?.trim() || site.url`
unfoldable pub check_url : Site → Text
check_url site = elim site.health_endpoint [
  | none ↦ site.url
  | some endpoint ↦ nonempty_or (trim endpoint) site.url
]

unfoldable pub check_document : Site → CheckSource → ℕ → HealthCheckOutcome → HealthCheck
check_document site source at outcome = record {
  site_id = site.id;
  user_id = site.user_id;
  checked_at = at;
  success = outcome.success;
  status_code = outcome.status_code;
  response_time_ms = outcome.response_time_ms;
  error_type = outcome.error_type;
  error_message = outcome.error_message;
  source = source;
}

abbrev pub insert_check : HealthCheck → Db → Db
insert_check c d = record d { checks = d.checks ++ c ∷ [] }

-- `Math.round((successful / total) * 10_000)`, 0 where there is no check.
unfoldable pub uptime_of : ℕ → ℕ → ℕ
uptime_of successful total = if total == 0 then 0 else (successful * 20000 + total) / (2 * total)

-- The checks of a site since a time.
abbrev pub is_recent : ℕ → ℕ → HealthCheck → Bool
is_recent site_id since c = c.site_id == site_id && leb since c.checked_at

unfoldable pub recent_uptime : ℕ → ℕ → Db → ℕ
unfolding uptime_of
recent_uptime site_id since d =
    let recent = keep (is_recent site_id since) d.checks in
    uptime_of (count (λ c. c.success) recent) (length recent)

unfoldable pub calculate_recent_uptime : ℕ → App ℕ
calculate_recent_uptime site_id = do at ← read_clock; query (recent_uptime site_id (at - 86400000))

-- `handleCertificate`, where the check has seen a certificate.
unfoldable pub certificate_update :
    Config → Site → Option TlsCertificateInfo → App (Option SslUpdate)
certificate_update config site none = ret none
certificate_update config site (some c) = do
  update ← handle_certificate config site c
  ret (some update)

-- The fields of an `SslUpdate` that are there.
unfoldable pub set_certificate : Option SslUpdate → Site → Site
set_certificate none s = s
set_certificate (some u) s = record s {
  ssl_valid_to = some u.valid_to;
  ssl_issuer = or_option u.issuer s.ssl_issuer;
  ssl_days_remaining = some u.days_remaining;
  ssl_checked_at = some u.checked_at;
  ssl_warned_at_days = or_option u.warned_at_days s.ssl_warned_at_days;
}

-- The `$set` of a check.
unfoldable pub set_check :
    HealthCheckOutcome → ℕ → ℕ → ℕ → IncidentTransition → Option SslUpdate → Site → Site
unfolding set_certificate
set_check outcome at failures uptime transition ssl site =
    let s = set_certificate ssl site in
    record s {
      current_status = outcome.status;
      current_response_time = some outcome.response_time_ms;
      current_status_code = some outcome.status_code;
      last_checked_at = some at;
      consecutive_failures = failures;
      uptime_percentage = uptime;
      last_success_at = if outcome.success then some at else s.last_success_at;
      active_incident_id =
          if transition.resolved_one
          then none
          else if transition.opened
          then transition.incident_id
          else s.active_incident_id;
    }

unfoldable pub next_failures : Bool → Site → ℕ
next_failures success site = if success then 0 else site.consecutive_failures + 1

-- The incident service's part of a check.
unfoldable pub handle_outcome : Config → Site → HealthCheckOutcome → App IncidentTransition
handle_outcome config site outcome =
    if outcome.success
    then handle_successful_check config site
    else handle_failed_check config site
        (or_else outcome.error_message (codes "Health check failed")) outcome.error_type
        outcome.status_code

-- What `checkSite` does of an outcome, in its `try` block.
unfoldable pub record_outcome :
    Config → CheckSource → Site → HealthCheckOutcome → App SiteCheckResult
record_outcome config source site outcome = do
  checked_at ← read_clock
  validate (leb (length (or_else outcome.error_message [])) 500)
  write (insert_check (check_document site source checked_at outcome))
  let failures = next_failures outcome.success site
  transition ← handle_outcome config (record site { consecutive_failures = failures }) outcome
  uptime ← calculate_recent_uptime site.id
  ssl ← certificate_update config site outcome.tls
  write (update_site_by_id site.id (set_check outcome checked_at failures uptime transition ssl))
  ret (record {
    status = outcome.status;
    incident_opened = transition.opened;
    incident_resolved = transition.resolved_one;
    threw = false;
  })

-- The catch block of `checkSite`.
unfoldable pub contain : Site → App SiteCheckResult
contain site = do
  at ← read_clock
  try_catch (write (update_site_by_id site.id (λ s. record s { last_checked_at = some at })))
      (λ _. ret tt)
  ret threw_result

abbrev pub options_of : Site → HealthCheckOptions
options_of site = record {
  timeout_seconds = site.timeout_seconds;
  slow_threshold_ms = site.slow_threshold_ms;
  max_redirects = none;
}

unfoldable pub check_site : Config → CheckSource → Site → App SiteCheckResult
check_site config source site =
    try_catch
      (run_health_check config.web config (check_url site) (options_of site)
        >>= record_outcome config source site)
      (λ _. contain site)
