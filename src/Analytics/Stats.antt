-- ===== src/Analytics/Stats.antt =====
-- server/src/services/analytics.service.ts: the statistics panel, the downtime and the timeline.
use pulse_keeper.Prelude.{
  Bool, List, Option, [], count, false, if◌then◌else◌, is_some, keep, leb, length, map, max, none,
  not, or_else, reverse, some, take, ℕ, ◌&&◌, ◌-◌, ◌==◌, ◌||◌, ◌∷◌,
}
use pulse_keeper.Prelude.Sums.{round_div, sum_of}
use pulse_keeper.Prelude.Sorting.{sort_by}
use pulse_keeper.Domain.{CheckErrorType, is_active}
use pulse_keeper.Store.{Db, HealthCheck, Incident}
use pulse_keeper.Analytics.{
  Filter, TimeRange, least_time, matches_incident, mean_time, most_time, percentage, range_start,
}

-- `{ ...match, $or: [{ resolvedAt: { $gte: from } }, { status: ACTIVE }] }`
abbrev pub reaches : Filter → ℕ → Incident → Bool
reaches filter since i =
    matches_incident filter i
    && (elim i.resolved_at [ none ↦ false | some at ↦ leb since at ] || is_active i.status)

-- `Math.max(0, Math.round((end - start) / 1000))`
unfoldable pub clipped_seconds : ℕ → ℕ → Incident → ℕ
unfolding round_div
clipped_seconds since now i = round_div (or_else i.resolved_at now - max i.started_at since) 1000

unfoldable pub downtime_seconds : Filter → TimeRange → ℕ → Db → ℕ
unfolding clipped_seconds
downtime_seconds filter range now d =
    sum_of (clipped_seconds (range_start range now) now)
      (keep (reaches filter (range_start range now)) d.incidents)

-- `SiteStats`
pub record SiteStats : Type 0 where
  pub total_checks : ℕ
  pub failed_checks : ℕ
  pub uptime_percentage : ℕ
  pub avg_response_time : Option ℕ
  pub min_response_time : Option ℕ
  pub max_response_time : Option ℕ
  pub downtime : ℕ

-- The checks whose response time enters the averages: `$cond: ['$success', '$responseTimeMs', null]`.
abbrev pub is_timed : HealthCheck → Bool
is_timed c = c.success && is_some c.response_time_ms

-- `$avg`, `$min` and `$max` give null where no value is a number.
abbrev pub if_any : List HealthCheck → (List HealthCheck → ℕ) → Option ℕ
if_any [] f = none
if_any (c ∷ cs) f = some (f (c ∷ cs))

unfoldable pub totals_of : List HealthCheck → ℕ → SiteStats
unfolding percentage least_time most_time mean_time
totals_of matched downtime =
    let failed = count (λ c. not c.success) matched in
    let timed = keep is_timed matched in
    record {
      total_checks = length matched;
      failed_checks = failed;
      uptime_percentage = percentage (length matched - failed) (length matched);
      avg_response_time = if_any timed mean_time;
      min_response_time = if_any timed least_time;
      max_response_time = if_any timed most_time;
      downtime = downtime;
    }

abbrev pub empty_stats : ℕ → SiteStats
empty_stats downtime = record {
  total_checks = 0;
  failed_checks = 0;
  uptime_percentage = 0;
  avg_response_time = none;
  min_response_time = none;
  max_response_time = none;
  downtime = downtime;
}

-- What follows the two queries.
unfoldable pub stats_from : List HealthCheck → ℕ → SiteStats
unfolding totals_of
stats_from matched downtime =
    if length matched == 0 then empty_stats downtime else totals_of matched downtime

-- `TimelineEntry`
pub record TimelineEntry : Type 0 where
  pub checked_at : ℕ
  pub success : Bool
  pub status_code : Option ℕ
  pub response_time_ms : Option ℕ
  pub error_type : Option CheckErrorType

abbrev pub timeline_entry : HealthCheck → TimelineEntry
timeline_entry c = record {
  checked_at = c.checked_at;
  success = c.success;
  status_code = c.status_code;
  response_time_ms = c.response_time_ms;
  error_type = c.error_type;
}

abbrev pub newer_check : HealthCheck → HealthCheck → Bool
newer_check a b = leb b.checked_at a.checked_at

-- `.sort({ checkedAt: -1 }).limit(limit)`
unfoldable pub newest : ℕ → ℕ → Db → List HealthCheck
unfolding sort_by
newest site_id limit d =
    take limit (sort_by newer_check (keep (λ c. c.site_id == site_id) d.checks))

unfoldable pub timeline : ℕ → ℕ → Db → List TimelineEntry
unfolding newest
timeline site_id limit d = map timeline_entry (reverse (newest site_id limit d))
