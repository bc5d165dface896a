-- ===== src/Analytics/Reports.antt =====
-- server/src/services/analytics.service.ts: the queries, and the three reports that run them side by
-- side.
use pulse_keeper.Prelude.{
  List, Option, codes, count, find, keep, leb, length, none, some, ℕ, ◌&&◌, ◌==◌,
}
use pulse_keeper.Prelude.Sums.{sum_of}
use pulse_keeper.Prelude.Grouping.{Group, group_by}
use pulse_keeper.Domain.{SiteStatus, is_active, offline, online, paused, slow, status_eq, unknown}
use pulse_keeper.Async.{ret, ◌>>=◌}
use pulse_keeper.Async.Parallel.{pair_of}
use pulse_keeper.Store.{Db, HealthCheck, Site}
use pulse_keeper.Store.Calls.{App, query}
use pulse_keeper.Monitoring.Running.{pick_first}
use pulse_keeper.Analytics.{
  Filter, ResponseTimePoint, StatusDistributionEntry, TimeRange, UptimeWindows, is_matched,
  last_24h, mean_time, of_site, of_user, range_start, response_time_series, status_distribution,
  timeline_length, uptime_windows,
}
use pulse_keeper.Analytics.Stats.{
  SiteStats, TimelineEntry, downtime_seconds, if_any, is_timed, stats_from, timeline,
}
use pulse_keeper.Analytics.Rankings.{Rankings, rankings_of, site_rows}

unfoldable pub calculate_uptime_windows : Filter → ℕ → App UptimeWindows
calculate_uptime_windows filter now = query (uptime_windows filter now)

unfoldable pub get_response_time_series : Filter → TimeRange → ℕ → App (List ResponseTimePoint)
get_response_time_series filter range now = query (response_time_series filter range now)

unfoldable pub get_status_distribution : Filter → TimeRange → ℕ → App (List StatusDistributionEntry)
get_status_distribution filter range now = query (status_distribution filter range now)

unfoldable pub get_downtime_seconds : Filter → TimeRange → ℕ → App ℕ
get_downtime_seconds filter range now = query (downtime_seconds filter range now)

-- The checks that the statistics are about.
abbrev pub checks_since : Filter → TimeRange → ℕ → Db → List HealthCheck
checks_since filter range now d = keep (is_matched filter (range_start range now)) d.checks

unfoldable pub get_site_stats : Filter → TimeRange → ℕ → App SiteStats
get_site_stats filter range now = do
  matched ← query (checks_since filter range now)
  downtime ← get_downtime_seconds filter range now
  ret (stats_from matched downtime)

unfoldable pub get_timeline : ℕ → ℕ → App (List TimelineEntry)
get_timeline site_id limit = query (timeline site_id limit)

-- `SiteAnalytics`
pub record SiteAnalytics : Type 0 where
  pub range : TimeRange
  pub since : ℕ
  pub until : ℕ
  pub stats : SiteStats
  pub uptime : UptimeWindows
  pub response_time : List ResponseTimePoint
  pub status_distribution : List StatusDistributionEntry
  pub timeline : List TimelineEntry

-- `Promise.all` of two; the number tells nested ones apart.
abbrev beside : {A B : Type 0} → ℕ → App A → App B → App (A × B)
beside = pair_of pick_first

unfoldable pub get_site_analytics : ℕ → ℕ → TimeRange → ℕ → App SiteAnalytics
get_site_analytics user_id site_id range now =
    let filter = of_site site_id user_id in
    do
      (stats, (uptime, (points, (codes, entries)))) ← beside 3 (get_site_stats filter range now) (
          beside 2 (calculate_uptime_windows filter now) (
            beside 1 (get_response_time_series filter range now) (
              beside 0 (get_status_distribution filter range now)
                (get_timeline site_id timeline_length))))
      ret (record {
        range = range;
        since = range_start range now;
        until = now;
        stats = stats;
        uptime = uptime;
        response_time = points;
        status_distribution = codes;
        timeline = entries;
      })

-- `DashboardStats.totals`
pub record SiteTotals : Type 0 where
  pub sites : ℕ
  pub online_sites : ℕ
  pub slow_sites : ℕ
  pub offline_sites : ℕ
  pub paused_sites : ℕ
  pub unknown_sites : ℕ

abbrev pub group_size : Group SiteStatus Site → ℕ
group_size g = length g.members

-- `byStatus.get(status) ?? 0`
unfoldable pub count_for : SiteStatus → List (Group SiteStatus Site) → ℕ
count_for status rows = elim (find (λ g. status_eq status g.key) rows) [
  | none ↦ 0
  | some g ↦ group_size g
]

-- The sites of a user by their status.
unfoldable pub status_counts : ℕ → Db → List (Group SiteStatus Site)
unfolding group_by
status_counts user_id d =
    group_by status_eq (λ s. s.current_status) (keep (λ s. s.user_id == user_id) d.sites)

unfoldable pub totals_from : List (Group SiteStatus Site) → SiteTotals
unfolding count_for
totals_from rows = record {
  sites = sum_of group_size rows;
  online_sites = count_for online rows;
  slow_sites = count_for slow rows;
  offline_sites = count_for offline rows;
  paused_sites = count_for paused rows;
  unknown_sites = count_for unknown rows;
}

pub record DashboardStats : Type 0 where
  pub totals : SiteTotals
  pub avg_response_time : Option ℕ
  pub uptime : UptimeWindows
  pub active_incidents : ℕ
  pub response_time : List ResponseTimePoint

-- `Incident.countDocuments({ userId, status: ACTIVE })`
abbrev pub active_of_user : ℕ → Db → ℕ
active_of_user user_id d = count (λ i. i.user_id == user_id && is_active i.status) d.incidents

-- `$avg` of the day's response times; documents without one do not count.
unfoldable pub average_today : ℕ → ℕ → Db → Option ℕ
unfolding mean_time
average_today user_id now d =
    if_any
      (keep is_timed (
        keep (λ c. is_matched (of_user user_id) (range_start last_24h now) c && c.success)
          d.checks))
      mean_time

unfoldable pub get_dashboard_stats : ℕ → ℕ → App DashboardStats
get_dashboard_stats user_id now = do
  (rows, (uptime, (points, (active_incidents, average)))) ←
      beside 3 (query (status_counts user_id)) (
        beside 2 (calculate_uptime_windows (of_user user_id) now) (
          beside 1 (get_response_time_series (of_user user_id) last_24h now)
            (beside 0 (query (active_of_user user_id)) (query (average_today user_id now)))))
  ret (record {
    totals = totals_from rows;
    avg_response_time = average;
    uptime = uptime;
    active_incidents = active_incidents;
    response_time = points;
  })

-- `PlatformAnalytics.totals`
pub record PlatformTotals : Type 0 where
  pub sites : ℕ
  pub checks : ℕ
  pub failed_checks : ℕ
  pub incidents : ℕ
  pub downtime : ℕ

pub record PlatformAnalytics : Type 0 where
  pub range : TimeRange
  pub totals : PlatformTotals
  pub uptime : UptimeWindows
  pub response_time : List ResponseTimePoint
  pub status_distribution : List StatusDistributionEntry
  pub rankings : Rankings

unfoldable pub get_site_rankings : ℕ → TimeRange → ℕ → App Rankings
get_site_rankings user_id range now =
    query (site_rows user_id range now) >>= λ rows. ret (rankings_of rows)

-- `Incident.countDocuments({ userId, startedAt: { $gte: since } })`
abbrev pub started_since : ℕ → ℕ → Db → ℕ
started_since user_id since d =
    count (λ i. i.user_id == user_id && leb since i.started_at) d.incidents

unfoldable pub get_platform_analytics : ℕ → TimeRange → ℕ → App PlatformAnalytics
get_platform_analytics user_id range now =
    let filter = of_user user_id in
    do
      (stats, (uptime, (points, (codes, (rankings, (sites, incidents)))))) ←
          beside 5 (get_site_stats filter range now) (
            beside 4 (calculate_uptime_windows filter now) (
              beside 3 (get_response_time_series filter range now) (
                beside 2 (get_status_distribution filter range now) (
                  beside 1 (get_site_rankings user_id range now) (
                    beside 0 (query (λ d. count (λ s. s.user_id == user_id) d.sites))
                      (query (started_since user_id (range_start range now))))))))
      ret (record {
        range = range;
        totals = record {
          sites = sites;
          checks = stats.total_checks;
          failed_checks = stats.failed_checks;
          incidents = incidents;
          downtime = stats.downtime;
        };
        uptime = uptime;
        response_time = points;
        status_distribution = codes;
        rankings = rankings;
      })
