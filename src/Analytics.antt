-- ===== src/Analytics.antt =====
-- server/src/services/analytics.service.ts and server/src/constants/analytics.ts: the figures that
-- are read from the checks and the incidents of a user or of one of the user's sites. The reports
-- that put them together are in Analytics/Reports.
pub mod Stats
pub mod Rankings
pub mod Reports
pub mod Windows
pub mod Charts
pub mod Points
pub mod Downtime
use pulse_keeper.Prelude.{
  Bool, List, Option, [], count, false, if◌then◌else◌, is_some, keep, leb, length, map, max, min,
  none, or_else, some, true, ℕ, ◌&&◌, ◌*◌, ◌-◌, ◌/◌, ◌==◌, ◌∷◌,
}
use pulse_keeper.Prelude.Sums.{round_div, sum_of}
use pulse_keeper.Prelude.Sorting.{sort_by}
use pulse_keeper.Prelude.Grouping.{Group, group_by}
use pulse_keeper.Store.{Db, HealthCheck, Incident}

-- `TimeRangeKey`
pub data TimeRange : Type 0 where
  last_hour last_24h last_7d last_30d last_90d : TimeRange

-- `TIME_RANGES[range].milliseconds`
abbrev pub milliseconds : TimeRange → ℕ
milliseconds last_hour = 60 * 60 * 1000
milliseconds last_24h = 24 * 60 * 60 * 1000
milliseconds last_7d = 7 * 24 * 60 * 60 * 1000
milliseconds last_30d = 30 * 24 * 60 * 60 * 1000
milliseconds last_90d = 90 * 24 * 60 * 60 * 1000

-- `TIME_RANGES[range].bucket`, in milliseconds.
abbrev pub bucket_width : TimeRange → ℕ
bucket_width last_hour = 60000
bucket_width last_24h = 30 * 60000
bucket_width last_7d = 2 * 3600000
bucket_width last_30d = 6 * 3600000
bucket_width last_90d = 86400000

-- `TIMELINE_LENGTH`
abbrev pub timeline_length : ℕ
timeline_length = 60

-- `rangeStart`; a start before 1970 is the start of 1970, which no check precedes.
abbrev pub range_start : TimeRange → ℕ → ℕ
range_start range now = now - milliseconds range

-- `round2((part / total) * 100)` in hundredths, for a positive total.
unfoldable pub percentage : ℕ → ℕ → ℕ
unfolding round_div
percentage part total = round_div (part * 10000) total

-- The `match` of a report: all that is the user's, or what is about one of the user's sites.
pub data Filter : Type 0 where
  of_user : ℕ → Filter
  of_site : ℕ → ℕ → Filter

-- Whether the filter lets a document with this site and this user through.
abbrev pub admits : Filter → ℕ → ℕ → Bool
admits (of_user user_id) s u = u == user_id
admits (of_site site_id user_id) s u = s == site_id && u == user_id

abbrev pub matches_check : Filter → HealthCheck → Bool
matches_check filter c = admits filter c.site_id c.user_id

abbrev pub matches_incident : Filter → Incident → Bool
matches_incident filter i = admits filter i.site_id i.user_id

-- `{ ...match, checkedAt: { $gte: since } }`
abbrev pub is_matched : Filter → ℕ → HealthCheck → Bool
is_matched filter since c = matches_check filter c && leb since c.checked_at

-- `UptimeWindows`: none where a window has no checks.
pub record UptimeWindows : Type 0 where
  pub of_24h : Option ℕ
  pub of_7d : Option ℕ
  pub of_30d : Option ℕ
  pub of_90d : Option ℕ

-- One facet: the checks of the widest window, narrowed.
unfoldable pub window_uptime : List HealthCheck → ℕ → Option ℕ
window_uptime matched since =
    let narrowed = keep (λ c. leb since c.checked_at) matched in
    if length narrowed == 0
    then none
    else some (percentage (count (λ c. c.success) narrowed) (length narrowed))

unfoldable pub uptime_windows : Filter → ℕ → Db → UptimeWindows
unfolding window_uptime
uptime_windows filter now d =
    let matched = keep (is_matched filter (range_start last_90d now)) d.checks in
    record {
      of_24h = window_uptime matched (range_start last_24h now);
      of_7d = window_uptime matched (range_start last_7d now);
      of_30d = window_uptime matched (range_start last_30d now);
      of_90d = window_uptime matched (range_start last_90d now);
    }

-- `ResponseTimePoint`
pub record ResponseTimePoint : Type 0 where
  pub timestamp : ℕ
  pub avg : ℕ
  pub least : ℕ
  pub most : ℕ
  pub size : ℕ

-- `$dateTrunc` to bins of this width, which divides a day.
abbrev pub truncated : ℕ → ℕ → ℕ
truncated width at = at / width * width

-- The response time of a check that has one.
abbrev pub time_of : HealthCheck → ℕ
time_of c = or_else c.response_time_ms 0

-- `$min` and `$max` of the response times of checks that have one; 0 where there is no check.
unfoldable pub least_time : List HealthCheck → ℕ
least_time [] = 0
least_time (c ∷ []) = time_of c
least_time (c ∷ b ∷ cs) = min (time_of c) (least_time (b ∷ cs))

unfoldable pub most_time : List HealthCheck → ℕ
most_time [] = 0
most_time (c ∷ cs) = max (time_of c) (most_time cs)

-- `Math.round` of `$avg`.
unfoldable pub mean_time : List HealthCheck → ℕ
unfolding round_div
mean_time cs = round_div (sum_of time_of cs) (length cs)

unfoldable pub point_of : Group ℕ HealthCheck → ResponseTimePoint
unfolding least_time most_time mean_time
point_of g = record {
  timestamp = g.key;
  avg = mean_time g.members;
  least = least_time g.members;
  most = most_time g.members;
  size = length g.members;
}

-- The checks that the chart is drawn from.
abbrev pub is_charted : Filter → ℕ → HealthCheck → Bool
is_charted filter since c = is_matched filter since c && c.success && is_some c.response_time_ms

abbrev pub earlier_group : Group ℕ HealthCheck → Group ℕ HealthCheck → Bool
earlier_group g h = leb g.key h.key

unfoldable pub response_time_series : Filter → TimeRange → ℕ → Db → List ResponseTimePoint
unfolding point_of group_by sort_by
response_time_series filter range now d = map point_of (
    sort_by earlier_group (
      group_by ◌==◌ (λ c. truncated (bucket_width range) c.checked_at)
        (keep (is_charted filter (range_start range now)) d.checks)))

-- `StatusDistributionEntry`
pub record StatusDistributionEntry : Type 0 where
  pub status_code : Option ℕ
  pub size : ℕ

-- Whether two status codes fall into one group; missing ones do.
abbrev pub same_code : Option ℕ → Option ℕ → Bool
same_code none none = true
same_code (some a) (some b) = a == b
same_code _ _ = false

abbrev pub larger_entry : StatusDistributionEntry → StatusDistributionEntry → Bool
larger_entry a b = leb b.size a.size

unfoldable pub entry_of : Group (Option ℕ) HealthCheck → StatusDistributionEntry
entry_of g = record { status_code = g.key; size = length g.members }

unfoldable pub status_distribution : Filter → TimeRange → ℕ → Db → List StatusDistributionEntry
unfolding entry_of group_by sort_by
status_distribution filter range now d = sort_by larger_entry (
    map entry_of (
      group_by same_code (λ c. c.status_code)
        (keep (is_matched filter (range_start range now)) d.checks)))
