-- ===== src/Tests/Analytics.antt =====
-- The theorems on the analytics on a small history.
use pulse_keeper.Prelude.{
  All, Bool, [], count, false, if◌then◌else◌, length, none, refl, some, true, ℕ, ◌*◌, ◌==◌, ◌∷◌,
  ◌≡◌, ◌≤◌,
}
use pulse_keeper.Prelude.Sums.{round_div, sum_where}
use pulse_keeper.Prelude.Sorting.{insert_by, sort_by}
use pulse_keeper.Prelude.Grouping.{add_to_group, group_by}
use pulse_keeper.Domain.{cron}
use pulse_keeper.Store.{Db, HealthCheck}
use pulse_keeper.Analytics.{
  last_24h, least_time, mean_time, most_time, of_site, of_user, percentage, point_of,
  response_time_series, uptime_windows,
}
use pulse_keeper.Analytics.Windows.{direct_uptime, uptime_windows-direct}
use pulse_keeper.Analytics.Charts.{EarliestFirst}
use pulse_keeper.Analytics.Points.{IsTruePoint, plotted, response_time_series_lem}
use pulse_keeper.Tests.{sample_db, sample_incident}

-- A check of site 1 of user 7, timed if it succeeded.
abbrev checked : ℕ → Bool → ℕ → HealthCheck
checked at success ms = record {
  site_id = 1;
  user_id = 7;
  checked_at = at;
  success = success;
  status_code = if success then some 200 else some 500;
  response_time_ms = if success then some ms else none;
  error_type = none;
  error_message = none;
  source = cron;
}

abbrev history_now : ℕ
history_now = 10000000000

abbrev history : Db
history = record (sample_db (sample_incident ∷ [])) {
  checks =
      checked 9999990000 true 30
      ∷ checked 9999990001 true 11
      ∷ checked 9999990002 false 0
      ∷ checked 9800000000 false 0
      ∷ [];
}

uptime_windows-direct_example :
    ((uptime_windows (of_user 7) history_now history).of_24h ≡ some 6667)
    × ((uptime_windows (of_user 7) history_now history).of_7d ≡ some 5000)
    × ((uptime_windows (of_user 7) history_now history).of_30d ≡ some 5000)
    × ((uptime_windows (of_user 7) history_now history).of_90d ≡ some 5000)
unfolding direct_uptime percentage round_div
uptime_windows-direct_example = uptime_windows-direct (of_user 7) history_now history

response_time_series_lem_example :
    EarliestFirst (response_time_series (of_site 1 7) last_24h history_now history)
    × ((at : ℕ)
        → count
            (λ p. at == p.timestamp)
            (response_time_series (of_site 1 7) last_24h history_now history)
          ≤ 1)
    × All
        (IsTruePoint (of_site 1 7) last_24h history_now history)
        (response_time_series (of_site 1 7) last_24h history_now history)
    × ((k : ℕ)
        → sum_where
            (λ p. k * 1800000 == p.timestamp)
            (λ p. p.size)
            (response_time_series (of_site 1 7) last_24h history_now history)
          ≡ length (plotted (of_site 1 7) last_24h history_now history (k * 1800000)))
response_time_series_lem_example =
    response_time_series_lem (of_site 1 7) last_24h history_now history

chart :
    response_time_series (of_site 1 7) last_24h history_now history
    ≡ record { timestamp = 9999000000; avg = 21; least = 11; most = 30; size = 2 } ∷ []
unfolding response_time_series point_of mean_time least_time most_time round_div group_by
    add_to_group sort_by insert_by
chart = refl
