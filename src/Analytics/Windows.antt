-- ===== src/Analytics/Windows.antt =====
-- What the uptime panel shows.
use pulse_keeper.Prelude.{
  Option, arith, count, if◌then◌else◌, keep, leb, length, none, refl, some, ℕ, ◌&&◌, ◌==◌, ◌∙◌, ◌≡◌,
  ◌≤◌,
}
use pulse_keeper.Prelude.Sums.{count-keep, count_agree, length-keep}
use pulse_keeper.Store.{Db, HealthCheck}
use pulse_keeper.Analytics.{
  Filter, is_matched, last_24h, last_30d, last_7d, last_90d, percentage, range_start,
  uptime_windows, window_uptime,
}

-- The share of successful checks since a time, read off the whole history; none without checks.
unfoldable pub direct_uptime : Filter → ℕ → Db → Option ℕ
direct_uptime filter since d =
    let total = count (is_matched filter since) d.checks in
    if total == 0
    then none
    else some (percentage (count (λ c. is_matched filter since c && c.success) d.checks) total)

narrowed_match :
    (filter : Filter) (wide since : ℕ) (c : HealthCheck)
    → wide ≤ since
    → (is_matched filter wide c && leb since c.checked_at) ≡ is_matched filter since c
narrowed_match filter wide since c h = ground (arith, h)

narrowed_success :
    (filter : Filter) (wide since : ℕ) (c : HealthCheck)
    → wide ≤ since
    → (is_matched filter wide c && (leb since c.checked_at && c.success))
      ≡ (is_matched filter since c && c.success)
narrowed_success filter wide since c h = ground (arith, h)

window_uptime-direct :
    (filter : Filter) (wide since : ℕ) (d : Db)
    → wide ≤ since
    → window_uptime (keep (is_matched filter wide) d.checks) since ≡ direct_uptime filter since d
unfolding window_uptime direct_uptime
window_uptime-direct filter wide since d h =
    let matched = keep (is_matched filter wide) d.checks in
    let recent = λ (c : HealthCheck). leb since c.checked_at in
    let totals : length (keep recent matched) ≡ count (is_matched filter since) d.checks =
      length-keep recent matched
      ∙ count-keep (is_matched filter wide) recent d.checks
      ∙ count_agree _ (is_matched filter since) d.checks
          (λ c. narrowed_match filter wide since c h) in
    let successes : count (λ c. c.success) (keep recent matched)
        ≡ count (λ c. is_matched filter since c && c.success) d.checks =
      count-keep recent (λ c. c.success) matched
      ∙ count-keep (is_matched filter wide) (λ c. recent c && c.success) d.checks
      ∙ count_agree _ (λ c. is_matched filter since c && c.success) d.checks
          (λ c. narrowed_success filter wide since c h) in
    rw (totals, successes) refl

-- Each of the four windows, which are read in one pass over the checks of the widest, shows the
-- share of successful checks of its own range in the whole history, and none exactly where the range
-- has no checks.
pub uptime_windows-direct :
    (filter : Filter) (now : ℕ) (d : Db)
    → ((uptime_windows filter now d).of_24h ≡ direct_uptime filter (range_start last_24h now) d)
      × ((uptime_windows filter now d).of_7d ≡ direct_uptime filter (range_start last_7d now) d)
      × ((uptime_windows filter now d).of_30d ≡ direct_uptime filter (range_start last_30d now) d)
      × ((uptime_windows filter now d).of_90d ≡ direct_uptime filter (range_start last_90d now) d)
unfolding uptime_windows
uptime_windows-direct filter now d =
    let wide = range_start last_90d now in
    (
      window_uptime-direct filter wide (range_start last_24h now) d (omega arith),
      window_uptime-direct filter wide (range_start last_7d now) d (omega arith),
      window_uptime-direct filter wide (range_start last_30d now) d (omega arith),
      window_uptime-direct filter wide wide d (omega arith),
    )
