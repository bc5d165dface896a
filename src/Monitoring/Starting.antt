-- ===== src/Monitoring/Starting.antt =====
-- Which sites a sweep hands to its checks.
use pulse_keeper.Prelude.{
  Bool, List, [], false, if◌then◌else◌, ltb, none, not, some, true, ℕ, ◌&&◌, ◌*◌, ◌+◌, ◌||◌,
}
use pulse_keeper.Prelude.Int.{sub_ℕ}
use pulse_keeper.Domain.{CheckSource, is_cron}
use pulse_keeper.Async.{Result, ret, ◌>>=◌}
use pulse_keeper.Store.{Config, Site, World}
use pulse_keeper.Store.Calls.{App, pass_time, read_clock}
use pulse_keeper.Monitoring.Running.{SweepSummary, is_nil, set_progress, summarise}

-- A site that a sweep at this time must check: monitoring is on, it is no demo, and it has never been
-- checked, or so long ago that its interval of minutes has passed.
abbrev pub is_waiting : ℕ → Site → Bool
is_waiting at s = if s.is_demo || not s.monitoring_enabled then false else elim s.last_checked_at [
  | none ↦ true
  | some last ↦ not (ltb at (last + 60000 * s.interval_minutes))
]

-- The world in which a sweep that began in this one has read its sites.
abbrev pub begun : World → World
begun w = pass_time (set_progress true (pass_time w))

-- The end of a sweep: the flag is cleared.
abbrev pub closed : {A : Type 0} → Result A × World → Result A × World
closed (r, v) = (r, set_progress false v)

-- A sweep of the schedule that finds no site.
abbrev pub is_idle : CheckSource → List Site → Bool
is_idle trigger sites = is_nil sites && is_cron trigger

module _ (config : Config) (trigger : CheckSource) (w : World) where
  abbrev at_once : ℕ → App SweepSummary
  at_once at = read_clock >>= λ now. ret (summarise none [] (sub_ℕ now at))
