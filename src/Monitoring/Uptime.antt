-- ===== src/Monitoring/Uptime.antt =====
-- The uptime of a site's card, in hundredths of a percent.
use pulse_keeper.Prelude.{arith, false, ℕ, ◌*◌, ◌+◌, ◌<◌, ◌==◌, ◌≡◌, ◌≤◌}
use pulse_keeper.Monitoring.{uptime_of}

-- Of one check or more, of which so many succeeded: the uptime is at most 100 percent, is the
-- nearest hundredth of a percent (halves go up), and is 0 if none succeeded and 100 percent if
-- all did.
pub uptime_of_bounds :
    (successful total : ℕ)
    → successful ≤ total
    → 0 < total
    → (uptime_of successful total ≤ 10000)
      × (2 * (total * uptime_of successful total) ≤ 20000 * successful + total)
      × (20000 * successful < 2 * (total * uptime_of successful total) + total)
      × (uptime_of 0 total ≡ 0)
      × (uptime_of total total ≡ 10000)
unfolding uptime_of
uptime_of_bounds s t h p =
    let e : (t == 0) ≡ false = ground arith in
    rw e (grind arith, grind arith, grind arith, grind arith, grind arith)
