-- ===== src/Monitoring/Sweep.antt =====
-- What a sweep reports.
use pulse_keeper.Prelude.{
  All, Bool, Bool-cases, List, Option, [], ap, arith, count, false, get_elem?, inl, inr, length,
  ltb, map, none, refl, some, suc, true, zero, ℕ, ◌+◌, ◌<◌, ◌∙◌, ◌∷◌, ◌≡◌, ◌≤◌, ◌⊎◌,
}
use pulse_keeper.Prelude.Int.{ℤ}
use pulse_keeper.Domain.{CheckSource, offline, online, slow}
use pulse_keeper.Async.{Async, act, ret, returned, run, throw, try_catch, try_finally, ◌>>=◌}
use pulse_keeper.Async.Rules.{NoThrow, Returns, Returns->>=, Returns->>=_of, Returns-try_catch}
use pulse_keeper.Store.{Config, Site, World}
use pulse_keeper.Store.Calls.{pass_time, read_clock, validate, write}
use pulse_keeper.HealthCheck.{HealthCheckOptions, HealthCheckOutcome, run_health_check}
use pulse_keeper.HealthCheck.Outcomes.{IsOutcome, run_health_check-IsOutcome}
use pulse_keeper.Concurrency.{run_with_concurrency}
use pulse_keeper.Concurrency.Results.{Promised, run_with_concurrency_complete}
use pulse_keeper.Monitoring.{
  SiteCheckResult, calculate_recent_uptime, certificate_update, check_site, check_url, contain,
  handle_outcome, options_of, record_outcome,
}
use pulse_keeper.Monitoring.Running.{
  has_status, pick_first, present, run_monitoring_sweep, set_progress, summarise, sweep_due,
}
use pulse_keeper.Monitoring.Contained.{check_site-NoThrow}

abbrev bit : Bool → ℕ
bit true = 1
bit false = 0

-- Exactly one of online, slow, offline and threw.
abbrev pub IsClassified : SiteCheckResult → Type 0
IsClassified r =
    bit (has_status online r) + bit (has_status slow r) + bit (has_status offline r) + bit r.threw
    ≡ 1

outcome-status :
    (options : HealthCheckOptions) (most : ℕ) (o : HealthCheckOutcome)
    → IsOutcome options most o
    → (o.status ≡ online) ⊎ (o.status ≡ slow) ⊎ (o.status ≡ offline)
outcome-status options most o h = elim (Bool-cases o.success) [
  | inl e ↦
      let (code, time, coded, low, timed, status, clean) = h.healthy e in
      elim (Bool-cases (ltb options.slow_threshold_ms time)) [
        | inl s ↦ inr (inl (rw status (rw s refl)))
        | inr s ↦ inl (rw status (rw s refl))
      ]
  | inr e ↦ inr (inr (h.failing e).0)
]

outcome-IsClassified :
    (options : HealthCheckOptions) (most : ℕ) (o : HealthCheckOutcome) (up down : Bool)
    → IsOutcome options most o
    → IsClassified (record {
      status = o.status;
      incident_opened = up;
      incident_resolved = down;
      threw = false;
    })
outcome-IsClassified options most o up down h = elim (outcome-status options most o h) [
  | inl e ↦ rw e refl
  | inr (inl e) ↦ rw e refl
  | inr (inr e) ↦ rw e refl
]

module _ (config : Config) (source : CheckSource) where
  record_outcome-IsClassified :
      (options : HealthCheckOptions) (most : ℕ) (site : Site) (o : HealthCheckOutcome)
      → IsOutcome options most o
      → Returns IsClassified (record_outcome config source site o)
  unfolding record_outcome
  record_outcome-IsClassified options most site o h = Returns->>= IsClassified read_clock _ λ at.
      Returns->>= IsClassified (validate _) _ λ _. Returns->>= IsClassified (write _) _ λ _.
        Returns->>= IsClassified (handle_outcome _ _ _) _ λ transition.
          Returns->>= IsClassified (calculate_recent_uptime _) _ λ uptime.
            Returns->>= IsClassified (certificate_update _ _ _) _ λ ssl.
              Returns->>= IsClassified (write _) _
                λ _. outcome-IsClassified options most o transition.opened transition.resolved_one h

  -- The check of a site returns one of online, slow, offline, or threw, and only one.
  check_site-IsClassified : (site : Site) → Returns IsClassified (check_site config source site)
  unfolding check_site contain
  check_site-IsClassified site =
      Returns-try_catch IsClassified (run_health_check config.web config _ _ >>= _) _
        (Returns->>=_of _ IsClassified (run_health_check config.web config _ _) _
          (run_health_check-IsOutcome config.web config (check_url site) (options_of site))
          (record_outcome-IsClassified (options_of site) _ site))
        (λ e.
          Returns->>= IsClassified read_clock _
            λ at. Returns->>= IsClassified (try_catch _ _) _ (λ _. refl))

  checks-NoThrow : (sites : List Site) → All NoThrow (map (check_site config source) sites)
  checks-NoThrow [] = tt
  checks-NoThrow (s ∷ ss) = (check_site-NoThrow config source s, checks-NoThrow ss)

  checks-Promised :
      (sites : List Site)
      → Promised pass_time (map (check_site config source) sites) (λ i r. IsClassified r)
  checks-Promised [] i task h = cc
  checks-Promised (s ∷ ss) zero task h =
      let same : check_site config source s ≡ task = cc in rw (← same) (check_site-IsClassified s)
  checks-Promised (s ∷ ss) (suc i) task h = checks-Promised ss i task h

-- Every result is there and classified.
abbrev Classified : List (Option SiteCheckResult) → Type 0
Classified rs =
    (i : ℕ)
    → i < length rs
    → (r : SiteCheckResult) × (get_elem? rs i ≡ some (some r)) × IsClassified r

Classified-counts :
    (rs : List (Option SiteCheckResult))
    → Classified rs
    → count (has_status online) (present rs)
        + count (has_status slow) (present rs)
        + count (has_status offline) (present rs)
        + count (λ r. r.threw) (present rs)
      ≡ length rs
Classified-counts [] h = refl
Classified-counts (none ∷ rs) h = let (r, there_now, c) = h 0 (omega arith) in cc
Classified-counts (some a ∷ rs) h =
    let (r, there_now, c) = h 0 (omega arith) in
    let same : r ≡ a = cc in
    let one : IsClassified a = rw (← same) c in
    let rest = Classified-counts rs (λ i l. h (suc i) (omega arith)) in ground (arith, one, rest)

length-map {ℓ κ} :
    {A : Type ℓ} {B : Type κ} (f : A → B) (xs : List A) → length (map f xs) ≡ length xs
length-map f [] = refl
length-map f (x ∷ xs) = ap suc (length-map f xs)

-- With a concurrency of one at least: whatever happens to the sites, the resolver, the channels
-- and the database, the checks of a sweep all end, and its summary counts each site as exactly
-- one of online, slow, offline and error.
pub sweep_counts_each :
    (config : Config) (trigger : CheckSource) (sites : List Site) (w : World) (run_id : Option ℕ)
    (duration : ℤ)
    → 1 ≤ config.monitor_concurrency
    → (rs : List (Option SiteCheckResult)) × ((run
          (run_with_concurrency pass_time
            (map (check_site config trigger) sites)
            pick_first
            config.monitor_concurrency)
          w).0
        ≡ returned rs)
      × ((summarise run_id rs duration).checked ≡ length sites)
      × ((summarise run_id rs duration).online_count
            + (summarise run_id rs duration).slow_count
            + (summarise run_id rs duration).offline_count
            + (summarise run_id rs duration).errors
          ≡ length sites)
unfolding summarise
sweep_counts_each config trigger sites w run_id duration h =
    let (rs, ended, size, settled) =
      run_with_concurrency_complete pass_time pick_first (map (check_site config trigger) sites)
        config.monitor_concurrency w (λ i r. IsClassified r) (checks-NoThrow config trigger sites) h
        (checks-Promised config trigger sites) in
    let long : length rs ≡ length sites = size ∙ length-map _ sites in
    (rs, ended, long, Classified-counts rs (λ i l. settled i (omega (arith, size))) ∙ long)

pub run-try_finally :
    {W A : Type 0} (m : Async W A) (n : W → W) (w : W)
    → run (try_finally m n) w ≡ ((run m w).0, n (run m w).1)
unfolding run try_finally
run-try_finally (ret a) n w = refl
run-try_finally (throw e) n w = refl
run-try_finally (act g k) n w = run-try_finally (k w) n (g w)

-- However a sweep ends, returned or thrown, the flag of a sweep in progress is clear after it.
pub run_monitoring_sweep-releases :
    (config : Config) (trigger : CheckSource) (w : World)
    → (run (run_monitoring_sweep config trigger) w).1.in_progress ≡ false
unfolding run_monitoring_sweep run read_clock ◌>>=◌
run_monitoring_sweep-releases config trigger w =
    ap (λ r. r.1.in_progress)
      (run-try_finally (sweep_due config trigger (w.env.clock w.moment)) (set_progress false) _)
