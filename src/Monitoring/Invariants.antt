-- ===== src/Monitoring/Invariants.antt =====
-- The incidents stay valid at every act of the monitor, however its programs interleave.
use pulse_keeper.Prelude.{
  All, Bool-cases, List, Option, [], inl, inr, is_some, map, none, refl, some, sym, ℕ, ◌&&◌, ◌∷◌,
  ◌≡◌,
}
use pulse_keeper.Domain.{CheckSource, is_cron, manual}
use pulse_keeper.Async.{Result, run, try_catch, ◌>>=◌}
use pulse_keeper.Async.Rules.{Keeps, Keeps->>=, Keeps-try_catch, Keeps-try_finally, run-Keeps}
use pulse_keeper.Async.Parallel.{Keeps-both, both}
use pulse_keeper.Store.{Config, Contact, Db, Site, World}
use pulse_keeper.Store.Calls.{
  Anything, App, Keeps-db_call, Keeps-query, Keeps-read_clock, Keeps-validate, Keeps-write, OnDb,
  db_call, pass_time, query, read_clock, validate, write,
}
use pulse_keeper.HealthCheck.{HealthCheckOutcome, run_health_check}
use pulse_keeper.HealthCheck.Contacts.{Keeps-run_health_check}
use pulse_keeper.HealthCheck.Request.{TlsCertificateInfo}
use pulse_keeper.Guard.Urls.{IsAllowedUrl}
use pulse_keeper.Guard.Contacts.{
  ContactRules, IsAllowedContact, OnlyAllowed, allowed_rules, any_rules,
}
use pulse_keeper.Notify.{notify}
use pulse_keeper.Ssl.{SslUpdate, announce, handle_certificate, should_warn}
use pulse_keeper.Incidents.OneActive.{
  IncidentsValid, IncidentsValid-of_same, Keeps-handle_failed_check, Keeps-handle_successful_check,
  Keeps-notify-Valid,
}
use pulse_keeper.Concurrency.{run_with_concurrency}
use pulse_keeper.Concurrency.Kept.{Keeps-run_with_concurrency}
use pulse_keeper.Monitoring.{
  SiteCheckResult, calculate_recent_uptime, certificate_update, check_site, contain, find_due_sites,
  handle_outcome, record_outcome,
}
use pulse_keeper.Monitoring.Running.{
  SweepSummary, check_found, finish_run, insert_run, is_nil, pick_first, run_manual_check,
  run_monitoring_sweep, sweep_due, sweep_sites,
}

module _ (C : List Contact → Type 0) (config : Config) (rules : ContactRules config.web C) where
  abbrev KeptValid : World → Type 0
  KeptValid = OnDb IncidentsValid C

  -- A write that leaves the incidents alone.
  Keeps-write_beside :
      (g : Db → Db) → ((d : Db) → (g d).incidents ≡ d.incidents) → Keeps KeptValid (write g)
  Keeps-write_beside g same =
      Keeps-write IncidentsValid C g (λ d. IncidentsValid-of_same d (g d) (sym (same d)))

  Keeps-announce :
      (site : Site) (c : TlsCertificateInfo) (u : SslUpdate) (band : Option ℕ)
      → Keeps KeptValid (announce config site c u band)
  unfolding announce
  Keeps-announce site c u none = elim (Bool-cases (is_some site.ssl_warned_at_days)) [
    | inl e ↦ rw e (Keeps->>= _ (write _) _ (Keeps-write_beside _ (λ d. refl)) (λ _. tt))
    | inr e ↦ rw e tt
  ]
  Keeps-announce site c u (some band) =
      elim (Bool-cases (should_warn c.days_remaining site.ssl_warned_at_days)) [
        | inl e ↦ rw e (Keeps->>= _ (notify _ _) _ (Keeps-notify-Valid C config rules _) (λ _. tt))
        | inr e ↦ rw e tt
      ]

  Keeps-certificate_update :
      (site : Site) (o : Option TlsCertificateInfo)
      → Keeps KeptValid (certificate_update config site o)
  unfolding certificate_update handle_certificate
  Keeps-certificate_update site none = tt
  Keeps-certificate_update site (some c) =
      Keeps->>= _ (read_clock >>= _) _
        (Keeps->>= _ read_clock _ (Keeps-read_clock IncidentsValid C)
          λ at. Keeps-announce site c _ _)
        (λ _. tt)

  Keeps-handle_outcome :
      (site : Site) (o : HealthCheckOutcome) → Keeps KeptValid (handle_outcome config site o)
  unfolding handle_outcome
  Keeps-handle_outcome site o = elim (Bool-cases o.success) [
    | inl e ↦ rw e (Keeps-handle_successful_check C config rules site)
    | inr e ↦ rw e (Keeps-handle_failed_check C config rules site _ _ _)
  ]

  Keeps-record_outcome :
      (source : CheckSource) (site : Site) (o : HealthCheckOutcome)
      → Keeps KeptValid (record_outcome config source site o)
  unfolding record_outcome calculate_recent_uptime
  Keeps-record_outcome source site o =
      Keeps->>= _ read_clock _ (Keeps-read_clock IncidentsValid C) λ at.
        Keeps->>= _ (validate _) _ (Keeps-validate IncidentsValid C _) λ _.
          Keeps->>= _ (write _) _ (Keeps-write_beside _ (λ d. refl)) λ _.
            Keeps->>= _ (handle_outcome _ _ _) _ (Keeps-handle_outcome _ o) λ transition.
              Keeps->>= _ (read_clock >>= _) _
                (Keeps->>= _ read_clock _ (Keeps-read_clock IncidentsValid C)
                  (λ _. Keeps-query IncidentsValid C _))
                λ uptime.
                  Keeps->>= _ (certificate_update _ _ _) _ (Keeps-certificate_update site o.tls)
                    λ ssl. Keeps->>= _ (write _) _ (Keeps-write_beside _ (λ d. refl)) (λ _. tt)

  Keeps-contain : (site : Site) → Keeps KeptValid (contain site)
  unfolding contain
  Keeps-contain site = Keeps->>= _ read_clock _ (Keeps-read_clock IncidentsValid C) λ at.
      Keeps->>= _ (try_catch _ _) _
        (Keeps-try_catch _ _ _ (Keeps-write_beside _ (λ d. refl)) (λ _. tt)) (λ _. tt)

  pub Keeps-check_site :
      (source : CheckSource) (site : Site) → Keeps KeptValid (check_site config source site)
  unfolding check_site
  Keeps-check_site source site =
      Keeps-try_catch _ _ _
        (Keeps->>= _ (run_health_check _ _ _ _) _
          (Keeps-run_health_check config.web KeptValid (IsAllowedUrl config.web) (λ w v. v)
            (λ w url a v. (v.0, rules.requests url w.contacts a v.1)) (λ url a. a) config _ _)
          (Keeps-record_outcome source site))
        (λ _. Keeps-contain site)

  Keeps-checks :
      (source : CheckSource) (sites : List Site)
      → All (Keeps KeptValid) (map (check_site config source) sites)
  Keeps-checks source [] = tt
  Keeps-checks source (s ∷ ss) = (Keeps-check_site source s, Keeps-checks source ss)

  Keeps-sweep_sites :
      (trigger : CheckSource) (started_at : ℕ) (sites : List Site)
      → Keeps KeptValid (sweep_sites config trigger started_at sites)
  unfolding sweep_sites insert_run finish_run
  Keeps-sweep_sites trigger started_at sites =
      Keeps->>= _ (db_call _ _) _
        (Keeps-db_call IncidentsValid C _ _ (λ d. IncidentsValid-of_same d _ refl) (λ d. tt))
        λ run_id.
          Keeps->>= _ (run_with_concurrency _ _ _ _) _
            (Keeps-run_with_concurrency KeptValid pass_time (λ w v. v) _ pick_first
              config.monitor_concurrency (Keeps-checks trigger sites))
            λ results.
              Keeps->>= _ read_clock _ (Keeps-read_clock IncidentsValid C)
                λ finished_at. Keeps->>= _ (write _) _ (Keeps-write_beside _ (λ d. refl)) (λ _. tt)

  Keeps-sweep_due :
      (trigger : CheckSource) (started_at : ℕ)
      → Keeps KeptValid (sweep_due config trigger started_at)
  unfolding sweep_due find_due_sites
  Keeps-sweep_due trigger started_at =
      Keeps->>= _ (query _) _ (Keeps-query IncidentsValid C _) λ sites.
        elim (Bool-cases (is_nil sites && is_cron trigger)) [
          | inl e ↦ rw e (Keeps->>= _ read_clock _ (Keeps-read_clock IncidentsValid C) (λ at. tt))
          | inr e ↦ rw e (Keeps-sweep_sites trigger started_at sites)
        ]

  pub Keeps-run_monitoring_sweep :
      (trigger : CheckSource) → Keeps KeptValid (run_monitoring_sweep config trigger)
  unfolding run_monitoring_sweep
  Keeps-run_monitoring_sweep trigger =
      Keeps->>= _ read_clock _ (Keeps-read_clock IncidentsValid C) λ started_at w.
        ((λ v. v), Keeps-try_finally _ _ _ (Keeps-sweep_due trigger started_at) (λ w v. v))

  pub Keeps-run_manual_check :
      (user_id site_id : ℕ) → Keeps KeptValid (run_manual_check config user_id site_id)
  unfolding run_manual_check check_found
  Keeps-run_manual_check user_id site_id =
      Keeps->>= _ (query _) _ (Keeps-query IncidentsValid C _) found
    where
      found : (o : Option Site) → Keeps KeptValid (check_found config o)
      found none = tt
      found (some site) = Keeps-check_site manual site

-- A sweep and a manual check side by side.
pub race : Config → CheckSource → ℕ → ℕ → App (Result SweepSummary × Result SiteCheckResult)
race config trigger user_id site_id =
    both pick_first 0 (run_monitoring_sweep config trigger)
      (run_manual_check config user_id site_id)

module _ (config : Config) (trigger : CheckSource) (user_id site_id : ℕ) (w : World) where
  race-kept :
      (C : List Contact → Type 0)
      → ContactRules config.web C
      → OnDb IncidentsValid C w
      → OnDb IncidentsValid C (run (race config trigger user_id site_id) w).1
  unfolding race
  race-kept C rules = run-Keeps (OnDb IncidentsValid C) _ w (
      Keeps-both pick_first (OnDb IncidentsValid C) 0 _ _
        (Keeps-run_monitoring_sweep C config rules trigger)
        (Keeps-run_manual_check C config rules user_id site_id))

  -- If no site has two open incidents, and open incidents have no end while resolved ones have an
  -- end and a duration, then so it is at the end of a sweep that runs beside a manual check,
  -- whatever order their acts come in, whichever database calls fail and whatever sites answer.
  pub race-IncidentsValid :
      IncidentsValid w.db → IncidentsValid (run (race config trigger user_id site_id) w).1.db
  race-IncidentsValid v = (race-kept Anything (any_rules config.web) (v, tt)).0

  -- If the guard allows every URL requested so far, then so it is at the end of a sweep that runs
  -- beside a manual check, for the checks of the sites, each redirect that they follow, and the
  -- webhooks that their notifications post to, whatever the sites, the channels and the resolvers
  -- answer. The incidents are valid at the start.
  pub race-OnlyAllowed :
      IncidentsValid w.db
      → OnlyAllowed config.web w
      → OnlyAllowed config.web (run (race config trigger user_id site_id) w).1
  race-OnlyAllowed v allowed =
      (race-kept (All (IsAllowedContact config.web)) (allowed_rules config.web) (v, allowed)).1
