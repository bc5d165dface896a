-- ===== src/Tests/Guard.antt =====
-- The guard's and the health check's theorems on the small world.
use pulse_keeper.Prelude.{
  All, Bool-cases, List, Text, [], arith, codes, ends_with, false, inl, inr, lower, none, refl,
  starts_with, text_eq, true, ◌↔◌, ◌≡◌, ◌⊎◌,
}
use pulse_keeper.Async.{run}
use pulse_keeper.Async.Rules.{Keeps, NoThrow, Returns}
use pulse_keeper.Checked.{ok}
use pulse_keeper.Web.{dns_found}
use pulse_keeper.Guard.{
  assert_address_allowed, assert_url_allowed, bracketless, guarded_lookup, judge_address,
  parse_allowed_url, plain_hostname,
}
use pulse_keeper.Guard.Address.{IsPublic}
use pulse_keeper.Guard.Urls.{IsAllowedUrl, ParsesTo, parse_allowed_url_iff}
use pulse_keeper.Guard.Resolution.{IsAllowed, WritesPlainAddresses, assert_url_allowed-IsAllowed}
use pulse_keeper.HealthCheck.{run_health_check}
use pulse_keeper.HealthCheck.Request.{
  SingleRequestResult, on_event, on_events, perform_request, read_certificate, settle,
}
use pulse_keeper.HealthCheck.Outcomes.{
  IsOutcome, run_health_check-IsOutcome, run_health_check-NoThrow,
}
use pulse_keeper.Guard.Contacts.{OnlyAllowed}
use pulse_keeper.HealthCheck.Contacts.{run_health_check-OnlyAllowed}
use pulse_keeper.HealthCheck.Rebinding.{NeedsLookup, perform_request-IsPublic}
use pulse_keeper.Tests.{
  literal_url, named_url, sample_config, sample_env, sample_options, sample_web, sample_world,
}

parse_allowed_url_iff_example :
    (parse_allowed_url sample_web (codes " http://8.8.8.8 ") ≡ ok literal_url) ↔ (
      ParsesTo sample_web (codes " http://8.8.8.8 ") literal_url
      × IsAllowedUrl sample_web literal_url)
parse_allowed_url_iff_example =
    parse_allowed_url_iff sample_web (codes " http://8.8.8.8 ") literal_url

sample_WritesPlainAddresses : WritesPlainAddresses sample_web
unfolding plain_hostname
sample_WritesPlainAddresses s url parsed literal =
    elim (Bool-cases (text_eq s (codes "https://a.com"))) [
      | inl e ↦ let same : named_url ≡ url = ground (arith, e, parsed) in rw (← same) refl
      | inr e ↦ elim (Bool-cases (text_eq s (codes "http://8.8.8.8"))) [
        | inl l ↦ let same : literal_url ≡ url = ground (arith, e, l, parsed) in rw (← same) refl
        | inr l ↦ absurd (ground (arith, e, l, parsed))
      ]
    ]

assert_url_allowed_example :
    Returns (IsAllowed sample_web) (assert_url_allowed sample_web (codes "https://a.com"))
assert_url_allowed_example =
    assert_url_allowed-IsAllowed sample_web (codes "https://a.com") sample_WritesPlainAddresses

run_health_check-OnlyAllowed_example :
    Keeps
      (OnlyAllowed sample_web)
      (run_health_check sample_web sample_config (codes "https://a.com") sample_options)
run_health_check-OnlyAllowed_example =
    run_health_check-OnlyAllowed sample_web sample_config (codes "https://a.com") sample_options

run_health_check-IsOutcome_example :
    Returns
      (IsOutcome sample_options 5)
      (run_health_check sample_web sample_config (codes "https://a.com") sample_options)
run_health_check-IsOutcome_example =
    run_health_check-IsOutcome sample_web sample_config (codes "https://a.com") sample_options

run_health_check-NoThrow_example :
    NoThrow (run_health_check sample_web sample_config (codes "https://a.com") sample_options)
run_health_check-NoThrow_example =
    run_health_check-NoThrow sample_web sample_config (codes "https://a.com") sample_options

sample_NeedsLookup : NeedsLookup sample_env
sample_NeedsLookup n url timeout_ms e = tt

abbrev answered : SingleRequestResult
answered = record { status_code = 200; location = none; elapsed_ms = 5; tls = none }

named_IsAllowedUrl : IsAllowedUrl sample_web named_url
unfolding plain_hostname lower bracketless ends_with starts_with
named_IsAllowedUrl = (refl, refl, refl, (refl, refl, refl, λ h. cc))

perform_request_example :
    ((false ≡ true) × IsPublic sample_web named_url.hostname)
    ⊎ ((false ≡ false)
        × (addresses : List Text) × (sample_env.socket_resolver 0 named_url.hostname
            ≡ dns_found addresses)
        × All (IsPublic sample_web) addresses)
unfolding perform_request settle on_events on_event guarded_lookup assert_address_allowed
    judge_address run read_certificate bracketless
perform_request_example =
    perform_request-IsPublic sample_web (codes "https://a.com") (sample_world []) named_url 10000
      answered sample_WritesPlainAddresses (λ s h. h) sample_NeedsLookup refl named_IsAllowedUrl
      refl
