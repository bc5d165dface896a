-- ===== src/HealthCheck/Outcomes.antt =====
-- What a health check can come to: it always returns, and its outcome is consistent.
use pulse_keeper.Prelude.{
  Bool-cases, Option, Text, arith, codes, false, if◌then◌else◌, inl, inr, leb, ltb, ltb→lt, none,
  or_else, refl, some, suc, text_eq, true, zero, ℕ, ◌+◌, ◌<◌, ◌≡◌, ◌≤◌,
}
use pulse_keeper.Domain.{
  CheckErrorType, blocked_url, http_error, offline, online, server_error, slow, timeout,
  unknown_error,
}
use pulse_keeper.Errors.{Thrown, app_error, duplicate_key, message_of, other_error}
use pulse_keeper.Async.{Result, attempt, returned, thrown}
use pulse_keeper.Async.Rules.{NoThrow, NoThrow->>=, NoThrow-attempt, Returns, Returns->>=}
use pulse_keeper.Web.{Url, WebLib}
use pulse_keeper.Store.{Config}
use pulse_keeper.Store.Calls.{App}
use pulse_keeper.Guard.{AllowedUrl, assert_url_allowed}
use pulse_keeper.HealthCheck.Request.{SingleRequestResult, TlsCertificateInfo}
use pulse_keeper.HealthCheck.{
  HealthCheckOptions, HealthCheckOutcome, Hop, after_guard, after_redirect, after_request,
  after_response, classify_http_status, decide_status, failed, final_outcome, follow, is_redirect,
  request_failure, run_health_check,
}

-- A successful check has a status code below 400 and a time, and is slow exactly above the
-- threshold.
abbrev pub IsHealthy : HealthCheckOptions → HealthCheckOutcome → Type 0
IsHealthy options o =
    (code : ℕ) × (time : ℕ) × (o.status_code ≡ some code)
    × (code < 400)
    × (o.response_time_ms ≡ some time)
    × (o.status ≡ (if ltb options.slow_threshold_ms time then slow else online))
    × (o.error_type ≡ none)

-- A failed check is offline and says why.
abbrev pub IsFailure : HealthCheckOutcome → Type 0
IsFailure o =
    (o.status ≡ offline)
    × ((t : CheckErrorType) × (o.error_type ≡ some t))
    × ((m : Text) × (o.error_message ≡ some m))

pub record IsOutcome (options : HealthCheckOptions) (most : ℕ) (o : HealthCheckOutcome)
    : Type 0 where
  pub within : o.redirects ≤ most
  pub healthy : o.success ≡ true → IsHealthy options o
  pub failing : o.success ≡ false → IsFailure o

module _ (options : HealthCheckOptions) (most : ℕ) where
  failed-IsOutcome :
      (code time : Option ℕ) (t : CheckErrorType) (m : Text) (redirects : ℕ)
      → redirects ≤ most
      → IsOutcome options most (failed code time t m redirects)
  failed-IsOutcome code time t m redirects h = record {
    within = h;
    healthy = λ e. cc;
    failing = λ e. (refl, (t, refl), (m, refl));
  }

  request_failure-IsOutcome :
      (redirects : ℕ) (e : Thrown)
      → redirects ≤ most
      → IsOutcome options most (request_failure options redirects e)
  unfolding request_failure
  request_failure-IsOutcome redirects (app_error e) h =
      failed-IsOutcome none none blocked_url e.message redirects h
  request_failure-IsOutcome redirects duplicate_key h =
      failed-IsOutcome none none unknown_error (message_of duplicate_key) redirects h
  request_failure-IsOutcome redirects (other_error code message) h =
      elim (Bool-cases (text_eq code (codes "ETIMEDOUT"))) [
        | inl e ↦ rw e (failed-IsOutcome none none timeout _ redirects h)
        | inr e ↦ rw e (failed-IsOutcome none none _ _ redirects h)
      ]

  final_outcome-IsOutcome :
      (current : Url) (result : SingleRequestResult) (total redirects : ℕ)
      (tls : Option TlsCertificateInfo)
      → redirects ≤ most
      → IsOutcome options most (final_outcome options current result total redirects tls)
  unfolding final_outcome classify_http_status decide_status
  final_outcome-IsOutcome current result total redirects tls h =
      elim (Bool-cases (ltb result.status_code 400)) [
        | inl low ↦ rw low (record {
          within = h;
          healthy = λ _. (result.status_code, total, refl, ltb→lt _ _ low, refl, refl, refl);
          failing = λ e. cc;
        })
        | inr high ↦ elim (Bool-cases (leb 500 result.status_code)) [
          | inl e ↦
              rw (high, e)
                (record {
                  within = h;
                  healthy = λ e. cc;
                  failing = λ e. (refl, (server_error, refl), (_, refl));
                })
          | inr e ↦
              rw (high, e)
                (record {
                  within = h;
                  healthy = λ e. cc;
                  failing = λ e. (refl, (http_error, refl), (_, refl));
                })
        ]
      ]

  module _ (web : WebLib) where
    -- What the next round may be given, and what it must return.
    abbrev Continues : (Hop → App HealthCheckOutcome) → Type 0
    Continues again =
        (hop : Hop) → hop.redirects ≤ most → Returns (IsOutcome options most) (again hop)

    after_redirect-IsOutcome :
        (again : Hop → App HealthCheckOutcome) (hop : Hop) (code : ℕ) (r : Result AllowedUrl)
        → Continues again
        → hop.redirects < most
        → Returns (IsOutcome options most) (after_redirect web options most again hop code r)
    unfolding after_redirect
    after_redirect-IsOutcome again hop code (returned next) k h = k _ (omega arith)
    after_redirect-IsOutcome again hop code (thrown e) k h =
        failed-IsOutcome _ _ blocked_url _ hop.redirects (omega arith)

    after_response-IsOutcome :
        (again : Hop → App HealthCheckOutcome) (hop : Hop) (result : SingleRequestResult)
        → Continues again
        → hop.redirects ≤ most
        → Returns (IsOutcome options most) (after_response web options most again hop result)
    unfolding after_response
    after_response-IsOutcome again hop result k h = elim (Bool-cases (is_redirect result)) [
      | inr final ↦ rw final (
          final_outcome-IsOutcome hop.current result hop.total_elapsed hop.redirects hop.tls_info h)
      | inl on ↦ elim (Bool-cases (leb most hop.redirects)) [
        | inl over ↦ rw (on, over) (failed-IsOutcome _ _ http_error _ hop.redirects h)
        | inr under ↦
            rw (on, under)
              (Returns->>= (IsOutcome options most) (attempt _) _ (λ r.
                after_redirect-IsOutcome again hop result.status_code r k (ground (arith, under))))
      ]
    ]

    after_request-IsOutcome :
        (again : Hop → App HealthCheckOutcome) (hop : Hop) (r : Result SingleRequestResult)
        → Continues again
        → hop.redirects ≤ most
        → Returns (IsOutcome options most) (after_request web options most again hop r)
    unfolding after_request
    after_request-IsOutcome again hop (thrown e) k h = request_failure-IsOutcome hop.redirects e h
    after_request-IsOutcome again hop (returned result) k h =
        after_response-IsOutcome again _ result k h

    follow-IsOutcome : (fuel : ℕ) → Continues (follow web options most fuel)
    unfolding follow
    follow-IsOutcome zero hop h = tt
    follow-IsOutcome (suc fuel) hop h =
        Returns->>= (IsOutcome options most) (attempt _) _
          (λ r. after_request-IsOutcome _ hop r (follow-IsOutcome fuel) h)

    after_guard-IsOutcome :
        (r : Result AllowedUrl) → Returns (IsOutcome options most) (after_guard web options most r)
    unfolding after_guard
    after_guard-IsOutcome (returned allowed) = follow-IsOutcome (suc most) _ (omega arith)
    after_guard-IsOutcome (thrown e) = failed-IsOutcome none none blocked_url _ 0 (omega arith)

    -- The rounds that are left suffice for the redirects that are left.
    abbrev Ends : ℕ → (Hop → App HealthCheckOutcome) → Type 0
    Ends fuel again =
        (hop : Hop) → hop.redirects ≤ most → most < hop.redirects + fuel → NoThrow (again hop)

    after_redirect-NoThrow :
        (fuel : ℕ) (again : Hop → App HealthCheckOutcome) (hop : Hop) (code : ℕ)
        (r : Result AllowedUrl)
        → Ends fuel again
        → hop.redirects < most
        → most < hop.redirects + suc fuel
        → NoThrow (after_redirect web options most again hop code r)
    unfolding after_redirect
    after_redirect-NoThrow fuel again hop code (returned next) k l h =
        k _ (omega arith) (omega arith)
    after_redirect-NoThrow fuel again hop code (thrown e) k l h = tt

    after_response-NoThrow :
        (fuel : ℕ) (again : Hop → App HealthCheckOutcome) (hop : Hop) (result : SingleRequestResult)
        → Ends fuel again
        → hop.redirects ≤ most
        → most < hop.redirects + suc fuel
        → NoThrow (after_response web options most again hop result)
    unfolding after_response
    after_response-NoThrow fuel again hop result k l h = elim (Bool-cases (is_redirect result)) [
      | inr final ↦ rw final tt
      | inl on ↦ elim (Bool-cases (leb most hop.redirects)) [
        | inl over ↦ rw (on, over) tt
        | inr under ↦
            rw (on, under)
              (NoThrow->>= (attempt _) _ (NoThrow-attempt _) (λ r.
                after_redirect-NoThrow fuel again hop result.status_code r k (ground (arith, under))
                  h))
      ]
    ]

    after_request-NoThrow :
        (fuel : ℕ) (again : Hop → App HealthCheckOutcome) (hop : Hop)
        (r : Result SingleRequestResult)
        → Ends fuel again
        → hop.redirects ≤ most
        → most < hop.redirects + suc fuel
        → NoThrow (after_request web options most again hop r)
    unfolding after_request
    after_request-NoThrow fuel again hop (thrown e) k l h = tt
    after_request-NoThrow fuel again hop (returned result) k l h =
        after_response-NoThrow fuel again _ result k l h

    follow-NoThrow : (fuel : ℕ) → Ends fuel (follow web options most fuel)
    unfolding follow
    follow-NoThrow zero hop l h = absurd (omega arith)
    follow-NoThrow (suc fuel) hop l h =
        NoThrow->>= (attempt _) _ (NoThrow-attempt _)
          (λ r. after_request-NoThrow fuel _ hop r (follow-NoThrow fuel) l h)

    after_guard-NoThrow : (r : Result AllowedUrl) → NoThrow (after_guard web options most r)
    unfolding after_guard
    after_guard-NoThrow (returned allowed) = follow-NoThrow (suc most) _ (omega arith) (omega arith)
    after_guard-NoThrow (thrown e) = tt

module _ (web : WebLib) (config : Config) (raw_url : Text) (options : HealthCheckOptions) where
  -- Whatever the network answers: a check's outcome has at most as many redirects as allowed; a
  -- success has a status code below 400, a time, no error, and is slow exactly if the time is
  -- over the threshold; a failure is offline and has an error type and a message.
  pub run_health_check-IsOutcome :
      Returns
        (IsOutcome options (or_else options.max_redirects config.monitor_max_redirects))
        (run_health_check web config raw_url options)
  unfolding run_health_check
  run_health_check-IsOutcome =
      Returns->>= _ (attempt (assert_url_allowed web raw_url)) _
        (after_guard-IsOutcome options _ web)

  -- A health check never throws and never runs out of fuel: an unreachable site, a refused URL
  -- and a chain of redirects of any length all end in an outcome.
  pub run_health_check-NoThrow : NoThrow (run_health_check web config raw_url options)
  unfolding run_health_check
  run_health_check-NoThrow =
      NoThrow->>= (attempt (assert_url_allowed web raw_url)) _ (NoThrow-attempt _)
        (after_guard-NoThrow options _ web)
