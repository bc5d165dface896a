-- ===== src/HealthCheck.antt =====
-- server/src/services/healthCheck.service.ts: one health check, from the guarded URL through its
-- redirects to an outcome.
pub mod Request
pub mod Outcomes
pub mod Contacts
pub mod Rebinding
use pulse_keeper.Prelude.{
  Bool, List, Option, Text, [], codes, false, has_text, if◌then◌else◌, is_empty, leb, ltb, none,
  not, or_else, or_option, show, some, suc, take, text_eq, true, zero, ℕ, ◌&&◌, ◌*◌, ◌++◌, ◌+◌, ◌∷◌,
}
use pulse_keeper.Domain.{
  CheckErrorType, SiteStatus, blocked_url, connection_error, dns_error, http_error, offline, online,
  server_error, slow, timeout, unknown_error,
}
use pulse_keeper.Errors.{Thrown, app_error, app_message_or, duplicate_key, message_of, other_error}
use pulse_keeper.Async.{Result, attempt, ret, returned, throw, thrown, ◌>>=◌}
use pulse_keeper.Web.{Url, WebLib}
use pulse_keeper.Store.{Config}
use pulse_keeper.Store.Calls.{App}
use pulse_keeper.Guard.{AllowedUrl, assert_redirect_allowed, assert_url_allowed}
use Request.{TlsCertificateInfo, SingleRequestResult, perform_request}

-- `HealthCheckOutcome`
pub record HealthCheckOutcome : Type 0 where
  pub success : Bool
  pub status : SiteStatus
  pub status_code : Option ℕ
  pub response_time_ms : Option ℕ
  pub error_type : Option CheckErrorType
  pub error_message : Option Text
  pub final_url : Option Text
  pub redirects : ℕ
  pub tls : Option TlsCertificateInfo

-- `HealthCheckOptions`
pub record HealthCheckOptions : Type 0 where
  pub timeout_seconds : ℕ
  pub slow_threshold_ms : ℕ
  pub max_redirects : Option ℕ

abbrev pub dns_error_codes : List Text
dns_error_codes = codes "ENOTFOUND" ∷ codes "EAI_AGAIN" ∷ []

abbrev pub connection_error_codes : List Text
connection_error_codes =
    codes "ECONNREFUSED"
    ∷ codes "ECONNRESET"
    ∷ codes "EHOSTUNREACH"
    ∷ codes "ENETUNREACH"
    ∷ codes "EPIPE"
    ∷ codes "EHOSTDOWN"
    ∷ codes "ENETDOWN"
    ∷ codes "EADDRNOTAVAIL"
    ∷ codes "EPROTO"
    ∷ codes "ERR_TLS_CERT_ALTNAME_INVALID"
    ∷ codes "CERT_HAS_EXPIRED"
    ∷ codes "DEPTH_ZERO_SELF_SIGNED_CERT"
    ∷ codes "UNABLE_TO_VERIFY_LEAF_SIGNATURE"
    ∷ codes "ERR_SSL_WRONG_VERSION_NUMBER"
    ∷ []

-- `text || fallback`
abbrev text_or : Text → Text → Text
text_or [] fallback = fallback
text_or (c ∷ s) fallback = c ∷ s

-- The category and the message of a transport error with this code and message.
unfoldable pub classify_transport_error : Text → Text → CheckErrorType × Text
classify_transport_error code message =
    if has_text dns_error_codes code
    then (dns_error, codes "DNS lookup failed (" ++ (code ++ codes ")"))
    else if has_text connection_error_codes code
    then (connection_error, codes "Connection failed (" ++ (code ++ codes ")"))
    else (unknown_error, text_or (take 200 message) (codes "Unknown error"))

unfoldable pub decide_status : Bool → Option ℕ → ℕ → SiteStatus
decide_status false response_time_ms slow_threshold_ms = offline
decide_status true none slow_threshold_ms = online
decide_status true (some t) slow_threshold_ms = if ltb slow_threshold_ms t then slow else online

-- Whether the response is healthy, and the error if it is not.
unfoldable pub classify_http_status : ℕ → Bool × Option (CheckErrorType × Text)
unfolding show
classify_http_status status_code =
    if ltb status_code 400
    then (true, none)
    else if leb 500 status_code
    then (false, some (server_error, codes "Server returned HTTP " ++ show status_code))
    else (false, some (http_error, codes "Server returned HTTP " ++ show status_code))

-- A check that failed.
abbrev pub failed : Option ℕ → Option ℕ → CheckErrorType → Text → ℕ → HealthCheckOutcome
failed status_code response_time_ms error_type error_message redirects = record {
  success = false;
  status = offline;
  status_code = status_code;
  response_time_ms = response_time_ms;
  error_type = some error_type;
  error_message = some error_message;
  final_url = none;
  redirects = redirects;
  tls = none;
}

-- What a request's error is recorded as.
unfoldable pub request_failure : HealthCheckOptions → ℕ → Thrown → HealthCheckOutcome
request_failure options redirects (app_error e) = failed none none blocked_url e.message redirects
request_failure options redirects duplicate_key =
    failed none none unknown_error (message_of duplicate_key) redirects
request_failure options redirects (other_error code message) =
    if text_eq code (codes "ETIMEDOUT")
    then failed none none timeout
        (codes "Request timed out after " ++ (show options.timeout_seconds ++ codes "s")) redirects
    else failed none none (classify_transport_error code message).0
        (classify_transport_error code message).1 redirects

-- A status from 300 to 399 with a location that is not empty.
unfoldable pub is_redirect : SingleRequestResult → Bool
is_redirect result =
    leb 300 result.status_code
    && ltb result.status_code 400
    && not (is_empty (or_else result.location []))

-- The outcome of a response that is no redirect.
unfoldable pub final_outcome :
    HealthCheckOptions
    → Url
    → SingleRequestResult
    → ℕ
    → ℕ
    → Option TlsCertificateInfo
    → HealthCheckOutcome
final_outcome options current result total_elapsed redirects tls_info =
    let (success, problem) = classify_http_status result.status_code in
    record {
      success = success;
      status = decide_status success (some total_elapsed) options.slow_threshold_ms;
      status_code = some result.status_code;
      response_time_ms = some total_elapsed;
      error_type = elim problem [ none ↦ none | some (t, m) ↦ some t ];
      error_message = elim problem [ none ↦ none | some (t, m) ↦ some m ];
      final_url = if ltb 0 redirects then some current.href else none;
      redirects = redirects;
      tls = tls_info;
    }

abbrev pub too_many_redirects : ℕ → Text
too_many_redirects most = codes "Too many redirects (more than " ++ (show most ++ codes ")")

-- What ends the loop of `runHealthCheck` on fuel; it is never thrown.
abbrev pub out_of_fuel : Thrown
out_of_fuel = other_error (codes "FUEL") (codes "out of fuel")

-- What the loop carries from one request to the next.
pub record Hop : Type 0 where
  pub current : Url
  pub total_elapsed : ℕ
  pub redirects : ℕ
  pub tls_info : Option TlsCertificateInfo

module _ (web : WebLib) (options : HealthCheckOptions) (most : ℕ) where
  -- After the check of a redirect's target: the next round, or the refusal.
  unfoldable pub after_redirect :
      (Hop → App HealthCheckOutcome) → Hop → ℕ → Result AllowedUrl → App HealthCheckOutcome
  after_redirect again hop status_code (returned next) =
      again (record hop { current = next.url; redirects = hop.redirects + 1 })
  after_redirect again hop status_code (thrown e) = ret (
      failed (some status_code) (some hop.total_elapsed) blocked_url
        (app_message_or e (codes "Redirect target is not allowed")) hop.redirects)

  -- After a response, with its time and certificate taken into the hop.
  unfoldable pub after_response :
      (Hop → App HealthCheckOutcome) → Hop → SingleRequestResult → App HealthCheckOutcome
  after_response again hop result =
      if not (is_redirect result)
      then ret
          (final_outcome options hop.current result hop.total_elapsed hop.redirects hop.tls_info)
      else if leb most hop.redirects
      then ret (
          failed (some result.status_code) (some hop.total_elapsed) http_error
            (too_many_redirects most) hop.redirects)
      else attempt (assert_redirect_allowed web (or_else result.location []) hop.current)
        >>= after_redirect again hop result.status_code

  -- After a request.
  unfoldable pub after_request :
      (Hop → App HealthCheckOutcome) → Hop → Result SingleRequestResult → App HealthCheckOutcome
  after_request again hop (thrown e) = ret (request_failure options hop.redirects e)
  after_request again hop (returned result) =
      after_response again
        (record hop {
          total_elapsed = hop.total_elapsed + result.elapsed_ms;
          tls_info = or_option hop.tls_info result.tls;
        })
        result

  -- The loop of `runHealthCheck`: one round for each request, on fuel.
  unfoldable pub follow : ℕ → Hop → App HealthCheckOutcome
  follow zero hop = throw out_of_fuel
  follow (suc fuel) hop =
      attempt (perform_request web hop.current (options.timeout_seconds * 1000))
      >>= after_request (follow fuel) hop

  abbrev pub first_hop : Url → Hop
  first_hop url = record { current = url; total_elapsed = 0; redirects = 0; tls_info = none }

  -- After the check of the site's own URL. One round more than the redirects is fuel enough.
  unfoldable pub after_guard : Result AllowedUrl → App HealthCheckOutcome
  after_guard (returned allowed) = follow (suc most) (first_hop allowed.url)
  after_guard (thrown e) =
      ret (
        failed none none blocked_url (app_message_or e (codes "URL is not allowed to be checked"))
          0)

unfoldable pub run_health_check :
    WebLib → Config → Text → HealthCheckOptions → App HealthCheckOutcome
run_health_check web config raw_url options =
    attempt (assert_url_allowed web raw_url)
    >>= after_guard web options (or_else options.max_redirects config.monitor_max_redirects)
