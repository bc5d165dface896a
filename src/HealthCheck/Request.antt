-- ===== src/HealthCheck/Request.antt =====
-- server/src/services/healthCheck.service.ts: one request and the certificate on its socket.
use pulse_keeper.Prelude.{
  List, Option, Text, [], codes, if◌then◌else◌, is_empty, none, or_else, or_option, refl, some, suc,
  text_eq, ℕ, ◌+◌, ◌/◌, ◌∷◌, ◌≡◌,
}
use pulse_keeper.Prelude.Int.{floor_div_sub, ℤ}
use pulse_keeper.Errors.{other_error}
use pulse_keeper.Async.{Result, act, from_result, returned, thrown}
use pulse_keeper.Web.{
  Attribute, Peer, PeerCertificate, SocketEvent, Url, WebLib, certificate, many, no_certificate,
  one, response, socket_error, socket_timeout, unreadable,
}
use pulse_keeper.Store.{requested}
use pulse_keeper.Store.Calls.{App}
use pulse_keeper.Guard.{socket_reply}

-- `TlsCertificateInfo`
pub record TlsCertificateInfo : Type 0 where
  pub valid_to : ℕ
  pub valid_from : Option ℕ
  pub issuer : Option Text
  pub subject : Option Text
  pub days_remaining : ℤ

-- `SingleRequestResult`
pub record SingleRequestResult : Type 0 where
  pub status_code : ℕ
  pub location : Option Text
  pub elapsed_ms : ℕ
  pub tls : Option TlsCertificateInfo

-- Whole days from `now` to `date`, rounded down.
unfoldable pub days_until : ℕ → ℕ → ℤ
unfolding floor_div_sub
days_until date now = floor_div_sub date now 86400000

abbrev pub first_of : Option Attribute → Option Text
first_of none = none
first_of (some (one s)) = some s
first_of (some (many [])) = none
first_of (some (many (s ∷ more))) = some s

-- `...(text ? { text } : {})`
abbrev pub if_nonempty : Option Text → Option Text
if_nonempty none = none
if_nonempty (some []) = none
if_nonempty (some (c ∷ s)) = some (c ∷ s)

module _ (web : WebLib) where
  abbrev certificate_info : PeerCertificate → ℕ → Option ℕ → Option TlsCertificateInfo
  certificate_info c now none = none
  certificate_info c now (some valid_to) = some (record {
    valid_to = valid_to;
    valid_from = web.parse_date c.valid_from;
    issuer = if_nonempty (or_option (first_of c.issuer_o) (first_of c.issuer_cn));
    subject = if_nonempty (first_of c.subject_cn);
    days_remaining = days_until valid_to now;
  })

  -- What is read of the peer certificate at a moment; a call that throws reads nothing.
  unfoldable pub read_certificate : Peer → ℕ → Option TlsCertificateInfo
  read_certificate no_certificate now = none
  read_certificate unreadable now = none
  read_certificate (certificate c) now =
      if is_empty c.valid_to then none else certificate_info c now (web.parse_date c.valid_to)

  -- `Math.round(ns / 1_000_000)`
  abbrev pub to_ms : ℕ → ℕ
  to_ms ns = (ns + 500000) / 1000000

  -- One event of the request, at the time `now`. Once the promise is settled, later events change
  -- nothing.
  unfoldable pub on_event :
      Url
      → ℕ
      → Option (Result SingleRequestResult)
      → SocketEvent
      → Option (Result SingleRequestResult)
  on_event url now (some settled) event = some settled
  on_event url now none (response status_code location elapsed_ns peer) = some (
      returned (record {
        status_code = status_code;
        location = location;
        elapsed_ms = to_ms elapsed_ns;
        tls = if text_eq url.protocol (codes "https:") then read_certificate peer now else none;
      }))
  on_event url now none socket_timeout =
      some (thrown (other_error (codes "ETIMEDOUT") (codes "Request timed out")))
  on_event url now none (socket_error e) = some (thrown e)

  unfoldable pub on_events :
      Url
      → ℕ
      → Option (Result SingleRequestResult)
      → List SocketEvent
      → Option (Result SingleRequestResult)
  unfolding on_event
  on_events url now settled [] = settled
  on_events url now settled (e ∷ es) = on_events url now (on_event url now settled e) es

  -- What the promise settles to: the first event decides.
  unfoldable pub settle : Url → ℕ → SocketEvent × List SocketEvent → Result SingleRequestResult
  unfolding on_events on_event
  settle url now (first, later) =
      or_else (on_events url now none (first ∷ later)) (thrown (other_error [] []))

  on_events-settled :
      (url : Url) (now : ℕ) (r : Result SingleRequestResult) (es : List SocketEvent)
      → on_events url now (some r) es ≡ some r
  unfolding on_events on_event
  on_events-settled url now r [] = refl
  on_events-settled url now r (e ∷ es) = on_events-settled url now r es

  -- The promise of a request settles at its first event, and later ones change nothing.
  pub settle-first :
      (url : Url) (now : ℕ) (first : SocketEvent) (later : List SocketEvent)
      → some (settle url now (first, later)) ≡ on_event url now none first
  unfolding settle
  settle-first url now (response s l e p) later = rw (on_events-settled url now _ later)
  settle-first url now socket_timeout later = rw (on_events-settled url now _ later)
  settle-first url now (socket_error e) later = rw (on_events-settled url now _ later)

  unfoldable pub perform_request : Url → ℕ → App SingleRequestResult
  perform_request url timeout_ms =
      act (λ w. record w { moment = suc w.moment; contacts = requested url ∷ w.contacts })
        (λ w. from_result (
          settle url (w.env.clock w.moment)
            (w.env.transport w.moment url timeout_ms (socket_reply web w url))))
