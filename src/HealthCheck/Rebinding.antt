-- ===== src/HealthCheck/Rebinding.antt =====
-- The check of the address that a socket connects to, which closes DNS rebinding.
use pulse_keeper.Prelude.{
  All, Bool-cases, List, Text, ap, false, inl, inr, none, refl, some, sym, true, ℕ, ◌∙◌, ◌≡◌, ◌≢◌,
  ◌⊎◌,
}
use pulse_keeper.Errors.{Thrown, app_error}
use pulse_keeper.Async.{Result, from_result, returned, run, thrown}
use pulse_keeper.Web.{
  DnsReply, SocketEvent, Url, WebLib, dns_failed, dns_found, response, socket_error, socket_timeout,
}
use pulse_keeper.Store.{Env, World}
use pulse_keeper.Guard.{bracketless, guarded_lookup, socket_reply}
use pulse_keeper.Guard.Address.{IsPublic}
use pulse_keeper.Guard.Urls.{IsAllowedUrl}
use pulse_keeper.Guard.Resolution.{WritesPlainAddresses, guarded_lookup_failed, guarded_lookup_lem}
use pulse_keeper.HealthCheck.Request.{
  SingleRequestResult, on_event, perform_request, settle, settle-first,
}

-- A response is no first event.
abbrev IsNoResponse : SocketEvent → Type 0
IsNoResponse (response s l e p) = ⊥
IsNoResponse socket_timeout = Unit
IsNoResponse (socket_error e) = Unit

-- Where Node calls the lookup of its socket and that fails, it connects nowhere: no response comes.
abbrev pub NeedsLookup : Env → Type 0
NeedsLookup env =
    (n : ℕ) (url : Url) (timeout_ms : ℕ) (e : Thrown)
    → IsNoResponse (env.transport n url timeout_ms (some (dns_failed e))).0

module _ (web : WebLib) where
  no_response :
      (url : Url) (time : ℕ) (event : SocketEvent) (r : Result SingleRequestResult)
      (result : SingleRequestResult)
      → IsNoResponse event
      → some r ≡ on_event web url time none event
      → r ≢ returned result
  unfolding on_event
  no_response url time (response s l e p) r result h same back = h
  no_response url time socket_timeout r result h same back = cc
  no_response url time (socket_error e) r result h same back = cc

  from_result-run : (r : Result SingleRequestResult) (w : World) → (run (from_result r) w).0 ≡ r
  unfolding run
  from_result-run (returned a) w = refl
  from_result-run (thrown e) w = refl

  perform_request-run :
      (w : World) (url : Url) (timeout_ms : ℕ)
      → (run (perform_request web url timeout_ms) w).0
        ≡ settle web url
            (w.env.clock w.moment)
            (w.env.transport w.moment url timeout_ms (socket_reply web w url))
  unfolding perform_request run
  perform_request-run w url timeout_ms = from_result-run _ _

  refused_lookup :
      (w : World) (url : Url) (timeout_ms : ℕ) (result : SingleRequestResult) (e : Thrown)
      → NeedsLookup w.env
      → socket_reply web w url ≡ some (dns_failed e)
      → (run (perform_request web url timeout_ms) w).0 ≢ returned result
  refused_lookup w url timeout_ms result e needs failing back =
      no_response url (w.env.clock w.moment)
        (w.env.transport w.moment url timeout_ms (some (dns_failed e))).0
        (settle web url (w.env.clock w.moment)
          (w.env.transport w.moment url timeout_ms (some (dns_failed e))))
        result (needs w.moment url timeout_ms e) (settle-first web url (w.env.clock w.moment) _ _)
        (sym (
            ap
              (λ reply.
                settle web url (w.env.clock w.moment)
                  (w.env.transport w.moment url timeout_ms reply))
              failing)
          ∙ sym (perform_request-run w url timeout_ms)
          ∙ back)

  -- A host that Node connects to without a lookup is the text of an address to ipaddr.js too.
  abbrev pub AgreesOnAddresses : Type 0
  AgreesOnAddresses = (s : Text) → web.is_ip s ≡ true → web.is_valid_ip s ≡ true

  literal-IsPublic :
      (s : Text) (url : Url)
      → WritesPlainAddresses web
      → AgreesOnAddresses
      → web.parse_url s ≡ some url
      → IsAllowedUrl web url
      → web.is_ip (bracketless url.hostname) ≡ true
      → IsPublic web (bracketless url.hostname)
  literal-IsPublic s url plain agrees parsed allowed literal =
      let valid = agrees (bracketless url.hostname) literal in
      let same = plain s url parsed valid in
      let judged : web.is_valid_ip (bracketless url.hostname) ≡ true
          → IsPublic web (bracketless url.hostname) =
        rw same at allowed.3.3 in
      judged valid

  -- What the lookup of a host that is no address found, where a response came back.
  looked_up :
      (w : World) (url : Url) (timeout_ms : ℕ) (result : SingleRequestResult)
      → NeedsLookup w.env
      → (run (perform_request web url timeout_ms) w).0 ≡ returned result
      → web.is_ip (bracketless url.hostname) ≡ false
      → (addresses : List Text) × (w.env.socket_resolver w.moment (bracketless url.hostname)
          ≡ dns_found addresses)
        × All (IsPublic web) addresses
  looked_up w url timeout_ms result needs back named =
      answered (w.env.socket_resolver w.moment (bracketless url.hostname)) refl
    where
      asked :
          socket_reply web w url
          ≡ some (guarded_lookup web (w.env.socket_resolver w.moment (bracketless url.hostname)))
      asked = rw named refl

      answered :
          (reply : DnsReply)
          → w.env.socket_resolver w.moment (bracketless url.hostname) ≡ reply
          → (addresses : List Text) × (w.env.socket_resolver w.moment (bracketless url.hostname)
              ≡ dns_found addresses)
            × All (IsPublic web) addresses
      answered (dns_failed e) same = absurd (
          refused_lookup w url timeout_ms result e needs
            (asked
              ∙ ap (λ r. some (guarded_lookup web r)) same
              ∙ ap some (guarded_lookup_failed web e))
            back)
      answered (dns_found addresses) same = elim (guarded_lookup_lem web addresses) [
        | inl (passed, public) ↦ (addresses, same, public)
        | inr (e, failing, private) ↦ absurd (
            refused_lookup w url timeout_ms result (app_error e) needs
              (asked ∙ ap (λ r. some (guarded_lookup web r)) same ∙ ap some failing) back)
      ]

  -- For a parsed URL that the guard allows, where the parser writes addresses plainly, Node and
  -- ipaddr.js agree on what an address is, and a socket whose lookup fails gets no response: a
  -- response comes only from a host that is itself a public address, or, whatever the host resolved
  -- to when the URL was checked, if the addresses that the socket's own lookup finds are all public.
  pub perform_request-IsPublic :
      (s : Text) (w : World) (url : Url) (timeout_ms : ℕ) (result : SingleRequestResult)
      → WritesPlainAddresses web
      → AgreesOnAddresses
      → NeedsLookup w.env
      → web.parse_url s ≡ some url
      → IsAllowedUrl web url
      → (run (perform_request web url timeout_ms) w).0 ≡ returned result
      → ((web.is_ip (bracketless url.hostname) ≡ true) × IsPublic web (bracketless url.hostname))
        ⊎ ((web.is_ip (bracketless url.hostname) ≡ false)
            × (addresses : List Text) × (w.env.socket_resolver w.moment (bracketless url.hostname)
                ≡ dns_found addresses)
            × All (IsPublic web) addresses)
  perform_request-IsPublic s w url timeout_ms result plain agrees needs parsed allowed back =
      elim (Bool-cases (web.is_ip (bracketless url.hostname))) [
        | inl literal ↦ inl (literal, literal-IsPublic s url plain agrees parsed allowed literal)
        | inr named ↦
            let (addresses, found, public) = looked_up w url timeout_ms result needs back named in
            inr (named, addresses, found, public)
      ]
