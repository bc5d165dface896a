-- ===== src/Guard.antt =====
-- server/src/utils/urlGuard.ts: which URLs the server may request. The URL parser and ipaddr.js
-- are the section's parameter. Log lines are left out.
pub mod Address
pub mod Urls
pub mod Resolution
pub mod Contacts
use pulse_keeper.Prelude.{
  List, Option, Text, [], any, codes, ends_with, has_text, if◌then◌else◌, is_empty, length, lower,
  ltb, none, not, show, some, text_eq, trim, ℕ, ◌&&◌, ◌++◌, ◌==◌, ◌||◌, ◌∷◌,
}
use pulse_keeper.Domain.{max_url_length}
use pulse_keeper.Errors.{app_error, url_not_allowed}
use pulse_keeper.Checked.{Checked, check_each, err, fail_if, from_option, ok, ◌>>=◌, ◌>>◌}
use pulse_keeper.Web.{DnsReply, Url, WebLib, dns_failed, dns_found}
use pulse_keeper.Store.{World}
use pulse_keeper.Store.Calls.{App, pass_time}
use pulse_keeper.Async.{Async, act, ret, throw}

-- `ALLOWED_PROTOCOLS`
abbrev pub allowed_protocols : List Text
allowed_protocols = codes "http:" ∷ codes "https:" ∷ []

-- `BLOCKED_HOSTNAMES`
abbrev pub blocked_hostnames : List Text
blocked_hostnames =
    codes "localhost"
    ∷ codes "metadata"
    ∷ codes "metadata.google.internal"
    ∷ codes "instance-data"
    ∷ codes "instance-data.ec2.internal"
    ∷ []

-- `BLOCKED_SUFFIXES`
abbrev pub blocked_suffixes : List Text
blocked_suffixes =
    codes ".localhost"
    ∷ codes ".local"
    ∷ codes ".internal"
    ∷ codes ".intranet"
    ∷ codes ".lan"
    ∷ codes ".home.arpa"
    ∷ codes ".corp"
    ∷ codes ".private"
    ∷ []

-- `BLOCKED_ADDRESSES`
abbrev pub blocked_addresses : List Text
blocked_addresses =
    codes "169.254.169.254"
    ∷ codes "100.100.100.100"
    ∷ codes "192.0.0.192"
    ∷ codes "fd00:ec2::254"
    ∷ []

-- `ALLOWED_RANGE`
abbrev pub allowed_range : Text
allowed_range = codes "unicast"

-- The text without a last `c`: `s.replace(/c$/, '')`.
unfoldable pub strip_last : ℕ → Text → Text
strip_last c [] = []
strip_last c (x ∷ []) = if x == c then [] else x ∷ []
strip_last c (x ∷ y ∷ s) = x ∷ strip_last c (y ∷ s)

unfoldable pub strip_first : ℕ → Text → Text
strip_first c [] = []
strip_first c (x ∷ s) = if x == c then s else x ∷ s

-- `s.replace(/^\[|\]$/g, '')`
unfoldable pub bracketless : Text → Text
unfolding strip_last strip_first
bracketless s = strip_last b']' (strip_first b'[' s)

-- `url.hostname.toLowerCase().replace(/\.$/, '')`
unfoldable pub plain_hostname : Url → Text
unfolding lower strip_last
plain_hostname url = strip_last b'.' (lower url.hostname)

module _ (web : WebLib) where
  -- The IPv4 address that an IPv4-mapped IPv6 address carries, and any other as it is.
  abbrev pub unwrap : web.Ip → web.Ip
  unwrap ip = if web.is_ipv6 ip && web.is_ipv4_mapped ip then web.to_ipv4 ip else ip

  -- The two refusals of an address, once it is unwrapped.
  unfoldable pub judge_address : web.Ip → Text → Checked (Unit {0})
  judge_address ip context =
      fail_if (has_text blocked_addresses (web.ip_text ip)) (
        url_not_allowed
          (context ++ codes " resolves to a cloud metadata endpoint, which is not allowed"))
      >> fail_if (not (text_eq (web.ip_range ip) allowed_range)) (
          url_not_allowed (
            context
            ++ codes
                " resolves to a private, loopback, or otherwise reserved address, which is not allowed"))

  unfoldable pub assert_address_allowed : Text → Text → Checked (Unit {0})
  assert_address_allowed address context =
      from_option (web.parse_ip address)
        (url_not_allowed (context ++ codes " did not produce a usable address"))
      >>= λ ip. judge_address (unwrap ip) context

  -- The rules on the host name of a parsed URL.
  unfoldable pub judge_hostname : Text → Checked (Unit {0})
  judge_hostname hostname =
      fail_if (is_empty hostname) (url_not_allowed (codes "URL must include a hostname"))
      >> fail_if (has_text blocked_hostnames hostname)
          (url_not_allowed (hostname ++ codes " is not allowed"))
      >> fail_if (any (ends_with hostname) blocked_suffixes)
          (url_not_allowed (codes "Internal network hostnames are not allowed"))
      >> (if web.is_valid_ip (bracketless hostname)
          then assert_address_allowed (bracketless hostname) (codes "That address")
          else ok tt)

  -- The rules on a parsed URL.
  unfoldable pub judge_url : Url → Checked Url
  judge_url url =
      fail_if (not (has_text allowed_protocols url.protocol))
        (url_not_allowed (codes "Only http:// and https:// URLs can be monitored"))
      >> fail_if (not (is_empty url.username) || not (is_empty url.password))
          (url_not_allowed (codes "URLs with embedded credentials are not allowed"))
      >> judge_hostname (plain_hostname url)
      >> ok url

  unfoldable pub parse_allowed_url : Text → Checked Url
  parse_allowed_url raw_url =
      fail_if (is_empty (trim raw_url)) (url_not_allowed (codes "URL is required"))
      >> fail_if (ltb max_url_length (length (trim raw_url))) (
          url_not_allowed
            (codes "URL must be at most " ++ show max_url_length ++ codes " characters"))
      >> (from_option (web.parse_url (trim raw_url))
            (url_not_allowed (codes "Enter a valid URL, including http:// or https://"))
          >>= judge_url)

-- `AllowedUrl`
pub record AllowedUrl : Type 0 where
  pub url : Url
  pub addresses : List Text

-- A checked value as a program that returns it or throws its error.
abbrev pub lift : {A : Type 0} → Checked A → App A
lift (ok a) = ret a
lift (err e) = throw (app_error e)

module _ (web : WebLib) where
  -- What `assertUrlAllowed` makes of the resolver's answer.
  unfoldable pub judge_resolved : Url → Text → DnsReply → Checked AllowedUrl
  judge_resolved url hostname (dns_failed e) = err (
      url_not_allowed
        (codes "Could not resolve " ++ hostname ++ codes ". Check the address is correct."))
  judge_resolved url hostname (dns_found []) = err (
      url_not_allowed
        (codes "Could not resolve " ++ hostname ++ codes ". Check the address is correct."))
  judge_resolved url hostname (dns_found (a ∷ more)) =
      check_each (λ x. assert_address_allowed web x (codes "That hostname")) (a ∷ more)
      >> ok (record { url = url; addresses = a ∷ more })

  -- `assertUrlAllowed` after `parseAllowedUrl`.
  unfoldable pub resolve_allowed : Url → App AllowedUrl
  resolve_allowed url =
      let hostname = bracketless url.hostname in
      if web.is_valid_ip hostname
      then ret (record { url = url; addresses = hostname ∷ [] })
      else act pass_time
          (λ w. lift (judge_resolved url hostname (w.env.resolver w.moment hostname)))

  abbrev pub after_parse : Checked Url → App AllowedUrl
  after_parse (ok url) = resolve_allowed url
  after_parse (err e) = throw (app_error e)

  unfoldable pub assert_url_allowed : Text → App AllowedUrl
  assert_url_allowed raw_url = after_parse (parse_allowed_url web raw_url)

  abbrev pub after_resolve : Option Text → App AllowedUrl
  after_resolve none =
      throw (app_error (url_not_allowed (codes "The site redirected to an invalid URL")))
  after_resolve (some absolute) = assert_url_allowed absolute

  unfoldable pub assert_redirect_allowed : Text → Url → App AllowedUrl
  assert_redirect_allowed location current = after_resolve (web.resolve_url location current)

  -- `createGuardedLookup`: what the guard hands to the socket of the resolver's answer.
  unfoldable pub guarded_lookup : DnsReply → DnsReply
  guarded_lookup (dns_failed e) = dns_failed e
  guarded_lookup (dns_found addresses) =
      elim (check_each (λ x. assert_address_allowed web x (codes "That hostname")) addresses) [
        | ok _ ↦ dns_found addresses
        | err e ↦ dns_failed (app_error e)
      ]

  -- What the guarded lookup hands to the socket that a request opens in this world: nothing where the
  -- host is an address, since no lookup is called then. Node takes the brackets off a host before.
  abbrev pub socket_reply : World → Url → Option DnsReply
  socket_reply w url =
      if web.is_ip (bracketless url.hostname)
      then none
      else some (guarded_lookup (w.env.socket_resolver w.moment (bracketless url.hostname)))
