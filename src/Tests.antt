-- ===== src/Tests.antt =====
-- A small world on which the theorems are applied: one site, a parser that knows two URLs, and an
-- address library that knows one public address.
mod Guard
mod Accounts
mod Analytics
mod Delivery
mod Monitor
mod Tenants
mod Triggers
use pulse_keeper.Prelude.{
  Bool, List, Option, Text, [], codes, false, if◌then◌else◌, is_empty, length, none, replicate,
  some, suc, text_eq, true, ◌%◌, ◌*◌, ◌+◌, ◌-◌, ◌==◌, ◌||◌, ◌∷◌,
}
use pulse_keeper.Domain.{active, offline, system, timeout}
use pulse_keeper.Web.{
  AuthLib, DnsReply, PostClosing, PostEvent, SocketEvent, Url, WebLib, dns_failed, dns_found,
  no_certificate, post_error, post_response, post_timeout, response, socket_error, socket_timeout,
  token_invalid, verified,
}
use pulse_keeper.Store.{Config, Db, Env, Incident, Settings, Site, World, fine}
use pulse_keeper.HealthCheck.{HealthCheckOptions}
use pulse_keeper.HealthCheck.Request.{TlsCertificateInfo}
use pulse_keeper.Prelude.Int.{negsuc}

abbrev pub public_address : Text
public_address = codes "8.8.8.8"

abbrev pub private_address : Text
private_address = codes "10.0.0.1"

abbrev pub named_url : Url
named_url = record {
  protocol = codes "https:";
  username = [];
  password = [];
  hostname = codes "a.com";
  href = codes "https://a.com/";
}

abbrev pub literal_url : Url
literal_url = record {
  protocol = codes "http:";
  username = [];
  password = [];
  hostname = public_address;
  href = codes "http://8.8.8.8/";
}

abbrev pub parse_sample : Text → Option Url
parse_sample s =
    if text_eq s (codes "https://a.com")
    then some named_url
    else if text_eq s (codes "http://8.8.8.8")
    then some literal_url
    else none

abbrev is_address : Text → Bool
is_address s = text_eq s public_address || text_eq s private_address

abbrev pub sample_web : WebLib
sample_web = record {
  parse_url = parse_sample;
  resolve_url = λ location base. some (codes "https://a.com");
  Ip = Text;
  parse_ip = λ s. if is_address s then some s else none;
  is_valid_ip = is_address;
  is_ip = is_address;
  is_ipv6 = λ ip. false;
  is_ipv4_mapped = λ ip. false;
  to_ipv4 = λ ip. ip;
  ip_text = λ ip. ip;
  ip_range = λ ip. if text_eq ip public_address then codes "unicast" else codes "private";
  parse_date = λ s. none;
}

-- A hash that puts a sign before the password, and tokens that hold the subject as their length.
abbrev pub sample_auth : AuthLib
sample_auth = record {
  hash = λ salt password. b'#' ∷ password;
  compare = λ candidate stored. text_eq (b'#' ∷ candidate) stored;
  sign = λ secret at claims. replicate (suc claims.subject) b't';
  expiry_of = λ token. some 1700000000;
  verify = λ secret at options token.
      if is_empty token
      then token_invalid
      else verified (some (length token - 1)) (codes "me@b.com");
}

abbrev pub sample_config : Config
sample_config = record {
  web = sample_web;
  auth = sample_auth;
  jwt_secret = codes "secret";
  jwt_expires_in = codes "7d";
  is_production = true;
  smtp_from = some (codes "pk@a.com");
  monitor_concurrency = 2;
  monitor_max_redirects = 5;
  dashboard = codes "https://app.a.com";
  date_string = λ t. codes "Mon Jan 01 2024";
}

abbrev pub sample_options : HealthCheckOptions
sample_options = record { timeout_seconds = 10; slow_threshold_ms = 3000; max_redirects = none }

-- A site that answers 200 after 5 ms, unless the lookup of its socket fails.
abbrev pub answer : DnsReply → SocketEvent × List SocketEvent
answer (dns_failed e) = (socket_error e, [])
answer (dns_found addresses) = (response 200 none 5000000 no_certificate, socket_timeout ∷ [])

-- A webhook that accepts what is posted, unless the lookup of its socket fails.
abbrev accept : DnsReply → List PostEvent × PostClosing
accept (dns_failed e) = ([], post_error e)
accept (dns_found addresses) = (post_response 200 [] ∷ [], post_timeout)

-- A host that is an address needs no lookup.
abbrev connected : Option DnsReply → DnsReply
connected none = dns_found []
connected (some reply) = reply

abbrev pub sample_env : Env
sample_env = record {
  clock = λ n. 1000000000 + 1000 * n;
  db_fault = λ n. fine;
  resolver = λ n host. dns_found (public_address ∷ []);
  socket_resolver = λ n host. dns_found (public_address ∷ []);
  transport = λ n url timeout_ms reply. answer (connected reply);
  post_transport = λ n url body reply. accept (connected reply);
  relay = λ n mail. none;
  first_runs = λ n depth. n % 2 == 0;
}

-- A site that has failed three checks in a row, as many as its threshold.
abbrev pub sample_site : Site
sample_site = record {
  id = 1;
  user_id = 7;
  name = codes "A";
  url = codes "https://a.com";
  health_endpoint = none;
  description = none;
  tags = [];
  monitoring_enabled = true;
  interval_minutes = 5;
  timeout_seconds = 10;
  slow_threshold_ms = 3000;
  failure_threshold = 3;
  current_status = offline;
  current_response_time = none;
  current_status_code = none;
  last_checked_at = some 1000;
  last_success_at = none;
  consecutive_failures = 3;
  uptime_percentage = 0;
  active_incident_id = none;
  ssl_valid_to = none;
  ssl_issuer = none;
  ssl_days_remaining = none;
  ssl_checked_at = none;
  ssl_warned_at_days = some 1;
  is_demo = false;
  created_at = 0;
  updated_at = 0;
}

abbrev pub sample_incident : Incident
sample_incident = record {
  id = 4;
  site_id = 1;
  user_id = 7;
  status = active;
  reason = codes "down";
  error_type = some timeout;
  status_code = none;
  started_at = 500;
  resolved_at = none;
  duration_seconds = none;
  failed_checks = 3;
}

-- The user has switched off all notifications.
abbrev pub sample_settings : Settings
sample_settings = record {
  user_id = 7;
  default_interval = 5;
  default_timeout = 10;
  default_slow_threshold = 3000;
  default_threshold = 3;
  data_retention_days = 30;
  notifications = record { on_down = false; on_up = false; on_slow = false; on_ssl_expiry = false };
  theme = system;
}

-- The database with these incidents.
abbrev pub sample_db : List Incident → Db
sample_db incidents = record {
  sites = sample_site ∷ [];
  checks = [];
  incidents = incidents;
  notices = [];
  channels = [];
  settings = sample_settings ∷ [];
  users = [];
  runs = [];
  next_id = 9;
}

abbrev pub sample_world : List Incident → World
sample_world incidents = record {
  env = sample_env;
  moment = 0;
  db = sample_db incidents;
  contacts = [];
  in_progress = false;
}

-- A certificate that expired two days ago.
abbrev pub expired_certificate : TlsCertificateInfo
expired_certificate = record {
  valid_to = 1000;
  valid_from = none;
  issuer = none;
  subject = none;
  days_remaining = negsuc 1;
}
