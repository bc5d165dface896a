-- ===== src/Sites.antt =====
-- server/src/services/site.service.ts: what a client sees of a site, and how its document is made
-- and edited. The input types are those of server/src/validators/site.validators.ts.
pub mod Service
pub mod Tenants
pub mod Guarded
pub mod Edited
pub mod Listing
use pulse_keeper.Prelude.{
  Bool, List, Option, Text, [], false, if◌then◌else◌, leb, length, none, not, or_else, some,
  text_eq, trim, true, ℕ, ◌&&◌, ◌==◌, ◌∷◌,
}
use pulse_keeper.Prelude.Int.{ℤ}
use pulse_keeper.Domain.{
  SiteStatus, default_failure_threshold, default_interval_minutes, default_slow_threshold_ms,
  default_timeout_seconds, max_url_length, paused, status_eq, unknown,
}
use pulse_keeper.Store.{Settings, Site}
use pulse_keeper.Store.Calls.{fits}
use pulse_keeper.HealthCheck.Request.{if_nonempty}
use pulse_keeper.Monitoring.{check_url}

-- `PublicSite`
pub record PublicSite : Type 0 where
  pub id : ℕ
  pub name : Text
  pub url : Text
  pub health_endpoint : Option Text
  pub check_url : Text
  pub description : Option Text
  pub tags : List Text
  pub monitoring_enabled : Bool
  pub interval_minutes : ℕ
  pub timeout_seconds : ℕ
  pub slow_threshold_ms : ℕ
  pub failure_threshold : ℕ
  pub current_status : SiteStatus
  pub current_response_time : Option (Option ℕ)
  pub current_status_code : Option (Option ℕ)
  pub last_checked_at : Option ℕ
  pub last_success_at : Option ℕ
  pub consecutive_failures : ℕ
  pub uptime_percentage : ℕ
  pub active_incident_id : Option ℕ
  pub ssl_valid_to : Option ℕ
  pub ssl_issuer : Option Text
  pub ssl_days_remaining : Option ℤ
  pub ssl_checked_at : Option ℕ
  pub is_demo : Bool
  pub created_at : ℕ
  pub updated_at : ℕ

unfoldable pub to_public_site : Site → PublicSite
to_public_site site = record {
  id = site.id;
  name = site.name;
  url = site.url;
  health_endpoint = if_nonempty site.health_endpoint;
  check_url = check_url site;
  description = if_nonempty site.description;
  tags = site.tags;
  monitoring_enabled = site.monitoring_enabled;
  interval_minutes = site.interval_minutes;
  timeout_seconds = site.timeout_seconds;
  slow_threshold_ms = site.slow_threshold_ms;
  failure_threshold = site.failure_threshold;
  current_status = site.current_status;
  current_response_time = site.current_response_time;
  current_status_code = site.current_status_code;
  last_checked_at = site.last_checked_at;
  last_success_at = site.last_success_at;
  consecutive_failures = site.consecutive_failures;
  uptime_percentage = site.uptime_percentage;
  active_incident_id = site.active_incident_id;
  ssl_valid_to = site.ssl_valid_to;
  ssl_issuer = if_nonempty site.ssl_issuer;
  ssl_days_remaining = site.ssl_days_remaining;
  ssl_checked_at = site.ssl_checked_at;
  is_demo = site.is_demo;
  created_at = site.created_at;
  updated_at = site.updated_at;
}

-- `CreateSiteInput`
pub record CreateSiteInput : Type 0 where
  pub name : Text
  pub url : Text
  pub health_endpoint : Option Text
  pub description : Option Text
  pub tags : Option (List Text)
  pub monitoring_enabled : Option Bool
  pub interval_minutes : Option ℕ
  pub timeout_seconds : Option ℕ
  pub slow_threshold_ms : Option ℕ
  pub failure_threshold : Option ℕ

-- `UpdateSiteInput`: a field that is sent as an empty text is there as `some none`.
pub record UpdateSiteInput : Type 0 where
  pub name : Option Text
  pub url : Option Text
  pub health_endpoint : Option (Option Text)
  pub description : Option (Option Text)
  pub tags : Option (List Text)
  pub monitoring_enabled : Option Bool
  pub interval_minutes : Option ℕ
  pub timeout_seconds : Option ℕ
  pub slow_threshold_ms : Option ℕ
  pub failure_threshold : Option ℕ

abbrev within : ℕ → ℕ → ℕ → Bool
within low high n = leb low n && leb n high

abbrev fits_if_there : ℕ → Option Text → Bool
fits_if_there most none = true
fits_if_there most (some s) = leb (length s) most

-- The validators of `siteSchema` on the fields that a user can set.
unfoldable pub is_valid_site : Site → Bool
is_valid_site s =
    fits 80 s.name
    && fits max_url_length s.url
    && fits_if_there max_url_length s.health_endpoint
    && fits_if_there 280 s.description
    && leb (length s.tags) 10
    && within 1 1440 s.interval_minutes
    && within 1 60 s.timeout_seconds
    && within 100 60000 s.slow_threshold_ms
    && within 1 10 s.failure_threshold

abbrev pub trim_if_there : Option Text → Option Text
trim_if_there none = none
trim_if_there (some s) = some (trim s)

-- A field of the user's settings, or the default of the schema where there are none.
abbrev setting_or : (Settings → ℕ) → ℕ → Option Settings → ℕ
setting_or field fallback none = fallback
setting_or field fallback (some s) = field s

-- The document that `createSite` creates; `siteSchema` trims its texts.
unfoldable pub new_site : ℕ → CreateSiteInput → Option Settings → ℕ → ℕ → Site
new_site user_id input settings at id = record {
  id = id;
  user_id = user_id;
  name = trim input.name;
  url = trim input.url;
  health_endpoint = trim_if_there input.health_endpoint;
  description = trim_if_there input.description;
  tags = or_else input.tags [];
  monitoring_enabled = or_else input.monitoring_enabled true;
  interval_minutes =
      or_else input.interval_minutes
        (setting_or (λ s. s.default_interval) default_interval_minutes settings);
  timeout_seconds =
      or_else input.timeout_seconds
        (setting_or (λ s. s.default_timeout) default_timeout_seconds settings);
  slow_threshold_ms =
      or_else input.slow_threshold_ms
        (setting_or (λ s. s.default_slow_threshold) default_slow_threshold_ms settings);
  failure_threshold =
      or_else input.failure_threshold
        (setting_or (λ s. s.default_threshold) default_failure_threshold settings);
  current_status = if or_else input.monitoring_enabled true then unknown else paused;
  current_response_time = none;
  current_status_code = none;
  last_checked_at = none;
  last_success_at = none;
  consecutive_failures = 0;
  uptime_percentage = 0;
  active_incident_id = none;
  ssl_valid_to = none;
  ssl_issuer = none;
  ssl_days_remaining = none;
  ssl_checked_at = none;
  ssl_warned_at_days = none;
  is_demo = false;
  created_at = at;
  updated_at = at;
}

abbrev pub opt_text_eq : Option Text → Option Text → Bool
opt_text_eq none none = true
opt_text_eq (some s) (some t) = text_eq s t
opt_text_eq _ _ = false

abbrev pub joined : Option (Option Text) → Option Text
joined none = none
joined (some o) = o

-- `Object.assign(site, input)`
unfoldable pub assign : UpdateSiteInput → Site → Site
assign input site = record site {
  name = elim input.name [ none ↦ site.name | some s ↦ trim s ];
  url = elim input.url [ none ↦ site.url | some s ↦ trim s ];
  health_endpoint = elim input.health_endpoint [
    | none ↦ site.health_endpoint
    | some o ↦ trim_if_there o
  ];
  description = elim input.description [ none ↦ site.description | some o ↦ trim_if_there o ];
  tags = or_else input.tags site.tags;
  monitoring_enabled = or_else input.monitoring_enabled site.monitoring_enabled;
  interval_minutes = or_else input.interval_minutes site.interval_minutes;
  timeout_seconds = or_else input.timeout_seconds site.timeout_seconds;
  slow_threshold_ms = or_else input.slow_threshold_ms site.slow_threshold_ms;
  failure_threshold = or_else input.failure_threshold site.failure_threshold;
}

-- The status after an update: pausing shows at once, and so does the end of a pause.
unfoldable pub status_after : Option Bool → SiteStatus → SiteStatus
status_after none s = s
status_after (some false) s = paused
status_after (some true) s = if status_eq s paused then unknown else s

unfoldable pub edit : UpdateSiteInput → Site → Site
edit input site = record (assign input site) {
  current_status = status_after input.monitoring_enabled site.current_status;
}

abbrev bool_eq : Bool → Bool → Bool
bool_eq true b = b
bool_eq false b = not b

abbrev texts_eq : List Text → List Text → Bool
texts_eq [] [] = true
texts_eq (s ∷ ss) (t ∷ ts) = text_eq s t && texts_eq ss ts
texts_eq _ _ = false

-- A field in the database once a document is saved: only a field that has changed is set.
abbrev saved : {A : Type 0} → (A → A → Bool) → A → A → A → A
saved eq loaded new stored = if eq loaded new then stored else new

-- Whether a document differs from how it was loaded, in a field that an update can set.
unfoldable pub is_modified : Site → Site → Bool
is_modified loaded new = not (
    text_eq loaded.name new.name
    && text_eq loaded.url new.url
    && opt_text_eq loaded.health_endpoint new.health_endpoint
    && opt_text_eq loaded.description new.description
    && texts_eq loaded.tags new.tags
    && bool_eq loaded.monitoring_enabled new.monitoring_enabled
    && loaded.interval_minutes == new.interval_minutes
    && loaded.timeout_seconds == new.timeout_seconds
    && loaded.slow_threshold_ms == new.slow_threshold_ms
    && loaded.failure_threshold == new.failure_threshold
    && status_eq loaded.current_status new.current_status)

-- The time of the last change, once a document is saved: that of the save, if there was a change.
abbrev pub touched : Site → Site → ℕ → ℕ → ℕ
touched loaded new at before = if is_modified loaded new then at else before

-- `site.save()` of a document that was loaded as `loaded` and is now `new`.
unfoldable pub save_fields : Site → Site → ℕ → Site → Site
save_fields loaded new at stored = record stored {
  name = saved text_eq loaded.name new.name stored.name;
  url = saved text_eq loaded.url new.url stored.url;
  health_endpoint =
      saved opt_text_eq loaded.health_endpoint new.health_endpoint stored.health_endpoint;
  description = saved opt_text_eq loaded.description new.description stored.description;
  tags = saved texts_eq loaded.tags new.tags stored.tags;
  monitoring_enabled =
      saved bool_eq loaded.monitoring_enabled new.monitoring_enabled stored.monitoring_enabled;
  interval_minutes =
      saved (λ a b. a == b) loaded.interval_minutes new.interval_minutes stored.interval_minutes;
  timeout_seconds =
      saved (λ a b. a == b) loaded.timeout_seconds new.timeout_seconds stored.timeout_seconds;
  slow_threshold_ms =
      saved (λ a b. a == b) loaded.slow_threshold_ms new.slow_threshold_ms stored.slow_threshold_ms;
  failure_threshold =
      saved (λ a b. a == b) loaded.failure_threshold new.failure_threshold stored.failure_threshold;
  current_status = saved status_eq loaded.current_status new.current_status stored.current_status;
  updated_at = touched loaded new at stored.updated_at;
}
