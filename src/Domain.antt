-- ===== src/Domain.antt =====
-- The vocabulary of the server: server/src/types/domain.ts and server/src/constants/monitoring.ts.
use pulse_keeper.Prelude.{Bool, List, [], false, true, ℕ, ◌∷◌}

pub data SiteStatus : Type 0 where
  online slow offline checking paused unknown : SiteStatus

pub data CheckErrorType : Type 0 where
  timeout dns_error connection_error http_error server_error blocked_url : CheckErrorType
  unknown_error : CheckErrorType

pub data CheckSource : Type 0 where
  cron manual external seed : CheckSource

pub data IncidentStatus : Type 0 where
  active resolved : IncidentStatus

pub data NotificationType : Type 0 where
  site_down site_up site_slow incident_opened incident_resolved : NotificationType
  ssl_expiring ssl_expired : NotificationType

pub data ChannelType : Type 0 where
  slack discord webhook email : ChannelType

pub data ThemePreference : Type 0 where
  light dark system : ThemePreference

-- `===` on the status strings.
abbrev pub status_eq : SiteStatus → SiteStatus → Bool
status_eq online online = true
status_eq slow slow = true
status_eq offline offline = true
status_eq checking checking = true
status_eq paused paused = true
status_eq unknown unknown = true
status_eq _ _ = false

abbrev pub is_active : IncidentStatus → Bool
is_active active = true
is_active resolved = false

abbrev pub is_cron : CheckSource → Bool
is_cron cron = true
is_cron _ = false

abbrev pub is_email : ChannelType → Bool
is_email email = true
is_email _ = false

-- `MONITORING_DEFAULTS`
abbrev pub default_interval_minutes : ℕ
default_interval_minutes = 5

abbrev pub default_timeout_seconds : ℕ
default_timeout_seconds = 10

abbrev pub default_slow_threshold_ms : ℕ
default_slow_threshold_ms = 3000

abbrev pub default_failure_threshold : ℕ
default_failure_threshold = 3

abbrev pub default_retention_days : ℕ
default_retention_days = 30

-- `SSL_WARNING_DAYS`
abbrev pub ssl_warning_days : List ℕ
ssl_warning_days = 30 ∷ 14 ∷ 7 ∷ 1 ∷ []

-- `MONITORING_LIMITS.maxUrlLength`
abbrev pub max_url_length : ℕ
max_url_length = 2048

-- `RETENTION_DAYS_OPTIONS`
abbrev pub retention_days_options : List ℕ
retention_days_options = 7 ∷ 30 ∷ 90 ∷ 180 ∷ []
