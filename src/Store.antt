-- ===== src/Store.antt =====
-- The documents of server/src/models/, the database as a list of documents for each collection,
-- and the world that the programs act on.
pub mod Calls
use pulse_keeper.Prelude.{Bool, List, Option, Text, ℕ}
use pulse_keeper.Prelude.Int.{ℤ}
use pulse_keeper.Domain.{
  ChannelType, CheckErrorType, CheckSource, IncidentStatus, NotificationType, SiteStatus,
  ThemePreference, email,
}
use pulse_keeper.Errors.{Thrown}
use pulse_keeper.Web.{
  AuthLib, DnsReply, Json, Mail, PostClosing, PostEvent, SocketEvent, Url, WebLib,
}

-- `ISite` with its id. Times are milliseconds. A field that a check sets to `null` is
-- `some none` there and `none` where it is missing.
pub record Site : Type 0 where
  pub id : ℕ
  pub user_id : ℕ
  pub name : Text
  pub url : Text
  pub health_endpoint : Option Text
  pub description : Option Text
  pub tags : List Text
  pub monitoring_enabled : Bool
  pub interval_minutes : ℕ
  pub timeout_seconds : ℕ
  pub slow_threshold_ms : ℕ
  pub failure_threshold : ℕ
  pub current_status : SiteStatus
  pub current_response_time : Option (Option ℕ)
  pub current_status_code : Option (Option ℕ)
  pub last_checked_at : Option ℕ
  pub last_success_at : Option ℕ
  pub consecutive_failures : ℕ
  -- In hundredths of a percent.
  pub uptime_percentage : ℕ
  pub active_incident_id : Option ℕ
  pub ssl_valid_to : Option ℕ
  pub ssl_issuer : Option Text
  pub ssl_days_remaining : Option ℤ
  pub ssl_checked_at : Option ℕ
  pub ssl_warned_at_days : Option ℕ
  pub is_demo : Bool
  pub created_at : ℕ
  pub updated_at : ℕ

-- `IHealthCheck`
pub record HealthCheck : Type 0 where
  pub site_id : ℕ
  pub user_id : ℕ
  pub checked_at : ℕ
  pub success : Bool
  pub status_code : Option ℕ
  pub response_time_ms : Option ℕ
  pub error_type : Option CheckErrorType
  pub error_message : Option Text
  pub source : CheckSource

-- `IIncident` with its id.
pub record Incident : Type 0 where
  pub id : ℕ
  pub site_id : ℕ
  pub user_id : ℕ
  pub status : IncidentStatus
  pub reason : Text
  pub error_type : Option CheckErrorType
  pub status_code : Option ℕ
  pub started_at : ℕ
  pub resolved_at : Option ℕ
  pub duration_seconds : Option ℕ
  pub failed_checks : ℕ

-- `INotification` with its id.
pub record Notification : Type 0 where
  pub id : ℕ
  pub user_id : ℕ
  pub site_id : Option ℕ
  pub incident_id : Option ℕ
  pub type : NotificationType
  pub title : Text
  pub message : Text
  pub is_read : Bool
  pub created_at : ℕ

-- `INotificationChannel` with its id.
pub record Channel : Type 0 where
  pub id : ℕ
  pub user_id : ℕ
  pub type : ChannelType
  pub name : Text
  pub target : Text
  pub enabled : Bool
  pub last_used_at : Option ℕ
  pub last_success_at : Option ℕ
  pub last_error : Option Text
  pub consecutive_failures : ℕ
  pub created_at : ℕ

-- The `notifications` part of `ISettings`.
pub record Preferences : Type 0 where
  pub on_down : Bool
  pub on_up : Bool
  pub on_slow : Bool
  pub on_ssl_expiry : Bool

-- `ISettings`
pub record Settings : Type 0 where
  pub user_id : ℕ
  pub default_interval : ℕ
  pub default_timeout : ℕ
  pub default_slow_threshold : ℕ
  pub default_threshold : ℕ
  pub data_retention_days : ℕ
  pub notifications : Preferences
  pub theme : ThemePreference

-- `IMonitorRun` with its id.
pub record MonitorRun : Type 0 where
  pub id : ℕ
  pub started_at : ℕ
  pub finished_at : Option ℕ
  pub duration_ms : Option ℤ
  pub trigger : CheckSource
  pub checked : ℕ
  pub online_count : ℕ
  pub slow_count : ℕ
  pub offline_count : ℕ
  pub error_count : ℕ
  pub incidents_opened : ℕ
  pub incidents_resolved : ℕ

-- `IUser` with its id. `password` is the hash.
pub record User : Type 0 where
  pub id : ℕ
  pub name : Text
  pub email : Text
  pub password : Text
  pub avatar : Option Text
  pub created_at : ℕ

-- New documents go to the end of a collection. `next_id` is above every id given out.
pub record Db : Type 0 where
  pub sites : List Site
  pub checks : List HealthCheck
  pub incidents : List Incident
  pub notices : List Notification
  pub channels : List Channel
  pub settings : List Settings
  pub users : List User
  pub runs : List MonitorRun
  pub next_id : ℕ

-- `ChannelMessage`
pub record ChannelMessage : Type 0 where
  pub type : NotificationType
  pub title : Text
  pub body : Text
  pub site_name : Text
  pub site_url : Text
  pub dashboard_url : Option Text
  pub occurred_at : ℕ
  pub is_recovery : Bool

-- How a database call goes: as asked, refused with nothing done, or done but not confirmed.
pub data Fault : Type 0 where
  fine : Fault
  not_done unconfirmed : Text → Fault

-- The libraries that the server is linked with, and the settings of server/src/config/env.ts that
-- the services read.
pub record Config : Type 1 where
  pub web : WebLib
  pub auth : AuthLib
  pub jwt_secret : Text
  pub jwt_expires_in : Text
  pub is_production : Bool
  pub monitor_concurrency : ℕ
  pub monitor_max_redirects : ℕ
  pub dashboard : Text
  -- `Date.prototype.toDateString`, which depends on the host's time zone.
  pub date_string : ℕ → Text
  -- `SMTP_FROM`, if SMTP is configured.
  pub smtp_from : Option Text

-- What answers the server at each moment: the clock, the database's faults, the resolver for
-- `dns.promises.lookup` and the one that a socket calls, the transport of GET requests (which is
-- given a URL, the timeout and what the socket's lookup was handed) and of POST requests (which is
-- given the body too), and the mail relay (none is a delivery, some its error). A request emits one
-- event at least.
pub record Env : Type 0 where
  pub clock : ℕ → ℕ
  pub db_fault : ℕ → Fault
  pub resolver : ℕ → Text → DnsReply
  pub socket_resolver : ℕ → Text → DnsReply
  pub transport : ℕ → Url → ℕ → Option DnsReply → SocketEvent × List SocketEvent
  pub post_transport : ℕ → Url → Json → Option DnsReply → List PostEvent × PostClosing
  pub relay : ℕ → Mail → Option Thrown
  -- Whether the first of some programs that wait together goes on at this moment; the second
  -- number tells nested choices apart.
  pub first_runs : ℕ → ℕ → Bool

-- What the outside has seen, newest first.
pub data Contact : Type 0 where
  requested : Url → Contact
  posted : Url → Json → Contact
  mailed : Mail → Contact

-- `moment` counts the acts so far. `in_progress` is the flag of monitoring.service.ts.
pub record World : Type 0 where
  pub env : Env
  pub moment : ℕ
  pub db : Db
  pub contacts : List Contact
  pub in_progress : Bool
