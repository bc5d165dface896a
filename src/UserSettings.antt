-- ===== src/UserSettings.antt =====
-- server/src/services/settings.service.ts: a user's settings.
pub mod Kept
use pulse_keeper.Prelude.{
  Bool, Option, [], any, false, if◌then◌else◌, is_some, leb, none, or_else, some, true,
  update_first, ℕ, ◌&&◌, ◌++◌, ◌==◌, ◌∷◌,
}
use pulse_keeper.Domain.{
  ThemePreference, default_failure_threshold, default_interval_minutes, default_retention_days,
  default_slow_threshold_ms, default_timeout_seconds, retention_days_options, system,
}
use pulse_keeper.Async.{ret, ◌>>=◌, ◌>>◌}
use pulse_keeper.Store.{Db, Preferences, Settings}
use pulse_keeper.Store.Calls.{App, db_call, validate}
use pulse_keeper.Notify.{settings_of}

-- The defaults of `settingsSchema`.
abbrev pub default_settings : ℕ → Settings
default_settings user_id = record {
  user_id = user_id;
  default_interval = default_interval_minutes;
  default_timeout = default_timeout_seconds;
  default_slow_threshold = default_slow_threshold_ms;
  default_threshold = default_failure_threshold;
  data_retention_days = default_retention_days;
  notifications = record { on_down = true; on_up = true; on_slow = false; on_ssl_expiry = true };
  theme = system;
}

-- `PublicSettings`
pub record PublicSettings : Type 0 where
  pub default_interval : ℕ
  pub default_timeout : ℕ
  pub default_slow_threshold : ℕ
  pub default_threshold : ℕ
  pub data_retention_days : ℕ
  pub notifications : Preferences
  pub theme : ThemePreference

unfoldable pub to_public_settings : Settings → PublicSettings
to_public_settings s = record {
  default_interval = s.default_interval;
  default_timeout = s.default_timeout;
  default_slow_threshold = s.default_slow_threshold;
  default_threshold = s.default_threshold;
  data_retention_days = s.data_retention_days;
  notifications = s.notifications;
  theme = s.theme;
}

-- `findOneAndUpdate` with `upsert`: the user's document is changed, and made from the defaults before
-- if there is none.
unfoldable pub upsert_settings : ℕ → (Settings → Settings) → Db → Db
upsert_settings user_id f d = record d {
  settings =
      if is_some (settings_of user_id d)
      then update_first (λ s. s.user_id == user_id) f d.settings
      else d.settings ++ f (default_settings user_id) ∷ [];
}

abbrev pub settings_or_default : ℕ → Db → Settings
settings_or_default user_id d = or_else (settings_of user_id d) (default_settings user_id)

unfoldable pub get_settings : ℕ → App PublicSettings
get_settings user_id =
    db_call (upsert_settings user_id (λ s. s))
      (λ d. ret (to_public_settings (settings_or_default user_id d)))

-- The `notifications` part of an update.
pub record PreferencesInput : Type 0 where
  pub on_down : Option Bool
  pub on_up : Option Bool
  pub on_slow : Option Bool
  pub on_ssl_expiry : Option Bool

-- `UpdateSettingsInput`
pub record UpdateSettingsInput : Type 0 where
  pub default_interval : Option ℕ
  pub default_timeout : Option ℕ
  pub default_slow_threshold : Option ℕ
  pub default_threshold : Option ℕ
  pub data_retention_days : Option ℕ
  pub notifications : Option PreferencesInput
  pub theme : Option ThemePreference

-- `$set` of the paths `notifications.*` that the input has.
unfoldable pub set_preferences : Option PreferencesInput → Preferences → Preferences
set_preferences none p = p
set_preferences (some input) p = record p {
  on_down = or_else input.on_down p.on_down;
  on_up = or_else input.on_up p.on_up;
  on_slow = or_else input.on_slow p.on_slow;
  on_ssl_expiry = or_else input.on_ssl_expiry p.on_ssl_expiry;
}

-- `$set` of the paths that the input has.
unfoldable pub set_settings : UpdateSettingsInput → Settings → Settings
unfolding set_preferences
set_settings input s = record s {
  default_interval = or_else input.default_interval s.default_interval;
  default_timeout = or_else input.default_timeout s.default_timeout;
  default_slow_threshold = or_else input.default_slow_threshold s.default_slow_threshold;
  default_threshold = or_else input.default_threshold s.default_threshold;
  data_retention_days = or_else input.data_retention_days s.data_retention_days;
  notifications = set_preferences input.notifications s.notifications;
  theme = or_else input.theme s.theme;
}

abbrev pub in_range : ℕ → ℕ → ℕ → Bool
in_range low high n = leb low n && leb n high

abbrev pub is_retention : ℕ → Bool
is_retention n = any (λ m. m == n) retention_days_options

abbrev pub ok_if_there : (ℕ → Bool) → Option ℕ → Bool
ok_if_there p none = true
ok_if_there p (some n) = p n

-- `runValidators`: the schema's rules for the fields that are set.
unfoldable pub is_valid_update : UpdateSettingsInput → Bool
is_valid_update input =
    ok_if_there (in_range 1 1440) input.default_interval
    && ok_if_there (in_range 1 60) input.default_timeout
    && ok_if_there (in_range 100 60000) input.default_slow_threshold
    && ok_if_there (in_range 1 10) input.default_threshold
    && ok_if_there is_retention input.data_retention_days

unfoldable pub update_settings : ℕ → UpdateSettingsInput → App PublicSettings
update_settings user_id input = do
  validate (is_valid_update input)
  db_call (upsert_settings user_id (set_settings input))
      (λ d. ret (to_public_settings (set_settings input (settings_or_default user_id d))))
