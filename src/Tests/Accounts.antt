-- ===== src/Tests/Accounts.antt =====
-- The theorems on accounts and settings on the small world.
use pulse_keeper.Prelude.{
  [], codes, false, if◌then◌else◌, lower, none, refl, some, text_eq, text_eq_refl, trim, true, ℕ,
  ◌==◌, ◌↔◌, ◌∷◌, ◌≡◌,
}
use pulse_keeper.Domain.{system}
use pulse_keeper.Async.{returned, run, thrown, ◌>>=◌}
use pulse_keeper.Async.Rules.{Keeps}
use pulse_keeper.Store.{User, World}
use pulse_keeper.Store.Calls.{Anything, OnDb, db_call, pass_time, validate}
use pulse_keeper.Notify.{settings_of}
use pulse_keeper.UserSettings.{
  PublicSettings, UpdateSettingsInput, get_settings, is_valid_update, set_preferences, set_settings,
  to_public_settings, update_settings,
}
use pulse_keeper.UserSettings.Kept.{
  AreSettingsUpdated, SettingsValid, settings-SettingsValid, update_settings_roundtrip,
}
use pulse_keeper.Accounts.{
  RegisterInput, bad_credentials, login_user, normal_email, register_user, to_public_user,
  user_with_email,
}
use pulse_keeper.Accounts.Sessions.{AuthUser, Request, require_auth}
use pulse_keeper.Accounts.Credentials.{
  account, login_input, login_user_lem, register_login_roundtrip, registered,
}
use pulse_keeper.Accounts.Access.{IsAuthentic, require_auth_iff}
use pulse_keeper.Tests.{sample_config, sample_db, sample_world}

abbrev change : UpdateSettingsInput
change = record {
  default_interval = none;
  default_timeout = some 20;
  default_slow_threshold = none;
  default_threshold = none;
  data_retention_days = none;
  notifications =
      some (record { on_down = some true; on_up = none; on_slow = none; on_ssl_expiry = none });
  theme = none;
}

abbrev changed : PublicSettings
changed = record {
  default_interval = 5;
  default_timeout = 20;
  default_slow_threshold = 3000;
  default_threshold = 3;
  data_retention_days = 30;
  notifications = record { on_down = true; on_up = false; on_slow = false; on_ssl_expiry = false };
  theme = system;
}

update_settings_roundtrip_example :
    let (result, v) = run (update_settings 7 change) (sample_world []) in
    (before : PublicSettings) × (after : PublicSettings) × ((run
        (get_settings 7)
        (sample_world [])).0
      ≡ returned before)
    × (result ≡ returned after)
    × ((run (get_settings 7) v).0 ≡ returned after)
    × AreSettingsUpdated change before after
    × ((other : ℕ)
        → (other == 7) ≡ false
        → settings_of other v.db ≡ settings_of other (sample_world []).db)
unfolding is_valid_update
update_settings_roundtrip_example =
    update_settings_roundtrip 7 change (sample_world []) (λ n. refl) refl

settings_changed : (run (update_settings 7 change) (sample_world [])).0 ≡ returned changed
unfolding update_settings to_public_settings set_settings set_preferences is_valid_update validate
    db_call run ◌>>=◌
settings_changed = refl

settings-SettingsValid_example :
    Keeps (OnDb SettingsValid Anything) (get_settings 7)
    × Keeps (OnDb SettingsValid Anything) (update_settings 7 change)
settings-SettingsValid_example = settings-SettingsValid 7 change

abbrev newcomer : RegisterInput
newcomer = record { name = codes "Mia"; email = codes "Me@B.com"; password = codes "correct horse" }

register_login_roundtrip_example :
    (run (register_user sample_config newcomer) (sample_world []) ≡ (
      returned (to_public_user (account sample_config newcomer (sample_world []))),
      registered sample_config newcomer (sample_world []),
    ))
    × ((run
          (login_user sample_config (login_input sample_config newcomer (sample_world [])))
          (registered sample_config newcomer (sample_world []))).0
        ≡ returned (to_public_user (account sample_config newcomer (sample_world []))))
unfolding normal_email trim lower
register_login_roundtrip_example =
    register_login_roundtrip sample_config newcomer (sample_world []) (λ n. refl)
      (λ salt p. text_eq_refl (b'#' ∷ p)) refl refl refl

login_user_lem_example :
    (user_with_email (codes "x@y.zz") (sample_db []) ≡ none
      → run
          (login_user sample_config (record { email = codes "x@y.zz"; password = codes "p" }))
          (sample_world [])
        ≡ (thrown bad_credentials, pass_time (sample_world [])))
    × ((user : User)
        → user_with_email (codes "x@y.zz") (sample_db []) ≡ some user
        → run
            (login_user sample_config (record { email = codes "x@y.zz"; password = codes "p" }))
            (sample_world [])
          ≡ (
            if text_eq (b'#' ∷ codes "p") user.password
                then returned (to_public_user user)
                else thrown bad_credentials,
            pass_time (pass_time (sample_world [])),
          ))
login_user_lem_example =
    login_user_lem sample_config (sample_world [])
      (record { email = codes "x@y.zz"; password = codes "p" }) (λ n. refl)

-- The user of the sample, and a request of theirs.
abbrev known : User
known = record {
  id = 7;
  name = codes "Mia";
  email = codes "me@b.com";
  password = codes "#p";
  avatar = none;
  created_at = 0;
}

abbrev known_world : World
known_world = record (sample_world []) { db = record (sample_db []) { users = known ∷ [] } }

abbrev with_bearer : Request
with_bearer = record { cookie = none; authorization = some (codes "Bearer tttttttt") }

abbrev mia : AuthUser
mia = record { id = 7; email = codes "me@b.com"; name = codes "Mia" }

require_auth_iff_example :
    ((run (require_auth sample_config with_bearer) known_world).0 ≡ returned mia)
    ↔ IsAuthentic sample_config known_world with_bearer mia
require_auth_iff_example = require_auth_iff sample_config known_world with_bearer mia (λ n. refl)
