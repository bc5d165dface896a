-- ===== src/Notify.antt =====
-- server/src/services/notification.service.ts: the in-app feed and the delivery to channels.
pub mod Counted
pub mod Delivery
pub mod Channels
use pulse_keeper.Prelude.{
  Bool, List, Option, Text, [], codes, false, find, if◌then◌else◌, is_empty, keep, leb, map, none,
  not, show, some, suc, take, true, update_first, ℕ, ◌&&◌, ◌++◌, ◌+◌, ◌==◌, ◌∷◌,
}
use pulse_keeper.Domain.{
  ChannelType, NotificationType, incident_opened, incident_resolved, site_down, site_slow, site_up,
  ssl_expired, ssl_expiring,
}
use pulse_keeper.Errors.{Thrown, message_of}
use pulse_keeper.Async.{ret, try_catch, ◌>>=◌, ◌>>◌}
use pulse_keeper.Async.Parallel.{all_of}
use pulse_keeper.Store.{Channel, ChannelMessage, Config, Db, Preferences, Settings}
use pulse_keeper.Store.Calls.{App, db_call, fits, query, read_clock, validate, write}
use pulse_keeper.Adapters.{get_adapter}

-- `NotificationEvent`
pub record NotificationEvent : Type 0 where
  pub user_id : ℕ
  pub site_id : ℕ
  pub site_name : Text
  pub site_url : Text
  pub incident_id : Option ℕ
  pub type : NotificationType
  pub title : Text
  pub message : Text

-- `settings.notifications[PREFERENCE_FOR_TYPE[type]]`
unfoldable pub preference_for : NotificationType → Preferences → Bool
preference_for site_down p = p.on_down
preference_for incident_opened p = p.on_down
preference_for site_up p = p.on_up
preference_for incident_resolved p = p.on_up
preference_for site_slow p = p.on_slow
preference_for ssl_expiring p = p.on_ssl_expiry
preference_for ssl_expired p = p.on_ssl_expiry

-- `RECOVERY_TYPES.has(type)`
abbrev pub is_recovery_type : NotificationType → Bool
is_recovery_type site_up = true
is_recovery_type incident_resolved = true
is_recovery_type _ = false

-- `FAILURE_LIMIT`
abbrev pub failure_limit : ℕ
failure_limit = 10

unfoldable pub to_channel_message : Config → NotificationEvent → ℕ → ChannelMessage
to_channel_message config event at = record {
  type = event.type;
  title = event.title;
  body = event.message;
  site_name = event.site_name;
  site_url = event.site_url;
  dashboard_url =
      if is_empty config.dashboard
      then none
      else some (config.dashboard ++ (codes "/sites/" ++ show event.site_id));
  occurred_at = at;
  is_recovery = is_recovery_type event.type;
}

-- The channel with this id, and a change of it.
abbrev pub channel_by_id : ℕ → Db → Option Channel
channel_by_id id d = find (λ c. c.id == id) d.channels

abbrev pub update_channel_by_id : ℕ → (Channel → Channel) → Db → Db
update_channel_by_id id f d = record d { channels = update_first (λ c. c.id == id) f d.channels }

-- `getAdapter(channel.type)` and `adapter.send(target, message)`
unfoldable pub send : Config → Channel → ChannelMessage → App (Unit {0})
send config channel message = (get_adapter config channel.type).send_message channel.target message

-- What a delivery leaves in its channel.
unfoldable pub mark_delivered : ℕ → ℕ → Channel → Channel
mark_delivered used succeeded c = record c {
  last_used_at = some used;
  last_success_at = some succeeded;
  consecutive_failures = 0;
  last_error = none;
}

-- What a failed delivery leaves in its channel, at first.
unfoldable pub mark_failed : ℕ → Text → Channel → Channel
mark_failed used reason c = record c {
  last_used_at = some used;
  last_error = some (take 300 reason);
  consecutive_failures = c.consecutive_failures + 1;
}

abbrev pub disable : Channel → Channel
disable c = record c { enabled = false }

-- The channel's document after a failure, if it is still there: whether it is to be switched off.
abbrev pub is_exhausted : Option Channel → Bool
is_exhausted none = false
is_exhausted (some c) = leb failure_limit c.consecutive_failures && c.enabled

-- `findOneAndUpdate` with `new: true`.
unfoldable pub find_and_update_channel : ℕ → (Channel → Channel) → App (Option Channel)
find_and_update_channel id f =
    db_call (update_channel_by_id id f) (λ d. ret (channel_by_id id (update_channel_by_id id f d)))

-- The catch block of `deliverToChannel`.
unfoldable pub record_failure : ℕ → Thrown → App Bool
record_failure id e = do
  used ← read_clock
  updated ← find_and_update_channel id (mark_failed used (message_of e))
  (if is_exhausted updated then write (update_channel_by_id id disable) else ret tt)
  ret false

-- What follows `adapter.send` in the try block of `deliverToChannel`.
unfoldable pub record_success : ℕ → App Bool
record_success id = do
  used ← read_clock
  succeeded ← read_clock
  write (update_channel_by_id id (mark_delivered used succeeded))
  ret true

unfoldable pub deliver_to_channel : Config → ChannelMessage → Channel → App Bool
deliver_to_channel config message channel =
    try_catch (send config channel message >> record_success channel.id) (record_failure channel.id)

-- The user's settings, if any.
abbrev pub settings_of : ℕ → Db → Option Settings
settings_of user_id d = find (λ s. s.user_id == user_id) d.settings

-- Whether the user has switched this type off.
abbrev pub is_muted : NotificationType → Option Settings → Bool
is_muted type none = false
is_muted type (some s) = not (preference_for type s.notifications)

-- `Notification.create`
unfoldable pub insert_notification : NotificationEvent → ℕ → Db → Db
insert_notification event at d = record d {
  notices =
      d.notices
      ++ record {
        id = d.next_id;
        user_id = event.user_id;
        site_id = some event.site_id;
        incident_id = event.incident_id;
        type = event.type;
        title = event.title;
        message = event.message;
        is_read = false;
        created_at = at;
      }
        ∷ [];
  next_id = suc d.next_id;
}

abbrev pub enabled_channels : ℕ → Db → List Channel
enabled_channels user_id d = keep (λ c. c.user_id == user_id && c.enabled) d.channels

-- The delivery to every enabled channel, side by side.
unfoldable pub dispatch : Config → NotificationEvent → List Channel → App (Unit {0})
dispatch config event [] = ret tt
dispatch config event (c ∷ cs) = do
  at ← read_clock
  all_of (λ depth w. w.env.first_runs w.moment depth)
      (map (deliver_to_channel config (to_channel_message config event at)) (c ∷ cs))
  ret tt

unfoldable pub record_and_dispatch : Config → NotificationEvent → App (Unit {0})
record_and_dispatch config event = do
  validate (fits 140 event.title && fits 500 event.message)
  at ← read_clock
  write (insert_notification event at)
  channels ← query (enabled_channels event.user_id)
  dispatch config event channels

unfoldable pub notify : Config → NotificationEvent → App (Unit {0})
notify config event = do
  settings ← query (settings_of event.user_id)
  (if is_muted event.type settings then ret tt else record_and_dispatch config event)

-- The message that a test of a channel sends.
unfoldable pub test_message : Config → Text → ℕ → ChannelMessage
test_message config site_name at = record {
  type = site_up;
  title = codes "PulseKeeper test notification";
  body = codes "If you can read this, the channel is configured correctly.";
  site_name = site_name;
  site_url = codes "https://example.com";
  dashboard_url = if is_empty config.dashboard then none else some config.dashboard;
  occurred_at = at;
  is_recovery = true;
}

unfoldable pub send_test_notification : Config → ChannelType → Text → Text → App (Unit {0})
send_test_notification config type target site_name = do
  at ← read_clock
  (get_adapter config type).send_message target (test_message config site_name at)
