-- ===== src/Channels.antt =====
-- server/src/services/channel.service.ts: a user's notification channels.
pub mod Stored
pub mod Changed
pub mod Tenants
use pulse_keeper.Prelude.{
  Bool, List, Option, Text, [], any, codes, count, drop, false, find, if◌then◌else◌, is_empty,
  is_some, keep, leb, length, map, max, none, not, replicate, some, suc, take, text_eq, trim, true,
  ℕ, ◌&&◌, ◌++◌, ◌-◌, ◌==◌, ◌||◌, ◌∷◌,
}
use pulse_keeper.Prelude.Sorting.{sort_by}
use pulse_keeper.Domain.{ChannelType, is_email}
use pulse_keeper.Errors.{Thrown, app_error, bad_request, message_of, not_found, other_error}
use pulse_keeper.Async.{ret, throw, try_catch, ◌>>=◌, ◌>>◌}
use pulse_keeper.Web.{WebLib}
use pulse_keeper.Store.{Channel, Config, Db}
use pulse_keeper.Store.Calls.{App, db_call, fits, found_or, query, read_clock, validate, write}
use pulse_keeper.Adapters.{get_adapter}
use pulse_keeper.Notify.{record_success, send_test_notification, update_channel_by_id}
use pulse_keeper.Sites.Service.{remove_first}

-- `MAX_CHANNELS_PER_USER`
abbrev pub max_channels_per_user : ℕ
max_channels_per_user = 10

-- `PublicChannel`
pub record PublicChannel : Type 0 where
  pub id : ℕ
  pub type : ChannelType
  pub name : Text
  pub target_preview : Text
  pub enabled : Bool
  pub last_used_at : Option ℕ
  pub last_success_at : Option ℕ
  pub last_error : Option Text
  pub consecutive_failures : ℕ
  pub created_at : ℕ

-- What stands before the first @, or all of a text without one; and what stands between the first
-- two, or after the only one.
unfoldable pub up_to_sign : Text → Text
up_to_sign [] = []
up_to_sign (c ∷ s) = if c == 64 then [] else c ∷ up_to_sign s

unfoldable pub past_sign : Text → Text
past_sign [] = []
past_sign (c ∷ s) = if c == 64 then s else past_sign s

-- `s.slice(-4)`
abbrev pub last_four : Text → Text
last_four s = drop (length s - 4) s

unfoldable pub preview_address : Text → Text
unfolding up_to_sign past_sign
preview_address target =
    let local = up_to_sign target in
    take 2 local
    ++ replicate (max 1 (length local - 2)) 0x2022
    ++ codes "@"
    ++ up_to_sign (past_sign target)

unfoldable pub preview_target : WebLib → ChannelType → Text → Text
unfolding preview_address
preview_target web type target =
    if is_email type then preview_address target else elim (web.parse_url target) [
      | none ↦ codes "••••"
      | some url ↦ url.hostname ++ codes "/…" ++ last_four target
    ]

unfoldable pub to_public_channel : WebLib → Channel → PublicChannel
unfolding preview_target
to_public_channel web c = record {
  id = c.id;
  type = c.type;
  name = c.name;
  target_preview = preview_target web c.type c.target;
  enabled = c.enabled;
  last_used_at = c.last_used_at;
  last_success_at = c.last_success_at;
  last_error = if_filled c.last_error;
  consecutive_failures = c.consecutive_failures;
  created_at = c.created_at;
}
  where
    if_filled : Option Text → Option Text
    if_filled none = none
    if_filled (some s) = if is_empty s then none else some s

unfoldable pub list_channels : WebLib → ℕ → App (List PublicChannel)
unfolding to_public_channel sort_by
list_channels web user_id = query (λ d.
    map (to_public_channel web) (
      sort_by (λ a b. leb a.created_at b.created_at) (keep (λ c. c.user_id == user_id) d.channels)))

-- `CreateChannelInput`
pub record CreateChannelInput : Type 0 where
  pub type : ChannelType
  pub name : Text
  pub target : Text

-- `NotificationChannel.create`, once it is validated.
unfoldable pub new_channel : ℕ → CreateChannelInput → ℕ → ℕ → Channel
new_channel user_id input at id = record {
  id = id;
  user_id = user_id;
  type = input.type;
  name = trim input.name;
  target = trim input.target;
  enabled = true;
  last_used_at = none;
  last_success_at = none;
  last_error = none;
  consecutive_failures = 0;
  created_at = at;
}

-- The schema's rules for the texts of a channel.
abbrev pub is_valid_channel : Text → Text → Bool
is_valid_channel name target = fits 60 (trim name) && fits 2048 (trim target)

unfoldable pub insert_channel : (ℕ → Channel) → Db → Db
insert_channel make d = record d {
  channels = d.channels ++ make d.next_id ∷ [];
  next_id = suc d.next_id;
}

module _ (config : Config) where
  unfoldable pub create_checked : ℕ → CreateChannelInput → App PublicChannel
  create_checked user_id input = do
    (get_adapter config input.type).validate_target input.target
    at ← read_clock
    validate (is_valid_channel input.name input.target)
    db_call (insert_channel (new_channel user_id input at))
        (λ d. ret (to_public_channel config.web (new_channel user_id input at d.next_id)))

  unfoldable pub create_channel : ℕ → CreateChannelInput → App PublicChannel
  create_channel user_id input = do
    existing ← query (λ d. count (λ c. c.user_id == user_id) d.channels)
    (if leb max_channels_per_user existing
        then throw (app_error (bad_request (codes "You can have at most 10 notification channels")))
        else create_checked user_id input)

-- `UpdateChannelInput`
pub record UpdateChannelInput : Type 0 where
  pub name : Option Text
  pub target : Option Text
  pub enabled : Option Bool

abbrev pub channel_of_user : ℕ → ℕ → Db → Option Channel
channel_of_user user_id channel_id d =
    find (λ c. c.id == channel_id && c.user_id == user_id) d.channels

abbrev pub no_channel : Thrown
no_channel = app_error (not_found (codes "Notification channel not found"))

-- `if (input.target && input.target !== channel.target)`: the new target.
unfoldable pub new_target : Option Text → Text → Option Text
new_target none current = none
new_target (some s) current =
    if is_empty s then none else if text_eq s current then none else some s

-- A new target begins without failures.
unfoldable pub retarget : Option Text → Channel → Channel
retarget none c = c
retarget (some s) c = record c { target = trim s; consecutive_failures = 0; last_error = none }

unfoldable pub switch : Option Bool → Channel → Channel
switch none c = c
switch (some false) c = record c { enabled = false }
switch (some true) c = record c { enabled = true; consecutive_failures = 0 }

unfoldable pub rename : Option Text → Channel → Channel
rename none c = c
rename (some s) c = record c { name = trim s }

-- The changes of `updateChannel`, in their order.
unfoldable pub edit_channel : UpdateChannelInput → Channel → Channel
unfolding retarget switch rename new_target
edit_channel input c =
    switch input.enabled (rename input.name (retarget (new_target input.target c.target) c))

-- A field in the database once a document is saved: only one that has changed is set.
abbrev pub saved_field : {A : Type 0} → Bool → A → A → A
saved_field unchanged new stored = if unchanged then stored else new

abbrev pub same_flag : Bool → Bool → Bool
same_flag true b = b
same_flag false b = not b

-- `channel.save()` of a document that was loaded as `loaded` and is now `new`.
unfoldable pub save_channel_fields : Channel → Channel → Channel → Channel
save_channel_fields loaded new stored = record stored {
  name = saved_field (text_eq loaded.name new.name) new.name stored.name;
  target = saved_field (text_eq loaded.target new.target) new.target stored.target;
  enabled = saved_field (same_flag loaded.enabled new.enabled) new.enabled stored.enabled;
  last_error =
      saved_field (is_some new.last_error || not (is_some loaded.last_error)) new.last_error
        stored.last_error;
  consecutive_failures =
      saved_field (loaded.consecutive_failures == new.consecutive_failures) new.consecutive_failures
        stored.consecutive_failures;
}

unfoldable pub save_channel : Channel → Channel → App (Unit {0})
save_channel loaded new =
    db_call (update_channel_by_id loaded.id (save_channel_fields loaded new)) (λ d.
      if any (λ c. c.id == loaded.id) d.channels
      then ret tt
      else throw (other_error [] (codes "No document found for query")))

module _ (config : Config) where
  unfoldable pub validate_new_target : ChannelType → Option Text → App (Unit {0})
  validate_new_target type none = ret tt
  validate_new_target type (some target) = (get_adapter config type).validate_target target

  unfoldable pub update_found_channel : UpdateChannelInput → Channel → App PublicChannel
  update_found_channel input channel = do
    validate_new_target channel.type (new_target input.target channel.target)
    validate
        (is_valid_channel (edit_channel input channel).name (edit_channel input channel).target)
    save_channel channel (edit_channel input channel)
    ret (to_public_channel config.web (edit_channel input channel))

  unfoldable pub update_channel : ℕ → ℕ → UpdateChannelInput → App PublicChannel
  update_channel user_id channel_id input = do
    found ← query (channel_of_user user_id channel_id)
    channel ← found_or no_channel found
    update_found_channel input channel

  unfoldable pub delete_channel : ℕ → ℕ → App (Unit {0})
  delete_channel user_id channel_id = do
    found ←
        db_call
          (λ d. record d {
            channels = remove_first (λ c. c.id == channel_id && c.user_id == user_id) d.channels;
          })
          (λ d. ret (channel_of_user user_id channel_id d))
    found_or no_channel found
    ret tt

  -- What a failed test leaves in its channel.
  unfoldable pub mark_tested : ℕ → Text → Channel → Channel
  mark_tested used reason c = record c {
    last_used_at = some used;
    last_error = some (take 300 reason);
  }

  abbrev pub test_error : Thrown → Thrown
  test_error (app_error e) = app_error e
  test_error e = app_error (bad_request (codes "Test delivery failed: " ++ message_of e))

  -- The catch block of `testChannel`.
  unfoldable pub report_test : ℕ → Thrown → App (Unit {0})
  report_test id e = do
    used ← read_clock
    write (update_channel_by_id id (mark_tested used (message_of e)))
    throw (test_error e)

  unfoldable pub test_found : Channel → App (Unit {0})
  test_found channel =
      try_catch
        (do
          send_test_notification config channel.type channel.target (codes "Example Site")
          record_success channel.id
          ret tt)
        (report_test channel.id)

  unfoldable pub test_channel : ℕ → ℕ → App (Unit {0})
  test_channel user_id channel_id = do
    found ← query (channel_of_user user_id channel_id)
    channel ← found_or no_channel found
    test_found channel
