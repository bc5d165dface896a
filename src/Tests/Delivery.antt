-- ===== src/Tests/Delivery.antt =====
-- The theorems on deliveries on the small world.
use pulse_keeper.Prelude.{
  All, Text, [], codes, contains, ends_with, false, is_space, map, none, refl, replace_each, show,
  some, squeeze, trim, true, ◌∷◌, ◌≡◌,
}
use pulse_keeper.Prelude.Time.{calendar_day, iso_string, padded}
use pulse_keeper.Domain.{email, site_down, slack, webhook}
use pulse_keeper.Errors.{other_error}
use pulse_keeper.Async.{returned, run, thrown, ◌>>=◌}
use pulse_keeper.Web.{Url, post_chunk, post_end, post_response, post_timeout}
use pulse_keeper.Store.{Channel, ChannelMessage, Db, World}
use pulse_keeper.Guard.{
  assert_address_allowed, assert_url_allowed, bracketless, judge_address, judge_hostname,
  judge_resolved, judge_url, parse_allowed_url, plain_hostname, resolve_allowed,
}
use pulse_keeper.Guard.Urls.{ParsesTo}
use pulse_keeper.Posting.{
  assert_webhook_target_allowed, error_detail, is_body_useful, judge_target, on_post_closing,
  on_post_event, on_post_response, post_json, post_request, refusal, settle_post, settle_posted,
}
use pulse_keeper.Posting.Settling.{is_returned, response_status, settle_posted_iff}
use pulse_keeper.Posting.Targets.{IsSecure, assert_webhook_target_allowed-IsSecure}
use pulse_keeper.Adapters.{
  escape_html, get_adapter, has_dot_and_two, is_domain, is_email_address, mail_of, split_at_sign,
}
use pulse_keeper.Adapters.Mails.{IsPlain, mail_of-IsPlain}
use pulse_keeper.Notify.{channel_by_id, deliver_to_channel, send}
use pulse_keeper.Notify.Channels.{after_failure, failed_delivery_counted, once_sent}
use pulse_keeper.Store.Calls.{Anything, OnDb, pass_time}
use pulse_keeper.Channels.{
  CreateChannelInput, UpdateChannelInput, create_channel, delete_channel, no_channel, past_sign,
  preview_address, preview_target, test_channel, up_to_sign, update_channel,
}
use pulse_keeper.Channels.Stored.{ChannelsChecked}
use pulse_keeper.Channels.Changed.{ChannelsTyped, channel_calls-ChannelsChecked}
use pulse_keeper.Channels.Tenants.{foreign_channel_refused}
use pulse_keeper.Async.Rules.{Holds, Keeps}
use pulse_keeper.Tests.{sample_config, sample_db, sample_env, sample_web, sample_world}

-- A channel whose last nine deliveries have failed, and a world whose
-- endpoint refuses the next one too.
abbrev failing_channel : Channel
failing_channel = record {
  id = 3;
  user_id = 7;
  type = slack;
  name = codes "ops";
  target = codes "https://a.com";
  enabled = true;
  last_used_at = none;
  last_success_at = none;
  last_error = none;
  consecutive_failures = 9;
  created_at = 0;
}

abbrev down_message : ChannelMessage
down_message = record {
  type = site_down;
  title = codes "A is down";
  body = codes "down";
  site_name = codes "A";
  site_url = codes "https://a.com";
  dashboard_url = none;
  occurred_at = 0;
  is_recovery = false;
}

abbrev failing_world : World
failing_world = record (sample_world []) {
  env = record sample_env {
    post_transport = λ n url body reply. (
      post_response 404 (codes "text/plain")
          ∷ post_chunk (codes "no_")
          ∷ post_chunk (codes "service")
          ∷ post_end
          ∷ [],
      post_timeout,
    );
  };
  db = record (sample_db []) { channels = failing_channel ∷ [] };
}

abbrev refused : Text
refused = codes "Endpoint returned HTTP 404: no_service"

refused_delivery :
    (run (send sample_config failing_channel down_message) failing_world).0
    ≡ thrown (other_error [] refused)
unfolding run send get_adapter post_json assert_url_allowed parse_allowed_url judge_url
    judge_hostname resolve_allowed judge_resolved post_request settle_post on_post_event
    on_post_closing ◌>>=◌ trim plain_hostname ends_with bracketless assert_address_allowed
    judge_address on_post_response is_body_useful contains refusal error_detail squeeze show
refused_delivery = refl

-- The world once the delivery has been asked for.
abbrev asked : World
asked = once_sent sample_config down_message failing_channel failing_world

failed_delivery_counted_example :
    ((run (deliver_to_channel sample_config down_message failing_channel) failing_world).0
      ≡ returned false)
    × (channel_by_id 3
          (run (deliver_to_channel sample_config down_message failing_channel) failing_world).1.db
        ≡ some (after_failure (asked.env.clock asked.moment) refused failing_channel))
failed_delivery_counted_example =
    failed_delivery_counted sample_config down_message failing_channel failing_world failing_channel
      (other_error [] refused) (λ n. refl) refl refused_delivery

settle_posted_iff_example :
    is_returned (settle_posted (post_chunk [] ∷ post_response 204 [] ∷ [], post_timeout)) ≡ true
unfolding response_status
settle_posted_iff_example =
    settle_posted_iff (post_chunk [] ∷ post_response 204 [] ∷ []) post_timeout

mail_of-IsPlain_example :
    All IsPlain (mail_of (codes "pk@a.com") (codes "me@b.com") down_message).html_texts
mail_of-IsPlain_example = mail_of-IsPlain (codes "pk@a.com") (codes "me@b.com") down_message

assert_webhook_target_allowed-IsSecure_example :
    (url : Url) × ParsesTo sample_web (codes "https://a.com") url
    × IsSecure sample_web (some (codes "a.com")) url
unfolding run assert_webhook_target_allowed ◌>>=◌ assert_url_allowed parse_allowed_url trim
    judge_url judge_hostname plain_hostname ends_with bracketless resolve_allowed judge_resolved
    assert_address_allowed judge_address judge_target
assert_webhook_target_allowed-IsSecure_example =
    assert_webhook_target_allowed-IsSecure sample_web (codes "https://a.com") (some (codes "a.com"))
      (sample_world []) refl

escaped : escape_html (codes "<a&b>") ≡ codes "&lt;a&amp;b&gt;"
unfolding escape_html replace_each
escaped = refl

epoch : iso_string 1709164800123 ≡ codes "2024-02-29T00:00:00.123Z"
unfolding iso_string calendar_day padded
epoch = refl

addresses :
    map is_email_address (codes "a@b.co" ∷ codes "a@b.c" ∷ codes "a@@b.co" ∷ codes "@b.co" ∷ [])
    ≡ true ∷ false ∷ false ∷ false ∷ []
unfolding is_email_address is_domain has_dot_and_two split_at_sign is_space
addresses = refl

abbrev new_webhook : CreateChannelInput
new_webhook = record { type = webhook; name = codes "hook"; target = codes "https://a.com" }

abbrev retargeting : UpdateChannelInput
retargeting = record { name = none; target = some (codes "https://a.com"); enabled = none }

channel_calls-ChannelsChecked_example :
    Keeps
      (OnDb (ChannelsChecked sample_config) Anything)
      (create_channel sample_config 7 new_webhook)
    × Holds
        (OnDb (ChannelsTyped sample_config (λ n. webhook)) Anything)
        (λ _. Unit {0})
        (update_channel sample_config 7 3 retargeting)
    × Holds
        (OnDb (ChannelsTyped sample_config (λ n. webhook)) Anything)
        (λ _. Unit {0})
        (delete_channel sample_config 7 3)
    × ((d : Db) → ChannelsTyped sample_config (λ n. webhook) d → ChannelsChecked sample_config d)
channel_calls-ChannelsChecked_example =
    channel_calls-ChannelsChecked sample_config (λ n. webhook) 7 3 new_webhook retargeting

abbrev switch_off : UpdateChannelInput
switch_off = record { name = none; target = none; enabled = some false }

foreign_channel_refused_example :
    (run (update_channel sample_config 8 3 switch_off) failing_world
      ≡ (thrown no_channel, pass_time failing_world))
    × (run (delete_channel sample_config 8 3) failing_world
        ≡ (thrown no_channel, pass_time failing_world))
    × (run (test_channel sample_config 8 3) failing_world
        ≡ (thrown no_channel, pass_time failing_world))
foreign_channel_refused_example =
    foreign_channel_refused sample_config 8 3 switch_off failing_world (λ n. refl) refl

previews :
    (preview_target sample_web slack (codes "https://a.com") ≡ codes "a.com/….com")
    × (preview_target sample_web email (codes "maria@b.co") ≡ codes "ma•••@b.co")
unfolding preview_target preview_address up_to_sign past_sign
previews = (refl, refl)
