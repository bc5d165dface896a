-- ===== src/Adapters.antt =====
-- server/src/services/channels/: the registry of the four transports, and what each sends.
pub mod Mails
pub mod Contacts
use pulse_keeper.Prelude.{
  Bool, Option, Text, [], any, codes, false, if◌then◌else◌, is_empty, is_some, is_space, leb,
  length, none, not, or_else, replace_each, some, suc, true, ◌&&◌, ◌++◌, ◌==◌, ◌||◌, ◌∷◌,
}
use pulse_keeper.Prelude.Time.{iso_string}
use pulse_keeper.Domain.{
  ChannelType, NotificationType, discord, email, incident_opened, incident_resolved, site_down,
  site_slow, site_up, slack, ssl_expired, ssl_expiring, webhook,
}
use pulse_keeper.Errors.{AppError, app_error, bad_request}
use pulse_keeper.Async.{act, ret, throw}
use pulse_keeper.Web.{
  Json, Mail, element, entry, json_array, json_flag, json_number, json_object, json_text, no_fields,
  no_items,
}
use pulse_keeper.Store.{ChannelMessage, Config, mailed}
use pulse_keeper.Store.Calls.{App}
use pulse_keeper.Posting.{assert_webhook_target_allowed, post_json}

-- `NotificationType`, as the documents spell it.
abbrev pub type_text : NotificationType → Text
type_text site_down = codes "SITE_DOWN"
type_text site_up = codes "SITE_UP"
type_text site_slow = codes "SITE_SLOW"
type_text incident_opened = codes "INCIDENT_OPENED"
type_text incident_resolved = codes "INCIDENT_RESOLVED"
type_text ssl_expiring = codes "SSL_EXPIRING"
type_text ssl_expired = codes "SSL_EXPIRED"

-- `ChannelAdapter`
pub record ChannelAdapter : Type 0 where
  pub type : ChannelType
  pub validate_target : Text → App (Unit {0})
  pub send_message : Text → ChannelMessage → App (Unit {0})

abbrev pub emoji_of : ChannelMessage → Text
emoji_of message =
    if message.is_recovery then codes ":white_check_mark:" else codes ":rotating_light:"

abbrev pub mrkdwn : Text → Json
mrkdwn s = json_object (
    entry (codes "type") (json_text (codes "mrkdwn"))
      (entry (codes "text") (json_text s) no_fields))

unfoldable pub slack_payload : ChannelMessage → Json
unfolding iso_string
slack_payload message = json_object (
    entry (codes "text") (json_text (emoji_of message ++ codes " " ++ message.title)) (
      entry (codes "blocks")
        (json_array (
          element
            (json_object (
              entry (codes "type") (json_text (codes "section")) (
                entry (codes "text")
                  (mrkdwn (
                    emoji_of message
                    ++ codes " *"
                    ++ message.title
                    ++ codes "*"
                    ++ 10 ∷ message.body))
                  no_fields)))
            (element
              (json_object (
                entry (codes "type") (json_text (codes "context")) (
                  entry (codes "elements")
                    (json_array (
                      element
                        (mrkdwn (
                          codes "<"
                          ++ message.site_url
                          ++ codes "|"
                          ++ message.site_name
                          ++ codes "> · "
                          ++ iso_string message.occurred_at))
                        no_items))
                    no_fields)))
              no_items)))
        no_fields))

-- `message.dashboardUrl ?? message.siteUrl`
abbrev pub link_of : ChannelMessage → Text
link_of message = or_else message.dashboard_url message.site_url

unfoldable pub discord_payload : ChannelMessage → Json
unfolding iso_string
discord_payload message = json_object (
    entry (codes "username") (json_text (codes "PulseKeeper")) (
      entry (codes "embeds")
        (json_array (
          element
            (json_object (
              entry (codes "title") (json_text message.title) (
                entry (codes "description") (json_text message.body) (
                  entry (codes "url") (json_text (link_of message)) (
                    entry (codes "color")
                      (json_number (if message.is_recovery then 0x22c55e else 0xef4444))
                      (entry (codes "fields")
                        (json_array (
                          element
                            (json_object (
                              entry (codes "name") (json_text (codes "Website")) (
                                entry (codes "value") (json_text message.site_name)
                                  (entry (codes "inline") (json_flag true) no_fields))))
                            no_items))
                        (entry (codes "timestamp") (json_text (iso_string message.occurred_at))
                          no_fields)))))))
            no_items))
        no_fields))

unfoldable pub webhook_payload : ChannelMessage → Json
unfolding iso_string
webhook_payload message = json_object (
    entry (codes "event") (json_text (type_text message.type)) (
      entry (codes "title") (json_text message.title) (
        entry (codes "message") (json_text message.body) (
          entry (codes "site")
            (json_object (
              entry (codes "name") (json_text message.site_name)
                (entry (codes "url") (json_text message.site_url) no_fields)))
            (entry (codes "occurredAt") (json_text (iso_string message.occurred_at))
              (entry (codes "source") (json_text (codes "pulsekeeper")) no_fields))))))

abbrev pub smtp_missing : AppError
smtp_missing =
    bad_request
      (codes "Email notifications are not available because SMTP is not configured on this server")

-- `EMAIL_PATTERN`: after the first character of the part behind the @, a dot with two characters
-- after it at least.
unfoldable pub has_dot_and_two : Text → Bool
has_dot_and_two [] = false
has_dot_and_two (c ∷ s) = c == 46 && leb 2 (length s) || has_dot_and_two s

unfoldable pub is_domain : Text → Bool
unfolding has_dot_and_two
is_domain [] = false
is_domain (c ∷ s) = not (any (λ x. x == 64) (c ∷ s)) && has_dot_and_two s

-- The text before the first @ and that after it.
unfoldable pub split_at_sign : Text → Option (Text × Text)
split_at_sign [] = none
split_at_sign (c ∷ s) =
    let rest = split_at_sign s in
    if c == 64 then some ([], s) else elim rest [ none ↦ none | some (a, b) ↦ some (c ∷ a, b) ]

unfoldable pub is_email_address : Text → Bool
unfolding is_domain split_at_sign is_space
is_email_address s =
    not (any is_space s)
    && elim (split_at_sign s) [ none ↦ false | some (a, b) ↦ not (is_empty a) && is_domain b ]

unfoldable pub escape_html : Text → Text
unfolding replace_each
escape_html value = replace_each 34 (codes "&quot;") (
    replace_each 62 (codes "&gt;")
      (replace_each 60 (codes "&lt;") (replace_each 38 (codes "&amp;") value)))

-- `sendMail({ ... })`'s argument.
unfoldable pub mail_of : Text → Text → ChannelMessage → Mail
unfolding iso_string escape_html
mail_of sender target message = record {
  sender = sender;
  recipient = target;
  subject = message.title;
  plain =
      message.title
      ++ 10 ∷ 10 ∷ message.body
      ++ 10 ∷ 10 ∷ message.site_name
      ++ codes " — "
      ++ message.site_url
      ++ 10 ∷ iso_string message.occurred_at
      ++ 10 ∷ 10 ∷ link_of message;
  html_texts =
      (if message.is_recovery then codes "#16a34a" else codes "#dc2626")
      ∷ escape_html message.title
      ∷ escape_html message.body
      ∷ escape_html message.site_name
      ∷ escape_html message.site_url
      ∷ iso_string message.occurred_at
      ∷ escape_html (link_of message)
      ∷ [];
}

-- The relay is given a mail.
unfoldable pub send_mail : Mail → App (Unit {0})
send_mail mail =
    act (λ w. record w { moment = suc w.moment; contacts = mailed mail ∷ w.contacts })
      (λ w. elim (w.env.relay w.moment mail) [ none ↦ ret tt | some e ↦ throw e ])

module _ (config : Config) where
  unfoldable pub send_by_email : Text → ChannelMessage → App (Unit {0})
  send_by_email target message = elim config.smtp_from [
    | none ↦ throw (app_error smtp_missing)
    | some sender ↦ send_mail (mail_of sender target message)
  ]

  unfoldable pub validate_email : Text → App (Unit {0})
  validate_email target =
      if not (is_some config.smtp_from)
      then throw (app_error smtp_missing)
      else if not (is_email_address target)
      then throw (app_error (bad_request (codes "Enter a valid email address")))
      else ret tt

  abbrev webhook_like : ChannelType → Option Text → (ChannelMessage → Json) → ChannelAdapter
  webhook_like type suffix payload = record {
    type = type;
    validate_target = λ target. assert_webhook_target_allowed config.web target suffix;
    send_message = λ target message. post_json config.web target (payload message);
  }

  unfoldable pub get_adapter : ChannelType → ChannelAdapter
  get_adapter slack = webhook_like slack (some (codes "slack.com")) slack_payload
  get_adapter discord = webhook_like discord (some (codes "discord.com")) discord_payload
  get_adapter webhook = webhook_like webhook none webhook_payload
  get_adapter email = record {
    type = email;
    validate_target = validate_email;
    send_message = send_by_email;
  }
