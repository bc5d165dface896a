-- ===== src/Adapters/Contacts.antt =====
-- What a transport asks of the outside when it sends a message.
use pulse_keeper.Prelude.{Option, Text, none, some, suc, ◌∷◌}
use pulse_keeper.Domain.{ChannelType, discord, email, slack, webhook}
use pulse_keeper.Errors.{Thrown, app_error}
use pulse_keeper.Async.{Result, from_result, ret, returned, throw, thrown}
use pulse_keeper.Async.Rules.{Keeps, Keeps->>=_of}
use pulse_keeper.Web.{Json, Mail, Url}
use pulse_keeper.Store.{ChannelMessage, Config, World, mailed, posted}
use pulse_keeper.Store.Calls.{pass_time}
use pulse_keeper.Guard.{assert_url_allowed}
use pulse_keeper.Guard.Urls.{IsAllowedUrl}
use pulse_keeper.Guard.Contacts.{HasAllowedUrl, Keeps-assert_url_allowed, assert_url_allowed-url}
use pulse_keeper.Posting.{post_json, post_request}
use pulse_keeper.Adapters.{
  discord_payload, get_adapter, mail_of, send_by_email, send_mail, slack_payload, smtp_missing,
  webhook_payload,
}

-- Over any predicate on the world that time, a post to an allowed URL and a mail keep.
module _ {ℓ} (P : World → Type ℓ) (config : Config) (timeless : (w : World) → P w → P (pass_time w))
    (posts : (w : World) (url : Url) (body : Json)
      → IsAllowedUrl config.web url
      → P w
      → P (record w { moment = suc w.moment; contacts = posted url body ∷ w.contacts }))
    (mails : (w : World) (mail : Mail)
      → P w
      → P (record w { moment = suc w.moment; contacts = mailed mail ∷ w.contacts })) where
  Keeps-settled : {A : Type 0} (r : Result A) → Keeps P (from_result {W = World} r)
  Keeps-settled (returned a) = tt
  Keeps-settled (thrown e) = tt

  Keeps-post_request :
      (url : Url) (body : Json)
      → IsAllowedUrl config.web url
      → Keeps P (post_request config.web url body)
  unfolding post_request
  Keeps-post_request url body a = λ w. (posts w url body a, Keeps-settled _)

  pub Keeps-post_json :
      (raw_url : Text) (payload : Json) → Keeps P (post_json config.web raw_url payload)
  unfolding post_json
  Keeps-post_json raw_url payload =
      Keeps->>=_of _ (HasAllowedUrl config.web) (assert_url_allowed config.web raw_url) _
        (Keeps-assert_url_allowed config.web P timeless raw_url)
        (assert_url_allowed-url config.web raw_url)
        (λ allowed a. Keeps-post_request allowed.url payload a)

  Keeps-send_mail : (mail : Mail) → Keeps P (send_mail mail)
  unfolding send_mail
  Keeps-send_mail mail = λ w. (mails w mail, answered (w.env.relay w.moment mail))
    where
      answered :
          (o : Option Thrown)
          → Keeps {W = World} {A = Unit {0}} P (elim o [ none ↦ ret tt | some e ↦ throw e ])
      answered none = tt
      answered (some e) = tt

  Keeps-send_by_email :
      (target : Text) (message : ChannelMessage) → Keeps P (send_by_email config target message)
  unfolding send_by_email
  Keeps-send_by_email target message = configured config.smtp_from
    where
      configured :
          (o : Option Text)
          → Keeps {W = World} {A = Unit {0}} P (elim o [
            | none ↦ throw (app_error smtp_missing)
            | some sender ↦ send_mail (mail_of sender target message)
          ])
      configured none = tt
      configured (some sender) = Keeps-send_mail (mail_of sender target message)

  pub Keeps-send_message :
      (type : ChannelType) (target : Text) (message : ChannelMessage)
      → Keeps P ((get_adapter config type).send_message target message)
  unfolding get_adapter
  Keeps-send_message slack target message = Keeps-post_json target (slack_payload message)
  Keeps-send_message discord target message = Keeps-post_json target (discord_payload message)
  Keeps-send_message webhook target message = Keeps-post_json target (webhook_payload message)
  Keeps-send_message email target message = Keeps-send_by_email target message
