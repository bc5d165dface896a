-- ===== src/Channels/Stored.antt =====
-- Which channels the creation of a channel stores.
use pulse_keeper.Prelude.{
  All, All-append, Bool-cases, Option, Text, any, arith, codes, ends_with, false, inl, inr, is_some,
  is_space, leb, none, some, text_eq, trim, trim-same, true, ℕ, ◌≡◌,
}
use pulse_keeper.Domain.{ChannelType, discord, email, slack, webhook}
use pulse_keeper.Async.Rules.{Keeps, Keeps->>=, Keeps->>=_of, Returns, Returns-weaken}
use pulse_keeper.Web.{Url}
use pulse_keeper.Store.{Channel, Config, Db, World}
use pulse_keeper.Store.Calls.{
  Anything, Keeps-db_call, Keeps-query, Keeps-read_clock, Keeps-validate, OnDb, pass_time, query,
  read_clock, validate,
}
use pulse_keeper.Guard.{assert_url_allowed}
use pulse_keeper.Guard.Contacts.{Keeps-assert_url_allowed}
use pulse_keeper.Posting.{assert_webhook_target_allowed, judge_target}
use pulse_keeper.Posting.Targets.{IsSecure, IsWebhookTarget, Returns-assert_webhook_target_allowed}
use pulse_keeper.Adapters.{get_adapter, is_email_address, validate_email}
use pulse_keeper.Channels.{
  CreateChannelInput, create_channel, create_checked, insert_channel, max_channels_per_user,
  new_channel,
}

module _ (config : Config) where
  -- A URL that parses, over https, which the guard allows, to a host with this suffix.
  abbrev pub IsWebhookUrl : Option Text → Text → Type 0
  IsWebhookUrl suffix target =
      (url : Url) × (config.web.parse_url target ≡ some url) × IsSecure config.web suffix url

  -- What the adapter of a type lets be stored.
  abbrev pub IsCheckedTarget : ChannelType → Text → Type 0
  IsCheckedTarget slack target = IsWebhookUrl (some (codes "slack.com")) target
  IsCheckedTarget discord target = IsWebhookUrl (some (codes "discord.com")) target
  IsCheckedTarget webhook target = IsWebhookUrl none target
  IsCheckedTarget email target = is_email_address target ≡ true

  -- Every stored channel has a target that its adapter has checked.
  abbrev pub ChannelsChecked : Db → Type 0
  ChannelsChecked d = All (λ c. IsCheckedTarget c.type c.target) d.channels

  Returns-webhook :
      (suffix : Option Text) (target : Text)
      → Returns
          (λ _. IsWebhookUrl suffix (trim target))
          (assert_webhook_target_allowed config.web target suffix)
  Returns-webhook suffix target =
      Returns-weaken (λ _. IsWebhookTarget config.web target suffix) _ _ (λ _ t. (t.0, t.1.2, t.2))
        (Returns-assert_webhook_target_allowed config.web target suffix)

  address-trimmed :
      (target : Text) → is_email_address target ≡ true → is_email_address (trim target) ≡ true
  unfolding is_email_address
  address-trimmed target h =
      let solid : any is_space target ≡ false = ground (arith, h) in rw (trim-same target solid) h

  Returns-validate_email :
      (target : Text)
      → Returns (λ _. is_email_address (trim target) ≡ true) (validate_email config target)
  unfolding validate_email
  Returns-validate_email target = elim (Bool-cases (is_some config.smtp_from)) [
    | inr e ↦ rw e tt
    | inl e ↦ elim (Bool-cases (is_email_address target)) [
      | inr bad ↦ rw (e, bad) tt
      | inl good ↦ rw (e, good) (address-trimmed target good)
    ]
  ]

  pub Returns-validate_target :
      (type : ChannelType) (target : Text)
      → Returns
          (λ _. IsCheckedTarget type (trim target))
          ((get_adapter config type).validate_target target)
  unfolding get_adapter
  Returns-validate_target slack target = Returns-webhook (some (codes "slack.com")) target
  Returns-validate_target discord target = Returns-webhook (some (codes "discord.com")) target
  Returns-validate_target webhook target = Returns-webhook none target
  Returns-validate_target email target = Returns-validate_email target

  module _ {ℓ} (P : World → Type ℓ) (timeless : (w : World) → P w → P (pass_time w)) where
    Keeps-judge_target :
        (suffix : Option Text) (url : Url) → Keeps P (judge_target config.web suffix url)
    unfolding judge_target
    Keeps-judge_target none url = elim (Bool-cases (text_eq url.protocol (codes "https:"))) [
      | inl e ↦ rw e tt
      | inr e ↦ rw e tt
    ]
    Keeps-judge_target (some s) url = elim (Bool-cases (text_eq url.protocol (codes "https:"))) [
      | inl e ↦ elim (Bool-cases (ends_with url.hostname s)) [
        | inl h ↦ rw (e, h) tt
        | inr h ↦ rw (e, h) tt
      ]
      | inr e ↦ rw e tt
    ]

    Keeps-webhook :
        (target : Text) (suffix : Option Text)
        → Keeps P (assert_webhook_target_allowed config.web target suffix)
    unfolding assert_webhook_target_allowed
    Keeps-webhook target suffix =
        Keeps->>= P (assert_url_allowed config.web target) _
          (Keeps-assert_url_allowed config.web P timeless target)
          (λ allowed. Keeps-judge_target suffix allowed.url)

    Keeps-validate_email : (target : Text) → Keeps P (validate_email config target)
    unfolding validate_email
    Keeps-validate_email target = elim (Bool-cases (is_some config.smtp_from)) [
      | inr e ↦ rw e tt
      | inl e ↦ elim (Bool-cases (is_email_address target)) [
        | inr bad ↦ rw (e, bad) tt
        | inl good ↦ rw (e, good) tt
      ]
    ]

    -- The check of a target changes nothing but the moment.
    pub Keeps-validate_target :
        (type : ChannelType) (target : Text)
        → Keeps P ((get_adapter config type).validate_target target)
    unfolding get_adapter
    Keeps-validate_target slack target = Keeps-webhook target (some (codes "slack.com"))
    Keeps-validate_target discord target = Keeps-webhook target (some (codes "discord.com"))
    Keeps-validate_target webhook target = Keeps-webhook target none
    Keeps-validate_target email target = Keeps-validate_email target

  insert_channel-ChannelsChecked :
      (make : ℕ → Channel) (d : Db)
      → ((id : ℕ) → IsCheckedTarget (make id).type (make id).target)
      → ChannelsChecked d
      → ChannelsChecked (insert_channel make d)
  unfolding insert_channel
  insert_channel-ChannelsChecked make d h v =
      All-append (λ (c : Channel). IsCheckedTarget c.type c.target) d.channels _ v (h d.next_id, tt)

  Keeps-create_checked :
      (user_id : ℕ) (input : CreateChannelInput)
      → Keeps (OnDb ChannelsChecked Anything) (create_checked config user_id input)
  unfolding create_checked new_channel
  Keeps-create_checked user_id input =
      Keeps->>=_of _ (λ _. IsCheckedTarget input.type (trim input.target))
        ((get_adapter config input.type).validate_target input.target) _
        (Keeps-validate_target _ (λ w v. v) input.type input.target)
        (Returns-validate_target input.type input.target)
        λ _ checked. Keeps->>= _ read_clock _ (Keeps-read_clock ChannelsChecked Anything) λ at.
          Keeps->>= _ (validate _) _ (Keeps-validate ChannelsChecked Anything _) λ _.
            Keeps-db_call ChannelsChecked Anything _ _
              (λ d. insert_channel-ChannelsChecked _ d (λ id. checked)) (λ d. tt)

  -- If every stored channel has a target that the adapter of its type accepts (an email address, or
  -- an https URL that the guard allows with the host that the type expects), this holds at each act
  -- of the creation of a channel too, whatever is asked for.
  pub create_channel-ChannelsChecked :
      (user_id : ℕ) (input : CreateChannelInput)
      → Keeps (OnDb ChannelsChecked Anything) (create_channel config user_id input)
  unfolding create_channel
  create_channel-ChannelsChecked user_id input =
      Keeps->>= _ (query _) _ (Keeps-query ChannelsChecked Anything _) λ existing.
        elim (Bool-cases (leb max_channels_per_user existing)) [
          | inl full ↦ rw full tt
          | inr room ↦ rw room (Keeps-create_checked user_id input)
        ]
