-- ===== src/Notify/Delivery.antt =====
-- What a notification changes: the feed and the channels, and nothing else of the database.
use pulse_keeper.Prelude.{All, Bool, List, [], false, if◌then◌else◌, map, true, ℕ, ◌∷◌}
use pulse_keeper.Errors.{Thrown, message_of}
use pulse_keeper.Async.{ret}
use pulse_keeper.Async.Rules.{Keeps, Keeps->>=, Keeps-try_catch}
use pulse_keeper.Async.Parallel.{Keeps-all_of, all_of}
use pulse_keeper.Store.{Channel, ChannelMessage, Config, Contact, Db}
use pulse_keeper.Store.Calls.{
  Keeps-db_call, Keeps-query, Keeps-read_clock, Keeps-validate, Keeps-write, OnDb, db_call, query,
  read_clock, validate, write,
}
use pulse_keeper.Guard.Contacts.{ContactRules}
use pulse_keeper.Adapters.Contacts.{Keeps-send_message}
use pulse_keeper.Notify.{
  NotificationEvent, deliver_to_channel, disable, dispatch, find_and_update_channel,
  insert_notification, is_exhausted, is_muted, mark_delivered, mark_failed, notify,
  record_and_dispatch, record_failure, record_success, send, to_channel_message,
  update_channel_by_id,
}

-- Over any predicate on the database that a change of a channel keeps, and any on the contacts that
-- allowed requests and mails keep.
module _ {ℓ} (P : Db → Type ℓ) (C : List Contact → Type 0) (config : Config)
    (rules : ContactRules config.web C)
    (channelled : (id : ℕ) (f : Channel → Channel) (d : Db)
      → P d
      → P (update_channel_by_id id f d)) where
  Keeps-send :
      (channel : Channel) (message : ChannelMessage)
      → Keeps (OnDb P C) (send config channel message)
  unfolding send
  Keeps-send channel message =
      Keeps-send_message (OnDb P C) config (λ w p. p)
        (λ w url body a p. (p.0, rules.posts url body w.contacts a p.1))
        (λ w mail p. (p.0, rules.mails mail w.contacts p.1)) channel.type channel.target message

  Keeps-record_failure : (id : ℕ) (e : Thrown) → Keeps (OnDb P C) (record_failure id e)
  unfolding record_failure find_and_update_channel
  Keeps-record_failure id e = Keeps->>= _ read_clock _ (Keeps-read_clock P C) λ used.
      Keeps->>= _ (db_call _ _) _
        (Keeps-db_call P C _ _ (channelled id (mark_failed used (message_of e))) (λ d. tt))
        (λ updated.
          Keeps->>= _ (if is_exhausted updated then _ else ret tt) _
            (switched (is_exhausted updated)) (λ _. tt))
    where
      switched :
          (b : Bool)
          → Keeps (OnDb P C) (if b then write (update_channel_by_id id disable) else ret tt)
      switched true = Keeps-write P C _ (channelled id disable)
      switched false = tt

  Keeps-record_success : (id : ℕ) → Keeps (OnDb P C) (record_success id)
  unfolding record_success
  Keeps-record_success id = Keeps->>= _ read_clock _ (Keeps-read_clock P C) λ used.
      Keeps->>= _ read_clock _ (Keeps-read_clock P C) λ succeeded.
        Keeps->>= _ (write _) _ (Keeps-write P C _ (channelled id (mark_delivered used succeeded)))
          (λ _. tt)

  Keeps-deliver_to_channel :
      (message : ChannelMessage) (channel : Channel)
      → Keeps (OnDb P C) (deliver_to_channel config message channel)
  unfolding deliver_to_channel
  Keeps-deliver_to_channel message channel =
      Keeps-try_catch _ _ _
        (Keeps->>= _ (send config channel message) _ (Keeps-send channel message)
          (λ _. Keeps-record_success channel.id))
        (Keeps-record_failure channel.id)

  Keeps-deliveries :
      (message : ChannelMessage) (cs : List Channel)
      → All (Keeps (OnDb P C)) (map (deliver_to_channel config message) cs)
  Keeps-deliveries message [] = tt
  Keeps-deliveries message (c ∷ cs) =
      (Keeps-deliver_to_channel message c, Keeps-deliveries message cs)

  pub Keeps-dispatch :
      (event : NotificationEvent) (cs : List Channel) → Keeps (OnDb P C) (dispatch config event cs)
  unfolding dispatch
  Keeps-dispatch event [] = tt
  Keeps-dispatch event (c ∷ cs) = Keeps->>= _ read_clock _ (Keeps-read_clock P C) λ at.
      Keeps->>= _ (all_of _ _) _
        (Keeps-all_of _ _ _ (Keeps-deliveries (to_channel_message config event at) (c ∷ cs)))
        (λ _. tt)

-- The same, with a predicate that a new notification keeps too.
module _ {ℓ} (P : Db → Type ℓ) (C : List Contact → Type 0) (config : Config)
    (rules : ContactRules config.web C)
    (noticed : (e : NotificationEvent) (at : ℕ) (d : Db) → P d → P (insert_notification e at d))
    (channelled : (id : ℕ) (f : Channel → Channel) (d : Db)
      → P d
      → P (update_channel_by_id id f d)) where
  pub Keeps-notify : (event : NotificationEvent) → Keeps (OnDb P C) (notify config event)
  unfolding notify record_and_dispatch
  Keeps-notify event =
      Keeps->>= _ (query _) _ (Keeps-query P C _) λ settings. muted (is_muted event.type settings)
    where
      muted : (b : Bool) → Keeps (OnDb P C) (if b then ret tt else record_and_dispatch config event)
      muted true = tt
      muted false = Keeps->>= _ (validate _) _ (Keeps-validate P C _) λ _.
          Keeps->>= _ read_clock _ (Keeps-read_clock P C) λ at.
            Keeps->>= _ (write _) _ (Keeps-write P C _ (noticed event at)) λ _.
              Keeps->>= _ (query _) _ (Keeps-query P C _)
                (Keeps-dispatch P C config rules channelled event)
