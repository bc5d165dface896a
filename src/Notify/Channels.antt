-- ===== src/Notify/Channels.antt =====
-- What a delivery leaves in the document of its channel.
use pulse_keeper.Prelude.{
  Bool, Bool-cases, List, Text, [], ap, arith, false, find, if◌then◌else◌, inl, inr, ltb, refl,
  some, suc, take, true, update_first, ℕ, ◌&&◌, ◌+◌, ◌==◌, ◌∙◌, ◌∷◌, ◌≡◌,
}
use pulse_keeper.Errors.{Thrown, message_of}
use pulse_keeper.Async.{ret, returned, run, thrown, ◌>>=◌}
use pulse_keeper.Async.Rules.{run->>=, run-Keeps, run-try_catch}
use pulse_keeper.Store.{Channel, ChannelMessage, Config, Db, World}
use pulse_keeper.Store.Calls.{IsReliable, pass_time, read_clock, run-db_call_then, write}
use pulse_keeper.Adapters.Contacts.{Keeps-send_message}
use pulse_keeper.Notify.{
  channel_by_id, deliver_to_channel, disable, find_and_update_channel, is_exhausted, mark_failed,
  record_failure, record_success, send, update_channel_by_id,
}

find-update_first :
    (id : ℕ) (f : Channel → Channel) (cs : List Channel) (c : Channel)
    → ((x : Channel) → (f x).id ≡ x.id)
    → find (λ x. x.id == id) cs ≡ some c
    → find (λ x. x.id == id) (update_first (λ x. x.id == id) f cs) ≡ some (f c)
find-update_first id f [] c same h = cc
find-update_first id f (x ∷ xs) c same h = elim (Bool-cases (x.id == id)) [
  | inl e ↦
      let head : x ≡ c = ground (arith, e, h) in
      let hit : ((f x).id == id) ≡ true = rw (same x) e in rw (e, hit) (ap (λ y. some (f y)) head)
  | inr e ↦ rw (e, e) (find-update_first id f xs c same (ground (arith, e, h)))
]

mark_failed-id : (used : ℕ) (reason : Text) (c : Channel) → (mark_failed used reason c).id ≡ c.id
unfolding mark_failed
mark_failed-id used reason c = refl

-- A channel after a failed delivery: one failure more, and enabled only while there are fewer than
-- ten in a row.
unfoldable pub after_failure : ℕ → Text → Channel → Channel
after_failure used reason c = record c {
  last_used_at = some used;
  last_error = some (take 300 reason);
  consecutive_failures = c.consecutive_failures + 1;
  enabled = c.enabled && ltb (c.consecutive_failures + 1) 10;
}

module _ (w : World) (id : ℕ) (c : Channel) where
  switched_off :
      (b : Bool) (d : Db) (n : ℕ)
      → IsReliable w
      → (moment : ℕ) × (run
            (◌>>=◌ {A = Unit {0}}
              (if b then write (update_channel_by_id id disable) else ret tt)
              (λ _. ret false))
            (record w { moment = n; db = d })
          ≡ (
            returned false,
            record w { moment = moment; db = if b then update_channel_by_id id disable d else d },
          ))
  unfolding write run ◌>>=◌
  switched_off false d n reliable = (n, refl)
  switched_off true d n reliable = (
    suc n,
    run-db_call_then (update_channel_by_id id disable) (λ _. ret tt) (λ _. ret false)
        (record w { moment = n; db = d }) reliable,
  )

  run-record_failure :
      (e : Thrown)
      → IsReliable w
      → channel_by_id id w.db ≡ some c
      → let f = mark_failed (w.env.clock w.moment) (message_of e) in
        (moment : ℕ) × (run (record_failure id e) w ≡ (
          returned false,
          record w {
            moment = moment;
            db =
                if is_exhausted (some (f c))
                then update_channel_by_id id disable (update_channel_by_id id f w.db)
                else update_channel_by_id id f w.db;
          },
        ))
  unfolding record_failure find_and_update_channel read_clock run ◌>>=◌
  run-record_failure e reliable found =
      let f = mark_failed (w.env.clock w.moment) (message_of e) in
      let (moment, ended) =
        switched_off (is_exhausted (some (f c))) (update_channel_by_id id f w.db)
          (suc (suc w.moment)) reliable in
      let there_now : channel_by_id id (update_channel_by_id id f w.db) ≡ some (f c) =
        find-update_first id f w.db.channels c
          (mark_failed-id (w.env.clock w.moment) (message_of e)) found in
      (
        moment,
        run-db_call_then (update_channel_by_id id f)
              (λ d. ret (channel_by_id id (update_channel_by_id id f d))) _ (pass_time w) reliable
            ∙ rw there_now ended,
      )

  recorded_channel :
      (used : ℕ) (reason : Text)
      → channel_by_id id w.db ≡ some c
      → channel_by_id id (
          if is_exhausted (some (mark_failed used reason c))
          then update_channel_by_id id disable
              (update_channel_by_id id (mark_failed used reason) w.db)
          else update_channel_by_id id (mark_failed used reason) w.db)
        ≡ some (after_failure used reason c)
  unfolding mark_failed after_failure
  recorded_channel used reason found =
      let there_now =
        find-update_first id (mark_failed used reason) w.db.channels c (mark_failed-id used reason)
          found in
      elim (Bool-cases (is_exhausted (some (mark_failed used reason c)))) [
        | inl over ↦
            let off : (c.enabled && ltb (c.consecutive_failures + 1) 10) ≡ false =
              ground (arith, over) in
            rw over (
              find-update_first id disable
                (update_first (λ x. x.id == id) (mark_failed used reason) w.db.channels)
                (mark_failed used reason c) (λ x. refl) there_now
              ∙ rw off refl)
        | inr under ↦
            let same : (c.enabled && ltb (c.consecutive_failures + 1) 10) ≡ c.enabled =
              ground (arith, under) in
            rw under (there_now ∙ rw same refl)
      ]

module _ (config : Config) (message : ChannelMessage) (channel : Channel) (w : World) where
  -- The world in which a delivery has been asked for.
  abbrev pub once_sent : World
  once_sent = (run (send config channel message) w).1

  -- Sending changes neither the database nor what answers the server.
  once_sent-same : (once_sent.db ≡ w.db) × (once_sent.env ≡ w.env)
  unfolding send
  once_sent-same =
      run-Keeps (λ v. (v.db ≡ w.db) × (v.env ≡ w.env)) (send config channel message) w
        (Keeps-send_message (λ v. (v.db ≡ w.db) × (v.env ≡ w.env)) config (λ v p. p)
          (λ v url body a p. p) (λ v mail p. p) channel.type channel.target message)
        (refl, refl)

  run-failed_delivery :
      (e : Thrown)
      → (run (send config channel message) w).0 ≡ thrown e
      → run (deliver_to_channel config message channel) w
        ≡ run (record_failure channel.id e) once_sent
  unfolding deliver_to_channel
  run-failed_delivery e failing =
      rw
        (
          run-try_catch (send config channel message >>= λ _. record_success channel.id)
              (record_failure channel.id) w,
          run->>= (send config channel message) (λ _. record_success channel.id) w,
          failing,
          run->>= (send config channel message) (λ _. record_success channel.id) w,
          failing,
        )
        refl

  -- In a world whose database answers: if the channel's adapter throws, for whatever reason, the
  -- delivery reports a failure without throwing, and the channel's document then has the error, one
  -- failure more, and is enabled only if it was and fewer than ten deliveries in a row have failed.
  pub failed_delivery_counted :
      (stored : Channel) (e : Thrown)
      → IsReliable w
      → channel_by_id channel.id w.db ≡ some stored
      → (run (send config channel message) w).0 ≡ thrown e
      → ((run (deliver_to_channel config message channel) w).0 ≡ returned false)
        × (channel_by_id channel.id (run (deliver_to_channel config message channel) w).1.db
            ≡ some (after_failure (once_sent.env.clock once_sent.moment) (message_of e) stored))
  failed_delivery_counted stored e reliable found failing =
      let (same_db, same_env) = once_sent-same in
      let answering : IsReliable once_sent = rw same_env reliable in
      let there : channel_by_id channel.id once_sent.db ≡ some stored = rw same_db found in
      let (moment, ended) = run-record_failure once_sent channel.id stored e answering there in
      let whole = run-failed_delivery e failing ∙ ended in
      (
        ap (λ r. r.0) whole,
        ap (λ r. channel_by_id channel.id r.1.db) whole
            ∙ recorded_channel once_sent channel.id stored (once_sent.env.clock once_sent.moment)
                (message_of e) there,
      )
