-- ===== src/Channels/Tenants.antt =====
-- What a user's calls do to the channels of others.
use pulse_keeper.Prelude.{ap, none, refl, ℕ, ◌&&◌, ◌==◌, ◌≡◌}
use pulse_keeper.Async.{ret, run, thrown}
use pulse_keeper.Store.{Config, World}
use pulse_keeper.Store.Calls.{IsReliable, pass_time, query, run-missing}
use pulse_keeper.Sites.Tenants.{remove_first-none}
use pulse_keeper.Channels.{
  UpdateChannelInput, channel_of_user, delete_channel, no_channel, test_channel, test_found,
  update_channel, update_found_channel,
}

-- In a world whose database answers: of a channel that is missing or another user's, updating,
-- deleting and testing all end with the same error, change nothing and send nothing.
pub foreign_channel_refused :
    (config : Config) (user_id channel_id : ℕ) (input : UpdateChannelInput) (w : World)
    → IsReliable w
    → channel_of_user user_id channel_id w.db ≡ none
    → (run (update_channel config user_id channel_id input) w ≡ (thrown no_channel, pass_time w))
      × (run (delete_channel config user_id channel_id) w ≡ (thrown no_channel, pass_time w))
      × (run (test_channel config user_id channel_id) w ≡ (thrown no_channel, pass_time w))
unfolding update_channel delete_channel test_channel query
foreign_channel_refused config user_id channel_id input w reliable absent = (
  run-missing no_channel (λ d. d) (channel_of_user user_id channel_id)
      (update_found_channel config input) w reliable absent refl,
  run-missing no_channel _ (channel_of_user user_id channel_id) (λ _. ret tt) w reliable absent
      (ap (λ cs. record w.db { channels = cs })
        (remove_first-none (λ c. c.id == channel_id && c.user_id == user_id) w.db.channels absent)),
  run-missing no_channel (λ d. d) (channel_of_user user_id channel_id) (test_found config) w
      reliable absent refl,
)
