-- ===== src/Channels/Changed.antt =====
-- What creations, updates and deletions of channels do to the targets in the database.
use pulse_keeper.Prelude.{
  ==_iff, All, All-map, Bool, Bool-cases, List, Option, Text, [], all, any, ap, arith, false, find,
  inl, inr, none, refl, some, sym, text_eq, text_eq_refl, trim, true, update_first, ℕ, ◌&&◌, ◌==◌,
  ◌∙◌, ◌∷◌, ◌≡◌, ◌⊎◌,
}
use pulse_keeper.Domain.{ChannelType}
use pulse_keeper.Async.{◌>>=◌}
use pulse_keeper.Async.Rules.{
  Holds, Holds->>=_of, Keeps, Keeps->>=, Keeps->>=_of, Keeps-Holds, Returns,
}
use pulse_keeper.Store.{Channel, Config, Db, World}
use pulse_keeper.Store.Calls.{
  Anything, Holds-query, Keeps-db_call, Keeps-validate, OnDb, db_call, found_or, query, validate,
}
use pulse_keeper.Sites.Service.{remove_first}
use pulse_keeper.Channels.{
  CreateChannelInput, UpdateChannelInput, channel_of_user, create_channel, delete_channel,
  edit_channel, new_target, no_channel, rename, retarget, save_channel, save_channel_fields, switch,
  update_channel, update_found_channel, validate_new_target,
}
use pulse_keeper.Channels.Stored.{
  ChannelsChecked, IsCheckedTarget, Keeps-validate_target, Returns-validate_target,
  create_channel-ChannelsChecked,
}

module _ {A : Type 0} (P : A → Type 0) (p : A → Bool) where
  All-update_hit :
      (f : A → A) (xs : List A)
      → ((x : A) → p x ≡ true → P x → P (f x))
      → All P xs
      → All P (update_first p f xs)
  All-update_hit f [] h all = tt
  All-update_hit f (x ∷ xs) h all = elim (Bool-cases (p x)) [
    | inl e ↦ rw e (h x e all.0, all.1)
    | inr e ↦ rw e (all.0, All-update_hit f xs h all.1)
  ]

  All-remove_first : (xs : List A) → All P xs → All P (remove_first p xs)
  All-remove_first [] all = tt
  All-remove_first (x ∷ xs) all = elim (Bool-cases (p x)) [
    | inl e ↦ rw e all.1
    | inr e ↦ rw e (all.0, All-remove_first xs all.1)
  ]

  All-found : (xs : List A) (x : A) → All P xs → find p xs ≡ some x → P x
  All-found [] x all h = cc
  All-found (y ∷ ys) x all h = elim (Bool-cases (p y)) [
    | inl e ↦
        let found : some y ≡ some x = ground (arith, e, h) in
        let same : y ≡ x = cc in rw⁻¹ same all.0
    | inr e ↦ All-found ys x all.1 (ground (arith, e, h))
  ]

module _ (config : Config) (types : ℕ → ChannelType) where
  -- A channel with the type that `types` gives to its id, and a target that its adapter has checked.
  abbrev pub IsTyped : Channel → Type 0
  IsTyped c = (c.type ≡ types c.id) × IsCheckedTarget config c.type c.target

  abbrev pub ChannelsTyped : Db → Type 0
  ChannelsTyped d = All IsTyped d.channels

  abbrev Typed : World → Type 0
  Typed = OnDb ChannelsTyped Anything

  -- A new target, if there is one, is one that the adapter has checked.
  abbrev IsNewTarget : ChannelType → Option Text → Type 0
  IsNewTarget type none = Unit
  IsNewTarget type (some t) = IsCheckedTarget config type (trim t)

  switched-target :
      (e : Option Bool) (n : Option Text) (c : Channel) → (switch e (rename n c)).target ≡ c.target
  unfolding switch rename
  switched-target none none c = refl
  switched-target none (some n) c = refl
  switched-target (some false) none c = refl
  switched-target (some false) (some n) c = refl
  switched-target (some true) none c = refl
  switched-target (some true) (some n) c = refl

  -- The target of an edited channel: as it was, or checked.
  abbrev IsEditedTarget : Channel → Text → Type 0
  IsEditedTarget c target = (text_eq c.target target ≡ true) ⊎ IsCheckedTarget config c.type target

  retarget-target :
      (o : Option Text) (c : Channel)
      → IsNewTarget c.type o
      → IsEditedTarget c (retarget o c).target
  unfolding retarget
  retarget-target none c h = inl (text_eq_refl c.target)
  retarget-target (some t) c h = inr h

  edit_channel-target :
      (input : UpdateChannelInput) (c : Channel)
      → IsNewTarget c.type (new_target input.target c.target)
      → IsEditedTarget c (edit_channel input c).target
  unfolding edit_channel
  edit_channel-target input c h =
      let o = new_target input.target c.target in
      rw (switched-target input.enabled input.name (retarget o c)) (retarget-target o c h)

  same_check :
      (a b : ChannelType) (target : Text)
      → a ≡ b
      → IsCheckedTarget config b target
      → IsCheckedTarget config a target
  same_check a b target same h = rw same h

  save-IsTyped :
      (loaded new stored : Channel)
      → loaded.type ≡ types loaded.id
      → (stored.id == loaded.id) ≡ true
      → IsEditedTarget loaded new.target
      → IsTyped stored
      → IsTyped (save_channel_fields loaded new stored)
  unfolding save_channel_fields
  save-IsTyped loaded new stored typed hit target h =
      elim (Bool-cases (text_eq loaded.target new.target)) [
        | inl e ↦ rw e h
        | inr e ↦
            let same : stored.id ≡ loaded.id = (==_iff stored.id loaded.id).0 hit in
            let one_type = h.0 ∙ ap types same ∙ sym typed in
            elim target [
              | inl kept ↦ absurd (ground (arith, e, kept))
              | inr checked ↦
                  rw e (h.0, same_check stored.type loaded.type new.target one_type checked)
            ]
      ]

  Returns-validate_new_target :
      (type : ChannelType) (o : Option Text)
      → Returns (λ _. IsNewTarget type o) (validate_new_target config type o)
  unfolding validate_new_target
  Returns-validate_new_target type none = tt
  Returns-validate_new_target type (some t) = Returns-validate_target config type t

  Keeps-validate_new_target :
      (type : ChannelType) (o : Option Text) → Keeps Typed (validate_new_target config type o)
  unfolding validate_new_target
  Keeps-validate_new_target type none = tt
  Keeps-validate_new_target type (some t) = Keeps-validate_target config Typed (λ w p. p) type t

  Keeps-save_channel :
      (loaded new : Channel)
      → loaded.type ≡ types loaded.id
      → IsEditedTarget loaded new.target
      → Keeps Typed (save_channel loaded new)
  unfolding save_channel
  Keeps-save_channel loaded new typed target =
      Keeps-db_call ChannelsTyped Anything _ _
        (λ d all.
          All-update_hit IsTyped (λ c. c.id == loaded.id) (save_channel_fields loaded new)
            d.channels (λ c hit h. save-IsTyped loaded new c typed hit target h) all)
        (λ d. elim (Bool-cases (any (λ c. c.id == loaded.id) d.channels)) [
          | inl e ↦ rw e tt
          | inr e ↦ rw e tt
        ])

  Keeps-update_found_channel :
      (input : UpdateChannelInput) (c : Channel)
      → c.type ≡ types c.id
      → Keeps Typed (update_found_channel config input c)
  unfolding update_found_channel
  Keeps-update_found_channel input c typed =
      let o = new_target input.target c.target in
      Keeps->>=_of _ _ (validate_new_target config c.type o) _ (Keeps-validate_new_target c.type o)
        (Returns-validate_new_target c.type o)
        λ _ checked. Keeps->>= _ (validate _) _ (Keeps-validate ChannelsTyped Anything _) λ _.
          Keeps->>= _ (save_channel c (edit_channel input c)) _
            (Keeps-save_channel c (edit_channel input c) typed
              (edit_channel-target input c checked))
            (λ _. tt)

  abbrev IsFoundTyped : Option Channel → Type 0
  IsFoundTyped found = (c : Channel) → found ≡ some c → c.type ≡ types c.id

  Holds-update_after :
      (input : UpdateChannelInput) (found : Option Channel)
      → IsFoundTyped found
      → Holds Typed
          (λ _. Unit {0})
          (found_or no_channel found >>= update_found_channel config input)
  unfolding ◌>>=◌
  Holds-update_after input none h = tt
  Holds-update_after input (some c) h =
      Keeps-Holds _ (update_found_channel config input c)
        (Keeps-update_found_channel input c (h c refl))

  Keeps-found_or : (o : Option Channel) → Keeps Typed (found_or no_channel o)
  Keeps-found_or none = tt
  Keeps-found_or (some c) = tt

  Keeps-delete_channel :
      (user_id channel_id : ℕ) → Keeps Typed (delete_channel config user_id channel_id)
  unfolding delete_channel
  Keeps-delete_channel user_id channel_id =
      Keeps->>= _ (db_call _ _) _
        (Keeps-db_call ChannelsTyped Anything _ _
          (λ d all.
            All-remove_first IsTyped (λ c. c.id == channel_id && c.user_id == user_id) d.channels
              all)
          (λ d. tt))
        λ found. Keeps->>= _ (found_or no_channel found) _ (Keeps-found_or found) (λ _. tt)

  -- Creating a channel keeps, at each of its acts, that every stored channel has a target that the
  -- adapter of its type accepts: an email address, or an https URL that the guard allows with the
  -- host that the type expects. For channels whose types never change, so that `types` tells the type
  -- of an id, updating and deleting a channel keep this too, from worlds in which it holds, whatever
  -- else acts in between and keeps it.
  pub channel_calls-ChannelsChecked :
      (user_id channel_id : ℕ) (creation : CreateChannelInput) (input : UpdateChannelInput)
      → Keeps (OnDb (ChannelsChecked config) Anything) (create_channel config user_id creation)
        × Holds
            (OnDb ChannelsTyped Anything)
            (λ _. Unit {0})
            (update_channel config user_id channel_id input)
        × Holds
            (OnDb ChannelsTyped Anything)
            (λ _. Unit {0})
            (delete_channel config user_id channel_id)
        × ((d : Db) → ChannelsTyped d → ChannelsChecked config d)
  unfolding update_channel
  channel_calls-ChannelsChecked user_id channel_id creation input = (
    create_channel-ChannelsChecked config user_id creation,
    Holds->>=_of _ IsFoundTyped _ (query (channel_of_user user_id channel_id)) _
        (Holds-query ChannelsTyped IsFoundTyped (channel_of_user user_id channel_id)
          (λ d all c h. (All-found IsTyped _ d.channels c all h).0))
        (Holds-update_after input),
    Keeps-Holds _ (delete_channel config user_id channel_id)
        (Keeps-delete_channel user_id channel_id),
    λ d all. All-map d.channels (λ c h. h.1) all,
  )
