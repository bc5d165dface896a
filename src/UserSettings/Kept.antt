-- ===== src/UserSettings/Kept.antt =====
-- What an update of a user's settings leaves.
use pulse_keeper.Prelude.{
  ==_iff, All, All-append, Bool, Bool-cases, List, Option, Option-cases, [], ap, arith, false, find,
  inl, inr, is_some, none, or_else, refl, some, suc, true, update_first, ℕ, ◌&&◌, ◌++◌, ◌==◌, ◌∙◌,
  ◌∷◌, ◌≡◌,
}
use pulse_keeper.Async.{ret, returned, run, ◌>>=◌}
use pulse_keeper.Async.Rules.{Keeps}
use pulse_keeper.Store.{Db, Preferences, Settings, World}
use pulse_keeper.Store.Calls.{Anything, IsReliable, Keeps-db_call, OnDb, run-db_call, validate}
use pulse_keeper.Notify.{settings_of}
use pulse_keeper.UserSettings.{
  PreferencesInput, PublicSettings, UpdateSettingsInput, default_settings, get_settings, in_range,
  is_retention, is_valid_update, ok_if_there, set_preferences, set_settings, settings_or_default,
  to_public_settings, update_settings, upsert_settings,
}

-- What the schema demands of a settings document.
abbrev pub IsValidSettings : Settings → Type 0
IsValidSettings s =
    (in_range 1 1440 s.default_interval ≡ true)
    × (in_range 1 60 s.default_timeout ≡ true)
    × (in_range 100 60000 s.default_slow_threshold ≡ true)
    × (in_range 1 10 s.default_threshold ≡ true)
    × (is_retention s.data_retention_days ≡ true)

module _ (user_id : ℕ) (f : Settings → Settings)
    (same : (s : Settings) → (f s).user_id ≡ s.user_id) where
  find-changed :
      (ss : List Settings) (s : Settings)
      → find (λ x. x.user_id == user_id) ss ≡ some s
      → find (λ x. x.user_id == user_id) (update_first (λ x. x.user_id == user_id) f ss)
        ≡ some (f s)
  find-changed [] s h = cc
  find-changed (x ∷ xs) s h = elim (Bool-cases (x.user_id == user_id)) [
    | inl e ↦
        let head : x ≡ s = ground (arith, e, h) in
        let hit : ((f x).user_id == user_id) ≡ true = rw (same x) e in
        rw (e, hit) (ap (λ y. some (f y)) head)
    | inr e ↦ rw (e, e) (find-changed xs s (ground (arith, e, h)))
  ]

  find-added :
      (ss : List Settings)
      → find (λ x. x.user_id == user_id) ss ≡ none
      → find (λ x. x.user_id == user_id) (ss ++ f (default_settings user_id) ∷ [])
        ≡ some (f (default_settings user_id))
  find-added [] h =
      let hit : ((f (default_settings user_id)).user_id == user_id) ≡ true =
        rw (same (default_settings user_id)) ((==_iff user_id user_id).1 refl) in
      rw hit refl
  find-added (x ∷ xs) h = elim (Bool-cases (x.user_id == user_id)) [
    | inl e ↦ absurd (ground (arith, e, h))
    | inr e ↦ rw e (find-added xs (ground (arith, e, h)))
  ]

  upsert_settings-find :
      (d : Db)
      → settings_of user_id (upsert_settings user_id f d) ≡ some (f (settings_or_default user_id d))
  unfolding upsert_settings
  upsert_settings-find d = elim (Option-cases (settings_of user_id d)) [
    | inl e ↦ rw e (find-added d.settings e)
    | inr (s, e) ↦ rw e (find-changed d.settings s e)
  ]

  find-other :
      (other : ℕ) (ss : List Settings)
      → (other == user_id) ≡ false
      → find (λ x. x.user_id == other) (update_first (λ x. x.user_id == user_id) f ss)
        ≡ find (λ x. x.user_id == other) ss
  find-other other [] h = refl
  find-other other (x ∷ xs) h = elim (Bool-cases (x.user_id == user_id)) [
    | inl e ↦
        let missed : (x.user_id == other) ≡ false = ground (arith, e, h) in
        let still : ((f x).user_id == other) ≡ false = rw (same x) missed in
        rw (e, missed, still) refl
    | inr e ↦ rw (e, find-other other xs h) refl
  ]

  find-beside :
      (other : ℕ) (ss : List Settings)
      → (other == user_id) ≡ false
      → find (λ x. x.user_id == other) (ss ++ f (default_settings user_id) ∷ [])
        ≡ find (λ x. x.user_id == other) ss
  find-beside other [] h =
      let missed : ((f (default_settings user_id)).user_id == other) ≡ false =
        rw (same (default_settings user_id)) (ground (arith, h)) in
      rw missed refl
  find-beside other (x ∷ xs) h = rw (find-beside other xs h) refl

  upsert_settings-other :
      (other : ℕ) (d : Db)
      → (other == user_id) ≡ false
      → settings_of other (upsert_settings user_id f d) ≡ settings_of other d
  unfolding upsert_settings
  upsert_settings-other other d h = elim (Bool-cases (is_some (settings_of user_id d))) [
    | inl e ↦ rw e (find-other other d.settings h)
    | inr e ↦ rw e (find-beside other d.settings h)
  ]

set_settings-user :
    (input : UpdateSettingsInput) (s : Settings) → (set_settings input s).user_id ≡ s.user_id
unfolding set_settings
set_settings-user input s = refl

module _ (user_id : ℕ) (input : UpdateSettingsInput) (w : World) where
  -- The world that an update leaves.
  abbrev pub updated : World
  updated = record w {
    moment = suc w.moment;
    db = upsert_settings user_id (set_settings input) w.db;
  }

  -- An update that is stored returns what it leaves.
  update_settings-kept :
      IsReliable w
      → is_valid_update input ≡ true
      → let kept = to_public_settings (set_settings input (settings_or_default user_id w.db)) in
        (run (update_settings user_id input) w ≡ (returned kept, updated))
        × ((run (get_settings user_id) updated).0 ≡ returned kept)
  unfolding update_settings get_settings ◌>>=◌ validate run
  update_settings-kept reliable valid =
      let there_now =
        upsert_settings-find user_id (set_settings input) (set_settings-user input) w.db in
      (
        rw valid (run-db_call _ _ w reliable),
        ap (λ r. r.0)
              (run-db_call _ (λ d. ret (to_public_settings (settings_or_default user_id d))) updated
                reliable)
            ∙ rw there_now refl,
      )

  get_settings-before :
      IsReliable w
      → (run (get_settings user_id) w).0
        ≡ returned (to_public_settings (settings_or_default user_id w.db))
  unfolding get_settings run
  get_settings-before reliable =
      ap (λ r. r.0)
        (run-db_call _ (λ d. ret (to_public_settings (settings_or_default user_id d))) w reliable)

-- A field after an update: the value that was given, or else what it was before.
abbrev pub IsUpdated : {A : Type 0} → Option A → A → A → Type 0
IsUpdated none before after = after ≡ before
IsUpdated (some given) before after = after ≡ given

-- The preferences after an update, each for itself.
abbrev pub ArePreferencesUpdated : Option PreferencesInput → Preferences → Preferences → Type 0
ArePreferencesUpdated none before after = after ≡ before
ArePreferencesUpdated (some given) before after =
    IsUpdated given.on_down before.on_down after.on_down
    × IsUpdated given.on_up before.on_up after.on_up
    × IsUpdated given.on_slow before.on_slow after.on_slow
    × IsUpdated given.on_ssl_expiry before.on_ssl_expiry after.on_ssl_expiry

-- The settings after an update, field by field.
abbrev pub AreSettingsUpdated : UpdateSettingsInput → PublicSettings → PublicSettings → Type 0
AreSettingsUpdated given before after =
    IsUpdated given.default_interval before.default_interval after.default_interval
    × IsUpdated given.default_timeout before.default_timeout after.default_timeout
    × IsUpdated given.default_slow_threshold before.default_slow_threshold
        after.default_slow_threshold
    × IsUpdated given.default_threshold before.default_threshold after.default_threshold
    × IsUpdated given.data_retention_days before.data_retention_days after.data_retention_days
    × ArePreferencesUpdated given.notifications before.notifications after.notifications
    × IsUpdated given.theme before.theme after.theme

or_else-IsUpdated : {A : Type 0} (o : Option A) (a : A) → IsUpdated o a (or_else o a)
or_else-IsUpdated none a = refl
or_else-IsUpdated (some b) a = refl

set_preferences-updated :
    (o : Option PreferencesInput) (p : Preferences)
    → ArePreferencesUpdated o p (set_preferences o p)
unfolding set_preferences
set_preferences-updated none p = refl
set_preferences-updated (some given) p = (
  or_else-IsUpdated given.on_down p.on_down,
  or_else-IsUpdated given.on_up p.on_up,
  or_else-IsUpdated given.on_slow p.on_slow,
  or_else-IsUpdated given.on_ssl_expiry p.on_ssl_expiry,
)

set_settings-updated :
    (input : UpdateSettingsInput) (s : Settings)
    → AreSettingsUpdated input (to_public_settings s) (to_public_settings (set_settings input s))
unfolding set_settings to_public_settings
set_settings-updated input s = (
  or_else-IsUpdated input.default_interval s.default_interval,
  or_else-IsUpdated input.default_timeout s.default_timeout,
  or_else-IsUpdated input.default_slow_threshold s.default_slow_threshold,
  or_else-IsUpdated input.default_threshold s.default_threshold,
  or_else-IsUpdated input.data_retention_days s.data_retention_days,
  set_preferences-updated input.notifications s.notifications,
  or_else-IsUpdated input.theme s.theme,
)

-- In a world whose database answers: an update that passes the schema's rules returns settings that
-- differ from what reading them gave before exactly in the fields, and the single preferences, that
-- were given; reading them afterwards returns the same; and no other user's stored settings change.
pub update_settings_roundtrip :
    (user_id : ℕ) (input : UpdateSettingsInput) (w : World)
    → IsReliable w
    → is_valid_update input ≡ true
    → let (result, v) = run (update_settings user_id input) w in
      (before : PublicSettings) × (after : PublicSettings) × ((run (get_settings user_id) w).0
        ≡ returned before)
      × (result ≡ returned after)
      × ((run (get_settings user_id) v).0 ≡ returned after)
      × AreSettingsUpdated input before after
      × ((other : ℕ) → (other == user_id) ≡ false → settings_of other v.db ≡ settings_of other w.db)
update_settings_roundtrip user_id input w reliable valid =
    let (stored, read) = update_settings-kept user_id input w reliable valid in
    (
      to_public_settings (settings_or_default user_id w.db),
      to_public_settings (set_settings input (settings_or_default user_id w.db)),
      get_settings-before user_id input w reliable,
      ap (λ r. r.0) stored,
      ap (λ r. (run (get_settings user_id) r.1).0) stored ∙ read,
      set_settings-updated input (settings_or_default user_id w.db),
      λ other h.
          ap (λ r. settings_of other r.1.db) stored
          ∙ upsert_settings-other user_id (set_settings input) (set_settings-user input) other w.db
              h,
    )

All-update_first {ℓ κ} :
    {A : Type ℓ} {P : A → Type κ} (q : A → Bool) (f : A → A) (xs : List A)
    → ((x : A) → P x → P (f x))
    → All P xs
    → All P (update_first q f xs)
All-update_first q f [] h a = tt
All-update_first q f (x ∷ xs) h a = elim (Bool-cases (q x)) [
  | inl e ↦ rw e (h x a.0, a.1)
  | inr e ↦ rw e (a.0, All-update_first q f xs h a.1)
]

-- Every stored settings document obeys the schema.
abbrev pub SettingsValid : Db → Type 0
SettingsValid d = All IsValidSettings d.settings

upsert_settings-SettingsValid :
    (user_id : ℕ) (f : Settings → Settings) (d : Db)
    → ((s : Settings) → IsValidSettings s → IsValidSettings (f s))
    → SettingsValid d
    → SettingsValid (upsert_settings user_id f d)
unfolding upsert_settings
upsert_settings-SettingsValid user_id f d h v =
    elim (Bool-cases (is_some (settings_of user_id d))) [
      | inl e ↦ rw e (All-update_first (λ s. s.user_id == user_id) f d.settings h v)
      | inr e ↦ rw e (
          All-append IsValidSettings d.settings _ v
            (h (default_settings user_id) (refl, refl, refl, refl, refl), tt))
    ]

given_or_kept :
    (p : ℕ → Bool) (o : Option ℕ) (n : ℕ)
    → ok_if_there p o ≡ true
    → p n ≡ true
    → p (or_else o n) ≡ true
given_or_kept p none n h k = k
given_or_kept p (some m) n h k = h

five_hold :
    (a b c d e : Bool)
    → (a && b && c && d && e) ≡ true
    → (a ≡ true) × (b ≡ true) × (c ≡ true) × (d ≡ true) × (e ≡ true)
five_hold a b c d e h = ground arith

set_settings-IsValidSettings :
    (input : UpdateSettingsInput) (s : Settings)
    → is_valid_update input ≡ true
    → IsValidSettings s
    → IsValidSettings (set_settings input s)
unfolding set_settings is_valid_update
set_settings-IsValidSettings input s h v =
    let (interval, limit, slowness, threshold, retention) = five_hold _ _ _ _ _ h in
    (
      given_or_kept (in_range 1 1440) input.default_interval s.default_interval interval v.0,
      given_or_kept (in_range 1 60) input.default_timeout s.default_timeout limit v.1,
      given_or_kept (in_range 100 60000) input.default_slow_threshold s.default_slow_threshold
          slowness v.2,
      given_or_kept (in_range 1 10) input.default_threshold s.default_threshold threshold v.3,
      given_or_kept is_retention input.data_retention_days s.data_retention_days retention v.4,
    )

-- If every stored settings document obeys the schema's rules (its bounds, and one of the four
-- retention periods), this holds at each act of reading and of updating settings too, whatever the
-- update asks for.
pub settings-SettingsValid :
    (user_id : ℕ) (input : UpdateSettingsInput)
    → Keeps (OnDb SettingsValid Anything) (get_settings user_id)
      × Keeps (OnDb SettingsValid Anything) (update_settings user_id input)
unfolding get_settings update_settings validate ◌>>=◌
settings-SettingsValid user_id input = (
  Keeps-db_call SettingsValid Anything _ _
      (λ d. upsert_settings-SettingsValid user_id (λ s. s) d (λ s v. v)) (λ d. tt),
  elim (Bool-cases (is_valid_update input)) [
    | inr bad ↦ rw bad tt
    | inl good ↦ rw good (
        Keeps-db_call SettingsValid Anything _ _
          (λ d.
            upsert_settings-SettingsValid user_id (set_settings input) d
              (λ s. set_settings-IsValidSettings input s good))
          (λ d. tt))
  ],
)
