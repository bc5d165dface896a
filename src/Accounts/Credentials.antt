-- ===== src/Accounts/Credentials.antt =====
-- What a sign-in accepts.
use pulse_keeper.Prelude.{
  Bool, Bool-cases, List, Text, [], any, ap, arith, false, find, if◌then◌else◌, inl, inr, none,
  refl, some, suc, text_eq_refl, true, ℕ, ◌++◌, ◌==◌, ◌∙◌, ◌∷◌, ◌≡◌,
}
use pulse_keeper.Async.{ret, returned, run, thrown, ◌>>=◌}
use pulse_keeper.Store.{Config, Db, User, World}
use pulse_keeper.Store.Calls.{IsReliable, pass_time, query, read_clock, run-db_call_then, validate}
use pulse_keeper.UserSettings.{default_settings}
use pulse_keeper.Accounts.{
  LoginInput, RegisterInput, bad_credentials, compare_password, create_account, create_settings,
  create_user, has_email, hash_password, insert_user, is_valid_user, login_found, login_user,
  new_user, normal_email, register_user, to_public_user, user_with_email,
}

module _ (config : Config) (w : World) where
  -- In a world whose database answers: a sign-in only takes time, and it returns the user with this
  -- email exactly if there is one and bcrypt matches the password against the stored hash;
  -- otherwise, for an unknown email as for a wrong password, it ends with the same error.
  pub login_user_lem :
      (input : LoginInput)
      → IsReliable w
      → (user_with_email input.email w.db ≡ none
          → run (login_user config input) w ≡ (thrown bad_credentials, pass_time w))
        × ((user : User)
            → user_with_email input.email w.db ≡ some user
            → run (login_user config input) w ≡ (
              if config.auth.compare input.password user.password
                  then returned (to_public_user user)
                  else thrown bad_credentials,
              pass_time (pass_time w),
            ))
  unfolding login_user login_found compare_password query run ◌>>=◌
  login_user_lem input reliable = (
    λ absent.
        run-db_call_then (λ d. d) (λ d. ret (user_with_email input.email d))
          (login_found config input) w reliable
        ∙ rw absent refl,
    λ user there_is.
        run-db_call_then (λ d. d) (λ d. ret (user_with_email input.email d))
          (login_found config input) w reliable
        ∙ rw there_is (elim (Bool-cases (config.auth.compare input.password user.password)) [
          | inl e ↦ rw (e, run) refl
          | inr e ↦ rw (e, run) refl
        ]),
  )

find-end :
    (p : User → Bool) (us : List User) (u : User)
    → find p us ≡ none
    → p u ≡ true
    → find p (us ++ u ∷ []) ≡ some u
find-end p [] u h e = rw e refl
find-end p (v ∷ vs) u h e = elim (Bool-cases (p v)) [
  | inl hit ↦ absurd (ground (arith, hit, h))
  | inr missed ↦ rw missed (find-end p vs u (ground (arith, missed, h)) e)
]

find-none-any : (p : User → Bool) (us : List User) → find p us ≡ none → any p us ≡ false
find-none-any p [] h = refl
find-none-any p (u ∷ us) h = ground (arith, h, find-none-any p us)

module _ (config : Config) (input : RegisterInput) (w : World) where
  -- The account that a registration makes in this world.
  abbrev pub account : User
  account =
      new_user input (config.auth.hash (suc (suc w.moment)) input.password)
        (w.env.clock (suc w.moment)) w.db.next_id

  -- The database with the account and its settings.
  abbrev pub registered_db : Db
  registered_db = record w.db {
    users = w.db.users ++ account ∷ [];
    settings = w.db.settings ++ default_settings w.db.next_id ∷ [];
    next_id = suc w.db.next_id;
  }

  run-register_user :
      IsReliable w
      → is_valid_user input ≡ true
      → user_with_email input.email w.db ≡ none
      → any (λ s. s.user_id == w.db.next_id) w.db.settings ≡ false
      → run (register_user config input) w ≡ (
        returned (to_public_user account),
        record w { moment = suc (suc (suc (suc (suc w.moment)))); db = registered_db },
      )
  unfolding register_user create_account query read_clock hash_password create_user create_settings
      insert_user validate run ◌>>=◌ to_public_user new_user
  run-register_user reliable valid absent unset =
      let fresh = find-none-any (has_email input.email) w.db.users absent in
      run-db_call_then (λ d. d) (λ d. ret (user_with_email input.email d)) _ w reliable
      ∙ rw
          (
            absent,
            valid,
            reliable (suc (suc (suc w.moment))),
            fresh,
            reliable (suc (suc (suc (suc w.moment)))),
            unset,
            run,
            ◌>>=◌,
          )
          refl

  abbrev pub login_input : LoginInput
  login_input = record { email = input.email; password = input.password }

  abbrev pub registered : World
  registered = record w { moment = suc (suc (suc (suc (suc w.moment)))); db = registered_db }

  registered-found :
      user_with_email input.email w.db ≡ none
      → user_with_email input.email registered_db ≡ some account
  unfolding new_user
  registered-found absent =
      find-end (has_email input.email) w.db.users account absent
        (text_eq_refl (normal_email input.email))

  -- In a world whose database answers, where the email is not taken, the input passes the schema's
  -- rules and no settings have the id that comes next, and with bcrypt matching each password
  -- against its own hashes: a registration returns a user, stores the hash of the password, and a
  -- sign-in with the same email and password afterwards returns that user.
  pub register_login_roundtrip :
      IsReliable w
      → ((salt : ℕ) (p : Text) → config.auth.compare p (config.auth.hash salt p) ≡ true)
      → is_valid_user input ≡ true
      → user_with_email input.email w.db ≡ none
      → any (λ s. s.user_id == w.db.next_id) w.db.settings ≡ false
      → (run (register_user config input) w ≡ (returned (to_public_user account), registered))
        × ((run (login_user config login_input) registered).0 ≡ returned (to_public_user account))
  unfolding new_user
  register_login_roundtrip reliable matching valid absent unset = (
    run-register_user reliable valid absent unset,
    ap (λ r. r.0)
          ((login_user_lem config registered login_input reliable).1 account
            (registered-found absent))
        ∙ rw (matching (suc (suc w.moment)) input.password) refl,
  )
