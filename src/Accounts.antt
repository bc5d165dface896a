-- ===== src/Accounts.antt =====
-- server/src/services/auth.service.ts and server/src/models/User.ts: accounts and their passwords.
pub mod Sessions
pub mod Credentials
pub mod Access
use pulse_keeper.Prelude.{
  Bool, Option, Text, [], any, codes, find, if◌then◌else◌, is_empty, is_some, leb, length, lower,
  none, not, some, suc, text_eq, trim, ℕ, ◌&&◌, ◌++◌, ◌==◌, ◌∷◌,
}
use pulse_keeper.Errors.{Thrown, app_error, conflict, duplicate_key, unauthorized}
use pulse_keeper.Async.{act, ret, throw, ◌>>=◌, ◌>>◌}
use pulse_keeper.Store.{Config, Db, User}
use pulse_keeper.Store.Calls.{App, db_call, fits, found_or, pass_time, query, read_clock, validate}
use pulse_keeper.UserSettings.{default_settings}

-- `PublicUser`
pub record PublicUser : Type 0 where
  pub id : ℕ
  pub name : Text
  pub email : Text
  pub avatar : Option Text
  pub created_at : ℕ

unfoldable pub to_public_user : User → PublicUser
to_public_user u = record {
  id = u.id;
  name = u.name;
  email = u.email;
  avatar = filled u.avatar;
  created_at = u.created_at;
}
  where
    filled : Option Text → Option Text
    filled none = none
    filled (some s) = if is_empty s then none else some s

-- `RegisterInput`
pub record RegisterInput : Type 0 where
  pub name : Text
  pub email : Text
  pub password : Text

-- `LoginInput`
pub record LoginInput : Type 0 where
  pub email : Text
  pub password : Text

-- What the schema makes of an email, also in a query.
unfoldable pub normal_email : Text → Text
unfolding lower trim
normal_email s = lower (trim s)

abbrev pub has_email : Text → User → Bool
has_email email u = text_eq u.email (normal_email email)

abbrev pub user_with_email : Text → Db → Option User
user_with_email email d = find (has_email email) d.users

-- Whether a stored user has this email as it is stored.
abbrev pub is_taken : Text → Db → Bool
is_taken email d = any (λ u. text_eq u.email email) d.users

-- The schema's rules for the name and the email.
abbrev pub is_valid_user : RegisterInput → Bool
is_valid_user input =
    fits 60 (trim input.name)
    && leb 2 (length (trim input.name))
    && fits 254 (normal_email input.email)
    && not (is_empty input.password)

-- The document that `registerUser` creates, with the hash that the hook makes of the password.
unfoldable pub new_user : RegisterInput → Text → ℕ → ℕ → User
new_user input hashed at id = record {
  id = id;
  name = trim input.name;
  email = normal_email input.email;
  password = hashed;
  avatar = none;
  created_at = at;
}

-- `User.create`, with the unique index on the email.
unfoldable pub insert_user : (ℕ → User) → Db → Db
insert_user make d =
    if is_taken (make d.next_id).email d
    then d
    else record d { users = d.users ++ make d.next_id ∷ []; next_id = suc d.next_id }

unfoldable pub create_user : (ℕ → User) → App User
create_user make =
    db_call (insert_user make)
      (λ d. if is_taken (make d.next_id).email d then throw duplicate_key else ret (make d.next_id))

-- `Settings.create`, with the unique index on the user.
unfoldable pub create_settings : ℕ → App (Unit {0})
create_settings user_id =
    db_call
      (λ d.
        if any (λ s. s.user_id == user_id) d.settings
        then d
        else record d { settings = d.settings ++ default_settings user_id ∷ [] })
      (λ d. if any (λ s. s.user_id == user_id) d.settings then throw duplicate_key else ret tt)

abbrev pub bad_credentials : Thrown
bad_credentials = app_error (unauthorized (codes "Invalid email or password"))

module _ (config : Config) where
  -- `bcrypt.hash(password, BCRYPT_ROUNDS)`
  unfoldable pub hash_password : Text → App Text
  hash_password password = act pass_time (λ w. ret (config.auth.hash w.moment password))

  -- What `registerUser` does for an email that is not taken.
  unfoldable pub create_account : RegisterInput → App PublicUser
  create_account input = do
    at ← read_clock
    validate (is_valid_user input)
    hashed ← hash_password input.password
    user ← create_user (new_user input hashed at)
    create_settings user.id
    ret (to_public_user user)

  unfoldable pub register_user : RegisterInput → App PublicUser
  register_user input = do
    existing ← query (user_with_email input.email)
    (if is_some existing
        then throw (app_error (conflict (codes "An account with that email already exists")))
        else create_account input)

  -- `user.comparePassword(password)`
  unfoldable pub compare_password : User → Text → App Bool
  compare_password user candidate =
      act pass_time (λ w. ret (config.auth.compare candidate user.password))

  unfoldable pub login_found : LoginInput → Option User → App PublicUser
  login_found input none = throw bad_credentials
  login_found input (some user) = do
    matching ← compare_password user input.password
    (if matching then ret (to_public_user user) else throw bad_credentials)

  unfoldable pub login_user : LoginInput → App PublicUser
  login_user input = do user ← query (user_with_email input.email); login_found input user

abbrev pub no_account : Thrown
no_account = app_error (unauthorized (codes "Account no longer exists"))

unfoldable pub get_user_by_id : ℕ → App PublicUser
get_user_by_id user_id = do
  found ← query (λ d. find (λ u. u.id == user_id) d.users)
  user ← found_or no_account found
  ret (to_public_user user)
