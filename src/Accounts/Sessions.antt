-- ===== src/Accounts/Sessions.antt =====
-- server/src/utils/jwt.ts, server/src/utils/cookies.ts, server/src/middleware/requireAuth.ts and
-- server/src/controllers/auth.controller.ts: tokens, their cookie, and who a request comes from.
use pulse_keeper.Prelude.{
  Bool, Option, Text, [], codes, drop, find, if◌then◌else◌, is_empty, none, or_option, some,
  starts_with, trim, true, ℕ, ◌*◌, ◌+◌, ◌==◌, ◌∷◌,
}
use pulse_keeper.Errors.{Thrown, app_error, unauthorized}
use pulse_keeper.Async.{Result, act, from_result, ret, returned, thrown, ◌>>=◌}
use pulse_keeper.Web.{
  TokenClaims, VerifyOptions, VerifyReply, text_payload, token_expired, token_invalid, verified,
  verify_failed,
}
use pulse_keeper.Store.{Config}
use pulse_keeper.Store.Calls.{App, found_or, pass_time, query, read_clock}
use pulse_keeper.Accounts.{
  LoginInput, PublicUser, RegisterInput, login_user, no_account, register_user,
}

-- `IssuedToken`
pub record IssuedToken : Type 0 where
  pub token : Text
  pub expires_at : ℕ

-- `AuthTokenPayload`
pub record AuthTokenPayload : Type 0 where
  pub subject : ℕ
  pub email : Text

abbrev pub invalid_token : Thrown
invalid_token = app_error (unauthorized (codes "Invalid authentication token"))

abbrev pub expired_token : Thrown
expired_token = app_error (unauthorized (codes "Your session has expired, please sign in again"))

-- What is made of the verdict on a token.
unfoldable pub judge_token : VerifyReply → Result AuthTokenPayload
judge_token (verified none email) = thrown invalid_token
judge_token (verified (some subject) email) = returned (record { subject = subject; email = email })
judge_token text_payload = thrown invalid_token
judge_token token_expired = thrown expired_token
judge_token token_invalid = thrown invalid_token
judge_token (verify_failed e) = thrown e

-- The cookie that carries the token.
pub record Cookie : Type 0 where
  pub http_only : Bool
  pub secure : Bool
  pub same_site : Text
  pub path : Text

-- The credentials of a request, and who it comes from once that is known.
pub record Request : Type 0 where
  pub cookie : Option Text
  pub authorization : Option Text

pub record AuthUser : Type 0 where
  pub id : ℕ
  pub email : Text
  pub name : Text

abbrev nonempty : Text → Option Text
nonempty s = if is_empty s then none else some s

unfoldable pub bearer_token : Option Text → Option Text
bearer_token none = none
bearer_token (some header) =
    if starts_with header (codes "Bearer ") then nonempty (trim (drop 7 header)) else none

unfoldable pub extract_token : Request → Option Text
unfolding bearer_token
extract_token request = or_option (filled request.cookie) (bearer_token request.authorization)
  where
    filled : Option Text → Option Text
    filled none = none
    filled (some s) = nonempty s

abbrev pub no_token : Thrown
no_token = app_error (unauthorized (codes "Authentication required"))

module _ (config : Config) where
  abbrev pub claims_of : ℕ → Text → TokenClaims
  claims_of user_id email = record {
    subject = user_id;
    email = email;
    algorithm = codes "HS256";
    expires_in = config.jwt_expires_in;
    issuer = codes "pulsekeeper";
    audience = codes "pulsekeeper-dashboard";
  }

  abbrev pub verify_options : VerifyOptions
  verify_options = record {
    algorithms = codes "HS256" ∷ [];
    issuer = codes "pulsekeeper";
    audience = codes "pulsekeeper-dashboard";
  }

  unfoldable pub sign_auth_token : ℕ → Text → App IssuedToken
  sign_auth_token user_id email = do
    at ← read_clock
    let token = config.auth.sign config.jwt_secret at (claims_of user_id email)
    later ← read_clock
    ret (record {
      token = token;
      expires_at = elim (config.auth.expiry_of token) [
        | none ↦ later + 86400000
        | some exp ↦ if exp == 0 then later + 86400000 else exp * 1000
      ];
    })

  unfoldable pub verify_auth_token : Text → App AuthTokenPayload
  verify_auth_token token = act pass_time (λ w. from_result (
      judge_token
        (config.auth.verify config.jwt_secret (w.env.clock w.moment) verify_options token)))

  -- What `requireAuth` does of a verified token.
  unfoldable pub find_user : AuthTokenPayload → App AuthUser
  find_user payload = do
    found ← query (λ d. find (λ u. u.id == payload.subject) d.users)
    user ← found_or no_account found
    ret (record { id = user.id; email = user.email; name = user.name })

  -- `requireAuth`; an error is what `next` is called with.
  unfoldable pub require_auth : Request → App AuthUser
  require_auth request = do
    token ← found_or no_token (extract_token request)
    payload ← verify_auth_token token
    find_user payload

  -- `baseOptions`
  unfoldable pub base_options : Cookie
  base_options = record {
    http_only = true;
    secure = config.is_production;
    same_site = if config.is_production then codes "none" else codes "lax";
    path = codes "/";
  }

  -- The body of the answer to a sign-in, and the cookie that is set.
  pub record Session : Type 0 where
    pub user : PublicUser
    pub token : Text
    pub cookie : Cookie
    pub cookie_value : Text
    pub expires : ℕ

  unfoldable pub issue_session : PublicUser → App Session
  issue_session user = do
    issued ← sign_auth_token user.id user.email
    ret (record {
      user = user;
      token = issued.token;
      cookie = base_options;
      cookie_value = issued.token;
      expires = issued.expires_at;
    })

  unfoldable pub register : RegisterInput → App Session
  register input = do user ← register_user config input; issue_session user

  unfoldable pub login : LoginInput → App Session
  login input = do user ← login_user config input; issue_session user
