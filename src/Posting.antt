-- ===== src/Posting.antt =====
-- server/src/services/channels/http.ts: a POST of JSON to a URL that a user gave, and the check of
-- a webhook's target.
pub mod Settling
pub mod Targets
use pulse_keeper.Prelude.{
  Bool, List, Option, Text, [], codes, contains, ends_with, if◌then◌else◌, is_empty, leb, length,
  ltb, none, not, show, some, squeeze, suc, take, text_eq, trim, ℕ, ◌&&◌, ◌++◌, ◌||◌, ◌∷◌,
}
use pulse_keeper.Errors.{Thrown, app_error, bad_request, duplicate_key, message_of, other_error}
use pulse_keeper.Async.{Result, act, from_result, ret, returned, throw, thrown, ◌>>=◌, ◌>>◌}
use pulse_keeper.Web.{
  Json, PostClosing, PostEvent, Url, WebLib, post_chunk, post_end, post_error, post_response,
  post_timeout,
}
use pulse_keeper.Store.{posted}
use pulse_keeper.Store.Calls.{App}
use pulse_keeper.Guard.{assert_url_allowed, socket_reply}

-- `MAX_ERROR_BODY`
abbrev pub max_error_body : ℕ
max_error_body = 200

-- What the promise of a request waits for: the response, the end of a body that explains a
-- refusal (its status, and what has come of it), or nothing more.
pub data PostState : Type 0 where
  awaiting : PostState
  reading : ℕ → Text → PostState
  settled : Result (Unit {0}) → PostState

-- `new Error(m)`
abbrev pub plain_error : Text → Thrown
plain_error m = other_error [] m

abbrev pub returned_http : ℕ → Text
returned_http status = codes "Endpoint returned HTTP " ++ show status

-- `bodyIsUseful`
unfoldable pub is_body_useful : Text → Bool
is_body_useful content_type =
    contains content_type (codes "json")
    || contains content_type (codes "text/plain")
    || is_empty content_type

unfoldable pub on_post_response : ℕ → Text → PostState
on_post_response status content_type =
    if leb 200 status && ltb status 300
    then settled (returned tt)
    else if is_body_useful content_type
    then reading status []
    else settled (thrown (plain_error (returned_http status)))

-- What is said of a refusal, after its status.
unfoldable pub error_detail : Text → Text
error_detail body = take max_error_body (trim (squeeze body))

unfoldable pub refusal : ℕ → Text → Text
refusal status detail =
    if is_empty detail then returned_http status else returned_http status ++ codes ": " ++ detail

-- One event of the request. A response comes once; what comes after the promise is settled changes
-- nothing.
unfoldable pub on_post_event : PostState → PostEvent → PostState
on_post_event awaiting (post_response status content_type) = on_post_response status content_type
on_post_event (reading status body) (post_chunk chunk) =
    reading status (if ltb (length body) max_error_body then body ++ chunk else body)
on_post_event (reading status body) post_end =
    settled (thrown (plain_error (refusal status (error_detail body))))
on_post_event state event = state

-- `error instanceof AppError ? error : new Error(error.message)`
abbrev pub rethrown : Thrown → Thrown
rethrown (app_error e) = app_error e
rethrown duplicate_key = plain_error (message_of duplicate_key)
rethrown (other_error code m) = plain_error m

unfoldable pub on_post_closing : PostState → PostClosing → Result (Unit {0})
on_post_closing (settled r) closing = r
on_post_closing awaiting post_timeout =
    thrown (plain_error (codes "Endpoint did not respond within 10s"))
on_post_closing (reading status body) post_timeout =
    thrown (plain_error (codes "Endpoint did not respond within 10s"))
on_post_closing awaiting (post_error e) = thrown (rethrown e)
on_post_closing (reading status body) (post_error e) = thrown (rethrown e)

unfoldable pub settle_post : PostState → List PostEvent → PostClosing → Result (Unit {0})
unfolding on_post_event on_post_closing
settle_post state [] closing = on_post_closing state closing
settle_post state (e ∷ es) closing = settle_post (on_post_event state e) es closing

abbrev pub settle_posted : List PostEvent × PostClosing → Result (Unit {0})
settle_posted (events, closing) = settle_post awaiting events closing

module _ (web : WebLib) where
  -- The request of `postJson`, and what its promise settles to.
  unfoldable pub post_request : Url → Json → App (Unit {0})
  post_request url body =
      act (λ w. record w { moment = suc w.moment; contacts = posted url body ∷ w.contacts })
        (λ w.
          from_result
            (settle_posted (w.env.post_transport w.moment url body (socket_reply web w url))))

  unfoldable pub post_json : Text → Json → App (Unit {0})
  post_json raw_url payload = do
    allowed ← assert_url_allowed web raw_url
    post_request allowed.url payload

  -- The two refusals of `assertWebhookTargetAllowed`.
  unfoldable pub judge_target : Option Text → Url → App (Unit {0})
  judge_target suffix url =
      if not (text_eq url.protocol (codes "https:"))
      then throw (app_error (bad_request (codes "Webhook URLs must use https://")))
      else elim suffix [
        | none ↦ ret tt
        | some s ↦
            if ends_with url.hostname s
            then ret tt
            else throw (
                app_error
                  (bad_request (codes "That does not look like a " ++ s ++ codes " webhook URL")))
      ]

  unfoldable pub assert_webhook_target_allowed : Text → Option Text → App (Unit {0})
  assert_webhook_target_allowed target expected_host_suffix = do
    allowed ← assert_url_allowed web target
    judge_target expected_host_suffix allowed.url
