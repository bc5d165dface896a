-- ===== src/Posting/Settling.antt =====
-- When a POST counts as delivered.
use pulse_keeper.Prelude.{
  Bool, Bool-cases, List, Option, Text, [], ap, false, inl, inr, leb, ltb, none, refl, some, true,
  ℕ, ◌&&◌, ◌∷◌, ◌≡◌,
}
use pulse_keeper.Async.{Result, returned, thrown}
use pulse_keeper.Web.{
  PostClosing, PostEvent, post_chunk, post_end, post_error, post_response, post_timeout,
}
use pulse_keeper.Posting.{
  is_body_useful, on_post_closing, on_post_event, on_post_response, reading, settle_post,
  settle_posted, settled,
}

-- The status of the first response among the events.
unfoldable pub response_status : List PostEvent → Option ℕ
response_status [] = none
response_status (post_response status content_type ∷ es) = some status
response_status (post_chunk s ∷ es) = response_status es
response_status (post_end ∷ es) = response_status es

abbrev pub is_success : Option ℕ → Bool
is_success none = false
is_success (some status) = leb 200 status && ltb status 300

abbrev pub is_returned : {A : Type 0} → Result A → Bool
is_returned (returned a) = true
is_returned (thrown e) = false

settled-settle_post :
    (r : Result (Unit {0})) (es : List PostEvent) (closing : PostClosing)
    → settle_post (settled r) es closing ≡ r
unfolding settle_post on_post_event on_post_closing
settled-settle_post r [] closing = refl
settled-settle_post r (e ∷ es) closing = settled-settle_post r es closing

reading-settle_post :
    (es : List PostEvent) (closing : PostClosing) (status : ℕ) (body : Text)
    → is_returned (settle_post (reading status body) es closing) ≡ false
unfolding settle_post on_post_event on_post_closing
reading-settle_post [] post_timeout status body = refl
reading-settle_post [] (post_error e) status body = refl
reading-settle_post (post_response s t ∷ es) closing status body =
    reading-settle_post es closing status body
reading-settle_post (post_chunk s ∷ es) closing status body =
    reading-settle_post es closing status _
reading-settle_post (post_end ∷ es) closing status body =
    ap is_returned (settled-settle_post _ es closing)

responded :
    (status : ℕ) (content_type : Text) (es : List PostEvent) (closing : PostClosing)
    → is_returned (settle_post (on_post_response status content_type) es closing)
      ≡ (leb 200 status && ltb status 300)
unfolding on_post_response
responded status content_type es closing = elim (Bool-cases (leb 200 status && ltb status 300)) [
  | inl good ↦ rw good (ap is_returned (settled-settle_post _ es closing))
  | inr bad ↦ elim (Bool-cases (is_body_useful content_type)) [
    | inl useful ↦ rw (bad, useful) (reading-settle_post es closing status [])
    | inr useless ↦ rw (bad, useless) (ap is_returned (settled-settle_post _ es closing))
  ]
]

-- A POST returns without an error exactly when its first response has a status from 200 to 299,
-- whatever of its body comes before or after, and whatever ends it.
pub settle_posted_iff :
    (events : List PostEvent) (closing : PostClosing)
    → is_returned (settle_posted (events, closing)) ≡ is_success (response_status events)
unfolding settle_post on_post_event on_post_closing response_status
settle_posted_iff [] post_timeout = refl
settle_posted_iff [] (post_error e) = refl
settle_posted_iff (post_response status content_type ∷ es) closing =
    responded status content_type es closing
settle_posted_iff (post_chunk s ∷ es) closing = settle_posted_iff es closing
settle_posted_iff (post_end ∷ es) closing = settle_posted_iff es closing
