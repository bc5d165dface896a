-- ===== src/Posting/Targets.antt =====
-- Which targets a webhook channel is let be stored with.
use pulse_keeper.Prelude.{
  Bool-cases, Option, Text, codes, ends_with, if◌then◌else◌, inl, inr, none, refl, some, text_eq,
  text_eq_sound, true, ◌++◌, ◌≡◌,
}
use pulse_keeper.Errors.{app_error, bad_request}
use pulse_keeper.Async.{ret, returned, run, throw}
use pulse_keeper.Async.Rules.{Returns, Returns->>=_of, Returns-weaken, run-Returns}
use pulse_keeper.Web.{Url, WebLib}
use pulse_keeper.Store.{World}
use pulse_keeper.Guard.{assert_url_allowed}
use pulse_keeper.Guard.Urls.{IsAllowedUrl, ParsesTo}
use pulse_keeper.Guard.Contacts.{HasParsedUrl, assert_url_allowed-parsed}
use pulse_keeper.Posting.{assert_webhook_target_allowed, judge_target}

abbrev pub HasSuffix : Option Text → Text → Type 0
HasSuffix none hostname = Unit
HasSuffix (some s) hostname = ends_with hostname s ≡ true

module _ (web : WebLib) where
  -- A URL over https that the guard allows, to a host with this suffix.
  abbrev pub IsSecure : Option Text → Url → Type 0
  IsSecure suffix url =
      IsAllowedUrl web url × (url.protocol ≡ codes "https:") × HasSuffix suffix url.hostname

  judge_target-secure :
      (suffix : Option Text) (url : Url)
      → Returns
          (λ _. (url.protocol ≡ codes "https:") × HasSuffix suffix url.hostname)
          (judge_target web suffix url)
  unfolding judge_target
  judge_target-secure suffix url = elim (Bool-cases (text_eq url.protocol (codes "https:"))) [
    | inr other ↦ rw other tt
    | inl same ↦ rw same (suffixed suffix (text_eq_sound url.protocol (codes "https:") same))
  ]
    where
      suffixed :
          (o : Option Text)
          → url.protocol ≡ codes "https:"
          → Returns {W = World} {A = Unit {0}}
              (λ _. (url.protocol ≡ codes "https:") × HasSuffix o url.hostname)
              (elim o [
                | none ↦ ret tt
                | some s ↦
                    if ends_with url.hostname s
                    then ret tt
                    else throw (
                        app_error (
                          bad_request
                            (codes "That does not look like a " ++ s ++ codes " webhook URL")))
              ])
      suffixed none e = (e, tt)
      suffixed (some s) e = elim (Bool-cases (ends_with url.hostname s)) [
        | inl h ↦ rw h (e, refl)
        | inr h ↦ rw h tt
      ]

  -- What a target that passes the check is.
  abbrev pub IsWebhookTarget : Text → Option Text → Type 0
  IsWebhookTarget target suffix = (url : Url) × ParsesTo web target url × IsSecure suffix url

  pub Returns-assert_webhook_target_allowed :
      (target : Text) (suffix : Option Text)
      → Returns
          (λ _. IsWebhookTarget target suffix)
          (assert_webhook_target_allowed web target suffix)
  unfolding assert_webhook_target_allowed
  Returns-assert_webhook_target_allowed target suffix =
      Returns->>=_of (HasParsedUrl web target) _ (assert_url_allowed web target) _
        (assert_url_allowed-parsed web target)
        (λ r p.
          Returns-weaken _ _ (judge_target web suffix r.url) (λ _ q. (r.url, p.0, (p.1, q.0, q.1)))
            (judge_target-secure suffix r.url))

  -- If the check of a webhook's target passes, then the target parses to a URL that the guard
  -- allows, over https, and to a host name with the expected suffix where one is expected.
  pub assert_webhook_target_allowed-IsSecure :
      (target : Text) (suffix : Option Text) (w : World)
      → (run (assert_webhook_target_allowed web target suffix) w).0 ≡ returned tt
      → (url : Url) × ParsesTo web target url × IsSecure suffix url
  assert_webhook_target_allowed-IsSecure target suffix w h =
      run-Returns (λ _. IsWebhookTarget target suffix)
        (assert_webhook_target_allowed web target suffix) w tt
        (Returns-assert_webhook_target_allowed target suffix) h
