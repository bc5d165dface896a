-- ===== src/HealthCheck/Contacts.antt =====
-- Which URLs a health check requests.
use pulse_keeper.Prelude.{Bool-cases, Text, inl, inr, leb, suc, zero, ℕ, ◌∷◌}
use pulse_keeper.Async.{Result, attempt, from_result, returned, thrown}
use pulse_keeper.Async.Rules.{
  Keeps, Keeps->>=, Keeps->>=_of, Keeps-attempt, Returns-attempt, WhenReturned,
}
use pulse_keeper.Web.{Url, WebLib}
use pulse_keeper.Store.{Config, World, requested}
use pulse_keeper.Store.Calls.{App, pass_time}
use pulse_keeper.Guard.{AllowedUrl, assert_url_allowed}
use pulse_keeper.Guard.Urls.{IsAllowedUrl}
use pulse_keeper.Guard.Contacts.{
  HasAllowedUrl, Keeps-assert_redirect_allowed, Keeps-assert_url_allowed, OnlyAllowed,
  assert_redirect_allowed-url, assert_url_allowed-url,
}
use pulse_keeper.HealthCheck.Request.{SingleRequestResult, perform_request}
use pulse_keeper.HealthCheck.{
  HealthCheckOptions, HealthCheckOutcome, Hop, after_guard, after_redirect, after_request,
  after_response, follow, is_redirect, run_health_check,
}

module _ (web : WebLib) where
  -- The rounds of the check, over any invariant that time and a request of an admitted URL keep.
  module _ {ℓ κ} (P : World → Type ℓ) (Admits : Url → Type κ)
      (timeless : (w : World) → P w → P (pass_time w))
      (requests : (w : World) (url : Url)
        → Admits url
        → P w
        → P (record w { moment = suc w.moment; contacts = requested url ∷ w.contacts }))
      (admits : (url : Url) → IsAllowedUrl web url → Admits url) where
    Keeps-settled : {A : Type 0} (r : Result A) → Keeps P (from_result r)
    Keeps-settled (returned a) = tt
    Keeps-settled (thrown e) = tt

    Keeps-perform_request :
        (url : Url) (timeout_ms : ℕ) → Admits url → Keeps P (perform_request web url timeout_ms)
    unfolding perform_request
    Keeps-perform_request url timeout_ms a = λ w. (requests w url a, Keeps-settled _)

    module _ (options : HealthCheckOptions) (most : ℕ) where
      abbrev Again : (Hop → App HealthCheckOutcome) → Type (ℓ ⊔ κ)
      Again again = (hop : Hop) → Admits hop.current → Keeps P (again hop)

      Keeps-after_redirect :
          (again : Hop → App HealthCheckOutcome) (hop : Hop) (code : ℕ) (r : Result AllowedUrl)
          → Again again
          → WhenReturned (HasAllowedUrl web) r
          → Keeps P (after_redirect web options most again hop code r)
      unfolding after_redirect
      Keeps-after_redirect again hop code (returned next) k h = k _ (admits next.url h)
      Keeps-after_redirect again hop code (thrown e) k h = tt

      Keeps-after_response :
          (again : Hop → App HealthCheckOutcome) (hop : Hop) (result : SingleRequestResult)
          → Again again
          → Keeps P (after_response web options most again hop result)
      unfolding after_response
      Keeps-after_response again hop result k = elim (Bool-cases (is_redirect result)) [
        | inr final ↦ rw final tt
        | inl on ↦ elim (Bool-cases (leb most hop.redirects)) [
          | inl over ↦ rw (on, over) tt
          | inr under ↦
              rw (on, under)
                (Keeps->>=_of P (WhenReturned (HasAllowedUrl web)) (attempt _) _
                  (Keeps-attempt P _ (Keeps-assert_redirect_allowed web P timeless _ _))
                  (Returns-attempt (HasAllowedUrl web) _ (assert_redirect_allowed-url web _ _))
                  (λ r. Keeps-after_redirect again hop result.status_code r k))
        ]
      ]

      Keeps-after_request :
          (again : Hop → App HealthCheckOutcome) (hop : Hop) (r : Result SingleRequestResult)
          → Again again
          → Keeps P (after_request web options most again hop r)
      unfolding after_request
      Keeps-after_request again hop (thrown e) k = tt
      Keeps-after_request again hop (returned result) k = Keeps-after_response again _ result k

      Keeps-follow : (fuel : ℕ) → Again (follow web options most fuel)
      unfolding follow
      Keeps-follow zero hop h = tt
      Keeps-follow (suc fuel) hop h =
          Keeps->>= P (attempt _) _ (Keeps-attempt P _ (Keeps-perform_request hop.current _ h))
            (λ r. Keeps-after_request _ hop r (Keeps-follow fuel))

      Keeps-after_guard :
          (r : Result AllowedUrl)
          → WhenReturned (HasAllowedUrl web) r
          → Keeps P (after_guard web options most r)
      unfolding after_guard
      Keeps-after_guard (returned allowed) h = Keeps-follow (suc most) _ (admits allowed.url h)
      Keeps-after_guard (thrown e) h = tt

    pub Keeps-run_health_check :
        (config : Config) (raw_url : Text) (options : HealthCheckOptions)
        → Keeps P (run_health_check web config raw_url options)
    unfolding run_health_check
    Keeps-run_health_check config raw_url options =
        Keeps->>=_of P (WhenReturned (HasAllowedUrl web)) (attempt (assert_url_allowed web raw_url))
          _ (Keeps-attempt P _ (Keeps-assert_url_allowed web P timeless raw_url))
          (Returns-attempt (HasAllowedUrl web) _ (assert_url_allowed-url web raw_url))
          (Keeps-after_guard options _)

  -- If every URL requested so far is allowed by the guard, this holds at each act of a health
  -- check too: it requests nothing that the guard does not allow, at the first hop or any later.
  pub run_health_check-OnlyAllowed :
      (config : Config) (raw_url : Text) (options : HealthCheckOptions)
      → Keeps (OnlyAllowed web) (run_health_check web config raw_url options)
  run_health_check-OnlyAllowed =
      Keeps-run_health_check (OnlyAllowed web) (IsAllowedUrl web) (λ w h. h) (λ w url a h. (a, h))
        (λ url h. h)
