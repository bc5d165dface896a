-- ===== src/Guard/Resolution.antt =====
-- What the guard promises of a URL that it has resolved, of a redirect and of a socket's lookup.
use pulse_keeper.Prelude.{
  All, Bool-cases, List, Option, Text, [], codes, inl, inr, none, refl, some, trim, true, ◌∷◌, ◌≡◌,
  ◌≢◌, ◌⊎◌,
}
use pulse_keeper.Errors.{AppError, Thrown, app_error}
use pulse_keeper.Checked.{Checked, check_each, err, ok, ◌>>=◌}
use pulse_keeper.Async.Rules.{Returns}
use pulse_keeper.Web.{DnsReply, Url, WebLib, dns_failed, dns_found}
use pulse_keeper.Guard.{
  AllowedUrl, after_parse, after_resolve, assert_address_allowed, assert_redirect_allowed,
  assert_url_allowed, bracketless, guarded_lookup, judge_resolved, lift, parse_allowed_url,
  plain_hostname, resolve_allowed,
}
use pulse_keeper.Guard.Address.{IsPublic, check_each-IsPublic, check_each_of_IsPublic}
use pulse_keeper.Guard.Urls.{IsAllowedUrl, parse_allowed_url_iff}

-- The URL parser serialises a host that is an address in lower case and with no final dot.
abbrev pub WritesPlainAddresses : WebLib → Type 0
WritesPlainAddresses web =
    (s : Text) (url : Url)
    → web.parse_url s ≡ some url
    → web.is_valid_ip (bracketless url.hostname) ≡ true
    → plain_hostname url ≡ url.hostname

module _ (web : WebLib) where
  -- An allowed URL with the addresses that it resolved to, at least one, all of them public.
  pub record IsAllowed (r : AllowedUrl) : Type 0 where
    pub url_allowed : IsAllowedUrl web r.url
    pub found : r.addresses ≢ []
    pub all_public : All (IsPublic web) r.addresses

  judge_resolved-IsAllowed :
      (url : Url) (hostname : Text) (reply : DnsReply)
      → IsAllowedUrl web url
      → Returns IsAllowed (lift (judge_resolved web url hostname reply))
  unfolding judge_resolved
  judge_resolved-IsAllowed url hostname (dns_failed e) h = tt
  judge_resolved-IsAllowed url hostname (dns_found []) h = tt
  judge_resolved-IsAllowed url hostname (dns_found (a ∷ more)) h =
      lifted (check_each (λ x. assert_address_allowed web x (codes "That hostname")) (a ∷ more))
        refl
    where
      lifted :
          (c : Checked (Unit {0}))
          → check_each (λ x. assert_address_allowed web x (codes "That hostname")) (a ∷ more) ≡ c
          → Returns IsAllowed (lift (c >>= λ _. ok (record { url = url; addresses = a ∷ more })))
      lifted (ok u) e = record {
        url_allowed = h;
        found = λ e. cc;
        all_public = check_each-IsPublic web (a ∷ more) (codes "That hostname") e;
      }
      lifted (err x) e = tt

  literal-IsAllowed :
      (url : Url)
      → IsAllowedUrl web url
      → plain_hostname url ≡ url.hostname
      → web.is_valid_ip (bracketless url.hostname) ≡ true
      → IsAllowed (record { url = url; addresses = bracketless url.hostname ∷ [] })
  literal-IsAllowed url h plain valid =
      let judged : web.is_valid_ip (bracketless url.hostname) ≡ true
          → IsPublic web (bracketless url.hostname) =
        rw plain at h.3.3 in
      record { url_allowed = h; found = λ e. cc; all_public = (judged valid, tt) }

  resolve_allowed-IsAllowed :
      (url : Url)
      → IsAllowedUrl web url
      → (web.is_valid_ip (bracketless url.hostname) ≡ true → plain_hostname url ≡ url.hostname)
      → Returns IsAllowed (resolve_allowed web url)
  unfolding resolve_allowed
  resolve_allowed-IsAllowed url h plain =
      elim (Bool-cases (web.is_valid_ip (bracketless url.hostname))) [
        | inl valid ↦ rw valid (literal-IsAllowed url h (plain valid) valid)
        | inr named ↦ rw named (λ w.
            judge_resolved-IsAllowed url (bracketless url.hostname)
              (w.env.resolver w.moment (bracketless url.hostname)) h)
      ]

  -- Where the parser writes addresses plainly: whatever the resolver answers, a URL that
  -- `assert_url_allowed` returns is allowed, and comes with one address at least, all public.
  pub assert_url_allowed-IsAllowed :
      (raw_url : Text)
      → WritesPlainAddresses web
      → Returns IsAllowed (assert_url_allowed web raw_url)
  unfolding assert_url_allowed
  assert_url_allowed-IsAllowed raw_url plain = checked (parse_allowed_url web raw_url) refl
    where
      checked :
          (c : Checked Url)
          → parse_allowed_url web raw_url ≡ c
          → Returns IsAllowed (after_parse web c)
      checked (ok url) e =
          let (parsed, allowed) = (parse_allowed_url_iff web raw_url url).0 e in
          resolve_allowed-IsAllowed url allowed (plain (trim raw_url) url parsed.2)
      checked (err x) e = tt

  -- Where the parser writes addresses plainly: a redirect's target is resolved against the current
  -- URL and checked in full, so a URL that `assert_redirect_allowed` returns is allowed, and comes
  -- with one address at least, all public.
  pub assert_redirect_allowed-IsAllowed :
      (location : Text) (current : Url)
      → WritesPlainAddresses web
      → Returns IsAllowed (assert_redirect_allowed web location current)
  unfolding assert_redirect_allowed
  assert_redirect_allowed-IsAllowed location current plain =
      located (web.resolve_url location current)
    where
      located : (o : Option Text) → Returns IsAllowed (after_resolve web o)
      located none = tt
      located (some absolute) = assert_url_allowed-IsAllowed absolute plain

  -- What a socket is handed of the resolver's addresses: exactly those, if every one is public,
  -- and otherwise an error.
  pub guarded_lookup_lem :
      (addresses : List Text)
      → ((guarded_lookup web (dns_found addresses) ≡ dns_found addresses)
          × All (IsPublic web) addresses)
        ⊎ ((e : AppError) × (guarded_lookup web (dns_found addresses) ≡ dns_failed (app_error e))
            × ¬ All (IsPublic web) addresses)
  unfolding guarded_lookup
  guarded_lookup_lem addresses =
      judged (check_each (λ x. assert_address_allowed web x (codes "That hostname")) addresses) refl
    where
      judged :
          (c : Checked (Unit {0}))
          → check_each (λ x. assert_address_allowed web x (codes "That hostname")) addresses ≡ c
          → ((guarded_lookup web (dns_found addresses) ≡ dns_found addresses)
              × All (IsPublic web) addresses)
            ⊎ ((e : AppError) × (guarded_lookup web (dns_found addresses)
                  ≡ dns_failed (app_error e))
                × ¬ All (IsPublic web) addresses)
      judged (ok u) e =
          inl (rw (e, guarded_lookup), check_each-IsPublic web addresses (codes "That hostname") e)
      judged (err x) e = inr (
        x,
        rw (e, guarded_lookup),
        λ p. not_both (check_each_of_IsPublic web addresses (codes "That hostname") p),
      )
        where
          not_both :
              check_each (λ x. assert_address_allowed web x (codes "That hostname")) addresses
                ≡ ok tt
              → ⊥
          not_both q = cc

  pub guarded_lookup_failed : (e : Thrown) → guarded_lookup web (dns_failed e) ≡ dns_failed e
  unfolding guarded_lookup
  guarded_lookup_failed e = refl
