-- ===== src/Sites/Guarded.antt =====
-- Which URLs get into the database.
use pulse_keeper.Prelude.{
  All, All-append, Option, Text, [], inl, inr, is_empty, none, refl, some, trim, true, ℕ, ◌∷◌, ◌≡◌,
  ◌⊎◌,
}
use pulse_keeper.Prelude.Trimming.{trim-trim}
use pulse_keeper.Checked.{Checked, err, ok}
use pulse_keeper.Async.{Async, act, ret, throw}
use pulse_keeper.Async.Rules.{Keeps, Keeps->>=, Keeps->>=_of, Returns, Returns->>=_of}
use pulse_keeper.Web.{Url, WebLib}
use pulse_keeper.Store.{Db, Site}
use pulse_keeper.Store.Calls.{
  Anything, Keeps-db_call, Keeps-query, Keeps-read_clock, Keeps-validate, OnDb, query, read_clock,
  validate,
}
use pulse_keeper.Guard.{after_parse, assert_url_allowed, parse_allowed_url, resolve_allowed}
use pulse_keeper.Guard.Urls.{IsAllowedUrl, parse_allowed_url_iff}
use pulse_keeper.Guard.Contacts.{Keeps-assert_url_allowed}
use pulse_keeper.Sites.{CreateSiteInput, new_site, trim_if_there}
use pulse_keeper.Sites.Service.{assert_if_there, assert_site_urls_allowed, create_site, insert_site}

Returns-all {ℓ} : {W A : Type 0} (Q : Type ℓ) (m : Async W A) → Q → Returns (λ _. Q) m
Returns-all Q (ret a) q = q
Returns-all Q (throw e) q = tt
Returns-all Q (act g k) q = λ w. Returns-all Q (k w) q

Returns-and {ℓ κ} :
    {W A : Type 0} (P : Type κ) (Q : Type ℓ)
    → P
    → (m : Async W A) → Returns (λ _. Q) m
    → Returns (λ _. P × Q) m
Returns-and P Q p (ret a) q = (p, q)
Returns-and P Q p (throw e) q = tt
Returns-and P Q p (act g k) q = λ w. Returns-and P Q p (k w) (q w)

module _ (web : WebLib) where
  -- A trimmed text that is empty or parses to a URL that the guard allows.
  abbrev pub IsGuarded : Text → Type 0
  IsGuarded s =
      (trim s ≡ s)
      × ((is_empty s ≡ true) ⊎ ((url : Url) × (web.parse_url s ≡ some url) × IsAllowedUrl web url))

  abbrev pub IsGuardedField : Option Text → Type 0
  IsGuardedField none = Unit
  IsGuardedField (some s) = IsGuarded s

  -- Both URLs of every site are empty or allowed by the guard.
  abbrev pub SitesGuarded : Db → Type 0
  SitesGuarded d = All (λ s. IsGuarded s.url × IsGuardedField s.health_endpoint) d.sites

  assert_url_allowed-IsGuarded :
      (raw : Text) → Returns (λ _. IsGuarded (trim raw)) (assert_url_allowed web raw)
  unfolding assert_url_allowed
  assert_url_allowed-IsGuarded raw = checked (parse_allowed_url web raw) refl
    where
      checked :
          (c : Checked Url)
          → parse_allowed_url web raw ≡ c
          → Returns (λ _. IsGuarded (trim raw)) (after_parse web c)
      checked (err x) e = tt
      checked (ok url) e =
          let (parsed, allowed) = (parse_allowed_url_iff web raw url).0 e in
          Returns-all _ (resolve_allowed web url) (trim-trim raw, inr (url, parsed.2, allowed))

  assert_if_there-IsGuarded :
      (o : Option Text) → Returns (λ _. IsGuardedField (trim_if_there o)) (assert_if_there web o)
  unfolding assert_if_there trim
  assert_if_there-IsGuarded none = tt
  assert_if_there-IsGuarded (some []) = (refl, inl refl)
  assert_if_there-IsGuarded (some (c ∷ s)) =
      Returns->>=_of (λ _. IsGuarded (trim (c ∷ s))) _ (assert_url_allowed web (c ∷ s)) _
        (assert_url_allowed-IsGuarded (c ∷ s)) (λ a g. g)

  pub assert_site_urls_allowed-IsGuarded :
      (url endpoint : Option Text)
      → Returns
          (λ _. IsGuardedField (trim_if_there url) × IsGuardedField (trim_if_there endpoint))
          (assert_site_urls_allowed web url endpoint)
  unfolding assert_site_urls_allowed
  assert_site_urls_allowed-IsGuarded url endpoint =
      Returns->>=_of (λ _. IsGuardedField (trim_if_there url)) _ (assert_if_there web url) _
        (assert_if_there-IsGuarded url)
        (λ _ first.
          Returns-and _ _ first (assert_if_there web endpoint) (assert_if_there-IsGuarded endpoint))

  Keeps-assert_if_there :
      (o : Option Text) → Keeps (OnDb SitesGuarded Anything) (assert_if_there web o)
  unfolding assert_if_there
  Keeps-assert_if_there none = tt
  Keeps-assert_if_there (some []) = tt
  Keeps-assert_if_there (some (c ∷ s)) =
      Keeps->>= _ (assert_url_allowed web (c ∷ s)) _
        (Keeps-assert_url_allowed web (OnDb SitesGuarded Anything) (λ w h. h) (c ∷ s)) (λ _. tt)

  pub Keeps-assert_site_urls_allowed :
      (url endpoint : Option Text)
      → Keeps (OnDb SitesGuarded Anything) (assert_site_urls_allowed web url endpoint)
  unfolding assert_site_urls_allowed
  Keeps-assert_site_urls_allowed url endpoint =
      Keeps->>= _ (assert_if_there web url) _ (Keeps-assert_if_there url)
        (λ _. Keeps-assert_if_there endpoint)

  insert_site-SitesGuarded :
      (make : ℕ → Site) (d : Db)
      → ((id : ℕ) → IsGuarded (make id).url × IsGuardedField (make id).health_endpoint)
      → SitesGuarded d
      → SitesGuarded (insert_site make d)
  unfolding insert_site
  insert_site-SitesGuarded make d new h = All-append _ d.sites _ h (new d.next_id, tt)

  -- Creating a site keeps this at each of its acts: both URLs of every stored site are empty or
  -- allowed by the guard. What it stores has been through the guard, whatever the resolver says.
  pub create_site-SitesGuarded :
      (user_id : ℕ) (input : CreateSiteInput)
      → Keeps (OnDb SitesGuarded Anything) (create_site web user_id input)
  unfolding create_site new_site
  create_site-SitesGuarded user_id input =
      Keeps->>=_of _ _ (assert_site_urls_allowed web (some input.url) input.health_endpoint) _
        (Keeps-assert_site_urls_allowed (some input.url) input.health_endpoint)
        (assert_site_urls_allowed-IsGuarded (some input.url) input.health_endpoint)
        λ _ guarded. Keeps->>= _ (query _) _ (Keeps-query SitesGuarded Anything _) λ settings.
          Keeps->>= _ read_clock _ (Keeps-read_clock SitesGuarded Anything) λ at.
            Keeps->>= _ (validate _) _ (Keeps-validate SitesGuarded Anything _) λ _.
              Keeps-db_call SitesGuarded Anything _ _
                (λ d.
                  insert_site-SitesGuarded (new_site user_id input settings at) d (λ id. guarded))
                (λ d. tt)
