-- ===== src/Guard/Contacts.antt =====
-- What the server asks of the outside, and what the guard's own lookups leave of it.
use pulse_keeper.Prelude.{
  All, Bool-cases, List, Option, Text, [], codes, inl, inr, none, refl, some, ◌∷◌, ◌≡◌,
}
use pulse_keeper.Checked.{Checked, check_each, err, ok, ◌>>=◌}
use pulse_keeper.Async.Rules.{Keeps, Returns, Returns-weaken}
use pulse_keeper.Web.{DnsReply, Json, Mail, Url, WebLib, dns_failed, dns_found}
use pulse_keeper.Store.{Contact, World, mailed, posted, requested}
use pulse_keeper.Store.Calls.{Anything, pass_time}
use pulse_keeper.Guard.{
  AllowedUrl, after_parse, after_resolve, assert_address_allowed, assert_redirect_allowed,
  assert_url_allowed, bracketless, judge_resolved, lift, parse_allowed_url, resolve_allowed,
}
use pulse_keeper.Guard.Urls.{IsAllowedUrl, ParsesTo, parse_allowed_url_iff}

module _ (web : WebLib) where
  abbrev pub IsAllowedContact : Contact → Type 0
  IsAllowedContact (requested url) = IsAllowedUrl web url
  IsAllowedContact (posted url body) = IsAllowedUrl web url
  IsAllowedContact (mailed mail) = Unit {0}

  -- Every URL requested so far, by GET or POST, is one that the guard allows.
  abbrev pub OnlyAllowed : World → Type 0
  OnlyAllowed w = All IsAllowedContact w.contacts

  -- A predicate on the contacts that allowed requests and mail keep.
  pub record ContactRules (C : List Contact → Type 0) : Type 0 where
    pub requests :
        (url : Url) (cs : List Contact) → IsAllowedUrl web url → C cs → C (requested url ∷ cs)
    pub posts :
        (url : Url) (body : Json) (cs : List Contact)
        → IsAllowedUrl web url
        → C cs
        → C (posted url body ∷ cs)
    pub mails : (mail : Mail) (cs : List Contact) → C cs → C (mailed mail ∷ cs)

  pub any_rules : ContactRules Anything
  any_rules = record {
    requests = λ url cs a h. tt;
    posts = λ url body cs a h. tt;
    mails = λ mail cs h. tt;
  }

  pub allowed_rules : ContactRules (All IsAllowedContact)
  allowed_rules = record {
    requests = λ url cs a h. (a, h);
    posts = λ url body cs a h. (a, h);
    mails = λ mail cs h. (tt, h);
  }

  abbrev pub HasAllowedUrl : AllowedUrl → Type 0
  HasAllowedUrl r = IsAllowedUrl web r.url

  -- What the resolver adds leaves the URL as it is.
  module _ (Q : Url → Type 0) where
    judge_resolved-url :
        (url : Url) (hostname : Text) (reply : DnsReply)
        → Q url
        → Returns (λ (r : AllowedUrl). Q r.url) (lift (judge_resolved web url hostname reply))
    unfolding judge_resolved
    judge_resolved-url url hostname (dns_failed e) h = tt
    judge_resolved-url url hostname (dns_found []) h = tt
    judge_resolved-url url hostname (dns_found (a ∷ more)) h =
        lifted (check_each (λ x. assert_address_allowed web x (codes "That hostname")) (a ∷ more))
      where
        lifted :
            (c : Checked (Unit {0}))
            → Returns
                (λ (r : AllowedUrl). Q r.url)
                (lift (c >>= λ _. ok (record { url = url; addresses = a ∷ more })))
        lifted (ok u) = h
        lifted (err x) = tt

    resolve_allowed-url :
        (url : Url) → Q url → Returns (λ (r : AllowedUrl). Q r.url) (resolve_allowed web url)
    unfolding resolve_allowed
    resolve_allowed-url url h = elim (Bool-cases (web.is_valid_ip (bracketless url.hostname))) [
      | inl valid ↦ rw valid h
      | inr named ↦ rw named (λ w. judge_resolved-url url _ _ h)
    ]

  abbrev pub HasParsedUrl : Text → AllowedUrl → Type 0
  HasParsedUrl raw_url r = ParsesTo web raw_url r.url × IsAllowedUrl web r.url

  pub assert_url_allowed-parsed :
      (raw_url : Text) → Returns (HasParsedUrl raw_url) (assert_url_allowed web raw_url)
  unfolding assert_url_allowed
  assert_url_allowed-parsed raw_url = checked (parse_allowed_url web raw_url) refl
    where
      checked :
          (c : Checked Url)
          → parse_allowed_url web raw_url ≡ c
          → Returns (HasParsedUrl raw_url) (after_parse web c)
      checked (ok url) e =
          resolve_allowed-url (λ u. ParsesTo web raw_url u × IsAllowedUrl web u) url
            ((parse_allowed_url_iff web raw_url url).0 e)
      checked (err x) e = tt

  pub assert_url_allowed-url :
      (raw_url : Text) → Returns HasAllowedUrl (assert_url_allowed web raw_url)
  assert_url_allowed-url raw_url =
      Returns-weaken (HasParsedUrl raw_url) HasAllowedUrl (assert_url_allowed web raw_url)
        (λ r h. h.1) (assert_url_allowed-parsed raw_url)

  pub assert_redirect_allowed-url :
      (location : Text) (current : Url)
      → Returns HasAllowedUrl (assert_redirect_allowed web location current)
  unfolding assert_redirect_allowed
  assert_redirect_allowed-url location current = located (web.resolve_url location current)
    where
      located : (o : Option Text) → Returns HasAllowedUrl (after_resolve web o)
      located none = tt
      located (some absolute) = assert_url_allowed-url absolute

  -- The guard's own lookups make no request.
  module _ {ℓ} (P : World → Type ℓ) (timeless : (w : World) → P w → P (pass_time w)) where
    Keeps-lift : {A : Type 0} (c : Checked A) → Keeps P (lift c)
    Keeps-lift (ok a) = tt
    Keeps-lift (err e) = tt

    Keeps-resolve_allowed : (url : Url) → Keeps P (resolve_allowed web url)
    unfolding resolve_allowed
    Keeps-resolve_allowed url = elim (Bool-cases (web.is_valid_ip (bracketless url.hostname))) [
      | inl valid ↦ rw valid tt
      | inr named ↦ rw named (λ w. (timeless w, Keeps-lift _))
    ]

    pub Keeps-assert_url_allowed : (raw_url : Text) → Keeps P (assert_url_allowed web raw_url)
    unfolding assert_url_allowed
    Keeps-assert_url_allowed raw_url = checked (parse_allowed_url web raw_url)
      where
        checked : (c : Checked Url) → Keeps P (after_parse web c)
        checked (ok url) = Keeps-resolve_allowed url
        checked (err x) = tt

    pub Keeps-assert_redirect_allowed :
        (location : Text) (current : Url) → Keeps P (assert_redirect_allowed web location current)
    unfolding assert_redirect_allowed
    Keeps-assert_redirect_allowed location current = located (web.resolve_url location current)
      where
        located : (o : Option Text) → Keeps P (after_resolve web o)
        located none = tt
        located (some absolute) = Keeps-assert_url_allowed absolute
