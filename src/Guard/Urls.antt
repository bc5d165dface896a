-- ===== src/Guard/Urls.antt =====
-- Which URLs the guard lets through before it asks the resolver.
use pulse_keeper.Prelude.{
  Bool, Option-cases, Text, any, ap, arith, codes, ends_with, false, has_text, if◌then◌else◌, inl,
  inr, is_empty, length, ltb, none, refl, some, trim, true, ◌↔◌, ◌≡◌, ◌≤◌,
}
use pulse_keeper.Domain.{max_url_length}
use pulse_keeper.Checked.{ok, three_refusals}
use pulse_keeper.Web.{Url, WebLib}
use pulse_keeper.Guard.{
  allowed_protocols, assert_address_allowed, blocked_hostnames, blocked_suffixes, bracketless,
  judge_hostname, judge_url, parse_allowed_url, plain_hostname,
}
use pulse_keeper.Guard.Address.{IsPublic, assert_address_allowed_iff}

module _ (web : WebLib) where
  -- A host name that is not empty, not internal by name, and a public address if it is a literal.
  abbrev pub IsAllowedHost : Text → Type 0
  IsAllowedHost hostname =
      (is_empty hostname ≡ false)
      × (has_text blocked_hostnames hostname ≡ false)
      × (any (ends_with hostname) blocked_suffixes ≡ false)
      × (web.is_valid_ip (bracketless hostname) ≡ true → IsPublic web (bracketless hostname))

  -- A URL over http or https, with no credentials, to a host that is allowed.
  abbrev pub IsAllowedUrl : Url → Type 0
  IsAllowedUrl url =
      (has_text allowed_protocols url.protocol ≡ true)
      × (is_empty url.username ≡ true)
      × (is_empty url.password ≡ true)
      × IsAllowedHost (plain_hostname url)

  literal_sound :
      (b : Bool) (address context : Text) (u : Unit {0})
      → (if b then assert_address_allowed web address context else ok tt) ≡ ok u
      → b ≡ true
      → IsPublic web address
  literal_sound true address context u h e = (assert_address_allowed_iff web address context).0 h
  literal_sound false address context u h e = cc

  literal_complete :
      (b : Bool) (address context : Text)
      → (b ≡ true → IsPublic web address)
      → (if b then assert_address_allowed web address context else ok tt) ≡ ok tt
  literal_complete true address context h =
      (assert_address_allowed_iff web address context).1 (h refl)
  literal_complete false address context h = refl

  judge_hostname_iff :
      (hostname : Text) → (judge_hostname web hostname ≡ ok tt) ↔ IsAllowedHost hostname
  unfolding judge_hostname
  judge_hostname_iff hostname = (
    λ h.
        let (full, unlisted, outside, literal) =
          three_refusals (is_empty hostname) (has_text blocked_hostnames hostname)
            (any (ends_with hostname) blocked_suffixes) _ _ _
            (if web.is_valid_ip (bracketless hostname)
              then assert_address_allowed web (bracketless hostname) (codes "That address")
              else ok tt)
            h in
        (full, unlisted, outside, literal_sound _ (bracketless hostname) _ tt literal),
    λ p. rw (p.0, p.1, p.2) (literal_complete _ (bracketless hostname) _ p.3),
  )

  judge_url_iff : (url v : Url) → (judge_url web url ≡ ok v) ↔ ((url ≡ v) × IsAllowedUrl url)
  unfolding judge_url
  judge_url_iff url v = (
    λ h.
        let host : judge_hostname web (plain_hostname url) ≡ ok tt = ground arith in
        (
          ground arith,
          (
            ground arith,
            ground arith,
            ground arith,
            (judge_hostname_iff (plain_hostname url)).0 host,
          ),
        ),
    λ p. rw (p.1.0, p.1.1, p.1.2, (judge_hostname_iff (plain_hostname url)).1 p.1.3) (ap ok p.0),
  )

  abbrev pub ParsesTo : Text → Url → Type 0
  ParsesTo raw_url url =
      (is_empty (trim raw_url) ≡ false)
      × (length (trim raw_url) ≤ max_url_length)
      × (web.parse_url (trim raw_url) ≡ some url)

  -- `parse_allowed_url` returns a URL exactly when the trimmed text is not empty, at most 2048
  -- long and parses to it, and the URL is allowed: http or https, no credentials, a host name
  -- that is neither empty nor internal by name, and a public address where it is a literal.
  pub parse_allowed_url_iff :
      (raw_url : Text) (url : Url)
      → (parse_allowed_url web raw_url ≡ ok url) ↔ (ParsesTo raw_url url × IsAllowedUrl url)
  unfolding parse_allowed_url
  parse_allowed_url_iff raw_url url = (
    λ h. elim (Option-cases (web.parse_url (trim raw_url))) [
      | inl none_parsed ↦ absurd (refused none_parsed h)
      | inr (v, parsed) ↦
          let judged : judge_url web v ≡ ok url = ground arith in
          let (same, allowed) = (judge_url_iff v url).0 judged in
          ((ground arith, ground arith, ground arith), rw same at allowed)
    ],
    λ p.
        let short : ltb max_url_length (length (trim raw_url)) ≡ false = ground (arith, p.0.1) in
        rw (p.0.0, short, p.0.2) ((judge_url_iff url url).1 (refl, p.1)),
  )
    where
      refused : web.parse_url (trim raw_url) ≡ none → parse_allowed_url web raw_url ≡ ok url → ⊥
      refused e h = ground arith
