-- ===== src/Ssl.antt =====
-- server/src/services/ssl.service.ts: when an expiring certificate is announced.
pub mod Bands
use pulse_keeper.Prelude.{
  Bool, List, Option, Text, [], codes, false, find, if◌then◌else◌, is_some, leb, ltb, none, not,
  some, true, update_first, ℕ, ◌++◌, ◌==◌, ◌∷◌,
}
use pulse_keeper.Prelude.Int.{is_negative, leb_ℤ, negsuc, pos, show_ℤ, ℤ}
use pulse_keeper.Domain.{ssl_expired, ssl_expiring, ssl_warning_days}
use pulse_keeper.Async.{ret, ◌>>=◌, ◌>>◌}
use pulse_keeper.Store.{Config, Db, Site}
use pulse_keeper.Store.Calls.{App, read_clock, write}
use pulse_keeper.HealthCheck.Request.{TlsCertificateInfo}
use pulse_keeper.Notify.{NotificationEvent, notify}

unfoldable pub insert_sorted : ℕ → List ℕ → List ℕ
insert_sorted a [] = a ∷ []
insert_sorted a (b ∷ bs) = if leb a b then a ∷ b ∷ bs else b ∷ insert_sorted a bs

-- `[...xs].sort((a, b) => a - b)`
unfoldable pub sort_ascending : List ℕ → List ℕ
unfolding insert_sorted
sort_ascending [] = []
sort_ascending (a ∷ more) = insert_sorted a (sort_ascending more)

-- The warning band of a number of days: the least threshold that it does not exceed.
unfoldable pub warning_band_for : ℤ → Option ℕ
unfolding sort_ascending insert_sorted
warning_band_for days_remaining = find (leb_ℤ days_remaining) (sort_ascending ssl_warning_days)

unfoldable pub should_warn : ℤ → Option ℕ → Bool
should_warn days_remaining already_warned = elim (warning_band_for days_remaining) [
  | none ↦ false
  | some band ↦ elim already_warned [ none ↦ true | some warned ↦ ltb band warned ]
]

-- `SslUpdate`: what the site's update takes of a certificate.
pub record SslUpdate : Type 0 where
  pub valid_to : ℕ
  pub issuer : Option Text
  pub days_remaining : ℤ
  pub checked_at : ℕ
  pub warned_at_days : Option ℕ

abbrev pub update_site_by_id : ℕ → (Site → Site) → Db → Db
update_site_by_id id f d = record d { sites = update_first (λ s. s.id == id) f d.sites }

abbrev one_day : ℤ → Bool
one_day (pos n) = n == 1
one_day (negsuc n) = false

-- The notification of an expiring certificate, or of one that has expired.
unfoldable pub certificate_event : Config → Site → TlsCertificateInfo → NotificationEvent
unfolding show_ℤ
certificate_event config site c = record {
  user_id = site.user_id;
  site_id = site.id;
  site_name = site.name;
  site_url = site.url;
  incident_id = none;
  type = if is_negative c.days_remaining then ssl_expired else ssl_expiring;
  title =
      if is_negative c.days_remaining
      then site.name ++ codes " has an expired certificate"
      else site.name
        ++ (codes " certificate expires in "
            ++ (show_ℤ c.days_remaining
                ++ (codes " day" ++ (if one_day c.days_remaining then [] else codes "s"))));
  message =
      if is_negative c.days_remaining
      then codes "The TLS certificate expired on "
        ++ (config.date_string c.valid_to ++ codes ". Visitors will see a security warning.")
      else codes "The TLS certificate expires on "
        ++ (config.date_string c.valid_to
            ++ (elim c.issuer [
              | none ↦ []
              | some issuer ↦ codes " (issued by " ++ (issuer ++ codes ")")
            ]
                ++ codes "."));
}

-- What follows the warning band of the certificate.
unfoldable pub announce : Config → Site → TlsCertificateInfo → SslUpdate → Option ℕ → App SslUpdate
announce config site c update none =
    if is_some site.ssl_warned_at_days
    then (do
      write (update_site_by_id site.id (λ s. record s { ssl_warned_at_days = none }))
      ret update)
    else ret update
announce config site c update (some band) =
    if not (should_warn c.days_remaining site.ssl_warned_at_days)
    then ret (record update { warned_at_days = site.ssl_warned_at_days })
    else (do
      notify config (certificate_event config site c)
      ret (record update { warned_at_days = some band }))

unfoldable pub handle_certificate : Config → Site → TlsCertificateInfo → App SslUpdate
handle_certificate config site c = do
  checked_at ← read_clock
  announce config site c
      (record {
        valid_to = c.valid_to;
        issuer = c.issuer;
        days_remaining = c.days_remaining;
        checked_at = checked_at;
        warned_at_days = none;
      })
      (warning_band_for c.days_remaining)
