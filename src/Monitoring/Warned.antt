-- ===== src/Monitoring/Warned.antt =====
-- How many warnings the checks of a site give of its certificate.
use pulse_keeper.Prelude.{
  In, List, Option, [], arith, count, false, find, inl, inr, ltb, none, some, sym, true, ℕ, ◌&&◌,
  ◌+◌, ◌∙◌, ◌∷◌, ◌≡◌, ◌≤◌,
}
use pulse_keeper.Prelude.Int.{leb_ℤ, ℤ}
use pulse_keeper.Async.{ret, run, ◌>>=◌}
use pulse_keeper.Async.Rules.{run_after}
use pulse_keeper.Store.{Config, Site, World}
use pulse_keeper.Store.Calls.{Anything, App, IsReliable, OnDb, fits, pass_time, read_clock}
use pulse_keeper.HealthCheck.Request.{TlsCertificateInfo}
use pulse_keeper.Notify.{is_muted, notify, settings_of}
use pulse_keeper.Notify.Counted.{
  Adds, Adds->>=, Adds-notify, Adds-read_clock, Adds-ret, NoFewer, feed_size, notified,
}
use pulse_keeper.Ssl.{
  SslUpdate, announce, certificate_event, handle_certificate, should_warn, warning_band_for,
}
use pulse_keeper.Ssl.Bands.{band_found, band_of, bands}
use pulse_keeper.Monitoring.{set_certificate}

-- What check after check does with the certificates that it meets: each check has the site with what
-- the check before has put into it.
unfoldable pub check_certificates : Config → Site → List TlsCertificateInfo → App (Unit {0})
check_certificates config site [] = ret tt
check_certificates config site (c ∷ cs) = do
  update ← handle_certificate config site c
  check_certificates config (set_certificate (some update) site) cs

-- A certificate that expires in 30 days at most, or has expired.
abbrev pub IsExpiring : TlsCertificateInfo → Type 0
IsExpiring c = leb_ℤ c.days_remaining 30 ≡ true

-- The bands of 1, 7, 14 and 30 days that lie below a remembered warning.
abbrev pub bands_left : Option ℕ → ℕ
bands_left none = 4
bands_left (some b) = count (λ band. ltb band b) (1 ∷ 7 ∷ 14 ∷ 30 ∷ [])

soon_banded : (d : ℤ) → leb_ℤ d 30 ≡ true → (b : ℕ) × (warning_band_for d ≡ some b) × In b bands
soon_banded d soon = elim (band_of d) [
  | inr found ↦ found
  | inl missing ↦
      let none_fits : find (leb_ℤ d) bands ≡ none = sym (band_found d) ∙ missing in
      absurd (ground (arith, soon, none_fits))
]

module _ (config : Config) (site : Site) (c : TlsCertificateInfo) where
  abbrev after_update : SslUpdate → Option ℕ
  after_update u = (set_certificate (some u) site).ssl_warned_at_days

  Adds-announced :
      (b : ℕ)
      → warning_band_for c.days_remaining ≡ some b
      → should_warn c.days_remaining site.ssl_warned_at_days ≡ true
      → Adds 1 (handle_certificate config site c)
  unfolding handle_certificate announce
  Adds-announced b band w =
      Adds->>= 0 1 read_clock _ Adds-read_clock λ at.
        rw (band, w) (Adds->>= 1 0 (notify config _) _ (Adds-notify config _) (λ _. Adds-ret _))

  announced :
      (b n : ℕ) (w : World)
      → warning_band_for c.days_remaining ≡ some b
      → should_warn c.days_remaining site.ssl_warned_at_days ≡ true
      → n ≤ feed_size (run (notify config (certificate_event config site c)) (pass_time w)).1
      → n ≤ feed_size (run (handle_certificate config site c) w).1
  unfolding handle_certificate announce read_clock run ◌>>=◌
  announced b n w band warns h =
      rw (band, warns)
        (run_after (OnDb (NoFewer n) Anything) (notify config (certificate_event config site c)) _
          (pass_time w) (h, tt) (λ _. tt)).0

first_warns :
    (d : ℤ) (b : ℕ) (already : Option ℕ)
    → warning_band_for d ≡ some b
    → already ≡ none
    → should_warn d already ≡ true
unfolding should_warn
first_warns d b none band fresh = ground (arith, band)
first_warns d b (some a) band fresh = cc

-- In a world whose database answers: the first certificate of a site that is found to expire in 30
-- days at most, or to have expired, enters the feed with exactly one notification, if the user has not
-- switched its type off and its title and message are not too long.
pub first_warning :
    (config : Config) (site : Site) (c : TlsCertificateInfo) (w : World)
    → IsReliable w
    → IsExpiring c
    → site.ssl_warned_at_days ≡ none
    → is_muted (certificate_event config site c).type (settings_of site.user_id w.db) ≡ false
    → (fits 140 (certificate_event config site c).title
        && fits 500 (certificate_event config site c).message)
      ≡ true
    → feed_size (run (handle_certificate config site c) w).1 ≡ feed_size w + 1
unfolding certificate_event
first_warning config site c w reliable soon fresh loud short =
    let (b, band, i) = soon_banded c.days_remaining soon in
    let warns = first_warns c.days_remaining b site.ssl_warned_at_days band fresh in
    let event = certificate_event config site c in
    let one_more =
      announced config site c b (feed_size w + 1) w band warns
        (notified config event (pass_time w) reliable loud short) in
    let no_more = Adds-announced config site c b band warns w in omega (arith, one_more, no_more)
