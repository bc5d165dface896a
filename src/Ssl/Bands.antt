-- ===== src/Ssl/Bands.antt =====
-- Warning bands, and what they leave unsaid.
use pulse_keeper.Prelude.{
  Bool-cases, In, List, [], arith, false, find, here, inl, inr, none, refl, some, there, true, ℕ,
  ◌∙◌, ◌∷◌, ◌≡◌, ◌≤◌, ◌⊎◌,
}
use pulse_keeper.Prelude.Int.{is_negative, leb_ℤ, negsuc, pos, ℤ}
use pulse_keeper.Async.{run, ◌>>=◌}
use pulse_keeper.Store.{Config, Site, World}
use pulse_keeper.Store.Calls.{pass_time, read_clock}
use pulse_keeper.HealthCheck.Request.{TlsCertificateInfo}
use pulse_keeper.Ssl.{announce, handle_certificate, should_warn, warning_band_for}

abbrev pub bands : List ℕ
bands = 1 ∷ 7 ∷ 14 ∷ 30 ∷ []

pub band_found : (d : ℤ) → warning_band_for d ≡ find (leb_ℤ d) bands
unfolding warning_band_for
band_found d = refl

-- The band of a number of days is one of 1, 7, 14 and 30, if there is one.
pub band_of :
    (d : ℤ) → (warning_band_for d ≡ none) ⊎ ((b : ℕ) × (warning_band_for d ≡ some b) × In b bands)
band_of d = elim (Bool-cases (leb_ℤ d 1)) [
  | inl a ↦ inr (1, band_found d ∙ rw a refl, here)
  | inr a ↦ elim (Bool-cases (leb_ℤ d 7)) [
    | inl b ↦ inr (7, band_found d ∙ rw (a, b) refl, there here)
    | inr b ↦ elim (Bool-cases (leb_ℤ d 14)) [
      | inl c ↦ inr (14, band_found d ∙ rw (a, b, c) refl, there (there here))
      | inr c ↦ elim (Bool-cases (leb_ℤ d 30)) [
        | inl e ↦ inr (30, band_found d ∙ rw (a, b, c, e) refl, there (there (there here)))
        | inr e ↦ inl (band_found d ∙ rw (a, b, c, e) refl)
      ]
    ]
  ]
]

last_band : (d : ℤ) → is_negative d ≡ true → warning_band_for d ≡ some 1
last_band (pos n) e = cc
last_band (negsuc n) e = band_found (negsuc n)

none_after_one : (d : ℤ) → should_warn d (some 1) ≡ false
unfolding should_warn
none_after_one d = elim (band_of d) [
  | inl e ↦ ground (arith, e)
  | inr (b, e, i) ↦ ground (arith, e, at_least_one b i)
]
  where
    at_least_one : (b : ℕ) → In b bands → 1 ≤ b
    at_least_one b here = omega arith
    at_least_one b (there here) = omega arith
    at_least_one b (there (there here)) = omega arith
    at_least_one b (there (there (there here))) = omega arith
    at_least_one b (there (there (there (there i)))) = elim i [ ]

module _ (config : Config) (site : Site) (c : TlsCertificateInfo) where
  -- If the site remembers the 1-day warning and the certificate has expired, `handle_certificate`
  -- only reads the clock: the expiry is not announced.
  pub expired_unannounced :
      (w : World)
      → site.ssl_warned_at_days ≡ some 1
      → is_negative c.days_remaining ≡ true
      → (run (handle_certificate config site c) w).1 ≡ pass_time w
  unfolding handle_certificate announce run read_clock ◌>>=◌
  expired_unannounced w warned expired = simp (last_band c.days_remaining expired, quiet)
    where
      quiet : should_warn c.days_remaining site.ssl_warned_at_days ≡ false
      quiet = rw warned (none_after_one c.days_remaining)
