-- ===== src/Triggers/Secret.antt =====
-- server/src/middleware/monitorSecret.ts: the secret of the external trigger of a sweep.
use pulse_keeper.Prelude.{
  Bool, Bool-cases, List, Option, Text, [], arith, codes, false, if◌then◌else◌, inl, inr, is_empty,
  length, none, not, refl, some, text_eq, text_eq_refl, text_eq_sound, true, ℕ, ◌==◌, ◌↔◌, ◌∷◌, ◌≡◌,
}
use pulse_keeper.Errors.{AppError, forbidden, unauthorized}
use pulse_keeper.Checked.{Checked, err, ok}

-- A header of a request, which Node gives as nothing, a text or a list of texts.
pub data Header : Type 0 where
  missing : Header
  single : Text → Header
  repeated : List Text → Header

abbrev pub provided_of : Header → Option Text
provided_of missing = none
provided_of (single t) = some t
provided_of (repeated []) = none
provided_of (repeated (t ∷ more)) = some t

abbrev pub trigger_disabled : AppError
trigger_disabled =
    forbidden
      (codes "The monitor trigger is disabled because MONITOR_CRON_SECRET is not configured")

abbrev pub invalid_secret : AppError
invalid_secret = unauthorized (codes "Invalid monitor secret")

-- A text that is there and not empty.
abbrev pub IsGiven : Option Text → Text → Type 0
IsGiven found t = (found ≡ some t) × (is_empty t ≡ false)

module _ (bytes_of : Text → List ℕ) where
  -- `timingSafeEqual` is equality.
  unfoldable pub secrets_match : Text → Text → Bool
  secrets_match provided expected =
      let matching = text_eq (bytes_of provided) (bytes_of expected) in
      if not (length (bytes_of provided) == length (bytes_of expected)) then false else matching

  abbrev pub judge_provided : Option Text → Text → Checked (Unit {0})
  judge_provided none expected = err invalid_secret
  judge_provided (some []) expected = err invalid_secret
  judge_provided (some (c ∷ t)) expected =
      if secrets_match (c ∷ t) expected then ok tt else err invalid_secret

  -- The secret of the environment, and the header of the request.
  unfoldable pub require_monitor_secret : Option Text → Header → Checked (Unit {0})
  require_monitor_secret none header = err trigger_disabled
  require_monitor_secret (some []) header = err trigger_disabled
  require_monitor_secret (some (c ∷ t)) header = judge_provided (provided_of header) (c ∷ t)

  secrets_match_iff :
      (provided expected : Text)
      → (secrets_match provided expected ≡ true) ↔ (bytes_of provided ≡ bytes_of expected)
  unfolding secrets_match
  secrets_match_iff provided expected = (
    λ h. text_eq_sound (bytes_of provided) (bytes_of expected) (ground (arith, h)),
    λ h. rw h (ground (arith, text_eq_refl (bytes_of expected))),
  )

  not_empty : (t : Text) → ¬ IsGiven (some []) t
  not_empty [] (given, filled) = ground (arith, filled)
  not_empty (c ∷ t) (given, filled) = let nothing : [] ≡ c ∷ t = cc in cc

  judge_provided_iff :
      (found : Option Text) (expected : Text)
      → (judge_provided found expected ≡ ok tt)
        ↔ ((provided : Text) × IsGiven found provided × (bytes_of provided ≡ bytes_of expected))
  judge_provided_iff none expected = (λ h. cc, λ (provided, (given, filled), same). cc)
  judge_provided_iff (some []) expected =
      (λ h. cc, λ (provided, given, same). absurd (not_empty provided given))
  judge_provided_iff (some (c ∷ t)) expected = (
    λ h. elim (Bool-cases (secrets_match (c ∷ t) expected)) [
      | inl e ↦ (c ∷ t, (refl, refl), (secrets_match_iff (c ∷ t) expected).0 e)
      | inr e ↦ let refused : err invalid_secret ≡ ok tt = rw e at h in absurd cc
    ],
    λ (provided, (given, filled), same).
        let this_one : c ∷ t ≡ provided = cc in
        rw ((secrets_match_iff (c ∷ t) expected).1 (rw this_one same)) refl,
  )

  -- A request passes exactly if a secret is configured and the request carries one with the same
  -- bytes, and neither is empty.
  pub require_monitor_secret_iff :
      (secret : Option Text) (header : Header)
      → (require_monitor_secret secret header ≡ ok tt) ↔ (
          (expected : Text) × (provided : Text) × IsGiven secret expected
          × IsGiven (provided_of header) provided
          × (bytes_of provided ≡ bytes_of expected))
  unfolding require_monitor_secret
  require_monitor_secret_iff none header =
      (λ h. cc, λ (expected, provided, (given, filled), sent, same). cc)
  require_monitor_secret_iff (some []) header =
      (λ h. cc, λ (expected, provided, given, sent, same). absurd (not_empty expected given))
  require_monitor_secret_iff (some (c ∷ t)) header = (
    λ h.
        let (provided, sent, same) = (judge_provided_iff (provided_of header) (c ∷ t)).0 h in
        (c ∷ t, provided, (refl, refl), sent, same),
    λ (expected, provided, (given, filled), sent, same).
        let this_one : c ∷ t ≡ expected = cc in
        (judge_provided_iff (provided_of header) (c ∷ t)).1 (provided, sent, rw this_one same),
  )
