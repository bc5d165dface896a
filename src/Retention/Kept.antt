-- ===== src/Retention/Kept.antt =====
-- Which checks a cleanup never deletes.
use pulse_keeper.Prelude.{
  All, Bool, Bool-cases, List, [], ap, arith, false, inl, inr, keep, leb, not, refl, true, ℕ, ◌&&◌,
  ◌*◌, ◌++◌, ◌+◌, ◌-◌, ◌==◌, ◌||◌, ◌∙◌, ◌∷◌, ◌≡◌, ◌≤◌,
}
use pulse_keeper.Async.{run}
use pulse_keeper.Async.Rules.{Holds, Holds->>=_of, run-Holds}
use pulse_keeper.Store.{Db, Fault, HealthCheck, Settings, World, fine, not_done, unconfirmed}
use pulse_keeper.Store.Calls.{App, answer_fault, apply_fault, db_call, query, read_clock}
use pulse_keeper.Retention.{
  add_user, cutoff_at, delete_buckets, delete_checks, delete_runs, has_user, is_expired, one_day_ms,
  run_retention_cleanup, users_by_retention,
}

-- The clock is never past this time, and the database satisfies a predicate.
module _ (latest : ℕ) (R : Db → Type 0) where
  abbrev Before : World → Type 0
  Before w = ((n : ℕ) → w.env.clock n ≤ latest) × R w.db

  Holds-read_clock : Holds Before (λ at. at ≤ latest) read_clock
  unfolding read_clock
  Holds-read_clock = λ w p. (p, p.0 w.moment)

  applied : (f : Fault) (g : Db → Db) (d : Db) → (R d → R (g d)) → R d → R (apply_fault f g d)
  applied fine g d h r = h r
  applied (not_done m) g d h r = r
  applied (unconfirmed m) g d h r = h r

  faulted :
      {A : Type 0} (Q : A → Type 0) (f : Fault) (p : App A)
      → Holds Before Q p
      → Holds Before Q (answer_fault f p)
  faulted Q fine p h = h
  faulted Q (not_done m) p h = tt
  faulted Q (unconfirmed m) p h = tt

  Holds-db_call :
      {A : Type 0} (Q : A → Type 0) (g : Db → Db) (k : Db → App A)
      → ((d : Db) → R d → R (g d))
      → ((d : Db) → R d → Holds Before Q (k d))
      → Holds Before Q (db_call g k)
  unfolding db_call
  Holds-db_call Q g k h c = λ w p. (
    (p.0, applied (w.env.db_fault w.moment) g w.db (h w.db) p.1),
    faulted Q (w.env.db_fault w.moment) (k w.db) (c w.db p.1),
  )

module _ (user_id latest least : ℕ) where
  -- The user has chosen to keep checks for this many days at least, or has chosen nothing.
  abbrev pub KeepsLong : Settings → Type 0
  KeepsLong s = s.user_id ≡ user_id → least ≤ s.data_retention_days

  -- A bucket that the user is in lasts long enough.
  abbrev pub IsLong : ℕ × List ℕ → Type 0
  IsLong bucket = has_user bucket.1 user_id ≡ true → least ≤ bucket.0

  -- A check of the user that is no older than that at the latest time.
  abbrev pub is_safe : HealthCheck → Bool
  is_safe c = c.user_id == user_id && leb latest (c.checked_at + least * one_day_ms)

  has_user-append :
      (users : List ℕ) (v : ℕ)
      → has_user (users ++ v ∷ []) user_id ≡ (has_user users user_id || v == user_id)
  has_user-append [] v = ground arith
  has_user-append (x ∷ xs) v = ground (arith, has_user-append xs v)

  add_user-IsLong :
      (days v : ℕ) (buckets : List (ℕ × List ℕ))
      → (v ≡ user_id → least ≤ days)
      → All IsLong buckets
      → All IsLong (add_user days v buckets)
  unfolding add_user
  add_user-IsLong days v [] h all_long = ((λ e. h (ground (arith, e))), tt)
  add_user-IsLong days v (bucket ∷ more) h all_long = elim (Bool-cases (bucket.0 == days)) [
    | inl e ↦ rw e (
      (λ there_now. elim (Bool-cases (has_user bucket.1 user_id)) [
        | inl old ↦ let long = all_long.0 old in ground (arith, e, long)
        | inr absent ↦ h (ground (arith, there_now, absent, has_user-append bucket.1 v))
      ]),
      all_long.1,
    )
    | inr e ↦ rw e (all_long.0, add_user-IsLong days v more h all_long.1)
  ]

  users_by_retention-IsLong :
      (buckets : List (ℕ × List ℕ)) (ss : List Settings)
      → All KeepsLong ss
      → All IsLong buckets
      → All IsLong (users_by_retention buckets ss)
  unfolding users_by_retention
  users_by_retention-IsLong buckets [] h all_long = all_long
  users_by_retention-IsLong buckets (s ∷ ss) h all_long =
      users_by_retention-IsLong (add_user s.data_retention_days s.user_id buckets) ss h.1
        (add_user-IsLong s.data_retention_days s.user_id buckets h.0 all_long)

  -- Such a check is not expired in any of the buckets.
  safe_unexpired :
      (days at : ℕ) (users : List ℕ) (c : HealthCheck)
      → IsLong (days, users)
      → at ≤ latest
      → is_safe c ≡ true
      → is_expired users (cutoff_at at days) c ≡ false
  safe_unexpired days at users c long before safe =
      let same : c.user_id ≡ user_id = ground (arith, safe) in
      let recent : latest ≤ c.checked_at + least * one_day_ms = ground (arith, safe) in
      elim (Bool-cases (has_user users user_id)) [
        | inl e ↦
            let enough : least ≤ days = long e in
            let young : at - days * one_day_ms ≤ c.checked_at = omega arith in ground (arith, young)
        | inr e ↦ rw (same, e) refl
      ]

  keep-safe :
      (days at : ℕ) (users : List ℕ) (cs : List HealthCheck)
      → IsLong (days, users)
      → at ≤ latest
      → keep is_safe (keep (λ c. not (is_expired users (cutoff_at at days) c)) cs) ≡ keep is_safe cs
  keep-safe days at users [] long before = refl
  keep-safe days at users (c ∷ cs) long before = elim (Bool-cases (is_safe c)) [
    | inl s ↦
        rw (safe_unexpired days at users c long before s, s)
          (ap (λ rest. c ∷ rest) (keep-safe days at users cs long before))
    | inr s ↦ elim (Bool-cases (is_expired users (cutoff_at at days) c)) [
      | inl e ↦ rw (e, s) (keep-safe days at users cs long before)
      | inr e ↦ rw (e, s) (keep-safe days at users cs long before)
    ]
  ]

  -- The checks of the user that are young enough, and choices that keep them.
  abbrev Spared : List HealthCheck → Db → Type 0
  Spared cs d = All KeepsLong d.settings × (keep is_safe d.checks ≡ cs)

  module _ (cs : List HealthCheck) where
    Holds-delete_buckets :
        (deleted : ℕ) (buckets : List (ℕ × List ℕ))
        → All IsLong buckets
        → Holds (Before latest (Spared cs)) (λ _. Unit {0}) (delete_buckets deleted buckets)
    unfolding delete_buckets delete_checks
    Holds-delete_buckets deleted [] h = tt
    Holds-delete_buckets deleted ((days, users) ∷ more) h =
        Holds->>=_of _ (λ at. at ≤ latest) _ read_clock _ (Holds-read_clock latest (Spared cs))
          λ at before.
            Holds->>=_of _ (λ _. Unit {0}) _ (db_call _ _) _
              (Holds-db_call latest (Spared cs) (λ _. Unit {0}) _ _
                (λ d r. (r.0, keep-safe days at users d.checks h.0 before ∙ r.1)) (λ d r. tt))
              (λ n _. Holds-delete_buckets (deleted + n) more h.1)

    Holds-run_retention_cleanup :
        Holds (Before latest (Spared cs)) (λ _. Unit {0}) run_retention_cleanup
    unfolding run_retention_cleanup query delete_runs
    Holds-run_retention_cleanup =
        Holds->>=_of _ (All KeepsLong) _ (db_call _ _) _
          (Holds-db_call latest (Spared cs) (All KeepsLong) _ _ (λ d r. r) (λ d r. r.0))
          λ settings long.
            Holds->>=_of _ (λ _. Unit {0}) _ (delete_buckets _ _) _
              (Holds-delete_buckets 0 _ (users_by_retention-IsLong [] settings long tt))
              λ n _.
                Holds->>=_of _ (λ at. at ≤ latest) _ read_clock _
                  (Holds-read_clock latest (Spared cs))
                  λ at before.
                    Holds->>=_of _ (λ _. Unit {0}) _ (db_call _ _) _
                      (Holds-db_call latest (Spared cs) (λ _. Unit {0}) _ _ (λ d r. r) (λ d r. tt))
                      (λ _ _. tt)

-- If the clock is never past `latest` and every choice that the user has made is to keep checks
-- for `least` days or more: however the cleanup ends, all checks of the user that were made no
-- longer than `least` days before `latest` are still there, in their order.
pub cleanup_spares :
    (user_id latest least : ℕ) (w : World)
    → ((n : ℕ) → w.env.clock n ≤ latest)
    → All (KeepsLong user_id latest least) w.db.settings
    → keep (is_safe user_id latest least) (run run_retention_cleanup w).1.db.checks
      ≡ keep (is_safe user_id latest least) w.db.checks
cleanup_spares user_id latest least w bounded choices =
    let kept =
      run-Holds
        (Before latest
          (Spared user_id latest least (keep (is_safe user_id latest least) w.db.checks)))
        (λ _. Unit {0}) run_retention_cleanup w
        (Holds-run_retention_cleanup user_id latest least
          (keep (is_safe user_id latest least) w.db.checks))
        (bounded, (choices, refl)) in
    kept.1.1
