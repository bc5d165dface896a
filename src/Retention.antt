-- ===== src/Retention.antt =====
-- server/src/jobs/cleanupJob.ts: the deletion of old checks and runs.
pub mod Kept
pub mod Deleted
use pulse_keeper.Prelude.{
  Bool, List, [], count, false, if◌then◌else◌, keep, ltb, not, ℕ, ◌&&◌, ◌*◌, ◌++◌, ◌+◌, ◌-◌, ◌==◌,
  ◌||◌, ◌∷◌,
}
use pulse_keeper.Async.{ret, ◌>>=◌, ◌>>◌}
use pulse_keeper.Store.{Db, HealthCheck, Settings}
use pulse_keeper.Store.Calls.{App, db_call, query, read_clock}

-- `MONITOR_RUN_RETENTION_DAYS`
abbrev pub monitor_run_retention_days : ℕ
monitor_run_retention_days = 30

abbrev pub one_day_ms : ℕ
one_day_ms = 86400000

abbrev pub has_user : List ℕ → ℕ → Bool
has_user [] u = false
has_user (v ∷ vs) u = v == u || has_user vs u

-- `usersByRetention` with one user more, in the order of insertion of a `Map`.
unfoldable pub add_user : ℕ → ℕ → List (ℕ × List ℕ) → List (ℕ × List ℕ)
add_user days user_id [] = (days, user_id ∷ []) ∷ []
add_user days user_id (bucket ∷ more) =
    if bucket.0 == days
    then (days, bucket.1 ++ user_id ∷ []) ∷ more
    else bucket ∷ add_user days user_id more

unfoldable pub users_by_retention : List (ℕ × List ℕ) → List Settings → List (ℕ × List ℕ)
users_by_retention buckets [] = buckets
users_by_retention buckets (s ∷ ss) =
    users_by_retention (add_user s.data_retention_days s.user_id buckets) ss

-- A time so many days before another. No time is below 0, so nothing is before it then.
abbrev pub cutoff_at : ℕ → ℕ → ℕ
cutoff_at at days = at - days * one_day_ms

abbrev pub is_expired : List ℕ → ℕ → HealthCheck → Bool
is_expired users cutoff c = has_user users c.user_id && ltb c.checked_at cutoff

unfoldable pub delete_checks : List ℕ → ℕ → Db → Db
delete_checks users cutoff d = record d {
  checks = keep (λ c. not (is_expired users cutoff c)) d.checks;
}

-- The loop over `usersByRetention`, with the checks deleted so far.
unfoldable pub delete_buckets : ℕ → List (ℕ × List ℕ) → App ℕ
delete_buckets deleted [] = ret deleted
delete_buckets deleted ((days, users) ∷ more) = read_clock >>= λ at.
    db_call (delete_checks users (cutoff_at at days))
      (λ d. ret (count (is_expired users (cutoff_at at days)) d.checks))
    >>= λ n. delete_buckets (deleted + n) more

unfoldable pub delete_runs : ℕ → Db → Db
delete_runs cutoff d = record d { runs = keep (λ r. not (ltb r.started_at cutoff)) d.runs }

-- `runRetentionCleanup`: how many checks and how many runs it has deleted.
unfoldable pub run_retention_cleanup : App (ℕ × ℕ)
run_retention_cleanup = do
  settings ← query (λ d. d.settings)
  deleted_checks ← delete_buckets 0 (users_by_retention [] settings)
  at ← read_clock
  deleted_runs ←
      db_call (delete_runs (cutoff_at at monitor_run_retention_days))
        (λ d. ret (count (λ r. ltb r.started_at (cutoff_at at monitor_run_retention_days)) d.runs))
  ret (deleted_checks, deleted_runs)
