-- ===== src/Retention/Deleted.antt =====
-- Which checks a cleanup does delete.
use pulse_keeper.Prelude.{
  Bool, Bool-cases, List, [], any, ap, arith, count, inl, inr, keep, ltb, not, refl, suc, true, ℕ,
  ◌&&◌, ◌*◌, ◌++◌, ◌+◌, ◌==◌, ◌||◌, ◌∙◌, ◌∷◌, ◌≡◌, ◌≤◌,
}
use pulse_keeper.Async.{ret, run, ◌>>=◌}
use pulse_keeper.Async.Rules.{Keeps, Keeps->>=, run-Keeps, run_after}
use pulse_keeper.Store.{Db, HealthCheck, Settings, World}
use pulse_keeper.Store.Calls.{
  Anything, App, IsReliable, Keeps-db_call, Keeps-read_clock, OnDb, db_call, pass_time, query,
  read_clock, run-db_call_then,
}
use pulse_keeper.Retention.{
  add_user, cutoff_at, delete_buckets, delete_checks, delete_runs, has_user, is_expired,
  monitor_run_retention_days, run_retention_cleanup, users_by_retention,
}

module _ (user_id days earliest : ℕ) where
  -- A check of the user that was older than so many days of 86,400,000 milliseconds each at the
  -- earliest time.
  abbrev pub is_outdated : HealthCheck → Bool
  is_outdated c = c.user_id == user_id && ltb (c.checked_at + days * 86400000) earliest

  abbrev AllGone : Db → Type 0
  AllGone d = count is_outdated d.checks ≡ 0

  -- There is a bucket of these days with the user in it.
  abbrev has_bucket : List (ℕ × List ℕ) → Bool
  has_bucket = any (λ b. b.0 == days && has_user b.1 user_id)

  has_user-end :
      (users : List ℕ) (v : ℕ)
      → has_user (users ++ v ∷ []) user_id ≡ (has_user users user_id || v == user_id)
  has_user-end [] v = ground arith
  has_user-end (x ∷ xs) v = ground (arith, has_user-end xs v)

  add_user-keeps :
      (m v : ℕ) (bs : List (ℕ × List ℕ))
      → has_bucket bs ≡ true
      → has_bucket (add_user m v bs) ≡ true
  unfolding add_user
  add_user-keeps m v [] h = cc
  add_user-keeps m v (b ∷ bs) h = elim (Bool-cases (b.0 == m)) [
    | inl e ↦ rw e (ground (arith, e, h, has_user-end b.1 v))
    | inr e ↦ rw e (ground (arith, h, add_user-keeps m v bs))
  ]

  add_user-has : (bs : List (ℕ × List ℕ)) → has_bucket (add_user days user_id bs) ≡ true
  unfolding add_user
  add_user-has [] = ground arith
  add_user-has (b ∷ bs) = elim (Bool-cases (b.0 == days)) [
    | inl e ↦ rw e (ground (arith, has_user-end b.1 user_id))
    | inr e ↦ rw e (ground (arith, add_user-has bs))
  ]

  users_by_retention-keeps :
      (ss : List Settings) (bs : List (ℕ × List ℕ))
      → has_bucket bs ≡ true
      → has_bucket (users_by_retention bs ss) ≡ true
  unfolding users_by_retention
  users_by_retention-keeps [] bs h = h
  users_by_retention-keeps (s ∷ ss) bs h =
      users_by_retention-keeps ss _ (add_user-keeps s.data_retention_days s.user_id bs h)

  -- The user has chosen these days.
  abbrev pub chose : Settings → Bool
  chose s = s.user_id == user_id && s.data_retention_days == days

  users_by_retention-has :
      (ss : List Settings) (bs : List (ℕ × List ℕ))
      → any chose ss ≡ true
      → has_bucket (users_by_retention bs ss) ≡ true
  unfolding users_by_retention
  users_by_retention-has [] bs h = cc
  users_by_retention-has (s ∷ ss) bs h = elim (Bool-cases (chose s)) [
    | inr e ↦
        users_by_retention-has ss (add_user s.data_retention_days s.user_id bs)
          (ground (arith, e, h))
    | inl e ↦
        let same_user : s.user_id ≡ user_id = ground (arith, e) in
        let same_days : s.data_retention_days ≡ days = ground (arith, e) in
        users_by_retention-keeps ss _ (rw (same_user, same_days) (add_user-has bs))
  ]

  -- A deletion leaves what is gone gone.
  deleted-gone :
      (users : List ℕ) (cutoff : ℕ) (cs : List HealthCheck)
      → count is_outdated cs ≡ 0
      → count is_outdated (keep (λ c. not (is_expired users cutoff c)) cs) ≡ 0
  deleted-gone users cutoff [] h = refl
  deleted-gone users cutoff (c ∷ cs) h = ground (arith, h, deleted-gone users cutoff cs)

  -- The deletion of a bucket with the user.
  bucket-gone :
      (users : List ℕ) (at : ℕ) (cs : List HealthCheck)
      → has_user users user_id ≡ true
      → earliest ≤ at
      → count is_outdated (keep (λ c. not (is_expired users (cutoff_at at days) c)) cs) ≡ 0
  bucket-gone users at [] h late = refl
  bucket-gone users at (c ∷ cs) h late =
      let rest = bucket-gone users at cs h late in
      elim (Bool-cases (is_outdated c)) [
        | inr e ↦ ground (arith, e, rest)
        | inl e ↦
            let same : c.user_id ≡ user_id = ground (arith, e) in
            let expired : is_expired users (cutoff_at at days) c ≡ true =
              rw (same, h) (ground (arith, e, late)) in
            rw expired rest
      ]

  Keeps-delete_buckets :
      (deleted : ℕ) (bs : List (ℕ × List ℕ))
      → Keeps (OnDb AllGone Anything) (delete_buckets deleted bs)
  unfolding delete_buckets delete_checks
  Keeps-delete_buckets deleted [] = tt
  Keeps-delete_buckets deleted ((m, users) ∷ bs) =
      Keeps->>= _ read_clock _ (Keeps-read_clock AllGone Anything) λ at.
        Keeps->>= _ (db_call _ _) _
          (Keeps-db_call AllGone Anything _ _ (λ d. deleted-gone users (cutoff_at at m) d.checks)
            (λ d. tt))
          (λ n. Keeps-delete_buckets (deleted + n) bs)

  -- The clock never goes below the earliest time.
  abbrev pub IsLate : World → Type 0
  IsLate w = (n : ℕ) → earliest ≤ w.env.clock n

  run-delete_buckets :
      (bs : List (ℕ × List ℕ)) (deleted : ℕ) (w : World)
      → IsReliable w
      → IsLate w
      → has_bucket bs ≡ true
      → AllGone (run (delete_buckets deleted bs) w).1.db
  unfolding delete_buckets delete_checks read_clock run ◌>>=◌
  run-delete_buckets [] deleted w reliable late h = cc
  run-delete_buckets ((m, users) ∷ bs) deleted w reliable late h =
      let at = w.env.clock w.moment in
      let cutoff = cutoff_at at m in
      let v = record w {
        moment = suc (suc w.moment);
        db = record w.db { checks = keep (λ c. not (is_expired users cutoff c)) w.db.checks };
      } in
      let n = deleted + count (is_expired users cutoff) w.db.checks in
      let step =
        run-db_call_then (delete_checks users cutoff)
          (λ d. ret (count (is_expired users cutoff) d.checks))
          (λ k. delete_buckets (deleted + k) bs) (pass_time w) reliable in
      let finished : AllGone (run (delete_buckets n bs) v).1.db =
        elim (Bool-cases (m == days && has_user users user_id)) [
          | inl hit ↦
              let same : m ≡ days = ground (arith, hit) in
              let inside : has_user users user_id ≡ true = ground (arith, hit) in
              let gone : AllGone v.db =
                rw same (bucket-gone users at w.db.checks inside (late w.moment)) in
              (run-Keeps (OnDb AllGone Anything) (delete_buckets n bs) v (Keeps-delete_buckets n bs)
                (gone, tt)).0
          | inr miss ↦ run-delete_buckets bs n v reliable late (ground (arith, miss, h))
        ] in
      ap (λ r. count is_outdated r.1.db.checks) step ∙ finished

  -- What a cleanup does after the loop over the buckets.
  abbrev old_runs : ℕ → App (ℕ × ℕ)
  old_runs deleted_checks = do
    at ← read_clock
    deleted_runs ←
        db_call (delete_runs (cutoff_at at monitor_run_retention_days)) (λ d.
          ret (count (λ r. ltb r.started_at (cutoff_at at monitor_run_retention_days)) d.runs))
    ret (deleted_checks, deleted_runs)

  Keeps-old_runs : (deleted : ℕ) → Keeps (OnDb AllGone Anything) (old_runs deleted)
  unfolding delete_runs
  Keeps-old_runs deleted = Keeps->>= _ read_clock _ (Keeps-read_clock AllGone Anything) λ at.
      Keeps->>= _ (db_call _ _) _ (Keeps-db_call AllGone Anything _ _ (λ d gone. gone) (λ d. tt))
        (λ n. tt)

  -- In a world whose database answers and whose clock never goes below `earliest`: if a user has
  -- chosen to keep checks for so many days, then after the cleanup none of the user's checks is left
  -- whose time lies more than so many days of 86,400,000 milliseconds before the earliest time.
  pub cleanup_deletes :
      (w : World)
      → IsReliable w
      → IsLate w
      → any chose w.db.settings ≡ true
      → count is_outdated (run run_retention_cleanup w).1.db.checks ≡ 0
  unfolding run_retention_cleanup query users_by_retention delete_buckets ◌>>=◌ run
  cleanup_deletes w reliable late chosen =
      let buckets = users_by_retention [] w.db.settings in
      let step =
        run-db_call_then (λ d. d) (λ d. ret d.settings)
          (λ ss. delete_buckets 0 (users_by_retention [] ss) >>= old_runs) w reliable in
      ap (λ r. count is_outdated r.1.db.checks) step
      ∙ (run_after (OnDb AllGone Anything) (delete_buckets 0 buckets) old_runs (pass_time w)
          (
            run-delete_buckets buckets 0 (pass_time w) reliable late
                (users_by_retention-has w.db.settings [] chosen),
            tt,
          )
          Keeps-old_runs).0
