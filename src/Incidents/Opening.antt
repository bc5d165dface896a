-- ===== src/Incidents/Opening.antt =====
-- What a check does to the incidents of its site when the database answers.
use pulse_keeper.Prelude.{
  ==_iff, Bool-cases, List, Option, Text, [], any, arith, false, find, if◌then◌else◌, inl, inr,
  is_some, leb, ltb, none, refl, some, suc, true, update_first, ℕ, ◌++◌, ◌+◌, ◌<◌, ◌==◌, ◌∙◌, ◌∷◌,
  ◌≡◌, ◌≤◌,
}
use pulse_keeper.Domain.{CheckErrorType}
use pulse_keeper.Errors.{duplicate_key}
use pulse_keeper.Async.{ret, returned, run, throw, try_catch, ◌>>=◌}
use pulse_keeper.Async.Rules.{Keeps->>=, run->>=, run-Keeps, run-try_catch}
use pulse_keeper.Store.{Config, Incident, Site, World}
use pulse_keeper.Store.Calls.{
  Anything, IsReliable, OnDb, fits, pass_time, query, read_clock, run-db_call_then, validate,
}
use pulse_keeper.Guard.Contacts.{any_rules}
use pulse_keeper.Notify.{NotificationEvent, insert_notification, notify}
use pulse_keeper.Notify.Delivery.{Keeps-notify}
use pulse_keeper.Incidents.{
  announce_opening, count_or_open, create_incident, find_active, handle_failed_check, insert_active,
  is_active_of, new_incident, no_transition, open_incident, reuse_incident, save_incident,
}

pub find-any :
    (site_id : ℕ) (xs : List Incident) (i : Incident)
    → find (is_active_of site_id) xs ≡ some i
    → any (λ j. j.id == i.id) xs ≡ true
find-any site_id [] i h = cc
find-any site_id (x ∷ xs) i h = elim (Bool-cases (is_active_of site_id x)) [
  | inl e ↦ let same : x ≡ i = ground (arith, e, h) in rw same (ground (arith, ==_iff i.id i.id))
  | inr e ↦ ground (arith, e, h, find-any site_id xs i)
]

-- A notification leaves the incidents as they are.
notify-incidents :
    (config : Config) (event : NotificationEvent) (w : World)
    → (run (notify config event) w).1.db.incidents ≡ w.db.incidents
unfolding insert_notification
notify-incidents config event w =
    (run-Keeps (OnDb (λ d. d.incidents ≡ w.db.incidents) Anything) (notify config event) w
      (Keeps-notify (λ d. d.incidents ≡ w.db.incidents) Anything config (any_rules config.web)
        (λ e at d p. p) (λ id f d p. p) event)
      (refl, tt)).0

-- So does what follows a notification without touching the database.
pub notify_then-incidents :
    {A : Type 0} (config : Config) (event : NotificationEvent) (a : A) (w : World)
    → (run (notify config event >>= λ _. ret a) w).1.db.incidents ≡ w.db.incidents
unfolding insert_notification
notify_then-incidents config event a w =
    (run-Keeps (OnDb (λ d. d.incidents ≡ w.db.incidents) Anything)
      (notify config event >>= λ _. ret a) w
      (Keeps->>= _ (notify config event) _
        (Keeps-notify (λ d. d.incidents ≡ w.db.incidents) Anything config (any_rules config.web)
          (λ e at d p. p) (λ id f d p. p) event)
        (λ _. tt))
      (refl, tt)).0

run-create_incident :
    (make : ℕ → Incident) (w : World)
    → IsReliable w
    → find_active (make w.db.next_id).site_id w.db ≡ none
    → run (create_incident make >>= λ i. ret (some i)) w ≡ (
      returned (some (make w.db.next_id)),
      record w { moment = suc w.moment; db = insert_active make w.db },
    )
unfolding create_incident run ◌>>=◌
run-create_incident make w reliable absent =
    run-db_call_then (insert_active make)
      (λ d.
        if is_some (find_active (make d.next_id).site_id d)
        then throw duplicate_key
        else ret (make d.next_id))
      (λ i. ret (some i)) w reliable
    ∙ rw absent refl

module _ (config : Config) (site : Site) (w : World) where
  -- Below the threshold, a failed check changes nothing and opens nothing.
  pub handle_failed_check-waits :
      (reason : Text) (error_type : Option CheckErrorType) (status_code : Option ℕ)
      → site.consecutive_failures < site.failure_threshold
      → run (handle_failed_check config site reason error_type status_code) w
        ≡ (returned no_transition, w)
  unfolding handle_failed_check run
  handle_failed_check-waits reason error_type status_code h =
      let e : ltb site.consecutive_failures site.failure_threshold ≡ true = ground arith in
      rw e refl

  at_threshold :
      (reason : Text) (error_type : Option CheckErrorType) (status_code : Option ℕ)
      → IsReliable w
      → site.failure_threshold ≤ site.consecutive_failures
      → run (handle_failed_check config site reason error_type status_code) w
        ≡ run
            (count_or_open config site reason error_type status_code (find_active site.id w.db))
            (pass_time w)
  unfolding handle_failed_check query ◌>>=◌
  at_threshold reason error_type status_code reliable h =
      let e : ltb site.consecutive_failures site.failure_threshold ≡ false = ground arith in
      rw e (
        run-db_call_then (λ d. d) (λ d. ret (find_active site.id d))
          (count_or_open config site reason error_type status_code) w reliable)

  -- `openIncident`, where its site has no open incident.
  run-open_incident :
      (reason : Text) (error_type : Option CheckErrorType) (status_code : Option ℕ)
      → IsReliable w
      → 1 ≤ site.consecutive_failures
      → fits 300 reason ≡ true
      → find_active site.id w.db ≡ none
      → let new = new_incident site reason error_type status_code (w.env.clock w.moment) in
        run (open_incident site reason error_type status_code) w ≡ (
          returned (some (new w.db.next_id)),
          record w { moment = suc (suc w.moment); db = insert_active new w.db },
        )
  unfolding open_incident read_clock run ◌>>=◌ try_catch validate
  run-open_incident reason error_type status_code reliable some_failures fitting absent =
      let positive : leb 1 site.consecutive_failures ≡ true = ground arith in
      let new = new_incident site reason error_type status_code (w.env.clock w.moment) in
      rw
        (
          fitting,
          positive,
          run-try_catch (create_incident new >>= λ i. ret (some i)) (reuse_incident site.id)
              (pass_time w),
          run-create_incident new (pass_time w) reliable absent,
          run-create_incident new (pass_time w) reliable absent,
        )
        refl

  -- What opening leaves, whatever its notification does.
  opened-incidents :
      (reason : Text) (error_type : Option CheckErrorType) (status_code : Option ℕ)
      → IsReliable w
      → 1 ≤ site.consecutive_failures
      → fits 300 reason ≡ true
      → find_active site.id w.db ≡ none
      → (run (count_or_open config site reason error_type status_code none) w).1.db.incidents
        ≡ w.db.incidents
          ++ new_incident site reason error_type status_code (w.env.clock w.moment) w.db.next_id
            ∷ []
  unfolding count_or_open announce_opening insert_active
  opened-incidents reason error_type status_code reliable some_failures fitting absent =
      rw
        (
          run->>= (open_incident site reason error_type status_code)
              (announce_opening config site reason) w,
          run-open_incident reason error_type status_code reliable some_failures fitting absent,
          run-open_incident reason error_type status_code reliable some_failures fitting absent,
        )
        (notify_then-incidents config _ _ _ ∙ rw absent refl)

module _ (config : Config) (site : Site) (w : World) where
  -- In a world whose database answers: when the threshold is reached after one failure at least,
  -- the site has no open incident and the reason fits its field, a failed check adds exactly one
  -- incident, open since the moment after the search, whatever the notification of it meets.
  pub handle_failed_check-opens :
      (reason : Text) (error_type : Option CheckErrorType) (status_code : Option ℕ)
      → IsReliable w
      → site.failure_threshold ≤ site.consecutive_failures
      → 1 ≤ site.consecutive_failures
      → fits 300 reason ≡ true
      → find_active site.id w.db ≡ none
      → (run (handle_failed_check config site reason error_type status_code) w).1.db.incidents
        ≡ w.db.incidents
          ++ new_incident site reason error_type status_code
              (w.env.clock (suc w.moment))
              w.db.next_id
            ∷ []
  handle_failed_check-opens reason error_type status_code reliable reached some_failures fitting
        absent =
      rw (at_threshold config site w reason error_type status_code reliable reached, absent)
        (opened-incidents config site (pass_time w) reason error_type status_code reliable
          some_failures fitting absent)

  -- In a world whose database answers: when the threshold is reached and the site has an open
  -- incident, a failed check counts in that incident, opens none and tells nobody.
  pub handle_failed_check-counts :
      (reason : Text) (error_type : Option CheckErrorType) (status_code : Option ℕ)
      (existing : Incident)
      → IsReliable w
      → site.failure_threshold ≤ site.consecutive_failures
      → find_active site.id w.db ≡ some existing
      → run (handle_failed_check config site reason error_type status_code) w ≡ (
        returned (record { opened = false; resolved_one = false; incident_id = some existing.id }),
        record w {
          moment = suc (suc w.moment);
          db = record w.db {
            incidents =
                update_first
                  (λ i. i.id == existing.id)
                  (λ i. record i { failed_checks = existing.failed_checks + 1 })
                  w.db.incidents;
          };
        },
      )
  unfolding count_or_open save_incident run ◌>>=◌ find_active
  handle_failed_check-counts reason error_type status_code existing reliable reached found =
      rw (at_threshold config site w reason error_type status_code reliable reached, found)
        (run-db_call_then _ _ _ (pass_time w) reliable
          ∙ rw (find-any site.id w.db.incidents existing found) refl)
