-- ===== src/Incidents/Recovery.antt =====
-- How an incident ends, and what two writers who race for one do.
use pulse_keeper.Prelude.{
  ==_iff, Bool, Bool-cases, List, Option, Option-cases, Text, [], arith, count, false, find,
  find-none-count, if◌then◌else◌, inl, inr, is_some, leb, none, refl, some, true, update_first, ℕ,
  ◌==◌, ◌∙◌, ◌∷◌, ◌≡◌, ◌≤◌,
}
use pulse_keeper.Domain.{CheckErrorType, site_down}
use pulse_keeper.Errors.{duplicate_key}
use pulse_keeper.Async.{ret, returned, run, throw, thrown, try_catch, ◌>>=◌}
use pulse_keeper.Async.Rules.{run->>=, run-try_catch}
use pulse_keeper.Store.{Config, Incident, Site, World}
use pulse_keeper.Store.Calls.{
  App, IsReliable, fits, pass_time, query, read_clock, run-db_call, run-db_call_then, validate,
}
use pulse_keeper.Notify.{NotificationEvent, is_muted, notify, settings_of}
use pulse_keeper.Incidents.{
  IncidentTransition, announce_opening, count_or_open, create_incident, down_event, find_active,
  handle_successful_check, insert_active, is_active_of, new_incident, open_incident, resolve,
  resolve_found, reuse_incident, save_incident, seconds_between,
}
use pulse_keeper.Incidents.OneActive.{IncidentsValid}
use pulse_keeper.Incidents.Opening.{find-any, notify_then-incidents}

-- No two incidents share an id.
abbrev pub DistinctIds : List Incident → Type 0
DistinctIds xs = (id : ℕ) → count (λ i. i.id == id) xs ≤ 1

found_counts :
    (p : Incident → Bool) (xs : List Incident) (i : Incident)
    → find p xs ≡ some i
    → 1 ≤ count (λ j. j.id == i.id) xs
found_counts p [] i h = cc
found_counts p (x ∷ xs) i h = elim (Bool-cases (p x)) [
  | inl e ↦ let same : x ≡ i = ground (arith, e, h) in rw same (ground (arith, ==_iff i.id i.id))
  | inr e ↦ ground (arith, e, h, found_counts p xs i)
]

-- A change that closes the only open incident leaves none.
close_found :
    (p : Incident → Bool) (f : Incident → Incident) (xs : List Incident) (i : Incident)
    → ((j : Incident) → p (f j) ≡ false)
    → find p xs ≡ some i
    → count p xs ≤ 1
    → count (λ j. j.id == i.id) xs ≤ 1
    → count p (update_first (λ j. j.id == i.id) f xs) ≡ 0
close_found p f [] i closes h one distinct = refl
close_found p f (x ∷ xs) i closes h one distinct = elim (Bool-cases (p x)) [
  | inl e ↦
      let same : x ≡ i = ground (arith, e, h) in
      let hit : (x.id == i.id) ≡ true = rw same (ground (arith, ==_iff i.id i.id)) in
      ground (arith, e, hit, closes x, one)
  | inr e ↦
      let later : find p xs ≡ some i = ground (arith, e, h) in
      ground (arith, e, distinct, found_counts p xs i later, close_found p f xs i closes later)
]

module _ (config : Config) (site : Site) (w : World) where
  -- What resolving leaves, whatever its notification does.
  resolved-incidents :
      (i : Incident)
      → IsReliable w
      → find_active site.id w.db ≡ some i
      → (run (resolve_found config site (some i)) w).1.db.incidents
        ≡ update_first
            (λ j. j.id == i.id)
            (resolve (w.env.clock w.moment) (seconds_between i.started_at (w.env.clock w.moment)))
            w.db.incidents
  unfolding resolve_found read_clock save_incident run ◌>>=◌ find_active
  resolved-incidents i reliable found =
      rw (run-db_call_then _ _ _ (pass_time w) reliable, find-any site.id w.db.incidents i found)
        (notify_then-incidents config _ _ _)

module _ (config : Config) (site : Site) (w : World) where
  run-handle_successful_check :
      IsReliable w
      → run (handle_successful_check config site) w
        ≡ run (resolve_found config site (find_active site.id w.db)) (pass_time w)
  unfolding handle_successful_check query ◌>>=◌
  run-handle_successful_check reliable =
      run-db_call_then (λ d. d) (λ d. ret (find_active site.id d)) (resolve_found config site) w
        reliable

  -- In a world whose database answers, where no site has two open incidents and ids are distinct:
  -- after a successful check the site has no open incident, whatever the notification meets.
  pub handle_successful_check-closes :
      IsReliable w
      → IncidentsValid w.db
      → DistinctIds w.db.incidents
      → count (is_active_of site.id) (run (handle_successful_check config site) w).1.db.incidents
        ≡ 0
  unfolding resolve_found run find_active resolve
  handle_successful_check-closes reliable valid distinct =
      rw (run-handle_successful_check reliable) (elim (Option-cases (find_active site.id w.db)) [
        | inl e ↦ rw e (none_left e)
        | inr (i, e) ↦ rw e (closed i e)
      ])
    where
      none_left : find_active site.id w.db ≡ none → count (is_active_of site.id) w.db.incidents ≡ 0
      none_left e = find-none-count (is_active_of site.id) w.db.incidents e

      closed :
          (i : Incident)
          → find_active site.id w.db ≡ some i
          → count
              (is_active_of site.id)
              (run (resolve_found config site (some i)) (pass_time w)).1.db.incidents
            ≡ 0
      closed i e = rw (resolved-incidents config site (pass_time w) i reliable e) (
          close_found (is_active_of site.id) _ w.db.incidents i (λ j. ground arith) e
            (valid.one_active site.id) (distinct i.id))

-- `Incident.create` where its site has an open incident: the index refuses it.
run-refused :
    {A : Type 0} (make : ℕ → Incident) (f : Incident → App A) (w : World) (other : Incident)
    → IsReliable w
    → find_active (make w.db.next_id).site_id w.db ≡ some other
    → run (create_incident make >>= f) w ≡ (thrown duplicate_key, pass_time w)
unfolding create_incident run ◌>>=◌ insert_active
run-refused make f w other reliable found =
    run-db_call_then (insert_active make)
      (λ d.
        if is_some (find_active (make d.next_id).site_id d)
        then throw duplicate_key
        else ret (make d.next_id))
      f w reliable
    ∙ rw found refl

module _ (config : Config) (site : Site) (w : World) where
  run-reuse :
      (other : Incident) (v : World)
      → IsReliable v
      → find_active site.id v.db ≡ some other
      → run (reuse_incident site.id duplicate_key) v ≡ (returned (some other), pass_time v)
  unfolding reuse_incident query run
  run-reuse other v reliable found =
      run-db_call (λ d. d) (λ d. ret (find_active site.id d)) v reliable ∙ rw found refl

  run-muted :
      (event : NotificationEvent) (v : World)
      → IsReliable v
      → is_muted event.type (settings_of event.user_id v.db) ≡ true
      → run (notify config event) v ≡ (returned tt, pass_time v)
  unfolding notify query run ◌>>=◌
  run-muted event v reliable muted =
      run-db_call_then (λ d. d) (λ d. ret (settings_of event.user_id d)) _ v reliable
      ∙ rw muted refl

  -- `openIncident`, where another writer has opened an incident since the search.
  run-open_incident_late :
      (reason : Text) (error_type : Option CheckErrorType) (status_code : Option ℕ)
      (other : Incident)
      → IsReliable w
      → 1 ≤ site.consecutive_failures
      → fits 300 reason ≡ true
      → find_active site.id w.db ≡ some other
      → run (open_incident site reason error_type status_code) w
        ≡ (returned (some other), pass_time (pass_time (pass_time w)))
  unfolding open_incident read_clock run ◌>>=◌ try_catch validate
  run-open_incident_late reason error_type status_code other reliable some_failures fitting found =
      let positive : leb 1 site.consecutive_failures ≡ true = ground arith in
      let new = new_incident site reason error_type status_code (w.env.clock w.moment) in
      let refusal = run-refused new (λ i. ret (some i)) (pass_time w) other reliable found in
      rw
        (
          fitting,
          positive,
          run-try_catch (create_incident new >>= λ i. ret (some i)) (reuse_incident site.id)
              (pass_time w),
          refusal,
          refusal,
        )
        (run-reuse other (pass_time (pass_time w)) reliable found)

  -- In a world whose database answers: if the search found no incident of the site, the reason
  -- fits and there has been a failure, but another writer has opened an incident since, then none
  -- is created, and the check reports the other writer's incident as opened by itself. The user
  -- has switched the notification off; nothing else but the moment changes.
  pub lost_race_reported :
      (reason : Text) (error_type : Option CheckErrorType) (status_code : Option ℕ)
      (other : Incident)
      → IsReliable w
      → 1 ≤ site.consecutive_failures
      → fits 300 reason ≡ true
      → find_active site.id w.db ≡ some other
      → is_muted site_down (settings_of site.user_id w.db) ≡ true
      → run (count_or_open config site reason error_type status_code none) w ≡ (
        returned (record { opened = true; resolved_one = false; incident_id = some other.id }),
        pass_time (pass_time (pass_time (pass_time w))),
      )
  unfolding count_or_open announce_opening down_event run
  lost_race_reported reason error_type status_code other reliable some_failures fitting found
        muted =
      let late =
        run-open_incident_late reason error_type status_code other reliable some_failures fitting
          found in
      let quiet =
        run-muted (down_event site other reason) (pass_time (pass_time (pass_time w))) reliable
          muted in
      rw
        (
          run->>= (open_incident site reason error_type status_code)
              (announce_opening config site reason) w,
          late,
          late,
          run->>= {B = IncidentTransition} (notify config (down_event site other reason))
              (λ _.
                ret (record { opened = true; resolved_one = false; incident_id = some other.id }))
              (pass_time (pass_time (pass_time w))),
          quiet,
          quiet,
        )
        refl
