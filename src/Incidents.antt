-- ===== src/Incidents.antt =====
-- server/src/services/incident.service.ts: when an incident opens and when it is resolved, over
-- the schema and the partial unique index of server/src/models/Incident.ts.
pub mod OneActive
pub mod Opening
pub mod Recovery
use pulse_keeper.Prelude.{
  Bool, Option, Text, [], any, codes, false, find, if◌then◌else◌, is_some, leb, ltb, none, show,
  some, suc, true, update_first, ℕ, ◌%◌, ◌&&◌, ◌++◌, ◌+◌, ◌-◌, ◌/◌, ◌==◌, ◌∷◌,
}
use pulse_keeper.Domain.{CheckErrorType, active, is_active, resolved, site_down, site_up}
use pulse_keeper.Errors.{Thrown, app_error, duplicate_key, other_error}
use pulse_keeper.Async.{ret, throw, try_catch, ◌>>=◌, ◌>>◌}
use pulse_keeper.Store.{Config, Db, Incident, Site}
use pulse_keeper.Store.Calls.{App, db_call, fits, query, read_clock, validate}
use pulse_keeper.Notify.{NotificationEvent, notify}

-- `IncidentTransition`
pub record IncidentTransition : Type 0 where
  pub opened : Bool
  pub resolved_one : Bool
  pub incident_id : Option ℕ

abbrev pub no_transition : IncidentTransition
no_transition = record { opened = false; resolved_one = false; incident_id = none }

-- The filter `{ siteId, status: ACTIVE }`.
abbrev pub is_active_of : ℕ → Incident → Bool
is_active_of site_id i = i.site_id == site_id && is_active i.status

unfoldable pub find_active : ℕ → Db → Option Incident
find_active site_id d = find (is_active_of site_id) d.incidents

-- The document that `openIncident` creates.
abbrev pub new_incident : Site → Text → Option CheckErrorType → Option ℕ → ℕ → ℕ → Incident
new_incident site reason error_type status_code started_at id = record {
  id = id;
  site_id = site.id;
  user_id = site.user_id;
  status = active;
  reason = reason;
  error_type = error_type;
  status_code = status_code;
  started_at = started_at;
  resolved_at = none;
  duration_seconds = none;
  failed_checks = site.consecutive_failures;
}

-- The insertion of an active incident under the index: nothing, if its site has one already.
unfoldable pub insert_active : (ℕ → Incident) → Db → Db
unfolding find_active
insert_active make d =
    if is_some (find_active (make d.next_id).site_id d)
    then d
    else record d { incidents = d.incidents ++ make d.next_id ∷ []; next_id = suc d.next_id }

-- `Incident.create`: the document, or the duplicate-key error of the index.
unfoldable pub create_incident : (ℕ → Incident) → App Incident
create_incident make = db_call (insert_active make) (λ d.
    if is_some (find_active (make d.next_id).site_id d)
    then throw duplicate_key
    else ret (make d.next_id))

-- The catch block of `openIncident`: another writer's incident is used.
unfoldable pub reuse_incident : ℕ → Thrown → App (Option Incident)
reuse_incident site_id duplicate_key = query (find_active site_id)
reuse_incident site_id (app_error e) = throw (app_error e)
reuse_incident site_id (other_error code message) = throw (other_error code message)

unfoldable pub open_incident :
    Site → Text → Option CheckErrorType → Option ℕ → App (Option Incident)
open_incident site reason error_type status_code =
    try_catch
      (do
        started_at ← read_clock
        validate (fits 300 reason && leb 1 site.consecutive_failures)
        incident ← create_incident (new_incident site reason error_type status_code started_at)
        ret (some incident))
      (reuse_incident site.id)

-- `incident.save()`: the changed fields are set in the document with this id, which must exist.
unfoldable pub save_incident : ℕ → (Incident → Incident) → App (Unit {0})
save_incident id f =
    db_call (λ d. record d { incidents = update_first (λ i. i.id == id) f d.incidents })
      (λ d.
        if any (λ i. i.id == id) d.incidents
        then ret tt
        else throw (other_error [] (codes "No document found for query")))

unfoldable pub down_event : Site → Incident → Text → NotificationEvent
down_event site incident reason = record {
  user_id = site.user_id;
  site_id = site.id;
  site_name = site.name;
  site_url = site.url;
  incident_id = some incident.id;
  type = site_down;
  title = site.name ++ codes " is down";
  message = reason;
}

-- What follows `openIncident`.
unfoldable pub announce_opening : Config → Site → Text → Option Incident → App IncidentTransition
announce_opening config site reason none = ret no_transition
announce_opening config site reason (some incident) = do
  notify config (down_event site incident reason)
  ret (record { opened = true; resolved_one = false; incident_id = some incident.id })

-- What follows the search for an open incident, at or over the threshold.
unfoldable pub count_or_open :
    Config
    → Site
    → Text
    → Option CheckErrorType
    → Option ℕ
    → Option Incident
    → App IncidentTransition
count_or_open config site reason error_type status_code (some existing) = do
  save_incident existing.id (λ i. record i { failed_checks = existing.failed_checks + 1 })
  ret (record { opened = false; resolved_one = false; incident_id = some existing.id })
count_or_open config site reason error_type status_code none = do
  incident ← open_incident site reason error_type status_code
  announce_opening config site reason incident

unfoldable pub handle_failed_check :
    Config → Site → Text → Option CheckErrorType → Option ℕ → App IncidentTransition
handle_failed_check config site reason error_type status_code =
    if ltb site.consecutive_failures site.failure_threshold then ret no_transition else (do
      existing ← query (find_active site.id)
      count_or_open config site reason error_type status_code existing)

-- `${n} unit` with its plural.
abbrev plural : ℕ → Text → Text
plural n unit = show n ++ (codes " " ++ (unit ++ (if n == 1 then [] else codes "s")))

unfoldable pub format_duration : ℕ → Text
format_duration seconds =
    let minutes = seconds / 60 in
    let hours = minutes / 60 in
    let remaining_minutes = minutes % 60 in
    let days = hours / 24 in
    if ltb seconds 60
    then plural seconds (codes "second")
    else if ltb minutes 60
    then plural minutes (codes "minute")
    else if ltb hours 24
    then (if ltb 0 remaining_minutes
        then show hours ++ (codes "h " ++ (show remaining_minutes ++ codes "m"))
        else plural hours (codes "hour"))
    else plural days (codes "day")

-- `Math.max(0, Math.round((end - start) / 1000))`
unfoldable pub seconds_between : ℕ → ℕ → ℕ
seconds_between start end_time = (end_time - start + 500) / 1000

unfoldable pub resolve : ℕ → ℕ → Incident → Incident
resolve at duration i = record i {
  status = resolved;
  resolved_at = some at;
  duration_seconds = some duration;
}

unfoldable pub up_event : Site → Incident → ℕ → NotificationEvent
up_event site incident duration = record {
  user_id = site.user_id;
  site_id = site.id;
  site_name = site.name;
  site_url = site.url;
  incident_id = some incident.id;
  type = site_up;
  title = site.name ++ codes " is back online";
  message = codes "Recovered after " ++ format_duration duration;
}

-- What follows the search for an open incident after a success.
unfoldable pub resolve_found : Config → Site → Option Incident → App IncidentTransition
resolve_found config site none = ret no_transition
resolve_found config site (some incident) = do
  resolved_at ← read_clock
  save_incident incident.id (resolve resolved_at (seconds_between incident.started_at resolved_at))
  notify config (up_event site incident (seconds_between incident.started_at resolved_at))
  ret (record { opened = false; resolved_one = true; incident_id = some incident.id })

unfoldable pub handle_successful_check : Config → Site → App IncidentTransition
handle_successful_check config site = do
  incident ← query (find_active site.id)
  resolve_found config site incident
