-- ===== src/Queries.antt =====
-- server/src/services/incident.query.service.ts and server/src/services/notification.query.service.ts:
-- the incidents and the notifications of a user as the client reads them.
pub mod Feed
use pulse_keeper.Prelude.{
  Bool, List, Option, Text, [], codes, count, false, find, if◌then◌else◌, keep, leb, map, none, not,
  or_option, some, true, update_first, update_where, ℕ, ◌&&◌, ◌-◌, ◌==◌,
}
use pulse_keeper.Prelude.Sums.{round_div}
use pulse_keeper.Prelude.Sorting.{sort_by}
use pulse_keeper.Domain.{
  CheckErrorType, IncidentStatus, NotificationType, active, is_active, resolved,
}
use pulse_keeper.Errors.{Thrown, app_error, not_found}
use pulse_keeper.Async.{ret, ◌>>=◌, ◌>>◌}
use pulse_keeper.Async.Parallel.{pair_of}
use pulse_keeper.Store.{Db, Incident, Notification, Site}
use pulse_keeper.Store.Calls.{App, db_call, found_or, query}
use pulse_keeper.Monitoring.Running.{pick_first}
use pulse_keeper.Paging.{page_of}

-- `PublicIncident`
pub record PublicIncident : Type 0 where
  pub id : ℕ
  pub site_id : ℕ
  pub site_name : Text
  pub site_url : Text
  pub status : IncidentStatus
  pub reason : Text
  pub error_type : Option CheckErrorType
  pub status_code : Option ℕ
  pub started_at : ℕ
  pub resolved_at : Option ℕ
  pub duration_seconds : Option ℕ
  pub failed_checks : ℕ

-- The stored duration, or how long an open incident has been running.
unfoldable pub duration_shown : Incident → ℕ → Option ℕ
unfolding round_div
duration_shown i now =
    or_option i.duration_seconds
      (if is_active i.status then some (round_div (now - i.started_at) 1000) else none)

abbrev pub name_of : Option Site → Text
name_of none = codes "Deleted site"
name_of (some s) = s.name

abbrev pub url_of : Option Site → Text
url_of none = []
url_of (some s) = s.url

unfoldable pub to_public_incident : Incident → Option Site → ℕ → PublicIncident
unfolding duration_shown
to_public_incident i site now = record {
  id = i.id;
  site_id = i.site_id;
  site_name = name_of site;
  site_url = url_of site;
  status = i.status;
  reason = i.reason;
  error_type = i.error_type;
  status_code = i.status_code;
  started_at = i.started_at;
  resolved_at = i.resolved_at;
  duration_seconds = duration_shown i now;
  failed_checks = i.failed_checks;
}

-- The incident with its site, if that is still there.
abbrev pub with_site : ℕ → Db → Incident → PublicIncident
with_site now d i = to_public_incident i (find (λ s. s.id == i.site_id) d.sites) now

-- `ListIncidentsQuery`; no status is 'ALL' too.
pub record ListIncidentsQuery : Type 0 where
  pub status : Option IncidentStatus
  pub site_id : Option ℕ
  pub page : ℕ
  pub limit : ℕ

abbrev same_status : IncidentStatus → IncidentStatus → Bool
same_status active active = true
same_status resolved resolved = true
same_status _ _ = false

unfoldable pub is_listed : ℕ → ListIncidentsQuery → Incident → Bool
is_listed user_id q i =
    i.user_id == user_id
    && elim q.status [ none ↦ true | some s ↦ same_status s i.status ]
    && elim q.site_id [ none ↦ true | some id ↦ i.site_id == id ]

-- `$sort: { status: 1, startedAt: -1 }`
abbrev pub more_urgent : Incident → Incident → Bool
more_urgent i j =
    if same_status i.status j.status then leb j.started_at i.started_at else is_active i.status

unfoldable pub incident_page : ℕ → ListIncidentsQuery → Db → List Incident
unfolding is_listed sort_by page_of
incident_page user_id q d =
    page_of q.page q.limit (sort_by more_urgent (keep (is_listed user_id q) d.incidents))

unfoldable pub list_incidents : ℕ → ListIncidentsQuery → ℕ → App (List PublicIncident × ℕ)
list_incidents user_id q now =
    pair_of pick_first 0 (query (λ d. map (with_site now d) (incident_page user_id q d)))
      (query (λ d. count (is_listed user_id q) d.incidents))

abbrev pub no_incident : Thrown
no_incident = app_error (not_found (codes "Incident not found"))

abbrev pub map_option : {A B : Type 0} → (A → B) → Option A → Option B
map_option f none = none
map_option f (some a) = some (f a)

unfoldable pub get_incident_by_id : ℕ → ℕ → ℕ → App PublicIncident
get_incident_by_id user_id incident_id now = do
  found ← query (λ d.
      map_option (with_site now d)
        (find (λ i. i.id == incident_id && i.user_id == user_id) d.incidents))
  found_or no_incident found

-- `PublicNotification`
pub record PublicNotification : Type 0 where
  pub id : ℕ
  pub site_id : Option ℕ
  pub incident_id : Option ℕ
  pub type : NotificationType
  pub title : Text
  pub message : Text
  pub is_read : Bool
  pub created_at : ℕ

abbrev pub to_public_notification : Notification → PublicNotification
to_public_notification n = record {
  id = n.id;
  site_id = n.site_id;
  incident_id = n.incident_id;
  type = n.type;
  title = n.title;
  message = n.message;
  is_read = n.is_read;
  created_at = n.created_at;
}

abbrev pub is_of_feed : ℕ → Bool → Notification → Bool
is_of_feed user_id unread_only n =
    n.user_id == user_id && (if unread_only then not n.is_read else true)

-- The notifications that are not read yet.
abbrev pub unread_count : ℕ → Db → ℕ
unread_count user_id d = count (is_of_feed user_id true) d.notices

unfoldable pub notification_page : ℕ → Bool → ℕ → ℕ → Db → List PublicNotification
unfolding sort_by page_of
notification_page user_id unread_only page limit d = map to_public_notification (
    page_of page limit (
      sort_by (λ a b. leb b.created_at a.created_at)
        (keep (is_of_feed user_id unread_only) d.notices)))

unfoldable pub list_notifications : ℕ → Bool → ℕ → ℕ → App (List PublicNotification × (ℕ × ℕ))
list_notifications user_id unread_only page limit =
    pair_of pick_first 1 (query (notification_page user_id unread_only page limit)) (
      pair_of pick_first 0 (query (λ d. count (is_of_feed user_id unread_only) d.notices))
        (query (unread_count user_id)))

abbrev pub no_notification : Thrown
no_notification = app_error (not_found (codes "Notification not found"))

abbrev pub read_notice : Notification → Notification
read_notice n = record n { is_read = true }

abbrev pub is_own : ℕ → ℕ → Notification → Bool
is_own user_id notification_id n = n.id == notification_id && n.user_id == user_id

unfoldable pub mark_one_read : ℕ → ℕ → Db → Db
mark_one_read user_id notification_id d = record d {
  notices = update_first (is_own user_id notification_id) read_notice d.notices;
}

unfoldable pub mark_notification_read : ℕ → ℕ → App PublicNotification
mark_notification_read user_id notification_id = do
  found ←
      db_call (mark_one_read user_id notification_id)
        (λ d. ret (find (is_own user_id notification_id) d.notices))
  n ← found_or no_notification found
  ret (to_public_notification (read_notice n))

unfoldable pub mark_all_read : ℕ → Db → Db
mark_all_read user_id d = record d {
  notices = update_where (is_of_feed user_id true) read_notice d.notices;
}

-- `modifiedCount` is the number of the documents that have changed.
unfoldable pub mark_all_notifications_read : ℕ → App ℕ
mark_all_notifications_read user_id =
    db_call (mark_all_read user_id) (λ d. ret (unread_count user_id d))
