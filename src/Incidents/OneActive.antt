-- ===== src/Incidents/OneActive.antt =====
-- At most one open incident for each site, at every act of the incident service.
use pulse_keeper.Prelude.{
  All, All-append, Bool, Bool-cases, List, Option, Option-cases, Text, [], any, arith, codes, count,
  count-append, false, find, find-none-count, if◌then◌else◌, inl, inr, is_some, ltb, none, refl,
  some, true, update_first, ℕ, ◌==◌, ◌∷◌, ◌≡◌, ◌≤◌,
}
use pulse_keeper.Domain.{CheckErrorType, IncidentStatus, active, resolved}
use pulse_keeper.Errors.{Thrown, app_error, duplicate_key, other_error}
use pulse_keeper.Async.{ret, throw}
use pulse_keeper.Async.Rules.{Keeps, Keeps->>=, Keeps-try_catch}
use pulse_keeper.Store.{Config, Contact, Db, Incident, Site, World}
use pulse_keeper.Store.Calls.{
  Keeps-db_call, Keeps-query, Keeps-read_clock, Keeps-validate, OnDb, query, read_clock, validate,
}
use pulse_keeper.Guard.Contacts.{ContactRules}
use pulse_keeper.Notify.{NotificationEvent, insert_notification, notify}
use pulse_keeper.Notify.Delivery.{Keeps-notify}
use pulse_keeper.Incidents.{
  announce_opening, count_or_open, create_incident, find_active, handle_failed_check,
  handle_successful_check, insert_active, is_active_of, open_incident, resolve, resolve_found,
  reuse_incident, save_incident, seconds_between,
}

-- An open incident has no end; a resolved one has an end and a duration.
abbrev pub IsConsistent : IncidentStatus → Option ℕ → Option ℕ → Type 0
IsConsistent active ended duration = (ended ≡ none) × (duration ≡ none)
IsConsistent resolved ended duration =
    ((t : ℕ) × (ended ≡ some t)) × ((n : ℕ) × (duration ≡ some n))

abbrev pub IsConsistentIncident : Incident → Type 0
IsConsistentIncident i = IsConsistent i.status i.resolved_at i.duration_seconds

pub record IncidentsValid (d : Db) : Type 0 where
  pub one_active : (site_id : ℕ) → count (is_active_of site_id) d.incidents ≤ 1
  pub consistent : All IsConsistentIncident d.incidents

count-update_first {ℓ} :
    {A : Type ℓ} (p q : A → Bool) (f : A → A) (xs : List A)
    → ((x : A) → p (f x) ≡ true → p x ≡ true)
    → count p (update_first q f xs) ≤ count p xs
count-update_first p q f [] h = omega arith
count-update_first p q f (x ∷ xs) h = ground (arith, h x, count-update_first p q f xs h)

All-update_first {ℓ κ} :
    {A : Type ℓ} {P : A → Type κ} (q : A → Bool) (f : A → A) (xs : List A)
    → ((x : A) → P x → P (f x))
    → All P xs
    → All P (update_first q f xs)
All-update_first q f [] h a = tt
All-update_first q f (x ∷ xs) h a = elim (Bool-cases (q x)) [
  | inl e ↦ rw e (h x a.0, a.1)
  | inr e ↦ rw e (a.0, All-update_first q f xs h a.1)
]

insert_active-IncidentsValid :
    (make : ℕ → Incident) (d : Db)
    → ((id : ℕ) → (make id).status ≡ active)
    → ((id : ℕ) → IsConsistentIncident (make id))
    → IncidentsValid d
    → IncidentsValid (insert_active make d)
unfolding insert_active find_active
insert_active-IncidentsValid make d act_h con_h v =
    elim (Option-cases (find (is_active_of (make d.next_id).site_id) d.incidents)) [
      | inr (i, e) ↦ rw e v
      | inl e ↦ rw e (record {
        one_active = λ s. ground (
          arith,
          count-append (is_active_of s) d.incidents (make d.next_id ∷ []),
          v.one_active s,
          find-none-count (is_active_of (make d.next_id).site_id) d.incidents e,
        );
        consistent = All-append IsConsistentIncident d.incidents _ v.consistent (con_h _, tt);
      })
    ]

-- A change that opens no incident and keeps each consistent.
save-IncidentsValid :
    (id : ℕ) (f : Incident → Incident) (d : Db)
    → ((s : ℕ) (i : Incident) → is_active_of s (f i) ≡ true → is_active_of s i ≡ true)
    → ((i : Incident) → IsConsistentIncident i → IsConsistentIncident (f i))
    → IncidentsValid d
    → IncidentsValid (record d { incidents = update_first (λ i. i.id == id) f d.incidents })
save-IncidentsValid id f d closes keeps v = record {
  one_active = λ s. omega (
    arith,
    count-update_first (is_active_of s) (λ i. i.id == id) f d.incidents (closes s),
    v.one_active s,
  );
  consistent = All-update_first (λ i. i.id == id) f d.incidents keeps v.consistent;
}

-- The rest of the database does not matter.
pub IncidentsValid-of_same :
    (d e : Db) → d.incidents ≡ e.incidents → IncidentsValid d → IncidentsValid e
IncidentsValid-of_same d e same v = record {
  one_active = λ s. rw (← same) (v.one_active s);
  consistent = rw (← same) v.consistent;
}

module _ (C : List Contact → Type 0) where
  abbrev pub Valid : World → Type 0
  Valid = OnDb IncidentsValid C

  Keeps-save_incident :
      (id : ℕ) (f : Incident → Incident)
      → ((s : ℕ) (i : Incident) → is_active_of s (f i) ≡ true → is_active_of s i ≡ true)
      → ((i : Incident) → IsConsistentIncident i → IsConsistentIncident (f i))
      → Keeps Valid (save_incident id f)
  unfolding save_incident
  Keeps-save_incident id f closes keeps =
      Keeps-db_call IncidentsValid C _ _ (λ d. save-IncidentsValid id f d closes keeps)
        (λ d. answered (any (λ i. i.id == id) d.incidents))
    where
      answered :
          (b : Bool)
          → Keeps {A = Unit {0}} Valid
              (if b then ret tt else throw (other_error [] (codes "No document found for query")))
      answered true = tt
      answered false = tt

  Keeps-create_incident :
      (make : ℕ → Incident)
      → ((id : ℕ) → (make id).status ≡ active)
      → ((id : ℕ) → IsConsistentIncident (make id))
      → Keeps Valid (create_incident make)
  unfolding create_incident
  Keeps-create_incident make opens con =
      Keeps-db_call IncidentsValid C _ _ (λ d. insert_active-IncidentsValid make d opens con)
        (λ d. answered (is_some (find_active (make d.next_id).site_id d)) (make d.next_id))
    where
      answered : (b : Bool) (i : Incident) → Keeps Valid (if b then throw duplicate_key else ret i)
      answered true i = tt
      answered false i = tt

  Keeps-open_incident :
      (site : Site) (reason : Text) (error_type : Option CheckErrorType) (status_code : Option ℕ)
      → Keeps Valid (open_incident site reason error_type status_code)
  unfolding open_incident reuse_incident
  Keeps-open_incident site reason error_type status_code =
      Keeps-try_catch Valid _ _
        (Keeps->>= _ read_clock _ (Keeps-read_clock IncidentsValid C) λ started_at.
          Keeps->>= _ (validate _) _ (Keeps-validate IncidentsValid C _) λ _.
            Keeps->>= _ (create_incident _) _
              (Keeps-create_incident _ (λ id. refl) (λ id. (refl, refl))) (λ i. tt))
        reused
    where
      reused : (e : Thrown) → Keeps Valid (reuse_incident site.id e)
      reused duplicate_key = Keeps-query IncidentsValid C _
      reused (app_error e) = tt
      reused (other_error code message) = tt

  module _ (config : Config) (rules : ContactRules config.web C) where
    pub Keeps-notify-Valid : (event : NotificationEvent) → Keeps Valid (notify config event)
    unfolding insert_notification
    Keeps-notify-Valid =
        Keeps-notify IncidentsValid C config rules (λ e at d v. IncidentsValid-of_same d _ refl v)
          (λ id f d v. IncidentsValid-of_same d _ refl v)

    Keeps-count_or_open :
        (site : Site) (reason : Text) (error_type : Option CheckErrorType) (status_code : Option ℕ)
        (existing : Option Incident)
        → Keeps Valid (count_or_open config site reason error_type status_code existing)
    unfolding count_or_open announce_opening
    Keeps-count_or_open site reason error_type status_code (some existing) =
        Keeps->>= _ (save_incident _ _) _
          (Keeps-save_incident existing.id _ (λ s i e. e) (λ i c. c)) (λ _. tt)
    Keeps-count_or_open site reason error_type status_code none =
        Keeps->>= _ (open_incident _ _ _ _) _
          (Keeps-open_incident site reason error_type status_code) announced
      where
        announced : (o : Option Incident) → Keeps Valid (announce_opening config site reason o)
        announced none = tt
        announced (some i) = Keeps->>= _ (notify _ _) _ (Keeps-notify-Valid _) (λ _. tt)

    pub Keeps-handle_failed_check :
        (site : Site) (reason : Text) (error_type : Option CheckErrorType) (status_code : Option ℕ)
        → Keeps Valid (handle_failed_check config site reason error_type status_code)
    unfolding handle_failed_check
    Keeps-handle_failed_check site reason error_type status_code =
        elim (Bool-cases (ltb site.consecutive_failures site.failure_threshold)) [
          | inl e ↦ rw e tt
          | inr e ↦ rw e (
              Keeps->>= _ (query _) _ (Keeps-query IncidentsValid C _)
                (Keeps-count_or_open site reason error_type status_code))
        ]

    pub Keeps-handle_successful_check :
        (site : Site) → Keeps Valid (handle_successful_check config site)
    unfolding handle_successful_check resolve_found resolve
    Keeps-handle_successful_check site =
        Keeps->>= _ (query _) _ (Keeps-query IncidentsValid C _) closed
      where
        closed : (o : Option Incident) → Keeps Valid (resolve_found config site o)
        closed none = tt
        closed (some i) = Keeps->>= _ read_clock _ (Keeps-read_clock IncidentsValid C) λ at.
            Keeps->>= _ (save_incident _ _) _
              (Keeps-save_incident i.id (resolve at (seconds_between i.started_at at))
                (λ s j e. ground arith)
                (λ j c. ((at, refl), (seconds_between i.started_at at, refl))))
              (λ _. Keeps->>= _ (notify _ _) _ (Keeps-notify-Valid _) (λ _. tt))
