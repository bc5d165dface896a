-- ===== src/Analytics/Downtime.antt =====
-- What the downtime counts.
use pulse_keeper.Prelude.{
  All, All-map, Bool-cases, List, Option, Option-cases, [], arith, false, inl, inr, keep, length,
  refl, some, true, ℕ, ◌*◌, ◌-◌, ◌<◌, ◌∷◌, ◌≡◌, ◌≤◌,
}
use pulse_keeper.Prelude.Sums.{keep-All, round_div, sum_of, sum_of-le}
use pulse_keeper.Domain.{IncidentStatus, active, is_active, resolved}
use pulse_keeper.Store.{Db, Incident}
use pulse_keeper.Incidents.OneActive.{IsConsistent, IsConsistentIncident}
use pulse_keeper.Analytics.{Filter, TimeRange, matches_incident, milliseconds, range_start}
use pulse_keeper.Analytics.Stats.{clipped_seconds, downtime_seconds, reaches}

closed_resolved :
    (s : IncidentStatus) (ended duration : Option ℕ)
    → IsConsistent s ended duration
    → is_active s ≡ false
    → (at : ℕ) × (ended ≡ some at)
closed_resolved active ended duration h e = cc
closed_resolved resolved ended duration h e = h.0

-- An incident that ended before the range counts nothing.
unreached :
    (filter : Filter) (since now : ℕ) (i : Incident)
    → IsConsistentIncident i
    → matches_incident filter i ≡ true
    → reaches filter since i ≡ false
    → clipped_seconds since now i ≡ 0
unfolding clipped_seconds round_div
unreached filter since now i h m r =
    let closed : is_active i.status ≡ false = ground (arith, m, r) in
    let (at, e) = closed_resolved i.status i.resolved_at i.duration_seconds h closed in
    let early : at < since = ground (arith, m, r, e) in rw e (ground (arith, early))

-- An incident that has not been resolved after now.
abbrev pub IsPast : ℕ → Incident → Type 0
IsPast now i = (at : ℕ) → i.resolved_at ≡ some at → at ≤ now

clipped_seconds-le :
    (width now : ℕ) (i : Incident)
    → IsPast now i
    → clipped_seconds (now - width) now i ≤ round_div width 1000
unfolding clipped_seconds round_div
clipped_seconds-le width now i h = elim (Option-cases i.resolved_at) [
  | inl e ↦ rw e (omega arith)
  | inr (at, e) ↦ let before : at ≤ now = h at e in rw e (omega (arith, before))
]

-- The seconds of all incidents are those of the ones that the query finds.
found_suffice :
    (filter : Filter) (since now : ℕ) (xs : List Incident)
    → All IsConsistentIncident xs
    → sum_of (clipped_seconds since now) (keep (reaches filter since) xs)
      ≡ sum_of (clipped_seconds since now) (keep (matches_incident filter) xs)
found_suffice filter since now [] h = refl
found_suffice filter since now (i ∷ xs) h =
    let rest = found_suffice filter since now xs h.1 in
    elim (Bool-cases (matches_incident filter i)) [
      | inr other ↦ rw other rest
      | inl matched ↦ elim (Bool-cases (reaches filter since i)) [
        | inl found ↦ rw (found, matched, rest) refl
        | inr missed ↦
            let nothing = unreached filter since now i h.0 matched missed in
            rw (missed, matched, nothing) (omega (arith, rest))
      ]
    ]

-- Where open incidents have no end and resolved ones have one, the downtime is the sum, over all
-- incidents that the filter matches, of the part of each that lies in the range, in seconds rounded
-- to the nearest; and where none has been resolved after now, no incident counts more than the
-- length of the range.
pub downtime_seconds_lem :
    (filter : Filter) (range : TimeRange) (now : ℕ) (d : Db)
    → All IsConsistentIncident d.incidents
    → (downtime_seconds filter range now d
        ≡ sum_of
            (clipped_seconds (range_start range now) now)
            (keep (matches_incident filter) d.incidents))
      × (All (IsPast now) d.incidents
          → downtime_seconds filter range now d
            ≤ length (keep (reaches filter (range_start range now)) d.incidents)
              * round_div (milliseconds range) 1000)
unfolding downtime_seconds
downtime_seconds_lem filter range now d consistent = (
  found_suffice filter (range_start range now) now d.incidents consistent,
  λ past.
      sum_of-le (clipped_seconds (range_start range now) now) (round_div (milliseconds range) 1000)
        (keep (reaches filter (range_start range now)) d.incidents)
        (keep-All _ (reaches filter (range_start range now)) d.incidents
          (All-map d.incidents (λ i h. clipped_seconds-le (milliseconds range) now i h) past)),
)
