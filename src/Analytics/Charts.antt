-- ===== src/Analytics/Charts.antt =====
-- The extremes of the response time chart, and what the status distribution shows.
use pulse_keeper.Prelude.{
  ==_iff, All, All-map, List, Option, [], ap, arith, count, keep, leb, map, none, refl, some, true,
  ℕ, ◌&&◌, ◌∙◌, ◌∷◌, ◌≡◌, ◌≤◌,
}
use pulse_keeper.Prelude.Sums.{count-keep, count-map, sum_where, sum_where-map}
use pulse_keeper.Prelude.Sorting.{IsSortedBy, sort_by-IsSortedBy, sort_by-count, sort_by-sum_where}
use pulse_keeper.Prelude.Grouping.{group_by, group_by-distinct, group_by-sizes}
use pulse_keeper.Store.{Db, HealthCheck}
use pulse_keeper.Analytics.{
  Filter, ResponseTimePoint, TimeRange, entry_of, is_matched, larger_entry, least_time, most_time,
  range_start, same_code, status_distribution, time_of,
}

pub least_time-le : (cs : List HealthCheck) → All (λ c. least_time cs ≤ time_of c) cs
unfolding least_time
least_time-le [] = tt
least_time-le (c ∷ []) = (omega arith, tt)
least_time-le (c ∷ b ∷ cs) =
    (omega arith, All-map (b ∷ cs) (λ x h. omega (arith, h)) (least_time-le (b ∷ cs)))

pub most_time-ge : (cs : List HealthCheck) → All (λ c. time_of c ≤ most_time cs) cs
unfolding most_time
most_time-ge [] = tt
most_time-ge (c ∷ cs) = (omega arith, All-map cs (λ x h. omega (arith, h)) (most_time-ge cs))

-- The points by time, earliest first.
abbrev pub EarliestFirst : List ResponseTimePoint → Type 0
EarliestFirst = IsSortedBy (λ p q. leb p.timestamp q.timestamp)

module _ (filter : Filter) (range : TimeRange) (now : ℕ) (d : Db) where
  same_code_sound : (a b : Option ℕ) → same_code a b ≡ true → a ≡ b
  same_code_sound none none h = refl
  same_code_sound none (some b) h = cc
  same_code_sound (some a) none h = cc
  same_code_sound (some a) (some b) h = ap some ((==_iff a b).0 h)

  -- The distribution has its entries by their size, the largest first, at most one for each status
  -- code, and those of a code count exactly the checks of the range that ended with it; a check
  -- without a status code counts under the missing code.
  pub status_distribution_lem :
      IsSortedBy larger_entry (status_distribution filter range now d)
      × ((code : Option ℕ)
          → count (λ e. same_code code e.status_code) (status_distribution filter range now d) ≤ 1)
      × ((code : Option ℕ)
          → sum_where
              (λ e. same_code code e.status_code)
              (λ e. e.size)
              (status_distribution filter range now d)
            ≡ count
                (λ c. is_matched filter (range_start range now) c && same_code code c.status_code)
                d.checks)
  unfolding status_distribution entry_of
  status_distribution_lem =
      let matched = keep (is_matched filter (range_start range now)) d.checks in
      let code_of = λ (c : HealthCheck). c.status_code in
      let groups = group_by same_code code_of matched in
      let entries = map entry_of groups in
      (
        sort_by-IsSortedBy larger_entry (λ a b h. ground (arith, h))
            (λ a b c h k. ground (arith, h, k)) entries,
        λ code.
            rw
              (
                sort_by-count larger_entry (λ e. same_code code e.status_code) entries,
                count-map entry_of (λ e. same_code code e.status_code) groups,
              )
              (group_by-distinct same_code code_of same_code_sound code matched),
        λ code.
            sort_by-sum_where larger_entry (λ e. same_code code e.status_code) (λ e. e.size) entries
            ∙ sum_where-map entry_of (λ e. same_code code e.status_code) (λ e. e.size) groups
            ∙ group_by-sizes same_code code_of same_code_sound code matched
            ∙ count-keep (is_matched filter (range_start range now))
                (λ c. same_code code c.status_code) d.checks,
      )
