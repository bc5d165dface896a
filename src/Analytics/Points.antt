-- ===== src/Analytics/Points.antt =====
-- What the points of the response time chart show.
use pulse_keeper.Prelude.{
  ==_iff, All, All-of, Bool, Bool-cases, List, [], all, any, ap, arith, count, inl, inr, is_some,
  keep, leb, length, ltb, map, max, min, not, refl, sym, true, ℕ, ◌&&◌, ◌*◌, ◌+◌, ◌/◌, ◌<◌, ◌==◌,
  ◌∙◌, ◌∷◌, ◌≡◌, ◌≤◌,
}
use mathlib.Core.Path.{subst}
use pulse_keeper.Prelude.Sums.{count-map, length-keep, round_div, sum_of, sum_where, sum_where-map}
use pulse_keeper.Prelude.Sorting.{
  map-IsSortedBy, sort_by, sort_by-All, sort_by-IsSortedBy, sort_by-count, sort_by-sum_where,
}
use pulse_keeper.Prelude.Grouping.{
  Group, group_by, group_by-HasAllOf, group_by-OfMembers, group_by-distinct, group_by-sizes,
}
use pulse_keeper.Store.{Db, HealthCheck}
use pulse_keeper.Analytics.{
  Filter, ResponseTimePoint, TimeRange, bucket_width, earlier_group, is_charted, last_24h, last_30d,
  last_7d, last_90d, last_hour, least_time, matches_check, mean_time, milliseconds, most_time,
  of_site, of_user, point_of, range_start, response_time_series, time_of, truncated,
}
use pulse_keeper.Analytics.Charts.{EarliestFirst, least_time-le, most_time-ge}

-- Whether a report is about a check.
abbrev pub is_about_check : Filter → HealthCheck → Bool
is_about_check (of_user u) c = c.user_id == u
is_about_check (of_site s u) c = c.user_id == u && c.site_id == s

-- A check that belongs into the point at a time: it is in the report and in its range, it succeeded
-- with a response time, and it was made in the bucket that begins then.
abbrev pub is_plotted : Filter → TimeRange → ℕ → ℕ → HealthCheck → Bool
is_plotted filter range now at c =
    c.success
    && is_some c.response_time_ms
    && is_about_check filter c
    && not (ltb (c.checked_at + milliseconds range) now)
    && leb at c.checked_at
    && ltb c.checked_at (at + bucket_width range)

-- Whether one of the checks took so long.
abbrev pub has_time : List HealthCheck → ℕ → Bool
has_time cs v = any (λ c. time_of c == v) cs

-- A point of these checks: their number, their shortest and longest time, and their average rounded.
abbrev pub IsPointOf : List HealthCheck → ResponseTimePoint → Type 0
IsPointOf cs p =
    (1 ≤ p.size)
    × (p.size ≡ length cs)
    × All (λ c. (p.least ≤ time_of c) × (time_of c ≤ p.most)) cs
    × (has_time cs p.least ≡ true)
    × (has_time cs p.most ≡ true)
    × (2 * (p.size * p.avg) ≤ 2 * sum_of time_of cs + p.size)
    × (2 * sum_of time_of cs < 2 * (p.size * p.avg) + p.size)

rounded :
    (a b : ℕ)
    → 0 < b
    → (2 * (b * round_div a b) ≤ 2 * a + b) × (2 * a < 2 * (b * round_div a b) + b)
unfolding round_div
rounded a b h = (grind arith, grind arith)

has_own : (c : HealthCheck) (cs : List HealthCheck) → has_time (c ∷ cs) (time_of c) ≡ true
has_own c cs = rw ((==_iff (time_of c) (time_of c)).1 refl) refl

has_later :
    (c : HealthCheck) (cs : List HealthCheck) (v : ℕ)
    → has_time cs v ≡ true
    → has_time (c ∷ cs) v ≡ true
has_later c cs v h = ground (arith, h)

least_time-attained : (cs : List HealthCheck) → 1 ≤ length cs → has_time cs (least_time cs) ≡ true
unfolding least_time
least_time-attained [] h = absurd (omega (arith, h))
least_time-attained (c ∷ []) h = ground (arith, (==_iff (time_of c) (time_of c)).1 refl)
least_time-attained (c ∷ b ∷ cs) h =
    let later = least_time (b ∷ cs) in
    let found = least_time-attained (b ∷ cs) (omega arith) in
    elim (Bool-cases (leb (time_of c) later)) [
      | inl e ↦
          let first : min (time_of c) later ≡ time_of c = ground (arith, e) in
          ap (has_time (c ∷ b ∷ cs)) first ∙ has_own c (b ∷ cs)
      | inr e ↦
          let second : min (time_of c) later ≡ later = ground (arith, e) in
          ap (has_time (c ∷ b ∷ cs)) second ∙ has_later c (b ∷ cs) later found
    ]

most_time-attained : (cs : List HealthCheck) → 1 ≤ length cs → has_time cs (most_time cs) ≡ true
unfolding most_time
most_time-attained [] h = absurd (omega (arith, h))
most_time-attained (c ∷ []) h =
    let alone : max (time_of c) 0 ≡ time_of c = omega arith in
    rw (alone, (==_iff (time_of c) (time_of c)).1 refl) refl
most_time-attained (c ∷ b ∷ cs) h =
    let later = most_time (b ∷ cs) in
    let found = most_time-attained (b ∷ cs) (omega arith) in
    elim (Bool-cases (leb later (time_of c))) [
      | inl e ↦
          let first : max (time_of c) later ≡ time_of c = ground (arith, e) in
          ap (has_time (c ∷ b ∷ cs)) first ∙ has_own c (b ∷ cs)
      | inr e ↦
          let second : max (time_of c) later ≡ later = ground (arith, e) in
          ap (has_time (c ∷ b ∷ cs)) second ∙ has_later c (b ∷ cs) later found
    ]

-- A time lies in the bucket to which it is truncated.
bucket_test :
    (range : TimeRange) (k at : ℕ)
    → (k * bucket_width range == truncated (bucket_width range) at)
      ≡ (leb (k * bucket_width range) at && ltb at (k * bucket_width range + bucket_width range))
bucket_test last_hour k at = ground arith
bucket_test last_24h k at = ground arith
bucket_test last_7d k at = ground arith
bucket_test last_30d k at = ground arith
bucket_test last_90d k at = ground arith

range_test :
    (range : TimeRange) (now at : ℕ)
    → leb (range_start range now) at ≡ not (ltb (at + milliseconds range) now)
range_test range now at = ground arith

about_test : (filter : Filter) (c : HealthCheck) → matches_check filter c ≡ is_about_check filter c
about_test (of_user u) c = refl
about_test (of_site s u) c = ground arith

plotted_same :
    (filter : Filter) (range : TimeRange) (now k : ℕ) (c : HealthCheck)
    → (is_charted filter (range_start range now) c
        && k * bucket_width range == truncated (bucket_width range) c.checked_at)
      ≡ is_plotted filter range now (k * bucket_width range) c
plotted_same filter range now k c = ground (
  arith,
  bucket_test range k c.checked_at,
  range_test range now c.checked_at,
  about_test filter c,
)

keep-same :
    {A : Type 0} (p q : A → Bool) (xs : List A) → ((x : A) → p x ≡ q x) → keep p xs ≡ keep q xs
keep-same p q [] h = refl
keep-same p q (x ∷ xs) h = rw (h x, keep-same p q xs h) refl

keep-keep :
    {A : Type 0} (p q : A → Bool) (xs : List A) → keep q (keep p xs) ≡ keep (λ x. p x && q x) xs
keep-keep p q [] = refl
keep-keep p q (x ∷ xs) = elim (Bool-cases (p x)) [
  | inl e ↦ elim (Bool-cases (q x)) [
    | inl f ↦ rw (e, f) (ap (λ ys. x ∷ ys) (keep-keep p q xs))
    | inr f ↦ rw (e, f) (keep-keep p q xs)
  ]
  | inr e ↦ rw e (keep-keep p q xs)
]

keep-some :
    {A : Type 0} (p : A → Bool) (xs : List A) → 1 ≤ length (keep p xs) → (x : A) × (p x ≡ true)
keep-some p [] h = absurd (omega (arith, h))
keep-some p (x ∷ xs) h = elim (Bool-cases (p x)) [
  | inl e ↦ (x, e)
  | inr e ↦ keep-some p xs (rw e at h)
]

All-pair :
    {A : Type 0} (P Q : A → Type 0) (xs : List A) → All P xs → All Q xs → All (λ x. P x × Q x) xs
All-pair P Q [] h k = tt
All-pair P Q (x ∷ xs) h k = ((h.0, k.0), All-pair P Q xs h.1 k.1)

All-mapped :
    {A B : Type 0} (P : A → Type 0) (Q : B → Type 0) (f : A → B) (xs : List A)
    → ((x : A) → P x → Q (f x))
    → All P xs
    → All Q (map f xs)
All-mapped P Q f [] k h = tt
All-mapped P Q f (x ∷ xs) k h = (k x h.0, All-mapped P Q f xs k h.1)

module _ (filter : Filter) (range : TimeRange) (now : ℕ) (d : Db) where
  abbrev bin_of : HealthCheck → ℕ
  bin_of c = truncated (bucket_width range) c.checked_at

  abbrev charted : List HealthCheck
  charted = keep (is_charted filter (range_start range now)) d.checks

  -- The checks of the point at a time.
  abbrev pub plotted : ℕ → List HealthCheck
  plotted at = keep (is_plotted filter range now at) d.checks

  charted_at :
      (k : ℕ)
      → keep (λ c. k * bucket_width range == bin_of c) charted ≡ plotted (k * bucket_width range)
  charted_at k =
      keep-keep (is_charted filter (range_start range now))
        (λ c. k * bucket_width range == bin_of c) d.checks
      ∙ keep-same _ _ d.checks (plotted_same filter range now k)

  -- A point that begins where a bucket begins, of the checks of that bucket.
  abbrev pub IsTruePoint : ResponseTimePoint → Type 0
  IsTruePoint p =
      (k : ℕ) × (p.timestamp ≡ k * bucket_width range) × IsPointOf (plotted p.timestamp) p

  point_of-IsPointOf :
      (g : Group ℕ HealthCheck) → 1 ≤ length g.members → IsPointOf g.members (point_of g)
  unfolding point_of mean_time
  point_of-IsPointOf g h =
      let (low, high) = rounded (sum_of time_of g.members) (length g.members) h in
      (
        h,
        refl,
        All-pair _ _ g.members (least_time-le g.members) (most_time-ge g.members),
        least_time-attained g.members h,
        most_time-attained g.members h,
        low,
        high,
      )

  point_of-IsTruePoint :
      (g : Group ℕ HealthCheck)
      → 1 ≤ length g.members
      → g.members ≡ keep (λ c. g.key == bin_of c) charted
      → IsTruePoint (point_of g)
  unfolding point_of
  point_of-IsTruePoint g h all =
      let (c, hit) = keep-some (λ c. g.key == bin_of c) charted (rw all at h) in
      let at_start : g.key ≡ c.checked_at / bucket_width range * bucket_width range =
        (==_iff g.key (bin_of c)).0 hit in
      let k = c.checked_at / bucket_width range in
      let same : g.members ≡ plotted g.key =
        all
        ∙ ap (λ at. keep (λ c. at == bin_of c) charted) at_start
        ∙ charted_at k
        ∙ ap plotted (sym at_start) in
      (k, at_start, subst (λ cs. IsPointOf cs (point_of g)) same (point_of-IsPointOf g h))

  -- The chart has its points in the order of time, at most one for each bucket of its range. Each
  -- point begins where a bucket begins and is of that bucket's checks, one at least: those of the
  -- report and the range that succeeded with a response time and were made in it. It has their
  -- number, their least and most response time, and the average rounded to the nearest number; and
  -- the points of a bucket count all of its checks.
  pub response_time_series_lem :
      EarliestFirst (response_time_series filter range now d)
      × ((at : ℕ) → count (λ p. at == p.timestamp) (response_time_series filter range now d) ≤ 1)
      × All IsTruePoint (response_time_series filter range now d)
      × ((k : ℕ)
          → sum_where
              (λ p. k * bucket_width range == p.timestamp)
              (λ p. p.size)
              (response_time_series filter range now d)
            ≡ length (plotted (k * bucket_width range)))
  unfolding response_time_series point_of
  response_time_series_lem =
      let groups = group_by ◌==◌ bin_of charted in
      let sorted = sort_by earlier_group groups in
      let sound = λ (j k : ℕ) (e : (j == k) ≡ true). (==_iff j k).0 e in
      (
        map-IsSortedBy (λ p q. leb p.timestamp q.timestamp) point_of sorted
            (sort_by-IsSortedBy earlier_group (λ a b h. ground (arith, h))
              (λ a b c h k. ground (arith, h, k)) groups),
        λ at.
            rw
              (
                count-map point_of (λ p. at == p.timestamp) sorted,
                sort_by-count earlier_group (λ g. at == g.key) groups,
              )
              (group_by-distinct ◌==◌ bin_of sound at charted),
        All-mapped _ _ point_of sorted (λ g h. point_of-IsTruePoint g h.0.1 h.1)
            (sort_by-All earlier_group _ groups (
              All-pair _ _ groups
                (group_by-OfMembers ◌==◌ bin_of (λ c. Unit {0}) charted (All-of charted (λ c. tt)))
                (group_by-HasAllOf ◌==◌ bin_of sound (λ j k. ground arith)
                  (λ k. (==_iff k k).1 refl) charted))),
        λ k.
            sum_where-map point_of (λ p. k * bucket_width range == p.timestamp) (λ p. p.size) sorted
            ∙ sort_by-sum_where earlier_group (λ g. k * bucket_width range == g.key)
                (λ g. length g.members) groups
            ∙ group_by-sizes ◌==◌ bin_of sound (k * bucket_width range) charted
            ∙ sym (length-keep (λ c. k * bucket_width range == bin_of c) charted)
            ∙ ap length (charted_at k),
      )
