-- ===== src/Analytics/Rankings.antt =====
-- server/src/services/analytics.service.ts: the three rankings of a user's sites.
use pulse_keeper.Prelude.{
  List, Option, Text, [], count, find, if◌then◌else◌, is_some, keep, leb, length, ltb, map, none,
  not, or_else, some, take, ℕ, ◌-◌, ◌==◌, ◌∷◌,
}
use pulse_keeper.Prelude.Sorting.{sort_by}
use pulse_keeper.Prelude.Grouping.{Group, group_by}
use pulse_keeper.Store.{Db, HealthCheck, Site}
use pulse_keeper.Analytics.{TimeRange, is_matched, mean_time, of_user, percentage, range_start}
use pulse_keeper.Analytics.Stats.{if_any, is_timed}

-- `SiteRanking`
pub record SiteRanking : Type 0 where
  pub site_id : ℕ
  pub name : Text
  pub url : Text
  pub value : ℕ

-- A row of `enriched`.
pub record SiteRow : Type 0 where
  pub site_id : ℕ
  pub name : Text
  pub url : Text
  pub uptime : ℕ
  pub avg_response_time : Option ℕ
  pub failed : ℕ

-- The row of a site and its checks.
unfoldable pub row_of : Group ℕ HealthCheck → Site → SiteRow
unfolding percentage mean_time
row_of g s =
    let total = length g.members in
    let failed = count (λ c. not c.success) g.members in
    record {
      site_id = g.key;
      name = s.name;
      url = s.url;
      uptime = if total == 0 then 0 else percentage (total - failed) total;
      avg_response_time = if_any (keep is_timed g.members) mean_time;
      failed = failed;
    }

-- `$lookup`, and the rows of the groups whose site is still there.
unfoldable pub rows_of : List Site → List (Group ℕ HealthCheck) → List SiteRow
unfolding row_of
rows_of sites [] = []
rows_of sites (g ∷ gs) = elim (find (λ s. s.id == g.key) sites) [
  | none ↦ rows_of sites gs
  | some s ↦ row_of g s ∷ rows_of sites gs
]

unfoldable pub site_rows : ℕ → TimeRange → ℕ → Db → List SiteRow
unfolding rows_of group_by
site_rows user_id range now d = rows_of d.sites (
    group_by ◌==◌ (λ c. c.site_id)
      (keep (is_matched (of_user user_id) (range_start range now)) d.checks))

abbrev pub ranked : (SiteRow → ℕ) → SiteRow → SiteRanking
ranked value r = record { site_id = r.site_id; name = r.name; url = r.url; value = value r }

-- The five rows with the largest values.
unfoldable pub top_five : (SiteRow → ℕ) → List SiteRow → List SiteRanking
unfolding sort_by
top_five value rows = map (ranked value) (take 5 (sort_by (λ a b. leb (value b) (value a)) rows))

pub record Rankings : Type 0 where
  pub most_reliable : List SiteRanking
  pub slowest : List SiteRanking
  pub most_failing : List SiteRanking

unfoldable pub rankings_of : List SiteRow → Rankings
unfolding top_five
rankings_of rows = record {
  most_reliable = top_five (λ r. r.uptime) rows;
  slowest =
      top_five (λ r. or_else r.avg_response_time 0) (keep (λ r. is_some r.avg_response_time) rows);
  most_failing = top_five (λ r. r.failed) (keep (λ r. ltb 0 r.failed) rows);
}
