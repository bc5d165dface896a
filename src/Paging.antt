-- ===== src/Paging.antt =====
-- server/src/utils/apiResponse.ts and the `$skip` and `$limit` of the list services: pages of a list.
pub mod Pages
use pulse_keeper.Prelude.{Bool, List, drop, if◌then◌else◌, ltb, take, ℕ, ◌*◌, ◌+◌, ◌-◌, ◌/◌}

-- `PaginationMeta`
pub record PaginationMeta : Type 0 where
  pub page : ℕ
  pub limit : ℕ
  pub total : ℕ
  pub total_pages : ℕ
  pub has_more : Bool

-- `Math.ceil(total / limit)`
abbrev pub pages_of : ℕ → ℕ → ℕ
pages_of total limit = if ltb 0 limit then (total + (limit - 1)) / limit else 0

unfoldable pub build_pagination : ℕ → ℕ → ℕ → PaginationMeta
build_pagination total page limit = record {
  page = page;
  limit = limit;
  total = total;
  total_pages = pages_of total limit;
  has_more = ltb page (pages_of total limit);
}

-- `$skip: (page - 1) * limit`, `$limit: limit`
unfoldable pub page_of {ℓ} : {A : Type ℓ} → ℕ → ℕ → List A → List A
page_of page limit xs = take limit (drop ((page - 1) * limit) xs)
