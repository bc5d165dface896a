-- ===== src/Sites/Listing.antt =====
-- server/src/services/site.service.ts: the list of a user's sites.
use pulse_keeper.Prelude.{
  Bool, List, Option, Text, [], any, contains, count, has_text, if◌then◌else◌, keep, leb, lower,
  ltb, map, none, not, or_else, some, true, ℕ, ◌&&◌, ◌==◌, ◌||◌, ◌∷◌,
}
use pulse_keeper.Prelude.Sorting.{sort_by}
use pulse_keeper.Domain.{SiteStatus, checking, offline, online, paused, slow, status_eq, unknown}
use pulse_keeper.Async.Parallel.{pair_of}
use pulse_keeper.Store.{Db, Site}
use pulse_keeper.Store.Calls.{App, query}
use pulse_keeper.Monitoring.Running.{pick_first}
use pulse_keeper.Paging.{page_of}
use pulse_keeper.Sites.{PublicSite, to_public_site}

-- What `sort` of `ListSitesQuery` names.
pub data SortField : Type 0 where
  by_name by_status by_response_time by_uptime by_last_checked by_created_at : SortField

-- `ListSitesQuery`
pub record ListSitesQuery : Type 0 where
  pub search : Option Text
  pub status : Option SiteStatus
  pub tag : Option Text
  pub sort : SortField
  pub is_ascending : Bool
  pub page : ℕ
  pub limit : ℕ

-- `STATUS_SEVERITY`
abbrev pub status_rank : SiteStatus → ℕ
status_rank offline = 0
status_rank slow = 1
status_rank unknown = 2
status_rank checking = 3
status_rank online = 4
status_rank paused = 5

-- A fragment of a text, in upper or lower case: what the escaped pattern matches.
abbrev pub has_fragment : Text → Text → Bool
has_fragment search s = contains (lower s) (lower search)

abbrev pub is_searched : Option Text → Site → Bool
is_searched none s = true
is_searched (some []) s = true
is_searched (some (c ∷ t)) s =
    has_fragment (c ∷ t) s.name || has_fragment (c ∷ t) s.url || any (has_fragment (c ∷ t)) s.tags

abbrev pub is_tagged : Option Text → Site → Bool
is_tagged none s = true
is_tagged (some []) s = true
is_tagged (some (c ∷ t)) s = has_text s.tags (c ∷ t)

unfoldable pub is_listed_site : ℕ → ListSitesQuery → Site → Bool
is_listed_site user_id q s =
    s.user_id == user_id
    && elim q.status [ none ↦ true | some status ↦ status_eq s.current_status status ]
    && is_tagged q.tag s
    && is_searched q.search s

-- The outcome of a comparison. Texts are compared by their code units, which is MongoDB's order but
-- for surrogate pairs; a missing number comes before all others.
pub data Order : Type 0 where
  below equal above : Order

abbrev pub order_ℕ : ℕ → ℕ → Order
order_ℕ a b = if ltb a b then below else if ltb b a then above else equal

abbrev pub order_text : Text → Text → Order
order_text [] [] = equal
order_text [] (b ∷ t) = below
order_text (a ∷ s) [] = above
order_text (a ∷ s) (b ∷ t) =
    let rest = order_text s t in elim (order_ℕ a b) [ equal ↦ rest | below ↦ below | above ↦ above ]

abbrev pub order_option : Option ℕ → Option ℕ → Order
order_option none none = equal
order_option none (some b) = below
order_option (some a) none = above
order_option (some a) (some b) = order_ℕ a b

-- `SORT_FIELDS`, with the rank that `STATUS_RANK_STAGE` adds.
unfoldable pub order_by : SortField → Site → Site → Order
order_by by_name s t = order_text s.name t.name
order_by by_status s t = order_ℕ (status_rank s.current_status) (status_rank t.current_status)
order_by by_response_time s t =
    order_option (or_else s.current_response_time none) (or_else t.current_response_time none)
order_by by_uptime s t = order_ℕ s.uptime_percentage t.uptime_percentage
order_by by_last_checked s t = order_option s.last_checked_at t.last_checked_at
order_by by_created_at s t = order_ℕ s.created_at t.created_at

-- `$sort: { [sortField]: direction, _id: 1 }`
unfoldable pub listed_before : ListSitesQuery → Site → Site → Bool
unfolding order_by
listed_before q s t = elim (order_by q.sort s t) [
  | below ↦ q.is_ascending
  | above ↦ not q.is_ascending
  | equal ↦ leb s.id t.id
]

unfoldable pub site_page : ℕ → ListSitesQuery → Db → List PublicSite
unfolding is_listed_site listed_before sort_by page_of
site_page user_id q d =
    map to_public_site
      (page_of q.page q.limit (sort_by (listed_before q) (keep (is_listed_site user_id q) d.sites)))

unfoldable pub list_sites : ℕ → ListSitesQuery → App (List PublicSite × ℕ)
list_sites user_id q =
    pair_of pick_first 0 (query (site_page user_id q))
      (query (λ d. count (is_listed_site user_id q) d.sites))
