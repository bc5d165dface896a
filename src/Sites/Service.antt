-- ===== src/Sites/Service.antt =====
-- server/src/services/site.service.ts: the operations on a user's sites.
use pulse_keeper.Prelude.{
  Bool, List, Option, Text, [], any, codes, false, find, if◌then◌else◌, keep, none, not, some, suc,
  update_first, ℕ, ◌&&◌, ◌++◌, ◌==◌, ◌∷◌,
}
use pulse_keeper.Errors.{app_error, not_found, other_error}
use pulse_keeper.Async.{ret, throw, ◌>>=◌, ◌>>◌}
use pulse_keeper.Async.Parallel.{all_of}
use pulse_keeper.Web.{WebLib}
use pulse_keeper.Store.{Db, Notification, Site}
use pulse_keeper.Store.Calls.{App, db_call, query, read_clock, validate, write}
use pulse_keeper.Guard.{assert_url_allowed}
use pulse_keeper.Monitoring.Running.{pick_first, site_of_user}
use pulse_keeper.Sites.{
  CreateSiteInput, PublicSite, UpdateSiteInput, edit, is_valid_site, joined, new_site, opt_text_eq,
  save_fields, to_public_site, touched,
}

-- `if (url) await assertUrlAllowed(url)`
unfoldable pub assert_if_there : WebLib → Option Text → App (Unit {0})
assert_if_there web none = ret tt
assert_if_there web (some []) = ret tt
assert_if_there web (some (c ∷ s)) = assert_url_allowed web (c ∷ s) >>= λ _. ret tt

unfoldable pub assert_site_urls_allowed : WebLib → Option Text → Option Text → App (Unit {0})
assert_site_urls_allowed web url health_endpoint = do
  assert_if_there web url
  assert_if_there web health_endpoint

unfoldable pub insert_site : (ℕ → Site) → Db → Db
insert_site make d = record d { sites = d.sites ++ make d.next_id ∷ []; next_id = suc d.next_id }

unfoldable pub create_site : WebLib → ℕ → CreateSiteInput → App PublicSite
create_site web user_id input = do
  assert_site_urls_allowed web (some input.url) input.health_endpoint
  settings ← query (λ d. find (λ s. s.user_id == user_id) d.settings)
  at ← read_clock
  validate (is_valid_site (new_site user_id input settings at 0))
  db_call (insert_site (new_site user_id input settings at))
      (λ d. ret (to_public_site (new_site user_id input settings at d.next_id)))

-- What follows the search for a site: the error, or the site.
unfoldable pub site_or_throw : Option Site → App Site
site_or_throw none = throw (app_error (not_found (codes "Site not found")))
site_or_throw (some site) = ret site

unfoldable pub get_site_by_id : ℕ → ℕ → App PublicSite
get_site_by_id user_id site_id = do
  found ← query (site_of_user user_id site_id)
  site ← site_or_throw found
  ret (to_public_site site)

-- `value && value !== current ? value : undefined`, where a missing value is dropped before.
unfoldable pub if_changed : Option Text → Option Text → Option Text
if_changed value current = if opt_text_eq value current then none else value

unfoldable pub save_site : Site → Site → ℕ → App (Unit {0})
save_site loaded new at =
    db_call
      (λ d. record d {
        sites = update_first (λ s. s.id == loaded.id) (save_fields loaded new at) d.sites;
      })
      (λ d.
        if any (λ s. s.id == loaded.id) d.sites
        then ret tt
        else throw (other_error [] (codes "No document found for query")))

-- What `updateSite` does of a site that it has found.
unfoldable pub update_found : WebLib → UpdateSiteInput → Site → App PublicSite
update_found web input site = do
  assert_site_urls_allowed web (if_changed input.url (some site.url))
      (if_changed (joined input.health_endpoint) site.health_endpoint)
  at ← read_clock
  validate (is_valid_site (edit input site))
  save_site site (edit input site) at
  ret (
      to_public_site (record (edit input site) {
        updated_at = touched site (edit input site) at site.updated_at;
      }))

unfoldable pub update_site : WebLib → ℕ → ℕ → UpdateSiteInput → App PublicSite
update_site web user_id site_id input = do
  found ← query (site_of_user user_id site_id)
  site ← site_or_throw found
  update_found web input site

-- `xs.filter(not p)`, as `deleteMany` leaves a collection.
abbrev pub without {ℓ} : {A : Type ℓ} → (A → Bool) → List A → List A
without p xs = keep (λ x. not (p x)) xs

-- `findOneAndDelete`: the first document that passes the test goes.
abbrev pub remove_first {ℓ} : {A : Type ℓ} → (A → Bool) → List A → List A
remove_first p [] = []
remove_first p (x ∷ xs) = if p x then xs else x ∷ remove_first p xs

abbrev pub is_of_user : ℕ → ℕ → Site → Bool
is_of_user user_id site_id s = s.id == site_id && s.user_id == user_id

abbrev pub is_about : ℕ → Notification → Bool
is_about site_id n = elim n.site_id [ none ↦ false | some id ↦ id == site_id ]

-- The three deletions that run side by side.
unfoldable pub delete_related : ℕ → List (App (Unit {0}))
delete_related site_id =
    write (λ d. record d { checks = without (λ c. c.site_id == site_id) d.checks })
    ∷ write (λ d. record d { incidents = without (λ i. i.site_id == site_id) d.incidents })
    ∷ write (λ d. record d { notices = without (is_about site_id) d.notices })
    ∷ []

unfoldable pub delete_site : ℕ → ℕ → App (Unit {0})
delete_site user_id site_id = do
  found ←
      db_call (λ d. record d { sites = remove_first (is_of_user user_id site_id) d.sites })
        (λ d. ret (site_of_user user_id site_id d))
  site_or_throw found
  all_of pick_first (delete_related site_id)
  ret tt
