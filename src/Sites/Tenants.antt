-- ===== src/Sites/Tenants.antt =====
-- What a user's calls do to the sites of others.
use pulse_keeper.Prelude.{
  All, Bool, Bool-cases, List, Option, [], ap, arith, codes, find, inl, inr, none, refl, some, ℕ,
  ◌==◌, ◌∙◌, ◌∷◌, ◌≡◌,
}
use pulse_keeper.Errors.{Thrown, app_error, not_found}
use pulse_keeper.Async.{ret, run, thrown, ◌>>=◌}
use pulse_keeper.Async.Rules.{Keeps, Keeps->>=, run-Keeps}
use pulse_keeper.Async.Parallel.{Keeps-all_of, all_of}
use pulse_keeper.Web.{WebLib}
use pulse_keeper.Store.{Db, HealthCheck, Incident, Notification, Site, World}
use pulse_keeper.Store.Calls.{
  Anything, App, IsReliable, Keeps-db_call, Keeps-write, OnDb, db_call, pass_time, query,
  run-db_call_then,
}
use pulse_keeper.Monitoring.Running.{site_of_user}
use pulse_keeper.Sites.{UpdateSiteInput, to_public_site}
use pulse_keeper.Sites.Service.{
  delete_related, delete_site, get_site_by_id, is_about, is_of_user, remove_first, site_or_throw,
  update_found, update_site, without,
}

abbrev pub no_site : Thrown
no_site = app_error (not_found (codes "Site not found"))

pub remove_first-none :
    {A : Type 0} (p : A → Bool) (xs : List A) → find p xs ≡ none → remove_first p xs ≡ xs
remove_first-none p [] h = refl
remove_first-none p (x ∷ xs) h = elim (Bool-cases (p x)) [
  | inl e ↦ absurd (ground (arith, e, h))
  | inr e ↦ rw e (ap (λ rest. x ∷ rest) (remove_first-none p xs (ground (arith, e, h))))
]

-- A call that first looks for the site and does not find it.
pub search_fails :
    {A : Type 0} (g : Db → Db) (user_id site_id : ℕ) (f : Site → App A) (w : World)
    → IsReliable w
    → site_of_user user_id site_id w.db ≡ none
    → g w.db ≡ w.db
    → run
        (db_call g (λ d. ret (site_of_user user_id site_id d)) >>= λ found.
          site_or_throw found >>= f)
        w
      ≡ (thrown no_site, pass_time w)
unfolding site_or_throw run ◌>>=◌
search_fails g user_id site_id f w reliable absent same =
    run-db_call_then g (λ d. ret (site_of_user user_id site_id d))
      (λ found. site_or_throw found >>= f) w reliable
    ∙ rw (absent, same) refl

-- In a world whose database answers: of a site that is missing or another user's, reading,
-- updating and deleting all end with the same error, and change nothing.
pub foreign_site_refused :
    (web : WebLib) (user_id site_id : ℕ) (input : UpdateSiteInput) (w : World)
    → IsReliable w
    → site_of_user user_id site_id w.db ≡ none
    → (run (get_site_by_id user_id site_id) w ≡ (thrown no_site, pass_time w))
      × (run (update_site web user_id site_id input) w ≡ (thrown no_site, pass_time w))
      × (run (delete_site user_id site_id) w ≡ (thrown no_site, pass_time w))
unfolding get_site_by_id update_site delete_site query
foreign_site_refused web user_id site_id input w reliable absent = (
  search_fails (λ d. d) user_id site_id (λ site. ret (to_public_site site)) w reliable absent refl,
  search_fails (λ d. d) user_id site_id (update_found web input) w reliable absent refl,
  search_fails (λ d. record d { sites = remove_first (is_of_user user_id site_id) d.sites }) user_id
      site_id _ w reliable absent
      (ap (λ ss. record w.db { sites = ss })
        (remove_first-none (is_of_user user_id site_id) w.db.sites absent)),
)

without-remove_first :
    (user_id site_id : ℕ) (ss : List Site)
    → without (λ s. s.id == site_id) (remove_first (is_of_user user_id site_id) ss)
      ≡ without (λ s. s.id == site_id) ss
without-remove_first user_id site_id [] = refl
without-remove_first user_id site_id (s ∷ ss) =
    ground (arith, without-remove_first user_id site_id ss)

without-without :
    {A : Type 0} (p : A → Bool) (xs : List A) → without p (without p xs) ≡ without p xs
without-without p [] = refl
without-without p (x ∷ xs) = ground (arith, without-without p xs)

-- What the database holds that is about no site with this id.
pub record Others : Type 0 where
  pub sites : List Site
  pub checks : List HealthCheck
  pub incidents : List Incident
  pub notices : List Notification

abbrev pub others : ℕ → Db → Others
others site_id d = record {
  sites = without (λ s. s.id == site_id) d.sites;
  checks = without (λ c. c.site_id == site_id) d.checks;
  incidents = without (λ i. i.site_id == site_id) d.incidents;
  notices = without (is_about site_id) d.notices;
}

module _ (user_id site_id : ℕ) (start : Db) where
  abbrev SameOthers : Db → Type 0
  SameOthers d = others site_id d ≡ others site_id start

  Keeps-delete_related : All (Keeps (OnDb SameOthers Anything)) (delete_related site_id)
  unfolding delete_related
  Keeps-delete_related = (
    Keeps-write SameOthers Anything _
        (λ d h. rw (without-without (λ c. c.site_id == site_id) d.checks) h),
    (
      Keeps-write SameOthers Anything _
          (λ d h. rw (without-without (λ i. i.site_id == site_id) d.incidents) h),
      (
        Keeps-write SameOthers Anything _
            (λ d h. rw (without-without (is_about site_id) d.notices) h),
        tt,
      ),
    ),
  )

  Keeps-delete_site : Keeps (OnDb SameOthers Anything) (delete_site user_id site_id)
  unfolding delete_site site_or_throw
  Keeps-delete_site =
      Keeps->>= _ (db_call _ _) _
        (Keeps-db_call SameOthers Anything _ _
          (λ d h. rw (without-remove_first user_id site_id d.sites) h) (λ d. tt))
        λ found.
          Keeps->>= _ (site_or_throw found) _ (asked found)
            λ site. Keeps->>= _ (all_of _ _) _ (Keeps-all_of _ _ _ Keeps-delete_related) (λ _. tt)
    where
      asked : (o : Option Site) → Keeps (OnDb SameOthers Anything) (site_or_throw o)
      asked none = tt
      asked (some site) = tt

-- However the deletion of a site ends and whichever of its calls fail, the sites with another id
-- and the checks, incidents and notifications about them are all still there, in their order.
pub delete_site-others :
    (user_id site_id : ℕ) (w : World)
    → others site_id (run (delete_site user_id site_id) w).1.db ≡ others site_id w.db
delete_site-others user_id site_id w =
    (run-Keeps (OnDb (SameOthers user_id site_id w.db) Anything) (delete_site user_id site_id) w
      (Keeps-delete_site user_id site_id w.db) (refl, tt)).0
