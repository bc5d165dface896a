-- ===== src/Sites/Edited.antt =====
-- What updates and deletions of sites do to the URLs in the database.
use pulse_keeper.Prelude.{
  All, Bool, Bool-cases, List, Option, Text, [], all, any, ap, arith, find, inl, inr, none, refl,
  some, text_eq, text_eq_sound, trim, true, update_first, ℕ, ◌==◌, ◌∙◌, ◌∷◌, ◌≡◌,
}
use pulse_keeper.Async.{◌>>=◌}
use pulse_keeper.Async.Rules.{Holds, Holds->>=_of, Keeps, Keeps->>=, Keeps->>=_of, Keeps-Holds}
use pulse_keeper.Async.Parallel.{Keeps-all_of, all_of}
use pulse_keeper.Web.{WebLib}
use pulse_keeper.Store.{Site}
use pulse_keeper.Store.Calls.{
  Anything, Holds-query, Keeps-db_call, Keeps-read_clock, Keeps-validate, Keeps-write, OnDb,
  db_call, query, read_clock, validate,
}
use pulse_keeper.Monitoring.Running.{site_of_user}
use pulse_keeper.Sites.{
  CreateSiteInput, UpdateSiteInput, assign, edit, joined, opt_text_eq, save_fields, trim_if_there,
}
use pulse_keeper.Sites.Service.{
  assert_site_urls_allowed, create_site, delete_related, delete_site, if_changed, is_of_user,
  remove_first, save_site, site_or_throw, update_found, update_site,
}
use pulse_keeper.Sites.Guarded.{
  IsGuarded, IsGuardedField, Keeps-assert_site_urls_allowed, SitesGuarded,
  assert_site_urls_allowed-IsGuarded, create_site-SitesGuarded,
}

module _ (web : WebLib) where
  abbrev SiteGuarded : Site → Type 0
  SiteGuarded s = IsGuarded web s.url × IsGuardedField web s.health_endpoint

  unchanged-IsGuarded :
      (given current : Text)
      → text_eq given current ≡ true
      → IsGuarded web current
      → IsGuarded web (trim given)
  unchanged-IsGuarded given current same guarded =
      let one_text : given ≡ current = text_eq_sound given current same in
      let trimmed : trim given ≡ current = ap trim one_text ∙ guarded.0 in rw trimmed guarded

  -- What an update makes of a URL, once what it says of it has been through the guard.
  edited_url-IsGuarded :
      (value : Option Text) (current : Text)
      → IsGuarded web current
      → IsGuardedField web (trim_if_there (if_changed value (some current)))
      → IsGuarded web (elim value [ none ↦ current | some s ↦ trim s ])
  unfolding if_changed
  edited_url-IsGuarded none current old new = old
  edited_url-IsGuarded (some s) current old new = elim (Bool-cases (text_eq s current)) [
    | inl e ↦ unchanged-IsGuarded s current e old
    | inr e ↦ rw e at new
  ]

  edited_endpoint-IsGuarded :
      (value : Option (Option Text)) (current : Option Text)
      → IsGuardedField web current
      → IsGuardedField web (trim_if_there (if_changed (joined value) current))
      → IsGuardedField web (elim value [ none ↦ current | some o ↦ trim_if_there o ])
  unfolding if_changed
  edited_endpoint-IsGuarded none current old new = old
  edited_endpoint-IsGuarded (some none) current old new = tt
  edited_endpoint-IsGuarded (some (some s)) none old new = new
  edited_endpoint-IsGuarded (some (some s)) (some t) old new =
      edited_url-IsGuarded (some s) t old new

  save_fields-SiteGuarded :
      (loaded new stored : Site) (at : ℕ)
      → SiteGuarded new
      → SiteGuarded stored
      → SiteGuarded (save_fields loaded new at stored)
  unfolding save_fields
  save_fields-SiteGuarded loaded new stored at g h = (
    elim (Bool-cases (text_eq loaded.url new.url)) [ inl e ↦ rw e h.0 | inr e ↦ rw e g.0 ],
    elim (Bool-cases (opt_text_eq loaded.health_endpoint new.health_endpoint)) [
      | inl e ↦ rw e h.1
      | inr e ↦ rw e g.1
    ],
  )

  update_first-SitesGuarded :
      (p : Site → Bool) (f : Site → Site) (ss : List Site)
      → ((s : Site) → SiteGuarded s → SiteGuarded (f s))
      → All SiteGuarded ss
      → All SiteGuarded (update_first p f ss)
  update_first-SitesGuarded p f [] h all = tt
  update_first-SitesGuarded p f (s ∷ ss) h all = elim (Bool-cases (p s)) [
    | inl e ↦ rw e (h s all.0, all.1)
    | inr e ↦ rw e (all.0, update_first-SitesGuarded p f ss h all.1)
  ]

  remove_first-SitesGuarded :
      (p : Site → Bool) (ss : List Site) → All SiteGuarded ss → All SiteGuarded (remove_first p ss)
  remove_first-SitesGuarded p [] all = tt
  remove_first-SitesGuarded p (s ∷ ss) all = elim (Bool-cases (p s)) [
    | inl e ↦ rw e all.1
    | inr e ↦ rw e (all.0, remove_first-SitesGuarded p ss all.1)
  ]

  Keeps-save_site :
      (loaded new : Site) (at : ℕ)
      → SiteGuarded new
      → Keeps (OnDb (SitesGuarded web) Anything) (save_site loaded new at)
  unfolding save_site
  Keeps-save_site loaded new at g =
      Keeps-db_call (SitesGuarded web) Anything _ _
        (λ d all.
          update_first-SitesGuarded _ _ d.sites (λ s h. save_fields-SiteGuarded loaded new s at g h)
            all)
        (λ d. elim (Bool-cases (any (λ s. s.id == loaded.id) d.sites)) [
          | inl e ↦ rw e tt
          | inr e ↦ rw e tt
        ])

  Keeps-update_found :
      (input : UpdateSiteInput) (site : Site)
      → SiteGuarded site
      → Keeps (OnDb (SitesGuarded web) Anything) (update_found web input site)
  unfolding update_found edit assign
  Keeps-update_found input site guarded =
      let url = if_changed input.url (some site.url) in
      let endpoint = if_changed (joined input.health_endpoint) site.health_endpoint in
      Keeps->>=_of _ _ (assert_site_urls_allowed web url endpoint) _
        (Keeps-assert_site_urls_allowed web url endpoint)
        (assert_site_urls_allowed-IsGuarded web url endpoint)
        λ _ checked. Keeps->>= _ read_clock _ (Keeps-read_clock (SitesGuarded web) Anything) λ at.
          Keeps->>= _ (validate _) _ (Keeps-validate (SitesGuarded web) Anything _) λ _.
            Keeps->>= _ (save_site site (edit input site) at) _
              (Keeps-save_site site (edit input site) at (
                edited_url-IsGuarded input.url site.url guarded.0 checked.0,
                edited_endpoint-IsGuarded input.health_endpoint site.health_endpoint guarded.1
                    checked.1,
              ))
              (λ _. tt)

  find-SiteGuarded :
      (p : Site → Bool) (ss : List Site) (site : Site)
      → All SiteGuarded ss
      → find p ss ≡ some site
      → SiteGuarded site
  find-SiteGuarded p [] site all h = cc
  find-SiteGuarded p (s ∷ ss) site all h = elim (Bool-cases (p s)) [
    | inl e ↦
        let found : some s ≡ some site = ground (arith, e, h) in
        let same : s ≡ site = cc in rw⁻¹ same all.0
    | inr e ↦ find-SiteGuarded p ss site all.1 (ground (arith, e, h))
  ]

  abbrev FoundGuarded : Option Site → Type 0
  FoundGuarded found = (site : Site) → found ≡ some site → SiteGuarded site

  Holds-search :
      (user_id site_id : ℕ)
      → Holds (OnDb (SitesGuarded web) Anything) FoundGuarded (query (site_of_user user_id site_id))
  Holds-search user_id site_id =
      Holds-query (SitesGuarded web) FoundGuarded (site_of_user user_id site_id)
        (λ d all site h. find-SiteGuarded _ d.sites site all h)

  Holds-update_after :
      (input : UpdateSiteInput) (found : Option Site)
      → FoundGuarded found
      → Holds
          (OnDb (SitesGuarded web) Anything)
          (λ _. Unit {0})
          (site_or_throw found >>= update_found web input)
  unfolding site_or_throw ◌>>=◌
  Holds-update_after input none h = tt
  Holds-update_after input (some site) h =
      Keeps-Holds _ (update_found web input site) (Keeps-update_found input site (h site refl))

  Keeps-delete_site :
      (user_id site_id : ℕ) → Keeps (OnDb (SitesGuarded web) Anything) (delete_site user_id site_id)
  unfolding delete_site delete_related site_or_throw
  Keeps-delete_site user_id site_id =
      Keeps->>= _ (db_call _ _) _
        (Keeps-db_call (SitesGuarded web) Anything _ _
          (λ d all. remove_first-SitesGuarded (is_of_user user_id site_id) d.sites all) (λ d. tt))
        λ found. Keeps->>= _ (site_or_throw found) _ (asked found) λ site.
          Keeps->>= _ (all_of _ _) _
            (Keeps-all_of _ _ _ (
              (Keeps-write (SitesGuarded web) Anything _ (λ d all. all)),
              (
                (Keeps-write (SitesGuarded web) Anything _ (λ d all. all)),
                ((Keeps-write (SitesGuarded web) Anything _ (λ d all. all)), tt),
              ),
            ))
            (λ _. tt)
    where
      asked : (o : Option Site) → Keeps (OnDb (SitesGuarded web) Anything) (site_or_throw o)
      asked none = tt
      asked (some site) = tt

  -- Creating, updating and deleting a site keep this: both URLs of every stored site are trimmed, and
  -- empty or allowed by the guard. It holds after each of their acts in a world where it held before,
  -- whatever else acts in between and keeps it too.
  pub site_calls-SitesGuarded :
      (user_id site_id : ℕ) (creation : CreateSiteInput) (input : UpdateSiteInput)
      → Holds (OnDb (SitesGuarded web) Anything) (λ _. Unit {0}) (create_site web user_id creation)
        × Holds
            (OnDb (SitesGuarded web) Anything)
            (λ _. Unit {0})
            (update_site web user_id site_id input)
        × Holds (OnDb (SitesGuarded web) Anything) (λ _. Unit {0}) (delete_site user_id site_id)
  unfolding update_site
  site_calls-SitesGuarded user_id site_id creation input = (
    Keeps-Holds _ (create_site web user_id creation)
        (create_site-SitesGuarded web user_id creation),
    Holds->>=_of _ FoundGuarded _ (query (site_of_user user_id site_id)) _
        (Holds-search user_id site_id) (Holds-update_after input),
    Keeps-Holds _ (delete_site user_id site_id) (Keeps-delete_site user_id site_id),
  )
