-- ===== src/Monitoring/Due.antt =====
-- Which sites a sweep checks, and in which order.
use pulse_keeper.Prelude.{
  Bool, Bool-cases, List, Option, Option-cases, [], arith, count, false, inl, inr, keep, none, not,
  refl, some, true, ℕ, ◌&&◌, ◌*◌, ◌+◌, ◌↔◌, ◌∙◌, ◌∷◌, ◌≡◌, ◌≤◌,
}
use pulse_keeper.Store.{Db, Site}
use pulse_keeper.Monitoring.{checked_before, due_sites, insert_by_check, is_due, sort_by_check}

-- `s` was checked no later than the first of the list; a site never checked comes first.
abbrev pub ComesBefore : Site → List Site → Type 0
ComesBefore s [] = Unit
ComesBefore s (t ∷ ts) = checked_before s.last_checked_at t.last_checked_at ≡ true

-- Every site was checked no later than the next one.
abbrev pub OldestFirst : List Site → Type 0
OldestFirst [] = Unit
OldestFirst (s ∷ ss) = ComesBefore s ss × OldestFirst ss

count-insert :
    (p : Site → Bool) (s : Site) (ss : List Site)
    → count p (insert_by_check s ss) ≡ count p (s ∷ ss)
unfolding insert_by_check
count-insert p s [] = refl
count-insert p s (t ∷ ts) = ground (arith, count-insert p s ts)

count-sort : (p : Site → Bool) (ss : List Site) → count p (sort_by_check ss) ≡ count p ss
unfolding sort_by_check
count-sort p [] = refl
count-sort p (s ∷ ss) = ground (arith, count-insert p s (sort_by_check ss), count-sort p ss)

checked_before_total : (a b : Option ℕ) → checked_before a b ≡ false → checked_before b a ≡ true
checked_before_total none b h = cc
checked_before_total (some a) none h = refl
checked_before_total (some a) (some b) h = ground (arith, h)

insert-ComesBefore :
    (t s : Site) (ss : List Site)
    → checked_before t.last_checked_at s.last_checked_at ≡ true
    → ComesBefore t ss
    → ComesBefore t (insert_by_check s ss)
unfolding insert_by_check
insert-ComesBefore t s [] h k = h
insert-ComesBefore t s (u ∷ us) h k =
    elim (Bool-cases (checked_before s.last_checked_at u.last_checked_at)) [
      | inl e ↦ rw e h
      | inr e ↦ rw e k
    ]

insert-OldestFirst :
    (s : Site) (ss : List Site) → OldestFirst ss → OldestFirst (insert_by_check s ss)
unfolding insert_by_check
insert-OldestFirst s [] h = (tt, tt)
insert-OldestFirst s (t ∷ ts) h =
    elim (Bool-cases (checked_before s.last_checked_at t.last_checked_at)) [
      | inl e ↦ rw e (e, h)
      | inr e ↦ rw e (
        insert-ComesBefore t s ts (checked_before_total s.last_checked_at t.last_checked_at e) h.0,
        insert-OldestFirst s ts h.1,
      )
    ]

sort-OldestFirst : (ss : List Site) → OldestFirst (sort_by_check ss)
unfolding sort_by_check
sort-OldestFirst [] = tt
sort-OldestFirst (s ∷ ss) = insert-OldestFirst s (sort_by_check ss) (sort-OldestFirst ss)

count-keep-not : (p : Site → Bool) (ss : List Site) → count (λ s. not (p s)) (keep p ss) ≡ 0
count-keep-not p [] = refl
count-keep-not p (s ∷ ss) = ground (arith, count-keep-not p ss)

count-keep_both :
    (p q : Site → Bool) (ss : List Site) → count q (keep p ss) ≡ count (λ s. p s && q s) ss
count-keep_both p q [] = refl
count-keep_both p q (s ∷ ss) = ground (arith, count-keep_both p q ss)

-- When a site is due: monitoring is on, it is no demo, and it has never been checked or was
-- checked at least its interval ago.
pub is_due_iff :
    (at : ℕ) (site : Site)
    → (is_due at site ≡ true) ↔ (
        (site.monitoring_enabled ≡ true)
        × (site.is_demo ≡ false)
        × ((last : ℕ)
            → site.last_checked_at ≡ some last
            → last + site.interval_minutes * 60000 ≤ at))
unfolding is_due
is_due_iff at site = elim (Option-cases site.last_checked_at) [
  | inl e ↦ (
    λ h. (ground (arith, e), ground (arith, e), λ last s. ground (arith, e, s)),
    λ h. ground (arith, e, h.0, h.1),
  )
  | inr (t, e) ↦ (
    λ h. (ground (arith, e), ground (arith, e), λ last s. ground (arith, e, s)),
    λ h. ground (arith, e, h.0, h.1, h.2 t e),
  )
]

-- The sites of a sweep are those that are due, each as often as it is stored, the one checked
-- longest ago first.
pub due_sites_lem :
    (at : ℕ) (d : Db)
    → OldestFirst (due_sites at d)
      × ((p : Site → Bool) → count p (due_sites at d) ≡ count (λ s. is_due at s && p s) d.sites)
      × (count (λ s. not (is_due at s)) (due_sites at d) ≡ 0)
unfolding due_sites
due_sites_lem at d = (
  sort-OldestFirst (keep (is_due at) d.sites),
  λ p. count-sort p (keep (is_due at) d.sites) ∙ count-keep_both (is_due at) p d.sites,
  count-sort (λ s. not (is_due at s)) (keep (is_due at) d.sites)
      ∙ count-keep-not (is_due at) d.sites,
)
