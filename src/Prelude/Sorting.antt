-- ===== src/Prelude/Sorting.antt =====
-- A stable sort by a test, `before a b` being that `a` may stand before `b`.
use pulse_keeper.Prelude.{
  All, All-map, Bool, Bool-cases, List, [], arith, count, false, if◌then◌else◌, inl, inr, map, refl,
  true, ℕ, ◌∷◌, ◌≡◌,
}
use pulse_keeper.Prelude.Sums.{sum_where}

module _ {ℓ} {A : Type ℓ} (before : A → A → Bool) where
  unfoldable pub insert_by : A → List A → List A
  insert_by a [] = a ∷ []
  insert_by a (b ∷ bs) = if before a b then a ∷ b ∷ bs else b ∷ insert_by a bs

  unfoldable pub sort_by : List A → List A
  unfolding insert_by
  sort_by [] = []
  sort_by (a ∷ xs) = insert_by a (sort_by xs)

  -- Each element may stand before all later ones.
  abbrev pub IsSortedBy : List A → Type 0
  IsSortedBy [] = Unit
  IsSortedBy (a ∷ xs) = All (λ b. before a b ≡ true) xs × IsSortedBy xs

  insert_by-All {κ} :
      (P : A → Type κ) (a : A) (xs : List A) → P a → All P xs → All P (insert_by a xs)
  unfolding insert_by
  insert_by-All P a [] h k = (h, tt)
  insert_by-All P a (b ∷ bs) h k = elim (Bool-cases (before a b)) [
    | inl e ↦ rw e (h, k)
    | inr e ↦ rw e (k.0, insert_by-All P a bs h k.1)
  ]

  pub sort_by-All {κ} : (P : A → Type κ) (xs : List A) → All P xs → All P (sort_by xs)
  unfolding sort_by
  sort_by-All P [] h = tt
  sort_by-All P (a ∷ xs) h = insert_by-All P a (sort_by xs) h.0 (sort_by-All P xs h.1)

  insert_by-count :
      (p : A → Bool) (a : A) (xs : List A) → count p (insert_by a xs) ≡ count p (a ∷ xs)
  unfolding insert_by
  insert_by-count p a [] = refl
  insert_by-count p a (b ∷ bs) = ground (arith, insert_by-count p a bs)

  pub sort_by-count : (p : A → Bool) (xs : List A) → count p (sort_by xs) ≡ count p xs
  unfolding sort_by
  sort_by-count p [] = refl
  sort_by-count p (a ∷ xs) = ground (arith, insert_by-count p a (sort_by xs), sort_by-count p xs)

  insert_by-sum_where :
      (p : A → Bool) (f : A → ℕ) (a : A) (xs : List A)
      → sum_where p f (insert_by a xs) ≡ sum_where p f (a ∷ xs)
  unfolding insert_by
  insert_by-sum_where p f a [] = refl
  insert_by-sum_where p f a (b ∷ bs) = ground (arith, insert_by-sum_where p f a bs)

  pub sort_by-sum_where :
      (p : A → Bool) (f : A → ℕ) (xs : List A) → sum_where p f (sort_by xs) ≡ sum_where p f xs
  unfolding sort_by
  sort_by-sum_where p f [] = refl
  sort_by-sum_where p f (a ∷ xs) =
      ground (arith, insert_by-sum_where p f a (sort_by xs), sort_by-sum_where p f xs)

  module _ (total : (a b : A) → before a b ≡ false → before b a ≡ true)
      (chain : (a b c : A) → before a b ≡ true → before b c ≡ true → before a c ≡ true) where
    insert_by-IsSortedBy : (a : A) (xs : List A) → IsSortedBy xs → IsSortedBy (insert_by a xs)
    unfolding insert_by
    insert_by-IsSortedBy a [] h = (tt, tt)
    insert_by-IsSortedBy a (b ∷ bs) h = elim (Bool-cases (before a b)) [
      | inl e ↦ rw e ((e, All-map bs (λ c k. chain a b c e k) h.0), h)
      | inr e ↦ rw e (
        insert_by-All (λ c. before b c ≡ true) a bs (total a b e) h.0,
        insert_by-IsSortedBy a bs h.1,
      )
    ]

    pub sort_by-IsSortedBy : (xs : List A) → IsSortedBy (sort_by xs)
    unfolding sort_by
    sort_by-IsSortedBy [] = tt
    sort_by-IsSortedBy (a ∷ xs) = insert_by-IsSortedBy a (sort_by xs) (sort_by-IsSortedBy xs)

module _ {ℓ κ} {A : Type ℓ} {B : Type κ} (before : B → B → Bool) (f : A → B) where
  before-map :
      (b : B) (xs : List A)
      → All (λ x. before b (f x) ≡ true) xs
      → All (λ y. before b y ≡ true) (map f xs)
  before-map b [] h = tt
  before-map b (x ∷ xs) h = (h.0, before-map b xs h.1)

  pub map-IsSortedBy :
      (xs : List A) → IsSortedBy (λ x y. before (f x) (f y)) xs → IsSortedBy before (map f xs)
  map-IsSortedBy [] h = tt
  map-IsSortedBy (x ∷ xs) h = (before-map (f x) xs h.0, map-IsSortedBy xs h.1)
