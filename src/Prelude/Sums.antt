-- ===== src/Prelude/Sums.antt =====
-- Sums over lists, and rounded quotients.
use pulse_keeper.Prelude.{
  All, Bool, Bool-cases, List, [], arith, count, if◌then◌else◌, inl, inr, keep, length, map, refl,
  ℕ, ◌&&◌, ◌*◌, ◌+◌, ◌/◌, ◌<◌, ◌∷◌, ◌≡◌, ◌≤◌,
}

module _ {ℓ} {A : Type ℓ} where
  -- The sum of the measures of the elements.
  abbrev pub sum_of : (A → ℕ) → List A → ℕ
  sum_of f [] = 0
  sum_of f (x ∷ xs) = f x + sum_of f xs

  -- The sum of the measures of the elements that pass the test.
  abbrev pub sum_where : (A → Bool) → (A → ℕ) → List A → ℕ
  sum_where p f [] = 0
  sum_where p f (x ∷ xs) = if p x then f x + sum_where p f xs else sum_where p f xs

  pub sum_of-le :
      (f : A → ℕ) (most : ℕ) (xs : List A)
      → All (λ x. f x ≤ most) xs
      → sum_of f xs ≤ length xs * most
  sum_of-le f most [] h = omega arith
  sum_of-le f most (x ∷ xs) h = omega (arith, h.0, sum_of-le f most xs h.1)

  pub sum_of-ge :
      (f : A → ℕ) (least : ℕ) (xs : List A)
      → All (λ x. least ≤ f x) xs
      → length xs * least ≤ sum_of f xs
  sum_of-ge f least [] h = omega arith
  sum_of-ge f least (x ∷ xs) h = omega (arith, h.0, sum_of-ge f least xs h.1)

  pub count-keep : (p q : A → Bool) (xs : List A) → count q (keep p xs) ≡ count (λ x. p x && q x) xs
  count-keep p q [] = refl
  count-keep p q (x ∷ xs) = ground (arith, count-keep p q xs)

  pub length-keep : (p : A → Bool) (xs : List A) → length (keep p xs) ≡ count p xs
  length-keep p [] = refl
  length-keep p (x ∷ xs) = ground (arith, length-keep p xs)

  -- Two tests that agree count alike.
  pub count_agree : (p q : A → Bool) (xs : List A) → ((x : A) → p x ≡ q x) → count p xs ≡ count q xs
  count_agree p q [] h = refl
  count_agree p q (x ∷ xs) h = rw (h x, count_agree p q xs h) refl

module _ {ℓ κ} {A : Type ℓ} (P : A → Type κ) where
  pub keep-All : (p : A → Bool) (xs : List A) → All P xs → All P (keep p xs)
  keep-All p [] h = tt
  keep-All p (x ∷ xs) h = elim (Bool-cases (p x)) [
    | inl e ↦ rw e (h.0, keep-All p xs h.1)
    | inr e ↦ rw e (keep-All p xs h.1)
  ]

module _ {ℓ κ} {A : Type ℓ} {B : Type κ} where
  pub sum_where-map :
      (g : A → B) (p : B → Bool) (f : B → ℕ) (xs : List A)
      → sum_where p f (map g xs) ≡ sum_where (λ x. p (g x)) (λ x. f (g x)) xs
  sum_where-map g p f [] = refl
  sum_where-map g p f (x ∷ xs) = ground (arith, sum_where-map g p f xs)

  pub count-map :
      (g : A → B) (p : B → Bool) (xs : List A) → count p (map g xs) ≡ count (λ x. p (g x)) xs
  count-map g p [] = refl
  count-map g p (x ∷ xs) = ground (arith, count-map g p xs)

-- `Math.round(a / b)` for a positive `b`.
unfoldable pub round_div : ℕ → ℕ → ℕ
round_div a b = (2 * a + b) / (2 * b)

-- A mean lies between bounds of what it is the mean of.
pub round_div_bounds :
    (a b lo hi : ℕ) → 0 < b → b * lo ≤ a → a ≤ b * hi → (lo ≤ round_div a b) × (round_div a b ≤ hi)
unfolding round_div
round_div_bounds a b lo hi p h k = (grind arith, grind arith)
