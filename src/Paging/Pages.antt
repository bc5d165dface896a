-- ===== src/Paging/Pages.antt =====
-- The pages of a list hold all of it.
use pulse_keeper.Prelude.{
  List, [], ap, arith, drop, false, length, ltb, ltb→lt, refl, suc, sym, take, true, zero, ℕ, ◌*◌,
  ◌++◌, ◌+◌, ◌-◌, ◌/◌, ◌<◌, ◌∙◌, ◌∷◌, ◌≡◌, ◌≤◌,
}
use pulse_keeper.Paging.{build_pagination, page_of, pages_of}
use mathlib.Core.List.{append_assoc, append-nil}

enough_pages : (total limit : ℕ) → 0 < limit → total ≤ pages_of total limit * limit
enough_pages total limit h =
    let positive : ltb 0 limit ≡ true = ground arith in rw positive (grind arith)

past_end : (page limit total : ℕ) → 0 < limit → pages_of total limit ≤ page → total ≤ page * limit
past_end page limit total h k = grind (arith, enough_pages total limit h)

before_end : (page limit total : ℕ) → 0 < limit → page < pages_of total limit → page * limit < total
before_end page limit total h k =
    let positive : ltb 0 limit ≡ true = ground arith in
    let less : page < (total + (limit - 1)) / limit = rw positive at k in grind arith

module _ {ℓ} {A : Type ℓ} where
  -- The pages from the one after `from`, as many as are asked for, one after the other.
  unfoldable pub pages_from : ℕ → ℕ → ℕ → List A → List A
  pages_from zero from limit xs = []
  pages_from (suc n) from limit xs = page_of (suc from) limit xs ++ pages_from n (suc from) limit xs

  take-drop : (n : ℕ) (xs : List A) → take n xs ++ drop n xs ≡ xs
  take-drop zero xs = refl
  take-drop (suc n) [] = refl
  take-drop (suc n) (x ∷ xs) = ap (λ ys. x ∷ ys) (take-drop n xs)

  drop-nil : (n : ℕ) → ◌≡◌ {A = List A} (drop n []) []
  drop-nil zero = refl
  drop-nil (suc n) = refl

  drop-drop : (m n : ℕ) (xs : List A) → drop m (drop n xs) ≡ drop (n + m) xs
  drop-drop m zero xs = let same : m ≡ 0 + m = omega arith in ap (λ k. drop k xs) same
  drop-drop m (suc n) [] = drop-nil m ∙ sym (drop-nil (suc n + m))
  drop-drop m (suc n) (x ∷ xs) =
      let same : suc (n + m) ≡ suc n + m = omega arith in
      drop-drop m n xs ∙ ap (λ k. drop k (x ∷ xs)) same

  drop-all : (n : ℕ) (xs : List A) → length xs ≤ n → drop n xs ≡ []
  drop-all zero [] h = refl
  drop-all zero (x ∷ xs) h = absurd (omega (arith, h))
  drop-all (suc n) [] h = refl
  drop-all (suc n) (x ∷ xs) h = drop-all n xs (omega (arith, h))

  take-nil : (n : ℕ) → ◌≡◌ {A = List A} (take n []) []
  take-nil zero = refl
  take-nil (suc n) = refl

  some_left :
      (limit n : ℕ) (xs : List A) → 0 < limit → n < length xs → 1 ≤ length (take limit (drop n xs))
  some_left zero n xs h k = absurd (omega (arith, h))
  some_left (suc limit) n [] h k = absurd (omega (arith, k))
  some_left (suc limit) zero (x ∷ xs) h k = omega arith
  some_left (suc limit) (suc n) (x ∷ xs) h k = some_left (suc limit) n xs h (omega (arith, k))

  rest_of_pages :
      (n from limit : ℕ) (xs : List A)
      → pages_from n from limit xs ++ drop ((from + n) * limit) xs ≡ drop (from * limit) xs
  unfolding pages_from page_of
  rest_of_pages zero from limit xs =
      let same : from + 0 ≡ from = omega arith in ap (λ k. drop (k * limit) xs) same
  rest_of_pages (suc n) from limit xs =
      let here_now : (suc from - 1) * limit ≡ from * limit =
        ap (λ k. k * limit) (let one_less : suc from - 1 ≡ from = omega arith in one_less) in
      let later : (from + suc n) * limit ≡ (suc from + n) * limit =
        ap (λ k. k * limit) (let shifted : from + suc n ≡ suc from + n = omega arith in shifted) in
      let step : from * limit + limit ≡ suc from * limit = grind arith in
      append_assoc (page_of (suc from) limit xs) (pages_from n (suc from) limit xs) _
      ∙ ap (λ k. page_of (suc from) limit xs ++ (pages_from n (suc from) limit xs ++ drop k xs))
          later
      ∙ ap (λ ys. page_of (suc from) limit xs ++ ys) (rest_of_pages n (suc from) limit xs)
      ∙ ap (λ k. take limit (drop k xs) ++ drop (suc from * limit) xs) here_now
      ∙ ap (λ ys. take limit (drop (from * limit) xs) ++ ys)
          (sym (drop-drop limit (from * limit) xs ∙ ap (λ k. drop k xs) step))
      ∙ take-drop limit (drop (from * limit) xs)

  -- With pages of one row at least: as many pages as the pagination block reports hold, one after the
  -- other, exactly the whole list, in its order; a page that is not said to have more is followed by
  -- empty ones only, and one that is said to have more is followed by one that is not empty.
  pub pages_cover :
      (limit : ℕ) (xs : List A)
      → 0 < limit
      → (pages_from (build_pagination (length xs) 1 limit).total_pages 0 limit xs ≡ xs)
        × ((page : ℕ)
            → ((build_pagination (length xs) page limit).has_more ≡ false
                → page_of (suc page) limit xs ≡ [])
              × ((build_pagination (length xs) page limit).has_more ≡ true
                  → 1 ≤ length (page_of (suc page) limit xs)))
  unfolding build_pagination page_of
  pages_cover limit xs h =
      let total_pages = pages_of (length xs) limit in
      let all_pages = pages_from total_pages 0 limit xs in
      let first : 0 * limit ≡ 0 = omega arith in
      let enough : length xs ≤ (0 + total_pages) * limit =
        grind (arith, enough_pages (length xs) limit h) in
      (
        sym (append-nil all_pages)
            ∙ ap (λ ys. all_pages ++ ys) (sym (drop-all ((0 + total_pages) * limit) xs enough))
            ∙ rest_of_pages total_pages 0 limit xs
            ∙ ap (λ k. drop k xs) first,
        λ page.
            let start : (suc page - 1) * limit ≡ page * limit =
              ap (λ k. k * limit) (let one_less : suc page - 1 ≡ page = omega arith in one_less) in
            (
              λ last.
                  let over : length xs ≤ page * limit =
                    past_end page limit (length xs) h (ground (arith, last)) in
                  ap (λ k. take limit (drop k xs)) start
                  ∙ ap (take limit) (drop-all (page * limit) xs over)
                  ∙ take-nil limit,
              λ more.
                  let under : page * limit < length xs =
                    before_end page limit (length xs) h (ltb→lt page total_pages more) in
                  rw start (some_left limit (page * limit) xs h under),
            ),
      )
