-- ===== src/Concurrency/Owed.antt =====
-- A count for one index of the results: what programs that share the pool owe it. A program that
-- has claimed the index owes one write; no interleaving loses the debt or pays it twice.
use pulse_keeper.Prelude.{
  Bool, Bool-cases, Option, arith, false, get_elem?, if◌then◌else◌, inl, inr, length, ltb, none,
  refl, some, true, ℕ, ◌+◌, ◌≡◌, ◌≤◌,
}
use pulse_keeper.Async.{Async, Result, act, attempt, ret, returned, throw, thrown, ◌>>=◌}
use pulse_keeper.Async.Parallel.{both}
use pulse_keeper.Concurrency.{Pool}

module _ {A : Type 0} where
  abbrev pub is_filled : Option (Option A) → Bool
  is_filled none = false
  is_filled (some none) = false
  is_filled (some (some a)) = true

  -- 1 if the result of index `i` is there, and if the index has been claimed.
  abbrev pub filled : ℕ → Pool A → ℕ
  filled i s = if is_filled (get_elem? s.results i) then 1 else 0

  abbrev pub claimed : ℕ → Pool A → ℕ
  claimed i s = if ltb i s.next_index then 1 else 0

  -- An act from `s` to `t`, by a program that owes `k` before it and `k'` after it.
  abbrev pub Pays : ℕ → ℕ → Pool A → Pool A → ℕ → ℕ → Type 0
  Pays n i s t k k' =
      (filled i t + k' + claimed i s ≡ filled i s + k + claimed i t)
      × (s.next_index ≤ t.next_index)
      × (length t.results ≡ n)

abbrev pub Grows : {B : Type 0} → (ℕ → B → Type 0) → Type 0
Grows {B} Q = (lo lo' : ℕ) (b : B) → lo ≤ lo' → Q lo b → Q lo' b

abbrev pub Returned : {B : Type 0} → (ℕ → B → Type 0) → ℕ → Result B → Type 0
Returned Q lo (returned b) = Q lo b
Returned Q lo (thrown e) = ⊥

-- What two programs side by side end with.
abbrev pub Both :
    {B C : Type 0} → (ℕ → B → Type 0) → (ℕ → C → Type 0) → ℕ → Result B × Result C → Type 0
Both Q R lo r = Returned Q lo r.0 × Returned R lo r.1

module _ {W A : Type 0} (n i : ℕ) where
  -- The program owes `k`, does not throw, and ends owing nothing with `Q`, where the next index is
  -- at least `lo` now, whatever other programs that pay their own debts do in between.
  abbrev pub Owes : {B : Type 0} → (ℕ → B → Type 0) → ℕ → ℕ → Async (W × Pool A) B → Type 0
  Owes Q lo k (ret b) = (k ≡ 0) × Q lo b
  Owes Q lo k (throw e) = ⊥
  Owes Q lo k (act g c) =
      (p : W × Pool A)
      → lo ≤ p.1.next_index
      → length p.1.results ≡ n
      → filled i p.1 + k ≤ claimed i p.1
      → (k' : ℕ) × Pays n i p.1 (g p).1 k k' × Owes Q (g p).1.next_index k' (c p)

  pub Owes-raise :
      {B : Type 0} (Q : ℕ → B → Type 0) (m : Async (W × Pool A) B) (lo lo' k : ℕ)
      → Grows Q
      → lo ≤ lo'
      → Owes Q lo k m
      → Owes Q lo' k m
  Owes-raise Q (ret b) lo lo' k grows h o = (o.0, grows lo lo' b h o.1)
  Owes-raise Q (throw e) lo lo' k grows h o = o
  Owes-raise Q (act g c) lo lo' k grows h o = λ p l. o p (omega arith)

  pub Owes->>= :
      {B C : Type 0} (Q : ℕ → B → Type 0) (R : ℕ → C → Type 0) (m : Async (W × Pool A) B)
      (f : B → Async (W × Pool A) C) (lo k : ℕ)
      → Owes Q lo k m
      → ((lo' : ℕ) (b : B) → lo ≤ lo' → Q lo' b → Owes R lo' 0 (f b))
      → Owes R lo k (m >>= f)
  unfolding ◌>>=◌
  Owes->>= Q R (ret b) f lo k o h = rw o.0 (h lo b (omega arith) o.1)
  Owes->>= Q R (throw e) f lo k o h = absurd o
  Owes->>= Q R (act g c) f lo k o h = λ p l e d.
      let (k', pays, more) = o p l e d in
      (
        k',
        pays,
        Owes->>= Q R (c p) f (g p).1.next_index k' more
            (λ lo' b over. h lo' b (bounded p l over pays.1)),
      )
    where
      bounded :
          {lo' : ℕ} (p : W × Pool A)
          → lo ≤ p.1.next_index
          → (g p).1.next_index ≤ lo'
          → p.1.next_index ≤ (g p).1.next_index
          → lo ≤ lo'
      bounded p l over step = omega arith

  pub Owes-attempt :
      {B : Type 0} (Q : ℕ → B → Type 0) (m : Async (W × Pool A) B) (lo k : ℕ)
      → Owes Q lo k m
      → Owes (Returned Q) lo k (attempt m)
  unfolding attempt
  Owes-attempt Q (ret b) lo k o = o
  Owes-attempt Q (throw e) lo k o = absurd o
  Owes-attempt Q (act g c) lo k o = λ p l e d.
      let (k', pays, more) = o p l e d in
      (k', pays, Owes-attempt Q (c p) (g p).1.next_index k' more)

  module _ (first_runs : ℕ → W × Pool A → Bool) where
    pub Owes-both :
        {B C : Type 0} (Q : ℕ → B → Type 0) (R : ℕ → C → Type 0) (depth : ℕ)
        (m : Async (W × Pool A) B) (m' : Async (W × Pool A) C) (lo k k' : ℕ)
        → Grows Q
        → Grows R
        → Owes Q lo k m
        → Owes R lo k' m'
        → Owes (Both Q R) lo (k + k') (both first_runs depth m m')
    unfolding both
    Owes-both Q R depth (ret b) m' lo k k' gq gr o o' =
        let same : k + k' ≡ k' = omega (arith, o.0) in
        rw same (
          Owes->>= (Returned R) (Both Q R) (attempt m') _ lo k' (Owes-attempt R m' lo k' o')
            (λ lo' r over q. (refl, (gq lo lo' b over o.1, q))))
    Owes-both Q R depth (throw e) m' lo k k' gq gr o o' = absurd o
    Owes-both Q R depth (act g c) (ret b) lo k k' gq gr o o' =
        let same : k + k' ≡ k = omega (arith, o'.0) in
        rw same (
          Owes->>= (Returned Q) (Both Q R) (attempt (act g c)) _ lo k
            (Owes-attempt Q (act g c) lo k o) (λ lo' r over q. (refl, (q, gr lo lo' b over o'.1))))
    Owes-both Q R depth (act g c) (throw e) lo k k' gq gr o o' = absurd o'
    Owes-both Q R depth (act g c) (act h l) lo k k' gq gr o o' = λ p low e d.
        elim (Bool-cases (first_runs depth p)) [
          | inl first ↦
              let (j, pays, more) = o p low e (omega arith) in
              let rest = Owes-raise R (act h l) lo (g p).1.next_index k' gr (omega arith) o' in
              rw first (
                j + k',
                (omega arith, pays.1, pays.2),
                Owes-both Q R depth (c p) (act h l) (g p).1.next_index j k' gq gr more rest,
              )
          | inr second ↦
              let (j, pays, more) = o' p low e (omega arith) in
              let rest = Owes-raise Q (act g c) lo (h p).1.next_index k gq (omega arith) o in
              rw second (
                k + j,
                (omega arith, pays.1, pays.2),
                Owes-both Q R depth (act g c) (l p) (h p).1.next_index k j gq gr rest more,
              )
        ]
