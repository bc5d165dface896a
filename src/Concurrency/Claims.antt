-- ===== src/Concurrency/Claims.antt =====
-- `runWithConcurrency` returns, and every task's result is in its place.
use pulse_keeper.Prelude.{
  ==_iff, All, Bool, Bool-cases, List, [], ap, arith, get_elem?, if◌then◌else◌, inl, inr, leb,
  length, refl, replicate, set, some, suc, zero, ℕ, ◌+◌, ◌<◌, ◌==◌, ◌∷◌, ◌≡◌, ◌≢◌, ◌≤◌,
}
use pulse_keeper.Async.{Async, Result, act, ret, returned, run, throw, thrown, ◌>>=◌}
use pulse_keeper.Async.Rules.{NoThrow}
use pulse_keeper.Async.Parallel.{all_of, join}
use pulse_keeper.Concurrency.{Pool, beside, carry, claim, store, work, worker}
use pulse_keeper.Concurrency.Owed.{Both, Owes, Owes->>=, Owes-both, Pays, claimed, filled}

module _ {A : Type 0} where
  pub length-set : (xs : List A) (j : ℕ) (v : A) → length (set xs j v) ≡ length xs
  length-set [] j v = refl
  length-set (x ∷ xs) zero v = refl
  length-set (x ∷ xs) (suc j) v = ap suc (length-set xs j v)

  pub get_elem?-set_self :
      (xs : List A) (i : ℕ) (v : A) → i < length xs → get_elem? (set xs i v) i ≡ some v
  get_elem?-set_self [] i v h = elim h [ ]
  get_elem?-set_self (x ∷ xs) zero v h = refl
  get_elem?-set_self (x ∷ xs) (suc i) v h = get_elem?-set_self xs i v (omega arith)

  pub get_elem?-set_ne :
      (xs : List A) (i j : ℕ) (v : A) → i ≢ j → get_elem? (set xs i v) j ≡ get_elem? xs j
  get_elem?-set_ne [] i j v h = refl
  get_elem?-set_ne (x ∷ xs) zero zero v h = absurd (h refl)
  get_elem?-set_ne (x ∷ xs) zero (suc j) v h = refl
  get_elem?-set_ne (x ∷ xs) (suc i) zero v h = refl
  get_elem?-set_ne (x ∷ xs) (suc i) (suc j) v h = get_elem?-set_ne xs i j v (λ e. h (ap suc e))

  pub get_elem?-some : (xs : List A) (j : ℕ) → j < length xs → (a : A) × (get_elem? xs j ≡ some a)
  get_elem?-some [] j h = elim h [ ]
  get_elem?-some (x ∷ xs) zero h = (x, refl)
  get_elem?-some (x ∷ xs) (suc j) h = get_elem?-some xs j (omega arith)

  pub get_elem?-All {κ} :
      (P : A → Type κ) (xs : List A) (j : ℕ) (a : A) → All P xs → get_elem? xs j ≡ some a → P a
  get_elem?-All P [] j a h e = absurd (cc)
  get_elem?-All P (x ∷ xs) zero a h e = let same : x ≡ a = cc in rw (← same) h.0
  get_elem?-All P (x ∷ xs) (suc j) a h e = get_elem?-All P xs j a h.1 e

-- Which worker ends for good, and which result may be anything.
abbrev pub Exhausted : {B : Type 0} → ℕ → ℕ → B → Type 0
Exhausted n lo b = n ≤ lo

abbrev Anything : {B : Type 0} → ℕ → B → Type 0
Anything lo b = Unit {0}

module _ {W A : Type 0} (wait : W → W) (tasks : List (Async W A)) (quiet : All NoThrow tasks)
    (i : ℕ) (listed : i < length tasks) where
  abbrev pub n_tasks : ℕ
  n_tasks = length tasks

  -- A task changes nothing of the pool.
  task-Owes :
      {B : Type 0} (Q : ℕ → B → Type 0) (task : Async W A) (f : A → Async (W × Pool A) B) (lo k : ℕ)
      → NoThrow task
      → ((lo' : ℕ) (a : A) → lo ≤ lo' → Owes n_tasks i Q lo' k (f a))
      → Owes n_tasks i Q lo k (beside task >>= f)
  unfolding beside ◌>>=◌
  task-Owes Q (ret a) f lo k q h = h lo a (omega arith)
  task-Owes Q (throw e) f lo k q h = absurd q
  task-Owes Q (act g c) f lo k q h = λ p l e d. (
    k,
    (refl, omega arith, e),
    task-Owes Q (c p.0) f p.1.next_index k (q p.0) (λ lo' a over. h lo' a (omega arith)),
  )

  -- What a claim of the index `j` leaves to be done for `i`.
  abbrev debt : ℕ → ℕ
  debt j = if j == i then 1 else 0

  store-Pays :
      (s : Pool A) (j : ℕ) (a : A)
      → length s.results ≡ n_tasks
      → filled i s + debt j ≤ claimed i s
      → Pays n_tasks i s (store wait tasks j a s) (debt j) 0
  store-Pays s j a e d = elim (Bool-cases (j == i)) [
    | inl same ↦
        let here_now : j ≡ i = (==_iff j i).0 same in
        let written : get_elem? (set s.results j (some a)) i ≡ some (some a) =
          rw (← here_now) (get_elem?-set_self s.results j (some a) (omega (arith, here_now))) in
        ground (arith, written, same, length-set s.results j (some a))
    | inr other ↦
        let kept : get_elem? (set s.results j (some a)) i ≡ get_elem? s.results i =
          get_elem?-set_ne s.results j i (some a) (λ same. cc (other, (==_iff j i).1 same)) in
        ground (arith, kept, other, length-set s.results j (some a))
  ]

  work-Owes :
      (again : Async (W × Pool A) (Unit {0})) (j lo : ℕ) (task : Async W A)
      → NoThrow task
      → ((lo' : ℕ) → lo ≤ lo' → Owes n_tasks i (Exhausted n_tasks) lo' 0 again)
      → Owes n_tasks i (Exhausted n_tasks) lo (debt j) (work wait tasks again j (some task))
  unfolding work
  work-Owes again j lo task q h =
      task-Owes (Exhausted n_tasks) task _ lo (debt j) q
        λ lo' a over p l e d. (0, store-Pays p.1 j a e d, h p.1.next_index (omega arith))

  claim_pays :
      (s : Pool A)
      → filled i s + debt s.next_index + claimed i s
        ≡ filled i s + 0 + claimed i (claim wait tasks s)
  claim_pays s = ground arith

  -- One round of a worker, whose next round is `again`.
  round-Owes :
      (again : Async (W × Pool A) (Unit {0})) (lo : ℕ)
      → ((j : ℕ)
          → lo ≤ j
          → j < n_tasks
          → (lo' : ℕ) → suc j ≤ lo'
          → Owes n_tasks i (Exhausted n_tasks) lo' 0 again)
      → Owes n_tasks i (Exhausted n_tasks) lo 0 (
          act
            (λ p. (wait p.0, claim wait tasks p.1))
            (λ p.
              if leb (length tasks) p.1.next_index
              then ret tt
              else work wait tasks again p.1.next_index (get_elem? tasks p.1.next_index)))
  round-Owes again lo h p low e d = elim (Bool-cases (leb n_tasks p.1.next_index)) [
    | inl over ↦ rw over (0, (ground (arith, over), omega arith, e), (refl, ground (arith, over)))
    | inr under ↦
        let (task, found) = get_elem?-some tasks p.1.next_index (ground (arith, under)) in
        rw (under, found)
          (
            debt p.1.next_index,
            (claim_pays p.1, omega arith, e),
            work-Owes again p.1.next_index (suc p.1.next_index) task
                (get_elem?-All NoThrow tasks p.1.next_index task quiet found)
                (h p.1.next_index low (ground (arith, under))),
          )
  ]

  worker-Owes :
      (fuel lo : ℕ)
      → n_tasks ≤ lo + fuel
      → Owes n_tasks i (Exhausted n_tasks) lo 0 (worker wait tasks (suc fuel))
  unfolding worker
  worker-Owes zero lo h =
      round-Owes (worker wait tasks zero) lo (λ j l b lo' o. absurd (omega arith))
  worker-Owes (suc fuel) lo h =
      round-Owes (worker wait tasks (suc fuel)) lo
        (λ j l b lo' o. worker-Owes fuel lo' (omega arith))

  module _ (first_runs : ℕ → W → Bool) where
    abbrev pub pick : ℕ → W × Pool A → Bool
    pick depth p = first_runs depth p.0

    abbrev pub crew : ℕ → List (Async (W × Pool A) (Unit {0}))
    crew m = replicate m (worker wait tasks (suc n_tasks))

    crew-Owes_any : (m : ℕ) → Owes n_tasks i Anything 0 0 (all_of pick (crew m))
    unfolding all_of
    crew-Owes_any zero = (refl, tt)
    crew-Owes_any (suc m) =
        Owes->>= n_tasks i (Both (Exhausted n_tasks) Anything) Anything _ _ 0 0
          (Owes-both n_tasks i pick (Exhausted n_tasks) Anything _ _ _ 0 0 0
            (λ lo lo' b l q. omega arith) (λ lo lo' b l q. tt) (worker-Owes n_tasks 0 (omega arith))
            (crew-Owes_any m))
          joined
      where
        joined :
            (lo : ℕ) (r : Result (Unit {0}) × Result (List (Unit {0})))
            → 0 ≤ lo
            → Both (Exhausted n_tasks) Anything lo r
            → Owes n_tasks i Anything lo 0 (join pick r)
        joined lo (returned a, returned b) l q = (refl, tt)
        joined lo (returned a, thrown e) l q = q.1
        joined lo (thrown e, b) l q = q.0

    pub crew-Owes : (m : ℕ) → Owes n_tasks i (Exhausted n_tasks) 0 0 (all_of pick (crew (suc m)))
    unfolding all_of
    crew-Owes m =
        Owes->>= n_tasks i (Both (Exhausted n_tasks) Anything) (Exhausted n_tasks) _ _ 0 0
          (Owes-both n_tasks i pick (Exhausted n_tasks) Anything _ _ _ 0 0 0
            (λ lo lo' b l q. omega arith) (λ lo lo' b l q. tt) (worker-Owes n_tasks 0 (omega arith))
            (crew-Owes_any m))
          joined
      where
        joined :
            (lo : ℕ) (r : Result (Unit {0}) × Result (List (Unit {0})))
            → 0 ≤ lo
            → Both (Exhausted n_tasks) Anything lo r
            → Owes n_tasks i (Exhausted n_tasks) lo 0 (join pick r)
        joined lo (returned a, returned b) l q = (refl, q.0)
        joined lo (returned a, thrown e) l q = q.1
        joined lo (thrown e, b) l q = q.0

  -- A program that owes nothing more ends with the pool's account of `i` settled.
  pub run-Owes :
      {B : Type 0} (Q : ℕ → B → Type 0) (m : Async (W × Pool A) B) (s : Pool A) (w : W) (k : ℕ)
      → length s.results ≡ n_tasks
      → filled i s + k ≡ claimed i s
      → Owes n_tasks i Q s.next_index k m
      → (b : B) × (t : Pool A) × ((run (carry m s) w).0 ≡ returned (b, t))
        × (length t.results ≡ n_tasks)
        × (filled i t ≡ claimed i t)
        × Q t.next_index b
  unfolding run carry
  run-Owes Q (ret b) s w k e d o = (b, s, refl, e, omega (arith, o.0), o.1)
  run-Owes Q (throw x) s w k e d o = absurd o
  run-Owes Q (act g c) s w k e d o =
      let (k', pays, more) = o (w, s) (omega arith) e (omega arith) in
      run-Owes Q (c (w, s)) (g (w, s)).1 (g (w, s)).0 k' pays.2 (omega arith) more
