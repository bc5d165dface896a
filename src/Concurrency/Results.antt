-- ===== src/Concurrency/Results.antt =====
-- What `runWithConcurrency` promises its callers.
use pulse_keeper.Prelude.{
  ==_iff, All, Bool, Bool-cases, List, Option, [], ap, arith, false, get_elem?, inl, inr, leb,
  length, min, none, refl, replicate, set, some, suc, sym, true, zero, ℕ, ◌-◌, ◌<◌, ◌==◌, ◌∙◌, ◌∷◌,
  ◌≡◌, ◌≤◌,
}
use pulse_keeper.Async.{Async, act, ret, returned, run, throw, ◌>>=◌}
use pulse_keeper.Async.Rules.{Keeps, NoThrow, Returns, run->>=}
use pulse_keeper.Async.Parallel.{Keeps-all_of}
use pulse_keeper.Concurrency.{
  Pool, beside, carry, fresh_pool, run_with_concurrency, store, work, worker, workers,
}
use pulse_keeper.Concurrency.Owed.{claimed, filled, is_filled}
use pulse_keeper.Concurrency.Claims.{
  Exhausted, crew-Owes, get_elem?-set_ne, get_elem?-set_self, run-Owes,
}

module _ {W A : Type 0} (wait : W → W) (tasks : List (Async W A)) where
  module _ {ℓ} (Q : ℕ → A → Type ℓ) where
    -- Each result that is there belongs to its index.
    abbrev From : W × Pool A → Type ℓ
    From p = (i : ℕ) (a : A) → get_elem? p.1.results i ≡ some (some a) → Q i a

    -- What the task of each index can return.
    abbrev pub Promised : Type ℓ
    Promised = (i : ℕ) (task : Async W A) → get_elem? tasks i ≡ some task → Returns (Q i) task

    store-From :
        (p : W × Pool A) (j : ℕ) (a : A)
        → Q j a
        → From p
        → From (wait p.0, store wait tasks j a p.1)
    store-From p j a q h i b e = elim (Bool-cases (j == i)) [
      | inl same ↦
          let now : j ≡ i = (==_iff j i).0 same in
          at_same i now e (bounded p.1.results j (some a) i e)
      | inr other ↦
          h i b (
            sym (get_elem?-set_ne p.1.results j i (some a) (λ s. cc (other, (==_iff j i).1 s))) ∙ e)
    ]
      where
        bounded :
            (xs : List (Option A)) (j : ℕ) (v : Option A) (i : ℕ) {b : Option A}
            → get_elem? (set xs j v) i ≡ some b
            → i < length xs
        bounded [] j v i h = cc
        bounded (x ∷ xs) zero v zero h = omega arith
        bounded (x ∷ xs) (suc j) v zero h = omega arith
        bounded (x ∷ xs) zero v (suc i) h = omega (arith, within xs i h)
          where
            within :
                (xs : List (Option A)) (i : ℕ) {b : Option A}
                → get_elem? xs i ≡ some b
                → i < length xs
            within [] i h = cc
            within (x ∷ xs) zero h = omega arith
            within (x ∷ xs) (suc i) h = omega (arith, within xs i h)
        bounded (x ∷ xs) (suc j) v (suc i) h = omega (arith, bounded xs j v i h)

        at_same :
            (i : ℕ)
            → j ≡ i
            → get_elem? (set p.1.results j (some a)) i ≡ some (some b)
            → i < length p.1.results
            → Q i b
        at_same i now e lt =
            let written : get_elem? (set p.1.results j (some a)) i ≡ some (some a) =
              rw (← now) (get_elem?-set_self p.1.results j (some a) (omega (arith, now))) in
            let same : a ≡ b = cc in rw (← same, ← now) q

    -- A task beside the pool leaves the pool alone, and returns what is promised of it.
    Keeps-task :
        {B : Type 0} (j : ℕ) (task : Async W A) (f : A → Async (W × Pool A) B)
        → Returns (Q j) task
        → ((a : A) → Q j a → Keeps From (f a))
        → Keeps From (beside task >>= f)
    unfolding beside ◌>>=◌
    Keeps-task j (ret a) f r h = h a r
    Keeps-task j (throw e) f r h = tt
    Keeps-task j (act g c) f r h = λ p. ((λ q. q), Keeps-task j (c p.0) f (r p.0) h)

    Keeps-work-From :
        (again : Async (W × Pool A) (Unit {0})) (j : ℕ) (o : Option (Async W A))
        → Promised
        → get_elem? tasks j ≡ o
        → Keeps From again
        → Keeps From (work wait tasks again j o)
    unfolding work
    Keeps-work-From again j none promised e h = tt
    Keeps-work-From again j (some task) promised e h =
        Keeps-task j task _ (promised j task e) (λ a q p. (store-From p j a q, h))

    Keeps-worker-From : (fuel : ℕ) → Promised → Keeps From (worker wait tasks fuel)
    unfolding worker
    Keeps-worker-From zero promised = tt
    Keeps-worker-From (suc fuel) promised = λ p. (
      (λ q. q),
      elim (Bool-cases (leb (length tasks) p.1.next_index)) [
        | inl e ↦ rw e tt
        | inr e ↦ rw e (
            Keeps-work-From (worker wait tasks fuel) p.1.next_index _ promised refl
              (Keeps-worker-From fuel promised))
      ],
    )

    Keeps-crew-From :
        (m fuel : ℕ) → Promised → All (Keeps From) (replicate m (worker wait tasks fuel))
    Keeps-crew-From zero fuel promised = tt
    Keeps-crew-From (suc m) fuel promised =
        (Keeps-worker-From fuel promised, Keeps-crew-From m fuel promised)

    carry-From :
        {B : Type 0} (m : Async (W × Pool A) B) (s : Pool A) (w : W) (b : B) (t : Pool A)
        → Keeps From m
        → From (w, s)
        → (run (carry m s) w).0 ≡ returned (b, t)
        → From (w, t)
    unfolding run carry
    carry-From (ret x) s w b t h from e =
        let same : s ≡ t = cc in λ i a there_now. from i a (rw same there_now)
    carry-From (throw x) s w b t h from e = cc
    carry-From (act g c) s w b t h from e =
        carry-From (c (w, s)) (g (w, s)).1 (g (w, s)).0 b t (h (w, s)).1 ((h (w, s)).0 from) e

no_result :
    (A : Type 0) (n i : ℕ) → is_filled (get_elem? (replicate {A = Option A} n none) i) ≡ false
no_result A zero i = refl
no_result A (suc n) zero = refl
no_result A (suc n) (suc i) = no_result A n i

length-replicate {ℓ} : {A : Type ℓ} (n : ℕ) (a : A) → length (replicate n a) ≡ n
length-replicate zero a = refl
length-replicate (suc n) a = ap suc (length-replicate n a)

filled_result :
    {A : Type 0} (o : Option (Option A)) → is_filled o ≡ true → (a : A) × (o ≡ some (some a))
filled_result none h = cc
filled_result (some none) h = cc
filled_result (some (some a)) h = (a, refl)

module _ {ℓ} {W A : Type 0} (wait : W → W) (first_runs : ℕ → W → Bool) where
  -- What the workers end with, for one index.
  workers_settle :
      (tasks : List (Async W A)) (limit i : ℕ) (w : W)
      → All NoThrow tasks
      → i < length tasks
      → 1 ≤ limit
      → (b : List (Unit {0})) × (t : Pool A) × ((run
            (carry (workers wait tasks first_runs limit) (fresh_pool wait tasks))
            w).0
          ≡ returned (b, t))
        × (length t.results ≡ length tasks)
        × (filled i t ≡ claimed i t)
        × (length tasks ≤ t.next_index)
  unfolding workers
  workers_settle tasks limit i w quiet listed some_limit =
      let crew_size : min limit (length tasks) ≡ suc (min limit (length tasks) - 1) = omega arith in
      rw crew_size (
        run-Owes wait tasks quiet i listed (Exhausted (length tasks)) _ (fresh_pool wait tasks) w 0
          (length-replicate (length tasks) none) (ground (arith, no_result A (length tasks) i))
          (crew-Owes wait tasks quiet i listed first_runs (min limit (length tasks) - 1)))

  abbrev carried : List (Async W A) → ℕ → Async W (List (Unit {0}) × Pool A)
  carried tasks limit = carry (workers wait tasks first_runs limit) (fresh_pool wait tasks)

  -- What the workers end with belongs to its index.
  carried_from :
      (tasks : List (Async W A)) (limit : ℕ) (w : W) (Q : ℕ → A → Type ℓ)
      → Promised wait tasks Q
      → (b : List (Unit {0})) (t : Pool A) → (run (carried tasks limit) w).0 ≡ returned (b, t)
      → (i : ℕ) (a : A) → get_elem? t.results i ≡ some (some a)
      → Q i a
  unfolding workers
  carried_from tasks limit w Q promised b t e =
      carry-From wait tasks Q (workers wait tasks first_runs limit) (fresh_pool wait tasks) w b t
        (Keeps-all_of _ _ _
          (Keeps-crew-From wait tasks Q (min limit (length tasks)) (suc (length tasks)) promised))
        (λ i a h. absurd (cc (no_result A (length tasks) i))) e

  -- Where no task throws and one worker at least is allowed: however the workers interleave,
  -- `run_with_concurrency` returns as many results as there are tasks, none is missing, and the
  -- result at each index is one that the task of that index can return.
  pub run_with_concurrency_complete :
      (tasks : List (Async W A)) (limit : ℕ) (w : W) (Q : ℕ → A → Type ℓ)
      → All NoThrow tasks
      → 1 ≤ limit
      → Promised wait tasks Q
      → (rs : List (Option A)) × ((run (run_with_concurrency wait tasks first_runs limit) w).0
          ≡ returned rs)
        × (length rs ≡ length tasks)
        × ((i : ℕ) → i < length tasks → (a : A) × (get_elem? rs i ≡ some (some a)) × Q i a)
  unfolding run_with_concurrency run
  run_with_concurrency_complete [] limit w Q quiet some_limit promised =
      ([], refl, refl, λ i h. elim h [ ])
  run_with_concurrency_complete (t ∷ ts) limit w Q quiet some_limit promised =
      let (b, pool, ended, size, settled, done) =
        workers_settle (t ∷ ts) limit 0 w quiet (omega arith) some_limit in
      (pool.results, ended_results b pool ended, size, λ i listed. at_index b pool ended i listed)
    where
      ended_results :
          (b : List (Unit {0})) (pool : Pool A)
          → (run (carried (t ∷ ts) limit) w).0 ≡ returned (b, pool)
          → (run (carried (t ∷ ts) limit >>= λ r. ret r.1.results) w).0 ≡ returned pool.results
      ended_results b pool e =
          rw (run->>= (carried (t ∷ ts) limit) (λ r. ret r.1.results) w, e) refl

      at_index :
          (b : List (Unit {0})) (pool : Pool A)
          → (run (carried (t ∷ ts) limit) w).0 ≡ returned (b, pool)
          → (i : ℕ) → i < length (t ∷ ts)
          → (a : A) × (get_elem? pool.results i ≡ some (some a)) × Q i a
      at_index b pool e i listed =
          let (b', pool', ended, size, settled, done) =
            workers_settle (t ∷ ts) limit i w quiet listed some_limit in
          let same : pool' ≡ pool = cc in
          let there_now : is_filled (get_elem? pool.results i) ≡ true =
            ground (arith, same, settled, done) in
          let (a, found) = filled_result (get_elem? pool.results i) there_now in
          (a, found, carried_from (t ∷ ts) limit w Q promised b pool e i a found)
