-- ===== src/Concurrency/Kept.antt =====
-- What every task keeps true of the world, the workers keep true of it, however they interleave.
use pulse_keeper.Prelude.{
  All, Bool, Bool-cases, List, Option, [], arith, get_elem?, inl, inr, leb, length, min, none, refl,
  replicate, some, suc, zero, ℕ, ◌∷◌, ◌≡◌,
}
use pulse_keeper.Async.{Async, act, ret, throw}
use pulse_keeper.Async.Rules.{Keeps, Keeps->>=}
use pulse_keeper.Async.Parallel.{Keeps-all_of}
use pulse_keeper.Concurrency.{Pool, beside, carry, run_with_concurrency, work, worker, workers}

module _ {ℓ} {W : Type 0} (P : W → Type ℓ) where
  abbrev pub Beside : {S : Type 0} → W × S → Type ℓ
  Beside p = P p.0

  Keeps-beside :
      {A : Type 0} (S : Type 0) (m : Async W A) → Keeps P m → Keeps {W = W × S} Beside (beside m)
  unfolding beside
  Keeps-beside S (ret a) h = tt
  Keeps-beside S (throw e) h = tt
  Keeps-beside S (act g k) h = λ p. ((h p.0).0, Keeps-beside S (k p.0) (h p.0).1)

  pub Keeps-carry :
      {A S : Type 0} (m : Async (W × S) A) (s : S) → Keeps Beside m → Keeps P (carry m s)
  unfolding carry
  Keeps-carry (ret a) s h = tt
  Keeps-carry (throw e) s h = tt
  Keeps-carry (act g k) s h = λ w. ((h (w, s)).0, Keeps-carry (k (w, s)) (g (w, s)).1 (h (w, s)).1)

  module _ {A : Type 0} (wait : W → W) (waits : (w : W) → P w → P (wait w))
      (tasks : List (Async W A)) (tasks_keep : All (Keeps P) tasks) where
    at_index :
        (index : ℕ) (ts : List (Async W A))
        → All (Keeps P) ts
        → (o : Option (Async W A)) → get_elem? ts index ≡ o
        → (task : Async W A) → o ≡ some task
        → Keeps P task
    at_index index [] h o e task s = absurd (ground arith)
    at_index zero (t ∷ ts) h o e task s = let same : t ≡ task = ground arith in rw (← same) h.0
    at_index (suc index) (t ∷ ts) h o e task s = at_index index ts h.1 o e task s

    Keeps-work :
        (again : Async (W × Pool A) (Unit {0})) (index : ℕ) (o : Option (Async W A))
        → get_elem? tasks index ≡ o
        → Keeps Beside again
        → Keeps Beside (work wait tasks again index o)
    unfolding work
    Keeps-work again index none e h = tt
    Keeps-work again index (some task) e h =
        Keeps->>= Beside (beside task) _
          (Keeps-beside _ task (at_index index tasks tasks_keep _ e task refl))
          (λ a p. (waits p.0, h))

    Keeps-worker : (fuel : ℕ) → Keeps Beside (worker wait tasks fuel)
    unfolding worker
    Keeps-worker zero = tt
    Keeps-worker (suc fuel) = λ p. (
      waits p.0,
      elim (Bool-cases (leb (length tasks) p.1.next_index)) [
        | inl e ↦ rw e tt
        | inr e ↦
            rw e (Keeps-work (worker wait tasks fuel) p.1.next_index _ refl (Keeps-worker fuel))
      ],
    )

    Keeps-replicate : (n fuel : ℕ) → All (Keeps Beside) (replicate n (worker wait tasks fuel))
    Keeps-replicate zero fuel = tt
    Keeps-replicate (suc n) fuel = (Keeps-worker fuel, Keeps-replicate n fuel)

    Keeps-workers :
        (first_runs : ℕ → W → Bool) (limit : ℕ) → Keeps Beside (workers wait tasks first_runs limit)
    unfolding workers
    Keeps-workers first_runs limit =
        Keeps-all_of _ Beside _ (Keeps-replicate (min limit (length tasks)) (suc (length tasks)))

  pub Keeps-run_with_concurrency :
      {A : Type 0} (wait : W → W) (waits : (w : W) → P w → P (wait w)) (tasks : List (Async W A))
      (first_runs : ℕ → W → Bool) (limit : ℕ)
      → All (Keeps P) tasks
      → Keeps P (run_with_concurrency wait tasks first_runs limit)
  unfolding run_with_concurrency
  Keeps-run_with_concurrency wait waits [] first_runs limit h = tt
  Keeps-run_with_concurrency wait waits (t ∷ ts) first_runs limit h =
      Keeps->>= P (carry _ _) _
        (Keeps-carry _ _ (Keeps-workers wait waits (t ∷ ts) h first_runs limit)) (λ r. tt)
