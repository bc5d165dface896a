-- ===== src/Concurrency.antt =====
-- server/src/utils/concurrency.ts: workers that share the index of the next task and the array of
-- results, with a bounded number of them in flight.
pub mod Kept
pub mod Owed
pub mod Claims
pub mod Results
use pulse_keeper.Prelude.{
  Bool, List, Option, [], codes, get_elem?, if◌then◌else◌, leb, length, min, none, replicate, set,
  some, suc, zero, ℕ,
}
use pulse_keeper.Errors.{other_error}
use pulse_keeper.Async.{Async, act, ret, throw, ◌>>=◌}
use pulse_keeper.Async.Parallel.{all_of}

-- The variables that the workers share; `none` is a hole of the array.
pub record Pool (A : Type 0) : Type 0 where
  pub next_index : ℕ
  pub results : List (Option A)

module _ {W : Type 0} where
  -- A program of the world, where the pool stands beside the world.
  unfoldable pub beside : {A S : Type 0} → Async W A → Async (W × S) A
  beside (ret a) = ret a
  beside (throw e) = throw e
  beside (act g k) = act (λ p. (g p.0, p.1)) (λ p. beside (k p.0))

  -- A program over the world and a state, as a program of the world that carries the state.
  unfoldable pub carry : {A S : Type 0} → Async (W × S) A → S → Async W (A × S)
  carry (ret a) s = ret (a, s)
  carry (throw e) s = throw e
  carry (act g k) s = act (λ w. (g (w, s)).0) (λ w. carry (k (w, s)) (g (w, s)).1)

  module _ {A : Type 0} (wait : W → W) (tasks : List (Async W A)) where
    abbrev pub claim : Pool A → Pool A
    claim s = record s { next_index = suc s.next_index }

    abbrev pub store : ℕ → A → Pool A → Pool A
    store index a s = record s { results = set s.results index (some a) }

    -- One round of `worker`, with this index: the task and what follows it.
    unfoldable pub work :
        Async (W × Pool A) (Unit {0}) → ℕ → Option (Async W A) → Async (W × Pool A) (Unit {0})
    work again index none = ret tt
    work again index (some task) =
        beside task >>= λ a. act (λ p. (wait p.0, store index a p.1)) (λ _. again)

    -- `worker`, on fuel: it takes one task in each round and ends when none is left.
    unfoldable pub worker : ℕ → Async (W × Pool A) (Unit {0})
    worker zero = throw (other_error (codes "FUEL") (codes "out of fuel"))
    worker (suc fuel) =
        act (λ p. (wait p.0, claim p.1))
          (λ p.
            if leb (length tasks) p.1.next_index
            then ret tt
            else work (worker fuel) p.1.next_index (get_elem? tasks p.1.next_index))

    abbrev pub fresh_pool : Pool A
    fresh_pool = record { next_index = 0; results = replicate (length tasks) none }

    -- The workers side by side, each with a round more than there are tasks.
    unfoldable pub workers : (ℕ → W → Bool) → ℕ → Async (W × Pool A) (List (Unit {0}))
    workers first_runs limit =
        all_of (λ depth p. first_runs depth p.0)
          (replicate (min limit (length tasks)) (worker (suc (length tasks))))

    unfoldable pub run_with_concurrency : (ℕ → W → Bool) → ℕ → Async W (List (Option A))
    run_with_concurrency first_runs limit = elim tasks [
      | [] ↦ ret []
      | _ ↦ carry (workers first_runs limit) fresh_pool >>= λ r. ret r.1.results
    ]
