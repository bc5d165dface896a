-- ===== src/Async.antt =====
-- The asynchronous functions of the server as programs. A program ends with a value, ends with a
-- thrown error, or acts on the world and goes on with what it has read there. Between two acts of
-- a program other programs may act: an `await` is the only place where control changes hands.
pub mod Rules
pub mod Parallel
use pulse_keeper.Prelude.{List, [], ◌∷◌}
use pulse_keeper.Errors.{Thrown}

pub data Async (W : Type 0) (A : Type 0) : Type 0 where
  ret : A → Async W A
  throw : Thrown → Async W A
  act : (W → W) → (W → Async W A) → Async W A

module _ {W : Type 0} where
  infixl 5 ◌>>=◌ ◌>>◌
  unfoldable pub ◌>>=◌ : {A B : Type 0} → Async W A → (A → Async W B) → Async W B
  ret a >>= f = f a
  throw e >>= f = throw e
  act g k >>= f = act g (λ w. k w >>= f)

  abbrev pub ◌>>◌ : {A B : Type 0} → Async W A → Async W B → Async W B
  m >> n = m >>= λ _. n

  -- `try { m } catch (e) { handler(e) }`
  unfoldable pub try_catch : {A : Type 0} → Async W A → (Thrown → Async W A) → Async W A
  try_catch (ret a) h = ret a
  try_catch (throw e) h = h e
  try_catch (act g k) h = act g (λ w. try_catch (k w) h)

  -- `try { m } finally { n }`, where `n` neither returns nor throws.
  unfoldable pub try_finally : {A : Type 0} → Async W A → (W → W) → Async W A
  try_finally (ret a) n = act n (λ _. ret a)
  try_finally (throw e) n = act n (λ _. throw e)
  try_finally (act g k) n = act g (λ w. try_finally (k w) n)

  -- `for (const x of xs) await f(x)`
  unfoldable pub for_each : {A : Type 0} → (A → Async W (Unit {0})) → List A → Async W (Unit {0})
  unfolding ◌>>=◌
  for_each f [] = ret tt
  for_each f (x ∷ xs) = f x >>= λ _. for_each f xs

-- How a program ends.
pub data Result (A : Type 0) : Type 0 where
  returned : A → Result A
  thrown : Thrown → Result A

-- `try { m } catch`, with what follows handed the value or the error.
unfoldable pub attempt : {W A : Type 0} → Async W A → Async W (Result A)
attempt (ret a) = ret (returned a)
attempt (throw e) = ret (thrown e)
attempt (act g k) = act g (λ w. attempt (k w))

abbrev pub from_result : {W A : Type 0} → Result A → Async W A
from_result (returned a) = ret a
from_result (thrown e) = throw e

-- A program that runs alone, from a world to its result and the world that it leaves.
unfoldable pub run : {W A : Type 0} → Async W A → W → Result A × W
run (ret a) w = (returned a, w)
run (throw e) w = (thrown e, w)
run (act g k) w = run (k w) (g w)
