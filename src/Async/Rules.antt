-- ===== src/Async/Rules.antt =====
-- Rules for programs: what a program keeps true of the world at each of its acts, what it can
-- return, and that it cannot throw. They hold at every act, so they survive interleaving.
use pulse_keeper.Prelude.{List, [], refl, ◌∷◌, ◌≡◌}
use pulse_keeper.Errors.{Thrown}
use pulse_keeper.Async.{
  Async, Result, act, attempt, for_each, ret, returned, run, throw, thrown, try_catch, try_finally,
  ◌>>=◌,
}

-- Each act keeps `P`, whatever world it finds.
abbrev pub Keeps {ℓ} : {W A : Type 0} → (W → Type ℓ) → Async W A → Type ℓ
Keeps P (ret a) = Unit
Keeps P (throw e) = Unit
Keeps {W} P (act g k) = (w : W) → (P w → P (g w)) × Keeps P (k w)

-- Whatever it reads on its way, a value that the program returns satisfies `Q`.
abbrev pub Returns {ℓ} : {W A : Type 0} → (A → Type ℓ) → Async W A → Type ℓ
Returns Q (ret a) = Q a
Returns Q (throw e) = Unit
Returns {W} Q (act g k) = (w : W) → Returns Q (k w)

-- Whatever it reads on its way, the program does not throw.
abbrev pub NoThrow : {W A : Type 0} → Async W A → Type 0
NoThrow (ret a) = Unit
NoThrow (throw e) = ⊥
NoThrow {W} (act g k) = (w : W) → NoThrow (k w)

-- `Q` at a value that was returned; nothing of an error.
abbrev pub WhenReturned {ℓ} : {A : Type 0} → (A → Type ℓ) → Result A → Type ℓ
WhenReturned Q (returned a) = Q a
WhenReturned Q (thrown e) = Unit

module _ {ℓ} {W : Type 0} (P : W → Type ℓ) where
  pub Keeps->>= :
      {A B : Type 0} (m : Async W A) (f : A → Async W B)
      → Keeps P m
      → ((a : A) → Keeps P (f a))
      → Keeps P (m >>= f)
  unfolding ◌>>=◌
  Keeps->>= (ret a) f h k = k a
  Keeps->>= (throw e) f h k = tt
  Keeps->>= (act g n) f h k = λ w. ((h w).0, Keeps->>= (n w) f (h w).1 k)

  -- The value handed on satisfies what the first program guarantees.
  pub Keeps->>=_of {κ} :
      {A B : Type 0} (Q : A → Type κ) (m : Async W A) (f : A → Async W B)
      → Keeps P m
      → Returns Q m
      → ((a : A) → Q a → Keeps P (f a))
      → Keeps P (m >>= f)
  unfolding ◌>>=◌
  Keeps->>=_of Q (ret a) f h r k = k a r
  Keeps->>=_of Q (throw e) f h r k = tt
  Keeps->>=_of Q (act g n) f h r k = λ w. ((h w).0, Keeps->>=_of Q (n w) f (h w).1 (r w) k)

  pub Keeps-attempt : {A : Type 0} (m : Async W A) → Keeps P m → Keeps P (attempt m)
  unfolding attempt
  Keeps-attempt (ret a) h = tt
  Keeps-attempt (throw e) h = tt
  Keeps-attempt (act g k) h = λ w. ((h w).0, Keeps-attempt (k w) (h w).1)

  pub Keeps-try_catch :
      {A : Type 0} (m : Async W A) (f : Thrown → Async W A)
      → Keeps P m
      → ((e : Thrown) → Keeps P (f e))
      → Keeps P (try_catch m f)
  unfolding try_catch
  Keeps-try_catch (ret a) f h k = tt
  Keeps-try_catch (throw e) f h k = k e
  Keeps-try_catch (act g n) f h k = λ w. ((h w).0, Keeps-try_catch (n w) f (h w).1 k)

  pub Keeps-try_finally :
      {A : Type 0} (m : Async W A) (n : W → W)
      → Keeps P m
      → ((w : W) → P w → P (n w))
      → Keeps P (try_finally m n)
  unfolding try_finally
  Keeps-try_finally (ret a) n h k = λ w. (k w, tt)
  Keeps-try_finally (throw e) n h k = λ w. (k w, tt)
  Keeps-try_finally (act g c) n h k = λ w. ((h w).0, Keeps-try_finally (c w) n (h w).1 k)

  pub Keeps-for_each :
      {A : Type 0} (f : A → Async W (Unit {0})) (xs : List A)
      → ((a : A) → Keeps P (f a))
      → Keeps P (for_each f xs)
  unfolding for_each
  Keeps-for_each f [] h = tt
  Keeps-for_each f (x ∷ xs) h = Keeps->>= (f x) _ (h x) (λ _. Keeps-for_each f xs h)

  pub run-Keeps : {A : Type 0} (m : Async W A) (w : W) → Keeps P m → P w → P (run m w).1
  unfolding run
  run-Keeps (ret a) w h p = p
  run-Keeps (throw e) w h p = p
  run-Keeps (act g k) w h p = run-Keeps (k w) (g w) (h w).1 ((h w).0 p)

  -- What holds once the first program has ended, and each act of what follows keeps, holds at the end.
  pub run_after :
      {A B : Type 0} (m : Async W A) (f : A → Async W B) (w : W)
      → P (run m w).1
      → ((a : A) → Keeps P (f a))
      → P (run (m >>= f) w).1
  unfolding run ◌>>=◌
  run_after (ret a) f w p h = run-Keeps (f a) w (h a) p
  run_after (throw e) f w p h = p
  run_after (act g k) f w p h = run_after (k w) f (g w) p h

-- From any world with `P`, each act keeps `P`, what is read is read from such a world, and a value
-- that is returned satisfies `Q`.
abbrev pub Holds : {W A : Type 0} → (W → Type 0) → (A → Type 0) → Async W A → Type 0
Holds P Q (ret a) = Q a
Holds P Q (throw e) = Unit
Holds {W} P Q (act g k) = (w : W) → P w → P (g w) × Holds P Q (k w)

module _ {W : Type 0} (P : W → Type 0) where
  pub Holds->>=_of :
      {A B : Type 0} (Q : A → Type 0) (R : B → Type 0) (m : Async W A) (f : A → Async W B)
      → Holds P Q m
      → ((a : A) → Q a → Holds P R (f a))
      → Holds P R (m >>= f)
  unfolding ◌>>=◌
  Holds->>=_of Q R (ret a) f h k = k a h
  Holds->>=_of Q R (throw e) f h k = tt
  Holds->>=_of Q R (act g n) f h k = λ w p. ((h w p).0, Holds->>=_of Q R (n w) f (h w p).1 k)

  pub run-Holds :
      {A : Type 0} (Q : A → Type 0) (m : Async W A) (w : W) → Holds P Q m → P w → P (run m w).1
  unfolding run
  run-Holds Q (ret a) w h p = p
  run-Holds Q (throw e) w h p = p
  run-Holds Q (act g k) w h p = run-Holds Q (k w) (g w) (h w p).1 (h w p).0

  pub Keeps-Holds : {A : Type 0} (m : Async W A) → Keeps P m → Holds P (λ _. Unit {0}) m
  Keeps-Holds (ret a) h = tt
  Keeps-Holds (throw e) h = tt
  Keeps-Holds (act g k) h = λ w p. ((h w).0 p, Keeps-Holds (k w) (h w).1)

subst_returned {ℓ} :
    {A : Type 0} (Q : A → Type ℓ) (b a : A)
    → Q b
    → ◌≡◌ {A = Result A} (returned b) (returned a)
    → Q a
subst_returned Q b a h e = let same : b ≡ a = cc in rw (← same) h

module _ {W : Type 0} where
  pub Returns-weaken {ℓ κ} :
      {A : Type 0} (P : A → Type ℓ) (Q : A → Type κ) (m : Async W A)
      → ((a : A) → P a → Q a)
      → Returns P m
      → Returns Q m
  Returns-weaken P Q (ret a) f h = f a h
  Returns-weaken P Q (throw e) f h = tt
  Returns-weaken P Q (act g k) f h = λ w. Returns-weaken P Q (k w) f (h w)

  pub Returns->>= {ℓ} :
      {A B : Type 0} (Q : B → Type ℓ) (m : Async W A) (f : A → Async W B)
      → ((a : A) → Returns Q (f a))
      → Returns Q (m >>= f)
  unfolding ◌>>=◌
  Returns->>= Q (ret a) f h = h a
  Returns->>= Q (throw e) f h = tt
  Returns->>= Q (act g k) f h = λ w. Returns->>= Q (k w) f h

  -- The value handed on satisfies what the first program guarantees.
  pub Returns->>=_of {ℓ κ} :
      {A B : Type 0} (P : A → Type κ) (Q : B → Type ℓ) (m : Async W A) (f : A → Async W B)
      → Returns P m
      → ((a : A) → P a → Returns Q (f a))
      → Returns Q (m >>= f)
  unfolding ◌>>=◌
  Returns->>=_of P Q (ret a) f p h = h a p
  Returns->>=_of P Q (throw e) f p h = tt
  Returns->>=_of P Q (act g k) f p h = λ w. Returns->>=_of P Q (k w) f (p w) h

  pub Returns-try_catch {ℓ} :
      {A : Type 0} (Q : A → Type ℓ) (m : Async W A) (f : Thrown → Async W A)
      → Returns Q m
      → ((e : Thrown) → Returns Q (f e))
      → Returns Q (try_catch m f)
  unfolding try_catch
  Returns-try_catch Q (ret a) f h k = h
  Returns-try_catch Q (throw e) f h k = k e
  Returns-try_catch Q (act g c) f h k = λ w. Returns-try_catch Q (c w) f (h w) k

  pub Returns-attempt {ℓ} :
      {A : Type 0} (Q : A → Type ℓ) (m : Async W A)
      → Returns Q m
      → Returns (WhenReturned Q) (attempt m)
  unfolding attempt
  Returns-attempt Q (ret a) h = h
  Returns-attempt Q (throw e) h = tt
  Returns-attempt Q (act g k) h = λ w. Returns-attempt Q (k w) (h w)

  pub NoThrow-attempt : {A : Type 0} (m : Async W A) → NoThrow (attempt m)
  unfolding attempt
  NoThrow-attempt (ret a) = tt
  NoThrow-attempt (throw e) = tt
  NoThrow-attempt (act g k) = λ w. NoThrow-attempt (k w)

  pub NoThrow->>= :
      {A B : Type 0} (m : Async W A) (f : A → Async W B)
      → NoThrow m
      → ((a : A) → NoThrow (f a))
      → NoThrow (m >>= f)
  unfolding ◌>>=◌
  NoThrow->>= (ret a) f h k = k a
  NoThrow->>= (throw e) f h k = h
  NoThrow->>= (act g c) f h k = λ w. NoThrow->>= (c w) f (h w) k

  -- What is caught is not thrown.
  pub NoThrow-try_catch :
      {A : Type 0} (m : Async W A) (f : Thrown → Async W A)
      → ((e : Thrown) → NoThrow (f e))
      → NoThrow (try_catch m f)
  unfolding try_catch
  NoThrow-try_catch (ret a) f h = tt
  NoThrow-try_catch (throw e) f h = h e
  NoThrow-try_catch (act g c) f h = λ w. NoThrow-try_catch (c w) f h

  -- A program that does not throw returns.
  pub run-NoThrow :
      {A : Type 0} (m : Async W A) (w : W) → NoThrow m → (a : A) × ((run m w).0 ≡ returned a)
  unfolding run
  run-NoThrow (ret a) w h = (a, refl)
  run-NoThrow (throw e) w h = absurd h
  run-NoThrow (act g k) w h = run-NoThrow (k w) (g w) (h w)

  pub run-Returns {ℓ} :
      {A : Type 0} (Q : A → Type ℓ) (m : Async W A) (w : W) (a : A)
      → Returns Q m
      → (run m w).0 ≡ returned a
      → Q a
  unfolding run
  run-Returns Q (ret b) w a h e = subst_returned Q b a h e
  run-Returns Q (throw x) w a h e = cc
  run-Returns Q (act g k) w a h e = run-Returns Q (k w) (g w) a (h w) e

  pub run->>= :
      {A B : Type 0} (m : Async W A) (f : A → Async W B) (w : W)
      → run (m >>= f) w ≡ elim (run m w).0 [
        | returned a ↦ run (f a) (run m w).1
        | thrown e ↦ (thrown e, (run m w).1)
      ]
  unfolding run ◌>>=◌
  run->>= (ret a) f w = refl
  run->>= (throw e) f w = refl
  run->>= (act g k) f w = run->>= (k w) f (g w)

  pub run-try_catch :
      {A : Type 0} (m : Async W A) (h : Thrown → Async W A) (w : W)
      → run (try_catch m h) w ≡ elim (run m w).0 [
        | returned a ↦ (returned a, (run m w).1)
        | thrown e ↦ run (h e) (run m w).1
      ]
  unfolding run try_catch
  run-try_catch (ret a) h w = refl
  run-try_catch (throw e) h w = refl
  run-try_catch (act g k) h w = run-try_catch (k w) h (g w)
