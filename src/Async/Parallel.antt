-- ===== src/Async/Parallel.antt =====
-- `Promise.all`: programs that wait together. At each act the world says which of them goes on.
-- The combined program ends when all of them have ended, also where one has thrown before.
use pulse_keeper.Prelude.{
  All, Bool, Bool-cases, List, [], false, if◌then◌else◌, inl, inr, length, true, ℕ, ◌∷◌,
}
use pulse_keeper.Async.{Async, Result, act, attempt, ret, returned, throw, thrown, ◌>>=◌}
use pulse_keeper.Async.Rules.{Keeps, Keeps->>=, Keeps-attempt}

module _ {W : Type 0} (first_runs : ℕ → W → Bool) where
  -- Two programs side by side; `depth` names the choice.
  unfoldable pub both : {A B : Type 0} → ℕ → Async W A → Async W B → Async W (Result A × Result B)
  unfolding ◌>>=◌ attempt
  both depth (ret a) n = attempt n >>= λ r. ret (returned a, r)
  both depth (throw e) n = attempt n >>= λ r. ret (thrown e, r)
  both depth (act g k) (ret b) = attempt (act g k) >>= λ r. ret (r, returned b)
  both depth (act g k) (throw e) = attempt (act g k) >>= λ r. ret (r, thrown e)
  both depth (act g k) (act h l) =
      act (λ w. if first_runs depth w then g w else h w)
        (λ w. elim (first_runs depth w) [
          | true ↦ both depth (k w) (act h l)
          | false ↦ both depth (act g k) (l w)
        ])

  -- The values of both, or the error of one.
  abbrev pub join : {A : Type 0} → Result A × Result (List A) → Async W (List A)
  join (returned a, returned more) = ret (a ∷ more)
  join (returned a, thrown e) = throw e
  join (thrown e, r) = throw e

  unfoldable pub all_of : {A : Type 0} → List (Async W A) → Async W (List A)
  all_of [] = ret []
  all_of (p ∷ ps) = both (length ps) p (all_of ps) >>= join

  -- The value of both, or the error of one.
  abbrev pub join_pair : {A B : Type 0} → Result A × Result B → Async W (A × B)
  join_pair (returned a, returned b) = ret (a, b)
  join_pair (returned a, thrown e) = throw e
  join_pair (thrown e, r) = throw e

  -- `Promise.all` of two programs that return values of different types.
  unfoldable pub pair_of : {A B : Type 0} → ℕ → Async W A → Async W B → Async W (A × B)
  unfolding both ◌>>=◌
  pair_of depth m n = both depth m n >>= join_pair

  module _ {ℓ} (P : W → Type ℓ) where
    choose_keeps : (b : Bool) (x y : W) → P x → P y → P (if b then x else y)
    choose_keeps true x y p q = p
    choose_keeps false x y p q = q

    pub Keeps-both :
        {A B : Type 0} (depth : ℕ) (m : Async W A) (n : Async W B)
        → Keeps P m
        → Keeps P n
        → Keeps P (both depth m n)
    unfolding both
    Keeps-both depth (ret a) n h j = Keeps->>= P (attempt n) _ (Keeps-attempt P n j) (λ r. tt)
    Keeps-both depth (throw e) n h j = Keeps->>= P (attempt n) _ (Keeps-attempt P n j) (λ r. tt)
    Keeps-both depth (act g k) (ret b) h j =
        Keeps->>= P (attempt (act g k)) _ (Keeps-attempt P (act g k) h) (λ r. tt)
    Keeps-both depth (act g k) (throw e) h j =
        Keeps->>= P (attempt (act g k)) _ (Keeps-attempt P (act g k) h) (λ r. tt)
    Keeps-both depth (act g k) (act f l) h j = λ w.
        let left = Keeps-both depth (k w) (act f l) (h w).1 j in
        let right = Keeps-both depth (act g k) (l w) h (j w).1 in
        elim (Bool-cases (first_runs depth w)) [
          | inl e ↦ rw e ((h w).0, left)
          | inr e ↦ rw e ((j w).0, right)
        ]

    Keeps-join : {A : Type 0} (r : Result A × Result (List A)) → Keeps P (join r)
    Keeps-join (returned a, returned more) = tt
    Keeps-join (returned a, thrown e) = tt
    Keeps-join (thrown e, r) = tt

    pub Keeps-all_of : {A : Type 0} (ps : List (Async W A)) → All (Keeps P) ps → Keeps P (all_of ps)
    unfolding all_of
    Keeps-all_of [] h = tt
    Keeps-all_of (p ∷ ps) h =
        Keeps->>= P (both (length ps) p (all_of ps)) join
          (Keeps-both (length ps) p (all_of ps) h.0 (Keeps-all_of ps h.1)) Keeps-join
