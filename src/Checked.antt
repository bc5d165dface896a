-- ===== src/Checked.antt =====
-- Synchronous code that returns a value or throws an `AppError`.
use pulse_keeper.Prelude.{
  All, Bool, List, Option, [], arith, false, none, refl, some, true, ◌∷◌, ◌≡◌,
}
use pulse_keeper.Errors.{AppError}

pub data Checked {ℓ} (A : Type ℓ) : Type ℓ where
  ok : A → Checked A
  err : AppError → Checked A

-- `if (bad) throw error`
abbrev pub fail_if : Bool → AppError → Checked (Unit {0})
fail_if true e = err e
fail_if false e = ok tt

abbrev pub from_option {ℓ} : {A : Type ℓ} → Option A → AppError → Checked A
from_option none e = err e
from_option (some a) e = ok a

module _ {ℓ κ} {A : Type ℓ} {B : Type κ} where
  infixl 5 ◌>>=◌
  -- What follows a value; an error ends the code.
  abbrev pub ◌>>=◌ : Checked A → (A → Checked B) → Checked B
  err refusal >>= next = err refusal
  ok value >>= next = next value

module _ {κ} {B : Type κ} where
  infixl 5 ◌>>◌
  abbrev pub ◌>>◌ : Checked (Unit {0}) → Checked B → Checked B
  before >> next = before >>= (λ done. next)

-- `for (const x of xs) f(x)`
abbrev pub check_each {ℓ} : {A : Type ℓ} → (A → Checked (Unit {0})) → List A → Checked (Unit {0})
check_each f [] = ok tt
check_each f (x ∷ xs) = f x >>= λ _. check_each f xs

pub fail_if-eq-ok : (b : Bool) (e : AppError) (u : Unit {0}) → fail_if b e ≡ ok u → b ≡ false
fail_if-eq-ok true e u h = cc
fail_if-eq-ok false e u h = refl

pub three_refusals :
    (a b c : Bool) (x y z : AppError) (k : Checked (Unit {0}))
    → (fail_if a x >> fail_if b y >> fail_if c z >> k) ≡ ok tt
    → (a ≡ false) × (b ≡ false) × (c ≡ false) × (k ≡ ok tt)
three_refusals a b c x y z k h = ground arith

pub >>=-eq-ok_unit {κ} :
    {B : Type κ} (before : Checked (Unit {0})) (next : Unit {0} → Checked B) {result : B}
    → (before >>= next) ≡ ok result
    → Unit {0} × (before ≡ ok tt) × (next tt ≡ ok result)
>>=-eq-ok_unit (err refusal) next h = cc
>>=-eq-ok_unit (ok done) next h = (tt, refl, h)

module _ {ℓ} {A : Type ℓ} where
  pub >>=-eq-ok {κ} :
      {B : Type κ} (before : Checked A) (next : A → Checked B) {result : B}
      → (before >>= next) ≡ ok result
      → (value : A) × (before ≡ ok value) × (next value ≡ ok result)
  >>=-eq-ok (err refusal) next h = cc
  >>=-eq-ok (ok value) next h = (value, refl, h)

  pub check_each-ok {κ} :
      {P : A → Type κ} (f : A → Checked (Unit {0})) (xs : List A)
      → ((a : A) → f a ≡ ok tt → P a)
      → check_each f xs ≡ ok tt
      → All P xs
  check_each-ok f [] h e = tt
  check_each-ok f (x ∷ xs) h e =
      let (u, now, later) = >>=-eq-ok_unit (f x) (λ _. check_each f xs) e in
      (h x now, check_each-ok f xs h later)

  pub check_each_of_All {κ} :
      {P : A → Type κ} (f : A → Checked (Unit {0})) (xs : List A)
      → ((a : A) → P a → f a ≡ ok tt)
      → All P xs
      → check_each f xs ≡ ok tt
  check_each_of_All f [] h a = refl
  check_each_of_All f (x ∷ xs) h a = rw (h x a.0) (check_each_of_All f xs h a.1)
