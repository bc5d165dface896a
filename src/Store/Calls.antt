-- ===== src/Store/Calls.antt =====
-- One act of the server: a reading of the clock, or a call of the database, which can fail.
use pulse_keeper.Prelude.{
  Bool, List, Option, Text, [], codes, false, is_empty, leb, length, none, not, refl, some, suc,
  true, ℕ, ◌&&◌, ◌∙◌, ◌≡◌,
}
use pulse_keeper.Errors.{Thrown, other_error}
use pulse_keeper.Async.{Async, act, ret, returned, run, throw, thrown, ◌>>=◌}
use pulse_keeper.Async.Rules.{Holds, Keeps}
use pulse_keeper.Store.{Contact, Db, Fault, World, fine, not_done, unconfirmed}

abbrev pub App : Type 0 → Type 0
App A = Async World A

abbrev pub pass_time : World → World
pass_time w = record w { moment = suc w.moment }

-- `new Date()`, `Date.now()`
unfoldable pub read_clock : App ℕ
read_clock = act pass_time (λ w. ret (w.env.clock w.moment))

abbrev pub apply_fault : Fault → (Db → Db) → Db → Db
apply_fault fine g d = g d
apply_fault (not_done m) g d = d
apply_fault (unconfirmed m) g d = g d

abbrev pub answer_fault : {A : Type 0} → Fault → App A → App A
answer_fault fine p = p
answer_fault (not_done m) p = throw (other_error [] m)
answer_fault (unconfirmed m) p = throw (other_error [] m)

-- A database call that changes the database by `g` and goes on with what it finds there.
unfoldable pub db_call : {A : Type 0} → (Db → Db) → (Db → App A) → App A
db_call g k =
    act (λ w. record w { moment = suc w.moment; db = apply_fault (w.env.db_fault w.moment) g w.db })
      (λ w. answer_fault (w.env.db_fault w.moment) (k w.db))

-- A call that only reads.
unfoldable pub query : {A : Type 0} → (Db → A) → App A
unfolding db_call
query f = db_call (λ d. d) (λ d. ret (f d))

-- A call that writes, and reads nothing back.
unfoldable pub write : (Db → Db) → App (Unit {0})
unfolding db_call
write g = db_call g (λ _. ret tt)

-- The schema's validation of a document that is to be created.
unfoldable pub validate : Bool → App (Unit {0})
validate true = ret tt
validate false = throw (other_error [] (codes "validation failed"))

-- A text of a required field, at most this long.
abbrev pub fits : ℕ → Text → Bool
fits most s = not (is_empty s) && leb (length s) most

-- The predicates on the world that speak of the database and of what the outside has seen, apart.
abbrev pub OnDb {ℓ} : (Db → Type ℓ) → (List Contact → Type 0) → World → Type ℓ
OnDb P C w = P w.db × C w.contacts

-- Nothing of the contacts.
abbrev pub Anything : List Contact → Type 0
Anything cs = Unit

module _ {ℓ} (P : Db → Type ℓ) (C : List Contact → Type 0) where
  pub Keeps-read_clock : Keeps (OnDb P C) read_clock
  unfolding read_clock
  Keeps-read_clock = λ w. ((λ p. p), tt)

  apply_fault-Keeps :
      (f : Fault) (g : Db → Db) (d : Db) → (P d → P (g d)) → P d → P (apply_fault f g d)
  apply_fault-Keeps fine g d h p = h p
  apply_fault-Keeps (not_done m) g d h p = p
  apply_fault-Keeps (unconfirmed m) g d h p = h p

  answer_fault-Keeps :
      {A : Type 0} (f : Fault) (p : App A)
      → Keeps (OnDb P C) p
      → Keeps (OnDb P C) (answer_fault f p)
  answer_fault-Keeps fine p h = h
  answer_fault-Keeps (not_done m) p h = tt
  answer_fault-Keeps (unconfirmed m) p h = tt

  pub Keeps-db_call :
      {A : Type 0} (g : Db → Db) (k : Db → App A)
      → ((d : Db) → P d → P (g d))
      → ((d : Db) → Keeps (OnDb P C) (k d))
      → Keeps (OnDb P C) (db_call g k)
  unfolding db_call
  Keeps-db_call g k h c = λ w. (
    (λ p. (apply_fault-Keeps (w.env.db_fault w.moment) g w.db (h w.db) p.0, p.1)),
    answer_fault-Keeps (w.env.db_fault w.moment) (k w.db) (c w.db),
  )

  pub Keeps-query : {A : Type 0} (f : Db → A) → Keeps (OnDb P C) (query f)
  unfolding query
  Keeps-query f = Keeps-db_call (λ d. d) (λ d. ret (f d)) (λ d p. p) (λ d. tt)

  pub Keeps-write : (g : Db → Db) → ((d : Db) → P d → P (g d)) → Keeps (OnDb P C) (write g)
  unfolding write
  Keeps-write g h = Keeps-db_call g (λ _. ret tt) h (λ d. tt)

  pub Keeps-validate : (b : Bool) → Keeps (OnDb P C) (validate b)
  unfolding validate
  Keeps-validate true = tt
  Keeps-validate false = tt

-- What a query finds in a database with `P` satisfies `Q`.
module _ {A : Type 0} (P : Db → Type 0) (Q : A → Type 0) (f : Db → A) where
  same_db : (fault : Fault) (d : Db) → apply_fault fault (λ d. d) d ≡ d
  same_db fine d = refl
  same_db (not_done m) d = refl
  same_db (unconfirmed m) d = refl

  answered : (fault : Fault) (a : A) → Q a → Holds (OnDb P Anything) Q (answer_fault fault (ret a))
  answered fine a h = h
  answered (not_done m) a h = tt
  answered (unconfirmed m) a h = tt

  pub Holds-query : ((d : Db) → P d → Q (f d)) → Holds (OnDb P Anything) Q (query f)
  unfolding query db_call
  Holds-query h = λ w p. (
    rw (same_db (w.env.db_fault w.moment) w.db) p,
    answered (w.env.db_fault w.moment) (f w.db) (h w.db p.0),
  )

-- A database that never fails, and the one answer of each call then.
abbrev pub IsReliable : World → Type 0
IsReliable w = (n : ℕ) → w.env.db_fault n ≡ fine

pub run-read_clock : (w : World) → run read_clock w ≡ (returned (w.env.clock w.moment), pass_time w)
unfolding run read_clock
run-read_clock w = refl

pub run-db_call :
    {A : Type 0} (g : Db → Db) (k : Db → App A) (w : World)
    → IsReliable w
    → run (db_call g k) w ≡ run (k w.db) (record w { moment = suc w.moment; db = g w.db })
unfolding run db_call
run-db_call g k w h = rw (h w.moment, run, db_call)

-- A call in a reliable world, before what follows it.
pub run-db_call_then :
    {A B : Type 0} (g : Db → Db) (k : Db → App A) (f : A → App B) (w : World)
    → IsReliable w
    → run (db_call g k >>= f) w
      ≡ run (k w.db >>= f) (record w { moment = suc w.moment; db = g w.db })
unfolding run db_call ◌>>=◌
run-db_call_then g k f w h = rw (h w.moment, run, db_call, ◌>>=◌)

-- What follows a search that must find something.
abbrev pub found_or : {A : Type 0} → Thrown → Option A → App A
found_or e none = throw e
found_or e (some a) = ret a

-- A call that first looks for a document and does not find it.
pub run-missing :
    {A B : Type 0} (e : Thrown) (g : Db → Db) (look : Db → Option A) (f : A → App B) (w : World)
    → IsReliable w
    → look w.db ≡ none
    → g w.db ≡ w.db
    → run (db_call g (λ d. ret (look d)) >>= λ found. found_or e found >>= f) w
      ≡ (thrown e, pass_time w)
unfolding run ◌>>=◌
run-missing e g look f w reliable absent same =
    run-db_call_then g (λ d. ret (look d)) (λ found. found_or e found >>= f) w reliable
    ∙ rw (absent, same) refl
