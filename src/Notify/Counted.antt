-- ===== src/Notify/Counted.antt =====
-- How many notifications a program adds to the feed.
use pulse_keeper.Prelude.{
  Bool, List, [], ap, arith, false, if◌then◌else◌, length, refl, suc, true, ℕ, ◌&&◌, ◌++◌, ◌+◌, ◌∷◌,
  ◌≡◌, ◌≤◌,
}
use pulse_keeper.Async.{Result, act, ret, returned, run, throw, thrown, ◌>>=◌}
use pulse_keeper.Async.Rules.{Keeps, Keeps->>=, Returns, run-Keeps, run-Returns}
use pulse_keeper.Store.{Config, Db, Fault, World, fine, not_done, unconfirmed}
use pulse_keeper.Store.Calls.{
  Anything, App, IsReliable, Keeps-query, Keeps-read_clock, Keeps-validate, OnDb, answer_fault,
  apply_fault, db_call, fits, pass_time, query, read_clock, run-db_call_then, validate, write,
}
use pulse_keeper.Guard.Contacts.{any_rules}
use pulse_keeper.Notify.{
  NotificationEvent, dispatch, enabled_channels, insert_notification, is_muted, notify,
  record_and_dispatch, settings_of,
}
use pulse_keeper.Notify.Delivery.{Keeps-dispatch}

abbrev pub feed_size : World → ℕ
feed_size w = length w.db.notices

-- Run alone, the program adds so many notifications at most, whatever fails in it.
abbrev pub Adds : {A : Type 0} → ℕ → App A → Type 0
Adds n m = (w : World) → feed_size (run m w).1 ≤ feed_size w + n

abbrev NoMore : ℕ → Db → Type 0
NoMore n d = length d.notices ≤ n

pub Adds-Keeps :
    {A : Type 0} (m : App A) → ((n : ℕ) → Keeps (OnDb (NoMore n) Anything) m) → Adds 0 m
Adds-Keeps m h w =
    let kept =
      run-Keeps (OnDb (NoMore (feed_size w)) Anything) m w (h (feed_size w)) (omega arith, tt) in
    omega (arith, kept.0)

pub Adds-ret : {A : Type 0} (a : A) → Adds 0 (ret a)
unfolding run
Adds-ret a w = omega arith

pub Adds-read_clock : Adds 0 read_clock
Adds-read_clock = Adds-Keeps read_clock (λ n. Keeps-read_clock (NoMore n) Anything)

-- How a program goes on after the end of another.
abbrev continued : {A B : Type 0} → (A → App B) → Result A × World → Result B × World
continued f (returned a, v) = run (f a) v
continued f (thrown e, v) = (thrown e, v)

run-continued :
    {A B : Type 0} (m : App A) (f : A → App B) (w : World) → run (m >>= f) w ≡ continued f (run m w)
unfolding run ◌>>=◌
run-continued (ret a) f w = refl
run-continued (throw e) f w = refl
run-continued (act g k) f w = run-continued (k w) f (g w)

-- What follows a program that returns what `Q` says.
pub Adds->>=_of :
    {A B : Type 0} (a b : ℕ) (Q : A → Type 0) (m : App A) (f : A → App B)
    → Adds a m
    → Returns Q m
    → ((x : A) → Q x → Adds b (f x))
    → Adds (a + b) (m >>= f)
Adds->>=_of a b Q m f h q k w =
    rw (run-continued m f w) (go (run m w) (h w) (λ x e. run-Returns Q m w x q e))
  where
    go :
        (end : Result _ × World)
        → feed_size end.1 ≤ feed_size w + a
        → ((x : _) → end.0 ≡ returned x → Q x)
        → feed_size (continued f end).1 ≤ feed_size w + (a + b)
    go (returned x, v) l r = let more = k x (r x refl) v in omega (arith, l, more)
    go (thrown e, v) l r = omega (arith, l)

Returns-any : {A : Type 0} (m : App A) → Returns (λ _. Unit {0}) m
Returns-any (ret a) = tt
Returns-any (throw e) = tt
Returns-any (act g k) = λ w. Returns-any (k w)

pub Adds->>= :
    {A B : Type 0} (a b : ℕ) (m : App A) (f : A → App B)
    → Adds a m
    → ((x : A) → Adds b (f x))
    → Adds (a + b) (m >>= f)
Adds->>= a b m f h k = Adds->>=_of a b (λ _. Unit {0}) m f h (Returns-any m) (λ x _. k x)

Adds-write :
    (g : Db → Db) (n : ℕ)
    → ((d : Db) → length (g d).notices ≤ length d.notices + n)
    → Adds n (write g)
unfolding write db_call run
Adds-write g n h w = settled (w.env.db_fault w.moment)
  where
    settled :
        (f : Fault)
        → feed_size
            (run
              (answer_fault f (ret (tt {0})))
              (record w { moment = suc w.moment; db = apply_fault f g w.db })).1
          ≤ feed_size w + n
    settled fine = h w.db
    settled (not_done m) = omega arith
    settled (unconfirmed m) = h w.db

grown : {A : Type 0} (xs : List A) (x : A) → length (xs ++ x ∷ []) ≤ length xs + 1
grown [] x = omega arith
grown (y ∷ ys) x = omega (arith, grown ys x)

Adds-record_and_dispatch :
    (config : Config) (event : NotificationEvent) → Adds 1 (record_and_dispatch config event)
unfolding record_and_dispatch insert_notification
Adds-record_and_dispatch config event =
    Adds->>= 0 1 (validate _) _ (Adds-Keeps _ (λ n. Keeps-validate (NoMore n) Anything _)) λ _.
      Adds->>= 0 1 read_clock _ Adds-read_clock λ at.
        Adds->>= 1 0 (write (insert_notification event at)) _
          (Adds-write (insert_notification event at) 1 (λ d. grown d.notices _))
          λ _.
            Adds->>= 0 0 (query _) _ (Adds-Keeps _ (λ n. Keeps-query (NoMore n) Anything _))
              λ channels. Adds-Keeps (dispatch config event channels) (λ n.
                Keeps-dispatch (NoMore n) Anything config (any_rules config.web) (λ id f d p. p)
                  event channels)

-- A notification adds one entry to the feed at most.
pub Adds-notify : (config : Config) (event : NotificationEvent) → Adds 1 (notify config event)
unfolding notify run
Adds-notify config event =
    Adds->>= 0 1 (query (settings_of event.user_id)) _
      (Adds-Keeps (query (settings_of event.user_id)) (λ n. Keeps-query (NoMore n) Anything _))
      (λ settings. muted (is_muted event.type settings))
  where
    muted : (b : Bool) → Adds 1 (if b then ret tt else record_and_dispatch config event)
    muted true = λ w. omega arith
    muted false = Adds-record_and_dispatch config event

abbrev pub NoFewer : ℕ → Db → Type 0
NoFewer n d = n ≤ length d.notices

NoFewer-grown : {A : Type 0} (xs : List A) (x : A) → length xs + 1 ≤ length (xs ++ x ∷ [])
NoFewer-grown [] x = omega arith
NoFewer-grown (y ∷ ys) x = omega (arith, NoFewer-grown ys x)

module _ (config : Config) (event : NotificationEvent) (w : World) where
  abbrev rest_of : App (Unit {0})
  rest_of = query (enabled_channels event.user_id) >>= dispatch config event

  Keeps-rest : Keeps (OnDb (NoFewer (feed_size w + 1)) Anything) rest_of
  Keeps-rest =
      Keeps->>= _ (query (enabled_channels event.user_id)) _
        (Keeps-query (NoFewer (feed_size w + 1)) Anything _)
        (Keeps-dispatch (NoFewer (feed_size w + 1)) Anything config (any_rules config.web)
          (λ id f d p. p) event)

  recorded :
      IsReliable w
      → (fits 140 event.title && fits 500 event.message) ≡ true
      → feed_size w + 1 ≤ feed_size (run (record_and_dispatch config event) w).1
  unfolding record_and_dispatch insert_notification read_clock write validate run ◌>>=◌
  recorded reliable short =
      let at = w.env.clock w.moment in
      let step =
        run-db_call_then (insert_notification event at) (λ d. ret (tt {0})) (λ u. rest_of)
          (pass_time w) reliable in
      let v = record w { moment = suc (suc w.moment); db = insert_notification event at w.db } in
      let kept =
        run-Keeps (OnDb (NoFewer (feed_size w + 1)) Anything) rest_of v Keeps-rest
          (NoFewer-grown w.db.notices _, tt) in
      rw short (rw (ap (λ r. feed_size r.1) step) kept.0)

-- In a world whose database answers, a notification of a type that the user has not switched off, and
-- that is not too long, enters the feed.
pub notified :
    (config : Config) (event : NotificationEvent) (w : World)
    → IsReliable w
    → is_muted event.type (settings_of event.user_id w.db) ≡ false
    → (fits 140 event.title && fits 500 event.message) ≡ true
    → feed_size w + 1 ≤ feed_size (run (notify config event) w).1
unfolding notify query run ◌>>=◌
notified config event w reliable loud short =
    let step =
      run-db_call_then (λ d. d) (λ d. ret (settings_of event.user_id d))
        (λ settings.
          if is_muted event.type settings then ret tt else record_and_dispatch config event)
        w reliable in
    rw (ap (λ r. feed_size r.1) step) (rw loud (recorded config event (pass_time w) reliable short))
