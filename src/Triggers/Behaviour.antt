-- ===== src/Triggers/Behaviour.antt =====
-- What a tick, a check on demand and the secret of the external trigger promise.
use pulse_keeper.Prelude.{ap, false, none, refl, some, true, ℕ, ◌∙◌, ◌≡◌}
use pulse_keeper.Domain.{cron}
use pulse_keeper.Async.{Result, act, ret, returned, run, throw, thrown, try_catch, ◌>>=◌}
use pulse_keeper.Async.Rules.{NoThrow, NoThrow-try_catch, run->>=}
use pulse_keeper.Store.{Config, World}
use pulse_keeper.Store.Calls.{App, IsReliable, pass_time, query, run-db_call_then}
use pulse_keeper.Monitoring.{threw_result}
use pulse_keeper.Monitoring.Running.{
  check_found, run_manual_check, run_monitoring_sweep, site_of_user,
}
use pulse_keeper.Monitoring.Sweep.{run_monitoring_sweep-releases}
use pulse_keeper.Sites.{to_public_site}
use pulse_keeper.Sites.Service.{get_site_by_id}
use pulse_keeper.Sites.Tenants.{no_site, search_fails}
use pulse_keeper.Triggers.{after_check, check_now, fired_sweep, not_completed, tick}

run-silenced :
    {A : Type 0} (m : App A) (w : World)
    → run (try_catch (m >>= λ a. ret tt) (λ e. ret tt)) w ≡ (returned tt, (run m w).1)
unfolding run try_catch ◌>>=◌
run-silenced (ret a) w = refl
run-silenced (throw e) w = refl
run-silenced (act g k) w = run-silenced (k w) (g w)

NoThrow-silenced :
    {A : Type 0} (m : App A) → NoThrow (try_catch (m >>= λ a. ret tt) (λ e. ret (tt {0})))
NoThrow-silenced m = NoThrow-try_catch (m >>= λ a. ret tt) (λ e. ret tt) (λ e. tt)

-- While a sweep is in progress a tick fires nothing; otherwise it fires a program that never throws,
-- whatever else acts between its acts, and that, alone from any world, leaves the world that a sweep
-- leaves, with the flag of a sweep in progress clear.
pub tick_lem :
    (config : Config) (w : World)
    → (w.in_progress ≡ true → tick config w ≡ none)
      × (w.in_progress ≡ false
          → (fired : App (Unit {0})) × (tick config w ≡ some fired)
            × NoThrow fired
            × ((v : World)
                → ((run fired v).1 ≡ (run (run_monitoring_sweep config cron) v).1)
                  × ((run fired v).1.in_progress ≡ false)))
unfolding tick fired_sweep
tick_lem config w = (
  λ busy. rw busy refl,
  λ idle. (
    fired_sweep config,
    rw idle refl,
    NoThrow-silenced (run_monitoring_sweep config cron),
    λ v.
        let same = run-silenced (run_monitoring_sweep config cron) v in
        (
          ap (λ r. r.1) same,
          ap (λ r. r.1.in_progress) same ∙ run_monitoring_sweep-releases config cron v,
        ),
  ),
)

-- How a program goes on after one of which the end is known.
run-then :
    {A B : Type 0} {end : Result A × World} (m : App A) (f : A → App B) (w : World)
    → run m w ≡ end
    → run (m >>= f) w ≡ elim end.0 [ returned a ↦ run (f a) end.1 | thrown e ↦ (thrown e, end.1) ]
run-then m f w h =
    run->>= m f w ∙ ap (λ r. elim r.0 [ returned a ↦ run (f a) r.1 | thrown e ↦ (thrown e, r.1) ]) h

get_site_by_id-absent :
    (user_id site_id : ℕ) (w : World)
    → IsReliable w
    → site_of_user user_id site_id w.db ≡ none
    → run (get_site_by_id user_id site_id) w ≡ (thrown no_site, pass_time w)
unfolding get_site_by_id query
get_site_by_id-absent user_id site_id w reliable absent =
    search_fails (λ d. d) user_id site_id (λ site. ret (to_public_site site)) w reliable absent refl

run_manual_check-absent :
    (config : Config) (user_id site_id : ℕ) (w : World)
    → IsReliable w
    → site_of_user user_id site_id w.db ≡ none
    → run (run_manual_check config user_id site_id) w ≡ (returned threw_result, pass_time w)
unfolding run_manual_check query check_found run ◌>>=◌
run_manual_check-absent config user_id site_id w reliable absent =
    run-db_call_then (λ d. d) (λ d. ret (site_of_user user_id site_id d)) (check_found config) w
      reliable
    ∙ ap (λ found. run (ret found >>= check_found config) (pass_time w)) absent

-- In a world whose database answers: a check on demand of a site that is missing or another user's
-- ends with the error of a missing site, and changes nothing.
pub foreign_check_refused :
    (config : Config) (user_id site_id : ℕ) (w : World)
    → IsReliable w
    → site_of_user user_id site_id w.db ≡ none
    → run (check_now config user_id site_id) w ≡ (thrown no_site, pass_time (pass_time w))
unfolding check_now after_check run
foreign_check_refused config user_id site_id w reliable absent =
    let reread = get_site_by_id-absent user_id site_id (pass_time w) reliable absent in
    run-then (run_manual_check config user_id site_id) (after_check user_id site_id) w
      (run_manual_check-absent config user_id site_id w reliable absent)
    ∙ run-then (get_site_by_id user_id site_id) (λ site. throw not_completed) (pass_time w) reread
