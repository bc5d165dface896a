-- ===== src/Tests/Triggers.antt =====
-- The theorems on triggers, answers to errors and pages on the small world.
use pulse_keeper.Prelude.{
  Bool, List, Text, [], arith, codes, false, length, none, refl, some, suc, true, ℕ, ◌↔◌, ◌∷◌, ◌≡◌,
  ◌≤◌,
}
use pulse_keeper.Checked.{ok}
use pulse_keeper.Domain.{cron}
use pulse_keeper.Async.{thrown, run}
use pulse_keeper.Async.Rules.{NoThrow}
use pulse_keeper.Monitoring.Running.{run_monitoring_sweep}
use pulse_keeper.Store.{World}
use pulse_keeper.Store.Calls.{App, pass_time}
use pulse_keeper.Sites.Tenants.{no_site}
use pulse_keeper.Triggers.{check_now, tick}
use pulse_keeper.Triggers.Behaviour.{foreign_check_refused, tick_lem}
use pulse_keeper.Triggers.Secret.{
  IsGiven, require_monitor_secret, require_monitor_secret_iff, single,
}
use pulse_keeper.Replies.{Failure, error_handler, normalize}
use pulse_keeper.Replies.Silent.{error_handler_lem, is_expected}
use pulse_keeper.Paging.{build_pagination, page_of}
use pulse_keeper.Paging.Pages.{pages_cover, pages_from}
use pulse_keeper.Tests.{sample_config, sample_world}

tick_lem_example :
    (false ≡ true → tick sample_config (sample_world []) ≡ none)
    × (false ≡ false
        → (fired : App (Unit {0})) × (tick sample_config (sample_world []) ≡ some fired)
          × NoThrow fired
          × ((v : World)
              → ((run fired v).1 ≡ (run (run_monitoring_sweep sample_config cron) v).1)
                × ((run fired v).1.in_progress ≡ false)))
tick_lem_example = tick_lem sample_config (sample_world [])

foreign_check_refused_example :
    run (check_now sample_config 8 1) (sample_world [])
    ≡ (thrown no_site, pass_time (pass_time (sample_world [])))
foreign_check_refused_example =
    foreign_check_refused sample_config 8 1 (sample_world []) (λ n. refl) refl

require_monitor_secret_iff_example :
    (require_monitor_secret (λ t. t) (some (codes "s3")) (single (codes "s3")) ≡ ok tt) ↔ (
      (expected : Text) × (provided : Text) × IsGiven (some (codes "s3")) expected
      × IsGiven (some (codes "s3")) provided
      × (provided ≡ expected))
require_monitor_secret_iff_example =
    require_monitor_secret_iff (λ t. t) (some (codes "s3")) (single (codes "s3"))

error_handler_lem_example :
    ((f g : Failure)
      → is_expected f ≡ false
      → is_expected g ≡ false
      → (error_handler true false f ≡ error_handler true false g)
        × ((normalize f).status_code ≡ 500))
    × ((is_production : Bool) (f : Failure)
        → is_expected f ≡ true
        → error_handler is_production false f ≡ error_handler true false f)
error_handler_lem_example = error_handler_lem false

abbrev five : List ℕ
five = 1 ∷ 2 ∷ 3 ∷ 4 ∷ 5 ∷ []

pages_cover_example :
    (pages_from (build_pagination 5 1 2).total_pages 0 2 five ≡ five)
    × ((page : ℕ)
        → ((build_pagination 5 page 2).has_more ≡ false → page_of (suc page) 2 five ≡ [])
          × ((build_pagination 5 page 2).has_more ≡ true → 1 ≤ length (page_of (suc page) 2 five)))
pages_cover_example = pages_cover 2 five (omega arith)
