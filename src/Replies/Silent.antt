-- ===== src/Replies/Silent.antt =====
-- What an error does not tell the client.
use pulse_keeper.Prelude.{Bool, arith, false, refl, sym, true, ◌∙◌, ◌≡◌}
use pulse_keeper.Replies.{
  Failure, app_failure, body_failure, cast_failure, details_shown, duplicate_failure, error_failure,
  error_handler, normalize, schema_failure, value_failure, zod_failure,
}

-- The errors that are expected.
abbrev pub is_expected : Failure → Bool
is_expected (error_failure message stack) = false
is_expected value_failure = false
is_expected _ = true

unexpected_answer :
    (headers_sent : Bool) (f : Failure)
    → is_expected f ≡ false
    → (error_handler true headers_sent f ≡ error_handler true headers_sent value_failure)
      × ((normalize f).status_code ≡ 500)
unfolding error_handler normalize details_shown
unexpected_answer headers_sent (app_failure e) h = ground (arith, h)
unexpected_answer headers_sent (zod_failure zod_issues) h = ground (arith, h)
unexpected_answer headers_sent (schema_failure found) h = ground (arith, h)
unexpected_answer headers_sent (cast_failure path) h = ground (arith, h)
unexpected_answer headers_sent (duplicate_failure keys) h = ground (arith, h)
unexpected_answer headers_sent body_failure h = ground (arith, h)
unexpected_answer headers_sent (error_failure message stack) h = (refl, refl)
unexpected_answer headers_sent value_failure h = (refl, refl)

expected_answer :
    (is_production headers_sent : Bool) (f : Failure)
    → is_expected f ≡ true
    → error_handler is_production headers_sent f ≡ error_handler true headers_sent f
unfolding error_handler normalize details_shown
expected_answer b headers_sent (app_failure e) h = refl
expected_answer b headers_sent (zod_failure zod_issues) h = refl
expected_answer b headers_sent (schema_failure found) h = refl
expected_answer b headers_sent (cast_failure path) h = refl
expected_answer b headers_sent (duplicate_failure keys) h = refl
expected_answer b headers_sent body_failure h = refl
expected_answer b headers_sent (error_failure message stack) h = ground (arith, h)
expected_answer b headers_sent value_failure h = refl

-- In production the answers to any two unexpected errors are the same, whatever their messages and
-- stacks, and have status 500; the answer to an expected error does not depend on whether the server
-- is in production.
pub error_handler_lem :
    (headers_sent : Bool)
    → ((f g : Failure)
        → is_expected f ≡ false
        → is_expected g ≡ false
        → (error_handler true headers_sent f ≡ error_handler true headers_sent g)
          × ((normalize f).status_code ≡ 500))
      × ((is_production : Bool) (f : Failure)
          → is_expected f ≡ true
          → error_handler is_production headers_sent f ≡ error_handler true headers_sent f)
error_handler_lem headers_sent = (
  λ f g f_unexpected g_unexpected.
      let of_f = unexpected_answer headers_sent f f_unexpected in
      let of_g = unexpected_answer headers_sent g g_unexpected in (of_f.0 ∙ sym of_g.0, of_f.1),
  λ is_production f h. expected_answer is_production headers_sent f h,
)
