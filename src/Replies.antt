-- ===== src/Replies.antt =====
-- server/src/middleware/errorHandler.ts and the error envelope of server/src/utils/apiResponse.ts: what
-- a client is told of an error.
pub mod Silent
use pulse_keeper.Prelude.{
  Bool, List, Text, [], codes, false, if◌then◌else◌, map, true, ℕ, ◌++◌, ◌∷◌,
}
use pulse_keeper.Errors.{AppError, ErrorCode, conflict_code, internal_error, validation_error}

-- A field with what is wrong with it.
pub record Issue : Type 0 where
  pub field : Text
  pub message : Text

-- What reaches the error middleware: an AppError; the issues of a ZodError, each with its path; the
-- issues of mongoose's ValidationError; the path of its CastError; a duplicate key, with the fields of
-- its index; a body that is not JSON; any other error, with its message and stack; any other value.
pub data Failure : Type 0 where
  app_failure : AppError → Failure
  zod_failure : List (List Text × Text) → Failure
  schema_failure : List Issue → Failure
  cast_failure : Text → Failure
  duplicate_failure : List Text → Failure
  body_failure : Failure
  error_failure : Text → Text → Failure
  value_failure : Failure

-- `details`, which are left out for an AppError.
pub data Details : Type 0 where
  no_details : Details
  issues : List Issue → Details
  original : Text → Text → Details

-- `NormalizedError`
pub record NormalizedError : Type 0 where
  pub status_code : ℕ
  pub message : Text
  pub error_code : ErrorCode
  pub details : Details
  pub operational : Bool

-- `issue.path.join('.')`
abbrev pub dotted : List Text → Text
dotted [] = []
dotted (part ∷ []) = part
dotted (part ∷ next ∷ more) = part ++ codes "." ++ dotted (next ∷ more)

abbrev pub or_root : Text → Text
or_root [] = codes "(root)"
or_root (c ∷ t) = c ∷ t

unfoldable pub format_zod_issues : List (List Text × Text) → List Issue
format_zod_issues zod_issues =
    map (λ i. record { field = or_root (dotted i.0); message = i.1 }) zod_issues

abbrev pub first_key : List Text → Text
first_key [] = codes "value"
first_key (k ∷ ks) = k

abbrev pub invalid : Text → Details → NormalizedError
invalid message details = record {
  status_code = 400;
  message = message;
  error_code = validation_error;
  details = details;
  operational = true;
}

abbrev pub unexpected : NormalizedError
unexpected = record {
  status_code = 500;
  message = codes "Something went wrong";
  error_code = internal_error;
  details = no_details;
  operational = false;
}

unfoldable pub normalize : Failure → NormalizedError
unfolding format_zod_issues
normalize (app_failure e) = record {
  status_code = e.status_code;
  message = e.message;
  error_code = e.error_code;
  details = no_details;
  operational = true;
}
normalize (zod_failure zod_issues) =
    invalid (codes "Request validation failed") (issues (format_zod_issues zod_issues))
normalize (schema_failure found) = invalid (codes "Request validation failed") (issues found)
normalize (cast_failure path) =
    invalid (codes "Invalid value for '" ++ path ++ codes "'") no_details
normalize (duplicate_failure keys) = record {
  status_code = 409;
  message = codes "That " ++ first_key keys ++ codes " is already in use";
  error_code = conflict_code;
  details = no_details;
  operational = true;
}
normalize body_failure = invalid (codes "Request body is not valid JSON") no_details
normalize (error_failure message stack) = unexpected
normalize value_failure = unexpected

-- `ErrorBody` with its status.
pub record ErrorReply : Type 0 where
  pub status_code : ℕ
  pub message : Text
  pub error_code : ErrorCode
  pub details : Details

-- The response is cut off, or it is this one.
pub data Ending : Type 0 where
  destroyed : Ending
  replied : ErrorReply → Ending

-- The details that development adds.
unfoldable pub details_shown : Bool → Failure → Details
unfolding normalize
details_shown is_production (error_failure message stack) =
    if is_production then no_details else original message stack
details_shown is_production failure = (normalize failure).details

-- `errorHandler`, with `env.isProduction` and `res.headersSent`.
unfoldable pub error_handler : Bool → Bool → Failure → Ending
unfolding normalize details_shown
error_handler is_production headers_sent failure =
    if headers_sent
    then destroyed
    else replied record {
      status_code = (normalize failure).status_code;
      message = (normalize failure).message;
      error_code = (normalize failure).error_code;
      details = details_shown is_production failure;
    }
