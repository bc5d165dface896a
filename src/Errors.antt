-- ===== src/Errors.antt =====
-- server/src/utils/AppError.ts: the errors raised deliberately, and all that the services catch.
use pulse_keeper.Prelude.{Text, codes, ℕ}

pub data ErrorCode : Type 0 where
  validation_error unauthorized_code forbidden_code not_found_code conflict_code : ErrorCode
  rate_limited url_not_allowed_code internal_error service_unavailable_code : ErrorCode

-- `details`, a value for the client that no code reads, is left out.
pub record AppError : Type 0 where
  pub status_code : ℕ
  pub message : Text
  pub error_code : ErrorCode

abbrev pub bad_request : Text → AppError
bad_request m = record { status_code = 400; message = m; error_code = validation_error }

abbrev pub unauthorized : Text → AppError
unauthorized m = record { status_code = 401; message = m; error_code = unauthorized_code }

abbrev pub forbidden : Text → AppError
forbidden m = record { status_code = 403; message = m; error_code = forbidden_code }

abbrev pub not_found : Text → AppError
not_found m = record { status_code = 404; message = m; error_code = not_found_code }

abbrev pub conflict : Text → AppError
conflict m = record { status_code = 409; message = m; error_code = conflict_code }

abbrev pub too_many_requests : Text → AppError
too_many_requests m = record { status_code = 429; message = m; error_code = rate_limited }

abbrev pub url_not_allowed : Text → AppError
url_not_allowed m = record { status_code = 400; message = m; error_code = url_not_allowed_code }

abbrev pub internal : Text → AppError
internal m = record { status_code = 500; message = m; error_code = internal_error }

abbrev pub service_unavailable : Text → AppError
service_unavailable m = record {
  status_code = 503;
  message = m;
  error_code = service_unavailable_code;
}

-- What a `throw` carries: an `AppError`, the driver's duplicate-key error (code 11000), or any
-- other error with its `code` (empty where it has none) and message.
pub data Thrown : Type 0 where
  app_error : AppError → Thrown
  duplicate_key : Thrown
  other_error : Text → Text → Thrown

-- `error.message`
abbrev pub message_of : Thrown → Text
message_of (app_error e) = e.message
message_of duplicate_key = codes "E11000 duplicate key error"
message_of (other_error code m) = m

-- `error instanceof AppError ? error.message : fallback`
abbrev pub app_message_or : Thrown → Text → Text
app_message_or (app_error e) fallback = e.message
app_message_or _ fallback = fallback
