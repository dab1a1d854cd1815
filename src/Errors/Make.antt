-- ===== src/Errors/Make.antt =====
-- The functions of `impl AppError` in server/src/errors.rs, under their names.
use legal_genie_agent.Prelude.{ℕ, String, ◌<>◌, Option}
use legal_genie_agent.Errors.{AppError}

abbrev pub bad_request : String → AppError
bad_request message = AppError.bad_request message 400000

abbrev pub bad_request_code : ℕ → String → AppError
bad_request_code error_code message = AppError.bad_request message error_code

abbrev pub too_many_requests_with_retry : Option ℕ → String → AppError
too_many_requests_with_retry retry_after_secs message =
    AppError.too_many_requests message 400104 retry_after_secs

abbrev pub unauthorized : String → AppError
unauthorized message = AppError.unauthorized message 401000

abbrev pub unauthorized_code : ℕ → String → AppError
unauthorized_code error_code message = AppError.unauthorized message error_code

abbrev pub forbidden : String → AppError
forbidden message = AppError.forbidden message 403000

abbrev pub forbidden_code : ℕ → String → AppError
forbidden_code error_code message = AppError.forbidden message error_code

abbrev pub not_found : String → AppError
not_found message = AppError.not_found message 404000

abbrev pub not_found_code : ℕ → String → AppError
not_found_code error_code message = AppError.not_found message error_code

abbrev pub conflict : String → AppError
conflict message = AppError.conflict message 409000

abbrev pub internal : String → AppError
internal message = AppError.internal message 500000

-- `.map_err(|e| AppError::internal(format!("db error: {e}")))`, which stands behind every query.
abbrev pub db_error : String → AppError
db_error e = internal ("db error: " <> e)
