-- ===== src/Errors.antt =====
-- server/src/errors.rs and server/src/api.rs: the error type of the handlers, and its response.
pub mod Make
pub mod Laws
use legal_genie_agent.Prelude.{ℕ, String, Option, none, some}

-- `AppError`. An error code is one of the program's literals, so a natural number.
pub data AppError : Type 0 where
  bad_request : (message : String) (error_code : ℕ) → AppError
  too_many_requests : (message : String) (error_code : ℕ) (retry_after_secs : Option ℕ) → AppError
  unauthorized : (message : String) (error_code : ℕ) → AppError
  forbidden : (message : String) (error_code : ℕ) → AppError
  not_found : (message : String) (error_code : ℕ) → AppError
  conflict : (message : String) (error_code : ℕ) → AppError
  internal : (message : String) (error_code : ℕ) → AppError

-- `ApiEnvelope<T>`
pub record Envelope {ℓ} (T : Type ℓ) : Type ℓ where
  pub code : ℕ
  pub message : String
  pub body : Option T
  pub timestamp : ℕ
  pub error_code : Option ℕ

-- `ApiEnvelope::ok`; `now` is the clock, `now_ts()`.
abbrev pub envelope_ok {ℓ} : {T : Type ℓ} → ℕ → T → Envelope T
envelope_ok now value = record {
  code = 200;
  message = "success";
  body = some value;
  timestamp = now;
  error_code = none;
}

-- `ApiEnvelope::err`
abbrev pub envelope_err : ℕ → ℕ → ℕ → String → Envelope (Unit {0})
envelope_err now code error_code message = record {
  code = code;
  message = message;
  body = none;
  timestamp = now;
  error_code = some error_code;
}

-- A response: the status line, the `retry-after` header and the JSON body.
pub record ErrorResponse : Type 0 where
  pub status : ℕ
  pub retry_after : Option ℕ
  pub envelope : Envelope (Unit {0})

-- The end of `into_response`, for all variants but `TooManyRequests`.
abbrev respond : ℕ → ℕ → String → ℕ → ErrorResponse
respond now status message error_code = record {
  status = status;
  retry_after = none;
  envelope = envelope_err now status error_code message;
}

-- `impl IntoResponse for AppError`. The digits of a number are a valid header value, so the
-- fall-back value "60" of the source is never used.
pub into_response : ℕ → AppError → ErrorResponse
into_response now (AppError.bad_request message code) = respond now 400 message code
into_response now (AppError.too_many_requests message code retry_after_secs) = record {
  status = 429;
  retry_after = retry_after_secs;
  envelope = envelope_err now 429 code message;
}
into_response now (AppError.unauthorized message code) = respond now 401 message code
into_response now (AppError.forbidden message code) = respond now 403 message code
into_response now (AppError.not_found message code) = respond now 404 message code
into_response now (AppError.conflict message code) = respond now 409 message code
into_response now (AppError.internal message code) = respond now 500 message code
