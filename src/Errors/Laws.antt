-- ===== src/Errors/Laws.antt =====
-- What an error response tells a client.
use legal_genie_agent.Prelude.{ℕ, ◌≤◌, ◌≡◌, arith}
use legal_genie_agent.Errors.{AppError, into_response}

-- The code in the body of an error response is the status of the response, and the status is
-- between 400 and 500.
pub into_response_mirrors :
    (now : ℕ) (e : AppError)
    → ((into_response now e).envelope.code ≡ (into_response now e).status)
      × (400 ≤ (into_response now e).status)
      × ((into_response now e).status ≤ 500)
unfolding into_response
into_response_mirrors now (AppError.bad_request m c) = ground arith
into_response_mirrors now _ = ground arith
