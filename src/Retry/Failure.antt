-- ===== src/Retry/Failure.antt =====
-- The exceptions of app/shared/exceptions/api_exceptions.py, as far as a retry looks at them.
use korea_public_data_be.Base.{
  ℕ, Bool, ◌&&◌, Option, [], ◌∷◌, leb, ltb, eqb, elem, nat_eq, if◌then◌else◌,
}

-- The classes, by their names without API and Error; `other` is every other exception.
pub data Failure : Type 0 where
  timeout network not_found bad_request client other : Failure
  authentication insufficient_permissions : Failure
  rate_limit : (retry_after : Option ℕ) → Failure
  server : (status_code : ℕ) → (is_retryable : Bool) → Failure

-- create_api_exception_from_response; `retry_after` is the number in the header, if it has one.
unfoldable pub create_api_exception_from_response : ℕ → Option ℕ → Failure
create_api_exception_from_response status retry_after =
    if eqb status 400
    then bad_request
    else if eqb status 401
    then authentication
    else if eqb status 403
    then insufficient_permissions
    else if eqb status 404
    then not_found
    else if eqb status 408
    then timeout
    else if eqb status 429
    then rate_limit retry_after
    else if leb 500 status && ltb status 600
    then server status (elem status (500 ∷ 502 ∷ 503 ∷ 504 ∷ []))
    else client
