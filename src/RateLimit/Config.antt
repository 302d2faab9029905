-- ===== src/RateLimit/Config.antt =====
-- app/core/api_integration/rate_limiting.py: the configuration of a limit, the result of a check,
-- and the ways in which a check can raise.
-- Instants and spans of time are whole microseconds (a `float` of seconds in the source), and the
-- quotients of the source are taken exactly, without the rounding of a `float`.
use korea_public_data_be.Base.{ℕ, ◌*◌, Bool, true, false, Option, String, List, [], ◌∷◌, ◌++◌}
use korea_public_data_be.Dict.{Dict}

-- Microseconds in a second.
abbrev pub second : ℕ
second = 1000000

pub data RateLimitAlgorithm : Type 0 where
  token_bucket leaky_bucket fixed_window sliding_window sliding_window_log : RateLimitAlgorithm

-- The configured numbers are not negative.
pub record RateLimit : Type 0 where
  pub name : String
  pub limit : ℕ
  pub window_seconds : ℕ
  pub algorithm : RateLimitAlgorithm
  pub burst_limit : Option ℕ
  pub per_client : Bool
  pub per_endpoint : Bool
  pub per_api_key : Bool
  pub include_headers : Bool
  pub retry_after_header : Bool

abbrev include_when : Bool → String → List String
include_when true c = c ∷ []
include_when false c = []

-- RateLimit.key_components
unfoldable pub key_components : RateLimit → List String
key_components l =
    include_when l.per_client "client"
    ++ (include_when l.per_endpoint "endpoint" ++ include_when l.per_api_key "api_key")

-- The length of the window in microseconds.
abbrev pub window : RateLimit → ℕ
window l = l.window_seconds * second

pub record RateLimitResult : Type 0 where
  pub allowed : Bool
  pub limit : ℕ
  pub remaining : ℕ
  pub reset_time : ℕ  -- an instant
  pub retry_after : Option ℕ  -- in seconds
  pub headers : Dict String String

-- `clock_back` stands for what the source does with a clock that was set back between two refills
-- of a bucket, where the elapsed time is negative: that case is not modelled.
pub data Error : Type 0 where
  zero_division key_error validation_error clock_back : Error

pub data Result {ℓ} (A : Type ℓ) : Type ℓ where
  ok : A → Result A
  err : Error → Result A
