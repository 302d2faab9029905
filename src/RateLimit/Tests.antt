-- ===== src/RateLimit/Tests.antt =====
-- Runs of the rate limiter, and the theorems at concrete inputs.
use korea_public_data_be.Base.{
  ℕ, ◌+◌, ◌*◌, ◌≡◌, refl, true, false, none, some, String, List, [], ◌∷◌, arith, min, string_eq,
  format,
}
use korea_public_data_be.Dict
use korea_public_data_be.Samples.{decimal}
use korea_public_data_be.RateLimit.Config.{
  RateLimit, RateLimitResult, second, token_bucket, sliding_window_log, leaky_bucket, ok,
}
use korea_public_data_be.RateLimit.Storage.{
  Storage, empty, get_count, set_count, get_timestamps, add_timestamp, cleanup_expired,
}
use korea_public_data_be.RateLimit.Algorithms.{
  check_token_bucket, serve_token, check_sliding_log, max_tokens, refilled,
}
use korea_public_data_be.RateLimit.Quota.{Quota}
use korea_public_data_be.RateLimit.Limiter.{RateLimiter, default_limiter, add_rate_limit, limit_key}
use korea_public_data_be.RateLimit.Counters.{used}
use korea_public_data_be.RateLimit.LogWindow.{start, run, ideal, run-refines-ideal}
use korea_public_data_be.RateLimit.QuotaUse as QuotaUse
use korea_public_data_be.RateLimit.TokenUse.{allowed_at, unlimited_burst, refill_key}

-- Two requests a minute.
abbrev two_a_minute : RateLimit
two_a_minute = record {
  name = "two";
  limit = 2;
  window_seconds = 60;
  algorithm = sliding_window_log;
  burst_limit = none;
  per_client = true;
  per_endpoint = false;
  per_api_key = false;
  include_headers = true;
  retry_after_header = true;
}

abbrev requests : List (String × ℕ)
requests =
    ("a", 1 * second)
    ∷ ("a", 2 * second)
    ∷ ("b", 3 * second)
    ∷ ("a", 4 * second)
    ∷ ("a", 62 * second)
    ∷ []

-- The third request of "a" within the minute is refused, the one after it is let through.
request_runs :
    (run two_a_minute start requests).admitted
    ≡ ("a", 1 * second) ∷ ("a", 2 * second) ∷ ("b", 3 * second) ∷ ("a", 62 * second) ∷ []
unfolding start run check_sliding_log get_timestamps add_timestamp cleanup_expired Dict.get Dict.put
request_runs = refl

run-refines-ideal_example :
    (run two_a_minute start requests).admitted ≡ ideal two_a_minute [] requests
run-refines-ideal_example = run-refines-ideal two_a_minute requests (omega arith)

abbrev steady : ℕ → ℕ → ℕ
steady t _ = t

abbrev hourly : Quota
hourly = record { limit = 2; period_seconds = 3600; client_patterns = "*" ∷ [] }

abbrev three_checks : List (ℕ → ℕ)
three_checks = steady (7201 * second) ∷ steady (7202 * second) ∷ steady (7203 * second) ∷ []

allowed_in_period_example :
    QuotaUse.allowed_checks decimal "hourly" "client" hourly empty three_checks ≡ min 3 2
unfolding empty Dict.get
allowed_in_period_example =
    QuotaUse.allowed_in_period decimal "hourly" "client" hourly empty 2 three_checks (omega arith)
      (omega arith) refl

-- Fifty requests a minute, bursts of a hundred: the limit named "burst".
abbrev burst : RateLimit
burst = record two_a_minute {
  name = "burst";
  limit = 50;
  algorithm = token_bucket;
  burst_limit = some 100;
}

-- A hundred requests a second.
abbrev fast : RateLimit
fast = record burst { limit = 100; window_seconds = 1; burst_limit = none }

abbrev refilled_once : Storage
refilled_once = set_count empty (1000 * second) (refill_key "client:c") 1000 2

unlimited_burst_example :
    allowed_at "client:c" fast (1000 * second + 500000) 1000000 refilled_once ≡ 1000000
unfolding max_tokens set_count empty Dict.get Dict.put format
unlimited_burst_example =
    unlimited_burst "client:c" fast (1000 * second + 500000) (omega arith) (omega arith)
      (omega arith) (omega arith) 1000000 refilled_once
      (used (record { count = 1000; expires_at = 1002 * second }) refl refl (omega arith))

-- Half a second after the recorded refill a hundred a second are worth fifty tokens.
abbrev fifty_left : RateLimitResult
fifty_left = record {
  allowed = true;
  limit = 100;
  remaining = 49;
  reset_time = 1001 * second + 500000;
  retry_after = none;
  headers = [];
}

half_second_later :
    (check_token_bucket "client:c" fast (steady (1000 * second + 500000)) refilled_once).0
    ≡ ok fifty_left
unfolding check_token_bucket serve_token refilled max_tokens get_count set_count empty Dict.get
    Dict.put format
half_second_later = refl

-- The limiter with one more limit, whose algorithm it does not have.
abbrev leaky : RateLimit
leaky = record two_a_minute { name = "leaky"; algorithm = leaky_bucket }

abbrev limiter : RateLimiter
limiter = add_rate_limit default_limiter leaky

key_of_request :
    limit_key (record two_a_minute { per_api_key = true }) "two" "c" "/x" "k" ≡ "client:c:api_key:k"
unfolding limit_key format
key_of_request = refl
