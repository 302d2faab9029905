-- ===== src/RateLimit/Limiter.antt =====
-- RateLimiter of app/core/api_integration/rate_limiting.py: configurations, keys, dispatch to the
-- algorithms, response headers and statistics.
use text.Mathlib.Text.{◌==◌ as str_eq}
use korea_public_data_be.Base.{
  ℕ, suc, ◌+◌, ◌*◌, ◌/◌, Bool, true, false, not, ◌&&◌, Option, none, some, String, List, [], ◌∷◌,
  ◌++◌, string_eq, format, if◌then◌else◌,
}
use korea_public_data_be.Dict
use korea_public_data_be.Dict.{Dict}
use korea_public_data_be.RateLimit.Config.{
  second, RateLimit, RateLimitResult, RateLimitAlgorithm, token_bucket, leaky_bucket, fixed_window,
  sliding_window, sliding_window_log, key_error, Result, ok, err,
}
use korea_public_data_be.RateLimit.Storage.{Storage, empty}
use korea_public_data_be.RateLimit.Algorithms.{
  check_token_bucket, check_sliding_window, check_sliding_log,
}
use korea_public_data_be.RateLimit.Quota.{Quota, add_quota, unlimited}

pub record Stats : Type 0 where
  pub total_requests : ℕ
  pub allowed_requests : ℕ
  pub blocked_requests : ℕ

pub record RateLimiter : Type 0 where
  pub storage : Storage
  pub quotas : Dict String Quota
  pub rate_limits : Dict String RateLimit
  pub stats : Stats

-- RateLimiter(), over an empty in-memory storage
unfoldable pub init : RateLimiter
unfolding empty
init = record {
  storage = empty;
  quotas = [];
  rate_limits = [];
  stats = record { total_requests = 0; allowed_requests = 0; blocked_requests = 0 };
}

unfoldable pub add_rate_limit : RateLimiter → RateLimit → RateLimiter
add_rate_limit r l = record r { rate_limits = Dict.put r.rate_limits l.name l }

-- The end of `":".join(parts)`, after the first part.
join_rest : List String → List String
join_rest [] = []
join_rest (p ∷ ps) = ":" ∷ p ∷ join_rest ps

abbrev part_when : Bool → String → String → List String
part_when true label value = format (label ∷ value ∷ []) ∷ []
part_when false label value = []

joined : String → List String → String
unfolding join_rest
joined name [] = format ("global:" ∷ name ∷ [])
joined name (p ∷ ps) = format (p ∷ join_rest ps)

-- The storage key of a request: the parts that the limit distinguishes requests by.
unfoldable pub limit_key : RateLimit → String → String → String → String → String
unfolding joined format
limit_key l name client endpoint api_key = joined name (
    part_when l.per_client "client:" client
    ++ (part_when l.per_endpoint "endpoint:" endpoint
        ++ part_when (l.per_api_key && not (str_eq api_key "")) "api_key:" api_key))

module _ (str : ℕ → String) where
  -- `_algorithms` has three of the five algorithms.
  unfoldable pub dispatch :
      RateLimitAlgorithm → String → RateLimit → (ℕ → ℕ) → Storage → Result RateLimitResult × Storage
  dispatch token_bucket key l clock s = check_token_bucket key l clock s
  dispatch sliding_window key l clock s = check_sliding_window str key l clock s
  dispatch sliding_window_log key l clock s =
      let (r, s') = check_sliding_log key l (clock 0) s in (ok r, s')
  dispatch leaky_bucket key l clock s = (err key_error, s)
  dispatch fixed_window key l clock s = (err key_error, s)

  -- A `Retry-After` of 0 seconds is not sent.
  retry_header : Bool → Option ℕ → Dict String String → Dict String String
  retry_header true (some (suc n)) h = Dict.put h "Retry-After" (str (suc n))
  retry_header _ _ h = h

  unfoldable pub with_headers : RateLimit → RateLimitResult → RateLimitResult
  unfolding retry_header
  with_headers l r =
      let h1 = Dict.put r.headers "X-RateLimit-Limit" (str r.limit) in
      let h2 = Dict.put h1 "X-RateLimit-Remaining" (str r.remaining) in
      let h3 = Dict.put h2 "X-RateLimit-Reset" (str (r.reset_time / second)) in
      if l.include_headers
      then record r {
        headers = retry_header (not r.allowed && l.retry_after_header) r.retry_after h3;
      }
      else r

  abbrev count_result : Stats → Bool → Stats
  count_result st true = record st { allowed_requests = st.allowed_requests + 1 }
  count_result st false = record st { blocked_requests = st.blocked_requests + 1 }

  -- After the algorithm: headers and statistics, or the exception, which leaves them out.
  abbrev finish :
      RateLimiter → RateLimit → Result RateLimitResult → Result RateLimitResult × RateLimiter
  finish r l (err e) = (err e, r)
  finish r l (ok res) =
      (ok (with_headers l res), record r { stats = count_result r.stats res.allowed })

  -- The request is counted before anything else.
  counted : RateLimiter → RateLimiter
  counted r = record r { stats = record r.stats { total_requests = r.stats.total_requests + 1 } }

  check_named :
      Option ℕ
      → RateLimiter
      → Option RateLimit
      → String
      → String
      → String
      → String
      → (ℕ → ℕ)
      → Result RateLimitResult × RateLimiter
  check_named inf r none client endpoint api_key name clock =
      (unlimited inf (clock 0 + 3600 * second), record r { stats = count_result r.stats true })
  check_named inf r (some l) client endpoint api_key name clock =
      let (res, s) =
        dispatch l.algorithm (limit_key l name client endpoint api_key) l clock r.storage in
      finish (record r { storage = s }) l res

  -- RateLimiter.check_limit
  unfoldable pub check_limit :
      Option ℕ
      → RateLimiter
      → String
      → String
      → String
      → String
      → (ℕ → ℕ)
      → Result RateLimitResult × RateLimiter
  unfolding counted check_named
  check_limit inf r client endpoint api_key name clock =
      check_named inf (counted r) (Dict.get r.rate_limits name) client endpoint api_key name clock

-- create_default_rate_limiter
unfoldable pub default_limiter : RateLimiter
unfolding init add_rate_limit add_quota
default_limiter =
    let base : RateLimit = record {
      name = "default";
      limit = 100;
      window_seconds = 60;
      algorithm = sliding_window;
      burst_limit = none;
      per_client = true;
      per_endpoint = false;
      per_api_key = true;
      include_headers = true;
      retry_after_header = true;
    } in
    let strict : RateLimit = record base {
      name = "strict";
      limit = 10;
      algorithm = sliding_window_log;
    } in
    let burst : RateLimit = record base {
      name = "burst";
      limit = 50;
      algorithm = token_bucket;
      burst_limit = some 100;
    } in
    let r = add_rate_limit (add_rate_limit (add_rate_limit init base) strict) burst in
    record r {
      quotas = add_quota (add_quota r.quotas "daily" 10000 86400 none) "hourly" 1000 3600 none;
    }
