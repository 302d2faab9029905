-- ===== src/RateLimit/LimiterStats.antt =====
-- What a check of the limiter does to its statistics, and which algorithms it has.
use korea_public_data_be.Base.{
  ℕ, ◌+◌, ◌≡◌, ◌⊎◌, true, false, Option, none, some, String, arith, string_eq,
}
use korea_public_data_be.Dict
use korea_public_data_be.RateLimit.Config.{
  RateLimit, RateLimitResult, leaky_bucket, fixed_window, key_error, Result, ok, err,
}
use korea_public_data_be.RateLimit.Limiter.{RateLimiter, dispatch, with_headers, check_limit}

-- How many requests a check has counted as allowed, as blocked, and as raised.
abbrev pub allowed_of : Option RateLimit → Result RateLimitResult → ℕ
allowed_of none _ = 1
allowed_of (some l) (ok r) = elim r.allowed [ true ↦ 1 | false ↦ 0 ]
allowed_of (some l) (err e) = 0

abbrev pub blocked_of : Option RateLimit → Result RateLimitResult → ℕ
blocked_of none _ = 0
blocked_of (some l) (ok r) = elim r.allowed [ true ↦ 0 | false ↦ 1 ]
blocked_of (some l) (err e) = 0

module _ (str : ℕ → String) (inf : Option ℕ) (r : RateLimiter)
    (client endpoint api_key name : String) (clock : ℕ → ℕ) where
  -- Every check counts the request once in the total, and once among the allowed or the blocked
  -- ones, by what it answers; a check that raises for a configured limit is in the total only. The
  -- configurations and the quotas stay.
  pub check_limit_stats :
      let (res, r') = check_limit str inf r client endpoint api_key name clock in
      let found = Dict.get r.rate_limits name in
      (r'.stats.total_requests ≡ r.stats.total_requests + 1)
      × (r'.stats.allowed_requests ≡ r.stats.allowed_requests + allowed_of found res)
      × (r'.stats.blocked_requests ≡ r.stats.blocked_requests + blocked_of found res)
      × (r'.rate_limits ≡ r.rate_limits)
      × (r'.quotas ≡ r.quotas)
  unfolding check_limit with_headers
  check_limit_stats = ground arith

  -- A limit with the leaky bucket or the fixed window, which the configuration admits, makes every
  -- check raise a KeyError; the storage stays as it was.
  pub missing_algorithms :
      (l : RateLimit)
      → Dict.get r.rate_limits name ≡ some l
      → (l.algorithm ≡ leaky_bucket) ⊎ (l.algorithm ≡ fixed_window)
      → let (res, r') = check_limit str inf r client endpoint api_key name clock in
        (res ≡ err key_error) × (r'.storage ≡ r.storage)
  unfolding check_limit dispatch
  missing_algorithms l found which = ground arith
