-- ===== src/Gateway/Counts.antt =====
-- The statistics of the gateway in app/core/api_integration/gateway.py, and its rate limit.
use korea_public_data_be.Base.{
  ℕ, ◌+◌, ◌-◌, inl, inr, Bool, true, false, ◌&&◌, Option, none, some, String, ◌≡◌, ◌≢◌, refl, sym,
  ap, ◌∙◌, arith, Bool-cases, Option-cases, string_eq, true≢false,
}
use korea_public_data_be.Dict
use korea_public_data_be.RateLimit.Config.{RateLimitResult, Result, ok, err}
use korea_public_data_be.RateLimit.Limiter.{RateLimiter, check_limit}
use korea_public_data_be.Gateway.Defs.{is_get, ApiRequest, ApiResponse, Attempt, Stats, Gateway}
use korea_public_data_be.Gateway.Routes.{Text}
use korea_public_data_be.Gateway.Process.{
  Stages, is_true, client_of, check_rate_limit, after_check, generate_cache_key, found_entry,
  by_cache_key, check_cache, serve, cache_response, cache_if_enabled, settle, gateway_error, finish,
  after_serve, after_cache, after_limit, process_request,
}

-- Each request that is over has been counted in one way.
abbrev pub counted : Stats → ℕ
counted s = s.successful_requests + s.failed_requests + s.cached_responses + s.rate_limited_requests

abbrev pub IsCounted : Stats → Type 0
IsCounted s = s.total_requests ≡ counted s

-- One more request is being processed.
abbrev IsOpen : Stats → Type 0
IsOpen s = s.total_requests ≡ counted s + 1

module _ (py : Text) (stages : Stages) (hash : String → String) (str : ℕ → String) (inf : Option ℕ)
    (limiter_clock clock : ℕ → ℕ) where
  abbrev P : Gateway RateLimiter → ApiRequest → ApiResponse × Gateway RateLimiter
  P = process_request py stages hash str inf limiter_clock clock

  -- Closed, with no request more that was found over its limit
  abbrev Closes : Gateway RateLimiter → ApiResponse × Gateway RateLimiter → Type 0
  Closes g r =
      IsCounted r.1.stats
      × (r.1.stats.total_requests ≡ g.stats.total_requests)
      × (r.1.stats.rate_limited_requests ≡ g.stats.rate_limited_requests)

  cache_response-stats :
      (g g' : Gateway RateLimiter) (q : ApiRequest) (r : ApiResponse)
      → cache_response py stages hash str inf limiter_clock clock g q r ≡ inr g'
      → g'.stats ≡ g.stats
  unfolding cache_response
  cache_response-stats g g' q r h = ground arith

  gateway_error-Closes :
      (g : Gateway RateLimiter) (q : ApiRequest) (e : String)
      → IsOpen g.stats
      → Closes g (gateway_error py stages hash str inf limiter_clock clock g q e)
  gateway_error-Closes g q e h = (omega (arith, h), refl, refl)

  cache_if_enabled-stats :
      (g : Gateway RateLimiter) (q : ApiRequest) (r : ApiResponse) (g' : Gateway RateLimiter)
      → cache_if_enabled py stages hash str inf limiter_clock clock g q r ≡ inr g'
      → g'.stats ≡ g.stats
  cache_if_enabled-stats g q r g' h = ground (arith, cache_response-stats g g' q r)

  settle-Closes :
      (g : Gateway RateLimiter) (q : ApiRequest) (r : ApiResponse)
      (kept : Attempt (Gateway RateLimiter))
      → IsOpen g.stats
      → ((g' : Gateway RateLimiter) → kept ≡ inr g' → g'.stats ≡ g.stats)
      → Closes g (settle py stages hash str inf limiter_clock clock g q r kept)
  settle-Closes g q r (inl e) h same = gateway_error-Closes g q e h
  settle-Closes g q r (inr g') h same = ground (arith, same g' refl, h)

  finish-Closes :
      (g : Gateway RateLimiter) (q : ApiRequest) (r : ApiResponse)
      → IsOpen g.stats
      → Closes g (finish py stages hash str inf limiter_clock clock g q r)
  unfolding finish
  finish-Closes g q r h =
      let timed = record r { processing_time = clock 3 - clock 0 } in
      settle-Closes g q timed
        (cache_if_enabled py stages hash str inf limiter_clock clock g q timed) h
        (cache_if_enabled-stats g q timed)

  found_entry-stats :
      (g : Gateway RateLimiter) (key : String) (o : Option ApiResponse)
      → (found_entry py stages hash str inf limiter_clock clock g key o).1.stats ≡ g.stats
  unfolding found_entry
  found_entry-stats g key none = refl
  found_entry-stats g key (some r) = ground arith

  by_cache_key-stats :
      (g : Gateway RateLimiter) (key : Attempt String)
      → (by_cache_key py stages hash str inf limiter_clock clock g key).1.stats ≡ g.stats
  unfolding by_cache_key
  by_cache_key-stats g (inl e) = refl
  by_cache_key-stats g (inr key) = found_entry-stats g key (Dict.get g.response_cache key)

  check_cache-stats :
      (g : Gateway RateLimiter) (q : ApiRequest)
      → (check_cache py stages hash str inf limiter_clock clock g q).1.stats ≡ g.stats
  unfolding check_cache
  check_cache-stats g q = elim (Bool-cases (q.cache_enabled && is_get q.method)) [
    | inr e ↦ rw e
    | inl e ↦
        rw e
          (by_cache_key-stats g (generate_cache_key py stages hash str inf limiter_clock clock q))
  ]

  after_serve-Closes :
      (g : Gateway RateLimiter) (p : ApiRequest × Attempt ApiResponse)
      → IsOpen g.stats
      → Closes g (after_serve py stages hash str inf limiter_clock clock g p)
  unfolding after_serve
  after_serve-Closes g (q, inl e) h = gateway_error-Closes g q e h
  after_serve-Closes g (q, inr r) h = finish-Closes g q r h

  after_cache-Closes :
      (q : ApiRequest) (x : Attempt (Option ApiResponse) × Gateway RateLimiter)
      → IsOpen x.1.stats
      → Closes x.1 (after_cache py stages hash str inf limiter_clock clock q x)
  unfolding after_cache
  after_cache-Closes q (inl e, g) h = gateway_error-Closes g q e h
  after_cache-Closes q (inr none, g) h =
      after_serve-Closes g (serve py stages hash str inf limiter_clock clock g q) h
  after_cache-Closes q (inr (some hit), g) h = (omega (arith, h), refl, refl)

  goes : {b : Attempt Bool} → b ≡ inr true → b ≢ inr false
  goes e h = true≢false (ap (λ a. elim a [ inl _ ↦ true | inr b ↦ b ]) (sym e ∙ h))

  after_check-passes :
      (g : Gateway RateLimiter) (x : Result RateLimitResult × RateLimiter)
      → let y = after_check py stages hash str inf limiter_clock clock g x in
        (y.1.stats ≡ g.stats) × (y.0 ≢ inr false)
  unfolding after_check is_true
  after_check-passes g (ok r, l) = (refl, goes refl)
  after_check-passes g (err e, l) = (refl, λ h. cc)

  -- The limiter's answer never stops a request.
  pub check_rate_limit-passes :
      (g : Gateway RateLimiter) (q : ApiRequest)
      → let x = check_rate_limit py stages hash str inf limiter_clock clock g q in
        (x.1.stats ≡ g.stats) × (x.0 ≢ inr false)
  unfolding check_rate_limit
  check_rate_limit-passes g q = elim (Option-cases g.rate_limiter) [
    | inl e ↦ rw e (refl, goes refl)
    | inr (l, e) ↦ rw e (
        after_check-passes g (
          check_limit str inf l (client_of py stages hash str inf limiter_clock clock q) q.path ""
            "default" limiter_clock))
  ]

  after_limit-Closes :
      (q : ApiRequest) (x : Attempt Bool × Gateway RateLimiter)
      → IsOpen x.1.stats
      → x.0 ≢ inr false
      → Closes x.1 (after_limit py stages hash str inf limiter_clock clock q x)
  unfolding after_limit
  after_limit-Closes q (inl e, g) h n = gateway_error-Closes g q e h
  after_limit-Closes q (inr false, g) h n = absurd (n refl)
  after_limit-Closes q (inr true, g) h n =
      let same = check_cache-stats g q in
      let x = check_cache py stages hash str inf limiter_clock clock g q in
      let closed =
        after_cache-Closes q x
          (omega (arith, h, ap (λ s. s.total_requests) same, ap counted same)) in
      (
        closed.0,
        closed.1 ∙ ap (λ s. s.total_requests) same,
        closed.2 ∙ ap (λ s. s.rate_limited_requests) same,
      )

  -- A request that is over has been counted as successful, failed, answered from the cache or
  -- limited, in one of the ways, if those before it were. Its limit has no say in that: whatever
  -- the rate limiter answers, no request is ever counted as limited.
  pub process_request-IsCounted :
      (g : Gateway RateLimiter) (q : ApiRequest)
      → IsCounted g.stats
      → let r = process_request py stages hash str inf limiter_clock clock g q in
        IsCounted r.1.stats
        × (r.1.stats.total_requests ≡ g.stats.total_requests + 1)
        × (r.1.stats.rate_limited_requests ≡ g.stats.rate_limited_requests)
  unfolding process_request
  process_request-IsCounted g q h =
      let open_ = record g {
        stats = record g.stats { total_requests = g.stats.total_requests + 1 };
      } in
      let (same, passes) = check_rate_limit-passes open_ q in
      let x = check_rate_limit py stages hash str inf limiter_clock clock open_ q in
      let closed =
        after_limit-Closes q x (omega (arith, h, ap (λ s. s.total_requests) same, ap counted same))
          passes in
      (
        closed.0,
        closed.1 ∙ ap (λ s. s.total_requests) same,
        closed.2 ∙ ap (λ s. s.rate_limited_requests) same,
      )
