-- ===== src/Gateway/Process.antt =====
-- APIGateway.process_request of app/core/api_integration/gateway.py. The transformers, the
-- middleware and the hash of the query parameters are outside; `clock i` is the i-th reading of the
-- clock by the gateway.
use korea_public_data_be.Base.{
  ℕ, ◌+◌, ◌-◌, inl, inr, Bool, true, false, ◌&&◌, Option, none, some, String, [], ◌∷◌, ltb, format,
  string_eq, if◌then◌else◌,
}
use korea_public_data_be.Dict
use korea_public_data_be.RateLimit.Config.{RateLimitResult, Result, ok, err}
use korea_public_data_be.RateLimit.Limiter.{RateLimiter, check_limit}
use korea_public_data_be.Gateway.Defs.{
  method_value, is_get, ApiRequest, ApiResponse, response, is_success, is_given, Attempt,
  RouteHandler, Gateway,
}
use korea_public_data_be.Gateway.Routes.{Text, find_handler}

-- The request and response transformers and the middleware manager, where the gateway has them
pub record Stages : Type 0 where
  pub transform_request : Option (ApiRequest → Attempt ApiRequest)
  pub process_request : Option (ApiRequest → Attempt ApiRequest)
  pub transform_response : Option (ApiResponse → Attempt ApiResponse)
  pub process_response : Option (ApiResponse → Attempt ApiResponse)

abbrev pub staged : {A : Type 0} → Option (A → Attempt A) → A → Attempt A
staged none a = inr a
staged (some f) a = f a

infixl 10 ◌>>=◌
abbrev pub ◌>>=◌ : {A B : Type 0} → Attempt A → (A → Attempt B) → Attempt B
inl e >>= f = inl e
inr a >>= f = f a

-- Python's truth of a RateLimitResult, which has neither __bool__ nor __len__
unfoldable pub is_true : RateLimitResult → Bool
is_true r = true

module _ (py : Text) (stages : Stages) (hash : String → String) (str : ℕ → String) (inf : Option ℕ)
    (limiter_clock clock : ℕ → ℕ) where
  -- The client, or the key, or "anonymous": an empty text is passed over.
  unfoldable pub client_of : ApiRequest → String
  unfolding is_given
  client_of q =
      if is_given q.client_id
      then elim q.client_id [ some c ↦ c | none ↦ "anonymous" ]
      else if is_given q.api_key
      then elim q.api_key [ some k ↦ k | none ↦ "anonymous" ]
      else "anonymous"

  unfoldable pub after_check :
      Gateway RateLimiter
      → Result RateLimitResult × RateLimiter
      → Attempt Bool × Gateway RateLimiter
  unfolding is_true
  after_check g (ok r, l) = (inr (is_true r), record g { rate_limiter = some l })
  after_check g (err e, l) = (inl "rate limiter", record g { rate_limiter = some l })

  -- _check_rate_limit; without a limiter it is not called.
  unfoldable pub check_rate_limit :
      Gateway RateLimiter → ApiRequest → Attempt Bool × Gateway RateLimiter
  unfolding after_check client_of
  check_rate_limit g q = elim g.rate_limiter [
    | none ↦ (inr true, g)
    | some l ↦ after_check g (check_limit str inf l (client_of q) q.path "" "default" limiter_clock)
  ]

  unfoldable pub generate_cache_key : ApiRequest → Attempt String
  unfolding method_value
  generate_cache_key q = elim (method_value q.method) [
    | none ↦ inl "'str' object has no attribute 'value'"
    | some m ↦ inr (format (m ∷ ":" ∷ q.path ∷ ":" ∷ hash q.query ∷ []))
  ]

  -- An entry that is found: it is used while it is younger than the limit, else removed.
  unfoldable pub found_entry :
      Gateway RateLimiter → String → Option ApiResponse → Option ApiResponse × Gateway RateLimiter
  found_entry g key none = (none, g)
  found_entry g key (some r) =
      let hit = record r { cache_hit = true } in
      if ltb (clock 1 - r.timestamp) g.cache_ttl
      then (some hit, record g { response_cache = Dict.put g.response_cache key hit })
      else (none, record g { response_cache = Dict.remove g.response_cache key })

  unfoldable pub by_cache_key :
      Gateway RateLimiter → Attempt String → Attempt (Option ApiResponse) × Gateway RateLimiter
  unfolding found_entry
  by_cache_key g (inl e) = (inl e, g)
  by_cache_key g (inr key) =
      let (entry, g') = found_entry g key (Dict.get g.response_cache key) in (inr entry, g')

  unfoldable pub check_cache :
      Gateway RateLimiter → ApiRequest → Attempt (Option ApiResponse) × Gateway RateLimiter
  unfolding generate_cache_key by_cache_key
  check_cache g q =
      if q.cache_enabled && is_get q.method
      then by_cache_key g (generate_cache_key q)
      else (inr none, g)

  abbrev handled : ApiRequest → Attempt ApiResponse → ApiResponse
  handled q (inr r) = r
  handled q (inl e) =
      response q.request_id (clock 2) 500 (some (format ("Handler error: " ∷ e ∷ [])))

  abbrev by_handler : ApiRequest → String → Option RouteHandler → ApiResponse
  by_handler q m none =
      response q.request_id (clock 2) 404
        (some (format ("Route not found: " ∷ m ∷ " " ∷ q.path ∷ [])))
  by_handler q m (some h) = handled q (h.handler_func (clock 2) q)

  unfoldable pub route_request : Gateway RateLimiter → ApiRequest → Attempt ApiResponse
  unfolding method_value
  route_request g q = elim (method_value q.method) [
    | none ↦ inl "'str' object has no attribute 'value'"
    | some m ↦ inr (by_handler q m (find_handler py g.routes m q.path))
  ]

  -- From the route to the response middleware
  unfoldable pub respond : Gateway RateLimiter → ApiRequest → Attempt ApiResponse
  unfolding route_request
  respond g q = do
    r ← route_request g q
    r1 ← staged stages.transform_response r
    staged stages.process_response r1

  abbrev after_transform :
      Gateway RateLimiter → ApiRequest → Attempt ApiRequest → ApiRequest × Attempt ApiResponse
  unfolding respond
  after_transform g q (inl e) = (q, inl e)
  after_transform g q (inr q') = (q', respond g q')

  -- With the request stages before it, and the request as it was last assigned
  unfoldable pub serve : Gateway RateLimiter → ApiRequest → ApiRequest × Attempt ApiResponse
  unfolding after_transform
  serve g q = elim (staged stages.transform_request q) [
    | inl e ↦ (q, inl e)
    | inr q1 ↦ after_transform g q1 (staged stages.process_request q1)
  ]

  abbrev pub count_failed : Gateway RateLimiter → Gateway RateLimiter
  count_failed g = record g {
    stats = record g.stats { failed_requests = g.stats.failed_requests + 1 };
  }

  abbrev pub count_success : Gateway RateLimiter → Gateway RateLimiter
  count_success g = record g {
    stats = record g.stats { successful_requests = g.stats.successful_requests + 1 };
  }

  -- _cache_response
  unfoldable pub cache_response :
      Gateway RateLimiter → ApiRequest → ApiResponse → Attempt (Gateway RateLimiter)
  cache_response g q r =
      if is_get q.method && is_success r
      then (generate_cache_key q >>= λ key.
          inr (record g { response_cache = Dict.put g.response_cache key r }))
      else inr g

  -- The `except` of process_request
  abbrev pub gateway_error :
      Gateway RateLimiter → ApiRequest → String → ApiResponse × Gateway RateLimiter
  gateway_error g q e = (
    record (response q.request_id (clock 3) 500
        (some (format ("Internal gateway error: " ∷ e ∷ [])))) {
          processing_time = clock 3 - clock 0;
        },
    count_failed g,
  )

  abbrev pub count_response : Gateway RateLimiter → ApiResponse → Gateway RateLimiter
  count_response g r = if is_success r then count_success g else count_failed g

  -- After the caching
  abbrev pub settle :
      Gateway RateLimiter
      → ApiRequest
      → ApiResponse
      → Attempt (Gateway RateLimiter)
      → ApiResponse × Gateway RateLimiter
  settle g q r (inl e) = gateway_error g q e
  settle g q r (inr g') = (r, count_response g' r)

  abbrev pub cache_if_enabled :
      Gateway RateLimiter → ApiRequest → ApiResponse → Attempt (Gateway RateLimiter)
  cache_if_enabled g q r = if q.cache_enabled && is_success r then cache_response g q r else inr g

  -- After the routing, with the request as it then is. The time that the response is given last
  -- shows in the cache too, as it is the same object.
  unfoldable pub finish :
      Gateway RateLimiter → ApiRequest → ApiResponse → ApiResponse × Gateway RateLimiter
  finish g q r =
      let timed = record r { processing_time = clock 3 - clock 0 } in
      settle g q timed (cache_if_enabled g q timed)

  unfoldable pub after_serve :
      Gateway RateLimiter → ApiRequest × Attempt ApiResponse → ApiResponse × Gateway RateLimiter
  unfolding finish
  after_serve g (q, inl e) = gateway_error g q e
  after_serve g (q, inr r) = finish g q r

  unfoldable pub after_cache :
      ApiRequest
      → Attempt (Option ApiResponse) × Gateway RateLimiter
      → ApiResponse × Gateway RateLimiter
  unfolding serve after_serve
  after_cache q (inl e, g) = gateway_error g q e
  after_cache q (inr none, g) = after_serve g (serve g q)
  after_cache q (inr (some hit), g) =
      (hit, record g { stats = record g.stats { cached_responses = g.stats.cached_responses + 1 } })

  unfoldable pub after_limit :
      ApiRequest → Attempt Bool × Gateway RateLimiter → ApiResponse × Gateway RateLimiter
  unfolding after_cache check_cache
  after_limit q (inl e, g) = gateway_error g q e
  after_limit q (inr false, g) = (
    record (response q.request_id (clock 3) 429 (some "Rate limit exceeded")) {
      processing_time = clock 3 - clock 0;
    },
    record g {
      stats = record g.stats { rate_limited_requests = g.stats.rate_limited_requests + 1 };
    },
  )
  after_limit q (inr true, g) = after_cache q (check_cache g q)

  unfoldable pub process_request :
      Gateway RateLimiter → ApiRequest → ApiResponse × Gateway RateLimiter
  unfolding after_limit check_rate_limit
  process_request g q =
      let counted = record g {
        stats = record g.stats { total_requests = g.stats.total_requests + 1 };
      } in
      after_limit q (check_rate_limit counted q)

unfoldable pub clear_cache : {Limiter : Type 0} → Gateway Limiter → Gateway Limiter
clear_cache g = record g { response_cache = [] }
