-- ===== src/Gateway/TextMethods.antt =====
-- Requests of app/core/api_integration/gateway.py whose method is a text.
use korea_public_data_be.Base.{
  ℕ, ◌+◌, inl, inr, Bool, true, false, ◌&&◌, Option, none, String, ◌≡◌, ◌≢◌, refl, Bool-cases,
  string_eq,
}
use korea_public_data_be.RateLimit.Limiter.{RateLimiter}
use korea_public_data_be.Gateway.Defs.{text, method_value, is_get, ApiRequest, Attempt, Gateway}
use korea_public_data_be.Gateway.Routes.{Text}
use korea_public_data_be.Gateway.Process.{
  Stages, check_rate_limit, generate_cache_key, by_cache_key, check_cache, route_request, respond,
  serve, after_serve, after_cache, after_limit, process_request,
}
use korea_public_data_be.Gateway.Counts.{check_rate_limit-passes}

-- No transformers and no middleware
abbrev pub no_stages : Stages
no_stages = record {
  transform_request = none;
  process_request = none;
  transform_response = none;
  process_response = none;
}

module _ (py : Text) (hash : String → String) (str : ℕ → String) (inf : Option ℕ)
    (limiter_clock clock : ℕ → ℕ) where
  text_after_cache :
      (g : Gateway RateLimiter) (q : ApiRequest) (s : String)
      → q.method ≡ text s
      → (after_cache py no_stages hash str inf limiter_clock clock q
          (check_cache py no_stages hash str inf limiter_clock clock g q)).0.status_code
        ≡ 500
  unfolding check_cache generate_cache_key by_cache_key after_cache after_serve serve respond
      route_request method_value
  text_after_cache g q s e = elim (Bool-cases (q.cache_enabled && is_get q.method)) [
    | inl h ↦ rw h (rw e)
    | inr h ↦ rw h (rw e)
  ]

  text_after_limit :
      (q : ApiRequest) (s : String)
      → q.method ≡ text s
      → (x : Attempt Bool × Gateway RateLimiter) → x.0 ≢ inr false
      → (after_limit py no_stages hash str inf limiter_clock clock q x).0.status_code ≡ 500
  unfolding after_limit
  text_after_limit q s e (inl m, g) n = refl
  text_after_limit q s e (inr false, g) n = absurd (n refl)
  text_after_limit q s e (inr true, g) n = text_after_cache g q s e

  -- A gateway without transformers and middleware answers every request whose method was given, so
  -- that pydantic has turned it into a text, with an internal error, whatever its routes.
  pub text_method_fails :
      (g : Gateway RateLimiter) (q : ApiRequest) (s : String)
      → q.method ≡ text s
      → (process_request py no_stages hash str inf limiter_clock clock g q).0.status_code ≡ 500
  unfolding process_request
  text_method_fails g q s e =
      let open_ = record g {
        stats = record g.stats { total_requests = g.stats.total_requests + 1 };
      } in
      text_after_limit q s e
        (check_rate_limit py no_stages hash str inf limiter_clock clock open_ q)
        (check_rate_limit-passes py no_stages hash str inf limiter_clock clock open_ q).1
