-- ===== src/Gateway/Cached.antt =====
-- The response cache of app/core/api_integration/gateway.py.
use korea_public_data_be.Base.{
  All, subst, ℕ, ◌+◌, ◌-◌, ◌⊎◌, inl, inr, Bool, true, false, ◌&&◌, Option, none, some, String, ltb,
  ◌≡◌, refl, sym, ap, arith, Bool-cases, Option-cases, string_eq,
}
use korea_public_data_be.Dict
use korea_public_data_be.Dict.{put-All, remove-All, All-get}
use korea_public_data_be.RateLimit.Config.{RateLimitResult, Result, ok, err}
use korea_public_data_be.RateLimit.Limiter.{RateLimiter}
use korea_public_data_be.Gateway.Defs.{
  is_get, ApiRequest, ApiResponse, is_success, Attempt, Stats, Gateway,
}
use korea_public_data_be.Gateway.Routes.{Text}
use korea_public_data_be.Gateway.Process.{
  Stages, check_rate_limit, after_check, generate_cache_key, found_entry, by_cache_key, check_cache,
  serve, cache_response, cache_if_enabled, settle, finish, after_serve, after_cache, after_limit,
  process_request, ◌>>=◌,
}
use korea_public_data_be.Gateway.Counts.{check_rate_limit-passes}

-- Every response in the cache is a success.
abbrev pub IsCacheValid : Gateway RateLimiter → Type 0
IsCacheValid g = All (λ e. is_success e.1 ≡ true) g.response_cache

module _ (py : Text) (stages : Stages) (hash : String → String) (str : ℕ → String) (inf : Option ℕ)
    (limiter_clock clock : ℕ → ℕ) where
  -- The cache stays valid, and an answer from it is a success.
  abbrev pub Answers : Stats → ApiResponse × Gateway RateLimiter → Type 0
  Answers st r =
      IsCacheValid r.1
      × ((r.1.stats.cached_responses ≡ st.cached_responses)
          ⊎ ((r.1.stats.cached_responses ≡ st.cached_responses + 1)
              × (is_success r.0 ≡ true)
              × (r.0.cache_hit ≡ true)))

  abbrev Good : ApiResponse → Type 0
  Good r = is_success r ≡ true

  inr-injective : {A : Type 0} {a b : A} → ◌≡◌ {A = Attempt A} (inr a) (inr b) → a ≡ b
  inr-injective {A} {a} e = ap (λ x. elim x [ inl _ ↦ a | inr c ↦ c ]) e

  keyed-Valid :
      (g : Gateway RateLimiter) (r : ApiResponse) (key : Attempt String) (g' : Gateway RateLimiter)
      → IsCacheValid g
      → Good r
      → (key >>= λ k. inr (record g { response_cache = Dict.put g.response_cache k r })) ≡ inr g'
      → IsCacheValid g' × (g'.stats ≡ g.stats)
  keyed-Valid g r (inl e) g' v good h = cc
  keyed-Valid g r (inr k) g' v good h =
      subst (λ x. IsCacheValid x × (x.stats ≡ g.stats)) (inr-injective h)
        (put-All (λ e. Good e.1) g.response_cache k r v good, refl)

  same-Valid :
      (g g' : Gateway RateLimiter)
      → IsCacheValid g
      → ◌≡◌ {A = Attempt (Gateway RateLimiter)} (inr g) (inr g')
      → IsCacheValid g' × (g'.stats ≡ g.stats)
  same-Valid g g' v h =
      subst (λ x. IsCacheValid x × (x.stats ≡ g.stats)) (inr-injective h) (v, refl)

  cache_response-Valid :
      (g : Gateway RateLimiter) (q : ApiRequest) (r : ApiResponse) (g' : Gateway RateLimiter)
      → IsCacheValid g
      → Good r
      → cache_response py stages hash str inf limiter_clock clock g q r ≡ inr g'
      → IsCacheValid g' × (g'.stats ≡ g.stats)
  unfolding cache_response
  cache_response-Valid g q r g' v good h = elim (Bool-cases (is_get q.method && is_success r)) [
    | inl e ↦
        keyed-Valid g r (generate_cache_key py stages hash str inf limiter_clock clock q) g' v good
          (rw e at h)
    | inr e ↦ same-Valid g g' v (rw e at h)
  ]

  and-right : (a b : Bool) → (a && b) ≡ true → b ≡ true
  and-right a b h = ground arith

  cache_if_enabled-Valid :
      (g : Gateway RateLimiter) (q : ApiRequest) (r : ApiResponse) (g' : Gateway RateLimiter)
      → IsCacheValid g
      → cache_if_enabled py stages hash str inf limiter_clock clock g q r ≡ inr g'
      → IsCacheValid g' × (g'.stats ≡ g.stats)
  cache_if_enabled-Valid g q r g' v h = elim (Bool-cases (q.cache_enabled && is_success r)) [
    | inr e ↦ same-Valid g g' v (rw e at h)
    | inl e ↦
        cache_response-Valid g q r g' v (and-right q.cache_enabled (is_success r) e) (rw e at h)
  ]

  settle-Answers :
      (g : Gateway RateLimiter) (q : ApiRequest) (r : ApiResponse)
      (kept : Attempt (Gateway RateLimiter))
      → IsCacheValid g
      → ((g' : Gateway RateLimiter) → kept ≡ inr g' → IsCacheValid g' × (g'.stats ≡ g.stats))
      → Answers g.stats (settle py stages hash str inf limiter_clock clock g q r kept)
  settle-Answers g q r (inl e) v same = (v, inl refl)
  settle-Answers g q r (inr g') v same =
      let (valid, st) = same g' refl in
      elim (Bool-cases (is_success r)) [
        | inl e ↦ rw e (valid, inl (ap (λ s. s.cached_responses) st))
        | inr e ↦ rw e (valid, inl (ap (λ s. s.cached_responses) st))
      ]

  after_serve-Answers :
      (g : Gateway RateLimiter) (p : ApiRequest × Attempt ApiResponse)
      → IsCacheValid g
      → Answers g.stats (after_serve py stages hash str inf limiter_clock clock g p)
  unfolding after_serve finish
  after_serve-Answers g (q, inl e) v = (v, inl refl)
  after_serve-Answers g (q, inr r) v =
      let timed = record r { processing_time = clock 3 - clock 0 } in
      settle-Answers g q timed
        (cache_if_enabled py stages hash str inf limiter_clock clock g q timed) v
        (λ g' e. cache_if_enabled-Valid g q timed g' v e)

  -- What check_cache comes to
  abbrev Looked : Gateway RateLimiter → Attempt (Option ApiResponse) × Gateway RateLimiter → Type 0
  Looked g x =
      IsCacheValid x.1
      × (x.1.stats ≡ g.stats)
      × ((r : ApiResponse) → x.0 ≡ inr (some r) → Good r × (r.cache_hit ≡ true))

  hit_of :
      {a b : ApiResponse}
      → ◌≡◌ {A = Attempt (Option ApiResponse)} (inr (some a)) (inr (some b))
      → a ≡ b
  hit_of {a} h = ap (λ o. elim o [ none ↦ a | some x ↦ x ]) (inr-injective h)

  found_entry-Looked :
      (g : Gateway RateLimiter) (key : String) (o : Option ApiResponse)
      → IsCacheValid g
      → Dict.get g.response_cache key ≡ o
      → let x = found_entry py stages hash str inf limiter_clock clock g key o in
        Looked g (inr x.0, x.1)
  unfolding found_entry is_success
  found_entry-Looked g key none v e = (v, refl, λ r h. cc)
  found_entry-Looked g key (some r) v e =
      let good = All-get (λ e. Good e.1) g.response_cache key r v e in
      let hit = record r { cache_hit = true } in
      elim (Bool-cases (ltb (clock 1 - r.timestamp) g.cache_ttl)) [
        | inl young ↦ rw young (
          put-All (λ e. Good e.1) g.response_cache key hit v good,
          refl,
          λ s h. subst (λ x. Good x × (x.cache_hit ≡ true)) (hit_of h) (good, refl),
        )
        | inr old ↦ rw old (remove-All (λ e. Good e.1) g.response_cache key v, refl, λ s h. cc)
      ]

  by_cache_key-Looked :
      (g : Gateway RateLimiter) (key : Attempt String)
      → IsCacheValid g
      → Looked g (by_cache_key py stages hash str inf limiter_clock clock g key)
  unfolding by_cache_key
  by_cache_key-Looked g (inl e) v = (v, refl, λ r h. cc)
  by_cache_key-Looked g (inr key) v =
      found_entry-Looked g key (Dict.get g.response_cache key) v refl

  check_cache-Looked :
      (g : Gateway RateLimiter) (q : ApiRequest)
      → IsCacheValid g
      → Looked g (check_cache py stages hash str inf limiter_clock clock g q)
  unfolding check_cache
  check_cache-Looked g q v = elim (Bool-cases (q.cache_enabled && is_get q.method)) [
    | inl e ↦
        rw e (
          by_cache_key-Looked g (generate_cache_key py stages hash str inf limiter_clock clock q) v)
    | inr e ↦ rw e (v, refl, λ r h. cc)
  ]

  after_cache-Answers :
      (g : Gateway RateLimiter) (q : ApiRequest)
      (x : Attempt (Option ApiResponse) × Gateway RateLimiter)
      → Looked g x
      → Answers x.1.stats (after_cache py stages hash str inf limiter_clock clock q x)
  unfolding after_cache
  after_cache-Answers g q (inl e, g') l = (l.0, inl refl)
  after_cache-Answers g q (inr none, g') l =
      after_serve-Answers g' (serve py stages hash str inf limiter_clock clock g' q) l.0
  after_cache-Answers g q (inr (some hit), g') l =
      (l.0, inr (refl, (l.2 hit refl).0, (l.2 hit refl).1))

  after_limit-Answers :
      (q : ApiRequest) (x : Attempt Bool × Gateway RateLimiter)
      → IsCacheValid x.1
      → Answers x.1.stats (after_limit py stages hash str inf limiter_clock clock q x)
  unfolding after_limit
  after_limit-Answers q (inl e, g) v = (v, inl refl)
  after_limit-Answers q (inr false, g) v = (v, inl refl)
  after_limit-Answers q (inr true, g) v =
      let looked = check_cache-Looked g q v in
      let after =
        after_cache-Answers g q (check_cache py stages hash str inf limiter_clock clock g q)
          looked in
      subst
        (λ st. Answers st (after_limit py stages hash str inf limiter_clock clock q (inr true, g)))
        looked.1 after

  after_check-cache :
      (g : Gateway RateLimiter) (x : Result RateLimitResult × RateLimiter)
      → (after_check py stages hash str inf limiter_clock clock g x).1.response_cache
        ≡ g.response_cache
  unfolding after_check
  after_check-cache g (ok r, l) = refl
  after_check-cache g (err e, l) = refl

  check_rate_limit-cache :
      (g : Gateway RateLimiter) (q : ApiRequest)
      → (check_rate_limit py stages hash str inf limiter_clock clock g q).1.response_cache
        ≡ g.response_cache
  unfolding check_rate_limit
  check_rate_limit-cache g q = elim (Option-cases g.rate_limiter) [
    | inl e ↦ rw e
    | inr (l, e) ↦ rw e (after_check-cache g _)
  ]

  -- While every response in the cache is a success, processing a request keeps it so, and a request
  -- that is counted as answered from the cache gets a success that is marked as a cache hit.
  pub process_request-IsCacheValid :
      (g : Gateway RateLimiter) (q : ApiRequest)
      → IsCacheValid g
      → Answers g.stats (process_request py stages hash str inf limiter_clock clock g q)
  unfolding process_request
  process_request-IsCacheValid g q v =
      let open_ = record g {
        stats = record g.stats { total_requests = g.stats.total_requests + 1 };
      } in
      let x = check_rate_limit py stages hash str inf limiter_clock clock open_ q in
      let same = check_rate_limit-passes py stages hash str inf limiter_clock clock open_ q in
      let cache = check_rate_limit-cache open_ q in
      subst
        (λ st.
          Answers (record g.stats { cached_responses = st.cached_responses })
            (after_limit py stages hash str inf limiter_clock clock q x))
        same.0 (after_limit-Answers q x (subst (λ c. All (λ e. Good e.1) c) (sym cache) v))
