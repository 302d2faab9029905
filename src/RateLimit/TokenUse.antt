-- ===== src/RateLimit/TokenUse.antt =====
-- The token bucket: the bound that it keeps, how it starts, and how it refills within a second.
use korea_public_data_be.Base.{
  ℕ, ◌⊎◌, inl, inr, Bool-cases, zero, suc, ◌+◌, ◌-◌, ◌*◌, ◌/◌, ◌%◌, ◌≤◌, ◌<◌, ◌≡◌, refl, ap, true,
  false, none, some, String, [], ◌∷◌, arith, eqb, ltb, format, if◌then◌else◌, string_eq,
}
use korea_public_data_be.Dict
use korea_public_data_be.Dict.{get-put_self}
use korea_public_data_be.RateLimit.Config.{second, RateLimit, RateLimitResult, window, ok}
use korea_public_data_be.RateLimit.Storage.{Storage, get_count, set_count}
use korea_public_data_be.RateLimit.Algorithms.{
  max_tokens, refilled, serve_token, check_token_bucket,
}
use korea_public_data_be.RateLimit.Counters.{Holds, used, get_count-Holds, get_count-Holds_other}
use korea_public_data_be.RateLimit.QuotaUse.{is_allowed, count_if}

abbrev pub bucket_key : String → String
bucket_key key = format ("tb:" ∷ key ∷ [])

abbrev pub refill_key : String → String
refill_key key = format ("tb:last:" ∷ key ∷ [])

one-le-div : (a b : ℕ) → 0 < b → b ≤ a → 1 ≤ a / b
one-le-div a b p h = grind arith

module _ (key : String) (l : RateLimit) where
  refilled-le : (tokens elapsed : ℕ) → refilled l tokens elapsed ≤ max_tokens l
  unfolding refilled
  refilled-le tokens elapsed = omega arith

  refilled-zero : refilled l 0 0 ≡ 0
  unfolding refilled
  refilled-zero = omega arith

  serve_empty :
      (clock : ℕ → ℕ) (s : Storage)
      → is_allowed (serve_token key l clock s 0 (clock 0 - clock 0)).0 ≡ false
  unfolding serve_token
  serve_empty clock s =
      let none_elapsed : clock 0 - clock 0 ≡ 0 = omega arith in
      rw (none_elapsed, refilled-zero) (ground arith)

  serve_bounds :
      (clock : ℕ → ℕ) (s : Storage) (current elapsed : ℕ) (r : RateLimitResult)
      → (serve_token key l clock s current elapsed).0 ≡ ok r
      → (r.allowed ≡ true → r.remaining < max_tokens l)
        × (r.allowed ≡ false → (r.remaining ≡ 0) × (r.retry_after ≡ some 1))
  unfolding serve_token
  serve_bounds clock s current elapsed r h = ground (arith, refilled-le current elapsed)

  -- What a check lets through and what it refuses
  abbrev pub Served : RateLimitResult → Type 0
  Served r =
      ((r.allowed ≡ true) × (r.remaining < max_tokens l))
      ⊎ ((r.allowed ≡ false) × (r.remaining ≡ 0) × (r.retry_after ≡ some 1))

  checked_bounds :
      (clock : ℕ → ℕ) (s : Storage) (r : RateLimitResult)
      → (check_token_bucket key l clock s).0 ≡ ok r
      → (r.allowed ≡ true → r.remaining < max_tokens l)
        × (r.allowed ≡ false → (r.remaining ≡ 0) × (r.retry_after ≡ some 1))
  unfolding check_token_bucket
  checked_bounds clock s r h =
      let (current, s1) = get_count s (clock 1) (bucket_key key) in
      let (recorded, s2) = get_count s1 (clock 2) (refill_key key) in
      let last : ℕ = if eqb recorded 0 then clock 0 else recorded * second in
      ground (arith, serve_bounds clock s2 current (clock 0 - last) r)

  -- A bucket hands out no more than it can hold: whatever the storage and the clock, a request
  -- that is let through leaves fewer than `max_tokens`, and one that is refused leaves none and is
  -- told to wait a second.
  pub check_token_bucket_bounds :
      (clock : ℕ → ℕ) (s : Storage) (r : RateLimitResult)
      → (check_token_bucket key l clock s).0 ≡ ok r
      → Served r
  check_token_bucket_bounds clock s r h =
      let bounds = checked_bounds clock s r h in
      elim (Bool-cases r.allowed) [
        | inl e ↦ inl (e, bounds.0 e)
        | inr e ↦ inr (e, (bounds.1 e).0, (bounds.1 e).1)
      ]

  -- The first request of a key is refused, whatever the limit and the burst limit: a bucket starts
  -- empty and not full.
  pub first_request_refused :
      (clock : ℕ → ℕ) (s : Storage)
      → Dict.get s.counts (bucket_key key) ≡ none
      → Dict.get s.counts (refill_key key) ≡ none
      → is_allowed (check_token_bucket key l clock s).0 ≡ false
  unfolding check_token_bucket get_count
  first_request_refused clock s hb hl = rw (hb, hl) (ground (arith, serve_empty clock s))

  -- Requests at one instant, one after the other: how many are allowed.
  unfoldable pub allowed_at : ℕ → ℕ → Storage → ℕ
  allowed_at t zero s = 0
  allowed_at t (suc n) s =
      let (res, s') = check_token_bucket key l (λ _. t) s in
      count_if (is_allowed res) (allowed_at t n s')

  module _ (t : ℕ) (p : 0 < l.window_seconds) (q : window l ≤ t % second * l.limit)
      (m : 0 < max_tokens l) (e : second ≤ t) where
    refilled-pos : (tokens : ℕ) → 0 < refilled l tokens (t - t / second * second)
    unfolding refilled
    refilled-pos tokens =
        let fraction : t - t / second * second ≡ t % second = omega arith in
        rw fraction (omega (arith, one-le-div (t % second * l.limit) (window l) (omega arith) q))

    serve_again :
        (s : Storage) (tokens : ℕ)
        → let (res, s') = serve_token key l (λ _. t) s tokens (t - t / second * second) in
          (is_allowed res ≡ true) × Holds s' (refill_key key) t (t / second)
    unfolding serve_token set_count
    serve_again s tokens = (
      ground (arith, refilled-pos tokens),
      used (record { count = t / second; expires_at = t + l.window_seconds * 2 * second })
          (get-put_self _ (refill_key key) _) refl (omega arith),
    )

    step_again :
        (s : Storage)
        → Holds s (refill_key key) t (t / second)
        → let (res, s') = check_token_bucket key l (λ _. t) s in
          (is_allowed res ≡ true) × Holds s' (refill_key key) t (t / second)
    unfolding check_token_bucket
    step_again s h =
        let recorded : eqb (t / second) 0 ≡ false = ground arith in
        let some_window : eqb l.window_seconds 0 ≡ false = ground arith in
        let forward : ltb t (t / second * second) ≡ false = ground arith in
        rw
          (
            get_count-Holds t (get_count-Holds_other t (bucket_key key) h (omega arith))
                (omega arith),
            recorded,
            some_window,
            forward,
          )
          (serve_again (get_count s t (bucket_key key)).1 (get_count s t (bucket_key key)).0)

    -- Where the part of a second that has passed at `t` is worth a token, and a refill is on record
    -- in that second, every one of n requests at the instant `t` is allowed, whatever the burst
    -- limit: the second's fraction is counted again at each request. (The window and the capacity
    -- are positive, and `t` is past the first second.)
    pub unlimited_burst :
        (n : ℕ) (s : Storage) → Holds s (refill_key key) t (t / second) → allowed_at t n s ≡ n
    unfolding allowed_at
    unlimited_burst zero s h = refl
    unlimited_burst (suc n) s h =
        let (granted, again) = step_again s h in
        rw granted (ap suc (unlimited_burst n (check_token_bucket key l (λ _. t) s).1 again))
