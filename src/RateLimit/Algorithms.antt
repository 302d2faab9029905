-- ===== src/RateLimit/Algorithms.antt =====
-- The algorithms of app/core/api_integration/rate_limiting.py over the in-memory storage.
-- `clock i` is what the i-th call of `time.time()` during the check returns, the storage's own
-- calls counted; `str` is Python's `str` of a number.
use korea_public_data_be.Base.{
  ℕ, zero, suc, ◌+◌, ◌-◌, ◌*◌, ◌/◌, ◌%◌, min, true, false, ◌&&◌, Option, none, some, String, List,
  [], ◌∷◌, ltb, leb, eqb, length, format, string_eq, if◌then◌else◌,
}
use mathlib.Core.List
use korea_public_data_be.Dict
use korea_public_data_be.RateLimit.Config.{
  second, RateLimit, RateLimitResult, window, zero_division, clock_back, Result, ok, err,
}
use korea_public_data_be.RateLimit.Storage.{
  Storage, get_count, increment, set_count, get_timestamps, add_timestamp, cleanup_expired,
}

-- `limit.burst_limit or limit.limit`
unfoldable pub max_tokens : RateLimit → ℕ
max_tokens l = elim l.burst_limit [ none ↦ l.limit | some b ↦ if eqb b 0 then l.limit else b ]

-- The tokens of the bucket after the refill, `elapsed` microseconds after the last one.
unfoldable pub refilled : RateLimit → ℕ → ℕ → ℕ
unfolding max_tokens
refilled l tokens elapsed = min (max_tokens l) (tokens + elapsed * l.limit / window l)

-- What a refilled bucket answers, and the tokens that it keeps.
token_result : RateLimit → ℕ → ℕ → Result RateLimitResult
token_result l now tokens =
    let allowed = leb 1 tokens in
    let remaining = if allowed then tokens - 1 else 0 in
    if eqb remaining 0 && eqb l.limit 0
    then err zero_division
    else ok (record {
      allowed = allowed;
      limit = l.limit;
      remaining = remaining;
      reset_time = if eqb remaining 0 then now + window l / l.limit else now + window l;
      retry_after = if allowed then none else some 1;
      headers = [];
    })

-- The second half of the check, from the elapsed time on.
unfoldable pub serve_token :
    String → RateLimit → (ℕ → ℕ) → Storage → ℕ → ℕ → Result RateLimitResult × Storage
unfolding token_result
serve_token key l clock s current elapsed =
    let now = clock 0 in
    let tokens = refilled l current elapsed in
    let left = if leb 1 tokens then tokens - 1 else tokens in
    let s' = set_count s (clock 3) (format ("tb:" ∷ key ∷ [])) left (l.window_seconds * 2) in
    let s'' =
      set_count s' (clock 4) (format ("tb:last:" ∷ key ∷ [])) (now / second)
        (l.window_seconds * 2) in
    (token_result l now tokens, s'')

-- TokenBucketAlgorithm.check_limit. A recorded refill at second 0 counts as none.
unfoldable pub check_token_bucket :
    String → RateLimit → (ℕ → ℕ) → Storage → Result RateLimitResult × Storage
check_token_bucket key l clock s =
    let now = clock 0 in
    let (current, s1) = get_count s (clock 1) (format ("tb:" ∷ key ∷ [])) in
    let (recorded, s2) = get_count s1 (clock 2) (format ("tb:last:" ∷ key ∷ [])) in
    let last_refill = if eqb recorded 0 then now else recorded * second in
    if eqb l.window_seconds 0
    then (err zero_division, s2)
    else if ltb now last_refill
    then (err clock_back, s2)
    else serve_token key l clock s2 current (now - last_refill)

module _ (str : ℕ → String) where
  -- The key of the window with the given index.
  unfoldable pub window_key : String → ℕ → String
  window_key key index = format ("sw:" ∷ key ∷ ":" ∷ str index ∷ [])

  -- The window before the one with index 0 has index -1.
  unfoldable pub prev_window_key : String → ℕ → String
  unfolding window_key
  prev_window_key key zero = format ("sw:" ∷ key ∷ ":-1" ∷ [])
  prev_window_key key (suc index) = window_key key index

  -- `int(prev_count * (1 - weight) + current_count)`, `t` microseconds into the window.
  unfoldable pub estimate : RateLimit → ℕ → ℕ → ℕ → ℕ
  estimate l prev current t = (prev * (window l - t) + current * window l) / window l

  -- The branch on the estimate.
  decide_window : String → RateLimit → (ℕ → ℕ) → Storage → ℕ → Result RateLimitResult × Storage
  unfolding window_key
  decide_window key l clock s estimated =
      let now = clock 0 in
      let index = now / window l in
      let (_, s') = increment s (clock 3) (window_key key index) (l.window_seconds * 2) in
      if leb l.limit estimated
      then (
        ok (record {
          allowed = false;
          limit = l.limit;
          remaining = 0;
          reset_time = (index + 1) * window l;
          retry_after = some ((window l - now % window l) / second + 1);
          headers = [];
        }),
        s,
      )
      else (
        ok (record {
          allowed = true;
          limit = l.limit;
          remaining = l.limit - estimated - 1;
          reset_time = (index + 1) * window l;
          retry_after = none;
          headers = [];
        }),
        s',
      )

  -- SlidingWindowAlgorithm.check_limit
  unfoldable pub check_sliding_window :
      String → RateLimit → (ℕ → ℕ) → Storage → Result RateLimitResult × Storage
  unfolding window_key prev_window_key estimate decide_window
  check_sliding_window key l clock s =
      let now = clock 0 in
      let index = now / window l in
      let (current, s1) = get_count s (clock 1) (window_key key index) in
      let (prev, s2) = get_count s1 (clock 2) (prev_window_key key index) in
      if eqb l.window_seconds 0
      then (err zero_division, s)
      else decide_window key l clock s2 (estimate l prev current (now % window l))

-- Python's `min` of a list with a first element.
unfoldable pub min_of : ℕ → List ℕ → ℕ
min_of m [] = m
min_of m (t ∷ ts) = min_of (min m t) ts

unfoldable pub oldest : ℕ → List ℕ → ℕ
unfolding min_of
oldest now [] = now
oldest now (t ∷ ts) = min_of t ts

-- The list that `get_timestamps` returned, after `add_timestamp`: where the key was present it is
-- the stored list itself, to which the new instant has been appended.
seen_after : Option (List ℕ) → List ℕ → ℕ → List ℕ
seen_after none ts now = ts
seen_after (some _) ts now = List.◌++◌ ts (now ∷ [])

-- SlidingWindowLogAlgorithm.check_limit
unfoldable pub check_sliding_log : String → RateLimit → ℕ → Storage → RateLimitResult × Storage
unfolding oldest seen_after
check_sliding_log key l now s =
    let s1 = cleanup_expired s key now (window l) in
    let ts = get_timestamps s1 key in
    let seen = seen_after (Dict.get s1.stamps key) ts now in
    if leb l.limit (length ts)
    then (
      record {
        allowed = false;
        limit = l.limit;
        remaining = 0;
        reset_time = oldest now ts + window l;
        retry_after = some ((oldest now ts + window l - now) / second + 1);
        headers = [];
      },
      s1,
    )
    else (
      record {
        allowed = true;
        limit = l.limit;
        remaining = l.limit - length ts - 1;
        reset_time = oldest now seen + window l;
        retry_after = none;
        headers = [];
      },
      add_timestamp s1 key now l.window_seconds,
    )
