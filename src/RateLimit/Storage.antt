-- ===== src/RateLimit/Storage.antt =====
-- MemoryRateLimitStorage of app/core/api_integration/rate_limiting.py. Each method takes the store
-- and returns it beside its result; one that calls `time.time()` takes the instant that it reads.
use korea_public_data_be.Base.{
  ℕ, ◌+◌, ◌*◌, Bool, Option, none, some, String, List, [], ◌∷◌, ◌++◌, ltb, keep, string_eq,
  if◌then◌else◌,
}
use korea_public_data_be.Dict
use korea_public_data_be.Dict.{Dict}
use korea_public_data_be.RateLimit.Config.{second}

-- The entries of `_counts`.
pub record Counter : Type 0 where
  pub count : ℕ
  pub expires_at : ℕ

pub record Storage : Type 0 where
  pub counts : Dict String Counter
  pub stamps : Dict String (List ℕ)

unfoldable pub empty : Storage
empty = record { counts = []; stamps = [] }

live_count : Storage → String → ℕ → Option Counter → ℕ × Storage
live_count s key now none = (0, s)
live_count s key now (some c) =
    if ltb c.expires_at now
    then (0, record s { counts = Dict.remove s.counts key })
    else (c.count, s)

unfoldable pub get_count : Storage → ℕ → String → ℕ × Storage
unfolding live_count
get_count s now key = live_count s key now (Dict.get s.counts key)

-- The entry that `increment` counts up: a new one if there is none or it has expired.
current_entry : ℕ → ℕ → Option Counter → Counter
current_entry now ttl none = record { count = 0; expires_at = now + ttl * second }
current_entry now ttl (some c) =
    if ltb c.expires_at now then record { count = 0; expires_at = now + ttl * second } else c

unfoldable pub increment : Storage → ℕ → String → ℕ → ℕ × Storage
unfolding current_entry
increment s now key ttl =
    let c = current_entry now ttl (Dict.get s.counts key) in
    let c' : Counter = record c { count = c.count + 1 } in
    (c'.count, record s { counts = Dict.put s.counts key c' })

unfoldable pub set_count : Storage → ℕ → String → ℕ → ℕ → Storage
set_count s now key count ttl = record s {
  counts = Dict.put s.counts key (record { count = count; expires_at = now + ttl * second });
}

or_empty : Option (List ℕ) → List ℕ
or_empty none = []
or_empty (some ts) = ts

unfoldable pub get_timestamps : Storage → String → List ℕ
unfolding or_empty
get_timestamps s key = or_empty (Dict.get s.stamps key)

-- Is `t` later than `cutoff - span`? Written without the subtraction, which may be negative.
abbrev pub is_after : ℕ → ℕ → ℕ → Bool
is_after cutoff span t = ltb cutoff (t + span)

unfoldable pub add_timestamp : Storage → String → ℕ → ℕ → Storage
unfolding get_timestamps
add_timestamp s key timestamp window_seconds = record s {
  stamps = Dict.put s.stamps key (
      keep (is_after timestamp (window_seconds * second)) (get_timestamps s key ++ timestamp ∷ []));
}

cleaned : Storage → String → ℕ → ℕ → Option (List ℕ) → Storage
cleaned s key now span none = s
cleaned s key now span (some ts) = record s {
  stamps = Dict.put s.stamps key (keep (is_after now span) ts);
}

-- The callers pass `now - span` for `before_timestamp`.
unfoldable pub cleanup_expired : Storage → String → ℕ → ℕ → Storage
unfolding cleaned
cleanup_expired s key now span = cleaned s key now span (Dict.get s.stamps key)
