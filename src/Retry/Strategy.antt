-- ===== src/Retry/Strategy.antt =====
-- The strategies of app/core/interfaces/retry_strategies.py. Delays are whole microseconds and a
-- multiplier is a whole number. `uniform i r` is what the i-th call of random.uniform(-r, r)
-- gives, plus r.
use korea_public_data_be.Base.{
  ℕ, suc, ◌+◌, ◌-◌, ◌*◌, ◌/◌, ◌^◌, min, max, Bool, true, false, Option, none, some, List, [], ◌∷◌,
  ◌++◌, leb, ltb, length, if◌then◌else◌,
}
use korea_public_data_be.Retry.Failure.{Failure, timeout, network, rate_limit, server}

abbrev pub second : ℕ
second = 1000000

pub data RetryCondition : Type 0 where
  always never on_server_error on_timeout on_rate_limit on_network_error custom : RetryCondition

-- What the three classes add to RetryStrategy.
pub data Kind : Type 0 where
  exponential : (multiplier : ℕ) → (retry_conditions : List RetryCondition) → Kind
  linear : (increment : ℕ) → Kind
  adaptive : Kind

pub record RetryStrategy : Type 0 where
  pub max_attempts : ℕ
  pub base_delay : ℕ
  pub max_delay : ℕ
  pub jitter : Bool
  pub kind : Kind

-- retry_conditions or [...]: a list that is missing or empty means the default.
unfoldable pub conditions_or_default : Option (List RetryCondition) → List RetryCondition
conditions_or_default (some (c ∷ cs)) = c ∷ cs
conditions_or_default _ = on_server_error ∷ on_timeout ∷ on_network_error ∷ []

unfoldable pub matches_condition : RetryCondition → Failure → Bool
matches_condition always e = true
matches_condition on_server_error (server status is_retryable) = is_retryable
matches_condition on_timeout timeout = true
matches_condition on_rate_limit (rate_limit _) = true
matches_condition on_network_error network = true
matches_condition _ e = false

unfoldable pub matches_any : List RetryCondition → Failure → Bool
unfolding matches_condition
matches_any [] e = false
matches_any (c ∷ cs) e = if matches_condition c e then true else matches_any cs e

-- AdaptiveRetryStrategy.should_retry, below the last attempt
abbrev pub adaptive_retry : ℕ → Failure → Bool
adaptive_retry attempt (server _ _) = true
adaptive_retry attempt network = true
adaptive_retry attempt timeout = true
adaptive_retry attempt (rate_limit _) = ltb attempt 2
adaptive_retry attempt _ = false

unfoldable pub retry_by : Kind → ℕ → Failure → Bool
unfolding matches_any
retry_by (exponential multiplier conditions) attempt e = matches_any conditions e
retry_by (linear increment) attempt e = true
retry_by adaptive attempt e = adaptive_retry attempt e

-- should_retry of the three classes, at the attempt of that number, from 1
unfoldable pub should_retry : RetryStrategy → ℕ → Failure → Bool
unfolding retry_by
should_retry s attempt e = if leb s.max_attempts attempt then false else retry_by s.kind attempt e

unfoldable pub add_jitter : RetryStrategy → (uniform : ℕ → ℕ → ℕ) → ℕ → ℕ → ℕ
add_jitter s uniform i delay =
    let range = delay * 2 / 10 in if s.jitter then delay + uniform i range - range else delay

-- The base delay of AdaptiveRetryStrategy.calculate_delay
abbrev pub adaptive_base : ℕ → Failure → ℕ
adaptive_base base (rate_limit (some (suc n))) = max (suc n * second) base
adaptive_base base (rate_limit _) = base * 5
adaptive_base base _ = base

abbrev pub raw_delay : RetryStrategy → Kind → ℕ → Failure → ℕ
raw_delay s (exponential multiplier _) attempt e = s.base_delay * multiplier ^ (attempt - 1)
raw_delay s (linear increment) attempt e = s.base_delay + increment * (attempt - 1)
raw_delay s adaptive attempt e = adaptive_base s.base_delay e * 2 ^ (attempt - 1)

-- calculate_delay of the three classes
unfoldable pub calculate_delay : RetryStrategy → (uniform : ℕ → ℕ → ℕ) → ℕ → ℕ → Failure → ℕ
unfolding add_jitter
calculate_delay s uniform i attempt e =
    add_jitter s uniform i (min (raw_delay s s.kind attempt e) s.max_delay)

-- AdaptiveRetryStrategy.record_result, with success_rate_window 10
unfoldable pub record_result : List Bool → Bool → List Bool
record_result recent success = without_oldest (recent ++ success ∷ [])
  where
    pop_first : List Bool → List Bool
    pop_first [] = []
    pop_first (r ∷ rs) = rs

    without_oldest : List Bool → List Bool
    without_oldest rs = if ltb 10 (length rs) then pop_first rs else rs

unfoldable pub exponential_backoff : ℕ → ℕ → ℕ → ℕ → RetryStrategy
unfolding conditions_or_default
exponential_backoff attempts base limit multiplier = record {
  max_attempts = attempts;
  base_delay = base;
  max_delay = limit;
  jitter = true;
  kind = exponential multiplier (conditions_or_default none);
}

abbrev pub aggressive_retry : RetryStrategy
aggressive_retry = record {
  max_attempts = 5;
  base_delay = 500000;
  max_delay = 30 * second;
  jitter = true;
  kind = adaptive;
}

unfoldable pub conservative_retry : RetryStrategy
unfolding conditions_or_default
conservative_retry = record {
  max_attempts = 2;
  base_delay = 2 * second;
  max_delay = 10 * second;
  jitter = true;
  kind = exponential 2 (conditions_or_default (some (on_server_error ∷ [])));
}
