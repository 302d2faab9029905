-- ===== src/Retry/Tests.antt =====
-- Runs of app/core/interfaces/retry_strategies.py; the theorems applied to them.
use korea_public_data_be.Base.{
  ℕ, zero, suc, ◌*◌, true, false, none, some, [], ◌∷◌, ◌⊎◌, inl, inr, ◌≡◌, refl, arith,
}
use korea_public_data_be.Retry.Failure.{
  Failure, network, rate_limit, server, create_api_exception_from_response,
}
use korea_public_data_be.Retry.Strategy.{
  second, RetryStrategy, exponential, on_server_error, on_timeout, on_network_error, should_retry,
  matches_condition, retry_by, matches_any, add_jitter, calculate_delay, record_result,
  aggressive_retry,
}
use korea_public_data_be.Retry.Executor.{
  Run, returned, raised, attempts, execute, recorded, failed, wait,
}
use korea_public_data_be.Retry.Settles.{Calls, execute_settles}

-- random.uniform(-r, r) gives 0.
abbrev middle : ℕ → ℕ → ℕ
middle i r = r

-- Two responses of the server that can be retried, then a value.
abbrev unsteady : ℕ → ℕ ⊎ Failure
unsteady zero = inr (server 502 true)
unsteady (suc zero) = inr network
unsteady (suc (suc i)) = inl (suc (suc i))

abbrev broken : ℕ → ℕ ⊎ Failure
broken i = inr (create_api_exception_from_response 501 none)

abbrev busy : ℕ → ℕ ⊎ Failure
busy i = inr (rate_limit (some 20))

abbrev idle : Run
idle = record { calls = 0; sleeps = []; recent_results = [] }

abbrev steady_backoff : RetryStrategy
steady_backoff = record {
  max_attempts = 3;
  base_delay = second;
  max_delay = 60 * second;
  jitter = false;
  kind = exponential 2 (on_server_error ∷ on_timeout ∷ on_network_error ∷ []);
}

runs :
    (execute steady_backoff middle unsteady idle
      ≡ (returned 2, record { calls = 3; sleeps = second ∷ 2 * second ∷ []; recent_results = [] }))
    × (execute steady_backoff middle broken idle
        ≡ (raised (server 501 false), record { calls = 1; sleeps = []; recent_results = [] }))
    × (execute aggressive_retry middle busy idle ≡ (
      raised (rate_limit (some 20)),
      record { calls = 2; sleeps = 20 * second ∷ []; recent_results = false ∷ [] },
    ))
unfolding execute attempts should_retry retry_by matches_any matches_condition calculate_delay
    add_jitter record_result recorded failed wait create_api_exception_from_response
runs = (refl, refl, refl)

execute_settles_example : Calls steady_backoff unsteady 1 0 (returned 2) 3
unfolding execute attempts should_retry retry_by matches_any matches_condition calculate_delay
    add_jitter record_result recorded failed wait create_api_exception_from_response
execute_settles_example = execute_settles steady_backoff middle unsteady idle (omega arith)
