-- ===== src/Retry/Executor.antt =====
-- RetryExecutor of app/core/interfaces/retry_strategies.py. execute_async does the same as
-- execute_sync, but for the awaits. `operation i` is what the i-th call of the operation does.
use korea_public_data_be.Base.{
  ℕ, zero, suc, Bool, true, false, Option, none, some, List, [], ◌∷◌, ◌++◌, ltb, length,
  if◌then◌else◌, ◌⊎◌, inl, inr,
}
use korea_public_data_be.Retry.Failure.{Failure}
use korea_public_data_be.Retry.Strategy.{
  RetryStrategy, Kind, adaptive, should_retry, calculate_delay, record_result,
}

pub record Run : Type 0 where
  pub calls : ℕ  -- of the operation, so far
  pub sleeps : List ℕ  -- the waits, in order
  pub recent_results : List Bool  -- AdaptiveRetryStrategy.recent_results

pub data Outcome (A : Type 0) : Type 0 where
  returned : A → Outcome A
  raised : Failure → Outcome A
  runtime_error : Outcome A

unfoldable pub recorded : Kind → Bool → Run → Run
unfolding record_result
recorded adaptive success w = record w { recent_results = record_result w.recent_results success }
recorded kind success w = w

abbrev pub called : Run → Run
called w = record w { calls = suc w.calls }

-- What follows the loop
unfoldable pub failed : {A : Type 0} → RetryStrategy → Option Failure → Run → Outcome A × Run
unfolding recorded
failed s none w = (runtime_error, recorded s.kind false w)
failed s (some e) w = (raised e, recorded s.kind false w)

module _ {A : Type 0} (s : RetryStrategy) (uniform : ℕ → ℕ → ℕ) (operation : ℕ → A ⊎ Failure) where
  -- The wait before the next attempt
  unfoldable pub wait : ℕ → Failure → Run → Run
  unfolding calculate_delay
  wait attempt e w =
      if ltb attempt s.max_attempts
      then record w {
        sleeps = w.sleeps ++ calculate_delay s uniform (length w.sleeps) attempt e ∷ [];
      }
      else w

  -- The loop, with so many attempts left, from the attempt of that number
  unfoldable pub attempts : ℕ → ℕ → Option Failure → Run → Outcome A × Run
  unfolding failed wait should_retry
  attempts zero attempt last w = failed s last w
  attempts (suc left) attempt last w = elim (operation w.calls) [
    | inl v ↦ (returned v, recorded s.kind true (called w))
    | inr e ↦
        let rest = attempts left (suc attempt) (some e) (wait attempt e (called w)) in
        if should_retry s attempt e then rest else failed s (some e) (called w)
  ]

  unfoldable pub execute : Run → Outcome A × Run
  unfolding attempts
  execute w = attempts s.max_attempts 1 none w
