-- ===== src/Retry/Delays.antt =====
-- The waits of app/core/interfaces/retry_strategies.py and the window of its recent results.
use native.Mathlib.Nat.{mul-le-mul_left, pow-le-pow_right}
use korea_public_data_be.Base.{
  ℕ, zero, suc, ◌+◌, ◌-◌, ◌≤◌, Bool, true, false, Option, none, some, List, [], ◌∷◌, ltb, length,
  if◌then◌else◌, ◌⊎◌, inl, inr, ◌≡◌, arith, Bool-cases, Sum-cases, length-append, All, All-append,
  min, ◌*◌, ◌/◌, ◌^◌,
}
use korea_public_data_be.Retry.Failure.{Failure}
use korea_public_data_be.Retry.Strategy.{
  RetryStrategy, Kind, exponential, linear, adaptive, should_retry, calculate_delay, record_result,
  add_jitter, raw_delay, adaptive_base,
}
use korea_public_data_be.Retry.Executor.{Run, attempts, execute, wait, failed, recorded, called}

-- Each draw of random.uniform(-r, r) is within its bounds.
abbrev pub Draws : (ℕ → ℕ → ℕ) → Type 0
Draws uniform = (i r : ℕ) → uniform i r ≤ 2 * r

-- The longest wait: the configured maximum, with a fifth more where there is jitter.
abbrev pub longest : RetryStrategy → ℕ
longest s = if s.jitter then s.max_delay + s.max_delay * 2 / 10 else s.max_delay

module _ (s : RetryStrategy) (uniform : ℕ → ℕ → ℕ) (draws : Draws uniform) where
  add_jitter-le :
      (i d m : ℕ) → d ≤ m → add_jitter s uniform i d ≤ (if s.jitter then m + m * 2 / 10 else m)
  unfolding add_jitter
  add_jitter-le i d m h = elim (Bool-cases s.jitter) [
    | inl j ↦ rw j (omega (arith, draws i (d * 2 / 10), h))
    | inr j ↦ rw j h
  ]

  -- The wait before the next attempt is never longer than the configured maximum, where there
  -- is jitter by a fifth at most.
  pub calculate_delay_bounds :
      (i attempt : ℕ) (e : Failure) → calculate_delay s uniform i attempt e ≤ longest s
  unfolding calculate_delay
  calculate_delay_bounds i attempt e =
      add_jitter-le i (min (raw_delay s s.kind attempt e) s.max_delay) s.max_delay (omega arith)

-- The multiplier of an exponential strategy is at least one.
abbrev pub Growing : Kind → Type 0
Growing (exponential multiplier _) = 1 ≤ multiplier
Growing (linear _) = 0 ≤ 0
Growing adaptive = 0 ≤ 0

power-grows : (b m i j : ℕ) → 1 ≤ m → i ≤ j → b * m ^ i ≤ b * m ^ j
power-grows b m i j h l = mul-le-mul_left b (pow-le-pow_right h l)

raw-grows :
    (s : RetryStrategy) (k : Kind) (a : ℕ) (e : Failure)
    → Growing k
    → raw_delay s k (suc a) e ≤ raw_delay s k (suc (suc a)) e
raw-grows s (exponential m c) a e g = power-grows s.base_delay m _ _ g (omega arith)
raw-grows s (linear i) a e g =
    let more : i * (suc a - 1) ≤ i * (suc (suc a) - 1) = mul-le-mul_left i (omega arith) in
    omega (arith, more)
raw-grows s adaptive a e g =
    power-grows (adaptive_base s.base_delay e) 2 _ _ (omega arith) (omega arith)

-- Where there is no jitter, and the multiplier of an exponential strategy is at least one, the wait
-- after the same exception one attempt later is no shorter.
pub calculate_delay_grows :
    (s : RetryStrategy) (uniform : ℕ → ℕ → ℕ) (i j a : ℕ) (e : Failure)
    → s.jitter ≡ false
    → Growing s.kind
    → calculate_delay s uniform i (suc a) e ≤ calculate_delay s uniform j (suc (suc a)) e
unfolding calculate_delay add_jitter
calculate_delay_grows s uniform i j a e h g = rw h (omega (arith, raw-grows s s.kind a e g))

module _ {A : Type 0} (s : RetryStrategy) (uniform : ℕ → ℕ → ℕ) (operation : ℕ → A ⊎ Failure)
    (P : Run → Type 0) (on_call : (w : Run) → P w → P (called w))
    (on_wait : (a : ℕ) (e : Failure) (w : Run) → P w → P (wait s uniform operation a e w))
    (on_record : (b : Bool) (w : Run) → P w → P (recorded s.kind b w)) where
  on_failed : (last : Option Failure) (w : Run) → P w → P (failed {A = A} s last w).1
  unfolding failed
  on_failed none w p = on_record false w p
  on_failed (some e) w p = on_record false w p

  -- What every part of a run keeps, the run keeps.
  attempts-keeps :
      (left a : ℕ) (last : Option Failure) (w : Run)
      → P w
      → P (attempts s uniform operation left a last w).1
  unfolding attempts
  attempts-keeps zero a last w p = on_failed last w p
  attempts-keeps (suc left) a last w p = elim (Sum-cases (operation w.calls)) [
    | inl (v, q) ↦ rw (q, attempts) (on_record true _ (on_call w p))
    | inr (e, q) ↦
        rw (q, attempts)
          (elim (Bool-cases (should_retry s a e)) [
            | inr stop ↦ rw stop (on_failed (some e) _ (on_call w p))
            | inl go ↦ rw go (attempts-keeps left (suc a) (some e) _ (on_wait a e _ (on_call w p)))
          ])
  ]

record_result-short : (r : List Bool) (b : Bool) → length r ≤ 10 → length (record_result r b) ≤ 10
unfolding record_result
record_result-short r b h = ground (arith, length-append r (b ∷ []), h)

module _ {A : Type 0} (s : RetryStrategy) (uniform : ℕ → ℕ → ℕ) (draws : Draws uniform)
    (operation : ℕ → A ⊎ Failure) where
  -- The waits so far are within the bounds, and so is the window.
  pub record WithinBounds (w : Run) : Type 0 where
    pub sleeps : All (λ d. d ≤ longest s) w.sleeps
    pub recent : length w.recent_results ≤ 10

  bounded_wait :
      (a : ℕ) (e : Failure) (w : Run)
      → WithinBounds w
      → WithinBounds (wait s uniform operation a e w)
  unfolding wait
  bounded_wait a e w p = elim (Bool-cases (ltb a s.max_attempts)) [
    | inr h ↦ rw h p
    | inl h ↦ rw h (record {
      sleeps =
          All-append (λ d. d ≤ longest s) w.sleeps _ p.sleeps
            (calculate_delay_bounds s uniform draws (length w.sleeps) a e, tt);
      recent = p.recent;
    })
  ]

  bounded_record : (k : Kind) (b : Bool) (w : Run) → WithinBounds w → WithinBounds (recorded k b w)
  unfolding recorded
  bounded_record (exponential _ _) b w p = p
  bounded_record (linear _) b w p = p
  bounded_record adaptive b w p = record {
    sleeps = p.sleeps;
    recent = record_result-short w.recent_results b p.recent;
  }

  -- However a run ends, each of its waits is no longer than the configured maximum, with jitter
  -- by a fifth at most, and the window of results holds ten at most.
  pub execute_bounded : (w : Run) → WithinBounds w → WithinBounds (execute s uniform operation w).1
  unfolding execute
  execute_bounded w p =
      attempts-keeps s uniform operation WithinBounds
        (λ w p. record { sleeps = p.sleeps; recent = p.recent }) bounded_wait
        (bounded_record s.kind) s.max_attempts 1 none w p
