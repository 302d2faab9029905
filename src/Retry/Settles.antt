-- ===== src/Retry/Settles.antt =====
-- RetryExecutor of app/core/interfaces/retry_strategies.py against a relation that says how a
-- sequence of calls may go.
use korea_public_data_be.Base.{
  ℕ, zero, suc, ◌+◌, ◌-◌, ◌≤◌, ◌<◌, Bool, true, false, Option, none, some, ltb, ◌⊎◌, inl, inr, ◌≡◌,
  refl, sym, subst, arith, Bool-cases, Sum-cases,
}
use korea_public_data_be.Retry.Failure.{Failure}
use korea_public_data_be.Retry.Strategy.{
  RetryStrategy, Kind, exponential, linear, adaptive, should_retry,
}
use korea_public_data_be.Retry.Executor.{
  Run, Outcome, returned, raised, attempts, execute, wait, failed, recorded, called,
}

module _ {A : Type 0} (s : RetryStrategy) (operation : ℕ → A ⊎ Failure) where
  -- From an attempt of that number, which makes the call of that number, to the outcome and the
  -- number of calls then made.
  pub data Calls : ℕ → ℕ → Outcome A → ℕ → Type 0 where
    succeeds : {a c : ℕ} (v : A) → operation c ≡ inl v → Calls a c (returned v) (suc c)
    gives_up :
        {a c : ℕ} (e : Failure)
        → operation c ≡ inr e
        → should_retry s a e ≡ false
        → Calls a c (raised e) (suc c)
    retries :
        {a c d : ℕ} {o : Outcome A} (e : Failure)
        → operation c ≡ inr e
        → should_retry s a e ≡ true
        → Calls (suc a) (suc c) o d
        → Calls a c o d

  -- The attempts that are allowed bound the calls.
  allowed : (a : ℕ) (e : Failure) → should_retry s a e ≡ true → a < s.max_attempts
  unfolding should_retry
  allowed a e h = ground arith

module _ {A : Type 0} (s : RetryStrategy) (uniform : ℕ → ℕ → ℕ) (operation : ℕ → A ⊎ Failure) where
  recorded-calls : (k : Kind) (b : Bool) (w : Run) → (recorded k b w).calls ≡ w.calls
  unfolding recorded
  recorded-calls (exponential m c) b w = refl
  recorded-calls (linear i) b w = refl
  recorded-calls adaptive b w = refl

  wait-calls : (a : ℕ) (e : Failure) (w : Run) → (wait s uniform operation a e w).calls ≡ w.calls
  unfolding wait
  wait-calls a e w = elim (Bool-cases (ltb a s.max_attempts)) [ inl h ↦ rw h | inr h ↦ rw h ]

  -- The result of a run, and how its calls went.
  abbrev Went : ℕ → ℕ → Outcome A × Run → Type 0
  Went a c r = Calls s operation a c r.0 r.1.calls

  attempt_succeeded :
      (a : ℕ) (w : Run) (v : A)
      → operation w.calls ≡ inl v
      → Went a w.calls (returned v, recorded s.kind true (called w))
  attempt_succeeded a w v q =
      subst (λ n. Calls s operation a w.calls (returned v) n)
        (sym (recorded-calls s.kind true (called w))) (succeeds v q)

  attempt_failed :
      (a : ℕ) (w : Run) (e : Failure)
      → operation w.calls ≡ inr e
      → should_retry s a e ≡ false
      → Went a w.calls (failed s (some e) (called w))
  unfolding failed
  attempt_failed a w e q h =
      subst (λ n. Calls s operation a w.calls (raised e) n)
        (sym (recorded-calls s.kind false (called w))) (gives_up e q h)

  -- The rest of a run after a failure that is to be retried.
  abbrev rest : ℕ → ℕ → Failure → Run → Outcome A × Run
  rest left a e w =
      attempts s uniform operation left (suc a) (some e) (wait s uniform operation a e (called w))

  attempt-Calls :
      (left a : ℕ) (last : Option Failure) (w : Run)
      → ((e : Failure) → should_retry s a e ≡ true → Went (suc a) (suc w.calls) (rest left a e w))
      → Went a w.calls (attempts s uniform operation (suc left) a last w)
  unfolding attempts
  attempt-Calls left a last w next = elim (Sum-cases (operation w.calls)) [
    | inl (v, q) ↦ rw (q, attempts) (attempt_succeeded a w v q)
    | inr (e, q) ↦
        rw (q, attempts)
          (elim (Bool-cases (should_retry s a e)) [
            | inr stop ↦ rw stop (attempt_failed a w e q stop)
            | inl go ↦ rw go (retries e q go (next e go))
          ])
  ]

  attempts-Calls :
      (left a : ℕ) (last : Option Failure) (w : Run)
      → left + a ≡ s.max_attempts
      → Went a w.calls (attempts s uniform operation (suc left) a last w)
  attempts-Calls zero a last w h =
      attempt-Calls zero a last w (λ e go. absurd (omega (arith, allowed s operation a e go, h)))
  attempts-Calls (suc left) a last w h = attempt-Calls (suc left) a last w (λ e go.
      subst (λ n. Went (suc a) n (rest (suc left) a e w)) (wait-calls a e (called w))
        (attempts-Calls left (suc a) (some e) (wait s uniform operation a e (called w))
          (omega (arith, h))))

  -- Where at least one attempt is allowed, a run makes its calls one after the other: it goes on
  -- as long as a call raises an exception that is to be retried, and it returns the value of
  -- the first call that succeeds, or raises the first exception that is not to be retried.
  pub execute_settles :
      (w : Run)
      → 1 ≤ s.max_attempts
      → let r = execute s uniform operation w in Calls s operation 1 w.calls r.0 r.1.calls
  unfolding execute
  execute_settles w h =
      let enough : suc (s.max_attempts - 1) ≡ s.max_attempts = omega (arith, h) in
      subst (λ m. Went 1 w.calls (attempts s uniform operation m 1 none w)) enough
        (attempts-Calls (s.max_attempts - 1) 1 none w (omega (arith, h)))

module _ {A : Type 0} (s : RetryStrategy) (operation : ℕ → A ⊎ Failure) where
  -- From an attempt that is allowed, a run makes at least one call, and no more than there are
  -- attempts from that one to the maximum.
  pub Calls-bounded :
      (a c d : ℕ) (o : Outcome A)
      → Calls s operation a c o d
      → a ≤ s.max_attempts
      → (c < d) × (d + a ≤ c + suc s.max_attempts)
  Calls-bounded a c d o (succeeds v q) h = (omega arith, omega (arith, h))
  Calls-bounded a c d o (gives_up e q n) h = (omega arith, omega (arith, h))
  Calls-bounded a c d o (retries e q y k) h =
      let k = Calls-bounded (suc a) (suc c) d o k (allowed s operation a e y) in
      (omega (arith, k.0), omega (arith, k.1))
