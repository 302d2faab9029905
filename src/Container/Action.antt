-- ===== src/Container/Action.antt =====
-- The exceptions of app/core/container.py, and actions on a state that return a value or raise one
-- of them; what was written before a raise stays written.
-- `exhausted` is no exception of the source: the recursion has no steps left.
pub data Error : Type 0 where
  circular_dependency service_not_found value_error build_error exhausted : Error

pub data Result {ℓ} (A : Type ℓ) : Type ℓ where
  ok : A → Result A
  err : Error → Result A

abbrev pub Action {ℓ} : Type ℓ → Type ℓ → Type ℓ
Action S A = S → Result A × S

module _ {ℓ} {S A : Type ℓ} where
  unfoldable pub pure : A → Action S A
  pure a s = (ok a, s)

  unfoldable pub raise : Error → Action S A
  raise e s = (err e, s)

  unfoldable pub gets : (S → A) → Action S A
  gets f s = (ok (f s), s)

  abbrev pub recover : Action S A → Result A × S → Result A × S
  recover h (err service_not_found, s) = h s
  recover h (r, s) = (r, s)

  -- try: m; except ServiceNotFoundError: h
  unfoldable pub or_not_found : Action S A → Action S A → Action S A
  or_not_found m h s = recover h (m s)

-- An action that only writes.
unfoldable pub modify {ℓ} : {S A : Type ℓ} → (S → S) → A → Action S A
modify f a s = (ok a, f s)

module _ {ℓ} {S A B : Type ℓ} where
  abbrev pub continue : (A → Action S B) → Result A × S → Result B × S
  continue f (ok a, s) = f a s
  continue f (err e, s) = (err e, s)

  infixl 10 ◌>>=◌
  -- Opening this opens the other actions too.
  unfoldable pub ◌>>=◌ : Action S A → (A → Action S B) → Action S B
  unfolding pure raise gets modify or_not_found
  ◌>>=◌ m f s = continue f (m s)
