-- ===== src/Cqrs/Defs.antt =====
-- CommandBus and QueryBus of app/shared/cqrs/bus.py. Handlers, middleware and the cache are outside:
-- each may raise, with an exception that is a text. An execution is the list of the calls that it makes,
-- and a result or an exception. A class of commands or queries is named by a text.
use mathlib.Core.List.{reverse}
use korea_public_data_be.Base.{
  Option, none, some, ◌⊎◌, inl, inr, String, List, [], ◌∷◌, ◌++◌, string_eq, format, if◌then◌else◌,
}
use korea_public_data_be.Dict
use korea_public_data_be.Dict.{Dict}

-- A call that a bus makes. A middleware is named.
pub data Call : Type 0 where
  before_execute after_execute on_error : String → Call
  handle cache_get cache_set : Call

-- A hook that a middleware may have, and the exception that it may raise
abbrev pub Hook : Type 0 → Type 0
Hook A = Option (A → Option String)

pub record Middleware (M R : Type 0) : Type 0 where
  pub name : String
  pub before : Hook M
  pub after : Hook (M × R)
  pub error : Hook (M × String)

abbrev pub asked : {A : Type 0} → Hook A → A → Option (Option String)
asked none a = none
asked (some f) a = some (f a)

-- The hooks of a list of middleware, until one raises
unfoldable pub run :
    {X : Type 0} → (X → Option (Option String)) → (X → Call) → List X → List Call × Option String
run hook call [] = ([], none)
run hook call (m ∷ ms) =
    let rest = run hook call ms in
    elim (hook m) [
      | none ↦ rest
      | some o ↦ elim o [ none ↦ (call m ∷ rest.0, rest.1) | some e ↦ (call m ∷ [], some e) ]
    ]

pub record Bus (M R : Type 0) : Type 0 where
  pub handlers : Dict String (M → String ⊎ R)
  pub middleware : List (Middleware M R)

-- After the handler has returned
abbrev pub ended :
    {R : Type 0} → R → List Call → List Call × Option String → List Call × (String ⊎ R)
ended r log (more, none) = (log ++ (handle ∷ more), inr r)
ended r log (more, some e) = (log ++ (handle ∷ more), inl e)

abbrev pub or_else : Option String → String → String
or_else none e = e
or_else (some f) e = f

module _ {M R : Type 0} where
  unfoldable pub register_handler : Bus M R → String → (M → String ⊎ R) → Bus M R
  register_handler b t h = record b { handlers = Dict.put b.handlers t h }

  unfoldable pub unregister_handler : Bus M R → String → Bus M R
  unregister_handler b t =
      if Dict.has b.handlers t then record b { handlers = Dict.remove b.handlers t } else b

  unfoldable pub add_middleware : Bus M R → Middleware M R → Bus M R
  add_middleware b m = record b { middleware = b.middleware ++ (m ∷ []) }

  unfoldable pub get_registered : Bus M R → List String
  get_registered b = Dict.keys b.handlers

  unfoldable pub before_all : Bus M R → M → List Call × Option String
  unfolding run
  before_all b c = run (λ m. asked m.before c) (λ m. before_execute m.name) b.middleware

  unfoldable pub after_all : Bus M R → M → R → List Call × Option String
  unfolding run
  after_all b c r =
      run (λ m. asked m.after (c, r)) (λ m. after_execute m.name) (reverse b.middleware)

  unfoldable pub error_all : Bus M R → M → String → List Call × Option String
  unfolding run
  error_all b c e = run (λ m. asked m.error (c, e)) (λ m. on_error m.name) (reverse b.middleware)

  unfoldable pub handled : Bus M R → M → List Call → String ⊎ R → List Call × (String ⊎ R)
  unfolding after_all
  handled b c log (inl e) = (log ++ (handle ∷ []), inl e)
  handled b c log (inr r) = ended r log (after_all b c r)

  -- The `try` of CommandBus.execute
  unfoldable pub attempt : Bus M R → (M → String ⊎ R) → M → List Call × (String ⊎ R)
  unfolding before_all handled
  attempt b h c =
      let first = before_all b c in
      elim first.1 [ none ↦ handled b c first.0 (h c) | some e ↦ (first.0, inl e) ]

  -- The `except`: the hooks for errors, then the exception again, unless one of them raises.
  unfoldable pub recovered : Bus M R → M → List Call × (String ⊎ R) → List Call × (String ⊎ R)
  unfolding error_all
  recovered b c (log, inr r) = (log, inr r)
  recovered b c (log, inl e) = let last = error_all b c e in (log ++ last.0, inl (or_else last.1 e))

  -- CommandBus.execute, for a command of the class
  unfoldable pub execute : Bus M R → String → M → List Call × (String ⊎ R)
  unfolding attempt recovered
  execute b t c = elim (Dict.get b.handlers t) [
    | none ↦ ([], inl (format ("No handler registered for command type: " ∷ t ∷ [])))
    | some h ↦ recovered b c (attempt b h c)
  ]
