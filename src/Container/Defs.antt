-- ===== src/Container/Defs.antt =====
-- DIContainer of app/core/container.py. A service type is named by a text. What a constructor or a
-- factory does when it is called is outside: `build n c kwargs` is the object that the n-th call
-- returns, or `none` if that call raises. It does not use the container itself.
use korea_public_data_be.Base.{
  ℕ, zero, suc, ◌+◌, Bool, Option, none, some, String, List, [], ◌∷◌, ◌++◌, ◌==◌, string_eq, elem,
  if◌then◌else◌,
}
use korea_public_data_be.Container.Action.{
  circular_dependency, service_not_found, value_error, build_error, exhausted, Result, ok, err,
  Action, pure, raise, gets, modify, or_not_found, ◌>>=◌,
}
use korea_public_data_be.Dict
use korea_public_data_be.Dict.{Dict}

pub data Lifetime : Type 0 where
  singleton transient scoped : Lifetime

-- A parameter of a signature. `origin_test` is what the test on `annotation.__origin__` gives.
pub record Parameter : Type 0 where
  pub name : String
  pub annotation : Option String
  pub has_default : Bool
  pub origin_test : Bool

pub record Callable : Type 0 where
  pub name : String
  pub parameters : List Parameter

pub record ServiceBinding (Obj : Type 0) : Type 0 where
  pub implementation : Option Callable
  pub factory : Option Callable
  pub instance_ : Option Obj
  pub lifetime : Lifetime

pub record Container (Obj : Type 0) : Type 0 where
  pub bindings : Dict String (ServiceBinding Obj)
  pub singletons : Dict String Obj
  pub scoped_instances : Dict String Obj
  pub resolution_stack : List String
  pub calls : ℕ  -- of constructors and factories, so far

-- list.remove: the first occurrence
unfoldable pub remove_first : String → List String → List String
remove_first k [] = []
remove_first k (x ∷ xs) = if x == k then xs else x ∷ remove_first k xs

abbrev pub provided {ℓ} : {A : Type ℓ} → Option A → ℕ
provided none = 0
provided (some _) = 1

-- Keyword arguments; None stands for a missing optional dependency.
abbrev pub Kwargs : Type 0 → Type 0
Kwargs Obj = List (String × Option Obj)

module _ {Obj : Type 0} where
  unfoldable pub init : Container Obj
  init = record {
    bindings = [];
    singletons = [];
    scoped_instances = [];
    resolution_stack = [];
    calls = 0;
  }

  -- ServiceBinding.__init__: exactly one of the three must be given.
  unfoldable pub service_binding :
      Option Callable → Option Callable → Option Obj → Lifetime → Result (ServiceBinding Obj)
  service_binding i f o l = elim (provided i + provided f + provided o) [
    | suc zero ↦ ok (record { implementation = i; factory = f; instance_ = o; lifetime = l })
    | _ ↦ err value_error
  ]

  abbrev pub bind : Container Obj → String → Result (ServiceBinding Obj) → Result (Container Obj)
  bind s t (ok b) = ok (record s { bindings = Dict.put s.bindings t b })
  bind s t (err e) = err e

  -- register_singleton, register_transient and register_scoped, by their lifetime
  unfoldable pub register_class :
      Lifetime → Container Obj → String → Callable → Result (Container Obj)
  unfolding service_binding
  register_class l s t c = bind s t (service_binding (some c) none none l)

  unfoldable pub register_factory :
      Container Obj → String → Callable → Lifetime → Result (Container Obj)
  unfolding service_binding
  register_factory s t c l = bind s t (service_binding none (some c) none l)

  abbrev pub remember : String → Obj → Result (Container Obj) → Result (Container Obj)
  remember t o (ok s) = ok (record s { singletons = Dict.put s.singletons t o })
  remember t o (err e) = err e

  unfoldable pub register_instance : Container Obj → String → Obj → Result (Container Obj)
  unfolding service_binding
  register_instance s t o = remember t o (bind s t (service_binding none none (some o) singleton))

  unfoldable pub clear_scoped : Container Obj → Container Obj
  clear_scoped s = record s { scoped_instances = [] }

  unfoldable pub is_registered : Container Obj → String → Bool
  is_registered s t = Dict.has s.bindings t

module _ {Obj : Type 0} (resolve : String → Action (Container Obj) Obj) where
  unfoldable pub resolved : String → Action (Container Obj) (Option (Option Obj))
  resolved t = do o ← resolve t; pure (some (some o))

  -- _invoke_factory: a parameter, by its annotation
  unfoldable pub factory_arg :
      Parameter → Option String → Action (Container Obj) (Option (Option Obj))
  unfolding resolved
  factory_arg p none = pure none
  factory_arg p (some t) = resolved t

  -- What becomes of a parameter whose type, or a type that it needs, is not registered.
  unfoldable pub missing : Parameter → Action (Container Obj) (Option (Option Obj))
  missing p =
      if p.has_default
      then pure none
      else if p.origin_test
      then pure (some none)
      else raise service_not_found

  unfoldable pub annotated_arg :
      Parameter → Option String → Action (Container Obj) (Option (Option Obj))
  unfolding resolved missing
  annotated_arg p none = pure none
  annotated_arg p (some t) = or_not_found (resolved t) (missing p)

  -- _create_from_class: a parameter, by its annotation
  unfoldable pub class_arg :
      Parameter → Option String → Action (Container Obj) (Option (Option Obj))
  unfolding annotated_arg
  class_arg p a = if p.name == "self" then pure none else annotated_arg p a

abbrev pub add_arg : {Obj : Type 0} → String → Option (Option Obj) → Kwargs Obj → Kwargs Obj
add_arg n none k = k
add_arg n (some o) k = (n, o) ∷ k

-- The loop over a signature; `arg` treats one parameter.
unfoldable pub collect :
    {Obj : Type 0}
    → (Parameter → Option String → Action (Container Obj) (Option (Option Obj)))
    → List Parameter
    → Action (Container Obj) (Kwargs Obj)
collect arg [] = pure []
collect arg (p ∷ ps) = do
  o ← arg p p.annotation
  rest ← collect arg ps
  pure (add_arg p.name o rest)

module _ {Obj : Type 0} (build : ℕ → Callable → Kwargs Obj → Option Obj) where
  unfoldable pub returned : Option Obj → Action (Container Obj) Obj
  returned none = raise build_error
  returned (some o) = pure o

  -- The call of a factory or a class with the collected arguments.
  unfoldable pub call : Callable → Kwargs Obj → Action (Container Obj) Obj
  unfolding returned
  call c k = do
    n ← gets (λ s. s.calls)
    result ← modify (λ s. record s { calls = s.calls + 1 }) (build n c k)
    returned result

  unfoldable pub from_implementation :
      (String → Action (Container Obj) Obj) → Option Callable → Action (Container Obj) Obj
  unfolding class_arg call
  from_implementation resolve none = raise value_error
  from_implementation resolve (some c) = do k ← collect (class_arg resolve) c.parameters; call c k

  unfoldable pub from_factory :
      (String → Action (Container Obj) Obj)
      → ServiceBinding Obj
      → Option Callable
      → Action (Container Obj) Obj
  unfolding factory_arg from_implementation
  from_factory resolve b none = from_implementation resolve b.implementation
  from_factory resolve b (some c) = do k ← collect (factory_arg resolve) c.parameters; call c k

  unfoldable pub from_instance :
      (String → Action (Container Obj) Obj)
      → ServiceBinding Obj
      → Option Obj
      → Action (Container Obj) Obj
  unfolding from_factory
  from_instance resolve b (some o) = pure o
  from_instance resolve b none = from_factory resolve b b.factory

  -- _create_instance, with _invoke_factory and _create_from_class
  unfoldable pub create_instance :
      (String → Action (Container Obj) Obj) → ServiceBinding Obj → Action (Container Obj) Obj
  unfolding from_instance
  create_instance resolve b = from_instance resolve b b.instance_

  unfoldable pub cached : Option Obj → Action (Container Obj) Obj → Action (Container Obj) Obj
  cached (some o) create = pure o
  cached none create = create

  -- The branches of _resolve_internal on the lifetime.
  unfoldable pub by_lifetime :
      (String → Action (Container Obj) Obj)
      → String
      → ServiceBinding Obj
      → Lifetime
      → Action (Container Obj) Obj
  unfolding cached
  by_lifetime resolve t b singleton = do
    found ← gets (λ s. Dict.get s.singletons t)
    cached found (do
      o ← create_instance resolve b
      modify (λ s. record s { singletons = Dict.put s.singletons t o }) o)
  by_lifetime resolve t b scoped = do
    found ← gets (λ s. Dict.get s.scoped_instances t)
    cached found (do
      o ← create_instance resolve b
      modify (λ s. record s { scoped_instances = Dict.put s.scoped_instances t o }) o)
  by_lifetime resolve t b transient = create_instance resolve b

  unfoldable pub bound :
      (String → Action (Container Obj) Obj)
      → String
      → Option (ServiceBinding Obj)
      → Action (Container Obj) Obj
  unfolding by_lifetime
  bound resolve t none = raise service_not_found
  bound resolve t (some b) = by_lifetime resolve t b b.lifetime

  unfoldable pub resolve_internal :
      (String → Action (Container Obj) Obj) → String → Action (Container Obj) Obj
  unfolding bound
  resolve_internal resolve t = do b ← gets (λ s. Dict.get s.bindings t); bound resolve t b

  abbrev pub push : String → Container Obj → Container Obj
  push t s = record s { resolution_stack = s.resolution_stack ++ t ∷ [] }

  abbrev pub pop : String → Container Obj → Container Obj
  pop t s = record s { resolution_stack = remove_first t s.resolution_stack }

  -- DIContainer.resolve, with at most `fuel` calls of it nested in one another. The `finally`
  -- takes the type off the stack on every way out.
  unfoldable pub resolve : ℕ → String → Action (Container Obj) Obj
  resolve zero t s = (err exhausted, s)
  resolve (suc fuel) t s =
      let inner = resolve_internal (resolve fuel) t (push t s) in
      if elem t s.resolution_stack then (err circular_dependency, s) else (inner.0, pop t inner.1)
