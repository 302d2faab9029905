-- ===== src/Container/Tests.antt =====
-- Runs of app/core/container.py on small containers; the theorems applied to them.
use korea_public_data_be.Base.{
  ℕ, false, Option, none, some, String, [], ◌∷◌, ◌==◌, string_eq, if◌then◌else◌, ◌≡◌, ◌≢◌, refl,
  arith,
}
use korea_public_data_be.Container.Action.{
  circular_dependency, service_not_found, build_error, exhausted, Result, ok, err, ◌>>=◌,
}
use korea_public_data_be.Dict
use korea_public_data_be.Dict.{Dict}
use korea_public_data_be.Container.Defs.{
  Lifetime, singleton, transient, Parameter, Callable, ServiceBinding, Container, Kwargs, collect,
  create_instance, resolve_internal, resolve,
}
use korea_public_data_be.Container.Resolve.{resolve_restores, resolve_ends}
use korea_public_data_be.Container.Reuse.{resolve_again}

-- An object is the number of the call that made it; the class Broken raises.
abbrev build : ℕ → Callable → Kwargs ℕ → Option ℕ
build n c k = if c.name == "Broken" then none else some n

abbrev needs : String → String → Callable
needs c t = record { name = c; parameters = parameter "self" none ∷ parameter "x" (some t) ∷ [] }
  where
    parameter : String → Option String → Parameter
    parameter n a = record { name = n; annotation = a; has_default = false; origin_test = false }

abbrev plain : String → Callable
plain c = record { name = c; parameters = [] }

abbrev class_binding : Lifetime → Callable → ServiceBinding ℕ
class_binding l c = record {
  implementation = some c;
  factory = none;
  instance_ = none;
  lifetime = l;
}

-- A client of a kept connection, two types that need each other, and a broken one.
abbrev services : Container ℕ
services = record {
  bindings =
      ("Client", class_binding transient (needs "HttpClient" "Pool"))
      ∷ ("Pool", class_binding singleton (plain "ConnectionPool"))
      ∷ ("A", class_binding singleton (needs "A" "B"))
      ∷ ("B", class_binding singleton (needs "B" "A"))
      ∷ ("C", class_binding transient (plain "Broken"))
      ∷ [];
  singletons = [];
  scoped_instances = [];
  resolution_stack = [];
  calls = 0;
}

abbrev outcome : ℕ → String → Result ℕ × Container ℕ
outcome n t = resolve build n t services

resolutions :
    ((outcome 6 "Client").0 ≡ ok 1)
    × ((outcome 6 "Client").1.calls ≡ 2)
    × ((outcome 6 "A").0 ≡ err circular_dependency)
    × ((outcome 6 "C").0 ≡ err build_error)
    × ((outcome 6 "D").0 ≡ err service_not_found)
unfolding resolve resolve_internal ◌>>=◌ Dict.get create_instance collect
resolutions = (refl, refl, refl, refl, refl)

resolve_restores_example :
    ((outcome 6 "A").1.bindings ≡ services.bindings) × ((outcome 6 "A").1.resolution_stack ≡ [])
resolve_restores_example = resolve_restores build 6 "A" services

resolve_ends_example : (outcome 6 "A").0 ≢ err exhausted
resolve_ends_example = resolve_ends build 6 "A" services (omega arith)

resolve_again_example : resolve build 1 "Pool" (outcome 6 "Pool").1 ≡ (ok 0, (outcome 6 "Pool").1)
unfolding resolve resolve_internal ◌>>=◌ Dict.get create_instance collect
resolve_again_example =
    resolve_again build 6 0 "Pool" services (class_binding singleton (plain "ConnectionPool")) 0
      refl (λ e. cc) refl
