-- ===== src/Plugins/Tests.antt =====
-- Plugins in the registry of app/core/plugins/registry.py; the theorems applied.
use korea_public_data_be.Base.{
  All, true, false, ◌⊎◌, inl, inr, none, String, List, [], ◌∷◌, Bool-cases, ◌≡◌, refl, ◌==◌,
  string_eq, Option, some, ℤ, pos, ◌↔◌, if◌then◌else◌,
}
use korea_public_data_be.Dict
use korea_public_data_be.Plugins.Defs.{
  loaded, PluginDependency, PluginMetadata, PluginRegistry, empty_registry, register, registered,
  validate_plugin_metadata, add_dependents, unregister, get_dependencies,
}
use korea_public_data_be.Plugins.Versions.{
  zeros, padded, at_least, ints, compatible_parts, is_version_compatible, not_registered,
  missing_of, all_missing, validate_dependencies,
}
use korea_public_data_be.Plugins.Satisfied.{IsSatisfied, validate_dependencies-IsSatisfied}
use korea_public_data_be.Plugins.Sort.{
  SortError, circular_dependency, missing_dependency, topological_sort, walk, visit, links, edges,
  kahn, release,
}
use korea_public_data_be.Plugins.Sorted.{Outcome, topological_sort_outcome}
use korea_public_data_be.Plugins.Dependents.{dep_names}
use korea_public_data_be.Plugins.Register.{
  depends, IsConsistent, IsFree, empty_registry-IsConsistent, register-IsConsistent,
  unregister_free,
}

abbrev needs : String → PluginDependency
needs name = record { name = name; version = none; optional = false }

abbrev plugin : String → List PluginDependency → PluginMetadata
plugin name deps = record {
  name = name;
  version = "1.0.0";
  plugin_type = "processor";
  dependencies = deps;
  state = loaded;
  error_message = none;
}

abbrev pub cleaner : PluginMetadata
cleaner = plugin "cleaner" (needs "source" ∷ [])

abbrev pub source : PluginMetadata
source = plugin "source" []

-- A plugin that needs itself
abbrev looped : PluginMetadata
looped = plugin "looped" (needs "looped" ∷ [])

unfoldable pub one : PluginRegistry
unfolding register registered validate_plugin_metadata add_dependents
one = (register empty_registry cleaner).1

unfoldable pub two : PluginRegistry
unfolding one register registered validate_plugin_metadata add_dependents
two = (register one source).1

abbrev sort : PluginRegistry → List String → SortError ⊎ List String
sort r targets = topological_sort r (λ xs. xs) targets

sort_sorted : sort two ("cleaner" ∷ []) ≡ inr ("source" ∷ "cleaner" ∷ [])
unfolding one two register registered validate_plugin_metadata add_dependents topological_sort walk
    visit links edges kahn release get_dependencies Dict.get Dict.get_or Dict.put Dict.has
sort_sorted = refl

sort_missing : sort one ("cleaner" ∷ []) ≡ inl (missing_dependency "source" "cleaner")
unfolding one register registered validate_plugin_metadata add_dependents topological_sort walk
    visit links edges kahn release get_dependencies Dict.get Dict.get_or Dict.put Dict.has
sort_missing = refl

sort_circular :
    sort (register two looped).1 ("looped" ∷ []) ≡ inl (circular_dependency ("looped" ∷ []))
unfolding one two register registered validate_plugin_metadata add_dependents topological_sort walk
    visit links edges kahn release get_dependencies Dict.get Dict.get_or Dict.put Dict.has
sort_circular = refl

pub one-IsConsistent : IsConsistent one
unfolding one
one-IsConsistent = (register-IsConsistent empty_registry cleaner empty_registry-IsConsistent).0

pub two-IsConsistent : IsConsistent two
unfolding two
two-IsConsistent = (register-IsConsistent one source one-IsConsistent).0

topological_sort_outcome_example : Outcome two ("cleaner" ∷ []) (sort two ("cleaner" ∷ []))
topological_sort_outcome_example =
    topological_sort_outcome two ("cleaner" ∷ []) (λ xs. xs) (λ x xs. refl)

register-IsConsistent_example : let (ok, r) = register one source in IsConsistent r × (ok ≡ true)
unfolding one register registered validate_plugin_metadata add_dependents Dict.has Dict.put
register-IsConsistent_example = register-IsConsistent one source one-IsConsistent

-- Nothing depends on the first plugin.
one-IsFree : IsFree one "cleaner"
unfolding one register registered validate_plugin_metadata add_dependents Dict.get Dict.get_or
    Dict.put Dict.has
one-IsFree q = elim (Bool-cases ("cleaner" == q)) [
  | inl e ↦ rw (e, depends, dep_names, Dict.get_or, Dict.get)
  | inr e ↦ rw (e, depends, dep_names, Dict.get_or, Dict.get)
]

unregister_free_example :
    let (ok, r) = unregister one "cleaner" in
    (ok ≡ true) × IsConsistent r × (Dict.has r.plugins "cleaner" ≡ false)
unfolding one register registered validate_plugin_metadata add_dependents Dict.has Dict.put
unregister_free_example = unregister_free one "cleaner" one-IsConsistent one-IsFree refl

abbrev pub split_dots : String → List String
split_dots v = if v == "1.2" then "1" ∷ "2" ∷ [] else v ∷ []

abbrev pub int_of : String → Option ℤ
int_of v = if v == "1" then some (pos 1) else if v == "2" then some (pos 2) else none

too_old : is_version_compatible split_dots int_of "1" "1.2" ≡ false
unfolding is_version_compatible ints compatible_parts padded zeros at_least
too_old = refl

unreadable : is_version_compatible split_dots int_of "beta" "1.2" ≡ true
unfolding is_version_compatible ints compatible_parts
unreadable = refl

unsatisfied : validate_dependencies split_dots int_of one "cleaner" ≡ not_registered "source" ∷ []
unfolding one register registered validate_plugin_metadata add_dependents validate_dependencies
    all_missing missing_of get_dependencies Dict.get Dict.get_or Dict.put Dict.has
unsatisfied = refl

validate_dependencies-IsSatisfied_example :
    (validate_dependencies split_dots int_of one "cleaner" ≡ [])
    ↔ All (IsSatisfied split_dots int_of one) (get_dependencies one "cleaner")
validate_dependencies-IsSatisfied_example =
    validate_dependencies-IsSatisfied split_dots int_of one "cleaner"
