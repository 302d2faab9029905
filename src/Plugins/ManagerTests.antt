-- ===== src/Plugins/ManagerTests.antt =====
-- Plugins managed by app/core/plugins/manager.py; the theorems applied.
use korea_public_data_be.Base.{
  elem, ◌||◌, eqb, false≢true, sym, ◌∙◌, ℕ, Bool, true, false, inl, inr, none, String, List, [],
  ◌∷◌, Bool-cases, ◌≡◌, refl, ◌==◌, string_eq, Option, some, if◌then◌else◌,
}
use korea_public_data_be.Dict
use korea_public_data_be.Plugins.Defs.{
  active, is_active, PluginMetadata, PluginRegistry, empty_registry, register, registered,
  validate_plugin_metadata, add_dependents, update_plugin_state, get_dependencies, get_dependents,
}
use korea_public_data_be.Plugins.Versions.{
  missing_of, version_missing, all_missing, validate_dependencies,
}
use korea_public_data_be.Plugins.Sort.{topological_sort, walk, visit, links, edges, kahn, release}
use korea_public_data_be.Plugins.Register.{
  IsConsistent, empty_registry-IsConsistent, register-IsConsistent,
}
use korea_public_data_be.Plugins.Manager.{
  PluginManager, list_active, deactivate_plugin, shutdown_manager,
}
use korea_public_data_be.Plugins.Running.{runs}
use korea_public_data_be.Plugins.Deactivate.{Deactivated}
use korea_public_data_be.Plugins.Supported.{wanted, IsSupported}
use korea_public_data_be.Plugins.Invariant.{deactivate_plugin_settles}
use korea_public_data_be.Plugins.Grown.{IsGrown}
use korea_public_data_be.Plugins.Activated.{activate_plugin_settles}
use korea_public_data_be.Plugins.Activation.{
  ActivationError, activate_plugin, with_dependencies, set_state, in_order, after_dependencies,
  activate_each, all_but_last, resolve_dependencies, is_inactive, initialized, failed, raised,
}
use korea_public_data_be.Plugins.Tests.{
  cleaner, source, one, two, split_dots, int_of, two-IsConsistent,
}
use korea_public_data_be.Plugins.Shutdown.{shutdown_manager-stops, shutdown_manager-leaves}

abbrev running_cleaner : PluginMetadata
running_cleaner = record cleaner { state = active }

abbrev running_source : PluginMetadata
running_source = record source { state = active }

unfoldable source_only : PluginRegistry
source_only = (register empty_registry running_source).1

-- The cleaner depends on the source, which is registered first.
unfoldable source_first : PluginRegistry
unfolding source_only
source_first = (register source_only running_cleaner).1

unfoldable cleaner_only : PluginRegistry
cleaner_only = (register empty_registry running_cleaner).1

unfoldable cleaner_first : PluginRegistry
unfolding cleaner_only
cleaner_first = (register cleaner_only running_source).1

source_first-IsConsistent : IsConsistent source_first
unfolding source_first
source_first-IsConsistent =
    (register-IsConsistent source_only running_cleaner
      (register-IsConsistent empty_registry running_source empty_registry-IsConsistent).0).0

cleaner_first-IsConsistent : IsConsistent cleaner_first
unfolding cleaner_first
cleaner_first-IsConsistent =
    (register-IsConsistent cleaner_only running_source
      (register-IsConsistent empty_registry running_cleaner empty_registry-IsConsistent).0).0

abbrev managed : PluginRegistry → PluginManager
managed r = record { registry = r; is_initialized = true; cleanups = 0; initializations = 0 }

-- The cleanup of the source raises.
abbrev cleanup : ℕ → String → Option Bool
cleanup i p = if p == "source" then none else some true

-- The only dependency is that of the cleaner on the source.
only_source : (q d : String) → elem d (wanted source_first q) ≡ true → ("source" == d) ≡ true
unfolding source_first source_only register registered validate_plugin_metadata add_dependents
    get_dependencies Dict.get Dict.get_or Dict.put Dict.has
only_source q d e = elim (Bool-cases ("source" == q)) [
  | inl same ↦ absurd (false≢true (rw (same, elem) at e))
  | inr other ↦ elim (Bool-cases ("cleaner" == q)) [
    | inl same ↦ first ("source" == d) (rw (same, elem) at (rw (other, elem) at e))
    | inr neither ↦ absurd (false≢true (rw (neither, elem) at (rw (other, elem) at e)))
  ]
]
  where
    first : (b : Bool) → (b || false) ≡ true → b ≡ true
    first true h = h
    first false h = h

source_first-IsSupported : IsSupported source_first
unfolding source_first source_only register registered validate_plugin_metadata add_dependents
    is_active Dict.get Dict.put Dict.has
source_first-IsSupported q d on e = rw (only_source q d e) refl

deactivate_plugin_settles_example :
    let r = (deactivate_plugin cleanup (managed source_first) "source").1.registry in
    Deactivated source_first "source" r × IsSupported r
deactivate_plugin_settles_example =
    deactivate_plugin_settles cleanup (managed source_first) "source" source_first-IsConsistent
      source_first-IsSupported

two_idle : (q : String) → runs two q ≡ false
unfolding one two register registered validate_plugin_metadata add_dependents is_active Dict.get
    Dict.put Dict.has
two_idle q = elim (Bool-cases ("cleaner" == q)) [
  | inl same ↦ rw same refl
  | inr other ↦ elim (Bool-cases ("source" == q)) [
    | inl same ↦ rw (other, same) refl
    | inr neither ↦ rw (other, neither) refl
  ]
]

abbrev text_of : ActivationError → String
text_of e = "failed"

-- The first plugin to be initialized is, the second raises.
abbrev initialize_first : ℕ → String → Option Bool
initialize_first i p = if eqb i 0 then some true else none

abbrev activate : ℕ → PluginManager → String → Option (Bool × PluginManager)
activate = activate_plugin text_of initialize_first split_dots int_of (λ xs. xs)

abbrev activity : Option (Bool × PluginManager) → Option (List String)
activity o = elim o [ none ↦ none | some (ok, m) ↦ some (list_active m.registry.metadata) ]

source_activated : activity (activate 2 (managed two) "cleaner") ≡ some ("source" ∷ [])
unfolding one two register registered validate_plugin_metadata add_dependents activate_plugin
    with_dependencies set_state update_plugin_state validate_dependencies all_missing missing_of
    version_missing in_order after_dependencies activate_each all_but_last resolve_dependencies
    topological_sort walk visit links edges kahn release get_dependencies is_inactive is_active
    initialized failed raised list_active Dict.get Dict.get_or Dict.put Dict.has
source_activated = refl

activate_plugin_settles_example :
    (ok : Bool) × (m : PluginManager) × (activate 2 (managed two) "cleaner" ≡ some (ok, m))
    × IsGrown two m.registry
    × (runs m.registry "cleaner" ≡ ok)
activate_plugin_settles_example =
    activate_plugin_settles text_of initialize_first split_dots int_of (λ xs. xs) (λ x xs. refl) 0
      (managed two) "cleaner" two-IsConsistent
      (λ q d on e. absurd (false≢true (sym (two_idle q) ∙ on)))

shutdown_manager-stops_example :
    let m = (shutdown_manager cleanup (managed cleaner_first)).1 in
    ((q : String) → runs m.registry q ≡ false) × (m.is_initialized ≡ false)
unfolding cleaner_first cleaner_only register registered validate_plugin_metadata add_dependents
    list_active is_active Dict.get Dict.get_or Dict.put Dict.has
shutdown_manager-stops_example =
    shutdown_manager-stops cleanup (managed cleaner_first) cleaner_first-IsConsistent refl

shutdown_manager-leaves_example :
    let (ok, m) = shutdown_manager cleanup (managed source_first) in
    (ok ≡ true) × (runs m.registry "source" ≡ true)
unfolding source_first source_only register registered validate_plugin_metadata add_dependents
    list_active is_active get_dependents Dict.get Dict.get_or Dict.put Dict.has
shutdown_manager-leaves_example =
    shutdown_manager-leaves cleanup (managed source_first) "source" "cleaner" [] ("cleaner" ∷ [])
      source_first-IsConsistent refl refl refl refl refl refl refl
