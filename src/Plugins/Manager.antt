-- ===== src/Plugins/Manager.antt =====
-- Deactivation and shutdown of plugins, by PluginManager of app/core/plugins/manager.py. What a plugin's
-- cleanup comes to at the i-th call is a parameter: true, false, or none for an exception. A plugin's
-- get_metadata gives the object that the registry has of it, as in base.py. Handlers of events and hooks
-- only see what happens: their exceptions are caught.
use korea_public_data_be.Base.{
  ℕ, suc, Bool, true, false, not, Option, none, some, String, List, [], ◌∷◌, if◌then◌else◌,
  string_eq,
}
use korea_public_data_be.Dict
use korea_public_data_be.Dict.{Dict}
use korea_public_data_be.Plugins.Defs.{
  is_active, inactive, PluginMetadata, PluginRegistry, update_plugin_state, get_dependents,
}

pub record PluginManager : Type 0 where
  pub registry : PluginRegistry
  pub is_initialized : Bool
  pub cleanups : ℕ
  pub initializations : ℕ

-- list_plugins(state=PluginState.ACTIVE)
unfoldable pub list_active : Dict String PluginMetadata → List String
list_active [] = []
list_active ((name, m) ∷ rest) =
    let names = list_active rest in if is_active m.state then name ∷ names else names

-- The dependents that are active; none for the exception on a dependent of no metadata
unfoldable pub active_names : PluginRegistry → List String → Option (List String)
active_names r [] = some []
active_names r (d ∷ ds) =
    let rest = active_names r ds in
    elim (Dict.get r.metadata d) [
      | none ↦ none
      | some m ↦ elim rest [
        | none ↦ none
        | some names ↦ some (if is_active m.state then d ∷ names else names)
      ]
    ]

module _ (cleanup : ℕ → String → Option Bool) where
  -- The cleanup of a plugin that has been set to INACTIVE
  unfoldable pub cleaned : PluginManager → String → Bool × PluginManager
  unfolding update_plugin_state
  cleaned m p =
      let m' = record m {
        registry = update_plugin_state m.registry p inactive none;
        cleanups = suc m.cleanups;
      } in
      elim (cleanup m.cleanups p) [ none ↦ (false, m') | some ok ↦ (ok, m') ]

  -- Active dependents are refused.
  unfoldable pub by_dependents : PluginManager → String → List String → Bool × PluginManager
  unfolding cleaned
  by_dependents m p [] = cleaned m p
  by_dependents m p (d ∷ ds) = (false, m)

  unfoldable pub without_dependents : PluginManager → String → Bool × PluginManager
  without_dependents m p = elim (active_names m.registry (get_dependents m.registry p)) [
    | none ↦ (false, m)
    | some names ↦ by_dependents m p names
  ]

  unfoldable pub deactivate_plugin : PluginManager → String → Bool × PluginManager
  deactivate_plugin m p =
      if not (Dict.has m.registry.plugins p)
      then (false, m)
      else (elim (Dict.get m.registry.metadata p) [
        | none ↦ (false, m)
        | some d ↦ if not (is_active d.state) then (true, m) else without_dependents m p
      ])

  unfoldable pub deactivate_all : List String → PluginManager → PluginManager
  unfolding deactivate_plugin
  deactivate_all [] m = m
  deactivate_all (p ∷ ps) m = deactivate_all ps (deactivate_plugin m p).1

  -- The answers of the deactivations are not looked at.
  unfoldable pub shutdown_manager : PluginManager → Bool × PluginManager
  unfolding deactivate_all list_active
  shutdown_manager m =
      (true, record (deactivate_all (list_active m.registry.metadata) m) { is_initialized = false })
