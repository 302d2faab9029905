-- ===== src/Plugins/Activation.antt =====
-- Activation of plugins, by PluginManager of app/core/plugins/manager.py, over validate_dependencies and
-- resolve_dependencies of registry.py. What a plugin's initialize comes to at the i-th call is a parameter:
-- true, false, or none for an exception. `str` gives the texts of the errors, `split` and `int` are
-- Python's, and `order` is the order in which it goes through a set. The configuration, which only
-- initialize gets, and loaded_at are left out; registering a data source only logs.
use korea_public_data_be.Base.{
  ℕ, zero, suc, Bool, true, false, not, ◌⊎◌, inl, inr, Option, none, some, String, List, [], ◌∷◌,
  if◌then◌else◌, string_eq, ℤ,
}
use korea_public_data_be.Dict
use korea_public_data_be.Plugins.Defs.{
  PluginState, is_active, active, initializing, error, PluginRegistry, update_plugin_state,
}
use korea_public_data_be.Plugins.Versions.{MissingDependency, validate_dependencies}
use korea_public_data_be.Plugins.Sort.{SortError, topological_sort}
use korea_public_data_be.Plugins.Manager.{PluginManager}

-- Why an activation fails
pub data ActivationError : Type 0 where
  missing_dependencies : List MissingDependency → ActivationError
  unresolved : SortError → ActivationError
  failed_dependency : String → ActivationError
  initialization_failed : ActivationError
  initialization_raised : ActivationError

-- `deps_order[:-1]`
unfoldable pub all_but_last : List String → List String
all_but_last [] = []
all_but_last (x ∷ xs) = let rest = all_but_last xs in elim xs [ [] ↦ [] | _ ↦ x ∷ rest ]

unfoldable pub set_state : PluginManager → String → PluginState → Option String → PluginManager
unfolding update_plugin_state
set_state m p s message = record m { registry = update_plugin_state m.registry p s message }

-- `dep_metadata and dep_metadata.state != PluginState.ACTIVE`
unfoldable pub is_inactive : PluginRegistry → String → Bool
is_inactive r p = elim (Dict.get r.metadata p) [ none ↦ false | some m ↦ not (is_active m.state) ]

-- What follows the activation of one dependency; none is out of fuel.
abbrev pub after_dependency :
    (PluginManager → Option (Option String × PluginManager))
    → String
    → Option (Bool × PluginManager)
    → Option (Option String × PluginManager)
after_dependency rest d none = none
after_dependency rest d (some (true, m)) = rest m
after_dependency rest d (some (false, m)) = some (some d, m)

-- The loop over the dependencies, up to one whose activation fails
unfoldable pub activate_each :
    (PluginManager → String → Option (Bool × PluginManager))
    → List String
    → PluginManager
    → Option (Option String × PluginManager)
unfolding is_inactive
activate_each activate [] m = some (none, m)
activate_each activate (d ∷ ds) m =
    let rest = activate_each activate ds in
    if is_inactive m.registry d then after_dependency rest d (activate m d) else rest m

unfoldable pub resolve_dependencies :
    PluginRegistry → (List String → List String) → String → SortError ⊎ List String
unfolding topological_sort
resolve_dependencies r order p = topological_sort r order (p ∷ [])

module _ (str : ActivationError → String) where
  unfoldable pub failed : PluginManager → String → ActivationError → Bool × PluginManager
  unfolding set_state
  failed m p e = (false, set_state m p error (some (str e)))

  -- The state is set before the raise, and again where the exception is caught.
  unfoldable pub raised : PluginManager → String → ActivationError → Bool × PluginManager
  unfolding failed
  raised m p e = failed (failed m p e).1 p e

  module _ (initialize : ℕ → String → Option Bool) where
    unfoldable pub initialized : PluginManager → String → Bool × PluginManager
    unfolding failed
    initialized m p =
        let m' = record m { initializations = suc m.initializations } in
        elim (initialize m.initializations p) [
          | none ↦ failed m' p initialization_raised
          | some true ↦ (true, set_state m' p active none)
          | some false ↦ failed m' p initialization_failed
        ]

    -- What follows the loop over the dependencies
    unfoldable pub after_dependencies :
        String → Option (Option String × PluginManager) → Option (Bool × PluginManager)
    unfolding raised initialized
    after_dependencies p none = none
    after_dependencies p (some (some d, m)) = some (raised m p (failed_dependency d))
    after_dependencies p (some (none, m)) = some (initialized m p)

    module _ (activate : PluginManager → String → Option (Bool × PluginManager)) where
      unfoldable pub in_order :
          PluginManager → String → SortError ⊎ List String → Option (Bool × PluginManager)
      unfolding after_dependencies activate_each all_but_last
      in_order m p (inl e) = some (failed m p (unresolved e))
      in_order m p (inr deps_order) =
          after_dependencies p (activate_each activate (all_but_last deps_order) m)

      unfoldable pub with_dependencies :
          (List String → List String)
          → PluginManager
          → String
          → List MissingDependency
          → Option (Bool × PluginManager)
      unfolding in_order resolve_dependencies
      with_dependencies order m p [] = in_order m p (resolve_dependencies m.registry order p)
      with_dependencies order m p (x ∷ xs) = some (raised m p (missing_dependencies (x ∷ xs)))

    module _ (split : String → List String) (int : String → Option ℤ)
        (order : List String → List String) where
      -- none is out of fuel
      unfoldable pub activate_plugin : ℕ → PluginManager → String → Option (Bool × PluginManager)
      unfolding with_dependencies set_state validate_dependencies
      activate_plugin zero m p = none
      activate_plugin (suc fuel) m p =
          let begun = set_state m p initializing none in
          let rest =
            with_dependencies (activate_plugin fuel) order begun p
              (validate_dependencies split int begun.registry p) in
          if not (Dict.has m.registry.plugins p)
          then some (false, m)
          else (elim (Dict.get m.registry.metadata p) [
            | none ↦ some (false, m)
            | some d ↦ if is_active d.state then some (true, m) else rest
          ])
