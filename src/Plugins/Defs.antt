-- ===== src/Plugins/Defs.antt =====
-- PluginRegistry of app/core/plugins/registry.py, with the metadata of app/core/plugins/base.py. A
-- plugin is named by what its get_metadata gives. A set is a list in the order of insertion.
use korea_public_data_be.Base.{
  Bool, true, false, not, ◌&&◌, Option, none, some, String, List, [], ◌∷◌, ◌++◌, ◌==◌, string_eq,
  if◌then◌else◌, elem, keep,
}
use korea_public_data_be.Dict
use korea_public_data_be.Dict.{Dict}

pub data PluginState : Type 0 where
  discovered loading loaded initializing active inactive error unloading unloaded : PluginState

unfoldable pub is_active : PluginState → Bool
is_active active = true
is_active _ = false

pub record PluginDependency : Type 0 where
  pub name : String
  pub version : Option String
  pub optional : Bool

pub record PluginMetadata : Type 0 where
  pub name : String
  pub version : String
  pub plugin_type : String
  pub dependencies : List PluginDependency
  pub state : PluginState
  pub error_message : Option String

pub record PluginRegistry : Type 0 where
  pub plugins : Dict String PluginMetadata
  pub metadata : Dict String PluginMetadata
  pub dependencies : Dict String (List PluginDependency)
  pub dependents : Dict String (List String)

abbrev pub empty_registry : PluginRegistry
empty_registry = record { plugins = []; metadata = []; dependencies = []; dependents = [] }

abbrev pub add_to : String → List String → List String
add_to x xs = if elem x xs then xs else xs ++ (x ∷ [])

-- set.discard
abbrev pub discard : String → List String → List String
discard x xs = keep (λ y. not (y == x)) xs

-- self._dependents[dep.name].add(plugin_name), for each dependency
unfoldable pub add_dependents :
    String → List PluginDependency → Dict String (List String) → Dict String (List String)
add_dependents p [] d = d
add_dependents p (dep ∷ deps) d =
    add_dependents p deps (Dict.put d dep.name (add_to p (Dict.get_or d dep.name [])))

unfoldable pub validate_plugin_metadata : PluginMetadata → Bool
validate_plugin_metadata m = not (m.name == "") && not (m.version == "")

unfoldable pub registered : PluginRegistry → PluginMetadata → PluginRegistry
unfolding add_dependents
registered r m = record {
  plugins = Dict.put r.plugins m.name m;
  metadata = Dict.put r.metadata m.name m;
  dependencies = Dict.put r.dependencies m.name m.dependencies;
  dependents = add_dependents m.name m.dependencies r.dependents;
}

unfoldable pub register : PluginRegistry → PluginMetadata → Bool × PluginRegistry
unfolding registered validate_plugin_metadata
register r m =
    if Dict.has r.plugins m.name
    then (false, r)
    else if validate_plugin_metadata m
    then (true, registered r m)
    else (false, r)

unfoldable pub discard_dependents :
    String → List PluginDependency → Dict String (List String) → Dict String (List String)
discard_dependents p [] d = d
discard_dependents p (dep ∷ deps) d =
    discard_dependents p deps (Dict.put d dep.name (discard p (Dict.get_or d dep.name [])))

unfoldable pub unregistered : PluginRegistry → String → PluginRegistry
unfolding discard_dependents
unregistered r p = record {
  plugins = Dict.remove r.plugins p;
  metadata = Dict.remove r.metadata p;
  dependencies = Dict.remove r.dependencies p;
  dependents = Dict.remove (discard_dependents p (Dict.get_or r.dependencies p []) r.dependents) p;
}

-- The test for active dependents reads `.get` of a PluginMetadata or of an empty dict: none is the
-- AttributeError of the first, which a registered dependent raises.
unfoldable pub active_dependents : PluginRegistry → List String → Option (List String)
active_dependents r [] = some []
active_dependents r (d ∷ ds) = if Dict.has r.metadata d then none else active_dependents r ds

-- unregister: an AttributeError is caught and answered with False.
unfoldable pub unregister : PluginRegistry → String → Bool × PluginRegistry
unfolding active_dependents unregistered
unregister r p =
    if not (Dict.has r.plugins p)
    then (false, r)
    else elim (active_dependents r (Dict.get_or r.dependents p [])) [
      | none ↦ (false, r)
      | some ds ↦ elim ds [ [] ↦ (true, unregistered r p) | _ ↦ (false, r) ]
    ]

unfoldable pub update_plugin_state :
    PluginRegistry → String → PluginState → Option String → PluginRegistry
update_plugin_state r p s message = elim (Dict.get r.metadata p) [
  | none ↦ r
  | some m ↦ record r {
    metadata = Dict.put r.metadata p (record m {
      state = s;
      error_message = elim message [
        | none ↦ m.error_message
        | some e ↦ if e == "" then m.error_message else some e
      ];
    });
  }
]

unfoldable pub get_dependencies : PluginRegistry → String → List PluginDependency
get_dependencies r p = Dict.get_or r.dependencies p []

unfoldable pub get_dependents : PluginRegistry → String → List String
get_dependents r p = Dict.get_or r.dependents p []
