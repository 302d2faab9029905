-- ===== src/Plugins/Versions.antt =====
-- Versions of plugins and the validation of dependencies, by app/core/plugins/registry.py. `split` at the
-- dots and `int`, which may raise ValueError, are Python's.
use korea_public_data_be.Base.{
  ℕ, zero, suc, ◌-◌, Bool, true, false, Option, none, some, String, List, [], ◌∷◌, ◌++◌, ◌==◌,
  string_eq, if◌then◌else◌, length, max, ℤ, pos, eq_int, lt_int,
}
use korea_public_data_be.Dict
use korea_public_data_be.Plugins.Defs.{
  PluginDependency, PluginMetadata, PluginRegistry, get_dependencies,
}

-- `[0] * n`
unfoldable pub zeros : ℕ → List ℤ
zeros zero = []
zeros (suc n) = pos 0 ∷ zeros n

unfoldable pub padded : ℕ → List ℤ → List ℤ
unfolding zeros
padded n xs = xs ++ zeros (n - length xs)

-- Python's `>=` on lists of integers
unfoldable pub at_least : List ℤ → List ℤ → Bool
at_least xs [] = true
at_least [] (y ∷ ys) = false
at_least (x ∷ xs) (y ∷ ys) = let rest = at_least xs ys in if eq_int x y then rest else lt_int y x

unfoldable pub compatible_parts : Option (List ℤ) → Option (List ℤ) → Bool
unfolding at_least padded
compatible_parts (some xs) (some ys) =
    let max_len = max (length xs) (length ys) in at_least (padded max_len xs) (padded max_len ys)
compatible_parts (some xs) none = true
compatible_parts none ys = true

-- What validate_dependencies lists, in place of its texts
pub data MissingDependency : Type 0 where
  not_registered : String → MissingDependency
  incompatible : String → String → String → MissingDependency

module _ (int : String → Option ℤ) where
  -- `[int(x) for x in xs]`
  unfoldable pub ints : List String → Option (List ℤ)
  ints [] = some []
  ints (x ∷ xs) =
      let rest = ints xs in
      elim (int x) [ none ↦ none | some n ↦ elim rest [ none ↦ none | some ns ↦ some (n ∷ ns) ] ]

module _ (split : String → List String) (int : String → Option ℤ) where
  unfoldable pub is_version_compatible : String → String → Bool
  unfolding ints compatible_parts
  is_version_compatible available required =
      compatible_parts (ints int (split available)) (ints int (split required))

  -- The test of a registered plugin's version, where one is asked for and the metadata is found
  unfoldable pub version_missing :
      String → Option String → Option PluginMetadata → List MissingDependency
  version_missing n (some required) (some m) =
      if required == ""
      then []
      else if is_version_compatible m.version required
      then []
      else incompatible n required m.version ∷ []
  version_missing n (some required) none = []
  version_missing n none m = []

  -- What one dependency adds to the missing ones
  unfoldable pub missing_of : PluginRegistry → PluginDependency → List MissingDependency
  unfolding version_missing
  missing_of r dep =
      if Dict.has r.plugins dep.name
      then version_missing dep.name dep.version (Dict.get r.metadata dep.name)
      else if dep.optional
      then []
      else not_registered dep.name ∷ []

  unfoldable pub all_missing : PluginRegistry → List PluginDependency → List MissingDependency
  unfolding missing_of
  all_missing r [] = []
  all_missing r (dep ∷ deps) = missing_of r dep ++ all_missing r deps

  unfoldable pub validate_dependencies : PluginRegistry → String → List MissingDependency
  unfolding all_missing
  validate_dependencies r p = all_missing r (get_dependencies r p)
