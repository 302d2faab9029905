-- ===== src/Version/Registry.antt =====
-- VersionRegistry of app/shared/versioning.py.
use korea_public_data_be.Base.{
  ℕ, Bool, true, false, Option, none, some, String, List, [], ◌∷◌, ◌==◌, string_eq, keep,
  if◌then◌else◌,
}
use korea_public_data_be.Dict
use korea_public_data_be.Dict.{Dict}
use korea_public_data_be.Version.Defs.{ApiVersion, gt, is_current, short_version}

pub record VersionRegistry : Type 0 where
  pub versions : Dict String ApiVersion
  pub default_version : Option String
  pub latest_version : Option String

unfoldable pub init : VersionRegistry
init = record { versions = []; default_version = none; latest_version = none }

-- The exceptions of the methods.
pub data Error : Type 0 where
  value_error key_error : Error

pub data Outcome : Type 0 where
  done : VersionRegistry → Outcome
  raised : Error → VersionRegistry → Outcome

-- Python's `max` over a list with a first element: the first of the greatest.
unfoldable pub max_from : ApiVersion → List ApiVersion → ApiVersion
max_from best [] = best
max_from best (v ∷ vs) = max_from (if gt v best then v else best) vs

newest : List ApiVersion → Option ApiVersion
unfolding max_from
newest [] = none
newest (v ∷ vs) = some (max_from v vs)

abbrev pub names : Option String → String → Bool
names none key = false
names (some k) key = k == key

module _ (str : ℕ → String) where
  -- The `elif` on the latest version, which is read from the dict that has the new one already.
  abbrev raise_latest : VersionRegistry → String → ApiVersion → String → Option ApiVersion → Outcome
  raise_latest r key v latest none = raised key_error r
  raise_latest r key v latest (some old) =
      done (if gt v old then record r { latest_version = some key } else r)

  unfoldable pub set_latest : VersionRegistry → String → ApiVersion → Bool → Option String → Outcome
  set_latest r key v true latest = done (record r { latest_version = some key })
  set_latest r key v false none = done (record r { latest_version = some key })
  set_latest r key v false (some latest) = raise_latest r key v latest (Dict.get r.versions latest)

  unfoldable pub set_default : VersionRegistry → String → Bool → Option String → VersionRegistry
  set_default r key false (some d) = r
  set_default r key _ _ = record r { default_version = some key }

  unfoldable pub register_version : VersionRegistry → ApiVersion → Bool → Bool → Outcome
  register_version r v is_default is_latest =
      let key = short_version str v in
      let added : VersionRegistry = record r { versions = Dict.put r.versions key v } in
      if Dict.has r.versions key
      then raised value_error r
      else set_latest (set_default added key is_default r.default_version) key v is_latest
          r.latest_version

  -- The key of the greatest of the remaining versions, if there is one.
  unfoldable pub newest_key : Dict String ApiVersion → Option String
  unfolding newest
  newest_key d = elim (newest (Dict.values d)) [ none ↦ none | some v ↦ some (short_version str v) ]

  unfoldable pub remove_version : VersionRegistry → String → Outcome
  remove_version r key =
      let rest = Dict.remove r.versions key in
      if Dict.has r.versions key
      then done (record {
        versions = rest;
        default_version =
            if names r.default_version key then newest_key rest else r.default_version;
        latest_version = if names r.latest_version key then newest_key rest else r.latest_version;
      })
      else raised value_error r

-- deprecate_version on the version that is found
abbrev pub deprecated : ℕ → Option ℕ → ApiVersion → ApiVersion
deprecated today none v = record v { is_deprecated = true; deprecation_date = some today }
deprecated today (some day) v = record v {
  is_deprecated = true;
  deprecation_date = some today;
  sunset_date = some day;
}

unfoldable pub deprecate_version : ℕ → VersionRegistry → String → Option ℕ → Outcome
deprecate_version today r key sunset = elim (Dict.get r.versions key) [
  | none ↦ raised value_error r
  | some v ↦ done (record r { versions = Dict.put r.versions key (deprecated today sunset v) })
]

unfoldable pub get_version : VersionRegistry → String → Option ApiVersion
get_version r key = Dict.get r.versions key

-- get_default_version and get_latest_version, on the key: a key that is not in the dict raises.
unfoldable pub version_at : VersionRegistry → Option String → Option ApiVersion
version_at r none = none
version_at r (some key) = Dict.get r.versions key

unfoldable pub list_supported_versions : ℕ → VersionRegistry → List String
list_supported_versions today r = Dict.keys (keep (λ e. is_current today e.1) r.versions)

supported : ℕ → Option ApiVersion → Bool
supported today none = false
supported today (some v) = is_current today v

unfoldable pub is_version_supported : ℕ → VersionRegistry → String → Bool
unfolding supported get_version
is_version_supported today r key = supported today (get_version r key)
