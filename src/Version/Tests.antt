-- ===== src/Version/Tests.antt =====
-- The default registry, requests against it, and the theorems at concrete inputs.
use korea_public_data_be.Base.{
  Option, not, ◌≡◌, ◌⊎◌, refl, true, false, none, some, String, [], ◌∷◌, string_eq, ◌==◌, format,
  if◌then◌else◌,
}
use korea_public_data_be.Dict
use korea_public_data_be.Samples.{decimal}
use korea_public_data_be.Version.Defs.{
  ApiVersion, compare, gt, short_version, is_current, is_sunset,
}
use korea_public_data_be.Version.Registry.{
  VersionRegistry, Outcome, done, raised, value_error, init, set_default, set_latest,
  register_version, remove_version, get_version, version_at,
}
use korea_public_data_be.Version.Invariant.{
  IsValid, register_version-IsValid, remove_version-IsValid,
}
use korea_public_data_be.Version.Latest.{IsTop, latest-IsTop, Leaves}
use korea_public_data_be.Version.Extract.{
  Request, Patterns, Extraction, extracted, rejected, unsupported, url_path, header, query_param,
  extract_version, requested, extract_first, extract_by, extract_from_url, extract_from_header,
  extract_from_query, by_key, admit, default_key,
}
use korea_public_data_be.Version.Extracted.{answer_to, extract_version-verdict}
use korea_public_data_be.Version.Named.{Named}

abbrev v1 : ApiVersion
v1 = record {
  major = 1;
  minor = 0;
  patch = 0;
  label = none;
  release_date = some 19723;
  deprecation_date = none;
  sunset_date = none;
  is_stable = true;
  is_deprecated = false;
  is_experimental = false;
}

abbrev v2 : ApiVersion
v2 = record v1 { major = 2; release_date = some 19905 }

abbrev v2_1 : ApiVersion
v2_1 = record v2 { minor = 1 }

-- create_version_registry
abbrev default_registry : VersionRegistry
default_registry = record {
  versions = ("v1", v1) ∷ ("v2", v2) ∷ [];
  default_version = some "v1";
  latest_version = some "v2";
}

after : Outcome → VersionRegistry
after (done r) = r
after (raised e r) = r

create_version_registry :
    register_version decimal (after (register_version decimal init v1 true false)) v2 false true
    ≡ done default_registry
unfolding after register_version set_default set_latest init short_version decimal format gt compare
    Dict.has Dict.put Dict.get
create_version_registry = refl

default_registry-IsValid : IsValid decimal default_registry
unfolding short_version decimal format Dict.has
default_registry-IsValid = record {
  keyed = (refl, (refl, tt));
  distinct = (refl, (refl, tt));
  default_in = refl;
  latest_in = refl;
}

default_registry-IsTop : IsTop default_registry.versions (some "v2")
unfolding Dict.get gt compare
default_registry-IsTop = (v2, refl, (refl, (refl, tt)))

register_version-IsValid_example :
    ((Dict.has default_registry.versions (short_version decimal v2_1) ≡ true)
      × (register_version decimal default_registry v2_1 false false
          ≡ raised value_error default_registry))
    ⊎ ((Dict.has default_registry.versions (short_version decimal v2_1) ≡ false)
        × (r' : VersionRegistry) × (register_version decimal default_registry v2_1 false false
            ≡ done r')
        × IsValid decimal r'
        × (Dict.get r'.versions (short_version decimal v2_1) ≡ some v2_1))
register_version-IsValid_example =
    register_version-IsValid decimal default_registry v2_1 false false default_registry-IsValid

remove_version-IsValid_example :
    ((Dict.has default_registry.versions "v1" ≡ false)
      × (remove_version decimal default_registry "v1" ≡ raised value_error default_registry))
    ⊎ ((Dict.has default_registry.versions "v1" ≡ true)
        × (r' : VersionRegistry) × (remove_version decimal default_registry "v1" ≡ done r')
        × IsValid decimal r'
        × (Dict.get r'.versions "v1" ≡ none))
remove_version-IsValid_example =
    remove_version-IsValid decimal default_registry "v1" default_registry-IsValid

latest-IsTop_example :
    Leaves decimal
      (Dict.has default_registry.versions (short_version decimal v2_1))
      default_registry
      (register_version decimal default_registry v2_1 false false)
    × Leaves decimal
        (not (Dict.has default_registry.versions "v2"))
        default_registry
        (remove_version decimal default_registry "v2")
latest-IsTop_example =
    latest-IsTop decimal default_registry v2_1 false "v2" default_registry-IsValid
      default_registry-IsTop

-- What the regular expressions return for the requests below.
abbrev patterns : Patterns
patterns = record {
  url_pattern = λ path.
      if path == "/api/v2/x" then some "2" else if path == "/api/v1.0/x" then some "1.0" else none;
  header_pattern = λ h. none;
  content_type_pattern = λ h. none;
  split = λ v. if v == "1.0" then "1" ∷ "0" ∷ [] else v ∷ [];
  starts_with_v = λ v. v == "v1";
}

abbrev request : String → Request
request path = record { path = path; accept = none; content_type_header = none; query_params = [] }

abbrev extract : String → Extraction
extract path =
    extract_version decimal patterns 20000 default_registry url_path (header ∷ query_param ∷ [])
      (request path) none

-- "v1.0" is not the key "v1", so the default version asked for with its minor number is unknown.
requests :
    (extract "/api/v2/x" ≡ extracted v2)
    × (extract "/health" ≡ extracted v1)
    × (extract "/api/v1.0/x" ≡ rejected unsupported)
unfolding extract_version requested extract_first extract_by extract_from_url extract_from_header
    extract_from_query by_key admit default_key version_at get_version is_current is_sunset
    short_version decimal format Dict.get
requests = (refl, refl, refl)

extract_version-verdict_example :
    (key : Option String) × Named decimal patterns
      (request "/api/v2/x")
      url_path
      (header ∷ query_param ∷ [])
      none
      key
    × (extract "/api/v2/x"
        ≡ answer_to decimal patterns 20000 default_registry url_path
            (header ∷ query_param ∷ [])
            (request "/api/v2/x")
            none
            key)
extract_version-verdict_example =
    extract_version-verdict decimal patterns 20000 default_registry url_path
      (header ∷ query_param ∷ []) (request "/api/v2/x") none default_registry-IsValid
