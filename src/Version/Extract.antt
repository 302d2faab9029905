-- ===== src/Version/Extract.antt =====
-- VersionExtractor of app/shared/versioning.py. The regular expressions and `split` are Python's:
-- `patterns` gives the first group of a match.
use korea_public_data_be.Base.{
  ℕ, Bool, Option, none, some, String, List, [], ◌∷◌, ◌==◌, string_eq, format, if◌then◌else◌,
}
use korea_public_data_be.Dict
use korea_public_data_be.Dict.{Dict}
use korea_public_data_be.Version.Defs.{ApiVersion, short_version, is_current, is_sunset}
use korea_public_data_be.Version.Registry.{VersionRegistry, get_version, version_at}

pub data VersioningMethod : Type 0 where
  url_path header query_param content_type : VersioningMethod

-- The parts of a request that the extractor reads.
pub record Request : Type 0 where
  pub path : String
  pub accept : Option String
  pub content_type_header : Option String
  pub query_params : Dict String String

pub record Patterns : Type 0 where
  pub url_pattern : String → Option String
  pub header_pattern : String → Option String
  pub content_type_pattern : String → Option String
  pub split : String → List String  -- at the dots
  pub starts_with_v : String → Bool

-- The HTTP errors of extract_version: 400 without a version, 400 for an unknown one, 410.
pub data Rejection : Type 0 where
  no_version unsupported gone : Rejection

pub data Extraction : Type 0 where
  extracted : ApiVersion → Extraction
  rejected : Rejection → Extraction

-- An empty text and a missing one are alike false.
abbrev pub non_empty : Option String → Option String
non_empty none = none
non_empty (some s) = if s == "" then none else some s

unfoldable pub or_else : Option String → Option String → Option String
or_else none o = o
or_else (some s) o = some s

-- The checks on the version under the key; a deprecated version is only logged.
unfoldable pub admit : ℕ → Option ApiVersion → Extraction
admit today none = rejected unsupported
admit today (some v) =
    if is_current today v
    then extracted v
    else if is_sunset today v
    then rejected gone
    else extracted v

unfoldable pub default_key : (ℕ → String) → Option ApiVersion → Option String
default_key str none = none
default_key str (some v) = some (short_version str v)

unfoldable pub by_key : ℕ → VersionRegistry → Option String → Extraction
by_key today r none = rejected no_version
by_key today r (some key) = admit today (get_version r key)

module _ (str : ℕ → String) (re : Patterns) where
  -- The three ways in which extract_from_url writes what it has split.
  url_version : String → List String → String
  url_version version (a ∷ []) = format ("v" ∷ a ∷ [])
  url_version version (a ∷ b ∷ []) = format ("v" ∷ a ∷ "." ∷ b ∷ [])
  url_version version _ = format ("v" ∷ version ∷ [])

  unfoldable pub extract_from_url : String → Option String
  unfolding url_version
  extract_from_url path = elim (re.url_pattern path) [
    | none ↦ none
    | some v ↦ some (url_version v (re.split v))
  ]

  matched : Option String → Option String
  matched none = none
  matched (some v) = some (format ("v" ∷ v ∷ []))

  unfoldable pub extract_from_header : Option String → Option String
  unfolding matched
  extract_from_header accept = elim (non_empty accept) [
    | none ↦ none
    | some h ↦ matched (re.header_pattern h)
  ]

  unfoldable pub extract_from_content_type : Option String → Option String
  unfolding matched
  extract_from_content_type h = elim (non_empty h) [
    | none ↦ none
    | some t ↦ matched (re.content_type_pattern t)
  ]

  unfoldable pub with_v : String → String
  with_v s = if re.starts_with_v s then s else format ("v" ∷ s ∷ [])

  unfoldable pub extract_from_query : Dict String String → Option String
  unfolding or_else with_v
  extract_from_query params =
      elim (or_else (non_empty (Dict.get params "version"))
        (non_empty (Dict.get params "api_version"))) [ none ↦ none | some v ↦ some (with_v v) ]

  unfoldable pub extract_by : VersioningMethod → Request → Option String
  extract_by url_path q = extract_from_url q.path
  extract_by header q = extract_from_header q.accept
  extract_by query_param q = extract_from_query q.query_params
  extract_by content_type q = extract_from_content_type q.content_type_header

  -- The loop over the fallback methods: the first that finds a version.
  unfoldable pub extract_first : List VersioningMethod → Request → Option String
  unfolding or_else
  extract_first [] q = none
  extract_first (m ∷ ms) q = or_else (non_empty (extract_by m q)) (extract_first ms q)

  unfoldable pub explicit : Option String → Option String
  unfolding with_v
  explicit p = elim (non_empty p) [ none ↦ none | some s ↦ some (with_v s) ]

  -- The key that the request asks for, before the default.
  unfoldable pub requested :
      VersioningMethod → List VersioningMethod → Request → Option String → Option String
  unfolding or_else explicit
  requested default fallbacks q param =
      or_else (explicit param)
        (or_else (non_empty (extract_by default q)) (extract_first fallbacks q))

  -- VersionExtractor.extract_version
  unfoldable pub extract_version :
      ℕ
      → VersionRegistry
      → VersioningMethod
      → List VersioningMethod
      → Request
      → Option String
      → Extraction
  unfolding or_else
  extract_version today r default fallbacks q param = by_key today r (
      or_else (requested default fallbacks q param)
        (default_key str (version_at r r.default_version)))
