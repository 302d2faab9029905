-- ===== src/Version/Extracted.antt =====
-- What extract_version returns.
use korea_public_data_be.Base.{
  ℕ, ◌≡◌, refl, Option, none, some, String, List, [], ◌∷◌, arith, string_eq, if◌then◌else◌,
  Option-cases, inl, inr, All,
}
use korea_public_data_be.Dict
use korea_public_data_be.Dict.{Dict}
use korea_public_data_be.Version.Defs.{ApiVersion, short_version, is_current, is_sunset}
use korea_public_data_be.Version.Registry.{VersionRegistry, get_version, version_at}
use korea_public_data_be.Version.Invariant.{IsValid, get_of_has}
use korea_public_data_be.Version.Greatest.{IsKeyed, PointsInto}
use korea_public_data_be.Version.Named.{Named, requested-Named}
use korea_public_data_be.Version.Extract.{
  or_else, VersioningMethod, Request, Patterns, Extraction, extracted, rejected, no_version,
  unsupported, gone, requested, admit, by_key, default_key, extract_version,
}

-- What the checks make of the version under a key.
abbrev pub verdict : ℕ → Option ApiVersion → Extraction
verdict today none = rejected unsupported
verdict today (some v) = if is_sunset today v then rejected gone else extracted v

admit-verdict : (today : ℕ) (o : Option ApiVersion) → admit today o ≡ verdict today o
unfolding admit is_current
admit-verdict today none = refl
admit-verdict today (some v) = ground arith

module _ (str : ℕ → String) where
  keyed-get :
      (d : Dict String ApiVersion) (k : String) (v : ApiVersion)
      → All (IsKeyed str) d
      → Dict.get d k ≡ some v
      → short_version str v ≡ k
  unfolding Dict.get
  keyed-get [] k v h g = cc
  keyed-get ((i, w) ∷ d) k v h g = ground (arith, string_eq.equals_iff i k, keyed-get d k v h.1)

  default_verdict :
      (today : ℕ) (r : VersionRegistry) (o : Option String)
      → IsValid str r
      → PointsInto str r.versions o
      → by_key today r (default_key str (version_at r o))
        ≡ elim o [ none ↦ rejected no_version | some key ↦ verdict today (Dict.get r.versions key) ]
  unfolding by_key default_key version_at get_version
  default_verdict today r none h p = refl
  default_verdict today r (some key) h p =
      let (v, got) = get_of_has str r.versions key p in
      rw got (rw (keyed-get r.versions key v h.keyed got, got) (admit-verdict today (some v)))

module _ (str : ℕ → String) (re : Patterns) (today : ℕ) (r : VersionRegistry)
    (default : VersioningMethod) (fallbacks : List VersioningMethod) (q : Request)
    (param : Option String) where
  -- What is made of a request that names this key, or none
  abbrev pub answer_to : Option String → Extraction
  answer_to (some key) = verdict today (Dict.get r.versions key)
  answer_to none = elim r.default_version [
    | none ↦ rejected no_version
    | some key ↦ verdict today (Dict.get r.versions key)
  ]

  answered :
      IsValid str r
      → extract_version str re today r default fallbacks q param
        ≡ answer_to (requested str re default fallbacks q param)
  unfolding extract_version or_else
  answered h = elim (Option-cases (requested str re default fallbacks q param)) [
    | inl unnamed ↦ rw unnamed (default_verdict str today r r.default_version h h.default_in)
    | inr (key, named) ↦
        rw named (unfold by_key get_version in admit-verdict today (Dict.get r.versions key))
  ]

  -- In a valid registry, extract_version answers with the registered version that the request names: by the
  -- explicit parameter where it has a text, else by the first of the default method and the fallback methods
  -- that finds a text. If it names none, the answer is the default version. It rejects exactly a version
  -- that is not registered or whose sunset date has come, and a request with no version where no version
  -- is registered. A deprecated version is accepted until its sunset.
  pub extract_version-verdict :
      IsValid str r
      → (key : Option String) × Named str re q default fallbacks param key
        × (extract_version str re today r default fallbacks q param ≡ answer_to key)
  extract_version-verdict h = (
    requested str re default fallbacks q param,
    requested-Named str re q default fallbacks param,
    answered h,
  )
