-- ===== src/Version/Deprecation.antt =====
-- deprecate_version of app/shared/versioning.py and the invariant of the registry.
use korea_public_data_be.Base.{
  ℕ, ◌≡◌, ◌⊎◌, inl, inr, refl, sym, ap, ◌∙◌, Option, none, some, String, string_eq, Option-cases,
  arith,
}
use korea_public_data_be.Dict
use korea_public_data_be.Dict.{Dict, All-get, get-put_self, has-put, put-HasDistinctKeys, put-All}
use korea_public_data_be.Version.Defs.{ApiVersion, short_version}
use korea_public_data_be.Version.Greatest.{IsKeyed, PointsInto}
use korea_public_data_be.Version.Invariant.{IsValid}
use korea_public_data_be.Version.Registry.{
  VersionRegistry, done, raised, value_error, deprecated, deprecate_version,
}

module _ (str : ℕ → String) where
  deprecated-short_version :
      (today : ℕ) (sunset : Option ℕ) (v : ApiVersion)
      → short_version str (deprecated today sunset v) ≡ short_version str v
  unfolding short_version
  deprecated-short_version today none v = refl
  deprecated-short_version today (some day) v = refl

  put-PointsInto :
      (d : Dict String ApiVersion) (k : String) (v : ApiVersion) (o : Option String)
      → Dict.get d k ≡ some v
      → (w : ApiVersion) → PointsInto str d o
      → PointsInto str (Dict.put d k w) o
  unfolding Dict.get
  put-PointsInto d k v none g w h =
      let bad : none ≡ some v = sym (ap (λ x. Dict.get x k) h) ∙ g in cc
  put-PointsInto d k v (some j) g w h = ground (arith, has-put d k j w)

  -- In a valid registry an unknown key is refused. For another, the version under it is deprecated
  -- from today on, with the sunset date if one is given, and the registry stays valid, with the
  -- same default and latest version.
  pub deprecate_version-IsValid :
      (today : ℕ) (r : VersionRegistry) (key : String) (sunset : Option ℕ)
      → IsValid str r
      → ((Dict.get r.versions key ≡ none)
          × (deprecate_version today r key sunset ≡ raised value_error r))
        ⊎ ((v : ApiVersion) × (Dict.get r.versions key ≡ some v)
            × (r' : VersionRegistry) × (deprecate_version today r key sunset ≡ done r')
            × IsValid str r'
            × (Dict.get r'.versions key ≡ some (deprecated today sunset v))
            × (r'.default_version ≡ r.default_version)
            × (r'.latest_version ≡ r.latest_version))
  unfolding deprecate_version
  deprecate_version-IsValid today r key sunset h = elim (Option-cases (Dict.get r.versions key)) [
    | inl e ↦ inl (e, rw (e, deprecate_version))
    | inr (v, e) ↦
        let w = deprecated today sunset v in
        inr (
          v,
          e,
          _,
          rw (e, deprecate_version),
          record {
            keyed = put-All (IsKeyed str) r.versions key w h.keyed (
                deprecated-short_version today sunset v
                ∙ All-get (IsKeyed str) r.versions key v h.keyed e);
            distinct = put-HasDistinctKeys r.versions key w h.distinct;
            default_in = put-PointsInto r.versions key v r.default_version e w h.default_in;
            latest_in = put-PointsInto r.versions key v r.latest_version e w h.latest_in;
          },
          get-put_self r.versions key w,
          refl,
          refl,
        )
  ]
