-- ===== src/Version/Greatest.antt =====
-- The choice of the greatest version (`max` in remove_version), and the key that it stands under.
use mathlib.Core.Path.{subst}
use korea_public_data_be.Base.{
  ℕ, ◌≡◌, ◌⊎◌, inl, inr, refl, sym, true, false, Option, none, some, String, [], ◌∷◌, arith,
  string_eq, equals_refl, All, Bool-cases,
}
use korea_public_data_be.Dict
use korea_public_data_be.Dict.{Dict, HasDistinctKeys, has-get}
use korea_public_data_be.Version.Defs.{ApiVersion, compare, gt, short_version}
use korea_public_data_be.Version.Order.{compare_transitive}
use korea_public_data_be.Version.Registry.{max_from, newest_key}

pub gt_irrefl : (a : ApiVersion) → gt a a ≡ false
unfolding gt compare
gt_irrefl a = ground arith

pub gt_asym : (a b : ApiVersion) → gt a b ≡ true → gt b a ≡ false
unfolding gt compare
gt_asym a b h = ground arith

module _ (str : ℕ → String) where
  -- A version stands under its short version.
  abbrev pub IsKeyed : String × ApiVersion → Type 0
  IsKeyed e = short_version str e.1 ≡ e.0

  -- A pointer into the registry: a registered key, or none while there are no versions.
  abbrev pub PointsInto : Dict String ApiVersion → Option String → Type 0
  PointsInto d none = d ≡ []
  PointsInto d (some k) = Dict.has d k ≡ true

  pub still_found :
      (i : String) (v m : ApiVersion) (d : Dict String ApiVersion)
      → short_version str v ≡ i
      → Dict.has d i ≡ false
      → (m ≡ v) ⊎ (Dict.get d (short_version str m) ≡ some m)
      → Dict.get ((i, v) ∷ d) (short_version str m) ≡ some m
  unfolding Dict.get
  still_found i v m d k fresh (inl e) = rw (e, k, equals_refl i)
  still_found i v m d k fresh (inr found) = ground (
    arith,
    string_eq.equals_iff i (short_version str m),
    has-get d i,
    has-get d (short_version str m),
  )

  -- The greatest of a dict's versions and a given one is the given one, or stands under its key.
  pub max_from-get :
      (best : ApiVersion) (d : Dict String ApiVersion)
      → All IsKeyed d
      → HasDistinctKeys d
      → let m = max_from best (Dict.values d) in
        (m ≡ best) ⊎ (Dict.get d (short_version str m) ≡ some m)
  unfolding max_from Dict.values
  max_from-get best [] k h = inl refl
  max_from-get best ((i, v) ∷ d) k h = elim (Bool-cases (gt v best)) [
    | inl newer ↦
        rw (newer, max_from)
          (inr (still_found i v (max_from v (Dict.values d)) d k.0 h.0 (max_from-get v d k.1 h.1)))
    | inr older ↦
        rw (older, max_from)
          (elim (max_from-get best d k.1 h.1) [
            | inl e ↦ inl e
            | inr found ↦
                inr (still_found i v (max_from best (Dict.values d)) d k.0 h.0 (inr found))
          ])
  ]

module _ (best : ApiVersion) (i : String) (v : ApiVersion) (d : Dict String ApiVersion) where
  max_newer :
      gt v best ≡ true → max_from best (Dict.values ((i, v) ∷ d)) ≡ max_from v (Dict.values d)
  unfolding max_from Dict.values
  max_newer h = rw (h, max_from)

  max_older :
      gt v best ≡ false → max_from best (Dict.values ((i, v) ∷ d)) ≡ max_from best (Dict.values d)
  unfolding max_from Dict.values
  max_older h = rw (h, max_from)

max_nil : (best : ApiVersion) → max_from best (Dict.values {K = String} []) ≡ best
unfolding max_from Dict.values
max_nil best = refl

abbrev Top : ApiVersion → Dict String ApiVersion → ApiVersion → Type 0
Top best d m = (gt best m ≡ false) × All (λ e. gt e.1 m ≡ false) d

-- The chosen version is no less than the given one, and than any in the dict.
pub max_from-top :
    (best : ApiVersion) (d : Dict String ApiVersion)
    → let m = max_from best (Dict.values d) in (gt best m ≡ false) × All (λ e. gt e.1 m ≡ false) d
max_from-top best [] = (rw max_nil (gt_irrefl best), tt)
max_from-top best ((i, v) ∷ d) = elim (Bool-cases (gt v best)) [
  | inl newer ↦
      let (top, all) = max_from-top v d in
      subst (Top best ((i, v) ∷ d)) (sym (max_newer best i v d newer)) (
        compare_transitive best v (max_from v (Dict.values d)) (gt_asym v best newer) top,
        (top, all),
      )
  | inr older ↦
      let (top, all) = max_from-top best d in
      subst (Top best ((i, v) ∷ d)) (sym (max_older best i v d older))
        (top, (compare_transitive v best (max_from best (Dict.values d)) older top, all))
]

module _ (str : ℕ → String) where
  pub newest_key-PointsInto :
      (d : Dict String ApiVersion)
      → All (IsKeyed str) d
      → HasDistinctKeys d
      → PointsInto str d (newest_key str d)
  unfolding newest_key Dict.values
  newest_key-PointsInto [] k h = refl
  newest_key-PointsInto ((i, v) ∷ d) k h =
      let m = max_from v (Dict.values d) in
      rw (has-get ((i, v) ∷ d) (short_version str m))
        (rw (still_found str i v m d k.0 h.0 (max_from-get str v d k.1 h.1)))
