-- ===== src/Version/Invariant.antt =====
-- The invariant of the registry: every version stands under its own key, and the default and the
-- latest version are registered.
use mathlib.Core.Bool.{false≢true}
use korea_public_data_be.Base.{
  ℕ, ◌≡◌, ◌⊎◌, inl, inr, refl, sym, ◌∙◌, ap, Bool, true, false, Option, none, some, String, arith,
  string_eq, equals_refl, All, if◌then◌else◌, Bool-cases, Option-cases,
}
use korea_public_data_be.Dict
use korea_public_data_be.Dict.{
  Dict, HasDistinctKeys, has-put, has-remove, has-get, get-put_self, get-remove,
  put-HasDistinctKeys, remove-HasDistinctKeys, put-All, remove-All,
}
use korea_public_data_be.Version.Defs.{ApiVersion, gt, short_version}
use korea_public_data_be.Version.Greatest.{IsKeyed, PointsInto, newest_key-PointsInto}
use korea_public_data_be.Version.Registry.{
  VersionRegistry, init, done, raised, set_latest, set_default, value_error, newest_key, names,
  register_version, remove_version,
}

abbrev found : Option ApiVersion → Bool
found none = false
found (some _) = true

module _ (str : ℕ → String) where
  pub record IsValid (r : VersionRegistry) : Type 0 where
    pub keyed : All (IsKeyed str) r.versions
    pub distinct : HasDistinctKeys r.versions
    pub default_in : PointsInto str r.versions r.default_version
    pub latest_in : PointsInto str r.versions r.latest_version

  pub IsValid-init : IsValid init
  unfolding init
  IsValid-init = record { keyed = tt; distinct = tt; default_in = refl; latest_in = refl }

  pub get_of_has :
      (d : Dict String ApiVersion) (k : String)
      → Dict.has d k ≡ true
      → (v : ApiVersion) × (Dict.get d k ≡ some v)
  get_of_has d k h = elim (Option-cases (Dict.get d k)) [
    | inl n ↦ absurd (false≢true (sym (has-get d k ∙ ap found n) ∙ h))
    | inr e ↦ e
  ]

  set_latest-IsValid :
      (r : VersionRegistry) (key : String) (v : ApiVersion) (is_latest : Bool)
      (latest : Option String)
      → All (IsKeyed str) r.versions
      → HasDistinctKeys r.versions
      → PointsInto str r.versions r.default_version
      → Dict.has r.versions key ≡ true
      → ((l : String) → latest ≡ some l → Dict.has r.versions l ≡ true)
      → r.latest_version ≡ latest
      → (r' : VersionRegistry) × (set_latest str r key v is_latest latest ≡ done r')
        × IsValid r'
        × (r'.versions ≡ r.versions)
  unfolding set_latest
  set_latest-IsValid r key v true latest k d p hk hl e = (
    record r { latest_version = some key },
    refl,
    record { keyed = k; distinct = d; default_in = p; latest_in = hk },
    refl,
  )
  set_latest-IsValid r key v false none k d p hk hl e = (
    record r { latest_version = some key },
    refl,
    record { keyed = k; distinct = d; default_in = p; latest_in = hk },
    refl,
  )
  set_latest-IsValid r key v false (some l) k d p hk hl e =
      let (old, got) = get_of_has r.versions l (hl l refl) in
      elim (Bool-cases (gt v old)) [
        | inl newer ↦ (
          record r { latest_version = some key },
          rw (got, newer),
          record { keyed = k; distinct = d; default_in = p; latest_in = hk },
          refl,
        )
        | inr older ↦ (
          r,
          rw (got, older),
          record { keyed = k; distinct = d; default_in = p; latest_in = rw e (hl l refl) },
          refl,
        )
      ]

  set_default-PointsInto :
      (r : VersionRegistry) (key : String) (is_default : Bool) (o : Option String)
      → r.default_version ≡ o
      → Dict.has r.versions key ≡ true
      → ((k : String) → o ≡ some k → Dict.has r.versions k ≡ true)
      → let r' = set_default str r key is_default o in
        PointsInto str r'.versions r'.default_version
        × (r'.versions ≡ r.versions)
        × (r'.latest_version ≡ r.latest_version)
  unfolding set_default
  set_default-PointsInto r key false (some d) e hk h = (rw e (h d refl), refl, refl)
  set_default-PointsInto r key true (some d) e hk h = (hk, refl, refl)
  set_default-PointsInto r key false none e hk h = (hk, refl, refl)
  set_default-PointsInto r key true none e hk h = (hk, refl, refl)

  has-put_of :
      (d : Dict String ApiVersion) (key : String) (v : ApiVersion) (o : Option String)
      → PointsInto str d o
      → (k : String) → o ≡ some k
      → Dict.has (Dict.put d key v) k ≡ true
  has-put_of d key v none p k e = cc
  has-put_of d key v (some j) p k e = ground (arith, has-put d key k v)

  remove-PointsInto :
      (d : Dict String ApiVersion) (key : String) (o : Option String)
      → Dict.has d key ≡ true
      → PointsInto str d o
      → names o key ≡ false
      → PointsInto str (Dict.remove d key) o
  unfolding Dict.remove
  remove-PointsInto d key none h p n = rw p
  remove-PointsInto d key (some k) h p n =
      ground (arith, has-remove d key k, string_eq.equals_iff k key, string_eq.equals_iff key k)

  moved :
      (d : Dict String ApiVersion) (key : String) (o : Option String)
      → Dict.has d key ≡ true
      → PointsInto str d o
      → All (IsKeyed str) (Dict.remove d key)
      → HasDistinctKeys (Dict.remove d key)
      → let rest = Dict.remove d key in
        PointsInto str rest (if names o key then newest_key str rest else o)
  moved d key o h p k u = elim (Bool-cases (names o key)) [
    | inl gone ↦ rw gone (newest_key-PointsInto str (Dict.remove d key) k u)
    | inr kept ↦ rw kept (remove-PointsInto d key o h p kept)
  ]

  -- Registration in a valid registry refuses a key that is taken, and leaves the registry as it
  -- is; otherwise it succeeds, never with a KeyError, and leaves a valid registry that has the new
  -- version under its key.
  pub register_version-IsValid :
      (r : VersionRegistry) (v : ApiVersion) (is_default is_latest : Bool)
      → IsValid r
      → ((Dict.has r.versions (short_version str v) ≡ true)
          × (register_version str r v is_default is_latest ≡ raised value_error r))
        ⊎ ((Dict.has r.versions (short_version str v) ≡ false)
            × (r' : VersionRegistry) × (register_version str r v is_default is_latest ≡ done r')
            × IsValid r'
            × (Dict.get r'.versions (short_version str v) ≡ some v))
  unfolding register_version
  register_version-IsValid r v is_default is_latest h =
      let key = short_version str v in
      let d = Dict.put r.versions key v in
      let added : VersionRegistry = record r { versions = d } in
      let r1 = set_default str added key is_default r.default_version in
      let here : Dict.has d key ≡ true = rw (has-put, equals_refl key) in
      let (p, sv, sl) =
        set_default-PointsInto added key is_default r.default_version refl here
          (has-put_of r.versions key v r.default_version h.default_in) in
      elim (Bool-cases (Dict.has r.versions key)) [
        | inl taken ↦ inl (taken, rw taken)
        | inr free ↦
            let (r', e, valid, ev) =
              set_latest-IsValid r1 key v is_latest r.latest_version
                (rw sv (put-All (IsKeyed str) r.versions key v h.keyed refl))
                (rw sv (put-HasDistinctKeys r.versions key v h.distinct)) p (rw sv here)
                (rw sv (has-put_of r.versions key v r.latest_version h.latest_in)) sl in
            inr (free, r', rw free e, valid, rw (ev, sv) (get-put_self r.versions key v))
      ]

  -- Removal from a valid registry refuses an unknown key, and leaves the registry as it is;
  -- otherwise it leaves a valid registry without the key.
  pub remove_version-IsValid :
      (r : VersionRegistry) (key : String)
      → IsValid r
      → ((Dict.has r.versions key ≡ false) × (remove_version str r key ≡ raised value_error r))
        ⊎ ((Dict.has r.versions key ≡ true)
            × (r' : VersionRegistry) × (remove_version str r key ≡ done r')
            × IsValid r'
            × (Dict.get r'.versions key ≡ none))
  unfolding remove_version
  remove_version-IsValid r key h = elim (Bool-cases (Dict.has r.versions key)) [
    | inr unknown ↦ inl (unknown, rw unknown)
    | inl here ↦
        let keyed' = remove-All (IsKeyed str) r.versions key h.keyed in
        let distinct' = remove-HasDistinctKeys r.versions key h.distinct in
        inr (
          here,
          _,
          rw here,
          record {
            keyed = keyed';
            distinct = distinct';
            default_in = moved r.versions key r.default_version here h.default_in keyed' distinct';
            latest_in = moved r.versions key r.latest_version here h.latest_in keyed' distinct';
          },
          rw (get-remove, equals_refl key),
        )
  ]
