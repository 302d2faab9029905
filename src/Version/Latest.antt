-- ===== src/Version/Latest.antt =====
-- The latest version of the registry is a greatest registered one, unless a caller overrides it.
use korea_public_data_be.Base.{
  not, ◌⊎◌, sym, ap, ◌∙◌, subst, false≢true, ℕ, ◌≡◌, ◌≢◌, inl, inr, refl, Bool, true, false, Option,
  none, some, String, [], ◌∷◌, arith, ◌==◌, string_eq, equals_refl, All, if◌then◌else◌, Bool-cases,
}
use korea_public_data_be.Dict
use korea_public_data_be.Dict.{
  Dict, HasDistinctKeys, has-get, get-put, get-put_self, get-remove, put-All, remove-All,
  remove-HasDistinctKeys,
}
use korea_public_data_be.Version.Defs.{ApiVersion, gt, short_version}
use korea_public_data_be.Version.Order.{compare_transitive}
use korea_public_data_be.Version.Greatest.{
  IsKeyed, gt_irrefl, gt_asym, max_from-top, max_from-get, still_found,
}
use korea_public_data_be.Version.Invariant.{IsValid}
use korea_public_data_be.Version.Registry.{
  VersionRegistry, Outcome, value_error, done, raised, max_from, newest_key, names,
  register_version, remove_version, set_latest, set_default,
}

-- The key is that of a version than which none is greater; there is no key where there is no version.
abbrev pub IsTop : Dict String ApiVersion → Option String → Type 0
IsTop d none = d ≡ []
IsTop d (some l) = (top : ApiVersion) × (Dict.get d l ≡ some top) × All (λ e. gt e.1 top ≡ false) d

All-below :
    (old v : ApiVersion) (d : Dict String ApiVersion)
    → gt old v ≡ false
    → All (λ e. gt e.1 old ≡ false) d
    → All (λ e. gt e.1 v ≡ false) d
All-below old v [] h a = tt
All-below old v ((i, w) ∷ d) h a = (compare_transitive w old v a.0 h, All-below old v d h a.1)

remove-IsTop :
    (d : Dict String ApiVersion) (key l : String)
    → l ≢ key
    → IsTop d (some l)
    → IsTop (Dict.remove d key) (some l)
remove-IsTop d key l ne (top, got, all) =
    let kept : Dict.get (Dict.remove d key) l ≡ Dict.get d l =
      ground (arith, get-remove d key l, string_eq.equals_iff key l) in
    (top, kept ∙ got, remove-All (λ x. gt x.1 top ≡ false) d key all)

module _ (d : Dict String ApiVersion) (key : String) (v : ApiVersion) where
  -- The new version stands at the top if it is greater than the old top.
  put-IsTop_new :
      (old : ApiVersion)
      → gt old v ≡ false
      → All (λ e. gt e.1 old ≡ false) d
      → IsTop (Dict.put d key v) (some key)
  put-IsTop_new old h a = (
    v,
    get-put_self d key v,
    put-All (λ x. gt x.1 v ≡ false) d key v (All-below old v d h a) (gt_irrefl v),
  )

  get-put_old :
      (l : String) (old : ApiVersion)
      → Dict.has d key ≡ false
      → Dict.get d l ≡ some old
      → Dict.get (Dict.put d key v) l ≡ some old
  get-put_old l old free got =
      let there : Dict.has d l ≡ true = ground (arith, has-get d l) in
      ground (arith, get-put d key l v, string_eq.equals_iff key l)

  put-IsTop_old :
      (l : String) (old : ApiVersion)
      → Dict.has d key ≡ false
      → Dict.get d l ≡ some old
      → gt v old ≡ false
      → All (λ e. gt e.1 old ≡ false) d
      → IsTop (Dict.put d key v) (some l)
  put-IsTop_old l old free got h a =
      (old, get-put_old l old free got, put-All (λ x. gt x.1 old ≡ false) d key v a h)

module _ (str : ℕ → String) where
  newest_key-IsTop :
      (d : Dict String ApiVersion)
      → All (IsKeyed str) d
      → HasDistinctKeys d
      → IsTop d (newest_key str d)
  unfolding newest_key Dict.values
  newest_key-IsTop [] k h = refl
  newest_key-IsTop ((i, v) ∷ d) k h =
      let m = max_from v (Dict.values d) in
      (m, still_found str i v m d k.0 h.0 (max_from-get str v d k.1 h.1), max_from-top v d)

  remaining-IsTop :
      (d : Dict String ApiVersion) (key : String) (o : Option String)
      → All (IsKeyed str) d
      → HasDistinctKeys d
      → Dict.has d key ≡ true
      → IsTop d o
      → let rest = Dict.remove d key in IsTop rest (if names o key then newest_key str rest else o)
  unfolding Dict.has
  remaining-IsTop d key none k u here t =
      absurd (false≢true (sym (ap (λ x. Dict.has x key) t) ∙ here))
  remaining-IsTop d key (some l) k u here t = elim (Bool-cases (l == key)) [
    | inl gone ↦ rw gone (
        newest_key-IsTop (Dict.remove d key) (remove-All (IsKeyed str) d key k)
          (remove-HasDistinctKeys d key u))
    | inr kept ↦ rw kept (remove-IsTop d key l (λ e. cc (equals_refl key)) t)
  ]

  -- A call is refused and changes nothing, or it succeeds and the latest version is the greatest.
  abbrev pub Leaves : Bool → VersionRegistry → Outcome → Type 0
  Leaves refused r o =
      ((refused ≡ true) × (o ≡ raised value_error r))
      ⊎ ((refused ≡ false)
          × (r' : VersionRegistry) × (o ≡ done r')
          × IsTop r'.versions r'.latest_version)

  set_latest-IsTop :
      (r : VersionRegistry) (d : Dict String ApiVersion) (key : String) (v : ApiVersion)
      (o : Option String)
      → r.versions ≡ Dict.put d key v
      → r.latest_version ≡ o
      → Dict.has d key ≡ false
      → IsTop d o
      → (r' : VersionRegistry) × (set_latest str r key v false o ≡ done r')
        × IsTop r'.versions r'.latest_version
  unfolding set_latest
  set_latest-IsTop r d key v none ev el free t =
      let none_greater : All (λ e. gt e.1 v ≡ false) d =
        subst (All (λ e. gt e.1 v ≡ false)) (sym t) tt in
      (
        record r { latest_version = some key },
        refl,
        rw ev (put-IsTop_new d key v v (gt_irrefl v) none_greater),
      )
  set_latest-IsTop r d key v (some l) ev el free (old, got, all) =
      let kept : Dict.get r.versions l ≡ some old = rw ev (get-put_old d key v l old free got) in
      elim (Bool-cases (gt v old)) [
        | inl newer ↦ (
          record r { latest_version = some key },
          rw (kept, newer) refl,
          rw ev (put-IsTop_new d key v old (gt_asym v old newer) all),
        )
        | inr older ↦
            (r, rw (kept, older) refl, rw (el, ev) (put-IsTop_old d key v l old free got older all))
      ]

  set_default_rest :
      (r : VersionRegistry) (key : String) (is_default : Bool) (o : Option String)
      → let r' = set_default str r key is_default o in
        (r'.versions ≡ r.versions) × (r'.latest_version ≡ r.latest_version)
  unfolding set_default
  set_default_rest r key false (some d) = (refl, refl)
  set_default_rest r key true (some d) = (refl, refl)
  set_default_rest r key false none = (refl, refl)
  set_default_rest r key true none = (refl, refl)

  registered :
      (r : VersionRegistry) (v : ApiVersion) (is_default : Bool)
      → IsTop r.versions r.latest_version
      → Leaves
          (Dict.has r.versions (short_version str v))
          r
          (register_version str r v is_default false)
  unfolding register_version
  registered r v is_default t = elim (Bool-cases (Dict.has r.versions (short_version str v))) [
    | inl taken ↦ inl (taken, rw taken refl)
    | inr free ↦
        let key = short_version str v in
        let added : VersionRegistry = record r { versions = Dict.put r.versions key v } in
        let (sv, sl) = set_default_rest added key is_default r.default_version in
        let (r', done_so, top) =
          set_latest-IsTop (set_default str added key is_default r.default_version) r.versions key v
            r.latest_version sv sl free t in
        inr (free, r', rw free done_so, top)
  ]

  removed :
      (r : VersionRegistry) (key : String)
      → IsValid str r
      → IsTop r.versions r.latest_version
      → Leaves (not (Dict.has r.versions key)) r (remove_version str r key)
  unfolding remove_version
  removed r key h t = elim (Bool-cases (Dict.has r.versions key)) [
    | inr unknown ↦ inl (ap not unknown, rw unknown refl)
    | inl here ↦
        let rest = Dict.remove r.versions key in
        inr (
          ap not here,
          record {
            versions = rest;
            default_version =
                if names r.default_version key then newest_key str rest else r.default_version;
            latest_version =
                if names r.latest_version key then newest_key str rest else r.latest_version;
          },
          rw here refl,
          remaining-IsTop r.versions key r.latest_version h.keyed h.distinct here t,
        )
  ]

  -- In a valid registry whose latest version is a greatest one, or that has no version and no latest one,
  -- the same is so after a registration without `is_latest` and after a removal. They succeed, except that a
  -- registration under a key that is taken and a removal of an unknown key are refused and change nothing.
  pub latest-IsTop :
      (r : VersionRegistry) (v : ApiVersion) (is_default : Bool) (key : String)
      → IsValid str r
      → IsTop r.versions r.latest_version
      → Leaves
          (Dict.has r.versions (short_version str v))
          r
          (register_version str r v is_default false)
        × Leaves (not (Dict.has r.versions key)) r (remove_version str r key)
  latest-IsTop r v is_default key h t = (registered r v is_default t, removed r key h t)
