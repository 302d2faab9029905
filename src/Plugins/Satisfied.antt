-- ===== src/Plugins/Satisfied.antt =====
-- When validate_dependencies of app/core/plugins/registry.py finds nothing missing.
use korea_public_data_be.Base.{
  Bool, true, false, Option, none, some, inl, inr, String, List, [], ◌∷◌, ◌++◌, ◌≡◌, ◌↔◌, ◌⊎◌, refl,
  true≢false, false≢true, All, if◌then◌else◌, ℤ, string_eq, ◌==◌,
}
use korea_public_data_be.Dict
use korea_public_data_be.Plugins.Defs.{
  PluginDependency, PluginMetadata, PluginRegistry, get_dependencies,
}
use korea_public_data_be.Plugins.Versions.{
  MissingDependency, incompatible, not_registered, version_missing, ints, is_version_compatible,
  missing_of, all_missing, validate_dependencies,
}
use korea_public_data_be.Plugins.Compatible.{Meets, is_version_compatible-Meets}

module _ (split : String → List String) (int : String → Option ℤ) where
  -- What is asked of the version of a registered plugin: an empty text asks for nothing.
  abbrev pub Suits : Option String → Option PluginMetadata → Type 0
  Suits (some required) (some m) =
      ((required == "") ≡ true) ⊎ Meets (ints int (split m.version)) (ints int (split required))
  Suits (some required) none = Unit
  Suits none m = Unit

  -- A registered plugin of a version that suits, or an optional one that is not registered
  abbrev pub IsSatisfied : PluginRegistry → PluginDependency → Type 0
  IsSatisfied r dep =
      ((Dict.has r.plugins dep.name ≡ true) × Suits dep.version (Dict.get r.metadata dep.name))
      ⊎ ((Dict.has r.plugins dep.name ≡ false) × (dep.optional ≡ true))

  not_nil : {A S : Type 0} (x : A) → (x ∷ []) ≡ [] → S
  not_nil x h = absurd cc

  suiting :
      {M : Type 0} (is_empty ok : Bool) (x : MissingDependency)
      → (ok ≡ true) ↔ M
      → ((if is_empty then [] else if ok then [] else x ∷ []) ≡ []) ↔ ((is_empty ≡ true) ⊎ M)
  suiting true ok x m = (λ _. inl refl, λ _. refl)
  suiting false true x m = (λ _. inr (m.0 refl), λ _. refl)
  suiting false false x m = (
    not_nil x,
    λ h. elim h [ inl e ↦ absurd (false≢true e) | inr s ↦ absurd (false≢true (m.1 s)) ],
  )

  version_missing-Suits :
      (n : String) (v : Option String) (m : Option PluginMetadata)
      → (version_missing split int n v m ≡ []) ↔ Suits v m
  unfolding version_missing
  version_missing-Suits n (some required) (some m) =
      suiting (required == "") (is_version_compatible split int m.version required)
        (incompatible n required m.version)
        (is_version_compatible-Meets split int m.version required)
  version_missing-Suits n (some required) none = (λ _. tt, λ _. refl)
  version_missing-Suits n none m = (λ _. tt, λ _. refl)

  registration :
      {S : Type 0} (known optional : Bool) (xs : List MissingDependency) (x : MissingDependency)
      → (xs ≡ []) ↔ S
      → ((if known then xs else if optional then [] else x ∷ []) ≡ [])
        ↔ (((known ≡ true) × S) ⊎ ((known ≡ false) × (optional ≡ true)))
  registration true optional xs x s =
      (λ h. inl (refl, s.0 h), λ h. elim h [ inl k ↦ s.1 k.1 | inr u ↦ absurd (true≢false u.0) ])
  registration false true xs x s = (λ _. inr (refl, refl), λ _. refl)
  registration false false xs x s =
      (not_nil x, λ h. elim h [ inl k ↦ absurd (false≢true k.0) | inr u ↦ absurd (false≢true u.1) ])

  missing_of-IsSatisfied :
      (r : PluginRegistry) (dep : PluginDependency)
      → (missing_of split int r dep ≡ []) ↔ IsSatisfied r dep
  unfolding missing_of
  missing_of-IsSatisfied r dep =
      registration (Dict.has r.plugins dep.name) dep.optional
        (version_missing split int dep.name dep.version (Dict.get r.metadata dep.name))
        (not_registered dep.name)
        (version_missing-Suits dep.name dep.version (Dict.get r.metadata dep.name))

  append-nils : {A : Type 0} (xs ys : List A) → ((xs ++ ys) ≡ []) ↔ ((xs ≡ []) × (ys ≡ []))
  append-nils [] ys = (λ h. (refl, h), λ h. h.1)
  append-nils (x ∷ xs) ys = (λ h. absurd cc, λ h. absurd cc)

  all_missing-IsSatisfied :
      (r : PluginRegistry) (deps : List PluginDependency)
      → (all_missing split int r deps ≡ []) ↔ All (IsSatisfied r) deps
  unfolding all_missing
  all_missing-IsSatisfied r [] = (λ _. tt, λ _. refl)
  all_missing-IsSatisfied r (dep ∷ deps) =
      let one = missing_of-IsSatisfied r dep in
      let rest = all_missing-IsSatisfied r deps in
      let nils = append-nils (missing_of split int r dep) (all_missing split int r deps) in
      (λ h. (one.0 (nils.0 h).0, rest.0 (nils.0 h).1), λ h. nils.1 (one.1 h.0, rest.1 h.1))

  -- Nothing is missing exactly where each dependency of the plugin is optional and not registered, or
  -- registered with a version that reaches the one asked for, where one is asked for, the metadata is
  -- found and both versions can be read.
  pub validate_dependencies-IsSatisfied :
      (r : PluginRegistry) (p : String)
      → (validate_dependencies split int r p ≡ []) ↔ All (IsSatisfied r) (get_dependencies r p)
  unfolding validate_dependencies
  validate_dependencies-IsSatisfied r p = all_missing-IsSatisfied r (get_dependencies r p)
