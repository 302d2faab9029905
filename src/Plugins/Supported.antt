-- ===== src/Plugins/Supported.antt =====
-- Active plugins whose dependencies are active, in app/core/plugins: what a change of one plugin keeps, and
-- the ends of an activation.
use korea_public_data_be.Base.{
  ℕ, suc, Bool, true, false, inl, inr, Option, none, some, String, List, [], ◌∷◌, ◌==◌, string_eq,
  if◌then◌else◌, elem, ◌≡◌, refl, sym, ap, ◌∙◌, false≢true, Bool-cases, Option-cases, equals-eq,
}
use korea_public_data_be.Dict
use korea_public_data_be.Plugins.Defs.{
  PluginDependency, is_active, active, error, PluginRegistry, get_dependencies,
}
use korea_public_data_be.Plugins.Steps.{names_of}
use korea_public_data_be.Plugins.Register.{IsConsistent}
use korea_public_data_be.Plugins.Manager.{PluginManager}
use korea_public_data_be.Plugins.Running.{runs, IsChanged, update-IsChanged, then-IsChanged}
use korea_public_data_be.Plugins.Activation.{
  ActivationError, initialization_raised, initialization_failed, failed, raised, initialized,
  set_state,
}

-- The registered dependencies of a plugin
abbrev pub wanted : PluginRegistry → String → List String
wanted r p = names_of r (get_dependencies r p)

-- The registered dependencies of every active plugin are active.
abbrev pub IsSupported : PluginRegistry → Type 0
IsSupported r = (q d : String) → runs r q ≡ true → elem d (wanted r q) ≡ true → runs r d ≡ true

names_of_same :
    (x r : PluginRegistry) (ds : List PluginDependency)
    → x.plugins ≡ r.plugins
    → names_of x ds ≡ names_of r ds
names_of_same x r [] e = refl
names_of_same x r (d ∷ ds) e =
    ap (λ ps. if Dict.has ps d.name then d.name ∷ names_of x ds else names_of x ds) e
    ∙ ap (λ l. if Dict.has r.plugins d.name then d.name ∷ l else l) (names_of_same x r ds e)

pub wanted_same :
    (x r : PluginRegistry) (q : String)
    → x.plugins ≡ r.plugins
    → x.dependencies ≡ r.dependencies
    → wanted x q ≡ wanted r q
unfolding get_dependencies
wanted_same x r q e f =
    names_of_same x r (get_dependencies x q) e ∙ ap (λ d. names_of r (Dict.get_or d q [])) f

module _ (r x : PluginRegistry) (p : String) (on : Bool) (off : runs r p ≡ false)
    (v : IsChanged r x p on) where
  -- A change of a plugin that is not active leaves the active ones active.
  pub grown : (q : String) → runs r q ≡ true → runs x q ≡ true
  grown q h = v.activity q ∙ (elim (Bool-cases (p == q)) [
    | inl same ↦ absurd (false≢true (sym off ∙ ap (runs r) (equals-eq same) ∙ h))
    | inr other ↦ rw other h
  ])

  -- It keeps the dependencies of active plugins active where those of the plugin are when it becomes active.
  pub changed-IsSupported :
      (on ≡ true → (d : String) → elem d (wanted r p) ≡ true → runs r d ≡ true)
      → IsSupported r
      → IsSupported x
  changed-IsSupported needs s q d h e =
      let e' : elem d (wanted r q) ≡ true =
        sym (ap (elem d) (wanted_same x r q v.same_plugins v.same_dependencies)) ∙ e in
      elim (Bool-cases (p == q)) [
        | inl same ↦ grown d (
            needs (sym (v.activity q ∙ rw same refl) ∙ h) d
              (ap (λ y. elem d (wanted r y)) (equals-eq same) ∙ e'))
        | inr other ↦ grown d (s q d (sym (v.activity q ∙ rw other refl) ∙ h) e')
      ]

module _ (str : ActivationError → String) where
  pub failed-IsChanged :
      (m : PluginManager) (p : String) (e : ActivationError)
      → IsConsistent m.registry
      → Dict.has m.registry.plugins p ≡ true
      → IsChanged m.registry (failed str m p e).1.registry p false
  unfolding failed set_state is_active
  failed-IsChanged m p e c h = update-IsChanged m.registry p error (some (str e)) c h

  pub raised-IsChanged :
      (m : PluginManager) (p : String) (e : ActivationError)
      → IsConsistent m.registry
      → Dict.has m.registry.plugins p ≡ true
      → IsChanged m.registry (raised str m p e).1.registry p false
  unfolding raised
  raised-IsChanged m p e c h =
      let v = failed-IsChanged m p e c h in
      let m' = (failed str m p e).1 in
      then-IsChanged m.registry m'.registry (raised str m p e).1.registry p false false v
        (failed-IsChanged m' p e v.consistent (ap (λ d. Dict.has d p) v.same_plugins ∙ h))

  pub initialized-IsChanged :
      (initialize : ℕ → String → Option Bool) (m : PluginManager) (p : String)
      → IsConsistent m.registry
      → Dict.has m.registry.plugins p ≡ true
      → let (ok, m') = initialized str initialize m p in IsChanged m.registry m'.registry p ok
  unfolding initialized set_state failed is_active
  initialized-IsChanged initialize m p c h =
      let m' = record m { initializations = suc m.initializations } in
      elim (Option-cases (initialize m.initializations p)) [
        | inl none_said ↦
            rw (none_said, initialized) (failed-IsChanged m' p initialization_raised c h)
        | inr (ok, said) ↦ elim (Bool-cases ok) [
          | inl good ↦
              rw (said ∙ ap some good, initialized) (update-IsChanged m'.registry p active none c h)
          | inr bad ↦
              rw (said ∙ ap some bad, initialized) (failed-IsChanged m' p initialization_failed c h)
        ]
      ]
