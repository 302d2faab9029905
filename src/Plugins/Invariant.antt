-- ===== src/Plugins/Invariant.antt =====
-- PluginManager of app/core/plugins/manager.py deactivates no plugin that an active one depends on.
use korea_public_data_be.Base.{
  and-true, ℕ, Bool, true, inl, inr, Option, String, List, [], ◌∷◌, ◌==◌, string_eq, elem, ◌≡◌,
  refl, sym, ap, ◌∙◌, arith, Bool-cases, equals-eq,
}
use korea_public_data_be.Plugins.Defs.{
  PluginDependency, PluginRegistry, get_dependencies, get_dependents,
}
use korea_public_data_be.Plugins.Steps.{names_of}
use korea_public_data_be.Plugins.Dependents.{dep_names}
use korea_public_data_be.Plugins.Register.{IsConsistent}
use korea_public_data_be.Plugins.Manager.{PluginManager, deactivate_plugin}
use korea_public_data_be.Plugins.Running.{runs, blocked}
use korea_public_data_be.Plugins.Deactivate.{Deactivated, deactivate_plugin-runs}
use korea_public_data_be.Plugins.Shutdown.{held_among}
use korea_public_data_be.Plugins.Supported.{wanted, IsSupported, wanted_same}

-- The registered dependencies are among the declared ones.
names_of-dep_names :
    (r : PluginRegistry) (ds : List PluginDependency) (d : String)
    → elem d (names_of r ds) ≡ true
    → elem d (dep_names ds) ≡ true
names_of-dep_names r [] d h = h
names_of-dep_names r (x ∷ ds) d h = ground (arith, names_of-dep_names r ds d, h)

-- A plugin is blocked while an active one depends on it.
wanted-blocked :
    (r : PluginRegistry) (q d : String)
    → IsConsistent r
    → runs r q ≡ true
    → elem d (wanted r q) ≡ true
    → blocked r d ≡ true
unfolding get_dependents get_dependencies
wanted-blocked r q d c on e =
    held_among r q (get_dependents r d)
      (c.inverse q d ∙ names_of-dep_names r (get_dependencies r q) d e) on

-- What a deactivation leaves keeps the dependencies of active plugins active.
Deactivated-IsSupported :
    (r x : PluginRegistry) (p : String)
    → IsConsistent r
    → Deactivated r p x
    → IsSupported r
    → IsSupported x
Deactivated-IsSupported r x p c (activity, _, _, plugins, dependencies) s q d on e =
    let e' : elem d (wanted r q) ≡ true =
      sym (ap (elem d) (wanted_same x r q plugins dependencies)) ∙ e in
    let before : runs r q ≡ true = (elim (Bool-cases (p == q)) [
      | inl same ↦
          sym (ap (runs r) (equals-eq same))
          ∙ (and-true (runs r p) (blocked r p) (sym (activity q ∙ rw same refl) ∙ on)).0
      | inr other ↦ sym (activity q ∙ rw other refl) ∙ on
    ]) in
    let now = s q d before e' in
    activity d ∙ (elim (Bool-cases (p == d)) [
      | inl same ↦
          let eq : p ≡ d = equals-eq same in
          rw same
            (rw (ap (runs r) eq ∙ now, ap (blocked r) eq ∙ wanted-blocked r q d c before e') refl)
      | inr other ↦ rw other now
    ])

-- Where the registry is consistent and every active plugin has its registered dependencies active,
-- deactivation stops an active plugin exactly where none of its dependents is active, changes no other, and
-- keeps both.
pub deactivate_plugin_settles :
    (cleanup : ℕ → String → Option Bool) (m : PluginManager) (p : String)
    → IsConsistent m.registry
    → IsSupported m.registry
    → let r = (deactivate_plugin cleanup m p).1.registry in
      Deactivated m.registry p r × IsSupported r
deactivate_plugin_settles cleanup m p c s =
    let d = deactivate_plugin-runs cleanup m p c in
    (d, Deactivated-IsSupported m.registry (deactivate_plugin cleanup m p).1.registry p c d s)
