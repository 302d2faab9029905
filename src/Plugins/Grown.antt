-- ===== src/Plugins/Grown.antt =====
-- The activation of a plugin whose dependencies are active, by PluginManager of app/core/plugins/manager.py.
use korea_public_data_be.Base.{
  or_right, ℕ, suc, Bool, true, false, ◌||◌, inl, inr, Option, some, String, List, ◌==◌, string_eq,
  elem, count, ◌≡◌, refl, sym, ap, ◌∙◌, arith, true≢false, Bool-cases, equals-eq, ℤ,
}
use korea_public_data_be.Dict
use korea_public_data_be.Plugins.Defs.{PluginRegistry}
use korea_public_data_be.Plugins.Register.{IsConsistent}
use korea_public_data_be.Plugins.Resolved.{IsResolved}
use korea_public_data_be.Plugins.Manager.{PluginManager}
use korea_public_data_be.Plugins.Running.{runs, IsChanged, then-IsChanged}
use korea_public_data_be.Plugins.Supported.{
  wanted, IsSupported, wanted_same, grown, changed-IsSupported, initialized-IsChanged,
}
use korea_public_data_be.Plugins.Activation.{
  ActivationError, all_but_last, activate_each, initialized, after_dependencies, in_order,
  activate_plugin,
}
use korea_public_data_be.Plugins.Begun.{
  all_but_last-append, activate_each_on, begun, begun-IsChanged, activate_plugin-Begins,
}

-- The same plugins, of which at least those that were active are, and no active one without its registered
-- dependencies.
pub record IsGrown (r x : PluginRegistry) : Type 0 where
  pub kept : (q : String) → runs r q ≡ true → runs x q ≡ true
  pub consistent : IsConsistent x
  pub supported : IsSupported x
  pub same_plugins : x.plugins ≡ r.plugins
  pub same_dependencies : x.dependencies ≡ r.dependencies

pub same-IsGrown : (r : PluginRegistry) → IsConsistent r → IsSupported r → IsGrown r r
same-IsGrown r c s = record {
  kept = λ q h. h;
  consistent = c;
  supported = s;
  same_plugins = refl;
  same_dependencies = refl;
}

pub then-IsGrown : (r x y : PluginRegistry) → IsGrown r x → IsGrown x y → IsGrown r y
then-IsGrown r x y g h = record {
  kept = λ q e. h.kept q (g.kept q e);
  consistent = h.consistent;
  supported = h.supported;
  same_plugins = h.same_plugins ∙ g.same_plugins;
  same_dependencies = h.same_dependencies ∙ g.same_dependencies;
}

pub changed-IsGrown :
    (r x : PluginRegistry) (p : String) (on : Bool)
    → runs r p ≡ false
    → IsChanged r x p on
    → (on ≡ true → (d : String) → elem d (wanted r p) ≡ true → runs r d ≡ true)
    → IsSupported r
    → IsGrown r x
changed-IsGrown r x p on off v needs s = record {
  kept = grown r x p on off v;
  consistent = v.consistent;
  supported = changed-IsSupported r x p on off v needs s;
  same_plugins = v.same_plugins;
  same_dependencies = v.same_dependencies;
}

module _ (str : ActivationError → String) (initialize : ℕ → String → Option Bool)
    (split : String → List String) (int : String → Option ℤ) (order : List String → List String)
    (same : (x : String) (xs : List String) → count x (order xs) ≡ count x xs) where
  -- What comes before a plugin whose dependencies are active is active.
  before_on :
      (m : PluginManager) (p : String)
      → IsConsistent m.registry
      → IsSupported m.registry
      → Dict.has m.registry.plugins p ≡ true
      → runs m.registry p ≡ false
      → ((d : String) → elem d (wanted m.registry p) ≡ true → runs m.registry d ≡ true)
      → (result before : List String)
      → IsResolved (begun str initialize split int order same m p).registry p result before
      → (x : String) → elem x before ≡ true
      → runs (begun str initialize split int order same m p).registry x ≡ true
  before_on m p c s h off needs result before w x e =
      let r = m.registry in
      let b = (begun str initialize split int order same m p).registry in
      let v = begun-IsChanged str initialize split int order same m p c h in
      let come : (runs r x || (p == x)) ≡ true =
        (w.within x e).1 (λ y. runs r y || (p == y))
          (λ q t. or_right (runs r q) (ground (arith, t)))
          (λ q d t f.
            let f' : elem d (wanted r q) ≡ true =
              sym (ap (elem d) (wanted_same b r q v.same_plugins v.same_dependencies)) ∙ f in
            elim (Bool-cases (runs r q)) [
              | inl on ↦ rw (s q d on f') refl
              | inr idle ↦
                  rw (needs d (ap (λ y. elem d (wanted r y)) (equals-eq (rw idle at t)) ∙ f')) refl
            ]) in
      grown r b p false off v x (elim (Bool-cases (runs r x)) [
        | inl on ↦ on
        | inr idle ↦ absurd (
            true≢false
              (sym e ∙ ap (λ y. elem y before) (sym (equals-eq (rw idle at come))) ∙ w.new))
      ])

  -- A registered plugin that is not active, while its dependencies are, comes to be active or not by
  -- itself: no other is activated.
  pub activate_ready :
      (fuel : ℕ) (m : PluginManager) (p : String)
      → IsConsistent m.registry
      → IsSupported m.registry
      → Dict.has m.registry.plugins p ≡ true
      → runs m.registry p ≡ false
      → ((d : String) → elem d (wanted m.registry p) ≡ true → runs m.registry d ≡ true)
      → (ok : Bool) × (m' : PluginManager) × (activate_plugin str initialize split int order
            (suc fuel)
            m
            p
          ≡ some (ok, m'))
        × IsChanged m.registry m'.registry p ok
  unfolding in_order after_dependencies
  activate_ready fuel m p c s h off needs =
      let b = begun str initialize split int order same m p in
      let v = begun-IsChanged str initialize split int order same m p c h in
      let activate = activate_plugin str initialize split int order fuel in
      elim (activate_plugin-Begins str initialize split int order same fuel m p c h off) [
        | inl (m', o, w) ↦ (false, m', o, w)
        | inr (result, before, w, o) ↦
            let (ok, m') = initialized str initialize b p in
            let cut = ap all_but_last w.parts ∙ all_but_last-append before p in
            let on = before_on m p c s h off needs result before w in
            (
              ok,
              m',
              o
                  ∙ ap (after_dependencies str initialize p) (
                      ap (λ l. activate_each activate l b) cut
                      ∙ activate_each_on activate before b on),
              then-IsChanged m.registry b.registry m'.registry p false ok v (
                  initialized-IsChanged str initialize b p v.consistent
                    (ap (λ d. Dict.has d p) v.same_plugins ∙ h)),
            )
      ]
