-- ===== src/Plugins/Deactivate.antt =====
-- What the deactivation of a plugin does, in app/core/plugins/manager.py.
use korea_public_data_be.Base.{
  or_right, ℕ, Bool, true, false, not, ◌&&◌, inl, inr, Option, none, some, ◌≡◌, refl, sym, ap, ◌∙◌,
  subst, false≢true, Bool-cases, Option-cases, String, List, [], ◌∷◌, ◌==◌, if◌then◌else◌, keep,
  elem, string_eq, equals_refl, equals-eq,
}
use korea_public_data_be.Dict
use korea_public_data_be.Dict.{Dict}
use korea_public_data_be.Plugins.Defs.{
  is_active, inactive, PluginRegistry, update_plugin_state, get_dependents,
}
use korea_public_data_be.Plugins.Dependents.{dep_names}
use korea_public_data_be.Plugins.Register.{IsConsistent}
use korea_public_data_be.Plugins.Manager.{
  PluginManager, active_names, cleaned, by_dependents, without_dependents, deactivate_plugin,
}
use korea_public_data_be.Plugins.Running.{
  runs, some_element, blocked, update-IsChanged, described-get, described_if, absent-get,
}

-- Where all dependents have metadata, the active ones are found.
active_names-keep :
    (r : PluginRegistry) (ds : List String)
    → ((d : String) → elem d ds ≡ true → Dict.has r.metadata d ≡ true)
    → active_names r ds ≡ some (keep (runs r) ds)
unfolding active_names
active_names-keep r [] h = refl
active_names-keep r (d ∷ ds) h =
    let (m, found) = described-get r d (h d (rw (equals_refl d))) in
    let rest = active_names-keep r ds (λ x e. h x (or_right (d == x) e)) in
    rw (found, rest, active_names)

-- A dependent of a plugin in a consistent registry has metadata.
dependent-has :
    (r : PluginRegistry) (p q : String)
    → IsConsistent r
    → elem q (get_dependents r p) ≡ true
    → Dict.has r.metadata q ≡ true
unfolding get_dependents
dependent-has r p q c h = elim (Bool-cases (Dict.has r.dependencies q)) [
  | inl there ↦ c.described q ∙ sym (c.declared q) ∙ there
  | inr missing ↦ absurd (
      false≢true (
        sym (ap (λ l. elem p (dep_names l)) (Dict.get_or_absent r.dependencies q [] missing))
        ∙ sym (c.inverse q p)
        ∙ h))
]

turned :
    {A : Type 0} (test : Bool) (x y : A) → (if test then x else y) ≡ (if not test then y else x)
turned true x y = refl
turned false x y = refl

choose_if :
    {A : Type 0} (P : A → Type 0) (on held : Bool) {x y : A}
    → (on ≡ true → held ≡ false → P x)
    → ((on && held) ≡ on → P y)
    → P (if on && not held then x else y)
choose_if P true true h k = k refl
choose_if P true false h k = h refl refl
choose_if P false held h k = k refl

-- What a deactivation leaves: which plugins are active, the laws of the registry, its other maps.
abbrev pub Deactivated : PluginRegistry → String → PluginRegistry → Type 0
Deactivated r p x =
    ((q : String) → runs x q ≡ (if p == q then runs r p && blocked r p else runs r q))
    × IsConsistent x
    × (x.dependents ≡ r.dependents)
    × (x.plugins ≡ r.plugins)
    × (x.dependencies ≡ r.dependencies)

kept-Deactivated :
    (r : PluginRegistry) (p : String)
    → IsConsistent r
    → (runs r p && blocked r p) ≡ runs r p
    → Deactivated r p r
kept-Deactivated r p c h = (
  (λ q. elim (Bool-cases (p == q)) [
    | inl same ↦ rw (same, h) (ap (runs r) (sym (equals-eq same)))
    | inr other ↦ rw other refl
  ]),
  c,
  refl,
  refl,
  refl,
)

stopped-Deactivated :
    (r : PluginRegistry) (p : String)
    → IsConsistent r
    → runs r p ≡ true
    → blocked r p ≡ false
    → Deactivated r p (update_plugin_state r p inactive none)
unfolding is_active
stopped-Deactivated r p c on free =
    let (m, found) = described_if r p on in
    let v =
      update-IsChanged r p inactive none c
        (sym (c.described p) ∙ Dict.has-get r.metadata p ∙ rw found) in
    (
      (λ q. rw (on, free) (v.activity q)),
      v.consistent,
      v.same_dependents,
      v.same_plugins,
      v.same_dependencies,
    )

module _ (cleanup : ℕ → String → Option Bool) where
  by_dependents-registry :
      (m : PluginManager) (p : String) (names : List String)
      → (by_dependents cleanup m p names).1.registry ≡ (
          if some_element names then m.registry else update_plugin_state m.registry p inactive none)
  unfolding by_dependents cleaned
  by_dependents-registry m p [] = elim (Option-cases (cleanup m.cleanups p)) [
    | inl raised ↦ rw (raised, cleaned)
    | inr (ok, said) ↦ rw (said, cleaned)
  ]
  by_dependents-registry m p (d ∷ ds) = refl

  without_dependents-registry :
      (m : PluginManager) (p : String)
      → IsConsistent m.registry
      → (without_dependents cleanup m p).1.registry ≡ (
          if blocked m.registry p
          then m.registry
          else update_plugin_state m.registry p inactive none)
  unfolding without_dependents
  without_dependents-registry m p c =
      let r = m.registry in
      let ds = get_dependents r p in
      rw (active_names-keep r ds (λ d e. dependent-has r p d c e), without_dependents)
        (by_dependents-registry m p (keep (runs r) ds))

  -- In a consistent registry deactivation sets an active plugin without active dependents to INACTIVE, and
  -- does nothing else.
  deactivate_plugin-registry :
      (m : PluginManager) (p : String)
      → IsConsistent m.registry
      → (deactivate_plugin cleanup m p).1.registry ≡ (
          if runs m.registry p && not (blocked m.registry p)
          then update_plugin_state m.registry p inactive none
          else m.registry)
  unfolding deactivate_plugin
  deactivate_plugin-registry m p c =
      let r = m.registry in
      elim (Bool-cases (Dict.has r.plugins p)) [
        | inl there ↦
            let (d, found) = described-get r p (c.described p ∙ there) in
            elim (Bool-cases (is_active d.state)) [
              | inl on ↦
                  rw (there, found, on, deactivate_plugin)
                    (without_dependents-registry m p c
                      ∙ turned (blocked r p) r (update_plugin_state r p inactive none))
              | inr off ↦ rw (there, found, off, deactivate_plugin)
            ]
        | inr missing ↦
            rw (missing, absent-get r.metadata p (c.described p ∙ missing), deactivate_plugin)
      ]

  -- In a consistent registry deactivation stops an active plugin exactly where none of its dependents is
  -- active, whatever its cleanup comes to, and changes whether a plugin is active for no other. The
  -- registry stays consistent, with the same plugins, dependencies and dependents.
  pub deactivate_plugin-runs :
      (m : PluginManager) (p : String)
      → IsConsistent m.registry
      → Deactivated m.registry p (deactivate_plugin cleanup m p).1.registry
  deactivate_plugin-runs m p c =
      let r = m.registry in
      subst (Deactivated r p) (sym (deactivate_plugin-registry m p c)) (
        choose_if (Deactivated r p) (runs r p) (blocked r p) (stopped-Deactivated r p c)
          (kept-Deactivated r p c))
