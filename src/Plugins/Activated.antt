-- ===== src/Plugins/Activated.antt =====
-- The activation of a plugin and of its dependencies first, by PluginManager of app/core/plugins/manager.py.
use mathlib.Core.List.{append_assoc, append-nil}
use korea_public_data_be.Base.{
  or-false, or_right, ℕ, suc, Bool, true, false, ◌||◌, ◌⊎◌, inl, inr, Option, none, some, String,
  List, [], ◌∷◌, ◌++◌, ◌==◌, string_eq, elem, count, ◌≡◌, refl, sym, ap, ◌∙◌, false≢true,
  Bool-cases, All-elem, elem-append, equals_refl, equals-eq, ℤ,
}
use korea_public_data_be.Dict
use korea_public_data_be.Plugins.Defs.{is_active, PluginRegistry}
use korea_public_data_be.Plugins.Register.{IsConsistent}
use korea_public_data_be.Plugins.Kahn.{Ordered}
use korea_public_data_be.Plugins.Manager.{PluginManager}
use korea_public_data_be.Plugins.Running.{running, runs, described_if, absent-get}
use korea_public_data_be.Plugins.Supported.{
  wanted, IsSupported, wanted_same, grown, initialized-IsChanged, raised-IsChanged,
}
use korea_public_data_be.Plugins.Activation.{
  ActivationError, failed_dependency, raised, all_but_last, after_dependency, activate_each,
  initialized, after_dependencies, in_order, activate_plugin,
}
use korea_public_data_be.Plugins.Begun.{
  all_but_last-append, activate_each_skips, activate_each_calls, begun, begun-IsChanged,
  activate_plugin-Begins,
}
use korea_public_data_be.Plugins.Grown.{
  IsGrown, same-IsGrown, then-IsGrown, changed-IsGrown, activate_ready,
}

module _ (str : ActivationError → String) (initialize : ℕ → String → Option Bool)
    (split : String → List String) (int : String → Option ℤ) (order : List String → List String)
    (same : (x : String) (xs : List String) → count x (order xs) ≡ count x xs) where
  abbrev act : ℕ → PluginManager → String → Option (Bool × PluginManager)
  act = activate_plugin str initialize split int order

  abbrev start : PluginManager → String → PluginManager
  start = begun str initialize split int order same

  -- The loop over plugins in the order of their dependencies ends with all of them active, or with one that
  -- fails. Active plugins stay active, and those that are not in the list stay as they are.
  abbrev Looped :
      PluginRegistry
      → List String
      → List String
      → PluginManager
      → Option (Option String × PluginManager)
      → Type 0
  Looped r done ps m o =
      (m' : PluginManager) × IsGrown r m'.registry
      × ((q : String) → elem q ps ≡ false → runs m'.registry q ≡ runs m.registry q)
      × (((o ≡ some (none, m'))
            × ((q : String) → elem q (done ++ ps) ≡ true → runs m'.registry q ≡ true))
          ⊎ ((d : String) × (o ≡ some (some d, m'))))

  -- The rest of the loop after one plugin
  later-Looped :
      (r : PluginRegistry) (done ps : List String) (d : String) (m m1 : PluginManager)
      (o o1 : Option (Option String × PluginManager))
      → o ≡ o1
      → ((q : String) → (d == q) ≡ false → runs m1.registry q ≡ runs m.registry q)
      → Looped r (done ++ (d ∷ [])) ps m1 o1
      → Looped r done (d ∷ ps) m o
  later-Looped r done ps d m m1 o o1 eq keep (m', g, others, end) = (
    m',
    g,
    (λ q h. let (other, rest) = or-false (d == q) (elem q ps) h in others q rest ∙ keep q other),
    elim end [
      | inl (e, all) ↦
          inl (eq ∙ e, (λ q f. all q (ap (elem q) (append_assoc done (d ∷ []) ps) ∙ f)))
      | inr (x, e) ↦ inr (x, eq ∙ e)
    ],
  )

  done_on :
      (r : PluginRegistry) (done : List String) (d : String)
      → ((q : String) → elem q done ≡ true → runs r q ≡ true)
      → runs r d ≡ true
      → (q : String) → elem q (done ++ (d ∷ [])) ≡ true
      → runs r q ≡ true
  done_on r done d on now q e =
      let e' = sym (elem-append q done (d ∷ [])) ∙ e in
      elim (Bool-cases (elem q done)) [
        | inl there ↦ on q there
        | inr new ↦ ap (runs r) (sym (equals-eq (only (d == q) (rw new at e')))) ∙ now
      ]
    where
      only : (b : Bool) → (b || false) ≡ true → b ≡ true
      only true h = h
      only false h = h

  activate_each-Looped :
      (fuel : ℕ) (r : PluginRegistry) (ps done : List String) (m : PluginManager)
      → IsGrown r m.registry
      → Ordered (wanted r) done ps
      → ((q : String) → elem q done ≡ true → runs m.registry q ≡ true)
      → ((q : String) → elem q ps ≡ true → Dict.has r.plugins q ≡ true)
      → Looped r done ps m (activate_each (act (suc fuel)) ps m)
  unfolding activate_each
  activate_each-Looped fuel r [] done m g o on here =
      (m, g, (λ q h. refl), inl (refl, (λ q e. on q (ap (elem q) (sym (append-nil done)) ∙ e))))
  activate_each-Looped fuel r (d ∷ ps) done m g o on here =
      let next = activate_each (act (suc fuel)) ps in
      elim (Bool-cases (runs m.registry d)) [
        | inl active_now ↦
            later-Looped r done ps d m m _ _
              (activate_each_skips (act (suc fuel)) d ps m active_now) (λ q h. refl)
              (activate_each-Looped fuel r ps (done ++ (d ∷ [])) m g o.1
                (done_on m.registry done d on active_now) (λ q e. here q (or_right (d == q) e)))
        | inr off ↦
            let there : Dict.has m.registry.plugins d ≡ true =
              ap (λ x. Dict.has x d) g.same_plugins ∙ here d (rw (equals_refl d) refl) in
            let needs = λ (x : String) (e : elem x (wanted m.registry d) ≡ true). on x (
              All-elem (λ y. elem y done ≡ true) x (wanted r d)
                (sym (ap (elem x) (wanted_same m.registry r d g.same_plugins g.same_dependencies))
                  ∙ e)
                o.0) in
            let (ok, m1, eq, v) =
              activate_ready str initialize split int order same fuel m d g.consistent g.supported
                there off needs in
            let g1 =
              then-IsGrown r m.registry m1.registry g
                (changed-IsGrown m.registry m1.registry d ok off v (λ _. needs) g.supported) in
            let calls =
              activate_each_calls (act (suc fuel)) d ps m (g.consistent.described d ∙ there) off
              ∙ ap (after_dependency next d) eq in
            let keep = λ (q : String) (h : (d == q) ≡ false). v.activity q ∙ rw h refl in
            elim (Bool-cases ok) [
              | inl good ↦
                  later-Looped r done ps d m m1 _ _
                    (calls ∙ ap (λ b. after_dependency next d (some (b, m1))) good) keep
                    (activate_each-Looped fuel r ps (done ++ (d ∷ [])) m1 g1 o.1
                      (done_on m1.registry done d
                        (λ q e. grown m.registry m1.registry d ok off v q (on q e))
                        (v.activity d ∙ rw (equals_refl d, good) refl))
                      (λ q e. here q (or_right (d == q) e)))
              | inr bad ↦ (
                m1,
                g1,
                (λ q h. keep q (or-false (d == q) (elem q ps) h).0),
                inr (d, calls ∙ ap (λ b. after_dependency next d (some (b, m1))) bad),
              )
            ]
      ]

  -- The activation of a registered plugin that was not active
  begun-Settled :
      (fuel : ℕ) (m : PluginManager) (p : String)
      → IsConsistent m.registry
      → IsSupported m.registry
      → Dict.has m.registry.plugins p ≡ true
      → runs m.registry p ≡ false
      → (ok : Bool) × (m' : PluginManager) × (act (suc (suc fuel)) m p ≡ some (ok, m'))
        × IsGrown m.registry m'.registry
        × (runs m'.registry p ≡ ok)
  unfolding in_order after_dependencies
  begun-Settled fuel m p c s h off =
      let v = begun-IsChanged str initialize split int order same m p c h in
      let r = (start m p).registry in
      let g = changed-IsGrown m.registry r p false off v (λ e. absurd (false≢true e)) s in
      elim (activate_plugin-Begins str initialize split int order same (suc fuel) m p c h off) [
        | inl (m', o, w) ↦ (
          false,
          m',
          o,
          changed-IsGrown m.registry m'.registry p false off w (λ e. absurd (false≢true e)) s,
          w.activity p ∙ rw (equals_refl p) refl,
        )
        | inr (result, before, w, o) ↦
            let cut = ap all_but_last w.parts ∙ all_but_last-append before p in
            let (m1, g1, others, end) =
              activate_each-Looped fuel r before [] (start m p)
                (same-IsGrown r g.consistent g.supported) w.ordered (λ q e. absurd (false≢true e))
                (λ q e. (w.within q e).0) in
            let here : Dict.has m1.registry.plugins p ≡ true =
              ap (λ d. Dict.has d p) (g1.same_plugins ∙ v.same_plugins) ∙ h in
            let idle : runs m1.registry p ≡ false =
              others p w.new ∙ v.activity p ∙ rw (equals_refl p) refl in
            let grown_so = then-IsGrown m.registry r m1.registry g g1 in
            let o1 =
              o
              ∙ ap
                  (λ l.
                    after_dependencies str initialize p
                      (activate_each (act (suc fuel)) l (start m p)))
                  cut in
            elim end [
              | inl (e, all) ↦
                  let (ok, m2) = initialized str initialize m1 p in
                  let v2 = initialized-IsChanged str initialize m1 p g1.consistent here in
                  (
                    ok,
                    m2,
                    o1 ∙ ap (after_dependencies str initialize p) e,
                    then-IsGrown m.registry m1.registry m2.registry grown_so (
                        changed-IsGrown m1.registry m2.registry p ok idle v2
                          (λ _ d n. all d (
                            w.needed d (
                              sym (
                                ap (elem d) (
                                  wanted_same m1.registry r p g1.same_plugins g1.same_dependencies))
                              ∙ n)))
                          g1.supported),
                    v2.activity p ∙ rw (equals_refl p) refl,
                  )
              | inr (d, e) ↦
                  let (_, m2) = raised str m1 p (failed_dependency d) in
                  let v2 = raised-IsChanged str m1 p (failed_dependency d) g1.consistent here in
                  (
                    false,
                    m2,
                    o1 ∙ ap (after_dependencies str initialize p) e,
                    then-IsGrown m.registry m1.registry m2.registry grown_so (
                        changed-IsGrown m1.registry m2.registry p false idle v2
                          (λ e. absurd (false≢true e)) g1.supported),
                    v2.activity p ∙ rw (equals_refl p) refl,
                  )
            ]
      ]

  -- Where the registry is consistent, every active plugin has its registered dependencies active, and going
  -- through a set gives each element as often as the set has it, an activation with a fuel of 2 or more ends
  -- with an answer. It is true exactly where the plugin is active then. The registry stays consistent, active
  -- plugins stay active, and again no active plugin is without its registered dependencies.
  pub activate_plugin_settles :
      (fuel : ℕ) (m : PluginManager) (p : String)
      → IsConsistent m.registry
      → IsSupported m.registry
      → (ok : Bool) × (m' : PluginManager) × (activate_plugin str initialize split int order
            (suc (suc fuel))
            m
            p
          ≡ some (ok, m'))
        × IsGrown m.registry m'.registry
        × (runs m'.registry p ≡ ok)
  unfolding activate_plugin
  activate_plugin_settles fuel m p c s = elim (Bool-cases (Dict.has m.registry.plugins p)) [
    | inl h ↦ elim (Bool-cases (runs m.registry p)) [
      | inl on ↦
          let (d, found) = described_if m.registry p on in
          let busy : is_active d.state ≡ true = sym (ap running found) ∙ on in
          (true, m, rw (h, found, busy, activate_plugin), same-IsGrown m.registry c s, on)
      | inr off ↦ begun-Settled fuel m p c s h off
    ]
    | inr missing ↦ (
      false,
      m,
      rw (missing, activate_plugin),
      same-IsGrown m.registry c s,
      ap running (absent-get m.registry.metadata p (c.described p ∙ missing)),
    )
  ]
