-- ===== src/Plugins/Begun.antt =====
-- The first half of an activation by PluginManager of app/core/plugins/manager.py, up to the order of the
-- plugin's dependencies.
use korea_public_data_be.Base.{
  or_right, ℕ, suc, Bool, true, false, not, ◌⊎◌, inl, inr, Option, none, some, String, List, [],
  ◌∷◌, ◌++◌, string_eq, elem, count, ◌≡◌, refl, sym, ap, ◌∙◌, ℤ, equals_refl, ◌==◌, if◌then◌else◌,
}
use korea_public_data_be.Dict
use korea_public_data_be.Plugins.Defs.{is_active, initializing, PluginRegistry}
use korea_public_data_be.Plugins.Sort.{SortError, circular_dependency}
use korea_public_data_be.Plugins.Sorted.{topological_sort_outcome}
use korea_public_data_be.Plugins.Remaining.{List-cases}
use korea_public_data_be.Plugins.Resolved.{IsResolved, IsSorted-IsResolved}
use korea_public_data_be.Plugins.Register.{IsConsistent}
use korea_public_data_be.Plugins.Versions.{validate_dependencies}
use korea_public_data_be.Plugins.Manager.{PluginManager}
use korea_public_data_be.Plugins.Running.{
  running, runs, described-get, described_if, IsChanged, update-IsChanged, then-IsChanged,
}
use korea_public_data_be.Plugins.Supported.{failed-IsChanged, raised-IsChanged}
use korea_public_data_be.Plugins.Activation.{
  ActivationError, missing_dependencies, unresolved, failed, raised, all_but_last, is_inactive,
  after_dependency, activate_each, resolve_dependencies, set_state, in_order, with_dependencies,
  activate_plugin,
}

pub all_but_last-append : (xs : List String) (p : String) → all_but_last (xs ++ (p ∷ [])) ≡ xs
unfolding all_but_last
all_but_last-append [] p = refl
all_but_last-append (x ∷ []) p = refl
all_but_last-append (x ∷ y ∷ xs) p = ap (λ l. x ∷ l) (all_but_last-append (y ∷ xs) p)

pub is_inactive_off :
    (r : PluginRegistry) (p : String)
    → Dict.has r.metadata p ≡ true
    → runs r p ≡ false
    → is_inactive r p ≡ true
unfolding is_inactive
is_inactive_off r p h off =
    let (m, found) = described-get r p h in
    rw (found, is_inactive) (ap not (sym (ap running found) ∙ off))

pub is_inactive_on : (r : PluginRegistry) (p : String) → runs r p ≡ true → is_inactive r p ≡ false
unfolding is_inactive
is_inactive_on r p on =
    let (m, found) = described_if r p on in
    rw (found, is_inactive) (ap not (sym (ap running found) ∙ on))

module _ (activate : PluginManager → String → Option (Bool × PluginManager)) where
  -- The loop passes over a plugin that is active.
  pub activate_each_skips :
      (d : String) (ds : List String) (m : PluginManager)
      → runs m.registry d ≡ true
      → activate_each activate (d ∷ ds) m ≡ activate_each activate ds m
  unfolding activate_each
  activate_each_skips d ds m on =
      let rest = activate_each activate ds in
      ap (λ t. if t then after_dependency rest d (activate m d) else rest m)
        (is_inactive_on m.registry d on)

  -- The loop activates a plugin that is not.
  pub activate_each_calls :
      (d : String) (ds : List String) (m : PluginManager)
      → Dict.has m.registry.metadata d ≡ true
      → runs m.registry d ≡ false
      → activate_each activate (d ∷ ds) m
        ≡ after_dependency (activate_each activate ds) d (activate m d)
  unfolding activate_each
  activate_each_calls d ds m h off =
      let rest = activate_each activate ds in
      ap (λ t. if t then after_dependency rest d (activate m d) else rest m)
        (is_inactive_off m.registry d h off)

  -- The loop does nothing where all are active.
  pub activate_each_on :
      (l : List String) (m : PluginManager)
      → ((x : String) → elem x l ≡ true → runs m.registry x ≡ true)
      → activate_each activate l m ≡ some (none, m)
  unfolding activate_each
  activate_each_on [] m h = refl
  activate_each_on (x ∷ l) m h =
      activate_each_skips x l m (h x (rw (equals_refl x) refl))
      ∙ activate_each_on l m (λ y e. h y (or_right (x == y) e))

module _ (str : ActivationError → String) (initialize : ℕ → String → Option Bool)
    (split : String → List String) (int : String → Option ℤ) (order : List String → List String)
    (same : (x : String) (xs : List String) → count x (order xs) ≡ count x xs) where
  abbrev pub begun : PluginManager → String → PluginManager
  begun m p = set_state m p initializing none

  pub begun-IsChanged :
      (m : PluginManager) (p : String)
      → IsConsistent m.registry
      → Dict.has m.registry.plugins p ≡ true
      → IsChanged m.registry (begun m p).registry p false
  unfolding set_state is_active
  begun-IsChanged m p c h = update-IsChanged m.registry p initializing none c h

  -- A registered plugin that is not active
  activate_plugin_begins :
      (fuel : ℕ) (m : PluginManager) (p : String)
      → IsConsistent m.registry
      → Dict.has m.registry.plugins p ≡ true
      → runs m.registry p ≡ false
      → activate_plugin str initialize split int order (suc fuel) m p
        ≡ with_dependencies str initialize
            (activate_plugin str initialize split int order fuel)
            order
            (begun m p)
            p
            (validate_dependencies split int (begun m p).registry p)
  unfolding activate_plugin
  activate_plugin_begins fuel m p c h off =
      let (d, found) = described-get m.registry p (c.described p ∙ h) in
      let idle : is_active d.state ≡ false = sym (ap running found) ∙ off in
      rw (h, found, idle, activate_plugin)

  -- The activation fails at once, or goes on with the plugins before it in the order.
  abbrev pub Begins : ℕ → PluginManager → String → Option (Bool × PluginManager) → Type 0
  Begins fuel m p o =
      ((m' : PluginManager) × (o ≡ some (false, m')) × IsChanged m.registry m'.registry p false)
      ⊎ ((result before : List String) × IsResolved (begun m p).registry p result before
          × (o
              ≡ in_order str initialize (activate_plugin str initialize split int order fuel)
                  (begun m p) p (inr result)))

  pub activate_plugin-Begins :
      (fuel : ℕ) (m : PluginManager) (p : String)
      → IsConsistent m.registry
      → Dict.has m.registry.plugins p ≡ true
      → runs m.registry p ≡ false
      → Begins fuel m p (activate_plugin str initialize split int order (suc fuel) m p)
  unfolding with_dependencies in_order raised failed resolve_dependencies
  activate_plugin-Begins fuel m p c h off =
      let b = begun m p in
      let v = begun-IsChanged m p c h in
      let here : Dict.has b.registry.plugins p ≡ true = ap (λ d. Dict.has d p) v.same_plugins ∙ h in
      let activate = activate_plugin str initialize split int order fuel in
      let start = activate_plugin_begins fuel m p c h off in
      let ends = λ (x : PluginManager) (w : IsChanged b.registry x.registry p false).
        then-IsChanged m.registry b.registry x.registry p false false v w in
      let fails = λ (e : SortError).
        ends (failed str b p (unresolved e)).1
          (failed-IsChanged str b p (unresolved e) v.consistent here) in
      elim (List-cases (validate_dependencies split int b.registry p)) [
        | inl e ↦
            let go = start ∙ ap (with_dependencies str initialize activate order b p) e in
            elim (topological_sort_outcome b.registry (p ∷ []) order same) [
              | inl (result, o, s) ↦
                  let (before, w) = IsSorted-IsResolved b.registry p result s here in
                  inr (result, before, w, go ∙ ap (in_order str initialize activate b p) o)
              | inr (inl (err, o, _)) ↦ inl (
                (failed str b p (unresolved err)).1,
                go ∙ ap (in_order str initialize activate b p) o,
                fails err,
              )
              | inr (inr (rest, o, _)) ↦ inl (
                (failed str b p (unresolved (circular_dependency rest))).1,
                go ∙ ap (in_order str initialize activate b p) o,
                fails (circular_dependency rest),
              )
            ]
        | inr (x, xs, e) ↦
            let err = missing_dependencies (x ∷ xs) in
            inl (
              (raised str b p err).1,
              start ∙ ap (with_dependencies str initialize activate order b p) e,
              ends (raised str b p err).1 (raised-IsChanged str b p err v.consistent here),
            )
      ]
