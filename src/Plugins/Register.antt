-- ===== src/Plugins/Register.antt =====
-- Registration of plugins in app/core/plugins/registry.py: the maps of the registry agree.
use korea_public_data_be.Base.{
  Bool, true, false, not, ◌&&◌, none, some, inl, inr, String, List, [], ◌∷◌, ◌==◌, string_eq, elem,
  true≢false, ◌≡◌, refl, sym, ap, ◌∙◌, arith, Bool-cases, equals_refl, equals-eq,
}
use korea_public_data_be.Dict
use korea_public_data_be.Dict.{Dict, get_or-put, get_or-remove, get_or_absent, has-put, has-remove}
use korea_public_data_be.Plugins.Defs.{
  PluginMetadata, PluginRegistry, empty_registry, discard_dependents, registered, register,
  validate_plugin_metadata, unregistered, unregister, active_dependents,
}
use korea_public_data_be.Plugins.Dependents.{
  dep_names, elem-add_dependents, elem-discard_dependents,
}

-- The plugin declares a dependency of the name.
abbrev pub depends : PluginRegistry → String → String → Bool
depends r q d = elem d (dep_names (Dict.get_or r.dependencies q []))

-- The three maps have the same plugins, and the dependents of a name are the plugins that declare it.
pub record IsConsistent (r : PluginRegistry) : Type 0 where
  pub described : (p : String) → Dict.has r.metadata p ≡ Dict.has r.plugins p
  pub declared : (p : String) → Dict.has r.dependencies p ≡ Dict.has r.plugins p
  pub inverse : (q d : String) → elem q (Dict.get_or r.dependents d []) ≡ depends r q d

pub empty_registry-IsConsistent : IsConsistent empty_registry
unfolding Dict.has Dict.get_or Dict.get
empty_registry-IsConsistent = record {
  described = λ p. refl;
  declared = λ p. refl;
  inverse = λ q d. refl;
}

registered-IsConsistent :
    (r : PluginRegistry) (m : PluginMetadata)
    → Dict.has r.plugins m.name ≡ false
    → IsConsistent r
    → IsConsistent (registered r m)
unfolding registered
registered-IsConsistent r m new v =
    let absent : Dict.get_or r.dependencies m.name [] ≡ [] =
      get_or_absent r.dependencies m.name [] (v.declared m.name ∙ new) in
    record {
      described = λ p.
          ground
            (arith, has-put r.metadata m.name p m, has-put r.plugins m.name p m, v.described p);
      declared = λ p. ground (
        arith,
        has-put r.dependencies m.name p m.dependencies,
        has-put r.plugins m.name p m,
        v.declared p,
      );
      inverse = λ q d.
          elem-add_dependents m.name m.dependencies r.dependents q d
          ∙ (let read =
                ap (λ l. elem d (dep_names l))
                  (get_or-put r.dependencies m.name q m.dependencies []) in
              elim (Bool-cases (m.name == q)) [
                | inl e ↦
                    let none_before : depends r q d ≡ false =
                      ap (λ l. elem d (dep_names l))
                        (ap (λ a. Dict.get_or r.dependencies a []) (sym (equals-eq e)) ∙ absent) in
                    rw e (rw (v.inverse q d ∙ none_before) (sym (rw e at read)))
                | inr e ↦ rw e (ground (arith, v.inverse q d, rw e at read))
              ]);
    }

-- Registration keeps the maps in agreement, and is refused exactly for a name that is taken, an
-- empty name or an empty version.
pub register-IsConsistent :
    (r : PluginRegistry) (m : PluginMetadata)
    → IsConsistent r
    → let (ok, r') = register r m in
      IsConsistent r'
      × (ok ≡ (not (Dict.has r.plugins m.name) && (not (m.name == "") && not (m.version == ""))))
unfolding register validate_plugin_metadata
register-IsConsistent r m v = elim (Bool-cases (Dict.has r.plugins m.name)) [
  | inl h ↦ rw h (v, refl)
  | inr n ↦ elim (Bool-cases (not (m.name == "") && not (m.version == ""))) [
    | inl y ↦ rw n (rw y (registered-IsConsistent r m n v, refl))
    | inr y ↦ rw n (rw y (v, refl))
  ]
]

-- No plugin has declared a dependency of the name.
abbrev pub IsFree : PluginRegistry → String → Type 0
IsFree r p = (q : String) → depends r q p ≡ false

unregistered-IsConsistent :
    (r : PluginRegistry) (p : String)
    → IsFree r p
    → IsConsistent r
    → IsConsistent (unregistered r p)
unfolding unregistered
unregistered-IsConsistent r p free v =
    let deps = Dict.get_or r.dependencies p [] in
    let m = discard_dependents p deps r.dependents in
    record {
      described =
          λ q. ground (arith, has-remove r.metadata p q, has-remove r.plugins p q, v.described q);
      declared = λ q.
          ground (arith, has-remove r.dependencies p q, has-remove r.plugins p q, v.declared q);
      inverse = λ q d.
          let kept = ap (elem q) (get_or-remove m p d []) in
          let read = ap (λ l. elem d (dep_names l)) (get_or-remove r.dependencies p q []) in
          let cut = elem-discard_dependents p deps r.dependents q d in
          kept
          ∙ (elim (Bool-cases (p == d)) [
            | inl e ↦ elim (Bool-cases (p == q)) [
              | inl s ↦ rw e (rw s)
              | inr n ↦ rw e (rw n (sym (ap (depends r q) (sym (equals-eq e)) ∙ free q)))
            ]
            | inr e ↦ elim (Bool-cases (p == q)) [
              | inl s ↦
                  let own : depends r q d ≡ elem d (dep_names deps) =
                    ap (λ a. depends r a d) (sym (equals-eq s)) in
                  rw e (rw s (cut ∙ rw s (ground (arith, v.inverse q d, own))))
              | inr n ↦ rw e (rw n (cut ∙ rw n (ground (arith, v.inverse q d))))
            ]
          ])
          ∙ sym read;
    }

active_dependents-none :
    (r : PluginRegistry) (ds : List String) (d : String)
    → elem d ds ≡ true
    → Dict.has r.metadata d ≡ true
    → active_dependents r ds ≡ none
unfolding active_dependents
active_dependents-none r [] d h m = cc
active_dependents-none r (x ∷ ds) d h m = elim (Bool-cases (Dict.has r.metadata x)) [
  | inl y ↦ rw y
  | inr n ↦
      rw n (active_dependents-none r ds d (ground (arith, h, string_eq.equals_iff x d, n, m)) m)
]

active_dependents-empty :
    (r : PluginRegistry) (ds : List String)
    → ((d : String) → elem d ds ≡ false)
    → active_dependents r ds ≡ some []
unfolding active_dependents
active_dependents-empty r [] h = refl
active_dependents-empty r (x ∷ ds) h = absurd (true≢false (sym (rw (equals_refl x)) ∙ h x))

-- A plugin that another depends on is not unregistered, whatever the state of the other.
pub unregister_depended :
    (r : PluginRegistry) (p q : String)
    → IsConsistent r
    → depends r q p ≡ true
    → unregister r p ≡ (false, r)
unfolding unregister
unregister_depended r p q v h =
    let there : Dict.has r.metadata q ≡ true = elim (Bool-cases (Dict.has r.dependencies q)) [
      | inl y ↦ v.described q ∙ sym (v.declared q) ∙ y
      | inr n ↦ absurd (
          true≢false (sym h ∙ ap (λ l. elem p (dep_names l)) (get_or_absent r.dependencies q [] n)))
    ] in
    let raises =
      active_dependents-none r (Dict.get_or r.dependents p []) q (v.inverse q p ∙ h) there in
    elim (Bool-cases (Dict.has r.plugins p)) [
      | inl y ↦ rw y (rw (raises, unregister))
      | inr n ↦ rw n
    ]

-- Where no plugin depends on it, a registered plugin is unregistered and the maps stay in agreement.
pub unregister_free :
    (r : PluginRegistry) (p : String)
    → IsConsistent r
    → IsFree r p
    → Dict.has r.plugins p ≡ true
    → let (ok, r') = unregister r p in
      (ok ≡ true) × IsConsistent r' × (Dict.has r'.plugins p ≡ false)
unfolding unregister unregistered
unregister_free r p v free there =
    let passes =
      active_dependents-empty r (Dict.get_or r.dependents p []) (λ d. v.inverse d p ∙ free d) in
    rw there (
      rw passes
        (refl, unregistered-IsConsistent r p free v, has-remove r.plugins p p ∙ rw (equals_refl p)))
