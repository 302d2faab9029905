-- ===== src/Plugins/Running.antt =====
-- Which plugins are active, and updates of a state, in app/core/plugins/registry.py.
use korea_public_data_be.Base.{
  none, true≢false, subst, Bool, true, false, inl, inr, Option, none, some, ◌≡◌, refl, sym, ap, ◌∙◌,
  false≢true, Bool-cases, Option-cases, String, List, [], ◌∷◌, ◌==◌, if◌then◌else◌, keep, string_eq,
  equals-eq,
}
use korea_public_data_be.Dict
use korea_public_data_be.Dict.{Dict}
use korea_public_data_be.Plugins.Defs.{
  PluginState, is_active, PluginMetadata, PluginRegistry, update_plugin_state, get_dependents,
}
use korea_public_data_be.Plugins.Register.{IsConsistent}

abbrev pub running : Option PluginMetadata → Bool
running none = false
running (some m) = is_active m.state

-- The plugin is active.
abbrev pub runs : PluginRegistry → String → Bool
runs r p = running (Dict.get r.metadata p)

abbrev pub some_element : List String → Bool
some_element [] = false
some_element (x ∷ xs) = true

-- A dependent of the plugin is active.
abbrev pub blocked : PluginRegistry → String → Bool
blocked r p = some_element (keep (runs r) (get_dependents r p))

running_if :
    (test : Bool) (x y : Option PluginMetadata)
    → running (if test then x else y) ≡ (if test then running x else running y)
running_if true x y = refl
running_if false x y = refl

-- A plugin's metadata after an update of its state
abbrev pub restated : PluginState → Option String → PluginMetadata → PluginMetadata
restated s message m = record m {
  state = s;
  error_message = elim message [
    | none ↦ m.error_message
    | some e ↦ if e == "" then m.error_message else some e
  ];
}

pub updated :
    (r : PluginRegistry) (p : String) (s : PluginState) (message : Option String)
    {m : PluginMetadata}
    → Dict.get r.metadata p ≡ some m
    → update_plugin_state r p s message
      ≡ record r { metadata = Dict.put r.metadata p (restated s message m) }
unfolding update_plugin_state
updated r p s message h = rw (h, update_plugin_state)

-- What an update changes where a plugin is then active or not: whether that one is active, and no other.
pub record IsChanged (r x : PluginRegistry) (p : String) (on : Bool) : Type 0 where
  pub activity : (q : String) → runs x q ≡ (if p == q then on else runs r q)
  pub consistent : IsConsistent x
  pub same_plugins : x.plugins ≡ r.plugins
  pub same_dependencies : x.dependencies ≡ r.dependencies
  pub same_dependents : x.dependents ≡ r.dependents

pub described-get :
    (r : PluginRegistry) (p : String)
    → Dict.has r.metadata p ≡ true
    → (m : PluginMetadata) × (Dict.get r.metadata p ≡ some m)
described-get r p h = elim (Option-cases (Dict.get r.metadata p)) [
  | inl missing ↦ absurd (false≢true (sym (Dict.has-get r.metadata p ∙ rw missing) ∙ h))
  | inr found ↦ found
]

pub described_if :
    (r : PluginRegistry) (p : String)
    → runs r p ≡ true
    → (m : PluginMetadata) × (Dict.get r.metadata p ≡ some m)
described_if r p h = elim (Option-cases (Dict.get r.metadata p)) [
  | inl missing ↦ absurd (false≢true (sym (rw missing) ∙ h))
  | inr found ↦ found
]

has_replaced :
    (d : Dict String PluginMetadata) (p q : String) (m : PluginMetadata)
    → Dict.has d p ≡ true
    → Dict.has (Dict.put d p m) q ≡ Dict.has d q
has_replaced d p q m h = elim (Bool-cases (p == q)) [
  | inl same ↦ Dict.has-put d p q m ∙ rw same (sym h ∙ ap (Dict.has d) (equals-eq same))
  | inr other ↦ Dict.has-put d p q m ∙ rw other refl
]

put-IsChanged :
    (r : PluginRegistry) (p : String) (s : PluginState) (message : Option String)
    {m : PluginMetadata}
    → IsConsistent r
    → Dict.get r.metadata p ≡ some m
    → IsChanged r
        (record r { metadata = Dict.put r.metadata p (restated s message m) })
        p
        (is_active s)
put-IsChanged r p s message {m} c h =
    let m' = restated s message m in
    let there : Dict.has r.metadata p ≡ true = Dict.has-get r.metadata p ∙ rw h in
    record {
      activity = λ q.
          ap running (Dict.get-put r.metadata p q m')
          ∙ running_if (p == q) (some m') (Dict.get r.metadata q);
      consistent = record {
        described = λ q. has_replaced r.metadata p q m' there ∙ c.described q;
        declared = c.declared;
        inverse = c.inverse;
      };
      same_plugins = refl;
      same_dependencies = refl;
      same_dependents = refl;
    }

pub update-IsChanged :
    (r : PluginRegistry) (p : String) (s : PluginState) (message : Option String)
    → IsConsistent r
    → Dict.has r.plugins p ≡ true
    → IsChanged r (update_plugin_state r p s message) p (is_active s)
update-IsChanged r p s message c h =
    let (m, found) = described-get r p (c.described p ∙ h) in
    subst (λ x. IsChanged r x p (is_active s)) (sym (updated r p s message found))
      (put-IsChanged r p s message c found)

pub then-IsChanged :
    (r x y : PluginRegistry) (p : String) (a b : Bool)
    → IsChanged r x p a
    → IsChanged x y p b
    → IsChanged r y p b
then-IsChanged r x y p a b v w = record {
  activity = λ q. w.activity q ∙ (elim (Bool-cases (p == q)) [
    | inl same ↦ rw same refl
    | inr other ↦ rw other (v.activity q ∙ rw other refl)
  ]);
  consistent = w.consistent;
  same_plugins = w.same_plugins ∙ v.same_plugins;
  same_dependencies = w.same_dependencies ∙ v.same_dependencies;
  same_dependents = w.same_dependents ∙ v.same_dependents;
}

pub absent-get :
    (d : Dict String PluginMetadata) (p : String) → Dict.has d p ≡ false → Dict.get d p ≡ none
absent-get d p h = elim (Option-cases (Dict.get d p)) [
  | inl missing ↦ missing
  | inr (m, found) ↦ absurd (true≢false (sym (Dict.has-get d p ∙ rw found) ∙ h))
]
