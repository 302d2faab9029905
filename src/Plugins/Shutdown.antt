-- ===== src/Plugins/Shutdown.antt =====
-- What the shutdown of the plugin manager leaves, in app/core/plugins/manager.py.
use korea_public_data_be.Base.{
  and-true, and-false, or-false, ℕ, Bool, true, false, not, ◌&&◌, inl, inr, Option, some, ◌≡◌, refl,
  sym, ap, ◌∙◌, false≢true, Bool-cases, String, List, [], ◌∷◌, ◌++◌, ◌==◌, ◌||◌, if◌then◌else◌,
  keep, elem, string_eq, equals_refl, equals-eq,
}
use korea_public_data_be.Dict
use korea_public_data_be.Dict.{Dict}
use korea_public_data_be.Plugins.Defs.{is_active, PluginMetadata, PluginRegistry, get_dependents}
use korea_public_data_be.Plugins.Register.{IsConsistent}
use korea_public_data_be.Plugins.Manager.{
  PluginManager, list_active, deactivate_plugin, deactivate_all, shutdown_manager,
}
use korea_public_data_be.Plugins.Running.{running, runs, some_element}
use korea_public_data_be.Plugins.Deactivate.{deactivate_plugin-runs}

abbrev pub none_among : List String → List String → Bool
none_among [] l = true
none_among (q ∷ qs) l = not (elem q l) && none_among qs l

-- No plugin of the list has a dependent at its place or after it.
abbrev pub dependents_first : Dict String (List String) → List String → Bool
dependents_first d [] = true
dependents_first d (p ∷ l) = none_among (Dict.get_or d p []) (p ∷ l) && dependents_first d l

-- An active plugin is listed.
listed :
    (d : Dict String PluginMetadata) (p : String)
    → running (Dict.get d p) ≡ true
    → elem p (list_active d) ≡ true
unfolding Dict.get list_active
listed [] p h = h
listed ((n, m) ∷ d) p h = elim (Bool-cases (n == p)) [
  | inl same ↦
      let on : is_active m.state ≡ true =
        sym (ap (λ t. running (if t then some m else Dict.get d p)) same) ∙ h in
      rw (on, same, list_active) refl
  | inr other ↦
      let rest =
        listed d p (sym (ap (λ t. running (if t then some m else Dict.get d p)) other) ∙ h) in
      elim (Bool-cases (is_active m.state)) [
        | inl on ↦ rw (on, other, list_active) rest
        | inr off ↦ rw (off, list_active) rest
      ]
]

-- No dependent is active where the active plugins are in the list and the dependents are not.
free_among :
    (r : PluginRegistry) (qs l : List String)
    → none_among qs l ≡ true
    → ((q : String) → runs r q ≡ true → elem q l ≡ true)
    → some_element (keep (runs r) qs) ≡ false
free_among r [] l h inside = refl
free_among r (q ∷ qs) l h inside =
    let (absent, rest) = and-true (not (elem q l)) (none_among qs l) h in
    elim (Bool-cases (runs r q)) [
      | inl on ↦ absurd (false≢true (sym (ap not (inside q on)) ∙ absent))
      | inr off ↦ rw off (free_among r qs l rest inside)
    ]

-- An active dependent is found.
pub held_among :
    (r : PluginRegistry) (q : String) (qs : List String)
    → elem q qs ≡ true
    → runs r q ≡ true
    → some_element (keep (runs r) qs) ≡ true
held_among r q [] h on = absurd (false≢true h)
held_among r q (x ∷ qs) h on = elim (Bool-cases (x == q)) [
  | inl same ↦ rw (ap (runs r) (equals-eq same) ∙ on) refl
  | inr other ↦
      let rest = held_among r q qs (sym (ap (λ t. t || elem q qs) other) ∙ h) on in
      elim (Bool-cases (runs r x)) [ inl e ↦ rw e refl | inr e ↦ rw e rest ]
]

module _ (cleanup : ℕ → String → Option Bool) where
  deactivate_all-runs :
      (l : List String) (m : PluginManager)
      → IsConsistent m.registry
      → dependents_first m.registry.dependents l ≡ true
      → ((q : String) → runs m.registry q ≡ true → elem q l ≡ true)
      → (q : String) → runs (deactivate_all cleanup l m).registry q ≡ false
  unfolding deactivate_all get_dependents
  deactivate_all-runs [] m c h inside q = elim (Bool-cases (runs m.registry q)) [
    | inl on ↦ absurd (false≢true (inside q on))
    | inr off ↦ off
  ]
  deactivate_all-runs (p ∷ l) m c h inside q =
      let r = m.registry in
      let (runs_now, c', same, _, _) = deactivate_plugin-runs cleanup m p c in
      let (now, later) =
        and-true (none_among (get_dependents r p) (p ∷ l)) (dependents_first r.dependents l) h in
      let free = free_among r (get_dependents r p) (p ∷ l) now inside in
      deactivate_all-runs l (deactivate_plugin cleanup m p).1 c'
        (ap (λ d. dependents_first d l) same ∙ later)
        (λ x on. elim (Bool-cases (p == x)) [
          | inl e ↦
              absurd (false≢true (sym (runs_now x ∙ rw (e, free) (and-false (runs r p))) ∙ on))
          | inr e ↦ sym (ap (λ t. t || elem x l) e) ∙ inside x (sym (runs_now x ∙ rw e refl) ∙ on)
        ])
        q

  -- Deactivations of others leave an active plugin active, and the registry consistent with the same
  -- dependents.
  deactivate_all_others :
      (l : List String) (m : PluginManager)
      → IsConsistent m.registry
      → let r = (deactivate_all cleanup l m).registry in
        IsConsistent r
        × (r.dependents ≡ m.registry.dependents)
        × ((q : String) → elem q l ≡ false → runs r q ≡ runs m.registry q)
  unfolding deactivate_all
  deactivate_all_others [] m c = (c, refl, λ q h. refl)
  deactivate_all_others (p ∷ l) m c =
      let (runs_now, c', same, _, _) = deactivate_plugin-runs cleanup m p c in
      let (c'', same', runs_then) = deactivate_all_others l (deactivate_plugin cleanup m p).1 c' in
      (
        c'',
        same' ∙ same,
        (λ q h.
            let (other, rest) = or-false (p == q) (elem q l) h in
            runs_then q rest ∙ runs_now q ∙ rw other refl),
      )

  deactivate_all-append :
      (l ps : List String) (m : PluginManager)
      → deactivate_all cleanup (l ++ ps) m ≡ deactivate_all cleanup ps (deactivate_all cleanup l m)
  unfolding deactivate_all
  deactivate_all-append [] ps m = refl
  deactivate_all-append (p ∷ l) ps m = deactivate_all-append l ps (deactivate_plugin cleanup m p).1

  -- Where the registry is consistent and no active plugin has a dependent at its place or after it in the
  -- list of active plugins, the shutdown leaves no plugin active, whatever the cleanups come to.
  pub shutdown_manager-stops :
      (m : PluginManager)
      → IsConsistent m.registry
      → dependents_first m.registry.dependents (list_active m.registry.metadata) ≡ true
      → ((q : String) → runs (shutdown_manager cleanup m).1.registry q ≡ false)
        × ((shutdown_manager cleanup m).1.is_initialized ≡ false)
  unfolding shutdown_manager
  shutdown_manager-stops m c h = (
    deactivate_all-runs (list_active m.registry.metadata) m c h (listed m.registry.metadata),
    refl,
  )

  -- Where the registry is consistent and an active plugin stands once in the list of active plugins, before
  -- an active dependent of it, the shutdown leaves the plugin active and answers true.
  pub shutdown_manager-leaves :
      (m : PluginManager) (p q : String) (before rest : List String)
      → IsConsistent m.registry
      → list_active m.registry.metadata ≡ before ++ (p ∷ rest)
      → elem p before ≡ false
      → elem q before ≡ false
      → elem p rest ≡ false
      → runs m.registry p ≡ true
      → runs m.registry q ≡ true
      → elem q (get_dependents m.registry p) ≡ true
      → ((shutdown_manager cleanup m).0 ≡ true)
        × (runs (shutdown_manager cleanup m).1.registry p ≡ true)
  unfolding shutdown_manager get_dependents
  shutdown_manager-leaves m p q before rest c listing no_p no_q once on_p on_q dependent =
      let (c', same, others) = deactivate_all_others before m c in
      let m' = deactivate_all cleanup before m in
      let held =
        held_among m'.registry q (get_dependents m'.registry p)
          (ap (λ d. elem q (Dict.get_or d p [])) same ∙ dependent) (others q no_q ∙ on_q) in
      let (runs_now, c'', _, _, _) = deactivate_plugin-runs cleanup m' p c' in
      let still = runs_now p ∙ rw (equals_refl p, others p no_p ∙ on_p) held in
      let (_, _, after) = deactivate_all_others rest (deactivate_plugin cleanup m' p).1 c'' in
      (refl, rw (listing, deactivate_all-append before (p ∷ rest) m) (after p once ∙ still))
