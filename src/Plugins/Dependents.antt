-- ===== src/Plugins/Dependents.antt =====
-- The map of dependents in app/core/plugins/registry.py, after a plugin is added or discarded.
use korea_public_data_be.Base.{
  not, ◌||◌, ◌&&◌, inl, inr, String, List, [], ◌∷◌, ◌==◌, string_eq, elem, ◌≡◌, refl, ap, ◌∙◌,
  arith, Bool-cases, equals-eq,
}
use korea_public_data_be.Dict
use korea_public_data_be.Dict.{Dict, get_or-put}
use korea_public_data_be.Plugins.Defs.{
  PluginDependency, add_to, discard, add_dependents, discard_dependents,
}
use korea_public_data_be.Plugins.Steps.{elem-add_to}

abbrev pub dep_names : List PluginDependency → List String
dep_names [] = []
dep_names (d ∷ ds) = d.name ∷ dep_names ds

elem-discard :
    (x q : String) (xs : List String) → elem q (discard x xs) ≡ (elem q xs && not (x == q))
elem-discard x q [] = refl
elem-discard x q (y ∷ xs) = ground (
  arith,
  elem-discard x q xs,
  string_eq.equals_iff y x,
  string_eq.equals_iff y q,
  string_eq.equals_iff x q,
)

pub elem-add_dependents :
    (p : String) (deps : List PluginDependency) (m : Dict String (List String)) (q d : String)
    → elem q (Dict.get_or (add_dependents p deps m) d [])
      ≡ (elem q (Dict.get_or m d []) || ((p == q) && elem d (dep_names deps)))
unfolding add_dependents
elem-add_dependents p [] m q d = ground arith
elem-add_dependents p (dep ∷ deps) m q d =
    let old = Dict.get_or m dep.name [] in
    let read = get_or-put m dep.name d (add_to p old) [] in
    elem-add_dependents p deps (Dict.put m dep.name (add_to p old)) q d
    ∙ elim (Bool-cases (dep.name == d)) [
      | inl e ↦ rw (rw e at read) (
          rw e (
            rw (ap (λ a. Dict.get_or m a []) (equals-eq e))
              (ground (arith, elem-add_to p q (Dict.get_or m d [])))))
      | inr e ↦ rw (rw e at read) (rw e)
    ]

pub elem-discard_dependents :
    (p : String) (deps : List PluginDependency) (m : Dict String (List String)) (q d : String)
    → elem q (Dict.get_or (discard_dependents p deps m) d [])
      ≡ (elem q (Dict.get_or m d []) && not ((p == q) && elem d (dep_names deps)))
unfolding discard_dependents
elem-discard_dependents p [] m q d = ground arith
elem-discard_dependents p (dep ∷ deps) m q d =
    let old = Dict.get_or m dep.name [] in
    let read = get_or-put m dep.name d (discard p old) [] in
    elem-discard_dependents p deps (Dict.put m dep.name (discard p old)) q d
    ∙ elim (Bool-cases (dep.name == d)) [
      | inl e ↦ rw (rw e at read) (
          rw e (
            rw (ap (λ a. Dict.get_or m a []) (equals-eq e))
              (ground (arith, elem-discard p q (Dict.get_or m d [])))))
      | inr e ↦ rw (rw e at read) (rw e)
    ]
