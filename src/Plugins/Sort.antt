-- ===== src/Plugins/Sort.antt =====
-- _topological_sort of PluginRegistry in app/core/plugins/registry.py: a walk over the dependencies,
-- then Kahn's algorithm. `order` is the order in which Python goes through a set.
use korea_public_data_be.Base.{
  ℕ, zero, suc, ◌+◌, ◌-◌, not, ◌⊎◌, inl, inr, String, List, [], ◌∷◌, ◌++◌, eqb, string_eq,
  if◌then◌else◌, elem, keep, length,
}
use korea_public_data_be.Dict
use korea_public_data_be.Dict.{Dict}
use korea_public_data_be.Plugins.Defs.{PluginDependency, PluginRegistry, add_to, get_dependencies}

-- `out_of_fuel` is the model's own: the loops never come to it.
pub data SortError : Type 0 where
  missing_dependency : String → String → SortError
  circular_dependency : List String → SortError
  out_of_fuel : SortError

pub record Walk : Type 0 where
  pub queue : List String
  pub visited : List String
  pub all_plugins : List String
  pub graph : Dict String (List String)
  pub in_degree : Dict String ℕ

-- What one registered dependency adds
abbrev pub linked : String → String → Walk → Walk
linked p d w = record w {
  queue = w.queue ++ (d ∷ []);
  all_plugins = add_to d w.all_plugins;
  graph = Dict.put w.graph d (Dict.get_or w.graph d [] ++ (p ∷ []));
  in_degree = Dict.put w.in_degree p (Dict.get_or w.in_degree p 0 + 1);
}

module _ (r : PluginRegistry) where
  -- The loop over the dependencies of a plugin
  unfoldable pub links : String → List PluginDependency → Walk → SortError ⊎ Walk
  links p [] w = inr w
  links p (dep ∷ deps) w =
      if Dict.has r.plugins dep.name
      then links p deps (linked p dep.name w)
      else if dep.optional
      then links p deps w
      else inl (missing_dependency dep.name p)

  -- A plugin that has been taken from the queue
  unfoldable pub visit : String → Walk → SortError ⊎ Walk
  unfolding links get_dependencies
  visit p w =
      if elem p w.visited
      then inr w
      else if Dict.has r.plugins p
      then links p (get_dependencies r p)
          (record w { visited = p ∷ w.visited; all_plugins = add_to p w.all_plugins })
      else inr (record w { visited = p ∷ w.visited })

  unfoldable pub walk : ℕ → Walk → SortError ⊎ Walk
  unfolding visit
  walk zero w = elim w.queue [ [] ↦ inr w | _ ↦ inl out_of_fuel ]
  walk (suc fuel) w = elim w.queue [
    | [] ↦ inr w
    | p ∷ q ↦ elim (visit p (record w { queue = q })) [ inl e ↦ inl e | inr w' ↦ walk fuel w' ]
  ]

  -- The dependencies that there are
  unfoldable pub edges : Dict String (List PluginDependency) → ℕ
  edges [] = 0
  edges ((p, deps) ∷ d) = length deps + edges d

abbrev pub start_walk : List String → Walk
start_walk targets = record {
  queue = targets;
  visited = [];
  all_plugins = [];
  graph = [];
  in_degree = [];
}

pub record Kahn : Type 0 where
  pub queue : List String
  pub result : List String
  pub in_degree : Dict String ℕ

-- The degree of one dependent is counted down. It is at least 1 before, so the subtraction is that
-- of Python's integers.
abbrev pub release_one : String → Kahn → Kahn
release_one p k =
    let n = Dict.get_or k.in_degree p 0 in
    record k {
      in_degree = Dict.put k.in_degree p (n - 1);
      queue = if eqb n 1 then k.queue ++ (p ∷ []) else k.queue;
    }

unfoldable pub release : List String → Kahn → Kahn
release [] k = k
release (p ∷ ps) k = release ps (release_one p k)

unfoldable pub kahn : Dict String (List String) → ℕ → Kahn → SortError ⊎ List String
unfolding release
kahn graph zero k = elim k.queue [ [] ↦ inr k.result | _ ↦ inl out_of_fuel ]
kahn graph (suc fuel) k = elim k.queue [
  | [] ↦ inr k.result
  | p ∷ q ↦
      kahn graph fuel
        (release (Dict.get_or graph p []) (record k { queue = q; result = k.result ++ (p ∷ []) }))
]

-- A plugin without an entry has the degree 0, which the source writes.
abbrev pub start_kahn : (List String → List String) → Walk → Kahn
start_kahn order w = record {
  queue = keep (λ p. eqb (Dict.get_or w.in_degree p 0) 0) (order w.all_plugins);
  result = [];
  in_degree = w.in_degree;
}

abbrev pub checked : List String → SortError ⊎ List String → SortError ⊎ List String
checked all_plugins (inl e) = inl e
checked all_plugins (inr result) =
    if eqb (length result) (length all_plugins)
    then inr result
    else inl (circular_dependency (keep (λ p. not (elem p result)) all_plugins))

unfoldable pub topological_sort :
    PluginRegistry → (List String → List String) → List String → SortError ⊎ List String
unfolding walk edges kahn
topological_sort r order targets =
    elim (walk r (length targets + edges r r.dependencies) (start_walk targets)) [
      | inl e ↦ inl e
      | inr w ↦ checked w.all_plugins (kahn w.graph (length w.all_plugins) (start_kahn order w))
    ]
