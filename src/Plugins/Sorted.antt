-- ===== src/Plugins/Sorted.antt =====
-- _topological_sort of app/core/plugins/registry.py as a whole.
use korea_public_data_be.Base.{
  ◌+◌, ◌≤◌, Bool, true, false, not, ◌&&◌, ◌⊎◌, inl, inr, String, List, [], eqb, string_eq,
  if◌then◌else◌, elem, keep, length, true≢false, ◌≡◌, ◌≢◌, sym, ap, ◌∙◌, subst, arith, Bool-cases,
  count, elem-count, elem_of_count, Contained, Contained-all, length-Contained, count-keep, eqb_iff,
}
use korea_public_data_be.Dict
use korea_public_data_be.Dict.{Dict}
use korea_public_data_be.Plugins.Defs.{PluginRegistry, get_dependencies}
use korea_public_data_be.Plugins.Sort.{
  SortError, circular_dependency, Walk, edges, start_walk, start_kahn, checked, topological_sort,
}
use korea_public_data_be.Plugins.Steps.{Satisfied}
use korea_public_data_be.Plugins.Kahn.{Ordered, IsKahn, kahn-Ordered}
use korea_public_data_be.Plugins.Remaining.{remaining_nil}
use korea_public_data_be.Plugins.WalkEnds.{Missing, walk-Walks}
use korea_public_data_be.Plugins.Walk.{
  names, done, Reached, IsWalk, start_walk-IsWalk, weight_start,
}

and-both : {a b : Bool} → (a && not b) ≡ true → (a ≡ true) × (b ≡ false)
and-both {a} {b} h = ground (arith, h)

module _ (r : PluginRegistry) (targets : List String) where
  -- A walk that is over has the graph of all the plugins that it has come to.
  all-done :
      (w : Walk)
      → IsWalk r targets w
      → w.queue ≡ []
      → (p : String) → done r targets w p ≡ elem p w.all_plugins
  all-done w v e p = ground (arith, v.member p, v.known p, ap (elem p) e)

  abbrev pub ns : String → List String
  ns = names r targets

  -- Each plugin comes after its registered dependencies and only once, the registered targets are
  -- there, and whatever is there is registered, has its required dependencies registered, and is come
  -- to from the targets by dependencies.
  abbrev pub IsSorted : List String → Type 0
  IsSorted result =
      Ordered ns [] result
      × ((p : String) → count p result ≤ 1)
      × ((p : String) → elem p targets ≡ true → Dict.has r.plugins p ≡ true → elem p result ≡ true)
      × ((p : String)
          → elem p result ≡ true
          → (Dict.has r.plugins p ≡ true)
            × Satisfied r (get_dependencies r p)
            × Reached r targets p)

  -- There are plugins left over, each with a dependency among them.
  abbrev pub IsCircular : List String → Type 0
  IsCircular rest =
      (rest ≢ [])
      × ((p : String)
          → elem p rest ≡ true
          → (d : String) × (elem d (ns p) ≡ true) × (elem d rest ≡ true))

  abbrev pub Outcome : SortError ⊎ List String → Type 0
  Outcome o =
      ((result : List String) × (o ≡ inr result) × IsSorted result)
      ⊎ ((e : SortError) × (o ≡ inl e) × Missing r targets e)
      ⊎ ((rest : List String) × (o ≡ inl (circular_dependency rest)) × IsCircular rest)

  module _ (order : List String → List String)
      (same : (x : String) (xs : List String) → count x (order xs) ≡ count x xs) where
    of_graph :
        (w : Walk)
        → IsWalk r targets w
        → w.queue ≡ []
        → (p d : String)
        → count p (Dict.get_or w.graph d []) ≡ (if elem p w.all_plugins then count d (ns p) else 0)
    of_graph w v e p d = rw (sym (all-done w v e p)) (v.edges_of p d)

    start_kahn-IsKahn :
        (w : Walk) (v : IsWalk r targets w) (e : w.queue ≡ [])
        → IsKahn ns w.all_plugins w.graph (of_graph w v e) (start_kahn order w) []
    start_kahn-IsKahn w v e =
        let ready = λ (p : String). eqb (Dict.get_or w.in_degree p 0) 0 in
        let queued : (p : String)
            → count p (keep ready (order w.all_plugins))
              ≡ (if ready p then count p w.all_plugins else 0) =
          λ p. count-keep p ready (order w.all_plugins) ∙ rw (same p w.all_plugins) in
        record {
          degrees = λ p h. ground (arith, v.degrees p, all-done w v e p, h, remaining_nil (ns p));
          free = λ p h. ground (arith, queued p, h);
          once = λ p. ground (arith, queued p, v.distinct p);
          within = λ p h. ground (arith, queued p, h, elem_of_count p w.all_plugins);
          complete = λ p h z. ground (arith, queued p, elem-count p w.all_plugins h, z);
          waiting = λ p h. absurd (omega (arith, h));
          ordered = tt;
        }

    abbrev left : Walk → List String → List String
    left w result = keep (λ p. not (elem p result)) w.all_plugins

    elem-left :
        (w : Walk) (result : List String) (p : String)
        → elem p (left w result) ≡ (elem p w.all_plugins && not (elem p result))
    elem-left w result p =
        let test = λ (x : String). not (elem x result) in
        ground (
          arith,
          count-keep p test w.all_plugins,
          elem_of_count p (left w result),
          elem-count p (left w result),
          elem_of_count p w.all_plugins,
          elem-count p w.all_plugins,
        )

    sorted :
        (w : Walk)
        → IsWalk r targets w
        → w.queue ≡ []
        → (result : List String) → Ordered ns [] result
        → Contained result w.all_plugins
        → length w.all_plugins ≤ length result
        → IsSorted result
    sorted w v e result o inside full =
        let whole = Contained-all result w.all_plugins inside full in
        (
          o,
          (λ p. omega (arith, inside p, v.distinct p)),
          (λ p t h.
              let seen : elem p w.visited ≡ true = ground (arith, v.targeted p t, ap (elem p) e) in
              let there : elem p w.all_plugins ≡ true = sym (all-done w v e p) ∙ rw seen (rw h) in
              elem_of_count p result (omega (arith, elem-count p w.all_plugins there, whole p))),
          λ p h.
              let there =
                elem_of_count p w.all_plugins (omega (arith, elem-count p result h, inside p)) in
              (
                (v.known p there).1,
                v.satisfied p (all-done w v e p ∙ there),
                v.reached p (v.known p there).0,
              ),
        )

    circular :
        (w : Walk)
        → IsWalk r targets w
        → w.queue ≡ []
        → (result : List String) → Contained result w.all_plugins
        → ((p : String)
            → elem p w.all_plugins ≡ true
            → elem p result ≡ false
            → (d : String) × (elem d (ns p) ≡ true) × (elem d result ≡ false))
        → eqb (length result) (length w.all_plugins) ≡ false
        → IsCircular (left w result)
    circular w v e result inside blocked short =
        let rest = left w result in
        (
          λ none_left.
              let all_out : Contained w.all_plugins result = λ p. ground (
                arith,
                v.distinct p,
                elem-left w result p,
                ap (elem p) none_left,
                elem-count p result,
                elem_of_count p w.all_plugins,
              ) in
              absurd (
                true≢false (
                  sym (
                    (eqb_iff (length result) (length w.all_plugins)).1 (
                      omega (
                        arith,
                        length-Contained w.all_plugins result all_out,
                        length-Contained result w.all_plugins inside,
                      )))
                  ∙ short)),
          λ p h.
              let (there, out) = and-both (sym (elem-left w result p) ∙ h) in
              let (d, dep, not_there) = blocked p there out in
              let known = v.closed p d (all-done w v e p ∙ there) dep in
              (d, dep, elem-left w result d ∙ rw known (rw not_there)),
        )

    checked-Outcome :
        (w : Walk)
        → IsWalk r targets w
        → w.queue ≡ []
        → (result : List String) → Ordered ns [] result
        → Contained result w.all_plugins
        → ((p : String)
            → elem p w.all_plugins ≡ true
            → elem p result ≡ false
            → (d : String) × (elem d (ns p) ≡ true) × (elem d result ≡ false))
        → Outcome (checked w.all_plugins (inr result))
    checked-Outcome w v e result o inside blocked =
        elim (Bool-cases (eqb (length result) (length w.all_plugins))) [
          | inl full ↦
              let size = (eqb_iff (length result) (length w.all_plugins)).0 full in
              inl (result, rw full, sorted w v e result o inside (omega (arith, size)))
          | inr short ↦
              inr (inr (left w result, rw short, circular w v e result inside blocked short))
        ]

    -- The topological sort ends in one of three ways, where going through a set gives each of its
    -- elements as often as it has it: with an order of exactly the registered targets and the registered
    -- plugins that they depend on, in which each plugin stands once, after its registered dependencies; with
    -- a registered plugin whose required dependency is not registered; or with plugins each of which depends
    -- on another of them.
    pub topological_sort_outcome : Outcome (topological_sort r order targets)
    unfolding topological_sort
    topological_sort_outcome =
        let fuel = length targets + edges r r.dependencies in
        elim (walk-Walks r targets fuel (start_walk targets) (start_walk-IsWalk r targets)
          (omega (arith, weight_start r r.dependencies))) [
            | inr (err, o, m) ↦ inr (inl (err, rw (o, topological_sort), m))
            | inl (w, o, v, e) ↦
                let (result, ends, ordered, inside, blocked) =
                  kahn-Ordered ns w.all_plugins w.graph (of_graph w v e) (length w.all_plugins)
                    (start_kahn order w) (start_kahn-IsKahn w v e) (omega arith) in
                subst Outcome (sym (rw (o, topological_sort) (ap (checked w.all_plugins) ends)))
                  (checked-Outcome w v e result ordered inside blocked)
          ]
