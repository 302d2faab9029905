-- ===== src/Plugins/WalkEnds.antt =====
-- The end of the walk over the dependencies in _topological_sort of app/core/plugins/registry.py.
use korea_public_data_be.Base.{
  ℕ, zero, suc, ◌+◌, ◌≤◌, true, ◌⊎◌, inl, inr, String, List, [], ◌∷◌, string_eq, elem, length, ◌≡◌,
  refl, sym, ap, ◌∙◌, subst, arith, Bool-cases, Sum-cases, length-append,
}
use korea_public_data_be.Dict
use korea_public_data_be.Dict.{Dict}
use korea_public_data_be.Plugins.Defs.{PluginRegistry, add_to, get_dependencies}
use korea_public_data_be.Plugins.Sort.{SortError, Walk, links, visit, walk}
use korea_public_data_be.Plugins.Steps.{
  names_of, links-Linked, Stopped, links-Stopped, length-names_of_le,
}
use korea_public_data_be.Plugins.Remaining.{List-cases}
use korea_public_data_be.Plugins.Walk.{
  IsWalk, again-IsWalk, unknown-IsWalk, visited-IsWalk, weight, weight_more, weight_visited,
}

module _ (r : PluginRegistry) (targets : List String) where
  -- The error is that of a registered plugin whose required dependency is not registered.
  abbrev pub Missing : SortError → Type 0
  Missing e = (p : String) × (Dict.has r.plugins p ≡ true) × Stopped r p (get_dependencies r p) e

  abbrev pub effort : Walk → ℕ
  effort w = length w.queue + weight r.dependencies w.visited

  abbrev Visits : Walk → SortError ⊎ Walk → Type 0
  Visits w o =
      ((w' : Walk) × (o ≡ inr w') × IsWalk r targets w' × (suc (effort w') ≤ effort w))
      ⊎ ((e : SortError) × (o ≡ inl e) × Missing e)

  visit-Visits :
      (w : Walk) (p : String) (q : List String)
      → w.queue ≡ p ∷ q
      → IsWalk r targets w
      → Visits w (visit r p (record w { queue = q }))
  unfolding visit get_dependencies
  visit-Visits w p q e v =
      let size = ap length e in
      elim (Bool-cases (elem p w.visited)) [
        | inl h ↦ rw h (
            inl (
              record w { queue = q },
              refl,
              again-IsWalk r targets w p q e h v,
              omega (arith, size),
            ))
        | inr fresh ↦ elim (Bool-cases (Dict.has r.plugins p)) [
          | inr n ↦
              let w' = record w { queue = q; visited = p ∷ w.visited } in
              rw fresh (
                rw n (
                  inl (
                    w',
                    refl,
                    unknown-IsWalk r targets w p q e n v,
                    omega (arith, size, weight_more r.dependencies p w.visited),
                  )))
          | inl here ↦
              let w1 = record w {
                queue = q;
                visited = p ∷ w.visited;
                all_plugins = add_to p w.all_plugins;
              } in
              rw fresh (
                rw here (elim (Sum-cases (links r p (get_dependencies r p) w1)) [
                  | inl (err, h) ↦
                      inr (err, h, (p, here, links-Stopped r p (get_dependencies r p) w1 err h))
                  | inr (w', h) ↦
                      let l = links-Linked r p (get_dependencies r p) w1 w' h in
                      inl (
                        w',
                        h,
                        visited-IsWalk r targets w w' p q e fresh here l v,
                        omega (
                          arith,
                          size,
                          ap length l.queue,
                          length-append q (names_of r (get_dependencies r p)),
                          length-names_of_le r (get_dependencies r p),
                          ap (weight r.dependencies) l.visited,
                          weight_visited r.dependencies p w.visited fresh,
                        ),
                      )
                ]))
        ]
      ]

  abbrev pub Walks : SortError ⊎ Walk → Type 0
  Walks o =
      ((w : Walk) × (o ≡ inr w) × IsWalk r targets w × (w.queue ≡ []))
      ⊎ ((e : SortError) × (o ≡ inl e) × Missing e)

  abbrev after : ℕ → SortError ⊎ Walk → SortError ⊎ Walk
  unfolding walk
  after fuel o = elim o [ inl e ↦ inl e | inr w ↦ walk r fuel w ]

  walk_step :
      (fuel : ℕ) (w : Walk) (p : String) (q : List String)
      → w.queue ≡ p ∷ q
      → walk r (suc fuel) w ≡ after fuel (visit r p (record w { queue = q }))
  unfolding walk after
  walk_step fuel w p q e =
      subst
        (λ l.
          (elim l [ [] ↦ inr w | p' ∷ q' ↦ after fuel (visit r p' (record w { queue = q' })) ])
          ≡ after fuel (visit r p (record w { queue = q })))
        (sym e) refl

  -- With fuel for what is in the queue and for the dependencies not visited yet, the walk ends.
  pub walk-Walks :
      (fuel : ℕ) (w : Walk) → IsWalk r targets w → effort w ≤ fuel → Walks (walk r fuel w)
  unfolding walk after
  walk-Walks zero w v h = elim (List-cases w.queue) [
    | inl e ↦ inl (w, rw e, v, e)
    | inr (p, q, e) ↦ absurd (omega (arith, h, ap length e))
  ]
  walk-Walks (suc fuel) w v h = elim (List-cases w.queue) [
    | inl e ↦ inl (w, rw e, v, e)
    | inr (p, q, e) ↦
        let step = walk_step fuel w p q e in
        elim (visit-Visits w p q e v) [
          | inr (err, o, m) ↦ inr (err, step ∙ ap (after fuel) o, m)
          | inl (w', o, v', less) ↦
              subst Walks (sym (step ∙ ap (after fuel) o))
                (walk-Walks fuel w' v' (omega (arith, h, less)))
        ]
  ]
