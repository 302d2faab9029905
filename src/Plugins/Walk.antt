-- ===== src/Plugins/Walk.antt =====
-- The walk over the dependencies in _topological_sort of app/core/plugins/registry.py: it ends, and the
-- graph that it leaves is that of the dependencies.
use korea_public_data_be.Base.{
  ℕ, ◌+◌, ◌≤◌, Bool, true, false, ◌||◌, ◌&&◌, inl, inr, String, List, [], ◌∷◌, ◌==◌, string_eq,
  if◌then◌else◌, elem, length, ◌≡◌, refl, sym, ap, ◌∙◌, subst, arith, Bool-cases, count,
  elem-append, equals_refl, equals-eq,
}
use korea_public_data_be.Dict
use korea_public_data_be.Dict.{Dict}
use korea_public_data_be.Plugins.Defs.{PluginDependency, PluginRegistry, add_to, get_dependencies}
use korea_public_data_be.Plugins.Sort.{Walk, edges, start_walk}
use korea_public_data_be.Plugins.Steps.{
  names_of, Satisfied, Linked, names_of-has, elem-add_to, count-add_to,
}

-- The dependencies of the plugins that have not been visited
abbrev pub weight : Dict String (List PluginDependency) → List String → ℕ
weight [] visited = 0
weight ((k, ds) ∷ d) visited =
    let rest = weight d visited in if elem k visited then rest else length ds + rest

pub weight_start :
    (r : PluginRegistry) (d : Dict String (List PluginDependency)) → weight d [] ≡ edges r d
unfolding edges
weight_start r [] = refl
weight_start r ((k, ds) ∷ d) = omega (arith, weight_start r d)

pub weight_more :
    (d : Dict String (List PluginDependency)) (p : String) (visited : List String)
    → weight d (p ∷ visited) ≤ weight d visited
weight_more [] p visited = omega arith
weight_more ((k, ds) ∷ d) p visited = ground (arith, weight_more d p visited)

pub weight_visited :
    (d : Dict String (List PluginDependency)) (p : String) (visited : List String)
    → elem p visited ≡ false
    → weight d (p ∷ visited) + length (Dict.get_or d p []) ≤ weight d visited
unfolding Dict.get_or Dict.get
weight_visited [] p visited h = omega arith
weight_visited ((k, ds) ∷ d) p visited h = elim (Bool-cases (k == p)) [
  | inl e ↦
      let unseen : elem k visited ≡ false =
        subst {A = String} (λ a. elem a visited ≡ false) (sym (equals-eq e)) h in
      let seen : (p == k) ≡ true =
        subst {A = String} (λ a. (p == a) ≡ true) (sym (equals-eq e)) (equals_refl p) in
      rw (e, Dict.get_or, Dict.get) (rw unseen (rw seen (omega (arith, weight_more d p visited))))
  | inr e ↦
      let other : (p == k) ≡ false =
        ground (arith, string_eq.equals_iff k p, string_eq.equals_iff p k, e) in
      rw (e, Dict.get_or, Dict.get) (rw other (ground (arith, weight_visited d p visited h)))
]

module _ (r : PluginRegistry) (targets : List String) where
  abbrev pub names : String → List String
  names p = names_of r (get_dependencies r p)

  -- A registered plugin that has been visited
  abbrev pub done : Walk → String → Bool
  done w p = elem p w.visited && Dict.has r.plugins p

  -- A name has what the targets have and what passes from a plugin on to its dependencies.
  abbrev pub Reached : String → Type 0
  Reached p =
      (Q : String → Bool)
      → ((q : String) → elem q targets ≡ true → Q q ≡ true)
      → ((q d : String) → Q q ≡ true → elem d (names q) ≡ true → Q d ≡ true)
      → Q p ≡ true

  pub record IsWalk (w : Walk) : Type 0 where
    pub edges_of :
        (q d : String)
        → count q (Dict.get_or w.graph d []) ≡ (if done w q then count d (names q) else 0)
    pub degrees :
        (q : String) → Dict.get_or w.in_degree q 0 ≡ (if done w q then length (names q) else 0)
    pub known :
        (q : String)
        → elem q w.all_plugins ≡ true
        → ((elem q w.visited || elem q w.queue) ≡ true) × (Dict.has r.plugins q ≡ true)
    pub member : (q : String) → done w q ≡ true → elem q w.all_plugins ≡ true
    pub closed :
        (q d : String) → done w q ≡ true → elem d (names q) ≡ true → elem d w.all_plugins ≡ true
    pub targeted :
        (q : String) → elem q targets ≡ true → (elem q w.visited || elem q w.queue) ≡ true
    pub distinct : (q : String) → count q w.all_plugins ≤ 1
    pub satisfied : (q : String) → done w q ≡ true → Satisfied r (get_dependencies r q)
    pub reached : (q : String) → (elem q w.visited || elem q w.queue) ≡ true → Reached q

  pub start_walk-IsWalk : IsWalk (start_walk targets)
  unfolding Dict.get_or Dict.get
  start_walk-IsWalk = record {
    edges_of = λ q d. refl;
    degrees = λ q. refl;
    known = λ q h. cc;
    member = λ q h. cc;
    closed = λ q d h. cc;
    targeted = λ q h. h;
    distinct = λ q. omega arith;
    satisfied = λ q h. cc;
    reached = λ q h Q start next. start q h;
  }

  -- A plugin that has been visited before is passed over.
  pub again-IsWalk :
      (w : Walk) (p : String) (q : List String)
      → w.queue ≡ p ∷ q
      → elem p w.visited ≡ true
      → IsWalk w
      → IsWalk (record w { queue = q })
  again-IsWalk w p q e h v = record {
    edges_of = v.edges_of;
    degrees = v.degrees;
    known = λ x m. (
      ground (arith, (v.known x m).0, ap (elem x) e, string_eq.equals_iff p x, h),
      (v.known x m).1,
    );
    member = v.member;
    closed = v.closed;
    targeted = λ x m. ground (arith, v.targeted x m, ap (elem x) e, string_eq.equals_iff p x, h);
    distinct = v.distinct;
    satisfied = v.satisfied;
    reached = λ x m. v.reached x (ground (arith, m, ap (elem x) e));
  }

  -- A name that is not registered is only marked.
  pub unknown-IsWalk :
      (w : Walk) (p : String) (q : List String)
      → w.queue ≡ p ∷ q
      → Dict.has r.plugins p ≡ false
      → IsWalk w
      → IsWalk (record w { queue = q; visited = p ∷ w.visited })
  unknown-IsWalk w p q e h v =
      let w' = record w { queue = q; visited = p ∷ w.visited } in
      let same : (x : String) → done w' x ≡ done w x =
        λ x. ground (arith, string_eq.equals_iff p x, h) in
      record {
        edges_of = λ x d. rw (same x) (v.edges_of x d);
        degrees = λ x. rw (same x) (v.degrees x);
        known = λ x m. (
          ground (arith, (v.known x m).0, ap (elem x) e, string_eq.equals_iff p x),
          (v.known x m).1,
        );
        member = λ x m. v.member x (sym (same x) ∙ m);
        closed = λ x d m. v.closed x d (sym (same x) ∙ m);
        targeted = λ x m. ground (arith, v.targeted x m, ap (elem x) e, string_eq.equals_iff p x);
        distinct = v.distinct;
        satisfied = λ x m. v.satisfied x (sym (same x) ∙ m);
        reached = λ x m. v.reached x (ground (arith, m, ap (elem x) e, string_eq.equals_iff p x));
      }

  -- A registered plugin is marked, and its dependencies are linked.
  pub visited-IsWalk :
      (w w' : Walk) (p : String) (q : List String)
      → w.queue ≡ p ∷ q
      → elem p w.visited ≡ false
      → Dict.has r.plugins p ≡ true
      → Linked r p
          (get_dependencies r p)
          (record w { queue = q; visited = p ∷ w.visited; all_plugins = add_to p w.all_plugins })
          w'
      → IsWalk w
      → IsWalk w'
  visited-IsWalk w w' p q e fresh here l v =
      let before : done w p ≡ false = rw fresh in
      let now : (x : String) → done w' x ≡ ((p == x) || done w x) = λ x.
        ap (λ s. elem x s && Dict.has r.plugins x) l.visited
        ∙ ground (arith, string_eq.equals_iff p x, here) in
      let around : (x : String)
          → (elem x w'.visited || elem x w'.queue)
            ≡ (((p == x) || elem x w.visited) || (elem x q || elem x (names p))) =
        λ x.
          ap (λ s. elem x s || elem x w'.queue) l.visited
          ∙ ap (λ b. ((p == x) || elem x w.visited) || b)
              (ap (elem x) l.queue ∙ elem-append x q (names p)) in
      record {
        edges_of = λ x d.
            rw (now x)
              (ground (arith, l.edges x d, v.edges_of x d, string_eq.equals_iff p x, before));
        degrees = λ x.
            rw (now x) (ground (arith, l.degrees x, v.degrees x, string_eq.equals_iff p x, before));
        known = λ x m. (
          around x
              ∙ ground
                  (arith, m, l.members x, elem-add_to p x w.all_plugins, v.known x, ap (elem x) e),
          ground (
            arith,
            m,
            l.members x,
            elem-add_to p x w.all_plugins,
            v.known x,
            names_of-has r (get_dependencies r p) x,
            string_eq.equals_iff p x,
            here,
          ),
        );
        member = λ x m.
            ground
              (arith, l.members x, elem-add_to p x w.all_plugins, v.member x, (rw (now x) at m));
        closed = λ x d m n. ground (
          arith,
          l.members d,
          elem-add_to p d w.all_plugins,
          v.closed x d,
          (rw (now x) at m),
          n,
          string_eq.equals_iff p x,
        );
        targeted = λ x m. around x ∙ ground (arith, v.targeted x m, ap (elem x) e);
        distinct = l.distinct (λ x. count-add_to p x w.all_plugins (v.distinct x));
        satisfied = λ x m. elim (Bool-cases (p == x)) [
          | inl s ↦ subst (λ a. Satisfied r (get_dependencies r a)) (equals-eq s) l.satisfied
          | inr n ↦ v.satisfied x (rw n at (rw (now x) at m))
        ];
        reached = λ x m. elim (Bool-cases (elem x (names p))) [
          | inl n ↦ λ Q start next.
              next p x (v.reached p (ground (arith, ap (elem p) e, equals_refl p)) Q start next) n
          | inr n ↦
              v.reached x
                (ground (arith, sym (around x) ∙ m, n, ap (elem x) e, string_eq.equals_iff p x))
        ];
      }
