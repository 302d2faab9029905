-- ===== src/Plugins/Kahn.antt =====
-- Kahn's algorithm in _topological_sort of app/core/plugins/registry.py: what it gives is in the order
-- of the dependencies, and it ends.
use mathlib.Core.List.{append_assoc, append-nil}
use korea_public_data_be.Base.{
  ℕ, zero, suc, ◌+◌, ◌-◌, ◌≤◌, true, false, inl, inr, String, List, [], ◌∷◌, ◌++◌, eqb, string_eq,
  if◌then◌else◌, elem, length, ◌≡◌, refl, sym, ap, subst, arith, Bool-cases, All, count,
  count-append, elem-count, absent-count, Contained, length-Contained, equals_refl, length-append,
}
use korea_public_data_be.Dict
use korea_public_data_be.Dict.{Dict, get_or-put}
use korea_public_data_be.Plugins.Sort.{Kahn, release_one, release, kahn}
use korea_public_data_be.Plugins.Remaining.{
  List-cases, remaining, remaining-append_one, All-remaining, left_over,
}

module _ (ns : String → List String) where
  -- Each plugin of the list comes after all of its dependencies, those that are done before the
  -- list included.
  abbrev pub Ordered : List String → List String → Type 0
  Ordered done [] = Unit
  Ordered done (p ∷ ps) = All (λ d. elem d done ≡ true) (ns p) × Ordered (done ++ (p ∷ [])) ps

  Ordered-append_one :
      (done ps : List String) (p : String)
      → Ordered done ps
      → All (λ d. elem d (done ++ ps) ≡ true) (ns p)
      → Ordered done (ps ++ (p ∷ []))
  Ordered-append_one done [] p o h =
      (subst (λ l. All (λ d. elem d l ≡ true) (ns p)) (append-nil done) h, tt)
  Ordered-append_one done (q ∷ ps) p o h = (
    o.0,
    Ordered-append_one (done ++ (q ∷ [])) ps p o.1
        (subst (λ l. All (λ d. elem d l ≡ true) (ns p)) (sym (append_assoc done (q ∷ []) ps)) h),
  )

  module _ (all_plugins : List String) (graph : Dict String (List String))
      (of_graph : (p d : String)
        → count p (Dict.get_or graph d [])
          ≡ (if elem p all_plugins then count d (ns p) else 0)) where
    abbrev pub degree : Kahn → String → ℕ
    degree k p = Dict.get_or k.in_degree p 0

    abbrev pub met : Kahn → String → ℕ
    met k p = count p k.result + count p k.queue

    -- The invariant, while the dependents in the list are still to be counted down.
    pub record IsKahn (k : Kahn) (pending : List String) : Type 0 where
      pub degrees :
          (p : String)
          → elem p all_plugins ≡ true
          → degree k p ≡ remaining (ns p) k.result + count p pending
      pub free : (p : String) → 1 ≤ met k p → degree k p ≡ 0
      pub once : (p : String) → met k p ≤ 1
      pub within : (p : String) → 1 ≤ met k p → elem p all_plugins ≡ true
      pub complete : (p : String) → elem p all_plugins ≡ true → degree k p ≡ 0 → 1 ≤ met k p
      pub waiting : (p : String) → 1 ≤ count p pending → elem p all_plugins ≡ true
      pub ordered : Ordered [] k.result

    met-release_one :
        (k : Kahn) (p q : String)
        → met (release_one p k) q ≡ met k q + (if eqb (degree k p) 1 then count q (p ∷ []) else 0)
    met-release_one k p q = elim (Bool-cases (eqb (degree k p) 1)) [
      | inl e ↦ rw e (omega (arith, count-append q k.queue (p ∷ [])))
      | inr e ↦ rw e (omega arith)
    ]

    pub release_one-IsKahn :
        (k : Kahn) (p : String) (ps : List String) → IsKahn k (p ∷ ps) → IsKahn (release_one p k) ps
    release_one-IsKahn k p ps v =
        let n = degree k p in
        let there = v.waiting p (rw (equals_refl p) (omega arith)) in
        let high : n ≡ remaining (ns p) k.result + suc (count p ps) =
          rw (equals_refl p) at (v.degrees p there) in
        let unmet : met k p ≡ 0 = ground (arith, v.free p, high) in
        let lower = λ (q : String). get_or-put k.in_degree p q (n - 1) 0 in
        record {
          degrees = λ q h. ground (arith, lower q, v.degrees q h, string_eq.equals_iff p q, high);
          free = λ q h.
              ground (
                arith,
                lower q,
                v.free q,
                string_eq.equals_iff p q,
                high,
                h,
                met-release_one k p q,
              );
          once =
              λ q. ground (arith, v.once q, string_eq.equals_iff p q, unmet, met-release_one k p q);
          within = λ q h.
              ground (arith, v.within q, string_eq.equals_iff p q, there, h, met-release_one k p q);
          complete = λ q h z. ground (
            arith,
            lower q,
            v.complete q h,
            z,
            string_eq.equals_iff p q,
            high,
            met-release_one k p q,
          );
          waiting = λ q h. v.waiting q (ground (arith, h));
          ordered = v.ordered;
        }

    release-IsKahn : (ps : List String) (k : Kahn) → IsKahn k ps → IsKahn (release ps k) []
    unfolding release
    release-IsKahn [] k v = v
    release-IsKahn (p ∷ ps) k v = release-IsKahn ps (release_one p k) (release_one-IsKahn k p ps v)

    -- The first of the queue goes to the result, and its dependents are pending.
    pop-IsKahn :
        (k : Kahn) (p : String) (q : List String)
        → k.queue ≡ p ∷ q
        → IsKahn k []
        → IsKahn (record k { queue = q; result = k.result ++ (p ∷ []) }) (Dict.get_or graph p [])
    pop-IsKahn k p q e v =
        let kept : (a : String)
            → met (record k { queue = q; result = k.result ++ (p ∷ []) }) a ≡ met k a =
          λ a.
            omega (
              arith,
              count-append a k.result (p ∷ []),
              ap (count a) e,
              count-append a (p ∷ []) q,
            ) in
        let first : 1 ≤ count p k.queue =
          subst (λ l. 1 ≤ count p l) (sym e) (rw (equals_refl p) (omega arith)) in
        let fresh : elem p k.result ≡ false =
          ground (arith, v.once p, elem-count p k.result, first) in
        let zero_left = v.free p (omega (arith, first)) in
        let there = v.within p (omega (arith, first)) in
        record {
          degrees = λ a h.
              ground (
                arith,
                v.degrees a h,
                remaining-append_one (ns a) k.result p fresh,
                of_graph a p,
                h,
              );
          free = λ a h. v.free a (omega (arith, h, kept a));
          once = λ a. omega (arith, v.once a, kept a);
          within = λ a h. v.within a (omega (arith, h, kept a));
          complete = λ a h z. omega (arith, v.complete a h z, kept a);
          waiting = λ a h. ground (arith, h, of_graph a p);
          ordered =
              Ordered-append_one [] k.result p v.ordered
                (All-remaining (ns p) k.result (omega (arith, zero_left, v.degrees p there)));
        }

    release-result : (ps : List String) (k : Kahn) → (release ps k).result ≡ k.result
    unfolding release
    release-result [] k = refl
    release-result (p ∷ ps) k = release-result ps (release_one p k)

    -- The result and the queue are plugins, none of them twice.
    met-Contained : (k : Kahn) → IsKahn k [] → Contained (k.result ++ k.queue) all_plugins
    met-Contained k v a =
        ground
          (arith, count-append a k.result k.queue, v.once a, v.within a, elem-count a all_plugins)

    -- A plugin that is left over has a dependency that is left over.
    abbrev pub Blocked : List String → Type 0
    Blocked result =
        (p : String)
        → elem p all_plugins ≡ true
        → elem p result ≡ false
        → (d : String) × (elem d (ns p) ≡ true) × (elem d result ≡ false)

    k-Blocked : (k : Kahn) → IsKahn k [] → k.queue ≡ [] → Blocked k.result
    k-Blocked k v e p there out = left_over (ns p) k.result (
        ground (
          arith,
          v.degrees p there,
          v.complete p there,
          ap (count p) e,
          absent-count p k.result out,
        ))

    abbrev pub Ends : ℕ → Kahn → Type 0
    Ends fuel k =
        (result : List String) × (kahn graph fuel k ≡ inr result)
        × Ordered [] result
        × Contained result all_plugins
        × Blocked result

    result-Contained : (k : Kahn) → IsKahn k [] → Contained k.result all_plugins
    result-Contained k v a = omega (arith, count-append a k.result k.queue, met-Contained k v a)

    -- With a unit of fuel for every plugin that is not in the result yet, the loop ends; what it gives
    -- stands in the order of the dependencies, without a repetition, and consists of plugins.
    pub kahn-Ordered :
        (fuel : ℕ) (k : Kahn)
        → IsKahn k []
        → length all_plugins ≤ length k.result + fuel
        → Ends fuel k
    unfolding kahn
    kahn-Ordered zero k v h =
        let full = length-Contained (k.result ++ k.queue) all_plugins (met-Contained k v) in
        let size = length-append k.result k.queue in
        elim (List-cases k.queue) [
          | inl e ↦ (k.result, rw e, v.ordered, result-Contained k v, k-Blocked k v e)
          | inr (p, q, e) ↦ absurd (omega (arith, full, size, h, ap length e))
        ]
    kahn-Ordered (suc fuel) k v h = elim (List-cases k.queue) [
      | inl e ↦ (k.result, rw e, v.ordered, result-Contained k v, k-Blocked k v e)
      | inr (p, q, e) ↦
          let popped = record k { queue = q; result = k.result ++ (p ∷ []) } in
          let after = release (Dict.get_or graph p []) popped in
          let size = length-append k.result (p ∷ []) in
          let same = ap length (release-result (Dict.get_or graph p []) popped) in
          let (result, ends, order, inside, left) =
            kahn-Ordered fuel after
              (release-IsKahn (Dict.get_or graph p []) popped (pop-IsKahn k p q e v))
              (omega (arith, h, size, same)) in
          (result, rw e ends, order, inside, left)
    ]
