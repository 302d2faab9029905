-- ===== src/Plugins/Resolved.antt =====
-- The order that _topological_sort of app/core/plugins/registry.py gives for one plugin: the plugin comes last.
use mathlib.Core.List.{append_assoc, append-nil}
use korea_public_data_be.Base.{
  or_right, ◌≤◌, true, false, ◌||◌, inl, inr, String, List, [], ◌∷◌, ◌++◌, ◌==◌, string_eq, elem,
  ◌≡◌, refl, sym, ap, ◌∙◌, subst, arith, false≢true, Bool-cases, All, All-elem, count, count-append,
  elem-append, elem-count, equals_refl, equals-eq, first_place,
}
use korea_public_data_be.Dict
use korea_public_data_be.Plugins.Defs.{PluginRegistry}
use korea_public_data_be.Plugins.Kahn.{Ordered}
use korea_public_data_be.Plugins.Walk.{names, Reached}
use korea_public_data_be.Plugins.Sorted.{IsSorted}

module _ (ns : String → List String) where
  -- The two parts of an ordered list.
  Ordered-parts :
      (done xs ys : List String)
      → Ordered ns done (xs ++ ys)
      → Ordered ns done xs × Ordered ns (done ++ xs) ys
  Ordered-parts done [] ys o = (tt, subst (λ l. Ordered ns l ys) (sym (append-nil done)) o)
  Ordered-parts done (x ∷ xs) ys o =
      let (first, second) = Ordered-parts (done ++ (x ∷ [])) xs ys o.1 in
      ((o.0, first), subst (λ l. Ordered ns l ys) (append_assoc done (x ∷ []) xs) second)

  -- A dependency of a plugin in an ordered list is done before it or in the list.
  pub Ordered-closed :
      (done xs : List String)
      → Ordered ns done xs
      → (q d : String) → elem q xs ≡ true
      → elem d (ns q) ≡ true
      → elem d (done ++ xs) ≡ true
  Ordered-closed done [] o q d h e = absurd (false≢true h)
  Ordered-closed done (x ∷ xs) o q d h e = elim (Bool-cases (x == q)) [
    | inl same ↦
        let there =
          All-elem (λ y. elem y done ≡ true) d (ns q) e
            (subst (λ y. All (λ z. elem z done ≡ true) (ns y)) (equals-eq same) o.0) in
        ground (arith, elem-append d done (x ∷ xs), there)
    | inr other ↦
        subst (λ l. elem d l ≡ true) (append_assoc done (x ∷ []) xs)
          (Ordered-closed (done ++ (x ∷ [])) xs o.1 q d (rw other at h) e)
  ]

module _ (r : PluginRegistry) (p : String) where
  -- The plugins before the one that is resolved, in an order in which each has its dependencies before it
  pub record IsResolved (result before : List String) : Type 0 where
    pub parts : result ≡ before ++ (p ∷ [])
    pub new : elem p before ≡ false
    pub ordered : Ordered (names r (p ∷ [])) [] before
    pub within :
        (x : String) → elem x before ≡ true → (Dict.has r.plugins x ≡ true) × Reached r (p ∷ []) x
    pub needed : (d : String) → elem d (names r (p ∷ []) p) ≡ true → elem d before ≡ true

  -- A dependency of the plugin, or of one before it, is before the plugin.
  closed_before :
      (before : List String)
      → Ordered (names r (p ∷ [])) [] before
      → All (λ d. elem d before ≡ true) (names r (p ∷ []) p)
      → (q d : String) → (elem q before || (p == q)) ≡ true
      → elem d (names r (p ∷ []) q) ≡ true
      → (elem d before || (p == d)) ≡ true
  closed_before before o all q d h e = elim (Bool-cases (elem q before)) [
    | inl there ↦ rw (Ordered-closed (names r (p ∷ [])) [] before o q d there e) refl
    | inr new ↦
        let same = rw new at h in
        let found =
          All-elem (λ y. elem y before ≡ true) d (names r (p ∷ []) q) e
            (subst (λ y. All (λ z. elem z before ≡ true) (names r (p ∷ []) y)) (equals-eq same)
              all) in
        rw found refl
  ]

  -- Nothing that the order comes to comes after the plugin.
  nothing_after :
      (before rest : List String)
      → ((x : String) → count x (before ++ (p ∷ rest)) ≤ 1)
      → ((x : String) → elem x rest ≡ true → (elem x before || (p == x)) ≡ true)
      → rest ≡ []
  nothing_after before [] once h = refl
  nothing_after before (x ∷ rest) once h = absurd (
      ground (
        arith,
        h x (rw (equals_refl x) refl),
        once x,
        count-append x before (p ∷ x ∷ rest),
        elem-count x before,
        equals_refl x,
      ))

  -- The order for a registered plugin ends with it.
  pub IsSorted-IsResolved :
      (result : List String)
      → IsSorted r (p ∷ []) result
      → Dict.has r.plugins p ≡ true
      → (before : List String) × IsResolved result before
  IsSorted-IsResolved result (ordered, once, there, within) h =
      let ns = names r (p ∷ []) in
      let (before, rest, parts, new) = first_place p result (there p (rw (equals_refl p) refl) h) in
      let (first, second) =
        Ordered-parts ns [] before (p ∷ rest) (subst (Ordered ns []) parts ordered) in
      let after =
        nothing_after before rest (subst (λ l. (x : String) → count x l ≤ 1) parts once) (λ x e.
          (within x (
              ap (elem x) parts
              ∙ elem-append x before (p ∷ rest)
              ∙ or_right (elem x before) (or_right (p == x) e))).2
            (λ y. elem y before || (p == y)) (λ q e. or_right (elem q before) (ground (arith, e)))
            (closed_before before first second.0)) in
      (
        before,
        record {
          parts = parts ∙ ap (λ l. before ++ (p ∷ l)) after;
          new = new;
          ordered = first;
          within = λ x e.
              let (here, _, come) =
                within x (ap (elem x) parts ∙ elem-append x before (p ∷ rest) ∙ rw e refl) in
              (here, come);
          needed = λ d e. All-elem (λ y. elem y before ≡ true) d (ns p) e second.0;
        },
      )
