-- ===== src/Plugins/Steps.antt =====
-- What one step of the walk over the dependencies in app/core/plugins/registry.py adds.
use mathlib.Core.List.{Memᴰ}
use mathlib.Core.List.{append_assoc, append-nil}
use korea_public_data_be.Base.{
  ℕ, ◌+◌, ◌≤◌, true, false, ◌||◌, ◌⊎◌, inl, inr, String, List, [], ◌∷◌, ◌++◌, ◌==◌, string_eq,
  if◌then◌else◌, elem, length, ◌≡◌, refl, sym, ap, ◌∙◌, subst, arith, Bool-cases, All, count,
  count-append, absent-count, elem-append, equals-eq,
}
use korea_public_data_be.Dict
use korea_public_data_be.Dict.{Dict, get_or-put}
use korea_public_data_be.Plugins.Defs.{PluginDependency, PluginRegistry, add_to}
use korea_public_data_be.Plugins.Sort.{SortError, missing_dependency, Walk, linked, links}

pub elem-add_to : (x q : String) (xs : List String) → elem q (add_to x xs) ≡ ((x == q) || elem q xs)
elem-add_to x q xs = ground (arith, elem-append q xs (x ∷ []), string_eq.equals_iff x q)

pub count-add_to : (x q : String) (xs : List String) → count q xs ≤ 1 → count q (add_to x xs) ≤ 1
count-add_to x q xs h =
    ground (arith, count-append q xs (x ∷ []), string_eq.equals_iff x q, absent-count x xs, h)

pub left≢right : {A B : Type 0} {a : A} {b : B} → ◌≡◌ {A = A ⊎ B} (inl a) (inr b) → ⊥
left≢right h = cc

module _ (r : PluginRegistry) where
  -- The names of the dependencies that are registered
  abbrev pub names_of : List PluginDependency → List String
  names_of [] = []
  names_of (d ∷ ds) =
      let rest = names_of ds in if Dict.has r.plugins d.name then d.name ∷ rest else rest

  -- Each dependency is registered or optional.
  abbrev pub Satisfied : List PluginDependency → Type 0
  Satisfied ds = All (λ d. (Dict.has r.plugins d.name || d.optional) ≡ true) ds

  pub record Linked (p : String) (ds : List PluginDependency) (w w' : Walk) : Type 0 where
    pub edges :
        (q d : String)
        → count q (Dict.get_or w'.graph d [])
          ≡ count q (Dict.get_or w.graph d []) + (if p == q then count d (names_of ds) else 0)
    pub degrees :
        (q : String)
        → Dict.get_or w'.in_degree q 0
          ≡ Dict.get_or w.in_degree q 0 + (if p == q then length (names_of ds) else 0)
    pub visited : w'.visited ≡ w.visited
    pub queue : w'.queue ≡ w.queue ++ names_of ds
    pub members :
        (q : String) → elem q w'.all_plugins ≡ (elem q w.all_plugins || elem q (names_of ds))
    pub distinct :
        ((q : String) → count q w.all_plugins ≤ 1) → (q : String) → count q w'.all_plugins ≤ 1
    pub satisfied : Satisfied ds

  edge_one :
      (g : Dict String (List String)) (p d q x : String)
      → count q (Dict.get_or (Dict.put g d (Dict.get_or g d [] ++ (p ∷ []))) x [])
        ≡ count q (Dict.get_or g x []) + (if p == q then count x (d ∷ []) else 0)
  edge_one g p d q x =
      let read = get_or-put g d x (Dict.get_or g d [] ++ (p ∷ [])) [] in
      elim (Bool-cases (d == x)) [
        | inl e ↦
            let same : Dict.get_or g d [] ≡ Dict.get_or g x [] =
              ap (λ a. Dict.get_or g a []) (equals-eq e) in
            ap (count q) (rw e at read)
            ∙ count-append q (Dict.get_or g d []) (p ∷ [])
            ∙ rw e (rw same (ground arith))
        | inr e ↦ ap (count q) (rw e at read) ∙ rw e (ground arith)
      ]

  degree_one :
      (g : Dict String ℕ) (p q : String)
      → Dict.get_or (Dict.put g p (Dict.get_or g p 0 + 1)) q 0
        ≡ Dict.get_or g q 0 + (if p == q then 1 else 0)
  degree_one g p q =
      let read = get_or-put g p q (Dict.get_or g p 0 + 1) 0 in
      elim (Bool-cases (p == q)) [
        | inl e ↦ (rw e at read) ∙ rw e (ap (λ a. Dict.get_or g a 0 + 1) (equals-eq e))
        | inr e ↦ (rw e at read) ∙ rw e (omega arith)
      ]

  none-Linked : (p : String) (w : Walk) → Linked p [] w w
  none-Linked p w = record {
    edges = λ q d. ground arith;
    degrees = λ q. ground arith;
    visited = refl;
    queue = sym (append-nil w.queue);
    members = λ q. ground arith;
    distinct = λ h. h;
    satisfied = tt;
  }

  -- A dependency that is registered, and those after it.
  linked-Linked :
      (p : String) (d : PluginDependency) (ds : List PluginDependency) (w w' : Walk)
      → Dict.has r.plugins d.name ≡ true
      → Linked p ds (linked p d.name w) w'
      → Linked p (d ∷ ds) w w'
  linked-Linked p d ds w w' e l = record {
    edges = λ q x. rw e (ground (arith, l.edges q x, edge_one w.graph p d.name q x));
    degrees = λ q. rw e (ground (arith, l.degrees q, degree_one w.in_degree p q));
    visited = l.visited;
    queue = rw e (l.queue ∙ append_assoc w.queue (d.name ∷ []) (names_of ds));
    members = λ q. rw e (ground (arith, l.members q, elem-add_to d.name q w.all_plugins));
    distinct = λ h. l.distinct (λ q. count-add_to d.name q w.all_plugins (h q));
    satisfied = (rw e, l.satisfied);
  }

  -- An optional dependency that is not registered, and those after it.
  skipped-Linked :
      (p : String) (d : PluginDependency) (ds : List PluginDependency) (w w' : Walk)
      → Dict.has r.plugins d.name ≡ false
      → d.optional ≡ true
      → Linked p ds w w'
      → Linked p (d ∷ ds) w w'
  skipped-Linked p d ds w w' e o l = record {
    edges = λ q x. rw e (l.edges q x);
    degrees = λ q. rw e (l.degrees q);
    visited = l.visited;
    queue = rw e l.queue;
    members = λ q. rw e (l.members q);
    distinct = l.distinct;
    satisfied = (rw e o, l.satisfied);
  }

  pub links-Linked :
      (p : String) (ds : List PluginDependency) (w w' : Walk)
      → links r p ds w ≡ inr w'
      → Linked p ds w w'
  unfolding links
  links-Linked p [] w w' h =
      subst (Linked p [] w) (ap (λ x. elim x [ inl _ ↦ w | inr v ↦ v ]) h) (none-Linked p w)
  links-Linked p (d ∷ ds) w w' h = elim (Bool-cases (Dict.has r.plugins d.name)) [
    | inl e ↦
        linked-Linked p d ds w w' e (links-Linked p ds (linked p d.name w) w' (rw (e, links) at h))
    | inr e ↦ elim (Bool-cases d.optional) [
      | inl o ↦
          skipped-Linked p d ds w w' e o
            (links-Linked p ds w w' (rw (o, links) at (rw (e, links) at h)))
      | inr o ↦ absurd (left≢right (rw (o, links) at (rw (e, links) at h)))
    ]
  ]

  -- A dependency that stops the walk: it is required and not registered.
  abbrev pub Stopped : String → List PluginDependency → SortError → Type 0
  Stopped p ds e =
      (d : PluginDependency) × Memᴰ d ds
      × (Dict.has r.plugins d.name ≡ false)
      × (d.optional ≡ false)
      × (e ≡ missing_dependency d.name p)

  pub links-Stopped :
      (p : String) (ds : List PluginDependency) (w : Walk) (e : SortError)
      → links r p ds w ≡ inl e
      → Stopped p ds e
  unfolding links
  links-Stopped p [] w e h = absurd (left≢right (sym h))
  links-Stopped p (d ∷ ds) w e h = elim (Bool-cases (Dict.has r.plugins d.name)) [
    | inl y ↦ later d (links-Stopped p ds (linked p d.name w) e (rw (y, links) at h))
    | inr n ↦ elim (Bool-cases d.optional) [
      | inl o ↦ later d (links-Stopped p ds w e (rw (o, links) at (rw (n, links) at h)))
      | inr o ↦ (d, Memᴰ.head refl, n, o, error (rw (o, links) at (rw (n, links) at h)))
    ]
  ]
    where
      later : (d : PluginDependency) → Stopped p ds e → Stopped p (d ∷ ds) e
      later d (x, m, missing, required, same) = (x, Memᴰ.tail m, missing, required, same)

      error : {x : SortError} → ◌≡◌ {A = SortError ⊎ Walk} (inl x) (inl e) → e ≡ x
      error {x} h = sym (ap (λ a. elim a [ inl y ↦ y | inr _ ↦ x ]) h)

  pub names_of-has :
      (ds : List PluginDependency) (x : String)
      → elem x (names_of ds) ≡ true
      → Dict.has r.plugins x ≡ true
  names_of-has [] x h = cc
  names_of-has (d ∷ ds) x h = ground (arith, names_of-has ds x, string_eq.equals_iff d.name x, h)

  pub length-names_of_le : (ds : List PluginDependency) → length (names_of ds) ≤ length ds
  length-names_of_le [] = omega arith
  length-names_of_le (d ∷ ds) = ground (arith, length-names_of_le ds)
