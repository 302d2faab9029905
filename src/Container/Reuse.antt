-- ===== src/Container/Reuse.antt =====
-- Cached objects of app/core/container.py: a singleton or scoped type that has been resolved.
use korea_public_data_be.Base.{
  ℕ, zero, suc, true, false, Option, none, some, String, [], string_eq, elem, ◌≡◌, ◌≢◌, refl, sym,
  ap, ◌∙◌, inl, inr, Bool-cases,
}
use korea_public_data_be.Container.Action.{
  Error, circular_dependency, Result, ok, err, Action, pure, gets, modify, ◌>>=◌, continue,
}
use korea_public_data_be.Dict
use korea_public_data_be.Dict.{Dict}
use korea_public_data_be.Container.Defs.{
  Lifetime, singleton, transient, scoped, Callable, ServiceBinding, Container, Kwargs,
  create_instance, cached, by_lifetime, bound, resolve_internal, resolve, push, pop,
}
use korea_public_data_be.Container.Free.{remove_first-append}
use korea_public_data_be.Container.Resolve.{resolve_restores}

-- The objects that are kept for a lifetime.
abbrev pub kept : {Obj : Type 0} → Lifetime → Container Obj → Dict String Obj
kept singleton s = s.singletons
kept scoped s = s.scoped_instances
kept transient s = []

module _ {Obj : Type 0} (build : ℕ → Callable → Kwargs Obj → Option Obj) where
  cached-hit :
      (m : ℕ) (t : String) (s : Container Obj) (b : ServiceBinding Obj) (l : Lifetime) (o : Obj)
      → Dict.get (kept l s) t ≡ some o
      → by_lifetime build (resolve build m) t b l (push build t s) ≡ (ok o, push build t s)
  unfolding by_lifetime cached ◌>>=◌ gets pure Dict.get
  cached-hit m t s b singleton o h = rw h
  cached-hit m t s b scoped o h = rw h
  cached-hit m t s b transient o h = cc

  -- A type of the singleton or scoped lifetime whose object is kept, and which is not being
  -- resolved, is resolved to that object, and nothing in the container changes: no constructor
  -- is called.
  pub resolve-kept :
      (m : ℕ) (t : String) (s : Container Obj) (b : ServiceBinding Obj) (o : Obj)
      → Dict.get s.bindings t ≡ some b
      → Dict.get (kept b.lifetime s) t ≡ some o
      → elem t s.resolution_stack ≡ false
      → resolve build (suc m) t s ≡ (ok o, s)
  unfolding resolve resolve_internal bound ◌>>=◌ gets
  resolve-kept m t s b o g h out = rw out (
      rw g (
        rw (cached-hit m t s b b.lifetime o h) (
          ap (λ k. (ok o, record s { resolution_stack = k }))
            (remove_first-append t s.resolution_stack out))))

  abbrev value : Result Obj → Option Obj
  value (ok o) = some o
  value (err e) = none

  stored :
      (t : String) (store : Obj → Container Obj → Container Obj)
      (view : Container Obj → Dict String Obj)
      → ((o : Obj) (s : Container Obj) → Dict.get (view (store o s)) t ≡ some o)
      → (x : Result Obj × Container Obj) (o : Obj) → (continue (λ o. modify (store o) o) x).0 ≡ ok o
      → Dict.get (view (continue (λ o. modify (store o) o) x).1) t ≡ some o
  unfolding modify
  stored t store view k (ok p, s) o h = k p s ∙ ap value h
  stored t store view k (err e, s) o h = cc

  cached-kept :
      (t : String) (store : Obj → Container Obj → Container Obj)
      (view : Container Obj → Dict String Obj)
      → ((o : Obj) (s : Container Obj) → Dict.get (view (store o s)) t ≡ some o)
      → (create : Action (Container Obj) Obj) (s : Container Obj) (found : Option Obj)
      → Dict.get (view s) t ≡ found
      → (o : Obj) → (cached build found (do x ← create; modify (store x) x) s).0 ≡ ok o
      → Dict.get (view (cached build found (do x ← create; modify (store x) x) s).1) t ≡ some o
  unfolding cached ◌>>=◌ pure
  cached-kept t store view k create s none q o h = stored t store view k (create s) o h
  cached-kept t store view k create s (some p) q o h = q ∙ ap value h

  by_lifetime-kept :
      (r : String → Action (Container Obj) Obj) (t : String) (b : ServiceBinding Obj) (l : Lifetime)
      (s : Container Obj) (o : Obj)
      → l ≢ transient
      → (by_lifetime build r t b l s).0 ≡ ok o
      → Dict.get (kept l (by_lifetime build r t b l s).1) t ≡ some o
  unfolding by_lifetime ◌>>=◌ gets
  by_lifetime-kept r t b singleton s o n h =
      cached-kept t (λ x s. record s { singletons = Dict.put s.singletons t x }) (λ s. s.singletons)
        (λ x s. Dict.get-put_self s.singletons t x) (create_instance build r b) s
        (Dict.get s.singletons t) refl o h
  by_lifetime-kept r t b scoped s o n h =
      cached-kept t (λ x s. record s { scoped_instances = Dict.put s.scoped_instances t x })
        (λ s. s.scoped_instances) (λ x s. Dict.get-put_self s.scoped_instances t x)
        (create_instance build r b) s (Dict.get s.scoped_instances t) refl o h
  by_lifetime-kept r t b transient s o n h = absurd (n refl)

  kept-pop : (l : Lifetime) (s : Container Obj) (t : String) → kept l (pop build t s) ≡ kept l s
  kept-pop singleton s t = refl
  kept-pop scoped s t = refl
  kept-pop transient s t = refl

  err≢ok : (e : Error) (o : Obj) → err e ≢ ok o
  err≢ok e o h = cc

  circular :
      (n : ℕ) (t : String) (s : Container Obj)
      → elem t s.resolution_stack ≡ true
      → (resolve build (suc n) t s).0 ≡ err circular_dependency
  unfolding resolve
  circular n t s e = rw e

  resolve-inner :
      (n : ℕ) (t : String) (s : Container Obj) (b : ServiceBinding Obj)
      → Dict.get s.bindings t ≡ some b
      → elem t s.resolution_stack ≡ false
      → (resolve build (suc n) t s).0
        ≡ (by_lifetime build (resolve build n) t b b.lifetime (push build t s)).0
  unfolding resolve resolve_internal bound ◌>>=◌ gets
  resolve-inner n t s b g e = rw e (rw g)

  -- A resolution that gives an object was not of a type on the stack, and keeps the object.
  resolve-keeps :
      (n : ℕ) (t : String) (s : Container Obj) (b : ServiceBinding Obj) (o : Obj)
      → Dict.get s.bindings t ≡ some b
      → b.lifetime ≢ transient
      → (resolve build n t s).0 ≡ ok o
      → (elem t s.resolution_stack ≡ false)
        × (Dict.get (kept b.lifetime (resolve build n t s).1) t ≡ some o)
  unfolding resolve resolve_internal bound ◌>>=◌ gets
  resolve-keeps zero t s b o g l h = cc
  resolve-keeps (suc n) t s b o g l h = elim (Bool-cases (elem t s.resolution_stack)) [
    | inl e ↦ absurd (err≢ok _ _ (sym (circular n t s e) ∙ h))
    | inr e ↦ (
      e,
      rw e (
          rw g (
            ap (λ d. Dict.get d t) (kept-pop b.lifetime _ t)
            ∙ by_lifetime-kept (resolve build n) t b b.lifetime (push build t s) o l
                (sym (resolve-inner n t s b g e) ∙ h))),
    )
  ]

  -- Resolving a singleton or scoped type a second time gives the object of the first time and
  -- changes nothing in the container: no constructor is called again.
  pub resolve_again :
      (n m : ℕ) (t : String) (s : Container Obj) (b : ServiceBinding Obj) (o : Obj)
      → Dict.get s.bindings t ≡ some b
      → b.lifetime ≢ transient
      → (resolve build n t s).0 ≡ ok o
      → resolve build (suc m) t (resolve build n t s).1 ≡ (ok o, (resolve build n t s).1)
  resolve_again n m t s b o g l h =
      let first = resolve-keeps n t s b o g l h in
      let same = resolve_restores build n t s in
      resolve-kept m t (resolve build n t s).1 b o (ap (λ d. Dict.get d t) same.0 ∙ g) first.1
        (ap (elem t) same.1 ∙ first.0)
