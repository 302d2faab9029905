-- ===== src/Container/Frame.antt =====
-- resolve of app/core/container.py: what it leaves as it was, and how deep it goes.
use korea_public_data_be.Base.{
  ℕ, Bool, true, false, Option, none, some, String, List, [], ◌∷◌, ◌==◌, string_eq, if◌then◌else◌,
  refl,
}
use korea_public_data_be.Container.Action.{service_not_found, Action, pure, raise}
use korea_public_data_be.Dict.{Dict}
use korea_public_data_be.Container.Defs.{
  Lifetime, singleton, transient, scoped, Parameter, Callable, ServiceBinding, Container, Kwargs,
  resolved, factory_arg, missing, annotated_arg, class_arg, collect, returned, call,
  from_implementation, from_factory, from_instance, create_instance, cached, by_lifetime,
}
use korea_public_data_be.Container.Good.{
  Good, Good-pure, Good-raise, Good-gets, Good-modify, Good-bind, Good-or_not_found,
}

module _ {Obj : Type 0} {bs : Dict String (ServiceBinding Obj)} {ks : List String}
    {P : Type 0} where
  module _ {r : String → Action (Container Obj) Obj} (g : (t : String) → Good bs ks P (r t)) where
    Good-resolved : (t : String) → Good bs ks P (resolved r t)
    unfolding resolved
    Good-resolved t = Good-bind (g t) (λ o. Good-pure _)

    Good-factory_arg : (p : Parameter) (a : Option String) → Good bs ks P (factory_arg r p a)
    unfolding factory_arg
    Good-factory_arg p none = Good-pure none
    Good-factory_arg p (some t) = Good-resolved t

    Good-missing : (p : Parameter) → Good bs ks P (missing r p)
    unfolding missing
    Good-missing p = missing_by p.has_default p.origin_test
      where
        missing_by :
            (d o : Bool)
            → Good bs ks P (
                if d
                then pure {A = Option (Option Obj)} none
                else if o
                then pure (some none)
                else raise service_not_found)
        missing_by true o = Good-pure _
        missing_by false true = Good-pure _
        missing_by false false = Good-raise _ refl

    Good-annotated_arg : (p : Parameter) (a : Option String) → Good bs ks P (annotated_arg r p a)
    unfolding annotated_arg
    Good-annotated_arg p none = Good-pure none
    Good-annotated_arg p (some t) = Good-or_not_found (Good-resolved t) (Good-missing p)

    Good-class_arg : (p : Parameter) (a : Option String) → Good bs ks P (class_arg r p a)
    unfolding class_arg
    Good-class_arg p a = by_name (p.name == "self")
      where
        by_name : (self : Bool) → Good bs ks P (if self then pure none else annotated_arg r p a)
        by_name true = Good-pure none
        by_name false = Good-annotated_arg p a

  Good-collect :
      {arg : Parameter → Option String → Action (Container Obj) (Option (Option Obj))}
      → ((p : Parameter) (a : Option String) → Good bs ks P (arg p a))
      → (ps : List Parameter) → Good bs ks P (collect arg ps)
  unfolding collect
  Good-collect g [] = Good-pure _
  Good-collect g (p ∷ ps) =
      Good-bind (g p p.annotation) (λ o. Good-bind (Good-collect g ps) (λ rest. Good-pure _))

  module _ (build : ℕ → Callable → Kwargs Obj → Option Obj) where
    Good-returned : (o : Option Obj) → Good bs ks P (returned build o)
    unfolding returned
    Good-returned none = Good-raise _ refl
    Good-returned (some o) = Good-pure o

    Good-call : (c : Callable) (k : Kwargs Obj) → Good bs ks P (call build c k)
    unfolding call
    Good-call c k =
        Good-bind (Good-gets _) (λ n. Good-bind (Good-modify _ _ (λ s h. h)) (λ o. Good-returned o))

    module _ {r : String → Action (Container Obj) Obj} (g : (t : String) → Good bs ks P (r t)) where
      Good-from_implementation :
          (i : Option Callable) → Good bs ks P (from_implementation build r i)
      unfolding from_implementation
      Good-from_implementation none = Good-raise _ refl
      Good-from_implementation (some c) =
          Good-bind (Good-collect (Good-class_arg g) c.parameters) (λ k. Good-call c k)

      Good-from_factory :
          (b : ServiceBinding Obj) (f : Option Callable) → Good bs ks P (from_factory build r b f)
      unfolding from_factory
      Good-from_factory b none = Good-from_implementation b.implementation
      Good-from_factory b (some c) =
          Good-bind (Good-collect (Good-factory_arg g) c.parameters) (λ k. Good-call c k)

      Good-from_instance :
          (b : ServiceBinding Obj) (o : Option Obj) → Good bs ks P (from_instance build r b o)
      unfolding from_instance
      Good-from_instance b (some o) = Good-pure o
      Good-from_instance b none = Good-from_factory b b.factory

      Good-create_instance : (b : ServiceBinding Obj) → Good bs ks P (create_instance build r b)
      unfolding create_instance
      Good-create_instance b = Good-from_instance b b.instance_

      Good-cached :
          (o : Option Obj) {m : Action (Container Obj) Obj}
          → Good bs ks P m
          → Good bs ks P (cached build o m)
      unfolding cached
      Good-cached (some o) k = Good-pure o
      Good-cached none k = k

      pub Good-by_lifetime :
          (t : String) (b : ServiceBinding Obj) (l : Lifetime)
          → Good bs ks P (by_lifetime build r t b l)
      unfolding by_lifetime
      Good-by_lifetime t b singleton = Good-bind (Good-gets _) (λ o.
          Good-cached o (Good-bind (Good-create_instance b) (λ x. Good-modify _ _ (λ s h. h))))
      Good-by_lifetime t b scoped = Good-bind (Good-gets _) (λ o.
          Good-cached o (Good-bind (Good-create_instance b) (λ x. Good-modify _ _ (λ s h. h))))
      Good-by_lifetime t b transient = Good-create_instance b
