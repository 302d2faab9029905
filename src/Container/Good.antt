-- ===== src/Container/Good.antt =====
-- Rules for the actions of app/core/container.py that leave the bindings and the stack as they are.
use korea_public_data_be.Base.{Bool, true, false, String, List, string_eq, ◌≡◌, refl}
use korea_public_data_be.Container.Action.{
  Error, circular_dependency, service_not_found, value_error, build_error, exhausted, Result, ok,
  err, Action, pure, raise, gets, modify, or_not_found, ◌>>=◌, recover, continue,
}
use korea_public_data_be.Dict.{Dict}
use korea_public_data_be.Container.Defs.{ServiceBinding, Container}

abbrev pub runs_out : {A : Type 0} → Result A → Bool
runs_out (err exhausted) = true
runs_out r = false

-- A state with these bindings and this stack.
abbrev pub Has :
    {Obj : Type 0} → Dict String (ServiceBinding Obj) → List String → Container Obj → Type 0
Has bs ks s = (s.bindings ≡ bs) × (s.resolution_stack ≡ ks)

module _ {Obj : Type 0} (bs : Dict String (ServiceBinding Obj)) (ks : List String)
    (P : Type 0) where
  -- From a state with these bindings and this stack, the action comes to one; where P holds it
  -- does not run out of steps.
  pub record Good {A : Type 0} (m : Action (Container Obj) A) : Type 0 where
    pub keeps : (s : Container Obj) → Has bs ks s → Has bs ks (m s).1
    pub ends : (s : Container Obj) → Has bs ks s → P → runs_out (m s).0 ≡ false

module _ {Obj : Type 0} {bs : Dict String (ServiceBinding Obj)} {ks : List String}
    {P : Type 0} where
  pub Good-pure : {A : Type 0} (a : A) → Good bs ks P (pure a)
  unfolding pure
  Good-pure a = record { keeps = λ s h. h; ends = λ s h p. refl }

  pub Good-raise :
      {A : Type 0} (e : Error) → runs_out {A = A} (err e) ≡ false → Good bs ks P (raise {A = A} e)
  unfolding raise
  Good-raise e q = record { keeps = λ s h. h; ends = λ s h p. q }

  pub Good-gets : {A : Type 0} (f : Container Obj → A) → Good bs ks P (gets f)
  unfolding gets
  Good-gets f = record { keeps = λ s h. h; ends = λ s h p. refl }

  pub Good-modify :
      {A : Type 0} (f : Container Obj → Container Obj) (a : A)
      → ((s : Container Obj) → Has bs ks s → Has bs ks (f s))
      → Good bs ks P (modify f a)
  unfolding modify
  Good-modify f a k = record { keeps = k; ends = λ s h p. refl }

  module _ {A B : Type 0} {f : A → Action (Container Obj) B}
      (g : (a : A) → Good bs ks P (f a)) where
    continue-keeps : (x : Result A × Container Obj) → Has bs ks x.1 → Has bs ks (continue f x).1
    continue-keeps (ok a, s) h = (g a).keeps s h
    continue-keeps (err e, s) h = h

    continue-ends :
        (x : Result A × Container Obj)
        → Has bs ks x.1
        → P
        → runs_out x.0 ≡ false
        → runs_out (continue f x).0 ≡ false
    continue-ends (ok a, s) h p q = (g a).ends s h p
    continue-ends (err circular_dependency, s) h p q = q
    continue-ends (err service_not_found, s) h p q = q
    continue-ends (err value_error, s) h p q = q
    continue-ends (err build_error, s) h p q = q
    continue-ends (err exhausted, s) h p q = q

  pub Good-bind :
      {A B : Type 0} {m : Action (Container Obj) A} {f : A → Action (Container Obj) B}
      → Good bs ks P m
      → ((a : A) → Good bs ks P (f a))
      → Good bs ks P (m >>= f)
  unfolding ◌>>=◌
  Good-bind {A} {B} {m} {f} gm gf = record {
    keeps = λ s h. continue-keeps gf (m s) (gm.keeps s h);
    ends = λ s h p. continue-ends gf (m s) (gm.keeps s h) p (gm.ends s h p);
  }

  module _ {A : Type 0} {m : Action (Container Obj) A} (g : Good bs ks P m) where
    recover-keeps : (x : Result A × Container Obj) → Has bs ks x.1 → Has bs ks (recover m x).1
    recover-keeps (ok a, s) h = h
    recover-keeps (err circular_dependency, s) h = h
    recover-keeps (err service_not_found, s) h = g.keeps s h
    recover-keeps (err value_error, s) h = h
    recover-keeps (err build_error, s) h = h
    recover-keeps (err exhausted, s) h = h

    recover-ends :
        (x : Result A × Container Obj)
        → Has bs ks x.1
        → P
        → runs_out x.0 ≡ false
        → runs_out (recover m x).0 ≡ false
    recover-ends (ok a, s) h p q = q
    recover-ends (err circular_dependency, s) h p q = q
    recover-ends (err service_not_found, s) h p q = g.ends s h p
    recover-ends (err value_error, s) h p q = q
    recover-ends (err build_error, s) h p q = q
    recover-ends (err exhausted, s) h p q = q

  pub Good-or_not_found :
      {A : Type 0} {m n : Action (Container Obj) A}
      → Good bs ks P m
      → Good bs ks P n
      → Good bs ks P (or_not_found m n)
  unfolding or_not_found
  Good-or_not_found {A} {m} {n} gm gn = record {
    keeps = λ s h. recover-keeps gn (m s) (gm.keeps s h);
    ends = λ s h p. recover-ends gn (m s) (gm.keeps s h) p (gm.ends s h p);
  }
