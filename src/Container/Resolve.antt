-- ===== src/Container/Resolve.antt =====
-- resolve of app/core/container.py: it restores the stack of types, and it ends.
use korea_public_data_be.Base.{
  ℕ, zero, suc, ◌<◌, false, Option, none, some, String, List, [], ◌∷◌, ◌++◌, string_eq, elem, ◌≡◌,
  subst, ◌≢◌, true≢false, refl, sym, ap, ◌∙◌, inl, inr, arith, length, Bool-cases,
}
use korea_public_data_be.Container.Action.{exhausted, err, gets, ◌>>=◌}
use korea_public_data_be.Dict
use korea_public_data_be.Dict.{Dict}
use korea_public_data_be.Container.Defs.{
  Callable, ServiceBinding, Container, remove_first, Kwargs, bound, resolve_internal, resolve, push,
  pop,
}
use korea_public_data_be.Container.Free.{free, free-le, free-less, remove_first-append}
use korea_public_data_be.Container.Good.{runs_out, Has, Good, Good-raise}
use korea_public_data_be.Container.Frame.{Good-by_lifetime}

module _ {Obj : Type 0} (build : ℕ → Callable → Kwargs Obj → Option Obj) where
  -- With this much fuel left, a resolution from this state does not run out of it.
  abbrev Enough : Dict String (ServiceBinding Obj) → List String → ℕ → Type 0
  Enough bs ks n = free bs ks < n

  Good-bound :
      (bs : Dict String (ServiceBinding Obj)) (ks : List String) (n : ℕ) (t : String)
      → elem t ks ≡ false
      → ((u : String) → Good bs (ks ++ t ∷ []) (Enough bs (ks ++ t ∷ []) n) (resolve build n u))
      → (found : Option (ServiceBinding Obj)) → Dict.get bs t ≡ found
      → Good bs (ks ++ t ∷ []) (Enough bs ks (suc n)) (bound build (resolve build n) t found)
  unfolding bound
  Good-bound bs ks n t h g none q = Good-raise _ refl
  Good-bound bs ks n t h g (some b) q =
      Good-by_lifetime build
        (λ u. record {
          keeps = (g u).keeps;
          ends = λ s k p. (g u).ends s k (omega (arith, free-less bs t ks b q h, p));
        })
        t b b.lifetime

  module _ (bs : Dict String (ServiceBinding Obj)) (n : ℕ) (ks : List String) (t : String)
      (g : (u : String) → Good bs (ks ++ t ∷ []) (Enough bs (ks ++ t ∷ []) n) (resolve build n u))
      (s : Container Obj) (h : Has bs ks s) (out : elem t s.resolution_stack ≡ false) where
    inner-Good :
        Good bs
          (ks ++ t ∷ [])
          (Enough bs ks (suc n))
          (bound build (resolve build n) t (Dict.get s.bindings t))
    inner-Good =
        Good-bound bs ks n t (subst (λ k. elem t k ≡ false) h.1 out) g (Dict.get s.bindings t)
          (ap (λ d. Dict.get d t) (sym h.0))

    pushed : Has bs (ks ++ t ∷ []) (push build t s)
    pushed = (h.0, ap (λ k. k ++ t ∷ []) h.1)

    inner-keeps :
        Has bs ks (pop build t (resolve_internal build (resolve build n) t (push build t s)).1)
    unfolding resolve_internal ◌>>=◌ gets
    inner-keeps =
        let after = inner-Good.keeps (push build t s) pushed in
        (
          after.0,
          ap (remove_first t) after.1
              ∙ remove_first-append t ks (subst (λ k. elem t k ≡ false) h.1 out),
        )

    inner-ends :
        Enough bs ks (suc n)
        → runs_out (resolve_internal build (resolve build n) t (push build t s)).0 ≡ false
    unfolding resolve_internal ◌>>=◌ gets
    inner-ends p = inner-Good.ends (push build t s) pushed p

  Good-resolve :
      (bs : Dict String (ServiceBinding Obj)) (n : ℕ) (ks : List String) (t : String)
      → Good bs ks (Enough bs ks n) (resolve build n t)
  unfolding resolve
  Good-resolve bs zero ks t = record { keeps = λ s h. h; ends = λ s h p. absurd (omega (arith, p)) }
  Good-resolve bs (suc n) ks t =
      let g = λ (u : String). Good-resolve bs n (ks ++ t ∷ []) u in
      record {
        keeps = λ s h. elim (Bool-cases (elem t s.resolution_stack)) [
          | inl e ↦ rw e h
          | inr e ↦ rw e (inner-keeps bs n ks t g s h e)
        ];
        ends = λ s h p. elim (Bool-cases (elem t s.resolution_stack)) [
          | inl e ↦ rw e
          | inr e ↦ rw e (inner-ends bs n ks t g s h e p)
        ];
      }

  -- Whatever a resolution comes to, an exception included, it leaves the bindings as they were
  -- and takes off the stack of types what it put there.
  pub resolve_restores :
      (n : ℕ) (t : String) (s : Container Obj)
      → ((resolve build n t s).1.bindings ≡ s.bindings)
        × ((resolve build n t s).1.resolution_stack ≡ s.resolution_stack)
  resolve_restores n t s = (Good-resolve s.bindings n s.resolution_stack t).keeps s (refl, refl)

  -- With more fuel than there are bindings, every resolution ends, in an object or an exception
  -- of the source: nested resolutions never run out of fuel, even where types depend on one
  -- another in a circle.
  pub resolve_ends :
      (n : ℕ) (t : String) (s : Container Obj)
      → length s.bindings < n
      → (resolve build n t s).0 ≢ err exhausted
  resolve_ends n t s h e =
      let ends =
        (Good-resolve s.bindings n s.resolution_stack t).ends s (refl, refl)
          (omega (arith, free-le s.bindings s.resolution_stack, h)) in
      true≢false (ap runs_out (sym e) ∙ ends)
