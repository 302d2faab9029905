-- ===== src/Container/Free.antt =====
-- How many registered types of app/core/container.py are not being resolved, and the stack of types.
use korea_public_data_be.Base.{
  ℕ, ◌+◌, ◌≤◌, ◌<◌, true, false, some, String, List, [], ◌∷◌, ◌++◌, ◌==◌, ◌||◌, string_eq, elem,
  if◌then◌else◌, ◌≡◌, subst, sym, inl, inr, arith, length, Bool-cases, equals-eq, equals_refl,
}
use korea_public_data_be.Dict
use korea_public_data_be.Dict.{Dict}
use korea_public_data_be.Container.Defs.{ServiceBinding, remove_first}

pub remove_first-append :
    (k : String) (xs : List String) → elem k xs ≡ false → remove_first k (xs ++ k ∷ []) ≡ xs
unfolding remove_first
remove_first-append k [] h = rw (equals_refl k)
remove_first-append k (x ∷ xs) h = ground (arith, remove_first-append k xs)

elem-append : (j k : String) (ks : List String) → elem j (ks ++ k ∷ []) ≡ (elem j ks || (k == j))
elem-append j k [] = ground arith
elem-append j k (x ∷ ks) = ground (arith, elem-append j k ks)

-- The registered types that are not being resolved.
abbrev pub free : {Obj : Type 0} → Dict String (ServiceBinding Obj) → List String → ℕ
free [] ks = 0
free ((k, b) ∷ bs) ks = (if elem k ks then 0 else 1) + free bs ks

pub free-le :
    {Obj : Type 0} (bs : Dict String (ServiceBinding Obj)) (ks : List String)
    → free bs ks ≤ length bs
free-le [] ks = omega arith
free-le ((k, b) ∷ bs) ks = ground (arith, free-le bs ks)

free-append :
    {Obj : Type 0} (bs : Dict String (ServiceBinding Obj)) (k : String) (ks : List String)
    → free bs (ks ++ k ∷ []) ≤ free bs ks
free-append [] k ks = omega arith
free-append ((j, b) ∷ bs) k ks = ground (arith, elem-append j k ks, free-append bs k ks)

pub free-less :
    {Obj : Type 0} (bs : Dict String (ServiceBinding Obj)) (k : String) (ks : List String)
    (b : ServiceBinding Obj)
    → Dict.get bs k ≡ some b
    → elem k ks ≡ false
    → free bs (ks ++ k ∷ []) < free bs ks
unfolding Dict.get
free-less [] k ks b g h = ground arith
free-less ((j, c) ∷ bs) k ks b g h = elim (Bool-cases (j == k)) [
  | inl e ↦
      let out : elem j ks ≡ false = subst (λ x. elem x ks ≡ false) (sym (equals-eq e)) h in
      let into : (k == j) ≡ true = subst (λ x. (x == j) ≡ true) (equals-eq e) (equals_refl j) in
      ground (arith, out, into, elem-append j k ks, free-append bs k ks)
  | inr e ↦
      let later = subst (λ x. (if x then some c else Dict.get bs k) ≡ some b) e g in
      ground (arith, elem-append j k ks, free-less bs k ks b later h)
]
