-- ===== src/Base/Counting.antt =====
-- How often an element stands in a list, and lists that are contained in others.
use Prim.Native.Nat.{ℕ, suc, ◌+◌, ◌≤◌}
use mathlib.Core.Path.{◌≡◌, refl, ap, subst}
use mathlib.Core.Logic.{inl, inr}
use mathlib.Core.Bool.{Bool, true, false, ◌||◌, false≢true}
use mathlib.Core.List.{List, [], ◌∷◌, ◌++◌}
use native.Mathlib.Omega.{arith}
use korea_public_data_be.Base.Tests.{
  HasEquality, ◌==◌, if◌then◌else◌, equals_refl, equals-eq, Bool-cases,
}
use korea_public_data_be.Base.Lists.{All, length, elem, keep}

module _ {ℓ} {A : Type ℓ} ⦃e : HasEquality A⦄ where
  abbrev pub count : A → List A → ℕ
  count a [] = 0
  count a (x ∷ xs) = let rest = count a xs in if x == a then suc rest else rest

  pub count-append : (a : A) (xs ys : List A) → count a (xs ++ ys) ≡ count a xs + count a ys
  count-append a [] ys = omega arith
  count-append a (x ∷ xs) ys = ground (arith, count-append a xs ys)

  pub elem-count : (a : A) (xs : List A) → elem a xs ≡ true → 1 ≤ count a xs
  elem-count a [] h = cc
  elem-count a (x ∷ xs) h = ground (arith, elem-count a xs)

  pub elem_of_count : (a : A) (xs : List A) → 1 ≤ count a xs → elem a xs ≡ true
  elem_of_count a [] h = absurd (omega (arith, h))
  elem_of_count a (x ∷ xs) h = ground (arith, elem_of_count a xs, h)

  pub absent-count : (a : A) (xs : List A) → elem a xs ≡ false → count a xs ≡ 0
  absent-count a [] h = refl
  absent-count a (x ∷ xs) h = ground (arith, absent-count a xs, h)

  pub elem-append : (a : A) (xs ys : List A) → elem a (xs ++ ys) ≡ (elem a xs || elem a ys)
  elem-append a [] ys = refl
  elem-append a (x ∷ xs) ys = ground (arith, elem-append a xs ys)

  pub count-keep :
      (p : A) (test : A → Bool) (xs : List A)
      → count p (keep test xs) ≡ (if test p then count p xs else 0)
  count-keep p test [] = ground arith
  count-keep p test (x ∷ xs) = elim (Bool-cases (x == p)) [
    | inl same ↦ ground (arith, count-keep p test xs, ap test (equals-eq same))
    | inr other ↦ ground (arith, count-keep p test xs, other)
  ]

  abbrev without : A → List A → List A
  without a [] = []
  without a (x ∷ xs) = if x == a then xs else x ∷ without a xs

  length-without : (a : A) (xs : List A) → 1 ≤ count a xs → length xs ≡ suc (length (without a xs))
  length-without a [] h = absurd (omega (arith, h))
  length-without a (x ∷ xs) h = ground (arith, length-without a xs, h)

  count-without :
      (a b : A) (xs : List A)
      → 1 ≤ count a xs
      → count b xs ≡ count b (without a xs) + count b (a ∷ [])
  count-without a b [] h = absurd (omega (arith, h))
  count-without a b (x ∷ xs) h =
      ground (arith, e.equals_iff x a, e.equals_iff x b, e.equals_iff a b, count-without a b xs, h)

  -- Each element stands in the one list at most as often as in the other.
  abbrev pub Contained : List A → List A → Type ℓ
  Contained xs ys = (a : A) → count a xs ≤ count a ys

  tail-Contained :
      (x : A) (xs ys : List A)
      → Contained (x ∷ xs) ys
      → Contained xs (without x ys) × (1 ≤ count x ys)
  tail-Contained x xs ys h =
      let there : 1 ≤ count x ys = omega (arith, rw (equals_refl x) at (h x)) in
      (λ a. ground (arith, h a, count-without x a ys there), there)

  pub length-Contained : (xs ys : List A) → Contained xs ys → length xs ≤ length ys
  length-Contained [] ys h = omega arith
  length-Contained (x ∷ xs) ys h =
      let (rest, there) = tail-Contained x xs ys h in
      omega (arith, length-Contained xs (without x ys) rest, length-without x ys there)

  -- A list that is contained in one no longer than it has all of its elements.
  pub Contained-all : (xs ys : List A) → Contained xs ys → length ys ≤ length xs → Contained ys xs
  Contained-all [] [] h l a = omega arith
  Contained-all [] (y ∷ ys) h l a = absurd (omega (arith, l))
  Contained-all (x ∷ xs) ys h l a =
      let (rest, there) = tail-Contained x xs ys h in
      let shorter : length (without x ys) ≤ length xs =
        omega (arith, l, length-without x ys there) in
      ground (arith, Contained-all xs (without x ys) rest shorter a, count-without x a ys there)

  -- An element of a list has what all have.
  pub All-elem {ℓ₁} : (Q : A → Type ℓ₁) (a : A) (xs : List A) → elem a xs ≡ true → All Q xs → Q a
  All-elem Q a [] h q = absurd (false≢true h)
  All-elem Q a (x ∷ xs) h q = elim (Bool-cases (x == a)) [
    | inl same ↦ subst Q (equals-eq same) q.0
    | inr other ↦ All-elem Q a xs (rw other at h) q.1
  ]

  -- Where an element stands in a list first.
  pub first_place :
      (a : A) (xs : List A)
      → elem a xs ≡ true
      → (before : List A) × (rest : List A) × (xs ≡ before ++ (a ∷ rest)) × (elem a before ≡ false)
  first_place a [] h = absurd (false≢true h)
  first_place a (x ∷ xs) h = elim (Bool-cases (x == a)) [
    | inl same ↦ ([], xs, ap (λ y. y ∷ xs) (equals-eq same), refl)
    | inr other ↦
        let (before, rest, eq, new) = first_place a xs (rw other at h) in
        (x ∷ before, rest, ap (λ l. x ∷ l) eq, rw (other, new) refl)
  ]
