-- ===== src/Base/Lists.antt =====
-- Lists measured by native numbers, membership tests, and predicates on all elements.
use Prim.Native.Nat.{ℕ, zero, suc, ◌+◌, ◌≤◌}
use mathlib.Core.Path.{◌≡◌, refl, ap}
use mathlib.Core.Bool.{Bool, false, ◌||◌}
use mathlib.Core.List.{List, [], ◌∷◌, ◌++◌}
use native.Mathlib.Nat.{zero-add, add-zero, suc-add}
use native.Mathlib.Omega.{arith}
use korea_public_data_be.Base.Tests.{HasEquality, ◌==◌, if◌then◌else◌}

module _ {ℓ} {A : Type ℓ} where
  abbrev pub length : List A → ℕ
  length [] = 0
  length (x ∷ xs) = suc (length xs)

  pub length-append : (xs ys : List A) → length (xs ++ ys) ≡ length xs + length ys
  length-append [] ys = omega arith
  length-append (x ∷ xs) ys = omega (arith, length-append xs ys)

  -- The elements that pass a test, in order: a list comprehension with a condition.
  abbrev pub keep : (A → Bool) → List A → List A
  keep p [] = []
  keep p (x ∷ xs) = if p x then x ∷ keep p xs else keep p xs

  pub length-keep-le : (p : A → Bool) (xs : List A) → length (keep p xs) ≤ length xs
  length-keep-le p [] = omega arith
  length-keep-le p (x ∷ xs) = ground (arith, length-keep-le p xs)

  pub keep-append : (p : A → Bool) (xs ys : List A) → keep p (xs ++ ys) ≡ keep p xs ++ keep p ys
  keep-append p [] ys = refl
  keep-append p (x ∷ xs) ys = ground (arith, keep-append p xs ys)

module _ {ℓ} {A : Type ℓ} ⦃e : HasEquality A⦄ where
  -- Python's `x in xs` for a list.
  abbrev pub elem : A → List A → Bool
  elem a [] = false
  elem a (x ∷ xs) = (x == a) || elem a xs

-- Each element has the property.
abbrev pub All {ℓ₀ ℓ₁} : {Item : Type ℓ₀} → (Item → Type ℓ₁) → List Item → Type ℓ₁
All Q [] = Unit
All Q (y ∷ ys) = Q y × All Q ys

pub All-append {ℓ₀ ℓ₁} :
    {Item : Type ℓ₀} (Q : Item → Type ℓ₁) (front back : List Item)
    → All Q front
    → All Q back
    → All Q (front ++ back)
All-append Q [] back q r = r
All-append Q (y ∷ front) back q r = (q.0, All-append Q front back q.1 r)

module _ {ℓ} {A : Type ℓ} where
  unfoldable pub take : ℕ → List A → List A
  take zero xs = []
  take (suc n) [] = []
  take (suc n) (x ∷ xs) = x ∷ take n xs

  unfoldable pub drop : ℕ → List A → List A
  drop zero xs = xs
  drop (suc n) [] = []
  drop (suc n) (x ∷ xs) = drop n xs

  pub take_all : (n : ℕ) (xs : List A) → length xs ≤ n → take n xs ≡ xs
  unfolding take
  take_all zero [] h = refl
  take_all zero (x ∷ xs) h = absurd (omega (arith, h))
  take_all (suc n) [] h = refl
  take_all (suc n) (x ∷ xs) h = ap (λ l. x ∷ l) (take_all n xs (omega (arith, h)))

  pub take_more : (m n : ℕ) (xs : List A) → take m xs ++ take n (drop m xs) ≡ take (m + n) xs
  unfolding take drop
  take_more zero n xs = rw zero-add
  take_more (suc m) zero [] = rw add-zero
  take_more (suc m) (suc n) [] = rw suc-add
  take_more (suc m) n (x ∷ xs) = rw suc-add (ap (λ l. x ∷ l) (take_more m n xs))

  pub drop_more : (m n : ℕ) (xs : List A) → drop n (drop m xs) ≡ drop (m + n) xs
  unfolding drop
  drop_more zero n xs = rw zero-add
  drop_more (suc m) zero [] = rw add-zero
  drop_more (suc m) (suc n) [] = rw suc-add
  drop_more (suc m) n (x ∷ xs) = rw suc-add (drop_more m n xs)
