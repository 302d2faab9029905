-- ===== src/Classification/Edits.antt =====
-- Sequences of edits between two texts, and the least number of edits by recursion: the reference for
-- _simple_edit_distance of app/shared/classification/validators.py.
use mathlib.Core.List.{reverse, reverse_aux}
use korea_public_data_be.Base.{
  ℕ, suc, ◌+◌, ◌≤◌, ◌≡◌, ◌⊎◌, Bool-cases, inl, inr, refl, ◌∙◌, leb, sym, subst, List, [], ◌∷◌,
  arith, length, min, HasEquality, ◌==◌, equals-eq, equals_refl,
}
use korea_public_data_be.Classification.EditDistance.{cost}

-- n edits make the second text of the first: characters are kept, put in, left out or replaced.
pub data Edits {A : Type 0} : List A → List A → ℕ → Type 0 where
  done : Edits [] [] 0
  retained : (x : A) {xs ys : List A} {n : ℕ} → Edits xs ys n → Edits (x ∷ xs) (x ∷ ys) n
  inserted : (y : A) {xs ys : List A} {n : ℕ} → Edits xs ys n → Edits xs (y ∷ ys) (suc n)
  deleted : (x : A) {xs ys : List A} {n : ℕ} → Edits xs ys n → Edits (x ∷ xs) ys (suc n)
  replaced : (x y : A) {xs ys : List A} {n : ℕ} → Edits xs ys n → Edits (x ∷ xs) (y ∷ ys) (suc n)

least_of_two : (a b : ℕ) → (min a b ≡ a) ⊎ (min a b ≡ b)
least_of_two a b = elim (Bool-cases (leb a b)) [
  | inl l ↦ inl (ground arith)
  | inr g ↦ inr (ground arith)
]

least_of_three : (a b c : ℕ) → (min (min a b) c ≡ a) ⊎ (min (min a b) c ≡ b) ⊎ (min (min a b) c ≡ c)
least_of_three a b c = elim (least_of_two (min a b) c) [
  | inl l ↦ elim (least_of_two a b) [ inl k ↦ inl (l ∙ k) | inr k ↦ inr (inl (l ∙ k)) ]
  | inr l ↦ inr (inr l)
]

module _ {A : Type 0} where
  counted : {xs ys : List A} {m n : ℕ} → m ≡ n → Edits xs ys m → Edits xs ys n
  counted {xs} {ys} same s = subst (Edits xs ys) same s

  pub inverted : {xs ys : List A} {n : ℕ} → Edits xs ys n → Edits ys xs n
  inverted done = done
  inverted (retained x s) = retained x (inverted s)
  inverted (inserted y s) = deleted y (inverted s)
  inverted (deleted x s) = inserted x (inverted s)
  inverted (replaced x y s) = replaced y x (inverted s)

module _ {A : Type 0} ⦃e : HasEquality A⦄ where
  unfoldable pub least : List A → List A → ℕ
  least [] ys = length ys
  least (x ∷ xs) [] = suc (length xs)
  least (x ∷ xs) (y ∷ ys) =
      min (min (least xs (y ∷ ys) + 1) (least (x ∷ xs) ys + 1)) (least xs ys + cost x y)

  pub least_nil : (xs : List A) → least xs [] ≡ length xs
  unfolding least
  least_nil [] = refl
  least_nil (x ∷ xs) = refl

  least_inserted : (xs ys : List A) (y : A) → least xs (y ∷ ys) ≤ suc (least xs ys)
  unfolding least
  least_inserted [] ys y = omega arith
  least_inserted (x ∷ xs) ys y = omega arith

  least_deleted : (xs ys : List A) (x : A) → least (x ∷ xs) ys ≤ suc (least xs ys)
  unfolding least
  least_deleted xs [] x = omega (arith, least_nil xs)
  least_deleted xs (y ∷ ys) x = omega arith

  pub least-le : {xs ys : List A} {n : ℕ} → Edits xs ys n → least xs ys ≤ n
  unfolding least
  least-le done = omega arith
  least-le (retained x s) = ground (arith, least-le s, equals_refl x)
  least-le (inserted y {xs} {ys} s) = omega (arith, least-le s, least_inserted xs ys y)
  least-le (deleted x {xs} {ys} s) = omega (arith, least-le s, least_deleted xs ys x)
  least-le (replaced x y s) = ground (arith, least-le s)

  kept_or_replaced :
      (x y : A) {xs ys : List A} {n : ℕ} → Edits xs ys n → Edits (x ∷ xs) (y ∷ ys) (n + cost x y)
  kept_or_replaced x y {xs} {ys} {n} s = elim (Bool-cases (x == y)) [
    | inl same ↦ rw same (
        subst (λ z. Edits (x ∷ xs) (z ∷ ys) (n + 0)) (equals-eq same)
          (counted (omega arith) (retained x s)))
    | inr other ↦ rw other (counted (omega arith) (replaced x y s))
  ]

  pub least-Edits : (xs ys : List A) → Edits xs ys (least xs ys)
  unfolding least
  least-Edits [] [] = done
  least-Edits [] (y ∷ ys) = inserted y (least-Edits [] ys)
  least-Edits (x ∷ xs) [] = deleted x (counted (least_nil xs) (least-Edits xs []))
  least-Edits (x ∷ xs) (y ∷ ys) =
      let s = least-Edits xs (y ∷ ys) in
      let t = least-Edits (x ∷ xs) ys in
      let u = least-Edits xs ys in
      elim (least_of_three (least xs (y ∷ ys) + 1) (least (x ∷ xs) ys + 1)
        (least xs ys + cost x y)) [
          | inl a ↦ counted (omega (arith, a)) (deleted x s)
          | inr (inl b) ↦ counted (omega (arith, b)) (inserted y t)
          | inr (inr c) ↦ counted (sym c) (kept_or_replaced x y u)
        ]

-- The edits turned round, before others
reversed :
    {A : Type 0} {xs ys xs' ys' : List A} {m n : ℕ}
    → Edits xs ys m
    → Edits xs' ys' n
    → Edits (reverse_aux xs xs') (reverse_aux ys ys') (m + n)
reversed done t = counted (omega arith) t
reversed (retained x s) t = reversed s (retained x t)
reversed (inserted y s) t = counted (omega arith) (reversed s (inserted y t))
reversed (deleted x s) t = counted (omega arith) (reversed s (deleted x t))
reversed (replaced x y s) t = counted (omega arith) (reversed s (replaced x y t))

pub Edits-reverse :
    {A : Type 0} {xs ys : List A} {n : ℕ} → Edits xs ys n → Edits (reverse xs) (reverse ys) n
Edits-reverse s = counted (omega arith) (reversed s done)
