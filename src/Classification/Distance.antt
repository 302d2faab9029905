-- ===== src/Classification/Distance.antt =====
-- _simple_edit_distance of app/shared/classification/validators.py gives the least number of edits.
use mathlib.Core.List.{reverse, reverse_aux, reverse-reverse}
use korea_public_data_be.Base.{
  ℕ, suc, ◌≤◌, ◌≡◌, refl, sym, ap, subst, ◌∙◌, Bool-cases, inl, inr, ltb, List, [], ◌∷◌, length,
  HasEquality,
}
use korea_public_data_be.Classification.EditDistance.{
  last, range, fill_row, fill_rows, distance_by_rows, simple_edit_distance,
}
use korea_public_data_be.Classification.Edits.{
  Edits, inverted, least, least_nil, least-le, least-Edits, Edits-reverse,
}

-- A number of edits that suffices, and fewer do not
abbrev pub IsLeast : {A : Type 0} → List A → List A → ℕ → Type 0
IsLeast xs ys d = Edits xs ys d × ((n : ℕ) → Edits xs ys n → d ≤ n)

IsLeast-inverted : {A : Type 0} (xs ys : List A) (d : ℕ) → IsLeast xs ys d → IsLeast ys xs d
IsLeast-inverted xs ys d l = (inverted l.0, λ n s. l.1 n (inverted s))

IsLeast-reverse :
    {A : Type 0} (xs ys : List A) (d : ℕ) → IsLeast (reverse xs) (reverse ys) d → IsLeast xs ys d
IsLeast-reverse xs ys d l = (
  subst (λ zs. Edits zs ys d) (reverse-reverse xs)
      (subst (λ zs. Edits (reverse (reverse xs)) zs d) (reverse-reverse ys) (Edits-reverse l.0)),
  λ n s. l.1 n (Edits-reverse s),
)

module _ {A : Type 0} ⦃e : HasEquality A⦄ where
  least-IsLeast : (xs ys : List A) → IsLeast xs ys (least xs ys)
  least-IsLeast xs ys = (least-Edits xs ys, λ n s. least-le s)

  -- The row of the prefix r of s1, from the prefix q of s2 on, the prefixes in reverse order
  abbrev later : List A → List A → List A → List ℕ
  later r q [] = []
  later r q (c ∷ cs) = least r (c ∷ q) ∷ later r (c ∷ q) cs

  range-later : (q s2 : List A) → range (length q) (length s2) ≡ length q ∷ later [] q s2
  unfolding range least
  range-later q [] = refl
  range-later q (c ∷ s2) = ap (λ ns. length q ∷ ns) (range-later (c ∷ q) s2)

  fill_row-later :
      (c : A) (r q s2 : List A)
      → fill_row c (least r q ∷ later r q s2) (least (c ∷ r) q) s2 ≡ later (c ∷ r) q s2
  unfolding fill_row least
  fill_row-later c r q [] = refl
  fill_row-later c r q (d ∷ s2) =
      ap (λ ns. least (c ∷ r) (d ∷ q) ∷ ns) (fill_row-later c r (d ∷ q) s2)

  fill_rows-later :
      (s1 r s2 : List A)
      → fill_rows (length r) (least r [] ∷ later r [] s2) s1 s2
        ≡ least (reverse_aux s1 r) [] ∷ later (reverse_aux s1 r) [] s2
  unfolding fill_rows least
  fill_rows-later [] r s2 = refl
  fill_rows-later (c ∷ s1) r s2 =
      ap (λ ns. fill_rows (suc (length r)) (suc (length r) ∷ ns) s1 s2) (fill_row-later c r [] s2)
      ∙ fill_rows-later s1 (c ∷ r) s2

  last-later : (r q s2 : List A) → last (least r q) (later r q s2) ≡ least r (reverse_aux s2 q)
  unfolding last
  last-later r q [] = refl
  last-later r q (c ∷ s2) = last-later r (c ∷ q) s2

  distance_by_rows-IsLeast : (s1 s2 : List A) → IsLeast s1 s2 (distance_by_rows s1 s2)
  unfolding distance_by_rows least
  distance_by_rows-IsLeast s1 [] = subst (IsLeast s1 []) (least_nil s1) (least-IsLeast s1 [])
  distance_by_rows-IsLeast s1 (c ∷ s2) =
      let rows =
        ap (λ row. last 0 (fill_rows 0 row s1 (c ∷ s2))) (range-later [] (c ∷ s2))
        ∙ ap (last 0) (fill_rows-later s1 [] (c ∷ s2))
        ∙ last-later (reverse s1) [] (c ∷ s2) in
      IsLeast-reverse s1 (c ∷ s2) (distance_by_rows s1 (c ∷ s2)) (
        subst (IsLeast (reverse s1) (reverse (c ∷ s2))) (sym rows)
          (least-IsLeast (reverse s1) (reverse (c ∷ s2))))

  -- The number that is computed of edits suffices to make the second text of the first, and fewer do not.
  pub simple_edit_distance-IsLeast : (s1 s2 : List A) → IsLeast s1 s2 (simple_edit_distance s1 s2)
  unfolding simple_edit_distance
  simple_edit_distance-IsLeast s1 s2 = elim (Bool-cases (ltb (length s1) (length s2))) [
    | inl shorter ↦
        rw shorter
          (IsLeast-inverted s2 s1 (distance_by_rows s2 s1) (distance_by_rows-IsLeast s2 s1))
    | inr longer ↦ rw longer (distance_by_rows-IsLeast s1 s2)
  ]
