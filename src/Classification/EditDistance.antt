-- ===== src/Classification/EditDistance.antt =====
-- _simple_edit_distance of app/shared/classification/validators.py, on the characters of two texts.
use korea_public_data_be.Base.{
  ℕ, zero, suc, ◌+◌, List, [], ◌∷◌, ltb, if◌then◌else◌, length, min, HasEquality, ◌==◌,
}

-- The last number of a row, `row[-1]`; rows are not empty.
unfoldable pub last : ℕ → List ℕ → ℕ
last n [] = n
last n (m ∷ ms) = last m ms

-- `list(range(i, i + n + 1))`
unfoldable pub range : ℕ → ℕ → List ℕ
range i zero = i ∷ []
range i (suc n) = i ∷ range (suc i) n

module _ {A : Type 0} ⦃e : HasEquality A⦄ where
  -- What a substitution costs: `c1 != c2` as a number
  abbrev pub cost : A → A → ℕ
  cost c1 c2 = if c1 == c2 then 0 else 1

  -- The loop over s2: `row` is previous_row from j on, and `left` is current_row[j].
  unfoldable pub fill_row : A → List ℕ → ℕ → List A → List ℕ
  fill_row c1 row left [] = []
  fill_row c1 [] left (c2 ∷ s2) = []
  fill_row c1 (diagonal ∷ []) left (c2 ∷ s2) = []
  fill_row c1 (diagonal ∷ above ∷ row) left (c2 ∷ s2) =
      let cell = min (min (above + 1) (left + 1)) (diagonal + cost c1 c2) in
      cell ∷ fill_row c1 (above ∷ row) cell s2

  -- The loop over s1
  unfoldable pub fill_rows : ℕ → List ℕ → List A → List A → List ℕ
  unfolding fill_row
  fill_rows i row [] s2 = row
  fill_rows i row (c1 ∷ s1) s2 = fill_rows (suc i) (suc i ∷ fill_row c1 row (suc i) s2) s1 s2

  unfoldable pub distance_by_rows : List A → List A → ℕ
  unfolding fill_rows range last
  distance_by_rows s1 [] = length s1
  distance_by_rows s1 (c2 ∷ s2) = last 0 (fill_rows 0 (range 0 (length (c2 ∷ s2))) s1 (c2 ∷ s2))

  unfoldable pub simple_edit_distance : List A → List A → ℕ
  unfolding distance_by_rows
  simple_edit_distance s1 s2 =
      if ltb (length s1) (length s2) then distance_by_rows s2 s1 else distance_by_rows s1 s2
