-- ===== src/Plugins/Compatible.antt =====
-- When a version satisfies another, in app/core/plugins/registry.py.
use korea_public_data_be.Base.{
  ℕ, zero, suc, ◌-◌, ◌<◌, ◌≤◌, true, false, Option, none, some, inl, inr, String, List, [], ◌∷◌,
  ◌++◌, ◌≡◌, ◌≢◌, ◌↔◌, ◌⊎◌, refl, sym, ap, ◌∙◌, subst, arith, true≢false, Bool-cases, length,
  length-append, max, ℤ, pos, eq_int, lt_int, eq_int→eq, eq_int_refl, lt_int_irrefl,
}
use korea_public_data_be.Plugins.Versions.{
  zeros, padded, at_least, ints, compatible_parts, is_version_compatible,
}

-- The i-th number of a version, where what is left out is zero
abbrev pub part : List ℤ → ℕ → ℤ
part [] i = pos 0
part (x ∷ xs) zero = x
part (x ∷ xs) (suc i) = part xs i

-- All numbers are the same, or the first that differs is greater on the left.
abbrev pub Reaches : (ℕ → ℤ) → (ℕ → ℤ) → Type 0
Reaches f g =
    ((i : ℕ) → f i ≡ g i) ⊎ ((i : ℕ) × ((j : ℕ) → j < i → f j ≡ g j) × (lt_int (g i) (f i) ≡ true))

part-zeros : (n i : ℕ) → part (zeros n) i ≡ pos 0
unfolding zeros
part-zeros zero i = refl
part-zeros (suc n) zero = refl
part-zeros (suc n) (suc i) = part-zeros n i

part-append : (n : ℕ) (xs : List ℤ) (i : ℕ) → part (xs ++ zeros n) i ≡ part xs i
part-append n [] i = part-zeros n i
part-append n (x ∷ xs) zero = refl
part-append n (x ∷ xs) (suc i) = part-append n xs i

length-zeros : (n : ℕ) → length (zeros n) ≡ n
unfolding zeros
length-zeros zero = refl
length-zeros (suc n) = omega (arith, length-zeros n)

length-padded : (n : ℕ) (xs : List ℤ) → length xs ≤ n → length (padded n xs) ≡ n
unfolding padded
length-padded n xs h =
    omega (arith, h, length-append xs (zeros (n - length xs)), length-zeros (n - length xs))

abbrev tail : (ℕ → ℤ) → ℕ → ℤ
tail f i = f (suc i)

Reaches-tail : (f g : ℕ → ℤ) → f 0 ≡ g 0 → Reaches (tail f) (tail g) → Reaches f g
Reaches-tail f g same (inl all) = inl each
  where
    each : (i : ℕ) → f i ≡ g i
    each zero = same
    each (suc i) = all i
Reaches-tail f g same (inr (i, before, greater)) = inr (suc i, earlier, greater)
  where
    earlier : (j : ℕ) → j < suc i → f j ≡ g j
    earlier zero h = same
    earlier (suc j) h = before j (omega (arith, h))

tail-Reaches : (f g : ℕ → ℤ) → f 0 ≡ g 0 → Reaches f g → Reaches (tail f) (tail g)
tail-Reaches f g same (inl all) = inl (λ i. all (suc i))
tail-Reaches f g same (inr (zero, before, greater)) =
    absurd (true≢false (sym greater ∙ ap (lt_int (g 0)) same ∙ lt_int_irrefl (g 0)))
tail-Reaches f g same (inr (suc i, before, greater)) =
    inr (i, λ j h. before (suc j) (omega (arith, h)), greater)

unequal : (f g : ℕ → ℤ) → eq_int (f 0) (g 0) ≡ false → f 0 ≢ g 0
unequal f g differs same = true≢false (sym (eq_int_refl (f 0)) ∙ ap (eq_int (f 0)) same ∙ differs)

Reaches-head : (f g : ℕ → ℤ) → eq_int (f 0) (g 0) ≡ false → Reaches f g → lt_int (g 0) (f 0) ≡ true
Reaches-head f g differs (inl all) = absurd (unequal f g differs (all 0))
Reaches-head f g differs (inr (zero, before, greater)) = greater
Reaches-head f g differs (inr (suc i, before, greater)) =
    absurd (unequal f g differs (before 0 (omega arith)))

none-before : (f g : ℕ → ℤ) (j : ℕ) → j < 0 → f j ≡ g j
none-before f g j h = absurd (omega (arith, h))

at_least-Reaches :
    (xs ys : List ℤ) → length xs ≡ length ys → (at_least xs ys ≡ true) ↔ Reaches (part xs) (part ys)
unfolding at_least
at_least-Reaches [] [] h = (λ _. inl (λ i. refl), λ _. refl)
at_least-Reaches [] (y ∷ ys) h = absurd (omega (arith, h))
at_least-Reaches (x ∷ xs) [] h = absurd (omega (arith, h))
at_least-Reaches (x ∷ xs) (y ∷ ys) h = elim (Bool-cases (eq_int x y)) [
  | inl same ↦
      let rest = at_least-Reaches xs ys (omega (arith, h)) in
      let e = eq_int→eq x y same in
      rw same (
        λ r. Reaches-tail (part (x ∷ xs)) (part (y ∷ ys)) e (rest.0 r),
        λ r. rest.1 (tail-Reaches (part (x ∷ xs)) (part (y ∷ ys)) e r),
      )
  | inr differs ↦ rw differs (
    λ r. inr (0, none-before (part (x ∷ xs)) (part (y ∷ ys)), r),
    λ r. Reaches-head (part (x ∷ xs)) (part (y ∷ ys)) differs r,
  )
]

part-padded : (n : ℕ) (xs : List ℤ) → part (padded n xs) ≡ part xs
unfolding padded
part-padded n xs i j = part-append (n - length xs) xs j i

-- What is_version_compatible asks of two versions: the numbers of the first reach those of the second,
-- where both can be read.
abbrev pub Meets : Option (List ℤ) → Option (List ℤ) → Type 0
Meets (some xs) (some ys) = Reaches (part xs) (part ys)
Meets (some xs) none = Unit
Meets none ys = Unit

padded-Reaches :
    (n : ℕ) (xs ys : List ℤ)
    → Reaches (part (padded n xs)) (part (padded n ys)) ≡ Reaches (part xs) (part ys)
padded-Reaches n xs ys i = Reaches (part-padded n xs i) (part-padded n ys i)

compatible_parts-Meets : (xs ys : Option (List ℤ)) → (compatible_parts xs ys ≡ true) ↔ Meets xs ys
unfolding compatible_parts
compatible_parts-Meets none ys = (λ _. tt, λ _. refl)
compatible_parts-Meets (some xs) none = (λ _. tt, λ _. refl)
compatible_parts-Meets (some xs) (some ys) =
    let n = max (length xs) (length ys) in
    subst (λ R. (at_least (padded n xs) (padded n ys) ≡ true) ↔ R) (padded-Reaches n xs ys)
      (at_least-Reaches (padded n xs) (padded n ys)
        (length-padded n xs (omega arith) ∙ sym (length-padded n ys (omega arith))))

-- Two versions are compatible exactly where one of them cannot be read, or the numbers of the first reach
-- those of the second, with zeros for numbers that are left out: none differs, or the first that differs
-- is greater.
pub is_version_compatible-Meets :
    (split : String → List String) (int : String → Option ℤ) (available required : String)
    → (is_version_compatible split int available required ≡ true)
      ↔ Meets (ints int (split available)) (ints int (split required))
unfolding is_version_compatible
is_version_compatible-Meets split int available required =
    compatible_parts-Meets (ints int (split available)) (ints int (split required))
