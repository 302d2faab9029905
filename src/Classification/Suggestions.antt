-- ===== src/Classification/Suggestions.antt =====
-- What the validators of app/shared/classification/validators.py suggest.
use korea_public_data_be.Base.{
  ℕ, zero, suc, ◌≤◌, Bool, true, false, ◌&&◌, ◌||◌, ◌≡◌, refl, arith, String, List, [], ◌∷◌, ◌++◌,
  ◌==◌, eqb, if◌then◌else◌, All, All-append, length, keep, take, elem, format, string_eq, nat_eq,
}
use korea_public_data_be.Classification.Codes.{
  business_codes, characters, PythonText, add_new, unique_from,
}
use korea_public_data_be.Classification.Business

-- All of a list are valid codes.
abbrev pub Among : List String → List String → Type 0
Among codes xs = All (λ x. elem x codes ≡ true) xs

either-Among :
    (test : Bool) (codes xs ys : List String)
    → (test ≡ true → Among codes xs)
    → Among codes ys
    → Among codes (if test then xs else ys)
either-Among true codes xs ys h k = h refl
either-Among false codes xs ys h k = k

add_new-Among :
    (codes xs : List String) (x : String)
    → elem x codes ≡ true
    → Among codes xs
    → Among codes (add_new x xs)
add_new-Among codes xs x h a =
    either-Among (elem x xs) codes xs (xs ++ (x ∷ [])) (λ _. a) (All-append _ xs (x ∷ []) a (h, tt))

unique_from-Among :
    (codes seen xs : List String)
    → Among codes seen
    → Among codes xs
    → Among codes (unique_from seen xs)
unfolding unique_from
unique_from-Among codes seen [] s a = s
unique_from-Among codes seen (x ∷ xs) s a =
    unique_from-Among codes (add_new x seen) xs (add_new-Among codes seen x a.0 s) a.1

keep-Among :
    (codes : List String) (test : String → Bool) (xs : List String)
    → Among codes xs
    → Among codes (keep test xs)
keep-Among codes test [] a = tt
keep-Among codes test (x ∷ xs) a =
    either-Among (test x) codes (x ∷ keep test xs) (keep test xs)
      (λ _. (a.0, keep-Among codes test xs a.1)) (keep-Among codes test xs a.1)

take-Among :
    (codes : List String) (n : ℕ) (xs : List String) → Among codes xs → Among codes (take n xs)
unfolding take
take-Among codes zero xs a = tt
take-Among codes (suc n) [] a = tt
take-Among codes (suc n) (x ∷ xs) a = (a.0, take-Among codes n xs a.1)

length-take-le : (n : ℕ) (xs : List String) → length (take n xs) ≤ n
unfolding take
length-take-le zero xs = omega arith
length-take-le (suc n) [] = omega arith
length-take-le (suc n) (x ∷ xs) = omega (arith, length-take-le n xs)

module _ (py : PythonText) where
  open py use {lower, starts_with, contains}

  add_candidates-Among :
      (code : String) (cs xs : List String)
      → Among business_codes cs
      → Among business_codes xs
      → Among business_codes (Business.add_candidates py code cs xs)
  unfolding Business.add_candidates
  add_candidates-Among code [] xs a b = b
  add_candidates-Among code (c ∷ cs) xs a b =
      add_candidates-Among code cs (if c == code then xs else add_new c xs) a.1 (
        either-Among (c == code) business_codes xs (add_new c xs) (λ _. b)
          (add_new-Among business_codes xs c a.0 b))

  business_found-Among : (code : String) → Among business_codes (Business.found_suggestions py code)
  unfolding Business.found_suggestions format
  business_found-Among code =
      let exact = if elem code business_codes then code ∷ [] else [] in
      let partial = keep (λ c. contains c code || contains code c) business_codes in
      let known : Among business_codes business_codes =
        (refl, (refl, (refl, (refl, (refl, (refl, (refl, (refl, (refl, tt))))))))) in
      let both : Among business_codes (exact ++ partial) =
        All-append _ exact partial
          (either-Among (elem code business_codes) business_codes (code ∷ []) [] (λ h. (h, tt)) tt)
          (keep-Among business_codes (λ c. contains c code || contains code c) business_codes
            known) in
      either-Among (starts_with code "cmrczn_tab" && eqb (length (characters code)) 11)
        business_codes (Business.add_candidates py code Business.candidates (exact ++ partial))
        (exact ++ partial)
        (λ _. add_candidates-Among code Business.candidates (exact ++ partial) known both) both

  or_common-Among :
      (xs : List String)
      → Among business_codes xs
      → length xs ≤ 5
      → Among business_codes (Business.or_common xs)
        × (1 ≤ length (Business.or_common xs))
        × (length (Business.or_common xs) ≤ 5)
  or_common-Among [] a h = ((refl, (refl, (refl, tt))), omega arith, omega arith)
  or_common-Among (x ∷ xs) a h = (a, omega arith, h)

  -- For every text from one to five codes are suggested, all of them valid business codes.
  pub get_suggestions-Among :
      (code : String)
      → Among business_codes (Business.get_suggestions py code)
        × (1 ≤ length (Business.get_suggestions py code))
        × (length (Business.get_suggestions py code) ≤ 5)
  unfolding Business.get_suggestions
  get_suggestions-Among code =
      let found = unique_from [] (Business.found_suggestions py (lower code)) in
      or_common-Among (take 5 found)
        (take-Among business_codes 5 found (
          unique_from-Among business_codes [] (Business.found_suggestions py (lower code)) tt
            (business_found-Among (lower code))))
        (length-take-le 5 found)
