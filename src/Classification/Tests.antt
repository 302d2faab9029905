-- ===== src/Classification/Tests.antt =====
-- Codes with typing errors, by app/shared/classification/validators.py; the theorems applied.
use korea_public_data_be.Base.{
  ℕ, Bool, true, false, ◌&&◌, ◌||◌, ◌⊎◌, ◌≡◌, refl, arith, some, List, [], ◌∷◌, ◌==◌, leb,
  if◌then◌else◌, take, elem, string_eq, nat_eq,
}
use korea_public_data_be.Classification.EditDistance.{simple_edit_distance, distance_by_rows}
use korea_public_data_be.Classification.Edits.{Edits, done, retained, inserted, replaced}
use korea_public_data_be.Classification.Distance.{IsLeast, simple_edit_distance-IsLeast}
use korea_public_data_be.Classification.Codes.{
  PythonText, business_codes, content_codes, business_category, content_category, characters,
  unmarked,
}
use korea_public_data_be.Classification.Business
use korea_public_data_be.Classification.Content
use korea_public_data_be.Classification.Unified
use korea_public_data_be.Classification.Verdicts.{Recognises, validate-verdict}
use korea_public_data_be.Classification.Near.{get_suggestions_near}

abbrev begins : List ℕ → List ℕ → Bool
begins xs [] = true
begins [] (y ∷ ys) = false
begins (x ∷ xs) (y ∷ ys) = x == y && begins xs ys

abbrev holds : List ℕ → List ℕ → Bool
holds ys [] = begins [] ys
holds ys (x ∷ xs) = begins (x ∷ xs) ys || holds ys xs

-- Texts of ASCII letters; one text is in capital letters.
abbrev ascii : PythonText
ascii = record {
  lower = λ t. if t == "NOTICE_MATR" then "notice_matr" else t;
  starts_with = λ t p. begins (characters t) (characters p);
  contains = λ part whole. holds (characters part) (characters whole);
  is_digit = λ c. leb 48 c && leb c 57;
  matches_business = λ t. elem t business_codes;
}

ascii-Recognises : Recognises ascii
ascii-Recognises = (
  (
    (refl, refl),
    (
      (refl, refl),
      (
        (refl, refl),
        (
          (refl, refl),
          ((refl, refl), ((refl, refl), ((refl, refl), ((refl, refl), ((refl, refl), tt))))),
        ),
      ),
    ),
  ),
  (refl, (refl, (refl, tt))),
)

kitten : simple_edit_distance (characters "kitten") (characters "sitting") ≡ 3
unfolding simple_edit_distance distance_by_rows
kitten = refl

simple_edit_distance-IsLeast_example :
    IsLeast
      (characters "notice")
      (characters "notise")
      (simple_edit_distance (characters "notice") (characters "notise"))
simple_edit_distance-IsLeast_example =
    simple_edit_distance-IsLeast (characters "notice") (characters "notise")

suggested :
    Business.get_suggestions ascii "tab12" ≡ "cmrczn_tab1" ∷ "cmrczn_tab2" ∷ "cmrczn_tab6" ∷ []
unfolding Business.get_suggestions Business.found_suggestions take
suggested = refl

-- A letter is missing, and another is wrong.
misspelt : Edits (characters "notis_matr") (characters "notice_matr") 2
misspelt = retained b'n' (
    retained b'o' (
      retained b't' (
        retained b'i' (
          replaced b's' b'c' (
            inserted b'e' (
              retained b'_'
                (retained b'm' (retained b'a' (retained b't' (retained b'r' done))))))))))

get_suggestions_near_example :
    elem "notice_matr" (Content.get_suggestions ascii "notis_matr") ≡ true
get_suggestions_near_example =
    get_suggestions_near ascii "notis_matr" "notice_matr" 2 refl misspelt (omega arith)

validate-verdict_example :
    ((elem "fnd_scs_case" business_codes ≡ true)
      × (Unified.validate ascii "fnd_scs_case" ≡ unmarked "fnd_scs_case" business_category)
      × (Unified.detect_code_type ascii "fnd_scs_case" ≡ some business_category))
    ⊎ ((elem "fnd_scs_case" content_codes ≡ true)
        × (Unified.validate ascii "fnd_scs_case" ≡ unmarked "fnd_scs_case" content_category)
        × (Unified.detect_code_type ascii "fnd_scs_case" ≡ some content_category))
    ⊎ ((elem "fnd_scs_case" business_codes ≡ false)
        × (elem "fnd_scs_case" content_codes ≡ false)
        × ((Unified.validate ascii "fnd_scs_case").is_valid ≡ false))
validate-verdict_example = validate-verdict ascii ascii-Recognises "fnd_scs_case"
