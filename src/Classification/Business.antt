-- ===== src/Classification/Business.antt =====
-- BusinessCategoryValidator of app/shared/classification/validators.py. A code is a text: what the source
-- does with other objects is not modelled.
use korea_public_data_be.Base.{
  ℕ, not, ◌&&◌, ◌||◌, Option, none, some, String, List, [], ◌∷◌, ◌++◌, map, ◌==◌, leb, eqb,
  if◌then◌else◌, length, keep, take, elem, format, string_eq, nat_eq,
}
use korea_public_data_be.Dict
use korea_public_data_be.Dict.{Dict}
use korea_public_data_be.Classification.Codes.{
  ValidationResult, add_error, add_suggestion, add_suggestions, business_category, business_codes,
  characters, PythonText, unmarked, add_new, unique_from,
}

-- `code[-1]`
abbrev pub last_character : List ℕ → Option ℕ
last_character [] = none
last_character (c ∷ []) = some c
last_character (c ∷ d ∷ cs) = last_character (d ∷ cs)

abbrev pub candidates : List String
candidates =
    map (λ i. format ("cmrczn_tab" ∷ i ∷ []))
      ("1" ∷ "2" ∷ "3" ∷ "4" ∷ "5" ∷ "6" ∷ "7" ∷ "8" ∷ "9" ∷ [])

abbrev pub or_common : List String → List String
or_common [] = "cmrczn_tab1" ∷ "cmrczn_tab2" ∷ "cmrczn_tab6" ∷ []
or_common (s ∷ ss) = s ∷ ss

module _ (py : PythonText) where
  open py use {lower, starts_with, contains, is_digit, matches_business}

  -- The loop over the numbers of codes
  unfoldable pub add_candidates : String → List String → List String → List String
  add_candidates lower_code [] suggestions = suggestions
  add_candidates lower_code (c ∷ cs) suggestions =
      add_candidates lower_code cs (if c == lower_code then suggestions else add_new c suggestions)

  unfoldable pub found_suggestions : String → List String
  unfolding add_candidates
  found_suggestions lower_code =
      let exact = if elem lower_code business_codes then lower_code ∷ [] else [] in
      let partial = keep (λ c. contains c lower_code || contains lower_code c) business_codes in
      if starts_with lower_code "cmrczn_tab" && eqb (length (characters lower_code)) 11
      then add_candidates lower_code candidates (exact ++ partial)
      else exact ++ partial

  unfoldable pub get_suggestions : String → List String
  unfolding found_suggestions unique_from
  get_suggestions code = or_common (take 5 (unique_from [] (found_suggestions (lower code))))

  -- The checks of the last character: 49 and 57 are '1' and '9'.
  unfoldable pub check_last : Option ℕ → ValidationResult → ValidationResult
  unfolding add_error
  check_last none r = r
  check_last (some c) r =
      if not (is_digit c)
      then add_error "Code must end with a digit" r
      else if not (leb 49 c && leb c 57)
      then add_error "Code must end with a digit between 1-9" r
      else r

  unfoldable pub check_prefix : String → ValidationResult → ValidationResult
  unfolding add_error
  check_prefix code r =
      if not (starts_with code "cmrczn_tab")
      then add_error "Code must start with 'cmrczn_tab'" r
      else r

  unfoldable pub check_ending : String → ValidationResult → ValidationResult
  unfolding check_last
  check_ending code r =
      if starts_with code "cmrczn_tab" && eqb (length (characters code)) 11
      then check_last (last_character (characters code)) r
      else r

  unfoldable pub check_format : String → ValidationResult → ValidationResult
  unfolding check_ending check_prefix
  check_format code r =
      if not (matches_business code)
      then check_ending code
          (check_prefix code (add_error "Code must follow format 'cmrczn_tab[1-9]'" r))
      else r

  unfoldable pub check_known : String → ValidationResult → ValidationResult
  unfolding add_suggestions get_suggestions
  check_known code r =
      if not (elem code business_codes)
      then add_suggestions (get_suggestions code)
          (add_error (format ("Code '" ∷ code ∷ "' is not a valid business category code" ∷ [])) r)
      else r

  unfoldable pub check_case : String → ValidationResult → ValidationResult
  unfolding add_error add_suggestion
  check_case code r =
      if not (code == lower code)
      then add_suggestion (lower code) (add_error "Code must be lowercase" r)
      else r

  unfoldable pub validate : String → ValidationResult
  unfolding check_format check_known check_case
  validate code =
      if code == ""
      then add_error "Code cannot be empty" (unmarked code business_category)
      else check_case code (check_known code (check_format code (unmarked code business_category)))

  -- What get_code_info gives of a valid code, `info` of the enumeration
  unfoldable pub get_code_info : {I : Type 0} → (String → I) → String → Option I
  unfolding validate
  get_code_info info code = if not (validate code).is_valid then none else some (info code)

  validate_from : Dict String ValidationResult → List String → Dict String ValidationResult
  unfolding validate
  validate_from results [] = results
  validate_from results (c ∷ cs) = validate_from (Dict.put results c (validate c)) cs

  unfoldable pub validate_multiple : List String → Dict String ValidationResult
  unfolding validate_from
  validate_multiple codes = validate_from [] codes
