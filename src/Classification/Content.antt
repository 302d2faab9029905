-- ===== src/Classification/Content.antt =====
-- ContentCategoryValidator of app/shared/classification/validators.py. A code is a text: what the source
-- does with other objects is not modelled.
use korea_public_data_be.Base.{
  not, String, List, [], ◌∷◌, ◌==◌, leb, if◌then◌else◌, take, elem, format, string_eq, nat_eq,
}
use korea_public_data_be.Classification.EditDistance.{simple_edit_distance}
use korea_public_data_be.Classification.Codes.{
  ValidationResult, add_error, add_suggestion, add_suggestions, content_category, content_codes,
  characters, PythonText, unmarked, add_new,
}

-- keyword_mapping
abbrev pub keyword_mapping : List (String × String)
keyword_mapping =
    ("notice", "notice_matr")
    ∷ ("policy", "notice_matr")
    ∷ ("정책", "notice_matr")
    ∷ ("공지", "notice_matr")
    ∷ ("case", "fnd_scs_case")
    ∷ ("success", "fnd_scs_case")
    ∷ ("사례", "fnd_scs_case")
    ∷ ("성공", "fnd_scs_case")
    ∷ ("trend", "kstartup_isse_trd")
    ∷ ("issue", "kstartup_isse_trd")
    ∷ ("ecosystem", "kstartup_isse_trd")
    ∷ ("동향", "kstartup_isse_trd")
    ∷ ("트렌드", "kstartup_isse_trd")
    ∷ ("생태계", "kstartup_isse_trd")
    ∷ []

abbrev pub or_all : List String → List String
or_all [] = content_codes
or_all (s ∷ ss) = s ∷ ss

-- The loop over the valid codes, by their edit distance
unfoldable pub add_near : String → List String → List String → List String
unfolding simple_edit_distance
add_near lower_code [] suggestions = suggestions
add_near lower_code (c ∷ cs) suggestions = add_near lower_code cs (
    if leb (simple_edit_distance (characters lower_code) (characters c)) 2
    then add_new c suggestions
    else suggestions)

module _ (py : PythonText) where
  open py use {lower, contains}

  -- The loop over the keywords
  unfoldable pub add_by_keyword : String → List (String × String) → List String → List String
  add_by_keyword lower_code [] suggestions = suggestions
  add_by_keyword lower_code ((keyword, valid_code) ∷ rest) suggestions =
      add_by_keyword lower_code rest (
        if contains (lower keyword) lower_code then add_new valid_code suggestions else suggestions)

  unfoldable pub found_suggestions : String → List String
  unfolding add_by_keyword add_near
  found_suggestions lower_code = add_near lower_code content_codes (
      add_by_keyword lower_code keyword_mapping
        (if elem lower_code content_codes then lower_code ∷ [] else []))

  unfoldable pub get_suggestions : String → List String
  unfolding found_suggestions
  get_suggestions code = take 3 (or_all (found_suggestions (lower code)))

  unfoldable pub check_known : String → ValidationResult → ValidationResult
  unfolding add_suggestions get_suggestions
  check_known code r =
      if not (elem code content_codes)
      then add_suggestions (get_suggestions code)
          (add_error (format ("Code '" ∷ code ∷ "' is not a valid content category code" ∷ [])) r)
      else r

  unfoldable pub check_case : String → ValidationResult → ValidationResult
  unfolding add_error add_suggestion
  check_case code r =
      if not (code == lower code)
      then add_suggestion (lower code) (add_error "Code must be lowercase" r)
      else r

  unfoldable pub validate : String → ValidationResult
  unfolding check_known check_case
  validate code =
      if code == ""
      then add_error "Code cannot be empty" (unmarked code content_category)
      else check_case code (check_known code (unmarked code content_category))
