-- ===== src/Classification/Unified.antt =====
-- UnifiedClassificationValidator of app/shared/classification/validators.py.
use korea_public_data_be.Base.{
  false, ◌||◌, Option, none, some, String, List, [], ◌∷◌, map, ◌==◌, if◌then◌else◌, format,
  string_eq, nat_eq,
}
use korea_public_data_be.Classification.Codes.{
  ValidationResult, add_errors, add_suggestions, business_category, content_category, PythonText,
}
use korea_public_data_be.Classification.Business
use korea_public_data_be.Classification.Content

-- A result of no type, before errors are added
abbrev pub unknown : String → List String → ValidationResult
unknown code errors = record {
  code = code;
  is_valid = false;
  validation_errors = errors;
  suggestions = [];
  code_type = none;
}

unfoldable pub combined : String → ValidationResult → ValidationResult → ValidationResult
unfolding add_errors add_suggestions
combined code business content =
    add_suggestions (map (λ s. format ("Content: " ∷ s ∷ [])) content.suggestions) (
      add_suggestions (map (λ s. format ("Business: " ∷ s ∷ [])) business.suggestions) (
        add_errors (map (λ e. format ("Content category: " ∷ e ∷ [])) content.validation_errors) (
          add_errors (map (λ e. format ("Business category: " ∷ e ∷ [])) business.validation_errors)
            (unknown code []))))

module _ (py : PythonText) where
  open py use {starts_with, contains}

  unfoldable pub validate : String → ValidationResult
  validate code =
      if code == ""
      then unknown code ("Code cannot be empty or non-string" ∷ [])
      else if (Business.validate py code).is_valid
      then Business.validate py code
      else if (Content.validate py code).is_valid
      then Content.validate py code
      else combined code (Business.validate py code) (Content.validate py code)

  unfoldable pub detect_code_type : String → Option String
  detect_code_type code =
      if code == ""
      then none
      else if (Business.validate py code).is_valid
      then some business_category
      else if (Content.validate py code).is_valid
      then some content_category
      else if starts_with code "cmrczn_tab"
      then some business_category
      else if contains "notice" code
          || contains "case" code
          || contains "trend" code
          || contains "issue" code
      then some content_category
      else none
