-- ===== src/Classification/Codes.antt =====
-- ClassificationCodeValidationResult of app/shared/classification/models.py, and the codes of enums.py.
use Prim.Native.Char.{code as code_point}
use korea_public_data_be.Base.{
  ℕ, Bool, true, false, Option, some, String, List, [], ◌∷◌, ◌++◌, if◌then◌else◌, elem, string_eq,
}

pub record ValidationResult : Type 0 where
  pub code : String
  pub is_valid : Bool
  pub validation_errors : List String
  pub suggestions : List String
  pub code_type : Option String

unfoldable pub add_error : String → ValidationResult → ValidationResult
add_error error r =
    if elem error r.validation_errors
    then r
    else record r { validation_errors = r.validation_errors ++ (error ∷ []); is_valid = false }

unfoldable pub add_suggestion : String → ValidationResult → ValidationResult
add_suggestion suggestion r =
    if elem suggestion r.suggestions
    then r
    else record r { suggestions = r.suggestions ++ (suggestion ∷ []) }

-- The loops `for x in xs` that add
unfoldable pub add_errors : List String → ValidationResult → ValidationResult
unfolding add_error
add_errors [] r = r
add_errors (e ∷ es) r = add_errors es (add_error e r)

unfoldable pub add_suggestions : List String → ValidationResult → ValidationResult
unfolding add_suggestion
add_suggestions [] r = r
add_suggestions (s ∷ ss) r = add_suggestions ss (add_suggestion s r)

abbrev pub business_category : String
business_category = "business_category"

abbrev pub content_category : String
content_category = "content_category"

-- BusinessCategory.get_all_codes
abbrev pub business_codes : List String
business_codes =
    "cmrczn_tab1" ∷ "cmrczn_tab2" ∷ "cmrczn_tab3" ∷ "cmrczn_tab4" ∷ "cmrczn_tab5" ∷ "cmrczn_tab6"
    ∷ "cmrczn_tab7" ∷ "cmrczn_tab8" ∷ "cmrczn_tab9" ∷ []

-- ContentCategory.get_all_codes
abbrev pub content_codes : List String
content_codes = "notice_matr" ∷ "fnd_scs_case" ∷ "kstartup_isse_trd" ∷ []

-- The characters of a text
abbrev pub characters : String → List ℕ
characters String.[] = []
characters (String.◌∷◌ c s) = code_point c ∷ characters s

-- Python's methods of texts that the validators call, and the regular expression of a business code
pub record PythonText : Type 0 where
  pub lower : String → String
  pub starts_with : String → String → Bool  -- the text, then the prefix
  pub contains : String → String → Bool  -- `part in whole`: the part, then the whole
  pub is_digit : ℕ → Bool
  pub matches_business : String → Bool

-- A result before the checks of the code
abbrev pub unmarked : String → String → ValidationResult
unmarked code type = record {
  code = code;
  is_valid = true;
  validation_errors = [];
  suggestions = [];
  code_type = some type;
}

-- `if x not in xs: xs.append(x)`
abbrev pub add_new : String → List String → List String
add_new x xs = if elem x xs then xs else xs ++ (x ∷ [])

-- `dict.fromkeys` after texts that stand first: each text once
unfoldable pub unique_from : List String → List String → List String
unique_from seen [] = seen
unique_from seen (x ∷ xs) = unique_from (add_new x seen) xs
