-- ===== src/Classification/Refused.antt =====
-- Which codes the validators of app/shared/classification/validators.py refuse.
use korea_public_data_be.Base.{
  Bool, true, false, not, Option, none, some, inl, inr, ◌⊎◌, ◌≡◌, refl, sym, ap, subst, Bool-cases,
  ◌&&◌, ℕ, leb, eqb, nat_eq, length, String, List, [], ◌∷◌, ◌==◌, map, if◌then◌else◌, elem,
  string_eq, format,
}
use korea_public_data_be.Classification.Codes.{
  ValidationResult, add_error, add_errors, add_suggestion, add_suggestions, business_category,
  content_category, business_codes, content_codes, characters, PythonText, unmarked,
}
use korea_public_data_be.Classification.Business
use korea_public_data_be.Classification.Content
use korea_public_data_be.Classification.Unified

-- A result with no errors, or an invalid one
abbrev IsSound : ValidationResult → Type 0
IsSound r = (r.is_valid ≡ false) ⊎ (r.validation_errors ≡ [])

add_error_invalid :
    (e : String) (r : ValidationResult) → IsSound r → (add_error e r).is_valid ≡ false
unfolding add_error
add_error_invalid e r (inl i) = elim (Bool-cases (elem e r.validation_errors)) [
  | inl old ↦ rw old i
  | inr new ↦ rw new
]
add_error_invalid e r (inr empty) = rw (ap (elem e) empty)

add_suggestion_invalid :
    (s : String) (r : ValidationResult) → r.is_valid ≡ false → (add_suggestion s r).is_valid ≡ false
unfolding add_suggestion
add_suggestion_invalid s r i = elim (Bool-cases (elem s r.suggestions)) [
  | inl old ↦ rw old i
  | inr new ↦ rw new i
]

add_suggestions_invalid :
    (ss : List String) (r : ValidationResult)
    → r.is_valid ≡ false
    → (add_suggestions ss r).is_valid ≡ false
unfolding add_suggestions
add_suggestions_invalid [] r i = i
add_suggestions_invalid (s ∷ ss) r i =
    add_suggestions_invalid ss (add_suggestion s r) (add_suggestion_invalid s r i)

add_errors_invalid :
    (es : List String) (r : ValidationResult)
    → r.is_valid ≡ false
    → (add_errors es r).is_valid ≡ false
unfolding add_errors
add_errors_invalid [] r i = i
add_errors_invalid (e ∷ es) r i =
    add_errors_invalid es (add_error e r) (add_error_invalid e r (inl i))

combined_invalid :
    (code : String) (business content : ValidationResult)
    → (Unified.combined code business content).is_valid ≡ false
unfolding Unified.combined
combined_invalid code business content =
    add_suggestions_invalid (map (λ s. format ("Content: " ∷ s ∷ [])) content.suggestions) _ (
      add_suggestions_invalid (map (λ s. format ("Business: " ∷ s ∷ [])) business.suggestions) _ (
        add_errors_invalid
          (map (λ e. format ("Content category: " ∷ e ∷ [])) content.validation_errors) _
          (add_errors_invalid
            (map (λ e. format ("Business category: " ∷ e ∷ [])) business.validation_errors)
            (Unified.unknown code []) refl)))

either-IsSound :
    (test : Bool) (x y : ValidationResult) → IsSound x → IsSound y → IsSound (if test then x else y)
either-IsSound true x y s t = s
either-IsSound false x y s t = t

added-IsSound : (e : String) (r : ValidationResult) → IsSound r → IsSound (add_error e r)
added-IsSound e r s = inl (add_error_invalid e r s)

either_invalid :
    (test : Bool) (x y : ValidationResult)
    → x.is_valid ≡ false
    → y.is_valid ≡ false
    → (if test then x else y).is_valid ≡ false
either_invalid true x y s t = s
either_invalid false x y s t = t

module _ (py : PythonText) where
  open py use {lower, starts_with, is_digit, matches_business}

  check_last-IsSound :
      (c : Option ℕ) (r : ValidationResult) → IsSound r → IsSound (Business.check_last py c r)
  unfolding Business.check_last
  check_last-IsSound none r s = s
  check_last-IsSound (some c) r s =
      either-IsSound (not (is_digit c)) _ _ (added-IsSound "Code must end with a digit" r s) (
        either-IsSound (not (leb 49 c && leb c 57)) _ _
          (added-IsSound "Code must end with a digit between 1-9" r s) s)

  check_prefix-IsSound :
      (code : String) (r : ValidationResult) → IsSound r → IsSound (Business.check_prefix py code r)
  unfolding Business.check_prefix
  check_prefix-IsSound code r s =
      either-IsSound (not (starts_with code "cmrczn_tab")) _ _
        (added-IsSound "Code must start with 'cmrczn_tab'" r s) s

  check_ending-IsSound :
      (code : String) (r : ValidationResult) → IsSound r → IsSound (Business.check_ending py code r)
  unfolding Business.check_ending
  check_ending-IsSound code r s =
      either-IsSound (starts_with code "cmrczn_tab" && eqb (length (characters code)) 11) _ _
        (check_last-IsSound (Business.last_character (characters code)) r s) s

  check_format-IsSound :
      (code : String) (r : ValidationResult) → IsSound r → IsSound (Business.check_format py code r)
  unfolding Business.check_format
  check_format-IsSound code r s =
      either-IsSound (not (matches_business code)) _ _
        (check_ending-IsSound code _ (
          check_prefix-IsSound code _
            (added-IsSound "Code must follow format 'cmrczn_tab[1-9]'" r s)))
        s

  -- A code that is not one of the valid ones is invalid after the check of the valid codes.
  business_unknown :
      (code : String) (r : ValidationResult)
      → IsSound r
      → elem code business_codes ≡ false
      → (Business.check_known py code r).is_valid ≡ false
  unfolding Business.check_known
  business_unknown code r s h =
      rw h (add_suggestions_invalid (Business.get_suggestions py code) _ (add_error_invalid _ r s))

  content_unknown :
      (code : String) (r : ValidationResult)
      → IsSound r
      → elem code content_codes ≡ false
      → (Content.check_known py code r).is_valid ≡ false
  unfolding Content.check_known
  content_unknown code r s h =
      rw h (add_suggestions_invalid (Content.get_suggestions py code) _ (add_error_invalid _ r s))

  cased_invalid :
      (code : String) (r : ValidationResult)
      → r.is_valid ≡ false
      → (Business.check_case py code r).is_valid ≡ false
  unfolding Business.check_case
  cased_invalid code r i =
      either_invalid (not (code == lower code)) _ _
        (add_suggestion_invalid (lower code) _
          (add_error_invalid "Code must be lowercase" r (inl i)))
        i

  -- The checks of the letters are the same code in the two classes.
  same_case :
      (code : String) (r : ValidationResult)
      → Content.check_case py code r ≡ Business.check_case py code r
  unfolding Content.check_case Business.check_case
  same_case code r = refl

  pub business_refused :
      (code : String)
      → elem code business_codes ≡ false
      → (Business.validate py code).is_valid ≡ false
  unfolding Business.validate
  business_refused code h =
      let start = unmarked code business_category in
      let formatted = Business.check_format py code start in
      let known = Business.check_known py code formatted in
      either_invalid (code == "") (add_error "Code cannot be empty" start)
        (Business.check_case py code known)
        (add_error_invalid "Code cannot be empty" start (inr refl))
        (cased_invalid code known
          (business_unknown code formatted (check_format-IsSound code start (inr refl)) h))

  pub content_refused :
      (code : String)
      → elem code content_codes ≡ false
      → (Content.validate py code).is_valid ≡ false
  unfolding Content.validate
  content_refused code h =
      let start = unmarked code content_category in
      let known = Content.check_known py code start in
      either_invalid (code == "") (add_error "Code cannot be empty" start)
        (Content.check_case py code known)
        (add_error_invalid "Code cannot be empty" start (inr refl))
        (subst (λ r. r.is_valid ≡ false) (sym (same_case code known))
          (cased_invalid code known (content_unknown code start (inr refl) h)))

  pub unified_refused :
      (code : String)
      → (Business.validate py code).is_valid ≡ false
      → (Content.validate py code).is_valid ≡ false
      → (Unified.validate py code).is_valid ≡ false
  unfolding Unified.validate
  unified_refused code b c = elim (Bool-cases (code == "")) [
    | inl empty ↦ rw empty
    | inr other ↦
        rw other (
          simp (b, c)
            (combined_invalid code (Business.validate py code) (Content.validate py code)))
  ]
