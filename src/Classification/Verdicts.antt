-- ===== src/Classification/Verdicts.antt =====
-- Which codes the validators of app/shared/classification/validators.py accept.
use korea_public_data_be.Base.{
  All-elem, true, false, some, inl, inr, ◌⊎◌, ◌≡◌, refl, All, sym, ap, ◌∙◌, true≢false, Bool-cases,
  nat_eq, String, List, ◌==◌, elem, string_eq, equals-eq, equals_refl,
}
use korea_public_data_be.Classification.Codes.{
  business_category, content_category, business_codes, content_codes, PythonText, unmarked,
}
use korea_public_data_be.Classification.Business
use korea_public_data_be.Classification.Content
use korea_public_data_be.Classification.Unified
use korea_public_data_be.Classification.Refused.{business_refused, content_refused, unified_refused}

-- What Python's texts have to make of the valid codes: the regular expression matches the business codes,
-- and no code has a capital letter.
abbrev pub Recognises : PythonText → Type 0
Recognises py =
    All (λ c. (py.matches_business c ≡ true) × (py.lower c ≡ c)) business_codes
    × All (λ c. py.lower c ≡ c) content_codes

not_empty :
    (code : String) (codes : List String)
    → elem "" codes ≡ false
    → elem code codes ≡ true
    → (code == "") ≡ false
not_empty code codes none_empty h = elim (Bool-cases (code == "")) [
  | inl empty ↦ absurd (true≢false (sym h ∙ ap (λ c. elem c codes) (equals-eq empty) ∙ none_empty))
  | inr other ↦ other
]

module _ (py : PythonText) (r : Recognises py) where
  business_accepted :
      (code : String)
      → elem code business_codes ≡ true
      → Business.validate py code ≡ unmarked code business_category
  unfolding Business.validate Business.check_case Business.check_known Business.check_format
  business_accepted code h =
      let (matches, lowered) =
        All-elem (λ c. (py.matches_business c ≡ true) × (py.lower c ≡ c)) code business_codes h
          r.0 in
      rw (not_empty code business_codes refl h)
        (rw matches (rw h (rw lowered (rw (equals_refl code) refl))))

  content_accepted :
      (code : String)
      → elem code content_codes ≡ true
      → Content.validate py code ≡ unmarked code content_category
  unfolding Content.validate Content.check_case Content.check_known
  content_accepted code h =
      let lowered = All-elem (λ c. py.lower c ≡ c) code content_codes h r.1 in
      rw (not_empty code content_codes refl h) (rw h (rw lowered (rw (equals_refl code) refl)))

  -- A code is taken for a business category exactly where it is one of the nine codes, else for a content
  -- category exactly where it is one of the three, without an error or a suggestion; every other code is
  -- invalid. detect_code_type gives the type of a valid code.
  pub validate-verdict :
      (code : String)
      → ((elem code business_codes ≡ true)
          × (Unified.validate py code ≡ unmarked code business_category)
          × (Unified.detect_code_type py code ≡ some business_category))
        ⊎ ((elem code content_codes ≡ true)
            × (Unified.validate py code ≡ unmarked code content_category)
            × (Unified.detect_code_type py code ≡ some content_category))
        ⊎ ((elem code business_codes ≡ false)
            × (elem code content_codes ≡ false)
            × ((Unified.validate py code).is_valid ≡ false))
  unfolding Unified.validate Unified.detect_code_type
  validate-verdict code = elim (Bool-cases (elem code business_codes)) [
    | inl b ↦
        let filled = not_empty code business_codes refl b in
        let accepted = business_accepted code b in
        inl (b, rw filled (rw accepted refl), rw filled (rw accepted refl))
    | inr b ↦ elim (Bool-cases (elem code content_codes)) [
      | inl c ↦
          let filled = not_empty code content_codes refl c in
          let refused = business_refused py code b in
          let accepted = content_accepted code c in
          inr (
            inl (
              c,
              rw filled (rw refused (rw accepted refl)),
              rw filled (rw refused (rw accepted refl)),
            ))
      | inr c ↦ inr (
          inr (
            b,
            c,
            unified_refused py code (business_refused py code b) (content_refused py code c),
          ))
    ]
  ]
