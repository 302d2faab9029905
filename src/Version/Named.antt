-- ===== src/Version/Named.antt =====
-- The version that a request names, for extract_version of app/shared/versioning.py.
use korea_public_data_be.Base.{
  ℕ, subst, true, false, ◌≡◌, ◌≢◌, ◌⊎◌, inl, inr, refl, sym, ap, ◌∙◌, Option, none, some, String,
  List, [], ◌∷◌, ◌++◌, ◌==◌, string_eq, format, Bool-cases, equals-eq, equals_refl, true≢false, All,
}
use korea_public_data_be.Version.Extract.{
  VersioningMethod, url_path, header, query_param, content_type, Request, Patterns, non_empty,
  or_else, with_v, extract_from_url, extract_from_header, extract_from_query,
  extract_from_content_type, extract_by, extract_first, explicit, requested,
}

-- A text that Python takes for false
abbrev pub IsEmpty : Option String → Type 0
IsEmpty o = (o ≡ none) ⊎ (o ≡ some "")

non_empty-cases :
    (o : Option String)
    → (IsEmpty o × (non_empty o ≡ none))
      ⊎ ((s : String) × (o ≡ some s) × (s ≢ "") × (non_empty o ≡ some s))
non_empty-cases none = inl (inl refl, refl)
non_empty-cases (some s) = elim (Bool-cases (s == "")) [
  | inl e ↦ inl (inr (ap some (equals-eq e)), rw e refl)
  | inr n ↦ inr (
    s,
    refl,
    (λ e. true≢false (sym (ap (λ (t : String). t == "") e ∙ equals_refl {A = String} "") ∙ n)),
    rw n refl,
  )
]

module _ (str : ℕ → String) (re : Patterns) (q : Request) where
  -- Where each method looks for the version
  pub data Reads : VersioningMethod → Option String → Type 0 where
    from_url : Reads url_path (extract_from_url str re q.path)
    from_header : Reads header (extract_from_header str re q.accept)
    from_query : Reads query_param (extract_from_query str re q.query_params)
    from_content_type : Reads content_type (extract_from_content_type str re q.content_type_header)

  extract_by-Reads : (m : VersioningMethod) → Reads m (extract_by str re m q)
  unfolding extract_by
  extract_by-Reads url_path = from_url
  extract_by-Reads header = from_header
  extract_by-Reads query_param = from_query
  extract_by-Reads content_type = from_content_type

  abbrev pub FindsNothing : VersioningMethod → Type 0
  FindsNothing m = (o : Option String) × Reads m o × IsEmpty o

  -- The first of the methods that finds something, or none where none does
  abbrev pub FirstFound : List VersioningMethod → Option String → Type 0
  FirstFound ms key =
      ((before after : List VersioningMethod) × (m : VersioningMethod) × (s : String) × (ms
          ≡ before ++ (m ∷ after))
        × All FindsNothing before
        × Reads m (some s)
        × (s ≢ "")
        × (key ≡ some s))
      ⊎ (All FindsNothing ms × (key ≡ none))

  extract_first-FirstFound :
      (ms : List VersioningMethod) → FirstFound ms (extract_first str re ms q)
  unfolding extract_first or_else
  extract_first-FirstFound [] = inr (tt, refl)
  extract_first-FirstFound (m ∷ ms) = elim (non_empty-cases (extract_by str re m q)) [
    | inr (s, found, full, e) ↦
        inl ([], ms, m, s, refl, tt, subst (Reads m) found (extract_by-Reads m), full, rw e refl)
    | inl (empty, e) ↦
        let nothing : FindsNothing m = (extract_by str re m q, extract_by-Reads m, empty) in
        elim (extract_first-FirstFound ms) [
          | inl (before, after, n, s, parts, all, reads, full, key) ↦ inl (
            (m ∷ before),
            after,
            n,
            s,
            ap (λ l. m ∷ l) parts,
            (nothing, all),
            reads,
            full,
            rw e key,
          )
          | inr (all, key) ↦ inr ((nothing, all), rw e key)
        ]
  ]

  -- The key for a parameter: with a v before it, unless it starts with one.
  abbrev pub Prefixed : String → Option String → Type 0
  Prefixed s key =
      ((re.starts_with_v s ≡ true) × (key ≡ some s))
      ⊎ ((re.starts_with_v s ≡ false) × (key ≡ some (format ("v" ∷ s ∷ []))))

  -- The key that a request names: by the explicit parameter, else by the first of the methods that finds one.
  abbrev pub Named :
      VersioningMethod → List VersioningMethod → Option String → Option String → Type 0
  Named default fallbacks param key =
      ((s : String) × (param ≡ some s) × (s ≢ "") × Prefixed s key)
      ⊎ (IsEmpty param × FirstFound (default ∷ fallbacks) key)

  with_v-Prefixed : (s : String) → Prefixed s (some (with_v str re s))
  unfolding with_v
  with_v-Prefixed s = elim (Bool-cases (re.starts_with_v s)) [
    | inl v ↦ inl (v, rw v refl)
    | inr n ↦ inr (n, rw n refl)
  ]

  pub requested-Named :
      (default : VersioningMethod) (fallbacks : List VersioningMethod) (param : Option String)
      → Named default fallbacks param (requested str re default fallbacks q param)
  unfolding requested or_else explicit extract_first
  requested-Named default fallbacks param =
      let rest =
        or_else (non_empty (extract_by str re default q)) (extract_first str re fallbacks q) in
      let asked : requested str re default fallbacks q param
          ≡ or_else (elim (non_empty param) [ none ↦ none | some s ↦ some (with_v str re s) ])
              rest =
        refl in
      let read = λ (o : Option String).
        or_else (elim o [ none ↦ none | some s ↦ some (with_v str re s) ]) rest in
      elim (non_empty-cases param) [
        | inr (s, given, full, e) ↦
            inl (s, given, full, subst (Prefixed s) (sym (asked ∙ ap read e)) (with_v-Prefixed s))
        | inl (empty, e) ↦ inr (
          empty,
          subst (FirstFound (default ∷ fallbacks)) (sym (asked ∙ ap read e))
              (extract_first-FirstFound (default ∷ fallbacks)),
        )
      ]
