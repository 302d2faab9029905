-- ===== src/Gateway/Matching.antt =====
-- The matching of paths in app/core/api_integration/gateway.py against a relation on segments.
use korea_public_data_be.Base.{
  All, Option, ◌++◌, ◌⊎◌, inl, inr, true, none, some, String, List, [], ◌∷◌, ◌==◌, ◌≡◌, ◌↔◌, refl,
  sym, ap, ◌∙◌, subst, Bool-cases, Option-cases, equals-eq, equals_refl, string_eq, false≢true,
}
use korea_public_data_be.Dict
use korea_public_data_be.Dict.{Dict}
use korea_public_data_be.Gateway.Defs.{RouteHandler}
use korea_public_data_be.Gateway.Routes.{
  Text, is_placeholder, segments_match, path_matches, first_match, find_handler, pair_eq,
}

module _ (py : Text) where
  -- The segments of a path fit those of a pattern.
  pub data Fits : List String → List String → Type 0 where
    ends : Fits [] []
    any :
        {p s : String} {ps ss : List String}
        → is_placeholder py p ≡ true
        → Fits ps ss
        → Fits (p ∷ ps) (s ∷ ss)
    same : {p s : String} {ps ss : List String} → p ≡ s → Fits ps ss → Fits (p ∷ ps) (s ∷ ss)

  segments_match-Fits : (ps ss : List String) → segments_match py ps ss ≡ true → Fits ps ss
  unfolding segments_match
  segments_match-Fits [] [] h = ends
  segments_match-Fits [] (s ∷ ss) h = cc
  segments_match-Fits (p ∷ ps) [] h = cc
  segments_match-Fits (p ∷ ps) (s ∷ ss) h = elim (Bool-cases (is_placeholder py p)) [
    | inl a ↦ any a (segments_match-Fits ps ss (rw a at h))
    | inr b ↦ elim (Bool-cases (p == s)) [
      | inl e ↦ same (equals-eq e) (segments_match-Fits ps ss (rw e at (rw b at h)))
      | inr n ↦ absurd (false≢true (rw n at (rw b at h)))
    ]
  ]

  segments_match_of_Fits : (ps ss : List String) → Fits ps ss → segments_match py ps ss ≡ true
  unfolding segments_match
  segments_match_of_Fits [] [] ends = refl
  segments_match_of_Fits [] (s ∷ ss) f = elim f [ ]
  segments_match_of_Fits (p ∷ ps) [] f = elim f [ ]
  segments_match_of_Fits (p ∷ ps) (s ∷ ss) (any a f) = rw a (segments_match_of_Fits ps ss f)
  segments_match_of_Fits (p ∷ ps) (s ∷ ss) (same e f) = elim (Bool-cases (is_placeholder py p)) [
    | inl a ↦ rw a (segments_match_of_Fits ps ss f)
    | inr b ↦
        let equal : (p == s) ≡ true = subst (λ t. (p == t) ≡ true) e (equals_refl p) in
        rw b (rw equal (segments_match_of_Fits ps ss f))
  ]

  -- A path matches a pattern exactly if the two have as many segments, and each of the pattern's is
  -- a placeholder or the path's own.
  pub path_matches_iff :
      (pattern path : String)
      → (path_matches py pattern path ≡ true) ↔ Fits (py.split pattern) (py.split path)
  unfolding path_matches
  path_matches_iff pattern path = (
    segments_match-Fits (py.split pattern) (py.split path),
    segments_match_of_Fits (py.split pattern) (py.split path),
  )

  -- The route is for the method, and the path fits its pattern.
  abbrev pub Suits : String → String → (String × String) × RouteHandler → Type 0
  Suits method path e = (e.0.0 ≡ method) × Fits (py.split e.0.1) (py.split path)

  -- No route of the list suits.
  abbrev pub NoneSuits : Dict (String × String) RouteHandler → String → String → Type 0
  NoneSuits routes method path = All (λ e. Suits method path e → ⊥) routes

  -- The handler of the first route that suits
  abbrev pub FirstSuits :
      Dict (String × String) RouteHandler → String → String → RouteHandler → Type 0
  FirstSuits routes method path h =
      (before after : Dict (String × String) RouteHandler) × (pattern : String) × (routes
        ≡ before ++ (((method, pattern), h) ∷ after))
      × Fits (py.split pattern) (py.split path)
      × NoneSuits before method path

  abbrev pub Matched :
      Dict (String × String) RouteHandler → String → String → Option RouteHandler → Type 0
  Matched routes method path o =
      ((h : RouteHandler) × (o ≡ some h) × FirstSuits routes method path h)
      ⊎ ((o ≡ none) × NoneSuits routes method path)

  later-Matched :
      (e : (String × String) × RouteHandler) (routes : Dict (String × String) RouteHandler)
      (method path : String) (o : Option RouteHandler)
      → (Suits method path e → ⊥)
      → Matched routes method path o
      → Matched (e ∷ routes) method path o
  later-Matched e routes method path o unfit
        (inl (h, found, (before, after, pattern, parts, fits, none_of))) =
      inl (h, found, ((e ∷ before), after, pattern, ap (λ l. e ∷ l) parts, fits, (unfit, none_of)))
  later-Matched e routes method path o unfit (inr (missing, none_of)) =
      inr (missing, (unfit, none_of))

  first_match-Matched :
      (routes : Dict (String × String) RouteHandler) (method path : String)
      → Matched routes method path (first_match py method path routes)
  unfolding first_match
  first_match-Matched [] method path = inr (refl, tt)
  first_match-Matched ((k, x) ∷ routes) method path = elim (Bool-cases (k.0 == method)) [
    | inl m ↦ elim (Bool-cases (path_matches py k.1 path)) [
      | inl f ↦
          let same_name : k.0 ≡ method = equals-eq m in
          rw (m, f)
            (inl (
              x,
              refl,
              (
                [],
                routes,
                k.1,
                ap (λ n. ((n, k.1), x) ∷ routes) same_name,
                (path_matches_iff k.1 path).0 f,
                tt,
              ),
            ))
      | inr n ↦
          rw (m, n)
            (later-Matched (k, x) routes method path _
              (λ (_, fits). false≢true (sym n ∙ (path_matches_iff k.1 path).1 fits))
              (first_match-Matched routes method path))
    ]
    | inr n ↦ rw n (
        later-Matched (k, x) routes method path _
          (λ (name, _). false≢true (sym n ∙ ap (λ t. t == method) name ∙ equals_refl method))
          (first_match-Matched routes method path))
  ]

  -- What is to become of a request: the route for its exact path, else the first route that suits, else none.
  abbrev pub Routed :
      Dict (String × String) RouteHandler → String → String → Option RouteHandler → Type 0
  Routed routes method path o =
      ((h : RouteHandler) × (Dict.get routes (method, path) ≡ some h) × (o ≡ some h))
      ⊎ ((Dict.get routes (method, path) ≡ none) × Matched routes method path o)

  -- A request is handled by the route for its exact path. Where there is none, it is handled by the first of
  -- the routes for its method whose pattern its path fits, and by no handler exactly where there is no such
  -- route.
  pub find_handler-Routed :
      (routes : Dict (String × String) RouteHandler) (method path : String)
      → Routed routes method path (find_handler py routes method path)
  unfolding find_handler
  find_handler-Routed routes method path = elim (Option-cases (Dict.get routes (method, path))) [
    | inl n ↦ inr (n, rw (n, find_handler) (first_match-Matched routes method path))
    | inr (h, g) ↦ inl (h, g, rw (g, find_handler) refl)
  ]
