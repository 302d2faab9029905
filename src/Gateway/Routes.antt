-- ===== src/Gateway/Routes.antt =====
-- The routes of APIGateway in app/core/api_integration/gateway.py. The source joins a method and a
-- path with a colon, which no method has, so here the pair is the key. `split` is Python's
-- str.split on "/".
use korea_public_data_be.Base.{
  Bool, true, false, ◌&&◌, Option, none, some, String, List, [], ◌∷◌, ◌==◌, HasEquality, ◌≡◌, ◌↔◌,
  subst, Bool-cases, inl, inr, true≢false, sym, ◌∙◌, equals-eq, equals_refl, string_eq,
  if◌then◌else◌,
}
use korea_public_data_be.Dict
use korea_public_data_be.Dict.{Dict}
use korea_public_data_be.Gateway.Defs.{HttpMethod, get, value, RouteHandler, Gateway}

abbrev same_pair : String × String → String × String → Bool
same_pair a b = (a.0 == b.0) && (a.1 == b.1)

pub same_pair_iff : (a b : String × String) → (same_pair a b ≡ true) ↔ (a ≡ b)
same_pair_iff a b = (forward, λ e. subst (λ c. same_pair a c ≡ true) e (reflexive a))
  where
    reflexive : (a : String × String) → same_pair a a ≡ true
    reflexive a = rw (equals_refl a.0) (equals_refl a.1)

    forward : same_pair a b ≡ true → a ≡ b
    forward h = elim (Bool-cases (a.0 == b.0)) [
      | inl e ↦ λ i. (equals-eq e i, equals-eq (rw e at h) i)
      | inr e ↦ absurd (true≢false (sym h ∙ rw e))
    ]

instance abbrev pub pair_eq : HasEquality (String × String)
pair_eq = record { equals = same_pair; equals_iff = same_pair_iff }

-- register_route, for one of the methods
abbrev add_route :
    Dict (String × String) RouteHandler
    → String
    → RouteHandler
    → HttpMethod
    → Dict (String × String) RouteHandler
unfolding value
add_route routes path h m = Dict.put routes (value m, path) h

abbrev add_routes :
    Dict (String × String) RouteHandler
    → String
    → RouteHandler
    → List HttpMethod
    → Dict (String × String) RouteHandler
unfolding add_route
add_routes routes path h [] = routes
add_routes routes path h (m ∷ ms) = add_routes (add_route routes path h m) path h ms

-- methods or [HTTPMethod.GET]
abbrev or_get : List HttpMethod → List HttpMethod
or_get [] = get ∷ []
or_get (m ∷ ms) = m ∷ ms

unfoldable pub register_route :
    {Limiter : Type 0} → Gateway Limiter → String → List HttpMethod → RouteHandler → Gateway Limiter
unfolding add_routes
register_route g path methods h = record g { routes = add_routes g.routes path h (or_get methods) }

-- Python's methods on texts that the routes use
pub record Text : Type 0 where
  pub split : String → List String
  pub starts_with : String → String → Bool
  pub ends_with : String → String → Bool

module _ (py : Text) where
  unfoldable pub is_placeholder : String → Bool
  is_placeholder p = py.starts_with p "{" && py.ends_with p "}"

  -- _path_matches, on the segments
  unfoldable pub segments_match : List String → List String → Bool
  unfolding is_placeholder
  segments_match [] [] = true
  segments_match (p ∷ ps) (s ∷ ss) =
      if is_placeholder p
      then segments_match ps ss
      else if p == s
      then segments_match ps ss
      else false
  segments_match _ _ = false

  unfoldable pub path_matches : String → String → Bool
  unfolding segments_match
  path_matches pattern path = segments_match (py.split pattern) (py.split path)

  unfoldable pub first_match :
      String → String → Dict (String × String) RouteHandler → Option RouteHandler
  unfolding path_matches
  first_match method path [] = none
  first_match method path ((k, h) ∷ routes) =
      if k.0 == method
      then if path_matches k.1 path then some h else first_match method path routes
      else first_match method path routes

  -- The handler of a route, by its exact path or by the first pattern that matches.
  unfoldable pub find_handler :
      Dict (String × String) RouteHandler → String → String → Option RouteHandler
  unfolding first_match
  find_handler routes method path = elim (Dict.get routes (method, path)) [
    | some h ↦ some h
    | none ↦ first_match method path routes
  ]
