-- ===== src/Gateway/Tests.antt =====
-- Requests against a small gateway of app/core/api_integration/gateway.py; the theorems applied.
use korea_public_data_be.Base.{
  ℕ, true, none, some, String, List, [], ◌∷◌, ◌==◌, ◌≡◌, refl, string_eq, if◌then◌else◌, format,
}
use korea_public_data_be.Dict
use korea_public_data_be.Samples.{decimal}
use korea_public_data_be.RateLimit.Limiter.{RateLimiter}
use korea_public_data_be.Gateway.Defs.{
  RouteHandler, get, value, Method, member, method_value, is_get, is_given, ApiRequest, ApiResponse,
  is_success, Gateway,
}
use korea_public_data_be.Gateway.Routes.{
  Text, path_matches, find_handler, segments_match, first_match, is_placeholder, register_route,
  pair_eq,
}
use korea_public_data_be.Gateway.Handlers.{
  register_data_source_routes, create_list_handler, create_get_handler, create_create_handler,
  create_update_handler, create_delete_handler, last_segment,
}
use korea_public_data_be.Gateway.Process.{
  process_request, after_limit, check_rate_limit, check_cache, after_cache, after_serve, serve,
  respond, route_request, finish, generate_cache_key, by_cache_key, found_entry, cache_response,
  client_of, is_true, after_check,
}
use korea_public_data_be.Gateway.Matching.{Routed, find_handler-Routed}
use korea_public_data_be.Gateway.Counts.{IsCounted, process_request-IsCounted}
use korea_public_data_be.Gateway.TextMethods.{no_stages}
use korea_public_data_be.Gateway.Cached.{Answers, process_request-IsCacheValid}

abbrev segments_of : String → List String
segments_of p =
    if p == "/api/v1/news/{id}"
    then "" ∷ "api" ∷ "v1" ∷ "news" ∷ "{id}" ∷ []
    else if p == "/api/v1/news/7"
    then "" ∷ "api" ∷ "v1" ∷ "news" ∷ "7" ∷ []
    else p ∷ []

-- Python's texts, as far as the requests below need them
abbrev py : Text
py = record {
  split = segments_of;
  starts_with = λ s p. s == "{id}";
  ends_with = λ s p. s == "{id}";
}

abbrev bare : Gateway RateLimiter
bare = record {
  rate_limiter = none;
  routes = [];
  stats = record {
    total_requests = 0;
    successful_requests = 0;
    failed_requests = 0;
    cached_responses = 0;
    rate_limited_requests = 0;
  };
  response_cache = [];
  cache_ttl = 300000000;
}

unfoldable news : Gateway RateLimiter
unfolding register_data_source_routes
news = register_data_source_routes py bare "news"

abbrev ask : Method → ApiRequest
ask m = record {
  request_id = "r";
  method = m;
  path = "/api/v1/news/7";
  query = "";
  client_id = some "c";
  api_key = none;
  cache_enabled = true;
}

abbrev answer : Gateway RateLimiter → ℕ → ApiRequest → ApiResponse × Gateway RateLimiter
answer g now q = process_request py no_stages (λ s. s) decimal none (λ i. now) (λ i. now) g q

-- The first answer comes from the handler, the second from the cache.
two_answers :
    let first = answer news 1000 (ask (member get)) in
    let second = answer first.1 2000 (ask (member get)) in
    (first.0.message ≡ some "Get operation for news, ID: 7")
    × (second.0.cache_hit ≡ true)
    × (second.1.stats.cached_responses ≡ 1)
unfolding news process_request after_limit check_rate_limit check_cache after_cache after_serve
    serve respond route_request finish generate_cache_key by_cache_key found_entry cache_response
    find_handler first_match path_matches segments_match is_placeholder register_route
    register_data_source_routes create_list_handler create_get_handler create_create_handler
    create_update_handler create_delete_handler last_segment is_success is_given is_get method_value
    value client_of is_true after_check Dict.get Dict.put Dict.remove format
two_answers = (refl, refl, refl)

abbrev item_route : RouteHandler
unfolding create_get_handler last_segment
item_route = record {
  data_source = some "news";
  operation = some "get";
  handler_func = create_get_handler py "news";
  middleware = [];
}

find_handler-Routed_example :
    Routed py news.routes "GET" "/api/v1/news/7"
      (find_handler py news.routes "GET" "/api/v1/news/7")
find_handler-Routed_example = find_handler-Routed py news.routes "GET" "/api/v1/news/7"

-- The path of an item fits the route of the items.
routed :
    (find_handler py news.routes "GET" "/api/v1/news/7" ≡ some item_route)
    × (find_handler py news.routes "GET" "/other" ≡ none)
unfolding news find_handler first_match path_matches segments_match is_placeholder register_route
    register_data_source_routes create_list_handler create_get_handler create_create_handler
    create_update_handler create_delete_handler last_segment value Dict.get Dict.put format
routed = (refl, refl)

process_request-IsCounted_example :
    let r = answer news 1000 (ask (member get)) in
    IsCounted r.1.stats × (r.1.stats.total_requests ≡ 1) × (r.1.stats.rate_limited_requests ≡ 0)
unfolding news register_data_source_routes
process_request-IsCounted_example =
    process_request-IsCounted py no_stages (λ s. s) decimal none (λ i. 1000) (λ i. 1000) news
      (ask (member get)) refl

process_request-IsCacheValid_example :
    Answers py no_stages
      (λ s. s)
      decimal
      none
      (λ i. 1000)
      (λ i. 1000)
      news.stats
      (answer news 1000 (ask (member get)))
unfolding news register_data_source_routes register_route
process_request-IsCacheValid_example =
    process_request-IsCacheValid py no_stages (λ s. s) decimal none (λ i. 1000) (λ i. 1000) news
      (ask (member get)) tt
