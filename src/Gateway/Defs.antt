-- ===== src/Gateway/Defs.antt =====
-- The requests, the responses and the state of APIGateway in app/core/api_integration/gateway.py.
-- Instants are whole microseconds. An exception is its text.
use korea_public_data_be.Base.{
  ℕ, ◌⊎◌, Bool, false, not, ◌&&◌, ◌||◌, Option, none, some, String, List, ltb, leb, ◌==◌, string_eq,
}
use korea_public_data_be.Dict.{Dict}

pub data HttpMethod : Type 0 where
  get post put delete patch head options : HttpMethod

unfoldable pub value : HttpMethod → String
value get = "GET"
value post = "POST"
value put = "PUT"
value delete = "DELETE"
value patch = "PATCH"
value head = "HEAD"
value options = "OPTIONS"

-- The field `method` of a request. With `use_enum_values`, pydantic turns a method that is given
-- into its text; the default stays a member of the enum.
pub data Method : Type 0 where
  member : HttpMethod → Method
  text : String → Method

-- request.method.value: a text has no such attribute.
unfoldable pub method_value : Method → Option String
unfolding value
method_value (member m) = some (value m)
method_value (text s) = none

-- request.method == HTTPMethod.GET: the enum is a subclass of str.
unfoldable pub is_get : Method → Bool
unfolding value
is_get (member m) = value m == "GET"
is_get (text s) = s == "GET"

-- The fields that the gateway reads. `query` is the text of the query parameters.
pub record ApiRequest : Type 0 where
  pub request_id : String
  pub method : Method
  pub path : String
  pub query : String
  pub client_id : Option String
  pub api_key : Option String
  pub cache_enabled : Bool

pub record ApiResponse : Type 0 where
  pub request_id : String
  pub timestamp : ℕ
  pub status_code : ℕ
  pub message : Option String  -- of the data
  pub error : Option String
  pub data_source : Option String
  pub operation : Option String
  pub processing_time : ℕ
  pub cache_hit : Bool

-- Python's truth of an optional text
unfoldable pub is_given : Option String → Bool
is_given none = false
is_given (some s) = not (s == "")

unfoldable pub is_success : ApiResponse → Bool
unfolding is_given
is_success r = leb 200 r.status_code && (ltb r.status_code 300 && not (is_given r.error))

unfoldable pub is_error : ApiResponse → Bool
unfolding is_given
is_error r = leb 400 r.status_code || is_given r.error

-- A response with a status and an error, or none.
abbrev pub response : String → ℕ → ℕ → Option String → ApiResponse
response request_id now status error = record {
  request_id = request_id;
  timestamp = now;
  status_code = status;
  message = none;
  error = error;
  data_source = none;
  operation = none;
  processing_time = 0;
  cache_hit = false;
}

-- What is called may raise, on the left.
abbrev pub Attempt : Type 0 → Type 0
Attempt A = String ⊎ A

-- A handler answers at an instant.
abbrev pub Handler : Type 0
Handler = ℕ → ApiRequest → Attempt ApiResponse

pub record RouteHandler : Type 0 where
  pub data_source : Option String
  pub operation : Option String
  pub handler_func : Handler
  pub middleware : List String

-- average_response_time and start_time are left out.
pub record Stats : Type 0 where
  pub total_requests : ℕ
  pub successful_requests : ℕ
  pub failed_requests : ℕ
  pub cached_responses : ℕ
  pub rate_limited_requests : ℕ

-- The rate limiter is a type of its own here, for the part of the gateway that does not look at it.
-- A route is found by its method and its path.
pub record Gateway (Limiter : Type 0) : Type 0 where
  pub rate_limiter : Option Limiter
  pub routes : Dict (String × String) RouteHandler
  pub stats : Stats
  pub response_cache : Dict String ApiResponse
  pub cache_ttl : ℕ
