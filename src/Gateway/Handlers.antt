-- ===== src/Gateway/Handlers.antt =====
-- The handlers that app/core/api_integration/gateway.py makes for a data source, and the routes on
-- which it registers them.
use korea_public_data_be.Base.{ℕ, none, some, String, List, [], ◌∷◌, inr, format}
use korea_public_data_be.Gateway.Defs.{
  get, post, put, patch, delete, response, Handler, RouteHandler, Gateway,
}
use korea_public_data_be.Gateway.Routes.{Text, register_route}

-- request.path.split("/")[-1]
unfoldable pub last_segment : List String → String
last_segment [] = "None"
last_segment (s ∷ []) = s
last_segment (s ∷ t ∷ ss) = last_segment (t ∷ ss)

-- The answer of a placeholder for an operation on a data source
abbrev placeholder : String → String → ℕ → List String → Handler
placeholder source operation status message now request =
    inr (record (response request.request_id now status none) {
      message = some (format message);
      data_source = some source;
      operation = some operation;
    })

unfoldable pub create_list_handler : String → Handler
create_list_handler source = placeholder source "list" 200 ("List operation for " ∷ source ∷ [])

unfoldable pub create_create_handler : String → Handler
create_create_handler source =
    placeholder source "create" 201 ("Create operation for " ∷ source ∷ [])

module _ (py : Text) where
  -- The answer that names the last segment of the path
  abbrev on_item : String → String → String → ℕ → Handler
  unfolding last_segment
  on_item source operation title status now request =
      placeholder source operation status
        (title ∷ " operation for " ∷ source ∷ ", ID: " ∷ last_segment (py.split request.path) ∷ [])
        now request

  unfoldable pub create_get_handler : String → Handler
  unfolding on_item
  create_get_handler source = on_item source "get" "Get" 200

  unfoldable pub create_update_handler : String → Handler
  unfolding on_item
  create_update_handler source = on_item source "update" "Update" 200

  unfoldable pub create_delete_handler : String → Handler
  unfolding on_item
  create_delete_handler source = on_item source "delete" "Delete" 204

  abbrev route : String → String → Handler → RouteHandler
  route source operation h = record {
    data_source = some source;
    operation = some operation;
    handler_func = h;
    middleware = [];
  }

  -- register_data_source_routes, for a data source that is registered
  unfoldable pub register_data_source_routes :
      {Limiter : Type 0} → Gateway Limiter → String → Gateway Limiter
  unfolding register_route create_list_handler create_create_handler create_get_handler
      create_update_handler create_delete_handler
  register_data_source_routes g source =
      let base_path = format ("/api/v1/" ∷ source ∷ "/" ∷ []) in
      let item_path = format ("/api/v1/" ∷ source ∷ "/{id}" ∷ []) in
      let g1 =
        register_route g base_path (get ∷ []) (route source "list" (create_list_handler source)) in
      let g2 =
        register_route g1 base_path (post ∷ [])
          (route source "create" (create_create_handler source)) in
      let g3 =
        register_route g2 item_path (get ∷ []) (route source "get" (create_get_handler source)) in
      let g4 =
        register_route g3 item_path (put ∷ patch ∷ [])
          (route source "update" (create_update_handler source)) in
      register_route g4 item_path (delete ∷ [])
        (route source "delete" (create_delete_handler source))
