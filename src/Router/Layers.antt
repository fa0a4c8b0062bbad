-- ===== src/Router/Layers.antt =====
-- The routes that the registrations of the server make, each with its middleware.
use graph_code_challenge.Prelude.{
  All, if◌then◌else◌, ◌≡◌, refl, false, true, [], List, String, Bool, ◌++◌, ◌∷◌,
}
use graph_code_challenge.Router.{
  set_routes, Layer, Endpoint, Registration, use_layers, route, request_id_layer, logger_layer,
  recovery_layer, metrics_layer, expose_metrics, show_swagger, setup,
}

pub record Route : Type 0 where
  pub method : String
  pub path : String
  pub layers : List Layer
  pub endpoint : Endpoint

-- As gin documents: `Use` adds to the middleware of the routes that come after it.
abbrev pub routes_from : List Layer → List Registration → List Route
routes_from layers [] = []
routes_from layers (use_layers more ∷ rest) = routes_from (layers ++ more) rest
routes_from layers (route method path endpoint ∷ rest) =
    record { method = method; path = path; layers = layers; endpoint = endpoint }
    ∷ routes_from layers rest

abbrev pub routes : List Route
routes = routes_from [] setup

-- All requests are counted but those for the metrics and for the documentation.
abbrev pub is_counted : Endpoint → Bool
is_counted expose_metrics = false
is_counted show_swagger = false
is_counted _ = true

abbrev pub expected_layers : Bool → List Layer
expected_layers counted =
    request_id_layer ∷ logger_layer ∷ recovery_layer ∷ (if counted then metrics_layer ∷ [] else [])

abbrev pub HasLayers : Route → Type 0
HasLayers r = r.layers ≡ expected_layers (is_counted r.endpoint)

pub routes-All : All HasLayers routes
unfolding setup set_routes
routes-All = (refl, (refl, (refl, (refl, (refl, (refl, (refl, (refl, tt))))))))
