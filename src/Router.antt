-- ===== src/Router.antt =====
-- internal/delivery/httpserver/server.go: what `Setup` registers with gin, with `SetRoutes` of
-- internal/delivery/httpserver/taskhandler/handler.go, and the way through the middleware that each
-- route has. As gin documents, a route has the middleware that `Use` was given before it, in order.
pub mod Layers
pub mod Served
use graph_code_challenge.Handler.{payload, Response}
use Prim.Native.String.{◌++◌}
use graph_code_challenge.Prelude.{String, List, ◌∷◌, []}

pub data Layer : Type 0 where
  request_id_layer logger_layer recovery_layer metrics_layer : Layer

pub data Endpoint : Type 0 where
  expose_metrics show_swagger check_health : Endpoint
  create_task list_tasks get_task update_task delete_task : Endpoint

pub data Registration : Type 0 where
  use_layers : List Layer → Registration
  route : String → String → Endpoint → Registration

-- `SetRoutes`, under the prefix of the group.
unfoldable pub set_routes : String → List Registration
set_routes group =
    let tasks = group ++ "/tasks" in
    route "POST" tasks create_task
    ∷ route "GET" tasks list_tasks
    ∷ route "GET" (tasks ++ "/:id") get_task
    ∷ route "PATCH" (tasks ++ "/:id") update_task
    ∷ route "DELETE" (tasks ++ "/:id") delete_task
    ∷ []

abbrev common_layers : List Layer
common_layers = request_id_layer ∷ logger_layer ∷ recovery_layer ∷ []

-- `Setup`
unfoldable pub setup : List Registration
unfolding set_routes
setup =
    use_layers common_layers
    ∷ route "GET" "/metrics" expose_metrics
    ∷ route "GET" "/swagger/*any" show_swagger
    ∷ use_layers (metrics_layer ∷ [])
    ∷ route "GET" "/healthz" check_health
    ∷ set_routes "/api/v1"

-- What `healthCheck` answers.
pub record HealthResponse : Type 0 where
  pub status : String

unfoldable pub health_check : Response HealthResponse
health_check = record { status = 200; body = payload (record { status = "ok" }) }
