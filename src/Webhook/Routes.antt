-- ===== src/Webhook/Routes.antt =====
-- The routes of `Start` (internal/webhook/server.go). The listener is not modelled: a request has a
-- path that http.ServeMux need not clean.
use kubecopilot_core.Common.{String, Option, some, none, ◌==◌, if◌then◌else◌, Result}
use kubecopilot_core.Api.Meta.{ApiError}
use kubecopilot_core.Env.{Env}
use kubecopilot_core.Env.Exec.{World}
use kubecopilot_core.Webhook.{
  ResponsePayload, ChunkPayload, NotificationPayload, Reply, refused, healthy, handle_response,
  handle_chunk, handle_notification,
}

-- encoding/json at the three payloads
pub record Decoders : Type 0 where
  pub response : String → Result ApiError ResponsePayload
  pub chunk : String → Result ApiError ChunkPayload
  pub notification : String → Result ApiError NotificationPayload

pub data Route : Type 0 where
  response chunk notification healthz : Route

-- `mux.HandleFunc`
pub route_of : String → Option Route
route_of path =
    if path == "/response"
    then some Route.response
    else if path == "/chunk"
    then some Route.chunk
    else if path == "/notification"
    then some Route.notification
    else if path == "/healthz"
    then some Route.healthz
    else none

module _ {env : Env} (decoders : Decoders) where
  pub handle_route : Option Route → String → String → World env → Reply × World env
  handle_route (some Route.response) method body w = handle_response decoders.response method body w
  handle_route (some Route.chunk) method body w = handle_chunk decoders.chunk method body w
  handle_route (some Route.notification) method body w =
      handle_notification decoders.notification method body w
  handle_route (some Route.healthz) method body w = (healthy, w)
  handle_route none method body w = (refused 404 "404 page not found", w)

  -- `mux.ServeHTTP`
  pub serve_request : String → String → String → World env → Reply × World env
  unfolding route_of handle_route
  serve_request path method body = handle_route (route_of path) method body
