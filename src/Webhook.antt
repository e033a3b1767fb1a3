-- ===== src/Webhook.antt =====
-- internal/webhook/server.go: what the agents post back, and the objects that record it. A handler
-- is given the method and the body.
pub mod Replies
pub mod Names
pub mod Chunks
pub mod Routes
use kubecopilot_core.Common.{
  ℕ, ℤ, ◌-◌, String, len, slice, Bool, true, false, not, ◌||◌, Option, none, some, List, [], ◌∷◌,
  ◌==◌, ltb, if◌then◌else◌, Result, contains,
}
use kubecopilot_core.Common.Text.{◌<>◌, decimal, decimal4}
use kubecopilot_core.Api.Meta.{ApiError, ObjectMeta, object_meta}
use kubecopilot_core.Api.Exchange.{KubeCopilotResponse, KubeCopilotChunk, KubeCopilotNotification}
use kubecopilot_core.Api.Kinds.{Kind}
use kubecopilot_core.Env.{Env}
use kubecopilot_core.Env.Exec.{
  Exec, World, pure, stop, stop_if, ◌on_error◌, create, update_status, now, serve, ◌>>=◌, ◌>>◌,
}

pub record ResponsePayload : Type 0 where
  pub queue_id : String
  pub session_id : String
  pub prompt : String
  pub response : String
  pub send_ref : String
  pub namespace : String
  pub agent_ref : String

pub record ChunkPayload : Type 0 where
  pub send_ref : String
  pub session_id : String
  pub agent_ref : String
  pub namespace : String
  pub sequence : ℤ
  pub chunk_type : String
  pub content : String

pub record NotificationPayload : Type 0 where
  pub session_id : String
  pub agent_ref : String
  pub namespace : String
  pub message : String
  pub notification_type : String
  pub title : String
  pub task_ref : String

-- `http.Error(w, text, code)`; 201 Created, with the JSON of a name and a namespace or none; and 200
-- OK.
pub data Reply : Type 0 where
  refused : ℕ → String → Reply
  accepted : Option (String × String) → Reply
  healthy : Reply

abbrev pub default_namespace : String
default_namespace = "default"

abbrev pub or_default : String → String → String
or_default text default = if text == "" then default else text

-- Slices count bytes, as in Go. Where one would cut a character in two, the cut bytes are dropped
-- here; the ids are ASCII.
pub response_name : String → String
response_name queue_id = "resp-" <> (if ltb 8 (len queue_id) then slice queue_id 0 8 else queue_id)

pub chunk_name : String → ℤ → String
chunk_name send_ref sequence =
    "chunk-"
    <> (if ltb 12 (len send_ref)
        then slice send_ref (len send_ref - 12) (len send_ref)
        else send_ref)
    <> "-"
    <> decimal4 sequence

pub notification_name : String → ℕ → String
notification_name session_id millis =
    let name = "notif-" <> session_id <> "-" <> decimal millis in
    if ltb 63 (len name) then slice name 0 63 else name

abbrev pub exchange_labels : String → String → String → List (String × String)
exchange_labels session_id agent_ref send_ref =
    ("kubecopilot.io/session-id", session_id)
    ∷ ("kubecopilot.io/agent-ref", agent_ref)
    ∷ ("kubecopilot.io/send-ref", send_ref)
    ∷ []

abbrev pub response_of : ResponsePayload → KubeCopilotResponse
response_of p = record {
  meta =
      record (object_meta (or_default p.namespace default_namespace) (response_name p.queue_id)) {
        labels = exchange_labels p.session_id p.agent_ref p.send_ref;
      };
  spec = record {
    agent_ref = p.agent_ref;
    session_id = p.session_id;
    prompt = p.prompt;
    response = p.response;
    send_ref = p.send_ref;
  };
  status = record { created_at = none };
}

abbrev pub chunk_of : ChunkPayload → KubeCopilotChunk
chunk_of p = record {
  meta =
      record (object_meta (or_default p.namespace default_namespace)
        (chunk_name p.send_ref p.sequence)) {
          labels = exchange_labels p.session_id p.agent_ref p.send_ref;
        };
  spec = record {
    agent_ref = p.agent_ref;
    session_id = p.session_id;
    send_ref = p.send_ref;
    sequence = p.sequence;
    chunk_type = p.chunk_type;
    content = p.content;
  };
}

abbrev pub notification_type_of : NotificationPayload → String
notification_type_of p = or_default p.notification_type "info"

abbrev pub notification_of : NotificationPayload → ℕ → KubeCopilotNotification
notification_of p millis = record {
  meta =
      record (object_meta (or_default p.namespace default_namespace)
        (notification_name p.session_id millis)) {
          labels =
              ("kubecopilot.io/session-id", p.session_id)
              ∷ ("kubecopilot.io/agent-ref", p.agent_ref)
              ∷ [];
        };
  spec = record {
    agent_ref = p.agent_ref;
    session_id = p.session_id;
    message = p.message;
    notification_type = notification_type_of p;
    title = p.title;
    task_ref = p.task_ref;
  };
  status = record { created_at = none };
}

abbrev pub valid_types : List String
valid_types = "info" ∷ "success" ∷ "warning" ∷ "error" ∷ []

module _ {env : Env} where
  accept_response :
      (String → Result ApiError ResponsePayload) → String → String → Exec env Reply (Unit {0})
  accept_response decode method body = do
    stop_if (not (method == "POST")) (refused 405 "method not allowed")
    payload ← pure (decode body) on_error λ e. stop (refused 400 "bad request")
    time ← now
    resp ← create Kind.response (response_of payload) on_error λ e.
        stop (refused 500 "failed to create response object")
    update_status Kind.response (record resp { status = record { created_at = some time } })
    stop (
        accepted
          (some (response_name payload.queue_id, or_default payload.namespace default_namespace)))

  accept_chunk :
      (String → Result ApiError ChunkPayload) → String → String → Exec env Reply (Unit {0})
  accept_chunk decode method body = do
    stop_if (not (method == "POST")) (refused 405 "method not allowed")
    payload ← pure (decode body) on_error λ e. stop (refused 400 "bad request")
    chunk ← create Kind.chunk (chunk_of payload) on_error λ e.
        stop (refused 500 "failed to create chunk")
    stop (accepted none)

  accept_notification :
      (String → Result ApiError NotificationPayload) → String → String → Exec env Reply (Unit {0})
  accept_notification decode method body = do
    stop_if (not (method == "POST")) (refused 405 "method not allowed")
    payload ← pure (decode body) on_error λ e. stop (refused 400 "bad request")
    stop_if (payload.session_id == "" || payload.message == "" || payload.agent_ref == "")
        (refused 400 "session_id, agent_ref, and message are required")
    stop_if (not (contains valid_types (notification_type_of payload)))
        (refused 400 "notification_type must be one of: info, success, warning, error")
    time ← now
    notif ← create Kind.notification (notification_of payload time) on_error λ e.
        stop (refused 500 "failed to create notification object")
    update_status Kind.notification (record notif { status = record { created_at = some time } })
    stop (
        accepted (
          some (
            notification_name payload.session_id time,
            or_default payload.namespace default_namespace,
          )))

  -- `handleResponse`, `handleChunk` and `handleNotification`
  pub handle_response :
      (String → Result ApiError ResponsePayload) → String → String → World env → Reply × World env
  unfolding accept_response
  handle_response decode method body = serve (accepted none) (accept_response decode method body)

  pub handle_chunk :
      (String → Result ApiError ChunkPayload) → String → String → World env → Reply × World env
  unfolding accept_chunk
  handle_chunk decode method body = serve (accepted none) (accept_chunk decode method body)

  pub handle_notification :
      (String → Result ApiError NotificationPayload)
      → String
      → String
      → World env
      → Reply × World env
  unfolding accept_notification
  handle_notification decode method body =
      serve (accepted none) (accept_notification decode method body)
