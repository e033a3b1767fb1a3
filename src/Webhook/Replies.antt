-- ===== src/Webhook/Replies.antt =====
-- What an agent learns from a reply of internal/webhook/server.go.
use kubecopilot_core.Common.{
  ℕ, ◌≡◌, String, Bool, true, false, not, ◌||◌, none, some, List, [], ◌∷◌, ◌==◌, Result, ok, err,
  contains,
}
use kubecopilot_core.Api.Meta.{ApiError}
use kubecopilot_core.Api.Exchange.{KubeCopilotResponse, KubeCopilotChunk, KubeCopilotNotification}
use kubecopilot_core.Api.Kinds.{Kind}
use kubecopilot_core.Env.{Env}
use kubecopilot_core.Env.Exec.{Call, created, status_updated, clocked, start, replied}
use kubecopilot_core.Env.Ensures.{
  Ensures, ensures_rules, Ensures-when-bind, Ensures-pure-error, serve-Ensures,
}
use kubecopilot_core.Webhook.{
  ResponsePayload, ChunkPayload, NotificationPayload, Reply, refused, accepted, response_of,
  chunk_of, notification_of, notification_type_of, valid_types, accept_response, accept_chunk,
  accept_notification, handle_response, handle_chunk, handle_notification,
}

module _ {Payload : Type 0} (decode : String → Result ApiError Payload) (method body : String) where
  -- No handler calls anything for a request that it cannot read.
  pub data Unread : Reply → List Call → Type 0 where
    wrong_method : not (method == "POST") ≡ true → Unread (refused 405 "method not allowed") []
    malformed :
        (e : ApiError)
        → not (method == "POST") ≡ false
        → decode body ≡ err e
        → Unread (refused 400 "bad request") []

  abbrev pub Read : Payload → Type 0
  Read p = (not (method == "POST") ≡ false) × (decode body ≡ ok p)

-- `ChunkReply reply calls`: the reply and all calls behind it, the latest first.
pub data ChunkReply (decode : String → Result ApiError ChunkPayload) (method body : String)
    : Reply → List Call → Type 0 where
  unread :
      {reply : Reply} {calls : List Call}
      → Unread decode method body reply calls
      → ChunkReply decode method body reply calls
  not_created :
      {p : ChunkPayload} {e : ApiError}
      → Read decode method body p
      → ChunkReply decode method body
          (refused 500 "failed to create chunk")
          (created Kind.chunk (chunk_of p) (err e) ∷ [])
  recorded :
      {p : ChunkPayload} {o : KubeCopilotChunk}
      → Read decode method body p
      → ChunkReply decode method body (accepted none) (created Kind.chunk (chunk_of p) (ok o) ∷ [])

pub data ResponseReply (decode : String → Result ApiError ResponsePayload) (method body : String)
    : Reply → List Call → Type 0 where
  unread :
      {reply : Reply} {calls : List Call}
      → Unread decode method body reply calls
      → ResponseReply decode method body reply calls
  not_created :
      {p : ResponsePayload} {time : ℕ} {e : ApiError}
      → Read decode method body p
      → ResponseReply decode method body
          (refused 500 "failed to create response object")
          (created Kind.response (response_of p) (err e) ∷ clocked time ∷ [])
  recorded :
      {p : ResponsePayload} {time : ℕ} {o : KubeCopilotResponse}
      {r : Result ApiError KubeCopilotResponse}
      → Read decode method body p
      → ResponseReply decode method body
          (accepted (some ((response_of p).meta.name, (response_of p).meta.namespace)))
          (status_updated Kind.response (record o { status = record { created_at = some time } }) r
            ∷ created Kind.response (response_of p) (ok o)
            ∷ clocked time
            ∷ [])

abbrev pub lacks_required : NotificationPayload → Bool
lacks_required p = p.session_id == "" || p.message == "" || p.agent_ref == ""

abbrev pub has_unknown_type : NotificationPayload → Bool
has_unknown_type p = not (contains valid_types (notification_type_of p))

pub data NotificationReply (decode : String → Result ApiError NotificationPayload)
    (method body : String) : Reply → List Call → Type 0 where
  unread :
      {reply : Reply} {calls : List Call}
      → Unread decode method body reply calls
      → NotificationReply decode method body reply calls
  incomplete :
      {p : NotificationPayload}
      → Read decode method body p
      → lacks_required p ≡ true
      → NotificationReply decode method body
          (refused 400 "session_id, agent_ref, and message are required")
          []
  unknown_type :
      {p : NotificationPayload}
      → Read decode method body p
      → lacks_required p ≡ false
      → has_unknown_type p ≡ true
      → NotificationReply decode method body
          (refused 400 "notification_type must be one of: info, success, warning, error")
          []
  not_created :
      {p : NotificationPayload} {time : ℕ} {e : ApiError}
      → Read decode method body p
      → NotificationReply decode method body
          (refused 500 "failed to create notification object")
          (created Kind.notification (notification_of p time) (err e) ∷ clocked time ∷ [])
  recorded :
      {p : NotificationPayload} {time : ℕ} {o : KubeCopilotNotification}
      {r : Result ApiError KubeCopilotNotification}
      → Read decode method body p
      → lacks_required p ≡ false
      → has_unknown_type p ≡ false
      → NotificationReply decode method body
          (accepted
            (some ((notification_of p time).meta.name, (notification_of p time).meta.namespace)))
          (status_updated Kind.notification
              (record o { status = record { created_at = some time } })
              r
            ∷ created Kind.notification (notification_of p time) (ok o)
            ∷ clocked time
            ∷ [])

module _ {env : Env} (method body : String) (s : env.State) where
  accept_chunk-replies :
      (decode : String → Result ApiError ChunkPayload)
      → Ensures
          (λ r w. ChunkReply decode method body (replied (accepted none) r) w.calls)
          (accept_chunk decode method body)
          (start {env = env} s)
  unfolding accept_chunk
  accept_chunk-replies decode =
      search
        (
          ensures_rules, wrong_method, malformed, ChunkReply.unread, ChunkReply.not_created,
          ChunkReply.recorded,
        )
        depth 20

  accept_response-replies :
      (decode : String → Result ApiError ResponsePayload)
      → Ensures
          (λ r w. ResponseReply decode method body (replied (accepted none) r) w.calls)
          (accept_response decode method body)
          (start {env = env} s)
  unfolding accept_response
  accept_response-replies decode =
      search
        (
          ensures_rules, wrong_method, malformed, ResponseReply.unread, ResponseReply.not_created,
          ResponseReply.recorded,
        )
        depth 20

  accept_notification-replies :
      (decode : String → Result ApiError NotificationPayload)
      → Ensures
          (λ r w. NotificationReply decode method body (replied (accepted none) r) w.calls)
          (accept_notification decode method body)
          (start {env = env} s)
  unfolding accept_notification
  accept_notification-replies decode =
      Ensures-when-bind _ _ _ _
        (λ other. search (ensures_rules, NotificationReply.unread, wrong_method))
        λ posted.
          Ensures-pure-error _ _ _ _
            (λ p parsed.
              Ensures-when-bind _ _ _ _
                (λ lacking. search (ensures_rules, NotificationReply.incomplete))
                λ complete.
                  Ensures-when-bind _ _ _ _
                    (λ unknown. search (ensures_rules, NotificationReply.unknown_type))
                    λ known.
                      search
                        (ensures_rules, NotificationReply.not_created, NotificationReply.recorded)
                        depth 20)
            λ e failed. search (ensures_rules, NotificationReply.unread, malformed)

-- The reply and the whole log of a run from an empty log are one of: 405 for another method than
-- POST, or 400 for a body that does not decode, each with no call; 500 behind one failed creation
-- of the chunk; or the acceptance behind its creation.
pub handle_chunk-replies :
    (env : Env) (decode : String → Result ApiError ChunkPayload) (method body : String)
    (s : env.State)
    → ChunkReply decode method body
        (handle_chunk {env = env} decode method body (start s)).0
        (handle_chunk {env = env} decode method body (start s)).1.calls
unfolding handle_chunk
handle_chunk-replies env decode method body s =
    serve-Ensures (λ r w. ChunkReply decode method body r w.calls) _ _ _
      (accept_chunk-replies method body s decode)

-- The reply and the whole log of a run from an empty log are one of: 405 for another method than
-- POST, or 400 for a body that does not decode, each with no call; 500 behind the clock and one
-- failed creation of the response; or the acceptance with the name and the namespace of the
-- response behind its creation and the one write of its time.
pub handle_response-replies :
    (env : Env) (decode : String → Result ApiError ResponsePayload) (method body : String)
    (s : env.State)
    → ResponseReply decode method body
        (handle_response {env = env} decode method body (start s)).0
        (handle_response {env = env} decode method body (start s)).1.calls
unfolding handle_response
handle_response-replies env decode method body s =
    serve-Ensures (λ r w. ResponseReply decode method body r w.calls) _ _ _
      (accept_response-replies method body s decode)

-- The reply and the whole log of a run from an empty log are one of: 405 for another method than
-- POST, or 400 for a body that does not decode, lacks a required field or has an unknown type, each
-- with no call; 500 behind the clock and one failed creation of the notification; or the acceptance
-- with the name and the namespace of the notification behind its creation and the one write of its
-- time.
pub handle_notification-replies :
    (env : Env) (decode : String → Result ApiError NotificationPayload) (method body : String)
    (s : env.State)
    → NotificationReply decode method body
        (handle_notification {env = env} decode method body (start s)).0
        (handle_notification {env = env} decode method body (start s)).1.calls
unfolding handle_notification
handle_notification-replies env decode method body s =
    serve-Ensures (λ r w. NotificationReply decode method body r w.calls) _ _ _
      (accept_notification-replies method body s decode)
