-- ===== src/Api/Exchange.antt =====
-- The resources that carry messages: api/v1/kubecopilotmessage_types.go, kubecopilotcancel_types.go,
-- kubecopilotresponse_types.go, kubecopilotchunk_types.go and kubecopilotnotification_types.go.
use kubecopilot_core.Common.{ℕ, ℤ, String, Option, List}
use kubecopilot_core.Api.Meta.{ObjectMeta, Condition}

pub record KubeCopilotMessageSpec : Type 0 where
  pub agent_ref : String
  pub message : String
  pub session_id : String

pub record KubeCopilotMessageStatus : Type 0 where
  pub phase : String
  pub response : String
  pub session_id : String
  pub error_message : String
  pub conditions : List Condition

pub record KubeCopilotMessage : Type 0 where
  pub meta : ObjectMeta
  pub spec : KubeCopilotMessageSpec
  pub status : KubeCopilotMessageStatus

pub record KubeCopilotCancelSpec : Type 0 where
  pub agent_ref : String
  pub send_ref : String

pub record KubeCopilotCancelStatus : Type 0 where
  pub phase : String
  pub error_message : String

pub record KubeCopilotCancel : Type 0 where
  pub meta : ObjectMeta
  pub spec : KubeCopilotCancelSpec
  pub status : KubeCopilotCancelStatus

pub record KubeCopilotResponseSpec : Type 0 where
  pub agent_ref : String
  pub session_id : String
  pub prompt : String
  pub response : String
  pub send_ref : String

-- A time is in milliseconds, and `none` is the nil pointer.
pub record KubeCopilotResponseStatus : Type 0 where
  pub created_at : Option ℕ

pub record KubeCopilotResponse : Type 0 where
  pub meta : ObjectMeta
  pub spec : KubeCopilotResponseSpec
  pub status : KubeCopilotResponseStatus

-- `Sequence` is a Go `int`, as the agent sent it.
pub record KubeCopilotChunkSpec : Type 0 where
  pub agent_ref : String
  pub session_id : String
  pub send_ref : String
  pub sequence : ℤ
  pub chunk_type : String
  pub content : String

pub record KubeCopilotChunk : Type 0 where
  pub meta : ObjectMeta
  pub spec : KubeCopilotChunkSpec

pub record KubeCopilotNotificationSpec : Type 0 where
  pub agent_ref : String
  pub session_id : String
  pub message : String
  pub notification_type : String
  pub title : String
  pub task_ref : String

pub record KubeCopilotNotificationStatus : Type 0 where
  pub created_at : Option ℕ

pub record KubeCopilotNotification : Type 0 where
  pub meta : ObjectMeta
  pub spec : KubeCopilotNotificationSpec
  pub status : KubeCopilotNotificationStatus
