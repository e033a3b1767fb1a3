-- ===== src/Tests/Exchanges.antt =====
-- Runs of the cancel and message controllers, and of the webhook.
use kubecopilot_core.Common.{◌↔◌, ℤ, ◌≡◌, refl, String, false, [], ◌∷◌, ok, arith}
use kubecopilot_core.Api.Meta.{object_meta}
use kubecopilot_core.Api.Send.{KubeCopilotSend}
use kubecopilot_core.Api.Exchange.{KubeCopilotCancel, KubeCopilotMessage}
use kubecopilot_core.Api.Kinds.{Kind}
use kubecopilot_core.Env.{Codec, HttpResponse}
use kubecopilot_core.Env.Exec.{done, requeue_after, got, requested, status_updated, start}
use kubecopilot_core.Cancel
use kubecopilot_core.Cancel.Guard as CancelGuard
use kubecopilot_core.Cancel.Branches as CancelBranches
use kubecopilot_core.Cancel.Stuck.{reconcile-stuck}
use kubecopilot_core.Send.Payload.{AsyncChatRequest, AsyncChatResponse}
use kubecopilot_core.Send.Lifecycle.History.{approve, approved, begins, goes_on}
use kubecopilot_core.Message
use kubecopilot_core.Message.Guard as MessageGuard
use kubecopilot_core.Message.Branches as MessageBranches
use kubecopilot_core.Webhook.{
  ChunkPayload, ResponsePayload, NotificationPayload, handle_chunk, handle_response,
  handle_notification, notification_name, chunk_name,
}
use kubecopilot_core.Webhook.Replies.{
  ChunkReply, ResponseReply, NotificationReply, handle_chunk-replies, handle_response-replies,
  handle_notification-replies,
}
use kubecopilot_core.Webhook.Names.{notification_name-collides}
use kubecopilot_core.Webhook.Chunks.{send_tail, chunk_name_iff}
use kubecopilot_core.Tests.Memory.{Cluster, memory, cluster, replaced}
use kubecopilot_core.Tests.Fixtures.{key, fixed_codec, agent_named, send_of}

abbrev cancel_s1 : KubeCopilotCancel
cancel_s1 = record {
  meta = object_meta "team-a" "c1";
  spec = record { agent_ref = "ops"; send_ref = "s1" };
  status = record { phase = ""; error_message = "" };
}

abbrev denied_send : KubeCopilotSend
denied_send = record (send_of "rm -rf now" false) {
  status = record { phase = "Denied"; queue_id = ""; error_message = "denied"; conditions = [] };
}

abbrev queued_send : KubeCopilotSend
queued_send = record (send_of "hello" false) {
  status = record { phase = "Done"; queue_id = "q-1"; error_message = ""; conditions = [] };
}

abbrev with_cancel : KubeCopilotSend → Cluster
with_cancel send =
    cluster ((Kind.agent, agent_named "ops" []) ∷ (Kind.send, send) ∷ (Kind.cancel, cancel_s1) ∷ [])

abbrev codec : Codec AsyncChatRequest AsyncChatResponse
codec = fixed_codec (record { queue_id = "q-1"; status = "queued" })

-- A denied send is approved too late, and never gets the queue id that its cancel waits for.
reconcile-stuck_example :
    Cancel.reconcile {env = memory} (key "c1") (start (with_cancel (approve denied_send))) ≡ (
      requeue_after 2,
      record {
        state = with_cancel (approve denied_send);
        calls =
            got Kind.send (key "s1") (ok (approve denied_send))
            ∷ got Kind.cancel (key "c1") (ok cancel_s1)
            ∷ [];
      },
    )
reconcile-stuck_example =
    reconcile-stuck memory codec (key "c1") denied_send (approve denied_send) cancel_s1
      (with_cancel (approve denied_send)) (with_cancel (approve denied_send))
      (with_cancel (approve denied_send)) refl refl (goes_on begins approved) refl refl refl

abbrev cancelled : KubeCopilotCancel
cancelled = record cancel_s1 { status = record { phase = "Cancelled"; error_message = "" } }

abbrev yes_answer : HttpResponse
yes_answer = record { status_code = 200; body = "{}" }

reconcile-dropped_example :
    Cancel.reconcile {env = memory} (key "c1") (start (with_cancel queued_send)) ≡ (
      done,
      record {
        state = record (with_cancel queued_send) {
          objects = replaced Kind.cancel cancelled (with_cancel queued_send).objects;
        };
        calls =
            status_updated Kind.cancel cancelled (ok cancelled)
            ∷ requested
                (record {
                  method = "DELETE";
                  url = "http://ops.team-a.svc.cluster.local:8080/cancel/q-1";
                  body = "";
                  timeout = 10;
                })
                (ok yes_answer)
            ∷ got Kind.agent (key "ops") (ok (agent_named "ops" []))
            ∷ got Kind.send (key "s1") (ok queued_send)
            ∷ got Kind.cancel (key "c1") (ok cancel_s1)
            ∷ [];
      },
    )
reconcile-dropped_example =
    CancelBranches.reconcile-dropped memory (key "c1") (with_cancel queued_send)
      (with_cancel queued_send) (with_cancel queued_send) cancel_s1 queued_send refl refl refl
      (with_cancel queued_send) (with_cancel queued_send) _ (agent_named "ops" []) refl refl
      (ok yes_answer) (ok cancelled) refl refl

reconcile-Aimed_example :
    CancelGuard.Aimed
      (key "c1")
      (Cancel.reconcile {env = memory} (key "c1") (start (with_cancel queued_send))).1.calls
reconcile-Aimed_example = CancelGuard.reconcile-Aimed memory (key "c1") (with_cancel queued_send)

abbrev hello : KubeCopilotMessage
hello = record {
  meta = object_meta "team-a" "m1";
  spec = record { agent_ref = "ops"; message = "hello"; session_id = "" };
  status = record {
    phase = "";
    response = "";
    session_id = "";
    error_message = "";
    conditions = [];
  };
}

abbrev with_message : Cluster
with_message = cluster ((Kind.agent, agent_named "ops" []) ∷ (Kind.message, hello) ∷ [])

abbrev chat_codec : Codec Message.ChatRequest Message.ChatResponse
chat_codec = fixed_codec (record { response = "hi"; session_id = "sess" })

reconcile-Addressed_example :
    MessageGuard.Addressed chat_codec
      (key "m1")
      (Message.reconcile {env = memory} chat_codec (key "m1") (start with_message)).1.calls
reconcile-Addressed_example =
    MessageGuard.reconcile-Addressed memory chat_codec (key "m1") with_message

abbrev answered : KubeCopilotMessage
answered = record hello {
  status = record {
    phase = "Done";
    response = "hi";
    session_id = "sess";
    error_message = "";
    conditions = [];
  };
}

reconcile-answered_example :
    Message.reconcile {env = memory} chat_codec (key "m1") (start with_message) ≡ (
      done,
      record {
        state = record with_message {
          objects = replaced Kind.message answered with_message.objects;
        };
        calls =
            status_updated Kind.message answered (ok answered)
            ∷ requested
                (record {
                  method = "POST";
                  url = "http://ops.team-a.svc.cluster.local:8080/chat";
                  body = "body";
                  timeout = 120;
                })
                (ok yes_answer)
            ∷ got Kind.agent (key "ops") (ok (agent_named "ops" []))
            ∷ got Kind.message (key "m1") (ok hello)
            ∷ [];
      },
    )
reconcile-answered_example =
    MessageBranches.reconcile-answered memory chat_codec (key "m1") with_message with_message
      with_message hello (agent_named "ops" []) refl refl refl with_message _ "body" refl refl
      (ok yes_answer) (ok answered) refl refl

abbrev chunk_payload : ChunkPayload
chunk_payload = record {
  send_ref = "send-0123456789ab";
  session_id = "sess";
  agent_ref = "ops";
  namespace = "";
  sequence = ℤ.pos 3;
  chunk_type = "text";
  content = "hi";
}

handle_chunk-replies_example :
    ChunkReply
      (λ body. ok chunk_payload)
      "POST"
      "{}"
      (handle_chunk {env = memory} (λ body. ok chunk_payload) "POST" "{}" (start (cluster []))).0
      (handle_chunk {env = memory}
        (λ body. ok chunk_payload)
        "POST"
        "{}"
        (start (cluster []))).1.calls
handle_chunk-replies_example =
    handle_chunk-replies memory (λ body. ok chunk_payload) "POST" "{}" (cluster [])

abbrev response_payload : ResponsePayload
response_payload = record {
  queue_id = "0123456789";
  session_id = "sess";
  prompt = "hello";
  response = "hi";
  send_ref = "s1";
  namespace = "team-a";
  agent_ref = "ops";
}

handle_response-replies_example :
    ResponseReply
      (λ body. ok response_payload)
      "POST"
      "{}"
      (handle_response {env = memory}
        (λ body. ok response_payload)
        "POST"
        "{}"
        (start (cluster []))).0
      (handle_response {env = memory}
        (λ body. ok response_payload)
        "POST"
        "{}"
        (start (cluster []))).1.calls
handle_response-replies_example =
    handle_response-replies memory (λ body. ok response_payload) "POST" "{}" (cluster [])

abbrev notification_payload : NotificationPayload
notification_payload = record {
  session_id = "sess";
  agent_ref = "ops";
  namespace = "team-a";
  message = "done";
  notification_type = "";
  title = "";
  task_ref = "";
}

handle_notification-replies_example :
    NotificationReply
      (λ body. ok notification_payload)
      "POST"
      "{}"
      (handle_notification {env = memory}
        (λ body. ok notification_payload)
        "POST"
        "{}"
        (start (cluster []))).0
      (handle_notification {env = memory}
        (λ body. ok notification_payload)
        "POST"
        "{}"
        (start (cluster []))).1.calls
handle_notification-replies_example =
    handle_notification-replies memory (λ body. ok notification_payload) "POST" "{}" (cluster [])

abbrev long_session : String
long_session = "0123456789012345678901234567890123456789012345678901234567"

notification_name-collides_example :
    notification_name long_session 1700000000000 ≡ notification_name long_session 1700000000001
notification_name-collides_example =
    notification_name-collides long_session 1700000000000 1700000000001 (omega arith)

-- Two sends of different agents whose generated names end alike.
chunk_name_iff_example :
    (chunk_name "ops-a-send-xk2p9" (ℤ.pos 7) ≡ chunk_name "dev-a-send-xk2p9" (ℤ.pos 7))
    ↔ ((send_tail "ops-a-send-xk2p9" ≡ send_tail "dev-a-send-xk2p9") × (ℤ.pos 7 ≡ ℤ.pos 7))
chunk_name_iff_example =
    chunk_name_iff "ops-a-send-xk2p9" "dev-a-send-xk2p9" (ℤ.pos 7) (ℤ.pos 7) refl
