-- ===== src/Tests/Sends.antt =====
-- Runs of the send controller.
use kubecopilot_core.Common.{◌≡◌, refl, true, false, none, List, [], ◌∷◌, ok}
use kubecopilot_core.Glob
use kubecopilot_core.Api.Policy.{KubeCopilotPolicy}
use kubecopilot_core.Api.Send.{KubeCopilotSend}
use kubecopilot_core.Api.Kinds.{Kind}
use kubecopilot_core.Env.{Codec}
use kubecopilot_core.Env.Exec.{done, Call, got, listed, requested, status_updated, start, pure}
use kubecopilot_core.Policy.Words.{to_lower, fields, join}
use kubecopilot_core.Policy.{PolicyDecision, evaluate, contains_pattern, matches_patterns}
use kubecopilot_core.Send.{session_config, reconcile}
use kubecopilot_core.Send.Payload.{AsyncChatRequest, AsyncChatResponse}
use kubecopilot_core.Send.Guard.{Screened, reconcile-Screened}
use kubecopilot_core.Send.Branches.{reconcile-rests, reconcile-blocked, reconcile-permitted}
use kubecopilot_core.Send.Settled.{by_policy}
use kubecopilot_core.Send.Lifecycle.Moved.{Moved, reconcile-Moved}
use kubecopilot_core.Send.Lifecycle.History.{
  History, begins, goes_on, Change, approve, History-absorbed,
}
use kubecopilot_core.Tests.Memory.{Cluster, memory, cluster, replaced}
use kubecopilot_core.Tests.Fixtures.{key, fixed_codec, agent_named, no_delete, ask_first, send_of}

abbrev codec : Codec AsyncChatRequest AsyncChatResponse
codec = fixed_codec (record { queue_id = "q-1"; status = "queued" })

abbrev with_send : KubeCopilotSend → Cluster
with_send send = cluster (
    (Kind.agent, agent_named "ops" [])
    ∷ (Kind.policy, no_delete)
    ∷ (Kind.policy, ask_first)
    ∷ (Kind.send, send)
    ∷ [])

abbrev policies : List KubeCopilotPolicy
policies = no_delete ∷ ask_first ∷ []

-- Stopped by the policy `no-delete`.
abbrev bad_send : KubeCopilotSend
bad_send = send_of "rm -rf now" false

abbrev bad_verdict : KubeCopilotSend
bad_verdict = record bad_send {
  status = record bad_send.status {
    phase = "Denied";
    error_message = "denied by policy \"no-delete\" rule \"r1\"";
  };
}

reconcile-rests_example :
    reconcile {env = memory} codec (key "s1") (start (with_send bad_verdict)) ≡ (
      done,
      record {
        state = with_send bad_verdict;
        calls = got Kind.send (key "s1") (ok bad_verdict) ∷ [];
      },
    )
reconcile-rests_example =
    reconcile-rests memory codec (key "s1") (with_send bad_verdict) (with_send bad_verdict)
      bad_verdict
      (by_policy bad_send PolicyDecision.deny
        (record {
          decision = PolicyDecision.deny;
          rule_name = "r1";
          policy_name = "no-delete";
          message = "";
        })
        refl)
      refl

reconcile-blocked_example :
    reconcile {env = memory} codec (key "s1") (start (with_send bad_send)) ≡ (
      done,
      record {
        state = record (with_send bad_send) {
          objects = replaced Kind.send bad_verdict (with_send bad_send).objects;
        };
        calls =
            status_updated Kind.send bad_verdict (ok bad_verdict)
            ∷ listed Kind.policy "team-a" (ok policies)
            ∷ got Kind.agent (key "ops") (ok (agent_named "ops" []))
            ∷ got Kind.send (key "s1") (ok bad_send)
            ∷ [];
      },
    )
unfolding evaluate matches_patterns Glob.match to_lower contains_pattern fields join
reconcile-blocked_example =
    reconcile-blocked memory codec (key "s1") (with_send bad_send) (with_send bad_send) bad_send
      refl (with_send bad_send) (with_send bad_send) _ (agent_named "ops" []) policies refl refl
      refl refl refl (ok bad_verdict) refl refl

-- Approved, and so handed on.
abbrev good_send : KubeCopilotSend
good_send = send_of "kubectl apply -f x" true

abbrev sent_send : KubeCopilotSend
sent_send = record good_send {
  status = record good_send.status { phase = "Done"; queue_id = "q-1" };
}

abbrev good_reads : List Call
good_reads =
    listed Kind.policy "team-a" (ok policies)
    ∷ got Kind.agent (key "ops") (ok (agent_named "ops" []))
    ∷ got Kind.send (key "s1") (ok good_send)
    ∷ []

reconcile-permitted_example :
    reconcile {env = memory} codec (key "s1") (start (with_send good_send)) ≡ (
      done,
      record {
        state = record (with_send good_send) {
          objects = replaced Kind.send sent_send (with_send good_send).objects;
        };
        calls =
            status_updated Kind.send sent_send (ok sent_send)
            ∷ requested
                (record {
                  method = "POST";
                  url = "http://ops.team-a.svc.cluster.local:8080/asyncchat";
                  body = "body";
                  timeout = 15;
                })
                (ok (record { status_code = 200; body = "{}" }))
            ∷ good_reads;
      },
    )
unfolding evaluate matches_patterns Glob.match to_lower contains_pattern fields join session_config
    pure
reconcile-permitted_example =
    reconcile-permitted memory codec (key "s1") (with_send good_send) (with_send good_send)
      good_send refl (with_send good_send) (with_send good_send) (with_send good_send)
      (agent_named "ops" []) policies refl refl refl refl refl none "body" (with_send good_send) _
      good_reads refl refl (ok (record { status_code = 200; body = "{}" })) (ok sent_send) refl refl
      refl

reconcile-Screened_example :
    Screened memory.lower_table
      (reconcile {env = memory} codec (key "s1") (start (with_send good_send))).1.calls
reconcile-Screened_example = reconcile-Screened memory codec (key "s1") (with_send good_send)

reconcile-Moved_example :
    Moved
      (key "s1")
      (reconcile {env = memory} codec (key "s1") (start (with_send bad_send))).1.calls
reconcile-Moved_example = reconcile-Moved memory codec (key "s1") (with_send bad_send)

-- An approval that comes after the denial.
abbrev late_approval : History memory codec (key "s1") bad_verdict (approve bad_verdict)
late_approval = goes_on begins Change.approved

History-absorbed_example :
    ((approve bad_verdict).status ≡ bad_verdict.status)
    × ((approve bad_verdict).meta ≡ bad_verdict.meta)
History-absorbed_example = History-absorbed memory codec (key "s1") refl late_approval
