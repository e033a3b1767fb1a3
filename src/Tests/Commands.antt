-- ===== src/Tests/Commands.antt =====
-- Runs of the command line.
use kubecopilot_core.Common.{
  ℕ, ◌+◌, ◌-◌, ltb, if◌then◌else◌, ℤ, ◌≡◌, refl, arith, String, false, some, none, List, [], ◌∷◌,
  ok, err,
}
use kubecopilot_core.Api.Meta.{object_meta}
use kubecopilot_core.Api.Send.{KubeCopilotSend}
use kubecopilot_core.Api.Exchange.{KubeCopilotChunk}
use kubecopilot_core.Api.Kinds.{Kind}
use kubecopilot_core.Env.{Codec, Stream}
use kubecopilot_core.Env.Exec.{serve, start}
use kubecopilot_core.Env.Console.{print}
use kubecopilot_core.Common.Text.{decimal}
use kubecopilot_core.Cli.{Flags, Libraries, execute}
use kubecopilot_core.Cli.Age.{format_age}
use kubecopilot_core.Cli.Age.Reading.{Reads, format_age-Reads}
use kubecopilot_core.Cli.Table.{TabWriter, new_stdout_tab_writer_helper, print_rows, flush}
use kubecopilot_core.Cli.Table.Errors.{checked_from, flush-print_rows_checked}
use kubecopilot_core.Cli.Invoke.{max_int, InvokeFlags, send_of, stream_chunks, invoke}
use kubecopilot_core.Cli.Invoke.InOrder.{InOrder}
use kubecopilot_core.Cli.Invoke.Outcome.{InvokeEnd, invoke-InvokeEnd}
use kubecopilot_core.Cli.Invoke.Printed.{outputs}
use kubecopilot_core.Cli.Invoke.Sorting.{sort_chunks}
use kubecopilot_core.Cli.Invoke.Waiting.{stream_chunks-times_out}
use kubecopilot_core.Cli.Invoke.Early.{stream_chunks-stops_when_queued}
use kubecopilot_core.Cli.Invoke.Rules.{reads}
use kubecopilot_core.Send.Payload.{AsyncChatRequest, AsyncChatResponse}
use kubecopilot_core.Tests.Memory.{Cluster, memory, cluster}
use kubecopilot_core.Tests.Fixtures.{team_ns, fixed_codec, send_of as send_saying}

abbrev libraries : Libraries
libraries = record {
  RestConfig = Unit {0};
  client_config = λ rules. ok tt;
  new_client = λ config. ok tt;
}

abbrev flags : Flags
flags = record { kubeconfig = ""; namespace = team_ns; kube_ctx = "" }

abbrev invoke_flags : InvokeFlags
invoke_flags = record { agent = "ops"; session_id = "" }

abbrev chunk : ℕ → String → String → KubeCopilotChunk
chunk sequence type content = record {
  meta = object_meta team_ns "chunk";
  spec = record {
    agent_ref = "ops";
    session_id = "";
    send_ref = "s1";
    sequence = ℤ.pos sequence;
    chunk_type = type;
    content = content;
  };
}

abbrev chunks : List KubeCopilotChunk
chunks = chunk 1 "text" "lo" ∷ chunk 0 "text" "hel" ∷ chunk 1 "text" "again" ∷ []

abbrev send_in : String → KubeCopilotSend
send_in phase = record (send_saying "hello" false) {
  status = record { phase = phase; queue_id = ""; error_message = ""; conditions = [] };
}

abbrev queue_codec : Codec AsyncChatRequest AsyncChatResponse
queue_codec = fixed_codec (record { queue_id = "q-1"; status = "queued" })

abbrev queued_send : KubeCopilotSend
queued_send = record (send_saying "hello" false) {
  status = record { phase = "Done"; queue_id = "q-1"; error_message = ""; conditions = [] };
}

abbrev with_send : String → Cluster
with_send phase = cluster (
    (Kind.send, send_in phase)
    ∷ (Kind.chunk, chunk 1 "text" "lo")
    ∷ (Kind.chunk, chunk 0 "text" "hel")
    ∷ (Kind.chunk, chunk 1 "text" "again")
    ∷ [])

-- Two chunks with one sequence: the second is not printed.
streamed :
    outputs
      (execute
        (stream_chunks sort_chunks 3 team_ns "s1")
        (start {env = memory} (with_send "Done"))).1.calls
    ≡ (Stream.stdout, "lo") ∷ (Stream.stdout, "hel") ∷ []
unfolding stream_chunks execute serve print
streamed = refl

-- Behind a chunk with the largest number the bound wraps, and the next tick prints all again.
reprinted :
    outputs
      (execute (stream_chunks sort_chunks 2 team_ns "s1") (
        start {env = memory} (
          cluster (
            (Kind.send, send_in "")
            ∷ (Kind.chunk, chunk 0 "text" "hel")
            ∷ (Kind.chunk, chunk max_int "text" "lo")
            ∷ [])))).1.calls
    ≡ (Stream.stdout, "lo")
      ∷ (Stream.stdout, "hel")
      ∷ (Stream.stdout, "lo")
      ∷ (Stream.stdout, "hel")
      ∷ []
unfolding stream_chunks execute serve print
reprinted = refl

stream_chunks-times_out_example :
    (execute
      (stream_chunks sort_chunks 150 team_ns "s1")
      (start {env = memory} (with_send "Denied"))).0
    ≡ some "timeout waiting for response"
stream_chunks-times_out_example =
    stream_chunks-times_out memory sort_chunks team_ns "s1" 150 (with_send "Denied")
      (ok (send_in "Denied"))
      (err (record { not_found = false; text = "field label not supported" }))
      (chunk 1 "text" "lo" ∷ chunk 0 "text" "hel" ∷ chunk 1 "text" "again" ∷ []) refl (refl, refl)
      refl refl

-- Queued, and not yet answered: there is no chunk.
abbrev only_queued : Cluster
only_queued = cluster ((Kind.send, queued_send) ∷ [])

stream_chunks-stops_when_queued_example :
    ((execute (stream_chunks sort_chunks 150 team_ns "s1") (start {env = memory} only_queued)).0
      ≡ none)
    × (reads
          (execute
            (stream_chunks sort_chunks 150 team_ns "s1")
            (start {env = memory} only_queued)).1.calls
        ≡ 1)
stream_chunks-stops_when_queued_example =
    stream_chunks-stops_when_queued memory sort_chunks team_ns "s1" 149 only_queued queue_codec
      (send_saying "hello" false) (record { status_code = 200; body = "{}" })
      (record { queue_id = "q-1"; status = "queued" })
      (err (record { not_found = false; text = "field label not supported" })) [] refl refl refl
      refl refl

invoke-InvokeEnd_example :
    InvokeEnd libraries flags
      (send_of flags invoke_flags "hello")
      2
      (execute
        (invoke sort_chunks libraries flags invoke_flags 2 "hello")
        (start {env = memory} (cluster []))).0
      (execute
        (invoke sort_chunks libraries flags invoke_flags 2 "hello")
        (start {env = memory} (cluster []))).1.calls
invoke-InvokeEnd_example =
    invoke-InvokeEnd memory sort_chunks libraries flags invoke_flags "hello" 2 (cluster [])

ages :
    (format_age 100000 41000 ≡ "59s")
    × (format_age 7300000 100000 ≡ "2h")
    × (format_age 1000 4500 ≡ "-3s")
unfolding format_age decimal
ages = (refl, refl, refl)

format_age-Reads_example : Reads (7300000 - 100000) (format_age 7300000 100000)
format_age-Reads_example = format_age-Reads 7300000 100000 (omega arith)

-- A writer whose every write behind the second fails, and which counts its writes.
abbrev failing : TabWriter
failing = record {
  State = ℕ;
  empty = 0;
  write = λ text n.
      if ltb n 2 then (none, n + 1) else (some (record { not_found = false; text = "closed" }), n);
  flush = λ n. (none, n);
  output = λ n. "";
}

flush-print_rows_checked_example :
    flush failing
      (print_rows failing ("a" ∷ "b" ∷ "c" ∷ "d" ∷ []) (new_stdout_tab_writer_helper failing))
    ≡ checked_from failing ("a" ∷ "b" ∷ "c" ∷ "d" ∷ []) none 0
flush-print_rows_checked_example = flush-print_rows_checked failing ("a" ∷ "b" ∷ "c" ∷ "d" ∷ [])
