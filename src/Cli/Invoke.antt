-- ===== src/Cli/Invoke.antt =====
-- cmd/cli/invoke.go: `kubecopilot invoke`, which creates a send and prints the chunks of its answer.
pub mod Sequences
pub mod Printed
pub mod Complete
pub mod Rules
pub mod InOrder
pub mod End
pub mod Waiting
pub mod Outcome
pub mod Sorting
pub mod Early
use kubecopilot_core.Common.{
  ℕ, zero, suc, ◌+◌, ℤ, String, Bool, true, false, Option, none, some, List, [], ◌∷◌, ◌==◌,
  if◌then◌else◌, Result, ok, err, ltb, leb,
}
use kubecopilot_core.Common.Text.{◌<>◌}
use kubecopilot_core.Phases.{phase_done, phase_error}
use kubecopilot_core.Api.Meta.{Key, object_meta}
use kubecopilot_core.Api.Send.{KubeCopilotSend}
use kubecopilot_core.Api.Exchange.{KubeCopilotChunk}
use kubecopilot_core.Api.Kinds.{Kind}
use kubecopilot_core.Env.{Env, Selector, Stream}
use kubecopilot_core.Env.Exec.{
  Exec, World, pure, stop, branch, ◌on_error◌, get, list, list_selected, create, ◌>>=◌, ◌>>◌,
}
use kubecopilot_core.Env.Console.{print}
use kubecopilot_core.Cli.{Flags, Libraries, Command, fail, with_client, ◌or_fail_with◌, execute}

-- The flags of `invoke`; the timeout shows as the number of ticks before it.
pub record InvokeFlags : Type 0 where
  pub agent : String
  pub session_id : String

abbrev pub send_of : Flags → InvokeFlags → String → KubeCopilotSend
send_of flags options message = record {
  meta = record (object_meta flags.namespace "") { generate_name = options.agent <> "-send-" };
  spec = record {
    agent_ref = options.agent;
    message = message;
    session_id = options.session_id;
    session_config = none;
    approved = false;
  };
  status = record { phase = ""; queue_id = ""; error_message = ""; conditions = [] };
}

-- `a < b` and `a + 1` on Go's `int` of 64 bits, which wraps from the largest number to the smallest.
abbrev pub less : ℤ → ℤ → Bool
less (ℤ.pos a) (ℤ.pos b) = ltb a b
less (ℤ.pos a) (ℤ.negsuc b) = false
less (ℤ.negsuc a) (ℤ.pos b) = true
less (ℤ.negsuc a) (ℤ.negsuc b) = ltb b a

abbrev pub max_int : ℕ
max_int = 9223372036854775807

abbrev pub next : ℤ → ℤ
next (ℤ.pos a) = if ltb a max_int then ℤ.pos (a + 1) else ℤ.negsuc max_int
next (ℤ.negsuc zero) = ℤ.pos 0
next (ℤ.negsuc (suc a)) = ℤ.negsuc a

-- Where a chunk is printed, and as which text.
pub chunk_line : KubeCopilotChunk → Stream × String
chunk_line chunk =
    let type = chunk.spec.chunk_type in
    let content = chunk.spec.content in
    if type == "thinking"
    then (Stream.stderr, "[thinking] " <> content <> "\n")
    else if type == "tool_call"
    then (Stream.stderr, "[tool] " <> content <> "\n")
    else if type == "tool_result"
    then (Stream.stderr, "[result] " <> content <> "\n")
    else if type == "error"
    then (Stream.stderr, "[error] " <> content <> "\n")
    else if type == "info"
    then (Stream.stderr, "[info] " <> content <> "\n")
    else (Stream.stdout, content)

pub relevant : String → List KubeCopilotChunk → List KubeCopilotChunk
relevant send_name [] = []
relevant send_name (chunk ∷ chunks) =
    let rest = relevant send_name chunks in
    if chunk.spec.send_ref == send_name then chunk ∷ rest else rest

module _ {env : Env} where
  pub print_chunk : KubeCopilotChunk → Exec env (Option String) (Unit {0})
  unfolding chunk_line
  print_chunk chunk = print (chunk_line chunk).0 (chunk_line chunk).1

  -- The loop over the sorted chunks, which gives the new value of `printed`.
  pub print_new : List KubeCopilotChunk → ℤ → Exec env (Option String) ℤ
  unfolding print_chunk
  print_new [] printed = pure printed
  print_new (chunk ∷ chunks) printed =
      let skipped = print_new chunks printed in
      let shown = print_chunk chunk >> print_new chunks (next chunk.spec.sequence) in
      if less chunk.spec.sequence printed then skipped else shown

  pub fetch_chunks : String → String → Exec env (Option String) (List KubeCopilotChunk)
  fetch_chunks namespace send_name =
      list_selected Kind.chunk namespace (Selector.by_field "spec.sendRef" send_name) on_error λ _.
      list Kind.chunk namespace or_fail_with "failed to list chunks"

  pub check_send : String → String → Exec env (Option String) (Unit {0})
  check_send namespace send_name = do
    found ← get Kind.send (record { namespace = namespace; name = send_name })
    branch found
        (λ send.
          if send.status.phase == phase_done
          then stop none
          else if send.status.phase == phase_error
          then fail ("agent returned error: " <> send.status.error_message)
          else pure tt)
        (λ _. pure tt)

-- `order` is sort.Slice by the sequence; it need not be stable.
module _ {env : Env} (order : List KubeCopilotChunk → List KubeCopilotChunk) where
  -- One tick behind the fetch: filter, sort, print what is new, and look at the send.
  pub pass : String → String → ℤ → List KubeCopilotChunk → Exec env (Option String) ℤ
  unfolding relevant print_new check_send
  pass namespace send_name printed chunks = do
    printed' ← print_new (order (relevant send_name chunks)) printed
    check_send namespace send_name
    pure printed'

  pub tick : String → String → ℤ → Exec env (Option String) ℤ
  unfolding fetch_chunks pass
  tick namespace send_name printed =
      fetch_chunks namespace send_name >>= pass namespace send_name printed

  -- `ticks` is how many ticks of the ticker the loop takes before the deadline.
  pub stream_from : ℕ → String → String → ℤ → Command env
  unfolding tick
  stream_from zero namespace send_name printed = fail "timeout waiting for response"
  stream_from (suc ticks) namespace send_name printed =
      tick namespace send_name printed >>= λ printed'.
      stream_from ticks namespace send_name printed'

  unfoldable pub stream_chunks : ℕ → String → String → Command env
  unfolding stream_from
  stream_chunks ticks namespace send_name = stream_from ticks namespace send_name (ℤ.pos 0)

  pub invoke : Libraries → Flags → InvokeFlags → ℕ → String → Command env
  unfolding stream_chunks
  invoke lib flags options ticks message = do
    with_client lib flags
    send ← create Kind.send (send_of flags options message) or_fail_with "failed to create send"
    print Stream.stderr ("Created send/" <> send.meta.name <> " — streaming response…\n")
    stream_chunks ticks flags.namespace send.meta.name
