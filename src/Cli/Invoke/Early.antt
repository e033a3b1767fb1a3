-- ===== src/Cli/Invoke/Early.antt =====
-- `kubecopilot invoke` (cmd/cli/invoke.go) on a send that the send controller has just handed to the
-- agent.
use kubecopilot_core.Common.{
  ℕ, suc, ℤ, ◌≡◌, refl, ap, String, Option, none, List, Result, ok, true, ◌==◌, ◌=?◌,
}
use kubecopilot_core.Phases.{phase_done}
use kubecopilot_core.Api.Meta.{ApiError}
use kubecopilot_core.Api.Send.{KubeCopilotSend}
use kubecopilot_core.Api.Exchange.{KubeCopilotChunk}
use kubecopilot_core.Api.Kinds.{Kind}
use kubecopilot_core.Env.{Env, Codec, HttpResponse}
use kubecopilot_core.Env.Exec.{World, start, branch, replied}
use kubecopilot_core.Env.Ensures.{Ensures, Ensures-stop-bind, Ensures-bind-bind, serve-Ensures}
use kubecopilot_core.Env.Answers.{Ensures-call-known}
use kubecopilot_core.Send.Payload.{AsyncChatRequest, AsyncChatResponse}
use kubecopilot_core.Send.Settled.{answered}
use kubecopilot_core.Cli.{execute}
use kubecopilot_core.Cli.Invoke.{relevant, pass, tick, stream_from, stream_chunks, check_send}
use kubecopilot_core.Cli.Invoke.Rules.{
  send_key, by_send, reads, print_new-keeps, fetch_chunks-known,
}

answered-done :
    (codec : Codec AsyncChatRequest AsyncChatResponse) (send : KubeCopilotSend)
    (response : HttpResponse) (answer : AsyncChatResponse)
    → (response.status_code =? 200) ≡ true
    → codec.decode response.body ≡ ok answer
    → ((answered codec send (ok response)).status.phase == phase_done) ≡ true
answered-done codec send response answer accepted decoded = rw (accepted, decoded) refl

module _ {env : Env} (order : List KubeCopilotChunk → List KubeCopilotChunk)
    (namespace send_name : String) (ticks : ℕ) (s : env.State) (send : KubeCopilotSend)
    (indexed : Result ApiError (List KubeCopilotChunk)) (chunks : List KubeCopilotChunk)
    (is_done : (send.status.phase == phase_done) ≡ true)
    (listed : env.list_selected Kind.chunk namespace (by_send send_name) s ≡ (indexed, s))
    (listed_all : env.list Kind.chunk namespace s ≡ (ok chunks, s))
    (read : env.get Kind.send (send_key namespace send_name) s ≡ (ok send, s)) where
  abbrev Stopped : Result (Option String) (Unit {0}) → World env → Type 0
  Stopped r w = (replied none r ≡ none) × (reads w.calls ≡ 1)

  stream_from-stops :
      Ensures Stopped
        (stream_from order (suc ticks) namespace send_name (ℤ.pos 0))
        (start {env = env} s)
  unfolding stream_from tick pass check_send branch
  stream_from-stops = Ensures-bind-bind _ _ _ _ (
      fetch_chunks-known namespace send_name s indexed chunks _ _ listed listed_all λ chunks' w p q.
        Ensures-bind-bind _ _ _ w (
          print_new-keeps (λ w. (w.state ≡ s) × (reads w.calls ≡ 0)) (λ stream text w p. p)
            (order (relevant send_name chunks')) (ℤ.pos 0) _ w (p, q)
            λ bound' w' p'. Ensures-bind-bind _ _ _ w' (
              Ensures-bind-bind _ _ _ w' (
                Ensures-call-known _ _ _ w' {a = ok send} {s = s} (rw p'.0 read)
                  (rw is_done (Ensures-stop-bind none _ _ (refl, ap suc p'.1)))))))

-- The send that the send controller writes behind an answer of status 200 with a queue id, before
-- the agent has worked on the message, ends the stream: where it is read, the chunks can be listed,
-- by the index or else by the namespace, and the reads leave the state as it is, a stream of at
-- least one tick returns no error after one read of the send.
pub stream_chunks-stops_when_queued :
    (env : Env) (order : List KubeCopilotChunk → List KubeCopilotChunk)
    (namespace send_name : String) (ticks : ℕ) (s : env.State)
    (codec : Codec AsyncChatRequest AsyncChatResponse) (send : KubeCopilotSend)
    (response : HttpResponse) (answer : AsyncChatResponse)
    (indexed : Result ApiError (List KubeCopilotChunk)) (chunks : List KubeCopilotChunk)
    → (response.status_code =? 200) ≡ true
    → codec.decode response.body ≡ ok answer
    → env.list_selected Kind.chunk namespace (by_send send_name) s ≡ (indexed, s)
    → env.list Kind.chunk namespace s ≡ (ok chunks, s)
    → env.get Kind.send (send_key namespace send_name) s
      ≡ (ok (answered codec send (ok response)), s)
    → ((execute (stream_chunks order (suc ticks) namespace send_name) (start {env = env} s)).0
        ≡ none)
      × (reads
            (execute
              (stream_chunks order (suc ticks) namespace send_name)
              (start {env = env} s)).1.calls
          ≡ 1)
unfolding stream_chunks execute
stream_chunks-stops_when_queued env order namespace send_name ticks s codec send response answer
      indexed chunks accepted decoded listed listed_all read =
    serve-Ensures (λ r w. (r ≡ none) × (reads w.calls ≡ 1)) none
      (stream_from order (suc ticks) namespace send_name (ℤ.pos 0)) (start s)
      (stream_from-stops order namespace send_name ticks s (answered codec send (ok response))
        indexed chunks (answered-done codec send response answer accepted decoded) listed listed_all
        read)
