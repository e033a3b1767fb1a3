-- ===== src/Cli/Invoke/Outcome.antt =====
-- What the error that `kubecopilot invoke` (cmd/cli/invoke.go) returns says of the run.
use kubecopilot_core.Common.{
  ℕ, ℤ, ◌≡◌, refl, arith, String, Option, some, none, List, [], ◌∷◌, Result, ok, err,
}
use kubecopilot_core.Common.Text.{◌<>◌}
use kubecopilot_core.Api.Meta.{ApiError}
use kubecopilot_core.Api.Send.{KubeCopilotSend}
use kubecopilot_core.Api.Exchange.{KubeCopilotChunk}
use kubecopilot_core.Api.Kinds.{Kind}
use kubecopilot_core.Env.{Env, Stream}
use kubecopilot_core.Env.Exec.{Call, World, created, printed, start, replied}
use kubecopilot_core.Env.Ensures.{
  Ensures, Ensures-weaken, Ensures-pure-error, Ensures-call-error, Ensures-stop-bind, serve-Ensures,
}
use kubecopilot_core.Env.Console.{Ensures-print-bind}
use kubecopilot_core.Cli.{Flags, Libraries, execute, get_client}
use kubecopilot_core.Cli.Invoke.{InvokeFlags, send_of, stream_from, stream_chunks, invoke}
use kubecopilot_core.Cli.Invoke.End
use kubecopilot_core.Cli.Invoke.End.{StreamEnd, Waits, stream_from-StreamEnd}

-- The calls before the stream: the send is created, and its name is printed.
abbrev pub announced : KubeCopilotSend → KubeCopilotSend → List Call
announced wanted send =
    printed Stream.stderr ("Created send/" <> send.meta.name <> " — streaming response…\n")
    ∷ created Kind.send wanted (ok send)
    ∷ []

pub data InvokeEnd (lib : Libraries) (flags : Flags) (wanted : KubeCopilotSend) (ticks : ℕ)
    : Option String → List Call → Type 0 where
  unconnected :
      (e : ApiError)
      → get_client lib flags ≡ err e
      → InvokeEnd lib flags wanted ticks (some ("failed to create client" <> ": " <> e.text)) []
  uncreated :
      (e : ApiError)
      → InvokeEnd lib flags wanted ticks
          (some ("failed to create send" <> ": " <> e.text))
          (created Kind.send wanted (err e) ∷ [])
  streamed :
      (send : KubeCopilotSend) (result : Option String) (calls : List Call)
      → StreamEnd flags.namespace send.meta.name (announced wanted send) ticks result calls
      → InvokeEnd lib flags wanted ticks result calls

module _ {env : Env} (order : List KubeCopilotChunk → List KubeCopilotChunk) (lib : Libraries)
    (flags : Flags) (options : InvokeFlags) (message : String) (ticks : ℕ) where
  abbrev Ended : Result (Option String) (Unit {0}) → World env → Type 0
  Ended r w = InvokeEnd lib flags (send_of flags options message) ticks (replied none r) w.calls

  finished :
      (send : KubeCopilotSend) (r : Result (Option String) (Unit {0})) (w : World env)
      → End.Ended order flags.namespace send.meta.name
          (announced (send_of flags options message) send)
          ticks
          r
          w
      → Ended r w
  finished send (ok _) w h = elim h [ ]
  finished send (err e) w h = InvokeEnd.streamed send e w.calls h

  stream-InvokeEnd :
      (send : KubeCopilotSend) (s : env.State)
      → Ensures Ended
          (stream_from order ticks flags.namespace send.meta.name (ℤ.pos 0))
          (record { state = s; calls = announced (send_of flags options message) send })
  stream-InvokeEnd send s =
      Ensures-weaken _ _
        (stream_from-StreamEnd order flags.namespace send.meta.name
          (announced (send_of flags options message) send) ticks ticks 0 (ℤ.pos 0) _ (omega arith)
          (record { count = refl; none_settled = tt; begun = ([], refl) }))
        (finished send)

  invoke-Ensures :
      (s : env.State)
      → Ensures Ended (invoke order lib flags options ticks message) (start {env = env} s)
  unfolding invoke stream_chunks
  invoke-Ensures s =
      Ensures-pure-error (get_client lib flags) _ _ _
        (λ _ connected.
          Ensures-call-error _ _ _ _ _
            (λ send s'. Ensures-print-bind _ _ _ _ (stream-InvokeEnd send s'))
            λ e s'. Ensures-stop-bind _ _ _ (InvokeEnd.uncreated e))
        λ e failed. Ensures-stop-bind _ _ _ (InvokeEnd.unconnected e failed)

-- A run of the command from an empty log ends, whatever the environment answers, in one of these
-- ways: with the error of the client, and no call; with the error of the creation of the send; and
-- else, behind that creation and the line that announces it, without an error right behind a read
-- that shows the created send Done, or with the message of a read that shows it in Error, or with
-- the error of a listing of all chunks behind a failed listing by the index, each within the ticks
-- and with every earlier read of the send showing neither phase; or with the error of the timeout
-- after as many reads of the send as there are ticks, none of which shows either phase.
pub invoke-InvokeEnd :
    (env : Env) (order : List KubeCopilotChunk → List KubeCopilotChunk) (lib : Libraries)
    (flags : Flags) (options : InvokeFlags) (message : String) (ticks : ℕ) (s : env.State)
    → InvokeEnd lib flags
        (send_of flags options message)
        ticks
        (execute (invoke order lib flags options ticks message) (start {env = env} s)).0
        (execute (invoke order lib flags options ticks message) (start {env = env} s)).1.calls
unfolding execute
invoke-InvokeEnd env order lib flags options message ticks s =
    serve-Ensures (λ r w. InvokeEnd lib flags (send_of flags options message) ticks r w.calls) none
      (invoke order lib flags options ticks message) (start s)
      (invoke-Ensures order lib flags options message ticks s)
