-- ===== src/Cli/Invoke/Waiting.antt =====
-- `kubecopilot invoke` (cmd/cli/invoke.go) on a send that comes to rest in another phase than Done
-- and Error.
use kubecopilot_core.Common.{
  ℕ, zero, suc, ℤ, ◌≡◌, refl, ap, String, Option, some, none, List, Result, ok, err,
}
use kubecopilot_core.Api.Meta.{ApiError}
use kubecopilot_core.Api.Send.{KubeCopilotSend}
use kubecopilot_core.Api.Exchange.{KubeCopilotChunk}
use kubecopilot_core.Api.Kinds.{Kind}
use kubecopilot_core.Env.{Env}
use kubecopilot_core.Env.Exec.{World, start, branch, pure, replied, ◌>>=◌}
use kubecopilot_core.Env.Ensures.{
  Ensures, Ensures-stop, Ensures-bind-bind, Ensures-pure-bind, Ensures-weaken, serve-Ensures,
}
use kubecopilot_core.Env.Answers.{Ensures-call-known}
use kubecopilot_core.Cli.{Command, execute}
use kubecopilot_core.Cli.Invoke.{relevant, pass, tick, stream_from, stream_chunks, check_send}
use kubecopilot_core.Cli.Invoke.Rules.{
  send_key, by_send, Unsettled, print_new-keeps, fetch_chunks-known,
}

module _ {env : Env} (namespace send_name : String) (s : env.State) where
  abbrev pub TimedOut : Result (Option String) (Unit {0}) → World env → Type 0
  TimedOut r w = r ≡ err (some "timeout waiting for response")

  check_send-waits :
      (r : Result ApiError KubeCopilotSend) (f : Unit {0} → Command env) (w : World env)
      → env.get Kind.send (send_key namespace send_name) w.state ≡ (r, s)
      → Unsettled r
      → ((w' : World env) → w'.state ≡ s → Ensures TimedOut (f tt) w')
      → Ensures TimedOut (check_send namespace send_name >>= f) w
  unfolding check_send branch pure
  check_send-waits (ok send) f w e u go =
      Ensures-bind-bind _ _ f w
        (Ensures-call-known _ _ _ w e (rw (u.0, u.1) (Ensures-pure-bind tt f _ (go _ refl))))
  check_send-waits (err e') f w e u go =
      Ensures-bind-bind _ _ f w
        (Ensures-call-known _ _ _ w e (Ensures-pure-bind tt f _ (go _ refl)))

module _ {env : Env} (order : List KubeCopilotChunk → List KubeCopilotChunk)
    (namespace send_name : String) (s : env.State) (found : Result ApiError KubeCopilotSend)
    (indexed : Result ApiError (List KubeCopilotChunk)) (chunks : List KubeCopilotChunk)
    (read : env.get Kind.send (send_key namespace send_name) s ≡ (found, s))
    (unsettled : Unsettled found)
    (listed : env.list_selected Kind.chunk namespace (by_send send_name) s ≡ (indexed, s))
    (listed_all : env.list Kind.chunk namespace s ≡ (ok chunks, s)) where
  pass-waits :
      (chunks' : List KubeCopilotChunk) (bound : ℤ) (g : ℤ → Command env) (w : World env)
      → w.state ≡ s
      → ((bound' : ℤ) (w' : World env)
          → w'.state ≡ s
          → Ensures (TimedOut namespace send_name s) (g bound') w')
      → Ensures
          (TimedOut namespace send_name s)
          (pass order namespace send_name bound chunks' >>= g)
          w
  unfolding pass
  pass-waits chunks' bound g w same go = Ensures-bind-bind _ _ g w (
      print_new-keeps (λ w'. w'.state ≡ s) (λ stream text w' p. p)
        (order (relevant send_name chunks')) bound _ w same
        λ bound' w' p. Ensures-bind-bind _ _ g w' (
          check_send-waits namespace send_name s found _ w' (rw p read) unsettled
            λ w'' q. Ensures-pure-bind bound' g w'' (go bound' w'' q)))

  stream_from-waits :
      (ticks : ℕ) (bound : ℤ) (w : World env)
      → w.state ≡ s
      → Ensures
          (TimedOut namespace send_name s)
          (stream_from order ticks namespace send_name bound)
          w
  unfolding stream_from tick
  stream_from-waits zero bound w same = Ensures-stop _ w refl
  stream_from-waits (suc ticks) bound w same = Ensures-bind-bind _ _ _ w (
      fetch_chunks-known namespace send_name s indexed chunks _ w (rw same listed) listed_all
        λ chunks' w' p _.
          pass-waits chunks' bound (stream_from order ticks namespace send_name) w' p
            (stream_from-waits ticks))

-- As long as the send is read in a phase that is neither Done nor Error, or not read at all, and
-- the chunks can be listed, by the index or else by the namespace, and the reads leave the state as
-- it is, the stream ends with the error of the timeout, however many ticks there are.
pub stream_chunks-times_out :
    (env : Env) (order : List KubeCopilotChunk → List KubeCopilotChunk)
    (namespace send_name : String) (ticks : ℕ) (s : env.State)
    (found : Result ApiError KubeCopilotSend) (indexed : Result ApiError (List KubeCopilotChunk))
    (chunks : List KubeCopilotChunk)
    → env.get Kind.send (send_key namespace send_name) s ≡ (found, s)
    → Unsettled found
    → env.list_selected Kind.chunk namespace (by_send send_name) s ≡ (indexed, s)
    → env.list Kind.chunk namespace s ≡ (ok chunks, s)
    → (execute (stream_chunks order ticks namespace send_name) (start {env = env} s)).0
      ≡ some "timeout waiting for response"
unfolding stream_chunks execute
stream_chunks-times_out env order namespace send_name ticks s found indexed chunks read u l l' =
    serve-Ensures (λ r w. r ≡ some "timeout waiting for response") none
      (stream_from order ticks namespace send_name (ℤ.pos 0)) (start s)
      (Ensures-weaken _ (start s)
        (stream_from-waits order namespace send_name s found indexed chunks read u l l' ticks
          (ℤ.pos 0) (start s) refl)
        λ r w p. ap (replied none) p)
