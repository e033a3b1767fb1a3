-- ===== src/Cli/Invoke/End.antt =====
-- How a run of `kubecopilot invoke` (cmd/cli/invoke.go) ends.
use kubecopilot_core.Common.{
  ℕ, zero, suc, ◌+◌, ℤ, ◌<◌, ◌≡◌, refl, ap, ◌∙◌, arith, String, true, Option, none, some, List, [],
  ◌∷◌, ◌++◌, ◌==◌, Result, ok, err,
}
use kubecopilot_core.Common.Text.{◌<>◌}
use kubecopilot_core.Phases.{phase_done, phase_error}
use kubecopilot_core.Api.Meta.{ApiError, Key}
use kubecopilot_core.Api.Send.{KubeCopilotSend}
use kubecopilot_core.Api.Exchange.{KubeCopilotChunk}
use kubecopilot_core.Api.Kinds.{Kind}
use kubecopilot_core.Env.{Env}
use kubecopilot_core.Env.Exec.{Call, World, got, listed, selected, ◌>>=◌}
use kubecopilot_core.Env.Ensures.{Ensures, Ensures-stop, Ensures-bind-bind, Ensures-pure-bind}
use kubecopilot_core.Cli.{Command}
use kubecopilot_core.Cli.Invoke.{relevant, pass, tick, stream_from}
use kubecopilot_core.Cli.Invoke.Rules.{
  send_key, by_send, reads, Unsettled, print_new-keeps, fetch_chunks-rule, check_send-rule,
}

-- No read of the log shows a send that is Done or in Error.
abbrev pub NoneSettled : List Call → Type 0
NoneSettled [] = Unit
NoneSettled (got Kind.send k r ∷ calls) = Unsettled r × NoneSettled calls
NoneSettled (_ ∷ calls) = NoneSettled calls

abbrev pub EndsWith : List Call → List Call → Type 0
EndsWith first calls = (later : List Call) × (calls ≡ later ++ first)

-- Behind `first` the log reads the send `n` times, and shows it neither done nor in error.
pub record Waits (first : List Call) (n : ℕ) (calls : List Call) : Type 0 where
  pub count : reads calls ≡ n
  pub none_settled : NoneSettled calls
  pub begun : EndsWith first calls

-- The ways in which a stream of at most `ticks` ticks ends.
pub data StreamEnd (namespace send_name : String) (first : List Call) (ticks : ℕ)
    : Option String → List Call → Type 0 where
  answered :
      (send : KubeCopilotSend) (n : ℕ) (calls : List Call)
      → n < ticks
      → Waits first n calls
      → (send.status.phase == phase_done) ≡ true
      → StreamEnd namespace send_name first ticks none
          (got Kind.send (send_key namespace send_name) (ok send) ∷ calls)
  errored :
      (send : KubeCopilotSend) (n : ℕ) (calls : List Call)
      → n < ticks
      → Waits first n calls
      → (send.status.phase == phase_error) ≡ true
      → StreamEnd namespace send_name first ticks
          (some ("agent returned error: " <> send.status.error_message))
          (got Kind.send (send_key namespace send_name) (ok send) ∷ calls)
  unlisted :
      (e e' : ApiError) (n : ℕ) (calls : List Call)
      → n < ticks
      → Waits first n calls
      → StreamEnd namespace send_name first ticks
          (some ("failed to list chunks" <> ": " <> e'.text))
          (listed Kind.chunk namespace (err e')
            ∷ selected Kind.chunk namespace (by_send send_name) (err e)
            ∷ calls)
  timed_out :
      (calls : List Call)
      → Waits first ticks calls
      → StreamEnd namespace send_name first ticks (some "timeout waiting for response") calls

Waits-silent :
    (first : List Call) (n : ℕ) (calls : List Call) (call : Call)
    → reads (call ∷ calls) ≡ reads calls
    → NoneSettled (call ∷ calls)
    → Waits first n calls
    → Waits first n (call ∷ calls)
Waits-silent first n calls call uncounted unsettled w = record {
  count = uncounted ∙ w.count;
  none_settled = unsettled;
  begun = (call ∷ w.begun.0, ap (λ l. call ∷ l) w.begun.1);
}

Waits-read :
    (first : List Call) (n : ℕ) (calls : List Call) (key : Key)
    (found : Result ApiError KubeCopilotSend)
    → Unsettled found
    → Waits first n calls
    → Waits first (n + 1) (got Kind.send key found ∷ calls)
Waits-read first n calls key found unsettled w = record {
  count = omega (arith, w.count);
  none_settled = (unsettled, w.none_settled);
  begun = (got Kind.send key found ∷ w.begun.0, ap (λ l. got Kind.send key found ∷ l) w.begun.1);
}

module _ {env : Env} (order : List KubeCopilotChunk → List KubeCopilotChunk)
    (namespace send_name : String) (first : List Call) (total : ℕ) where
  abbrev pub Ended : Result (Option String) (Unit {0}) → World env → Type 0
  Ended (ok _) w = ⊥
  Ended (err e) w = StreamEnd namespace send_name first total e w.calls

  pass-StreamEnd :
      (chunks : List KubeCopilotChunk) (bound : ℤ) (g : ℤ → Command env) (n : ℕ) (w : World env)
      → n < total
      → Waits first n w.calls
      → ((bound' : ℤ) (w' : World env) → Waits first (n + 1) w'.calls → Ensures Ended (g bound') w')
      → Ensures Ended (pass order namespace send_name bound chunks >>= g) w
  unfolding pass
  pass-StreamEnd chunks bound g n w left waits go = Ensures-bind-bind _ _ g w (
      print_new-keeps (λ w'. Waits first n w'.calls)
        (λ stream text w' p. Waits-silent first n w'.calls _ refl p.none_settled p)
        (order (relevant send_name chunks)) bound _ w waits
        λ bound' w' p. Ensures-bind-bind _ _ g w' (
          check_send-rule namespace send_name _ w'
            (λ found s unsettled.
              Ensures-pure-bind bound' g _
                (go bound' _ (Waits-read first n w'.calls _ found unsettled p)))
            (λ send s h. StreamEnd.answered send n w'.calls left p h)
            λ send s h k. StreamEnd.errored send n w'.calls left p k))

  pub stream_from-StreamEnd :
      (ticks n : ℕ) (bound : ℤ) (w : World env)
      → n + ticks ≡ total
      → Waits first n w.calls
      → Ensures Ended (stream_from order ticks namespace send_name bound) w
  unfolding stream_from tick
  stream_from-StreamEnd zero n bound w sum waits =
      let all : n ≡ total = omega arith in
      Ensures-stop _ w (StreamEnd.timed_out w.calls (rw (← all) waits))
  stream_from-StreamEnd (suc ticks) n bound w sum waits =
      let left : n < total = omega arith in
      let go = λ (chunks : List KubeCopilotChunk) (w' : World env) (p : Waits first n w'.calls).
        pass-StreamEnd chunks bound (stream_from order ticks namespace send_name) n w' left p
          (λ bound' w''. stream_from-StreamEnd ticks (n + 1) bound' w'' (omega arith)) in
      let silent = λ (calls : List Call) (call : Call). Waits-silent first n calls call in
      Ensures-bind-bind _ _ _ w (
        fetch_chunks-rule namespace send_name _ w
          (λ chunks s. go chunks _ (silent w.calls _ refl waits.none_settled waits))
          (λ e s chunks s'.
            go chunks _
              (silent _ _ refl waits.none_settled (silent w.calls _ refl waits.none_settled waits)))
          λ e s e' s'. StreamEnd.unlisted e e' n w.calls left waits)
