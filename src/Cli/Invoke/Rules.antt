-- ===== src/Cli/Invoke/Rules.antt =====
-- One rule for each part of a tick of cmd/cli/invoke.go.
use kubecopilot_core.Common.{
  ℕ, suc, ℤ, ◌≡◌, refl, String, false, true, Option, none, some, List, [], ◌∷◌, ◌==◌, Result, ok,
  err,
}
use kubecopilot_core.Common.Text.{◌<>◌}
use kubecopilot_core.Phases.{phase_done, phase_error}
use kubecopilot_core.Api.Meta.{ApiError, Key}
use kubecopilot_core.Api.Send.{KubeCopilotSend}
use kubecopilot_core.Api.Exchange.{KubeCopilotChunk}
use kubecopilot_core.Api.Kinds.{Kind}
use kubecopilot_core.Env.{Env, Selector, Stream}
use kubecopilot_core.Env.Exec.{Call, Exec, World, got, listed, selected, printed, ◌>>=◌}
use kubecopilot_core.Env.Ensures.{
  Ensures, after, Ensures-call-error, Ensures-call-bind, Ensures-branch-bind, Ensures-bind-bind,
  Ensures-if-bind, Ensures-stop-bind, Ensures-pure-bind,
}
use kubecopilot_core.Env.Answers.{Ensures-error-known}
use kubecopilot_core.Env.Console.{Ensures-print-bind}
use kubecopilot_core.Cli.Invoke.{less, next, print_chunk, print_new, fetch_chunks, check_send}

abbrev pub send_key : String → String → Key
send_key namespace send_name = record { namespace = namespace; name = send_name }

abbrev pub by_send : String → Selector
by_send send_name = Selector.by_field "spec.sendRef" send_name

-- How often the log reads a send.
abbrev pub reads : List Call → ℕ
reads [] = 0
reads (got Kind.send k r ∷ calls) = suc (reads calls)
reads (_ ∷ calls) = reads calls

-- A read of the send that lets the loop go on.
abbrev pub Unsettled : Result ApiError KubeCopilotSend → Type 0
Unsettled (ok send) =
    ((send.status.phase == phase_done) ≡ false) × ((send.status.phase == phase_error) ≡ false)
Unsettled (err e) = Unit

module _ {env : Env} {B : Type 0} {Q : Result (Option String) B → World env → Type 0} where
  -- What printing keeps holds behind the loop.
  pub print_new-keeps :
      (P : World env → Type 0)
      → ((stream : Stream) (text : String) (w : World env)
          → P w
          → P (after w w.state (printed stream text)))
      → (chunks : List KubeCopilotChunk) (bound : ℤ) (f : ℤ → Exec env (Option String) B)
        (w : World env)
      → P w
      → ((bound' : ℤ) (w' : World env) → P w' → Ensures Q (f bound') w')
      → Ensures Q (print_new chunks bound >>= f) w
  unfolding print_new print_chunk
  print_new-keeps P keep [] bound f w p go = Ensures-pure-bind bound f w (go bound w p)
  print_new-keeps P keep (chunk ∷ chunks) bound f w p go =
      Ensures-if-bind (less chunk.spec.sequence bound) _ _ f w
        (λ old. print_new-keeps P keep chunks bound f w p go)
        λ new. Ensures-bind-bind _ _ f w (
          Ensures-print-bind _ _ _ w
            (print_new-keeps P keep chunks (next chunk.spec.sequence) f _ (keep _ _ w p) go))

module _ {env : Env} {B : Type 0} {Q : Result (Option String) B → World env → Type 0}
    (namespace send_name : String) where
  -- The chunks come from the indexed list or, where that fails, from the list of the namespace.
  pub fetch_chunks-rule :
      (f : List KubeCopilotChunk → Exec env (Option String) B) (w : World env)
      → ((chunks : List KubeCopilotChunk) (s : env.State)
          → Ensures Q
              (f chunks)
              (after w s (selected Kind.chunk namespace (by_send send_name) (ok chunks))))
      → ((e : ApiError) (s : env.State) (chunks : List KubeCopilotChunk) (s' : env.State)
          → Ensures Q (f chunks) (
              after
                (after w s (selected Kind.chunk namespace (by_send send_name) (err e)))
                s'
                (listed Kind.chunk namespace (ok chunks))))
      → ((e : ApiError) (s : env.State) (e' : ApiError) (s' : env.State)
          → Q (err (some ("failed to list chunks" <> ": " <> e'.text))) (
              after
                (after w s (selected Kind.chunk namespace (by_send send_name) (err e)))
                s'
                (listed Kind.chunk namespace (err e'))))
      → Ensures Q (fetch_chunks namespace send_name >>= f) w
  unfolding fetch_chunks
  fetch_chunks-rule f w indexed fallback failed = Ensures-call-error _ _ _ f w indexed λ e s.
      Ensures-call-error _ _ _ f _ (fallback e s)
        λ e' s'. Ensures-stop-bind _ f _ (failed e s e' s')

  -- Where the reads are known, and leave the state as it is.
  pub fetch_chunks-known :
      (s : env.State) (indexed : Result ApiError (List KubeCopilotChunk))
      (chunks : List KubeCopilotChunk) (f : List KubeCopilotChunk → Exec env (Option String) B)
      (w : World env)
      → env.list_selected Kind.chunk namespace (by_send send_name) w.state ≡ (indexed, s)
      → env.list Kind.chunk namespace s ≡ (ok chunks, s)
      → ((chunks' : List KubeCopilotChunk) (w' : World env)
          → w'.state ≡ s
          → reads w'.calls ≡ reads w.calls
          → Ensures Q (f chunks') w')
      → Ensures Q (fetch_chunks namespace send_name >>= f) w
  unfolding fetch_chunks
  fetch_chunks-known s (ok chunks') chunks f w e e' go =
      Ensures-error-known _ _ _ f w e (go chunks' _ refl refl)
  fetch_chunks-known s (err _) chunks f w e e' go =
      Ensures-error-known _ _ _ f w e (Ensures-error-known _ _ _ f _ e' (go chunks _ refl refl))

  pub check_send-rule :
      (f : Unit {0} → Exec env (Option String) B) (w : World env)
      → ((found : Result ApiError KubeCopilotSend) (s : env.State)
          → Unsettled found
          → Ensures Q (f tt) (after w s (got Kind.send (send_key namespace send_name) found)))
      → ((send : KubeCopilotSend) (s : env.State)
          → (send.status.phase == phase_done) ≡ true
          → Q (err none) (after w s (got Kind.send (send_key namespace send_name) (ok send))))
      → ((send : KubeCopilotSend) (s : env.State)
          → (send.status.phase == phase_done) ≡ false
          → (send.status.phase == phase_error) ≡ true
          → Q
              (err (some ("agent returned error: " <> send.status.error_message)))
              (after w s (got Kind.send (send_key namespace send_name) (ok send))))
      → Ensures Q (check_send namespace send_name >>= f) w
  unfolding check_send
  check_send-rule f w going done failed = Ensures-bind-bind _ _ f w (
      Ensures-call-bind _ _ _ w λ found s.
        Ensures-branch-bind found _ _ f _
          (λ send same.
            Ensures-if-bind (send.status.phase == phase_done) _ _ f _
              (λ h. Ensures-stop-bind none f _ (rw same (done send s h)))
              λ h.
                Ensures-if-bind (send.status.phase == phase_error) _ _ f _
                  (λ k. Ensures-stop-bind _ f _ (rw same (failed send s h k)))
                  λ k. Ensures-pure-bind tt f _ (rw same (going (ok send) s (h, k))))
          λ e same. Ensures-pure-bind tt f _ (rw same (going (err e) s tt)))
