-- ===== src/Env/Console.antt =====
-- What a command prints, as entries of the log between the calls that it makes.
use kubecopilot_core.Common.{String, ◌∷◌, Result, ok}
use kubecopilot_core.Env.{Env, Stream}
use kubecopilot_core.Env.Exec.{Exec, World, printed, ◌>>=◌}
use kubecopilot_core.Env.Ensures.{Ensures, after}

-- `_, _ = fmt.Fprintf(…)`: the error of the write is dropped.
unfoldable pub print : {env : Env} {E : Type 0} → Stream → String → Exec env E (Unit {0})
print stream text w = (ok tt, record w { calls = printed stream text ∷ w.calls })

module _ {env : Env} {E : Type 0} where
  pub Ensures-print :
      {Q : Result E (Unit {0}) → World env → Type 0} (stream : Stream) (text : String)
      (w : World env)
      → Q (ok tt) (after w w.state (printed stream text))
      → Ensures Q (print stream text) w
  unfolding print
  Ensures-print stream text w q = record { holds = q }

  pub Ensures-print-bind :
      {B : Type 0} {Q : Result E B → World env → Type 0} (stream : Stream) (text : String)
      (f : Unit {0} → Exec env E B) (w : World env)
      → Ensures Q (f tt) (after w w.state (printed stream text))
      → Ensures Q (print stream text >>= f) w
  unfolding print ◌>>=◌
  Ensures-print-bind stream text f w q = record { holds = q.holds }
