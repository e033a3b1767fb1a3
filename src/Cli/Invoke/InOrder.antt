-- ===== src/Cli/Invoke/InOrder.antt =====
-- What a whole run of `streamChunks` (cmd/cli/invoke.go) prints.
use kubecopilot_core.Common.{
  ℤ, ◌≡◌, String, Bool, false, ◌||◌, Option, List, [], ◌∷◌, Result, ok, any,
}
use kubecopilot_core.Api.Exchange.{KubeCopilotChunk}
use kubecopilot_core.Api.Kinds.{Kind}
use kubecopilot_core.Env.{Env}
use kubecopilot_core.Env.Exec.{Call, Exec, listed, selected, World}
use kubecopilot_core.Env.Ensures.{Ensures}
use kubecopilot_core.Cli.Invoke.Printed.{is_last, outputs, Progress, Sorts}

-- The log shows chunks of the send in the order of their sequences, each sequence at most once.
abbrev pub InOrder : String → List Call → Type 0
InOrder send_name calls = (bound : ℤ) × Progress send_name bound (outputs calls)

-- Some chunk that the log lists has the largest number for its sequence.
abbrev pub lists_largest : List Call → Bool
lists_largest [] = false
lists_largest (selected Kind.chunk namespace selector (ok chunks) ∷ calls) =
    any is_last chunks || lists_largest calls
lists_largest (listed Kind.chunk namespace (ok chunks) ∷ calls) =
    any is_last chunks || lists_largest calls
lists_largest (_ ∷ calls) = lists_largest calls

-- What holds of a log with the bound of the next pass.
abbrev Tracked : String → ℤ → List Call → Type 0
Tracked send_name bound calls =
    lists_largest calls ≡ false → Progress send_name bound (outputs calls)

module _ {env : Env} (order : List KubeCopilotChunk → List KubeCopilotChunk)
    (namespace send_name : String) (sorts : Sorts order) where
  abbrev Good : Result (Option String) (Unit {0}) → World env → Type 0
  Good r w = lists_largest w.calls ≡ false → InOrder send_name w.calls
