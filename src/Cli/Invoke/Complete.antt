-- ===== src/Cli/Invoke/Complete.antt =====
-- That one pass of cmd/cli/invoke.go over the sorted chunks leaves none out that is due.
use kubecopilot_core.Common.{ℤ, ◌≡◌, Bool, not, ◌&&◌, List, ◌++◌, any, map}
use kubecopilot_core.Api.Exchange.{KubeCopilotChunk}
use kubecopilot_core.Env.{Env}
use kubecopilot_core.Env.Exec.{Call}
use kubecopilot_core.Cli.Invoke.{less, chunk_line}
use kubecopilot_core.Cli.Invoke.Printed.{outputs}
use kubecopilot_core.Cli.Invoke.Sequences.{same}

-- Some chunk of the list has the sequence `n`.
abbrev pub has_sequence : ℤ → List KubeCopilotChunk → Bool
has_sequence n = any λ chunk. same chunk.spec.sequence n

-- What a pass prints, the latest first, has the sequences of the list from `bound` on.
pub record Caught (bound : ℤ) (listed : List KubeCopilotChunk) (before after : List Call)
    : Type 0 where
  pub chunks : List KubeCopilotChunk
  pub shown : outputs after ≡ map chunk_line chunks ++ outputs before
  pub due : (n : ℤ) → has_sequence n chunks ≡ (not (less n bound) && has_sequence n listed)
