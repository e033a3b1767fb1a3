-- ===== src/Cli/Invoke/Printed.antt =====
-- Which chunks cmd/cli/invoke.go prints, and in which order.
use mathlib.Core.List.{Perm}
use kubecopilot_core.Common.{
  ℤ, ◌≡◌, refl, ap, ◌∙◌, arith, String, Bool, true, false, not, Option, List, [], ◌∷◌, ◌==◌, Result,
  any, any-perm, map,
}
use kubecopilot_core.Api.Exchange.{KubeCopilotChunk}
use kubecopilot_core.Env.{Env, Stream}
use kubecopilot_core.Env.Exec.{Call, Exec, World, printed, ◌>>=◌}
use kubecopilot_core.Env.Ensures.{Ensures, Ensures-pure-bind, Ensures-if-bind, Ensures-bind-bind}
use kubecopilot_core.Env.Console.{Ensures-print-bind}
use kubecopilot_core.Cli.Invoke.Sequences.{is_largest, less-next, less-weaken, not_less_trans}
use kubecopilot_core.Cli.Invoke.{less, next, chunk_line, relevant, print_new, print_chunk}

-- What the log shows as printed, the latest first.
abbrev pub outputs : List Call → List (Stream × String)
outputs [] = []
outputs (printed stream text ∷ calls) = (stream, text) ∷ outputs calls
outputs (_ ∷ calls) = outputs calls

-- Chunks with the latest first, each with a lower sequence than the one after it, none of them
-- negative, and all below `bound`.
abbrev pub Rises : ℤ → List KubeCopilotChunk → Type 0
Rises bound [] = less bound (ℤ.pos 0) ≡ false
Rises bound (chunk ∷ chunks) =
    (less chunk.spec.sequence bound ≡ true) × Rises chunk.spec.sequence chunks

abbrev pub is_last : KubeCopilotChunk → Bool
is_last chunk = is_largest chunk.spec.sequence

abbrev pub is_foreign : String → KubeCopilotChunk → Bool
is_foreign send_name chunk = not (chunk.spec.send_ref == send_name)

-- What was printed are the lines of chunks of the send, in the order of their sequences.
pub record Progress (send_name : String) (bound : ℤ) (out : List (Stream × String)) : Type 0 where
  pub chunks : List KubeCopilotChunk
  pub shown : out ≡ map chunk_line chunks
  pub rising : Rises bound chunks
  pub own : any (is_foreign send_name) chunks ≡ false

-- sort.Slice by the sequence gives a permutation in which no sequence is above the next.
abbrev pub Ascends : List KubeCopilotChunk → Type 0
Ascends [] = Unit
Ascends (chunk ∷ []) = Unit
Ascends (chunk ∷ chunk' ∷ chunks) =
    (less chunk'.spec.sequence chunk.spec.sequence ≡ false) × Ascends (chunk' ∷ chunks)

pub record Sorts (order : List KubeCopilotChunk → List KubeCopilotChunk) : Type 0 where
  pub permutes : (chunks : List KubeCopilotChunk) → Perm (order chunks) chunks
  pub ascends : (chunks : List KubeCopilotChunk) → Ascends (order chunks)

relevant-own :
    (send_name : String) (chunks : List KubeCopilotChunk)
    → any (is_foreign send_name) (relevant send_name chunks) ≡ false
unfolding relevant
relevant-own send_name [] = refl
relevant-own send_name (chunk ∷ chunks) = ground (arith, relevant-own send_name chunks)

relevant-none :
    (p : KubeCopilotChunk → Bool) (send_name : String) (chunks : List KubeCopilotChunk)
    → any p chunks ≡ false
    → any p (relevant send_name chunks) ≡ false
unfolding relevant
relevant-none p send_name [] h = refl
relevant-none p send_name (chunk ∷ chunks) h = ground (arith, relevant-none p send_name chunks)

pub order-none :
    (order : List KubeCopilotChunk → List KubeCopilotChunk) (p : KubeCopilotChunk → Bool)
    (send_name : String) (chunks : List KubeCopilotChunk)
    → Sorts order
    → any p chunks ≡ false
    → any p (order (relevant send_name chunks)) ≡ false
order-none order p send_name chunks sorts h =
    any-perm p (sorts.permutes (relevant send_name chunks)) ∙ relevant-none p send_name chunks h

pub order-own :
    (order : List KubeCopilotChunk → List KubeCopilotChunk) (send_name : String)
    (chunks : List KubeCopilotChunk)
    → Sorts order
    → any (is_foreign send_name) (order (relevant send_name chunks)) ≡ false
order-own order send_name chunks sorts =
    any-perm (is_foreign send_name) (sorts.permutes (relevant send_name chunks))
    ∙ relevant-own send_name chunks

Rises-weaken :
    (a b : ℤ) (chunks : List KubeCopilotChunk) → less b a ≡ false → Rises a chunks → Rises b chunks
Rises-weaken a b [] h r = not_less_trans a b (ℤ.pos 0) h r
Rises-weaken a b (chunk ∷ chunks) h r = (less-weaken chunk.spec.sequence a b h r.0, r.1)

-- One more chunk that is not below the bound.
Progress-print :
    (send_name : String) (bound : ℤ) (out : List (Stream × String)) (chunk : KubeCopilotChunk)
    → is_foreign send_name chunk ≡ false
    → is_last chunk ≡ false
    → less chunk.spec.sequence bound ≡ false
    → Progress send_name bound out
    → Progress send_name (next chunk.spec.sequence) (chunk_line chunk ∷ out)
Progress-print send_name bound out chunk own inner new p = record {
  chunks = chunk ∷ p.chunks;
  shown = ap (λ o. chunk_line chunk ∷ o) p.shown;
  rising = (
    less-next chunk.spec.sequence inner,
    Rises-weaken bound chunk.spec.sequence p.chunks new p.rising,
  );
  own = rw (own, p.own) refl;
}

module _ {env : Env} {B : Type 0} {Q : Result (Option String) B → World env → Type 0}
    (send_name : String) where
  -- The loop hands on what was printed, with the bound that it gives, unless the bound wraps.
  pub print_new-Progress :
      (chunks : List KubeCopilotChunk) (bound : ℤ) (f : ℤ → Exec env (Option String) B)
      (w : World env)
      → any (is_foreign send_name) chunks ≡ false
      → any is_last chunks ≡ false
      → Progress send_name bound (outputs w.calls)
      → ((bound' : ℤ) (w' : World env)
          → Progress send_name bound' (outputs w'.calls)
          → Ensures Q (f bound') w')
      → Ensures Q (print_new chunks bound >>= f) w
  unfolding print_new print_chunk
  print_new-Progress [] bound f w own inner p go = Ensures-pure-bind bound f w (go bound w p)
  print_new-Progress (chunk ∷ chunks) bound f w own inner p go =
      Ensures-if-bind (less chunk.spec.sequence bound) _ _ f w
        (λ old. print_new-Progress chunks bound f w (ground arith) (ground arith) p go)
        λ new. Ensures-bind-bind _ _ f w (
          Ensures-print-bind _ _ _ w (
            print_new-Progress chunks (next chunk.spec.sequence) f _ (ground arith) (ground arith)
              (Progress-print send_name bound (outputs w.calls) chunk (ground arith) (ground arith)
                new p)
              go))
