-- ===== src/Cli/Invoke/Sorting.antt =====
-- A sort that does what cmd/cli/invoke.go asks of sort.Slice: insertion from the back.
use mathlib.Core.List.{Perm}
use mathlib.Core.List.Perm
use kubecopilot_core.Common.{List, [], ◌∷◌, if◌then◌else◌, Bool-cases, inl, inr}
use kubecopilot_core.Api.Exchange.{KubeCopilotChunk}
use kubecopilot_core.Cli.Invoke.{less}
use kubecopilot_core.Cli.Invoke.Sequences.{less_asymm}
use kubecopilot_core.Cli.Invoke.Printed.{Ascends, Sorts}

abbrev pub insert_chunk : KubeCopilotChunk → List KubeCopilotChunk → List KubeCopilotChunk
insert_chunk c [] = c ∷ []
insert_chunk c (d ∷ ds) =
    let behind = insert_chunk c ds in
    if less d.spec.sequence c.spec.sequence then d ∷ behind else c ∷ d ∷ ds

abbrev pub sort_chunks : List KubeCopilotChunk → List KubeCopilotChunk
sort_chunks [] = []
sort_chunks (c ∷ cs) = insert_chunk c (sort_chunks cs)

insert_chunk-perm :
    (c : KubeCopilotChunk) (ds : List KubeCopilotChunk) → Perm (insert_chunk c ds) (c ∷ ds)
insert_chunk-perm c [] = Perm.refl (c ∷ [])
insert_chunk-perm c (d ∷ ds) = elim (Bool-cases (less d.spec.sequence c.spec.sequence)) [
  | inl below ↦ rw below (Perm.trans (Perm.cons d (insert_chunk-perm c ds)) (Perm.swap c d ds))
  | inr above ↦ rw above (Perm.refl (c ∷ d ∷ ds))
]

sort_chunks-perm : (cs : List KubeCopilotChunk) → Perm (sort_chunks cs) cs
sort_chunks-perm [] = Perm.refl []
sort_chunks-perm (c ∷ cs) =
    Perm.trans (insert_chunk-perm c (sort_chunks cs)) (Perm.cons c (sort_chunks-perm cs))

insert_chunk-Ascends :
    (c : KubeCopilotChunk) (ds : List KubeCopilotChunk) → Ascends ds → Ascends (insert_chunk c ds)
insert_chunk-Ascends c [] h = tt
insert_chunk-Ascends c (d ∷ []) h = elim (Bool-cases (less d.spec.sequence c.spec.sequence)) [
  | inl below ↦ rw below (less_asymm d.spec.sequence c.spec.sequence below, tt)
  | inr above ↦ rw above (above, tt)
]
insert_chunk-Ascends c (d ∷ e ∷ ds) h =
    let rest = insert_chunk-Ascends c (e ∷ ds) h.1 in
    elim (Bool-cases (less d.spec.sequence c.spec.sequence)) [
      | inl below ↦ elim (Bool-cases (less e.spec.sequence c.spec.sequence)) [
        | inl further ↦ rw (below, further) (h.0, rw further at rest)
        | inr here ↦
            rw (below, here) (less_asymm d.spec.sequence c.spec.sequence below, (here, h.1))
      ]
      | inr above ↦ rw above (above, h)
    ]

sort_chunks-Ascends : (cs : List KubeCopilotChunk) → Ascends (sort_chunks cs)
sort_chunks-Ascends [] = tt
sort_chunks-Ascends (c ∷ cs) = insert_chunk-Ascends c (sort_chunks cs) (sort_chunks-Ascends cs)

pub sort_chunks-Sorts : Sorts sort_chunks
sort_chunks-Sorts = record { permutes = sort_chunks-perm; ascends = sort_chunks-Ascends }
