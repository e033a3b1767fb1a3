-- ===== src/Webhook/Chunks.antt =====
-- When two chunks get the same name from internal/webhook/server.go.
use kubecopilot_core.Common.{ℤ, ◌≡◌, sym, ap, ◌∙◌, ◌↔◌, ◌-◌, String, len, slice, ltb, if◌then◌else◌}
use kubecopilot_core.Common.Text.{◌<>◌, decimal4}
use kubecopilot_core.Common.Text.Numbers.{read_int, read_int-decimal4}
use text.Mathlib.TextPositions.{slice-append_left}
use text.Mathlib.TextLemmas.{append_cancel_left}
use kubecopilot_core.Webhook.{chunk_name}

-- What a chunk's name keeps of the name of its send: the last 12 bytes.
abbrev pub send_tail : String → String
send_tail send_ref =
    if ltb 12 (len send_ref) then slice send_ref (len send_ref - 12) (len send_ref) else send_ref

head_of_append : (a b s t : String) → len a ≡ len b → a <> s ≡ b <> t → a ≡ b
head_of_append a b s t same e =
    sym (slice-append_left a s)
    ∙ ap (λ u. slice u 0 (len a)) e
    ∙ ap (slice (b <> t) 0) same
    ∙ slice-append_left b t

decimal4-inj : (y z : ℤ) → decimal4 y ≡ decimal4 z → y ≡ z
decimal4-inj y z e =
    let back = λ (x : ℤ). read_int-decimal4 x "" tt in
    sym (ap (λ r. r.0) (back y)) ∙ ap (λ d. (read_int (d <> "")).0) e ∙ ap (λ r. r.0) (back z)

-- For two sends whose names have tails of the same length, two chunks get the same name exactly if
-- the tails are the same and the sequences are.
pub chunk_name_iff :
    (r s : String) (y z : ℤ)
    → len (send_tail r) ≡ len (send_tail s)
    → (chunk_name r y ≡ chunk_name s z) ↔ ((send_tail r ≡ send_tail s) × (y ≡ z))
unfolding chunk_name
chunk_name_iff r s y z same = (
  (λ e.
      let bare = append_cancel_left "chunk-" _ _ e in
      let tails : send_tail r ≡ send_tail s = head_of_append _ _ _ _ same bare in
      let numbers =
        append_cancel_left (send_tail s) _ _
          (ap (λ t. t <> "-" <> decimal4 y) (sym tails) ∙ bare) in
      (tails, decimal4-inj y z (append_cancel_left "-" _ _ numbers))),
  λ h.
      ap (λ t. "chunk-" <> t <> "-" <> decimal4 y) h.0
      ∙ ap (λ x. "chunk-" <> send_tail s <> "-" <> decimal4 x) h.1,
)
