-- ===== src/Webhook/Names.antt =====
-- The names that internal/webhook/server.go gives to what it creates.
use kubecopilot_core.Common.{
  ℕ, ◌≡◌, refl, sym, ◌∙◌, ◌≤◌, ◌<◌, String, len, slice, Bool, true, false, ltb, if◌then◌else◌,
  arith, len-slice, slice-append,
}
use kubecopilot_core.Common.Text.{◌<>◌, decimal}
use text.Mathlib.TextPositions.{len-append}
use text.Mathlib.TextLemmas.{append_assoc}
use kubecopilot_core.Webhook.{response_name, notification_name}

len-if :
    (b : Bool) (x y : String) (n : ℕ)
    → len x ≤ n
    → (b ≡ false → len y ≤ n)
    → len (if b then x else y) ≤ n
len-if true x y n h k = h
len-if false x y n h k = k refl

-- A notification's name has at most 63 bytes.
len-notification_name :
    (session_id : String) (millis : ℕ) → len (notification_name session_id millis) ≤ 63
unfolding notification_name
len-notification_name session_id millis =
    let name = "notif-" <> session_id <> "-" <> decimal millis in
    len-if (ltb 63 (len name)) (slice name 0 63) name 63 (len-slice name 63)
      (λ short. ground (arith, short))

-- A response's name has at most 13 bytes.
len-response_name : (queue_id : String) → len (response_name queue_id) ≤ 13
unfolding response_name
len-response_name queue_id =
    let id = if ltb 8 (len queue_id) then slice queue_id 0 8 else queue_id in
    let short : len id ≤ 8 =
      len-if (ltb 8 (len queue_id)) _ _ 8 (len-slice queue_id 8) (λ short. ground (arith, short)) in
    omega (arith, len-append "resp-" id, short)

cut_at_63 :
    (a b : String)
    → 63 ≤ len a
    → 0 < len b
    → (if ltb 63 (len (a <> b)) then slice (a <> b) 0 63 else a <> b) ≡ slice a 0 63
cut_at_63 a b long more =
    let cut : ltb 63 (len (a <> b)) ≡ true = ground (arith, len-append a b, long, more) in
    rw cut (slice-append a b 63 long)

notification_name-cut :
    (session_id : String) (millis : ℕ)
    → 57 ≤ len session_id
    → notification_name session_id millis ≡ slice ("notif-" <> session_id) 0 63
unfolding notification_name
notification_name-cut session_id millis long =
    rw (sym (append_assoc "notif-" session_id ("-" <> decimal millis))) (
      cut_at_63 ("notif-" <> session_id) ("-" <> decimal millis)
        (omega (arith, len-append "notif-" session_id, long))
        (omega (arith, len-append "-" (decimal millis))))

-- For a session id of at least 57 bytes, the names at any two times are the same.
pub notification_name-collides :
    (session_id : String) (time₁ time₂ : ℕ)
    → 57 ≤ len session_id
    → notification_name session_id time₁ ≡ notification_name session_id time₂
notification_name-collides session_id time₁ time₂ long =
    notification_name-cut session_id time₁ long ∙ sym (notification_name-cut session_id time₂ long)
