-- ===== src/Send/Lifecycle/History.antt =====
-- The histories of a send: runs of internal/controller/kubecopilotsend_controller.go whose status
-- was stored, and approvals by a user, in any order.
use mathlib.Core.Path.{subst}
use kubecopilot_core.Common.{
  ◌≡◌, refl, sym, ap, ◌∙◌, arith, Bool, true, ◌||◌, ◌==◌, Option, none, some, List, [], ◌∷◌, ◌++◌,
  append_assoc, Result, ok,
}
use kubecopilot_core.Phases.{phase_done, phase_error, phase_denied}
use kubecopilot_core.Api.Meta.{Key, ApiError}
use kubecopilot_core.Api.Send.{KubeCopilotSend, KubeCopilotSendStatus}
use kubecopilot_core.Api.Kinds.{Kind}
use kubecopilot_core.Env.{Env, Codec}
use kubecopilot_core.Env.Exec.{Call, got, status_updated, start}
use kubecopilot_core.Send.{is_terminal, reconcile}
use kubecopilot_core.Send.Payload.{AsyncChatRequest, AsyncChatResponse}
use kubecopilot_core.Send.Lifecycle.{stage_of, can_move, Allowed}
use kubecopilot_core.Send.Lifecycle.Moved.{StartsWith, Moved, reconcile-Moved}

-- A run on `send` that wrote the status of `o`, and whose write the server took.
pub record Stored (key : Key) (send o : KubeCopilotSend) (calls : List Call) : Type 0 where
  pub read : StartsWith key send calls
  pub later : List Call
  pub earlier : List Call
  pub answer : KubeCopilotSend
  pub written : calls ≡ later ++ status_updated Kind.send o (ok answer) ∷ earlier

abbrev pub approve : KubeCopilotSend → KubeCopilotSend
approve send = record send { spec = record send.spec { approved = true } }

pub data Change (env : Env) (codec : Codec AsyncChatRequest AsyncChatResponse) (key : Key)
    (send : KubeCopilotSend) : KubeCopilotSend → Type 0 where
  reconciled :
      (s : env.State) (o : KubeCopilotSend)
      → Stored key send o (reconcile {env = env} codec key (start s)).1.calls
      → Change env codec key send o
  approved : Change env codec key send (approve send)

pub data History (env : Env) (codec : Codec AsyncChatRequest AsyncChatResponse) (key : Key)
    (first : KubeCopilotSend) : KubeCopilotSend → Type 0 where
  begins : History env codec key first first
  goes_on :
      {send send' : KubeCopilotSend}
      → History env codec key first send
      → Change env codec key send send'
      → History env codec key first send'

last : List Call → Option Call
last [] = none
last (c ∷ []) = some c
last (c ∷ d ∷ cs) = last (d ∷ cs)

last-append : (cs : List Call) (c : Call) → last (cs ++ c ∷ []) ≡ some c
unfolding last
last-append [] c = refl
last-append (b ∷ []) c = refl
last-append (b ∷ d ∷ cs) c = last-append (d ∷ cs) c

as_send : Option Call → Option KubeCopilotSend
as_send (some (got Kind.send k (ok send))) = some send
as_send _ = none

StartsWith-unique :
    (key : Key) (send send' : KubeCopilotSend) (calls : List Call)
    → StartsWith key send calls
    → StartsWith key send' calls
    → send ≡ send'
unfolding as_send
StartsWith-unique key send send' calls a b =
    let ends = λ (o : KubeCopilotSend) (p : StartsWith key o calls).
      ap last p.1 ∙ last-append p.0 (got Kind.send key (ok o)) in
    let same = ap as_send (sym (ends send a) ∙ ends send' b) in cc

append-StartsWith :
    (key : Key) (send : KubeCopilotSend) (cs calls : List Call)
    → StartsWith key send calls
    → StartsWith key send (cs ++ calls)
append-StartsWith key send cs calls s =
    (cs ++ s.0, ap (λ l. cs ++ l) s.1 ∙ sym (append_assoc cs s.0 _))

Moved-tail : (key : Key) (c : Call) (calls : List Call) → Moved key (c ∷ calls) → Moved key calls
Moved-tail key (status_updated Kind.send o r) calls m = m.1
Moved-tail key _ calls m = m

Moved-written :
    (key : Key) (o : KubeCopilotSend) (r : Result ApiError KubeCopilotSend)
    (later earlier : List Call)
    → Moved key (later ++ status_updated Kind.send o r ∷ earlier)
    → (send : KubeCopilotSend) × StartsWith key send earlier × Allowed send o
Moved-written key o r [] earlier m = m.0
Moved-written key o r (c ∷ later) earlier m =
    Moved-written key o r later earlier (Moved-tail key c _ m)

Stored-Allowed :
    (env : Env) (codec : Codec AsyncChatRequest AsyncChatResponse) (key : Key) (s : env.State)
    (send o : KubeCopilotSend)
    → Stored key send o (reconcile {env = env} codec key (start s)).1.calls
    → Allowed send o
Stored-Allowed env codec key s send o stored =
    let moved = subst (Moved key) stored.written (reconcile-Moved env codec key s) in
    let (send', read, allowed) = Moved-written key o _ stored.later stored.earlier moved in
    let write = status_updated Kind.send o (ok stored.answer) in
    let whole : StartsWith key send' (stored.later ++ write ∷ stored.earlier) =
      append-StartsWith key send' stored.later (write ∷ stored.earlier)
        (write ∷ read.0, ap (λ l. write ∷ l) read.1) in
    let same =
      StartsWith-unique key send' send _ whole
        (subst (StartsWith key send) stored.written stored.read) in
    subst (λ x. Allowed x o) same allowed

abbrev terminal_status : KubeCopilotSendStatus → Bool
terminal_status st = st.phase == phase_done || st.phase == phase_error || st.phase == phase_denied

terminal_stays :
    (send o : KubeCopilotSend)
    → is_terminal send ≡ true
    → can_move send.spec.approved (stage_of send) (stage_of o) ≡ true
    → ⊥
terminal_stays send o t m = ground arith

Change-absorbed :
    (env : Env) (codec : Codec AsyncChatRequest AsyncChatResponse) (key : Key)
    {send o : KubeCopilotSend}
    → is_terminal send ≡ true
    → Change env codec key send o
    → (o.status ≡ send.status) × (o.meta ≡ send.meta)
Change-absorbed env codec key {send = send} t (reconciled s o stored) =
    absurd (terminal_stays send o t (Stored-Allowed env codec key s send o stored).moves)
Change-absorbed env codec key t approved = (refl, refl)

-- From a send that is Done, in Error or Denied, no history of runs and approvals changes the status
-- or the metadata.
pub History-absorbed :
    (env : Env) (codec : Codec AsyncChatRequest AsyncChatResponse) (key : Key)
    {first send : KubeCopilotSend}
    → is_terminal first ≡ true
    → History env codec key first send
    → (send.status ≡ first.status) × (send.meta ≡ first.meta)
History-absorbed env codec key t begins = (refl, refl)
History-absorbed env codec key {first = first} t (goes_on {send = mid} h c) =
    let before = History-absorbed env codec key t h in
    let still : is_terminal mid ≡ true =
      ap (λ (st : KubeCopilotSendStatus). terminal_status st) before.0 ∙ t in
    let after = Change-absorbed env codec key still c in (after.0 ∙ before.0, after.1 ∙ before.1)
