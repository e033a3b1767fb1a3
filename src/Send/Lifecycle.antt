-- ===== src/Send/Lifecycle.antt =====
-- The stages of a send, and the moves between them that
-- internal/controller/kubecopilotsend_controller.go is to make.
pub mod Moved
pub mod History
use kubecopilot_core.Common.{
  ◌≡◌, refl, arith, String, Bool, true, false, not, ◌&&◌, ◌||◌, ◌==◌, if◌then◌else◌, List, [], ◌∷◌,
  ◌++◌,
}
use kubecopilot_core.Phases.{phase_done, phase_error, phase_denied, phase_pending_approval}
use kubecopilot_core.Api.Send.{KubeCopilotSend}
use kubecopilot_core.Send.{is_terminal, is_waiting, with_message}

pub data Stage : Type 0 where
  fresh waiting denied failed queued : Stage

abbrev pub stage_of : KubeCopilotSend → Stage
stage_of send =
    if send.status.phase == phase_done
    then Stage.queued
    else if send.status.phase == phase_error
    then Stage.failed
    else if send.status.phase == phase_denied
    then Stage.denied
    else if send.status.phase == phase_pending_approval
    then Stage.waiting
    else Stage.fresh

-- Where a send still moves: at the start, and behind an approval that it waited for.
abbrev pub can_leave : Bool → Stage → Bool
can_leave approved Stage.fresh = true
can_leave approved Stage.waiting = approved
can_leave approved _ = false

abbrev pub can_enter : Bool → Stage → Bool
can_enter approved Stage.fresh = false
can_enter approved Stage.waiting = not approved
can_enter approved _ = true

-- The moves of the abstract machine; `approved` is the send's approval.
abbrev pub can_move : Bool → Stage → Stage → Bool
can_move approved from to = can_leave approved from && can_enter approved to

-- A status that the machine allows to be written on a send: nothing but the status changes.
pub record Allowed (send o : KubeCopilotSend) : Type 0 where
  pub moves : can_move send.spec.approved (stage_of send) (stage_of o) ≡ true
  pub same_spec : o.spec ≡ send.spec
  pub same_meta : o.meta ≡ send.meta

module _ (send : KubeCopilotSend) (open_send : is_terminal send ≡ false)
    (not_waiting : is_waiting send ≡ false) where
  can_leave-open : can_leave send.spec.approved (stage_of send) ≡ true
  can_leave-open = ground arith

  pub Allowed-error : (message : String) → Allowed send (with_message phase_error message send)
  Allowed-error message = record {
    moves = rw can_leave-open refl;
    same_spec = refl;
    same_meta = refl;
  }

  pub Allowed-denied : (message : String) → Allowed send (with_message phase_denied message send)
  Allowed-denied message = record {
    moves = rw can_leave-open refl;
    same_spec = refl;
    same_meta = refl;
  }

  pub Allowed-pending :
      (message : String)
      → send.spec.approved ≡ false
      → Allowed send (with_message phase_pending_approval message send)
  Allowed-pending message unapproved = record {
    moves = ground (arith, can_leave-open);
    same_spec = refl;
    same_meta = refl;
  }

  pub Allowed-queued :
      (queue_id : String)
      → Allowed send
          (record send { status = record send.status { phase = phase_done; queue_id = queue_id } })
  Allowed-queued queue_id = record {
    moves = rw can_leave-open refl;
    same_spec = refl;
    same_meta = refl;
  }
