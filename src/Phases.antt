-- ===== src/Phases.antt =====
-- internal/controller/phases.go, and the phases that single controllers declare.
use kubecopilot_core.Common.{String}

abbrev pub phase_pending : String
phase_pending = "Pending"

abbrev pub phase_running : String
phase_running = "Running"

abbrev pub phase_done : String
phase_done = "Done"

abbrev pub phase_error : String
phase_error = "Error"

abbrev pub phase_cancelled : String
phase_cancelled = "Cancelled"

abbrev pub phase_denied : String
phase_denied = "Denied"

abbrev pub phase_pending_approval : String
phase_pending_approval = "PendingApproval"

-- kubecopilotsession_controller.go
abbrev pub phase_active : String
phase_active = "Active"

abbrev pub phase_terminating : String
phase_terminating = "Terminating"

-- kubecopilottoolserver_controller.go
abbrev pub phase_available : String
phase_available = "Available"

-- kubecopilotagentteam_controller.go
abbrev pub phase_team_active : String
phase_team_active = "Active"
