-- ===== src/Cli/Sessions.antt =====
-- cmd/cli/session.go: `kubecopilot session list`.
use kubecopilot_core.Common.{ℕ, String, Bool, not, ◌&&◌, Option, List, [], ◌∷◌, ◌==◌, if◌then◌else◌}
use kubecopilot_core.Common.Text.{◌<>◌}
use kubecopilot_core.Api.Session.{KubeCopilotSession}
use kubecopilot_core.Api.Kinds.{Kind}
use kubecopilot_core.Env.{Env}
use kubecopilot_core.Env.Exec.{Exec, pure, list, now, ◌>>=◌, ◌>>◌}
use kubecopilot_core.Cli.{Flags, Libraries, Command, with_client, ◌or_fail_with◌}
use kubecopilot_core.Cli.Table.{
  TabWriter, TabWriterHelper, new_stdout_tab_writer_helper, printf, println, finish,
}
use kubecopilot_core.Cli.Age.{format_age}

abbrev pub session_row : ℕ → KubeCopilotSession → String
session_row time s =
    s.meta.name
    <> "\t"
    <> s.spec.agent_ref
    <> "\t"
    <> s.spec.tenant_id
    <> "\t"
    <> s.status.phase
    <> "\t"
    <> s.status.namespace
    <> "\t"
    <> format_age time s.meta.created
    <> "\n"

-- `sessionAgentFilter` keeps the sessions of one agent, and all where it is empty.
abbrev pub is_filtered_out : String → KubeCopilotSession → Bool
is_filtered_out agent s = not (agent == "") && not (s.spec.agent_ref == agent)

module _ {env : Env} (tab : TabWriter) where
  pub session_rows :
      String
      → List KubeCopilotSession
      → TabWriterHelper tab
      → Exec env (Option String) (TabWriterHelper tab)
  session_rows agent [] w = pure w
  session_rows agent (s ∷ sessions) w =
      let shown = now >>= λ time. session_rows agent sessions (printf tab (session_row time s) w) in
      let skipped = session_rows agent sessions w in
      if is_filtered_out agent s then skipped else shown

  pub session_list : Libraries → Flags → String → Command env
  unfolding session_rows
  session_list lib flags agent = do
    with_client lib flags
    sessions ← list Kind.session flags.namespace or_fail_with "failed to list sessions"
    w ← session_rows agent sessions (
        println tab "NAME\tAGENT\tTENANT\tPHASE\tNAMESPACE\tAGE" (new_stdout_tab_writer_helper tab))
    finish tab w
